-- ===== src/Par1/Volumes.antt =====
-- The object that `ComputeRSmatrix` sets up, and the blocks that it stands for.
use mathlib.Core.Path.{ap₂}
use mathlib.Core.Option.{some-injective}
use par2cmdline_turbo.Prelude.{
  ℕ, zero, suc, ◌+◌, ◌%◌, ◌^◌, ◌≡◌, refl, ap, sym, subst, ◌∙◌, Bool, true, false, some, List, [],
  ◌∷◌, ◌++◌, map, length, append_assoc, append-nil, arith,
}
use par2cmdline_turbo.ReedSolomon.{
  ReedSolomon, OutputRow, new_reed_solomon, set_input, set_output, next_exponents,
}
use par2cmdline_turbo.ReedSolomon.Bytes.{Byte, galois8}
use par2cmdline_turbo.ReedSolomon.Blocks.{
  IsReady, pick, recovery_block, set_input-IsReady, set_output-IsReady,
}
use par2cmdline_turbo.ReedSolomon.Places.{
  places, bases, chosen, present_row, set_input-IsAdded, pick-places, next_exponents-present_row,
}
use par2cmdline_turbo.ReedSolomon.Filled.{blocks_of, known_blocks}
use par2cmdline_turbo.Par1.{missing_count, use_recovery}

-- The exponents that are used.
abbrev pub used_exponents : ℕ → List ℕ → List ℕ
used_exponents zero exponents = []
used_exponents (suc n) [] = []
used_exponents (suc n) (e ∷ es) = e % 2 ^ 16 ∷ used_exponents n es

-- The recovery bytes of a byte of each file: the powers of the bases 1, 2, and so on, that are stored
-- in a u8, times the bytes.
abbrev pub volume_bytes : ℕ → List ℕ → List Byte → List Byte
volume_bytes count [] blocks = []
volume_bytes count (e ∷ es) blocks =
    recovery_block galois8 count (bases 1 count) blocks e ∷ volume_bytes count es blocks

-- What the loop over the recovery blocks adds.
record IsExtended (left : ℕ) (exponents : List ℕ) (rs out : ReedSolomon) : Type 0 where
  inputcount : out.inputcount ≡ rs.inputcount
  datamissing : out.datamissing ≡ rs.datamissing
  datapresentindex : out.datapresentindex ≡ rs.datapresentindex
  datamissingindex : out.datamissingindex ≡ rs.datamissingindex
  database : out.database ≡ rs.database
  outputrows : out.outputrows ≡ rs.outputrows ++ map present_row (used_exponents left exponents)
  enough : length (used_exponents left exponents) ≡ left
  ready : IsReady rs → IsReady out

use_recovery-IsExtended :
    (left : ℕ) (exponents : List ℕ) (rs out : ReedSolomon)
    → use_recovery left exponents rs ≡ some out
    → IsExtended left exponents rs out
unfolding use_recovery set_output
use_recovery-IsExtended zero exponents rs out e =
    subst (IsExtended zero exponents rs) (some-injective _ _ e) (record {
      inputcount = refl;
      datamissing = refl;
      datapresentindex = refl;
      datamissingindex = refl;
      database = refl;
      outputrows = sym (append-nil rs.outputrows);
      enough = refl;
      ready = λ h. h;
    })
use_recovery-IsExtended (suc left) [] rs out e = absurd (ground arith)
use_recovery-IsExtended (suc left) (exponent ∷ exponents) rs out e =
    let h = use_recovery-IsExtended left exponents (set_output true (exponent % 2 ^ 16) rs) out e in
    record {
      inputcount = h.inputcount;
      datamissing = h.datamissing;
      datapresentindex = h.datapresentindex;
      datamissingindex = h.datamissingindex;
      database = h.database;
      outputrows =
          h.outputrows ∙ append_assoc rs.outputrows (present_row (exponent % 2 ^ 16) ∷ []) _;
      enough = ap suc h.enough;
      ready = λ r. h.ready (set_output-IsReady true (exponent % 2 ^ 16) rs r);
    }

length-places :
    (index : ℕ) (present : List Bool) → length (places false index present) ≡ missing_count present
length-places index [] = refl
length-places index (true ∷ present) = omega (arith, length-places (index + 1) present)
length-places index (false ∷ present) = omega (arith, length-places (index + 1) present)

-- What is known about the object.
pub record IsSetUp (present : List Bool) (exponents : List ℕ) (rs : ReedSolomon) : Type 0 where
  pub ready : IsReady rs
  pub datamissing : rs.datamissing ≡ missing_count present
  pub known :
      (blocks : List Byte)
      → length blocks ≡ length present
      → known_blocks galois8 rs blocks
        ≡ chosen true present blocks
          ++ volume_bytes (length present) (used_exponents (missing_count present) exponents) blocks
  pub missing :
      (blocks : List Byte)
      → length blocks ≡ length present
      → pick galois8 blocks rs.datamissingindex ≡ chosen false present blocks

blocks_of_lem :
    (rs : ReedSolomon) (count : ℕ) (blocks : List Byte) (es : List ℕ)
    → rs.inputcount ≡ count
    → rs.database ≡ bases 1 count
    → blocks_of galois8 rs blocks es ≡ volume_bytes count es blocks
blocks_of_lem rs count blocks [] h k = refl
blocks_of_lem rs count blocks (e ∷ es) h k =
    ap₂ (λ (x : Byte) (xs : List Byte). x ∷ xs)
      (ap₂ (λ (n : ℕ) (d : List ℕ). recovery_block galois8 n d blocks e) h k)
      (blocks_of_lem rs count blocks es h k)

pub use_recovery-IsSetUp :
    (present : List Bool) (exponents : List ℕ) (rs : ReedSolomon)
    → use_recovery (missing_count present) exponents (set_input present new_reed_solomon) ≡ some rs
    → IsSetUp present exponents rs
use_recovery-IsSetUp present exponents rs e =
    let a = set_input-IsAdded present in
    let start = set_input-IsReady present in
    let h =
      use_recovery-IsExtended (missing_count present) exponents (set_input present new_reed_solomon)
        rs e in
    let es = used_exponents (missing_count present) exponents in
    let ready = h.ready start in
    let missing : rs.datamissingindex ≡ places false 0 present =
      h.datamissingindex ∙ a.datamissingindex in
    let count : rs.datamissing ≡ missing_count present =
      ready.data_missing ∙ ap length missing ∙ length-places 0 present in
    let exps : next_exponents true rs.datamissing rs.outputrows ≡ es =
      ap (next_exponents true rs.datamissing)
        (h.outputrows ∙ ap (λ (rows : List OutputRow). rows ++ map present_row es) a.outputrows)
      ∙ next_exponents-present_row rs.datamissing es (count ∙ sym h.enough) in
    record {
      ready = ready;
      datamissing = count;
      known = λ blocks n.
          ap₂ (λ (is es' : List ℕ). pick galois8 blocks is ++ blocks_of galois8 rs blocks es')
            (h.datapresentindex ∙ a.datapresentindex) exps
          ∙ ap₂ (λ (xs ys : List Byte). xs ++ ys) (pick-places galois8 true present blocks n)
              (blocks_of_lem rs (length present) blocks es (h.inputcount ∙ a.inputcount)
                (h.database ∙ a.database));
      missing =
          λ blocks n. ap (pick galois8 blocks) missing ∙ pick-places galois8 false present blocks n;
    }
