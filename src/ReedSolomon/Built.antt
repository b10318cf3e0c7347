-- ===== src/ReedSolomon/Built.antt =====
-- What a new object holds after `SetInput` and any calls of `SetOutput`.
use mathlib.Core.Path.{ap₂}
use par2cmdline_turbo.Prelude.{
  ℕ, zero, suc, ◌+◌, ◌-◌, ◌%◌, ◌^◌, ◌<◌, ◌≤◌, ◌≡◌, refl, ap, sym, subst, ◌∙◌, Bool, true, false,
  List, [], ◌∷◌, ◌++◌, length, length-append, append_assoc, append-nil, arith,
}
use par2cmdline_turbo.ReedSolomon.{
  ReedSolomon, OutputRow, new_reed_solomon, set_input, set_output, set_outputs, set_output_range,
}
use par2cmdline_turbo.ReedSolomon.Places.{places, bases, set_input-IsAdded}
use par2cmdline_turbo.ReedSolomon.Blocks.{rows_of, rows_of-append, set_input-IsReady}

-- A call of `SetOutput`, for an exponent or for a range of them.
pub data Call : Type 0 where
  one : Bool → ℕ → Call
  range : Bool → ℕ → ℕ → Call

abbrev pub call : Call → ReedSolomon → ReedSolomon
call (one present exponent) rs = set_output present exponent rs
call (range present low high) rs = set_output_range present low high rs

-- Several calls, the first one first.
abbrev pub call_all : List Call → ReedSolomon → ReedSolomon
call_all [] rs = rs
call_all (c ∷ cs) rs = call_all cs (call c rs)

-- The exponents are u16.
abbrev pub AllWords : List Call → Type 0
AllWords [] = Unit
AllWords (one present exponent ∷ cs) = (exponent < 2 ^ 16) × AllWords cs
AllWords (range present low high ∷ cs) = ((low < 2 ^ 16) × (high < 2 ^ 16)) × AllWords cs

-- Rows with `n` exponents from `exponent` on.
abbrev pub rows_from : Bool → ℕ → ℕ → List OutputRow
rows_from present exponent zero = []
rows_from present exponent (suc n) =
    record { present = present; exponent = exponent } ∷ rows_from present (exponent + 1) n

-- The rows that calls ask for.
abbrev pub rows_called : List Call → List OutputRow
rows_called [] = []
rows_called (one present exponent ∷ cs) = rows_from present exponent 1 ++ rows_called cs
rows_called (range present low high ∷ cs) = rows_from present low (high + 1 - low) ++ rows_called cs

-- The bases `n`, `n + 1` and so on of as many inputs, as a u8.
abbrev pub numbered : ℕ → List Bool → List ℕ
numbered n [] = []
numbered n (p ∷ rest) = n % 2 ^ 8 ∷ numbered (n + 1) rest

-- The inputs and the rows that an object has been told about.
pub record IsBuilt (present : List Bool) (rows : List OutputRow) (rs : ReedSolomon) : Type 0 where
  pub inputcount : rs.inputcount ≡ length present
  pub present_at : rs.datapresentindex ≡ places true 0 present
  pub missing_at : rs.datamissingindex ≡ places false 0 present
  pub datapresent : rs.datapresent ≡ length (places true 0 present)
  pub datamissing : rs.datamissing ≡ length (places false 0 present)
  pub database : rs.database ≡ numbered 1 present
  pub outputrows : rs.outputrows ≡ rows
  pub outputcount : rs.outputcount ≡ length rows
  pub parpresent : rs.parpresent ≡ rows_of true rows
  pub parmissing : rs.parmissing ≡ rows_of false rows

bases-numbered :
    (n base : ℕ) (present : List Bool)
    → base ≡ n % 2 ^ 8
    → bases base (length present) ≡ numbered n present
bases-numbered n base [] e = refl
bases-numbered n base (p ∷ rest) e =
    ap₂ (λ (t : ℕ) (u : List ℕ). t ∷ u) e
      (bases-numbered (n + 1) ((base + 1) % 2 ^ 8) rest (omega arith))

set_input-IsBuilt : (present : List Bool) → IsBuilt present [] (set_input present new_reed_solomon)
set_input-IsBuilt present =
    let added = set_input-IsAdded present in
    let ready = set_input-IsReady present in
    record {
      inputcount = added.inputcount;
      present_at = added.datapresentindex;
      missing_at = added.datamissingindex;
      datapresent = ready.data_present ∙ ap length added.datapresentindex;
      datamissing = ready.data_missing ∙ ap length added.datamissingindex;
      database = added.database ∙ bases-numbered 1 1 present refl;
      outputrows = added.outputrows;
      outputcount = added.outputcount;
      parpresent = ready.par_present ∙ ap (rows_of true) added.outputrows;
      parmissing = ready.par_missing ∙ ap (rows_of false) added.outputrows;
    }

module _ (present : List Bool) where
  set_output-IsBuilt :
      (flag : Bool) (exponent : ℕ) (rows : List OutputRow) (rs : ReedSolomon)
      → IsBuilt present rows rs
      → IsBuilt present (rows ++ rows_from flag exponent 1) (set_output flag exponent rs)
  unfolding set_output
  set_output-IsBuilt true exponent rows rs h =
      let row = rows_from true exponent 1 in
      record {
        inputcount = h.inputcount;
        present_at = h.present_at;
        missing_at = h.missing_at;
        datapresent = h.datapresent;
        datamissing = h.datamissing;
        database = h.database;
        outputrows = ap (λ (t : List OutputRow). t ++ row) h.outputrows;
        outputcount = omega (arith, h.outputcount, length-append rows row);
        parpresent = omega (arith, h.parpresent, rows_of-append true rows row);
        parmissing = omega (arith, h.parmissing, rows_of-append false rows row);
      }
  set_output-IsBuilt false exponent rows rs h =
      let row = rows_from false exponent 1 in
      record {
        inputcount = h.inputcount;
        present_at = h.present_at;
        missing_at = h.missing_at;
        datapresent = h.datapresent;
        datamissing = h.datamissing;
        database = h.database;
        outputrows = ap (λ (t : List OutputRow). t ++ row) h.outputrows;
        outputcount = omega (arith, h.outputcount, length-append rows row);
        parpresent = omega (arith, h.parpresent, rows_of-append true rows row);
        parmissing = omega (arith, h.parmissing, rows_of-append false rows row);
      }

  set_outputs-IsBuilt :
      (n : ℕ) (flag : Bool) (exponent : ℕ) (rows : List OutputRow) (rs : ReedSolomon)
      → exponent + n ≤ 2 ^ 16
      → IsBuilt present rows rs
      → IsBuilt present (rows ++ rows_from flag exponent n) (set_outputs n flag exponent rs)
  unfolding set_outputs
  set_outputs-IsBuilt zero flag exponent rows rs most h =
      subst (λ (t : List OutputRow). IsBuilt present t rs) (sym (append-nil rows)) h
  set_outputs-IsBuilt (suc n) flag exponent rows rs most h =
      let no_wrap : exponent % 2 ^ 16 ≡ exponent = omega arith in
      let next = set_output flag (exponent % 2 ^ 16) rs in
      let row = rows_from flag exponent 1 in
      let stored =
        subst (λ (t : ℕ). IsBuilt present (rows ++ rows_from flag t 1) next) no_wrap
          (set_output-IsBuilt flag (exponent % 2 ^ 16) rows rs h) in
      subst (λ (t : List OutputRow). IsBuilt present t (set_outputs n flag (exponent + 1) next))
        (append_assoc rows row (rows_from flag (exponent + 1) n))
        (set_outputs-IsBuilt n flag (exponent + 1) (rows ++ row) next (omega arith) stored)

  call_all-append :
      (calls : List Call) (rows : List OutputRow) (rs : ReedSolomon)
      → AllWords calls
      → IsBuilt present rows rs
      → IsBuilt present (rows ++ rows_called calls) (call_all calls rs)
  unfolding set_output_range
  call_all-append [] rows rs words h =
      subst (λ (t : List OutputRow). IsBuilt present t rs) (sym (append-nil rows)) h
  call_all-append (one flag exponent ∷ cs) rows rs words h =
      subst (λ (t : List OutputRow). IsBuilt present t (call_all cs (set_output flag exponent rs)))
        (append_assoc rows (rows_from flag exponent 1) (rows_called cs))
        (call_all-append cs (rows ++ rows_from flag exponent 1) (set_output flag exponent rs)
          words.1 (set_output-IsBuilt flag exponent rows rs h))
  call_all-append (range flag low high ∷ cs) rows rs words h =
      let n = high + 1 - low in
      subst
        (λ (t : List OutputRow).
          IsBuilt present t (call_all cs (set_output_range flag low high rs)))
        (append_assoc rows (rows_from flag low n) (rows_called cs))
        (call_all-append cs (rows ++ rows_from flag low n) (set_output_range flag low high rs)
          words.1 (set_outputs-IsBuilt n flag low rows rs (omega (arith, words.0.1)) h))

-- For a new object, any list of inputs that are present or missing, and then any calls of
-- `SetOutput`, for exponents and for ranges of exponents, all below 2^16: the object holds the number
-- of inputs; the indices of the inputs that are present and of those that are missing, in order,
-- and how many there are of each; the numbers from 1 on, modulo 256, as their bases; a row for every
-- exponent that the calls name, in order and as present or missing as they say, where a range
-- names each exponent from its low to its high end; and how many rows there are, how many
-- are present and how many are missing.
pub call_all-set_input-IsBuilt :
    (present : List Bool) (calls : List Call)
    → AllWords calls
    → IsBuilt present (rows_called calls) (call_all calls (set_input present new_reed_solomon))
call_all-set_input-IsBuilt present calls words =
    call_all-append present calls [] (set_input present new_reed_solomon) words
      (set_input-IsBuilt present)
