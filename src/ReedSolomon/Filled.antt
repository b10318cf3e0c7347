-- ===== src/ReedSolomon/Filled.antt =====
-- The rows that `Compute` fills in hold for all blocks.
use par2cmdline_turbo.Prelude.{
  ℕ, suc, ◌+◌, ◌-◌, ◌<◌, ◌≤◌, ◌≡◌, ◌⊎◌, inl, inr, refl, ap, sym, ◌∙◌, true, false, List, [], ◌∷◌,
  ◌++◌, get_or, replicate, get_or-replicate, length-replicate, length, length-append, arith,
}
use par2cmdline_turbo.ReedSolomon.Field.{Galois, add_cancel}
use par2cmdline_turbo.ReedSolomon.Sums.{dot, dot-append, dot-zeros}
use par2cmdline_turbo.ReedSolomon.Reduced.{delta, delta_ne, IsReduced}
use par2cmdline_turbo.ReedSolomon.Blocks.{IsReady, pick, recovery_block, recovery_block-IsSplit}
use par2cmdline_turbo.ReedSolomon.{ReedSolomon, Row, next_exponents, unit_row, powers}
use par2cmdline_turbo.ReedSolomon.Rows.{
  length-next_exponents, length-powers, length-pick, length-unit_row, get_or-unit_row,
  get_or-append_behind, dot-unit_row,
}

module _ (g : Galois) where
  open g use {Element, nought, one, add, mul, add_assoc, add_comm, add_nought, add_self}

  -- The recovery blocks with these exponents.
  abbrev pub blocks_of : ReedSolomon → List Element → List ℕ → List Element
  blocks_of rs blocks [] = []
  blocks_of rs blocks (e ∷ es) =
      recovery_block g rs.inputcount rs.database blocks e ∷ blocks_of rs blocks es

  length-blocks_of :
      (rs : ReedSolomon) (blocks : List Element) (es : List ℕ)
      → length (blocks_of rs blocks es) ≡ length es
  length-blocks_of rs blocks [] = refl
  length-blocks_of rs blocks (e ∷ es) = ap suc (length-blocks_of rs blocks es)

  -- The blocks that are at hand: the present inputs, and a recovery block for each missing one.
  abbrev pub known_blocks : ReedSolomon → List Element → List Element
  known_blocks rs blocks =
      pick g blocks rs.datapresentindex
      ++ blocks_of rs blocks (next_exponents true rs.datamissing rs.outputrows)

  -- The blocks to be made: the missing inputs, and the recovery blocks that are missing.
  abbrev pub wanted_blocks : ReedSolomon → List Element → List Element
  wanted_blocks rs blocks =
      pick g blocks rs.datamissingindex
      ++ blocks_of rs blocks (next_exponents false rs.parmissing rs.outputrows)

  cancel_left : (a b : Element) → add a (add a b) ≡ b
  cancel_left a b =
      add_comm a (add a b) ∙ ap (λ (u : Element). add u a) (add_comm a b) ∙ add_cancel g b a

  module _ (rs : ReedSolomon) (blocks : List Element) (ready : IsReady rs) where
    abbrev pub used : List ℕ
    used = next_exponents true rs.datamissing rs.outputrows

    abbrev pub lost : List ℕ
    lost = next_exponents false rs.parmissing rs.outputrows

    abbrev pub IsFilled : ℕ → Row g → Type 0
    IsFilled = IsReduced g (known_blocks rs blocks) (wanted_blocks rs blocks) rs.datamissing 0

    -- What the present inputs contribute to a recovery block, and what the missing ones do.
    abbrev present_part : ℕ → Element
    present_part exponent =
        dot g (powers g rs.database exponent rs.datapresentindex)
          (pick g blocks rs.datapresentindex)

    abbrev missing_part : ℕ → Element
    missing_part exponent =
        dot g (powers g rs.database exponent rs.datamissingindex)
          (pick g blocks rs.datamissingindex)

    left_value :
        (exponent : ℕ) (row : List Element)
        → dot g (powers g rs.database exponent rs.datapresentindex ++ row) (known_blocks rs blocks)
          ≡ add (present_part exponent) (dot g row (blocks_of rs blocks used))
    left_value exponent row =
        dot-append g (powers g rs.database exponent rs.datapresentindex) row
          (pick g blocks rs.datapresentindex) (blocks_of rs blocks used)
          (length-powers g rs.database exponent rs.datapresentindex
            ∙ sym (length-pick g blocks rs.datapresentindex))

    right_value :
        (exponent : ℕ) (row : List Element)
        → dot g (powers g rs.database exponent rs.datamissingindex ++ row) (wanted_blocks rs blocks)
          ≡ add (missing_part exponent) (dot g row (blocks_of rs blocks lost))
    right_value exponent row =
        dot-append g (powers g rs.database exponent rs.datamissingindex) row
          (pick g blocks rs.datamissingindex) (blocks_of rs blocks lost)
          (length-powers g rs.database exponent rs.datamissingindex
            ∙ sym (length-pick g blocks rs.datamissingindex))

    both_parts :
        (exponent : ℕ)
        → recovery_block g rs.inputcount rs.database blocks exponent
          ≡ add (present_part exponent) (missing_part exponent)
    both_parts exponent =
        recovery_block-IsSplit g rs.database exponent blocks rs.inputcount rs.datapresentindex
          rs.datamissingindex ready.inputs

    pub length-lost : length lost ≡ rs.parmissing
    length-lost =
        length-next_exponents false rs.parmissing rs.outputrows (omega (arith, ready.par_missing))

    -- The lengths of the rows.
    row_width :
        (exponent : ℕ) (is es : List ℕ) (row : List Element)
        → length row ≡ length es
        → length (powers g rs.database exponent is ++ row)
          ≡ length (pick g blocks is ++ blocks_of rs blocks es)
    row_width exponent is es row h = omega (
      arith,
      length-append (powers g rs.database exponent is) row,
      length-powers g rs.database exponent is,
      length-append (pick g blocks is) (blocks_of rs blocks es),
      length-pick g blocks is,
      length-blocks_of rs blocks es,
    )

    pub length-wanted : length (wanted_blocks rs blocks) ≡ rs.datamissing + rs.parmissing
    length-wanted = omega (
      arith,
      length-append (pick g blocks rs.datamissingindex) (blocks_of rs blocks lost),
      length-pick g blocks rs.datamissingindex,
      length-blocks_of rs blocks lost,
      length-lost,
      ready.data_missing,
    )

    -- The columns behind the missing inputs.
    behind : (j : ℕ) → (j < 0) ⊎ (rs.datamissing ≤ j) → rs.datamissing ≤ j
    behind j (inl h) = absurd (omega arith)
    behind j (inr h) = h

    right_behind :
        (exponent j : ℕ) (row : List Element)
        → rs.datamissing ≤ j
        → get_or (powers g rs.database exponent rs.datamissingindex ++ row) j nought
          ≡ get_or row (j - rs.datamissing) nought
    right_behind exponent j row h =
        get_or-append_behind g (powers g rs.database exponent rs.datamissingindex) row j
          (j - rs.datamissing)
          (omega
            (arith, length-powers g rs.database exponent rs.datamissingindex, ready.data_missing))

    zero_behind :
        (exponent row j : ℕ)
        → rs.datamissing ≤ j
        → row < rs.datamissing
        → get_or
            (powers g rs.database exponent rs.datamissingindex ++ replicate rs.parmissing nought)
            j
            nought
          ≡ delta g row j
    zero_behind exponent row j h l =
        right_behind exponent j (replicate rs.parmissing nought) h
        ∙ get_or-replicate rs.parmissing (j - rs.datamissing) nought
        ∙ sym (delta_ne g row j (λ q. omega arith))

    delta_shift :
        (row i j : ℕ)
        → i ≡ rs.datamissing + row
        → rs.datamissing ≤ j
        → delta g row ((j - rs.datamissing) + 0) ≡ delta g i j
    delta_shift row i j at h = ground arith

    unit_behind :
        (exponent row i j : ℕ)
        → i ≡ rs.datamissing + row
        → rs.datamissing ≤ j
        → j < rs.datamissing + rs.parmissing
        → get_or
            (powers g rs.database exponent rs.datamissingindex ++ unit_row g row 0 rs.parmissing)
            j
            nought
          ≡ delta g i j
    unit_behind exponent row i j at h l =
        right_behind exponent j (unit_row g row 0 rs.parmissing) h
        ∙ get_or-unit_row g row 0 rs.parmissing (j - rs.datamissing) (omega arith)
        ∙ delta_shift row i j at h

    module _ (enough : rs.datamissing ≤ rs.parpresent) where
      pub length-used : length used ≡ rs.datamissing
      length-used =
          length-next_exponents true rs.datamissing rs.outputrows
            (omega (arith, ready.par_present, enough))

      pub present_row-IsFilled :
          (row exponent : ℕ)
          → row < rs.datamissing
          → get_or (blocks_of rs blocks used) row nought
            ≡ recovery_block g rs.inputcount rs.database blocks exponent
          → IsFilled row (record {
            left =
                powers g rs.database exponent rs.datapresentindex
                ++ unit_row g row 0 rs.datamissing;
            right =
                powers g rs.database exponent rs.datamissingindex ++ replicate rs.parmissing nought;
          })
      present_row-IsFilled row exponent h e = record {
        left_width =
            row_width exponent rs.datapresentindex used (unit_row g row 0 rs.datamissing)
              (length-unit_row g row 0 rs.datamissing ∙ sym length-used);
        right_width =
            row_width exponent rs.datamissingindex lost (replicate rs.parmissing nought)
              (length-replicate rs.parmissing nought ∙ sym length-lost);
        clear = λ j c l. zero_behind exponent row j (behind j c) (omega arith);
        holds =
            left_value exponent (unit_row g row 0 rs.datamissing)
            ∙ ap (add (present_part exponent)) (
                dot-unit_row g row rs.datamissing (blocks_of rs blocks used) h
                  (sym (length-blocks_of rs blocks used ∙ length-used))
                ∙ e
                ∙ both_parts exponent)
            ∙ cancel_left (present_part exponent) (missing_part exponent)
            ∙ sym (
                right_value exponent (replicate rs.parmissing nought)
                ∙ ap (add (missing_part exponent))
                    (dot-zeros g rs.parmissing (blocks_of rs blocks lost))
                ∙ add_nought (missing_part exponent));
      }

      pub missing_row-IsFilled :
          (row i exponent : ℕ)
          → row < rs.parmissing
          → i ≡ rs.datamissing + row
          → get_or (blocks_of rs blocks lost) row nought
            ≡ recovery_block g rs.inputcount rs.database blocks exponent
          → IsFilled i (record {
            left =
                powers g rs.database exponent rs.datapresentindex
                ++ replicate rs.datamissing nought;
            right =
                powers g rs.database exponent rs.datamissingindex ++ unit_row g row 0 rs.parmissing;
          })
      missing_row-IsFilled row i exponent h at e = record {
        left_width =
            row_width exponent rs.datapresentindex used (replicate rs.datamissing nought)
              (length-replicate rs.datamissing nought ∙ sym length-used);
        right_width =
            row_width exponent rs.datamissingindex lost (unit_row g row 0 rs.parmissing)
              (length-unit_row g row 0 rs.parmissing ∙ sym length-lost);
        clear =
            λ j c l. unit_behind exponent row i j at (behind j c) (omega (arith, length-wanted));
        holds =
            left_value exponent (replicate rs.datamissing nought)
            ∙ ap (add (present_part exponent))
                (dot-zeros g rs.datamissing (blocks_of rs blocks used))
            ∙ add_nought (present_part exponent)
            ∙ sym (
                right_value exponent (unit_row g row 0 rs.parmissing)
                ∙ ap (add (missing_part exponent)) (
                    dot-unit_row g row rs.parmissing (blocks_of rs blocks lost) h
                      (sym (length-blocks_of rs blocks lost ∙ length-lost))
                    ∙ e
                    ∙ both_parts exponent
                    ∙ add_comm (present_part exponent) (missing_part exponent))
                ∙ cancel_left (missing_part exponent) (present_part exponent));
      }
