-- ===== src/ReedSolomon/Recovery.antt =====
-- What the matrix that `Compute` leaves behind recovers.
use par2cmdline_turbo.Prelude.{
  ℕ, suc, ◌+◌, ◌<◌, ◌≤◌, ◌≡◌, refl, ap, sym, subst, ◌∙◌, Bool, ◌==◌, some, List, [], ◌∷◌, ltb,
  if◌then◌else◌, get_or, length, length-append, arith, ltb→le, passes, dec_lt, lt→ltb, le→ltb,
}
use mathlib.Core.Option.{some-injective}
use par2cmdline_turbo.ReedSolomon.Field.{Galois}
use par2cmdline_turbo.ReedSolomon.Sums.{dot}
use par2cmdline_turbo.ReedSolomon.Reduced.{IsReduced}
use par2cmdline_turbo.ReedSolomon.Elimination.{AllRows, AllRows-get_or, gauss_elim-AllRows, solved}
use par2cmdline_turbo.ReedSolomon.Blocks.{IsReady}
use par2cmdline_turbo.ReedSolomon.Rows.{AllRows-append}
use par2cmdline_turbo.ReedSolomon.Filled.{
  blocks_of, known_blocks, wanted_blocks, used, lost, IsFilled, length-used, length-lost,
  length-wanted, present_row-IsFilled, missing_row-IsFilled,
}
use par2cmdline_turbo.ReedSolomon.{
  ReedSolomon, Row, present_rows, missing_rows, matrices, compute, gauss_elim, no_row,
}

module _ (g : Galois) (rs : ReedSolomon) (blocks : List g.Element) where
  open g use {Element, nought}

  length-present_rows : (row : ℕ) (es : List ℕ) → length (present_rows g rs row es) ≡ length es
  unfolding present_rows
  length-present_rows row [] = refl
  length-present_rows row (e ∷ es) = ap suc (length-present_rows (suc row) es)

  length-missing_rows : (row : ℕ) (es : List ℕ) → length (missing_rows g rs row es) ≡ length es
  unfolding missing_rows
  length-missing_rows row [] = refl
  length-missing_rows row (e ∷ es) = ap suc (length-missing_rows (suc row) es)

  module _ (ready : IsReady rs) (enough : rs.datamissing ≤ rs.parpresent) where
    -- The exponents `es` are those from place `row` on.
    abbrev IsTail : List ℕ → ℕ → List ℕ → Type 0
    IsTail all row es =
        (k : ℕ)
        → k < length es
        → get_or (blocks_of g rs blocks all) (row + k) nought
          ≡ get_or (blocks_of g rs blocks es) k nought

    later_place :
        (all : List ℕ) (row e : ℕ) (es : List ℕ) → IsTail all row (e ∷ es) → IsTail all (suc row) es
    later_place all row e es h k l =
        ap (λ (n : ℕ). get_or (blocks_of g rs blocks all) n nought) (next row k)
        ∙ h (suc k) (omega arith)
      where
        next : (row k : ℕ) → suc row + k ≡ row + suc k
        next row k = omega arith

    first_place :
        (all : List ℕ) (row e : ℕ) (es : List ℕ)
        → IsTail all row (e ∷ es)
        → get_or (blocks_of g rs blocks all) row nought
          ≡ get_or (blocks_of g rs blocks (e ∷ es)) 0 nought
    first_place all row e es h =
        ap (λ (n : ℕ). get_or (blocks_of g rs blocks all) n nought) (same row) ∙ h 0 (omega arith)
      where
        same : (row : ℕ) → row ≡ row + 0
        same row = omega arith

    whole_list : (all : List ℕ) → IsTail all 0 all
    whole_list all k l = ap (λ (n : ℕ). get_or (blocks_of g rs blocks all) n nought) (start k)
      where
        start : (k : ℕ) → 0 + k ≡ k
        start k = omega arith

    present_rows-AllRows :
        (row : ℕ) (es : List ℕ)
        → row + length es ≡ rs.datamissing
        → IsTail (used g rs blocks ready) row es
        → AllRows g (IsFilled g rs blocks ready) row (present_rows g rs row es)
    unfolding present_rows
    present_rows-AllRows row [] l h = tt
    present_rows-AllRows row (e ∷ es) l h = (
      present_row-IsFilled g rs blocks ready enough row e (omega arith)
          (first_place (used g rs blocks ready) row e es h),
      present_rows-AllRows (suc row) es (omega arith)
          (later_place (used g rs blocks ready) row e es h),
    )

    missing_rows-AllRows :
        (row i : ℕ) (es : List ℕ)
        → row + length es ≡ rs.parmissing
        → i ≡ rs.datamissing + row
        → IsTail (lost g rs blocks ready) row es
        → AllRows g (IsFilled g rs blocks ready) i (missing_rows g rs row es)
    unfolding missing_rows
    missing_rows-AllRows row i [] l at h = tt
    missing_rows-AllRows row i (e ∷ es) l at h = (
      missing_row-IsFilled g rs blocks ready enough row i e (omega arith) at
          (first_place (lost g rs blocks ready) row e es h),
      missing_rows-AllRows (suc row) (suc i) es (omega arith) (omega arith)
          (later_place (lost g rs blocks ready) row e es h),
    )

    matrices-AllRows : AllRows g (IsFilled g rs blocks ready) 0 (matrices g rs)
    unfolding matrices
    matrices-AllRows =
        AllRows-append g (IsFilled g rs blocks ready) 0 rs.datamissing
          (present_rows g rs 0 (used g rs blocks ready))
          (missing_rows g rs 0 (lost g rs blocks ready))
          (omega (
            arith,
            length-used g rs blocks ready enough,
            length-present_rows 0 (used g rs blocks ready),
          ))
          (present_rows-AllRows 0 (used g rs blocks ready)
            (omega (arith, length-used g rs blocks ready enough))
            (whole_list (used g rs blocks ready)))
          (missing_rows-AllRows 0 rs.datamissing (lost g rs blocks ready)
            (omega (arith, length-lost g rs blocks ready)) (omega arith)
            (whole_list (lost g rs blocks ready)))

    length-matrices : length (matrices g rs) ≡ length (wanted_blocks g rs blocks)
    unfolding matrices
    length-matrices = omega (
      arith,
      length-append (present_rows g rs 0 (used g rs blocks ready))
          (missing_rows g rs 0 (lost g rs blocks ready)),
      length-present_rows 0 (used g rs blocks ready),
      length-missing_rows 0 (lost g rs blocks ready),
      length-used g rs blocks ready enough,
      length-lost g rs blocks ready,
      length-wanted g rs blocks ready,
    )

    -- All rows of the result hold, and the columns of the unknown blocks are the unit matrix.
    abbrev AllClear : List (Row g) → Type 0
    AllClear out =
        AllRows g
          (IsReduced g (known_blocks g rs blocks) (wanted_blocks g rs blocks) rs.datamissing
            rs.datamissing)
          0 out
        × (length out ≡ length (wanted_blocks g rs blocks))

    -- The last two branches of `Compute`
    solved_rows :
        (out : List (Row g))
        → (if ltb 0 rs.datamissing
            then gauss_elim g rs.datamissing 0 (matrices g rs)
            else some (matrices g rs))
          ≡ some out
        → AllClear out
    solved_rows out e = elim (dec_lt 0 rs.datamissing) [
      | yes h ↦
          let done : gauss_elim g rs.datamissing 0 (matrices g rs) ≡ some out =
            sym (
              ap
                (λ (b : Bool).
                  if b then gauss_elim g rs.datamissing 0 (matrices g rs) else some (matrices g rs))
                (lt→ltb 0 rs.datamissing h))
            ∙ e in
          gauss_elim-AllRows g (known_blocks g rs blocks) (wanted_blocks g rs blocks) rs.datamissing
            rs.datamissing 0 (matrices g rs) out (omega arith)
            (omega (arith, length-wanted g rs blocks ready)) length-matrices matrices-AllRows done
      | no h ↦
          let same : matrices g rs ≡ out = some-injective _ _ (
            sym (
              ap
                (λ (b : Bool).
                  if b then gauss_elim g rs.datamissing 0 (matrices g rs) else some (matrices g rs))
                (le→ltb 0 rs.datamissing (omega arith)))
            ∙ e) in
          let none_left : 0 ≡ rs.datamissing = omega arith in
          (
            subst
                (λ out'.
                  AllRows g
                    (IsReduced g (known_blocks g rs blocks) (wanted_blocks g rs blocks)
                      rs.datamissing rs.datamissing)
                    0 out')
                same
                (subst
                  (λ n.
                    AllRows g
                      (IsReduced g (known_blocks g rs blocks) (wanted_blocks g rs blocks)
                        rs.datamissing n)
                      0 (matrices g rs))
                  none_left matrices-AllRows),
            ap length (sym same) ∙ length-matrices,
          )
    ]

  -- The rows of the result
  compute-IsReduced :
      (out : List (Row g)) (i : ℕ)
      → IsReady rs
      → compute g rs ≡ some out
      → i < rs.datamissing + rs.parmissing
      → IsReduced g
          (known_blocks g rs blocks)
          (wanted_blocks g rs blocks)
          rs.datamissing
          rs.datamissing
          i
          (get_or out i (no_row g))
        × (i < length (wanted_blocks g rs blocks))
  unfolding compute
  compute-IsReduced out i ready e l =
      let (t, more) = passes (ltb rs.parpresent rs.datamissing) _ out e in
      let (u, last) = passes (rs.datamissing + rs.parmissing == 0) _ out more in
      let enough : rs.datamissing ≤ rs.parpresent = ltb→le rs.parpresent rs.datamissing t in
      let (all, n) = solved_rows ready enough out last in
      let inside : i < length (wanted_blocks g rs blocks) =
        omega (arith, length-wanted g rs blocks ready) in
      (
        AllRows-get_or g
            (IsReduced g (known_blocks g rs blocks) (wanted_blocks g rs blocks) rs.datamissing
              rs.datamissing)
            0 i i out (omega arith) all (omega arith),
        inside,
      )

  -- For a matrix whose inputs and outputs have been set, when `Compute` succeeds: for all data, each
  -- row of the left matrix, applied to the present input blocks followed by the recovery blocks of
  -- that data that are used, gives a block that is to be made: first the missing input blocks in
  -- order, then the recovery blocks that are missing.
  pub compute_recovers :
      (out : List (Row g)) (i : ℕ)
      → IsReady rs
      → compute g rs ≡ some out
      → i < rs.datamissing + rs.parmissing
      → dot g (get_or out i (no_row g)).left (known_blocks g rs blocks)
        ≡ get_or (wanted_blocks g rs blocks) i nought
  compute_recovers out i ready e l =
      let (reduced, inside) = compute-IsReduced out i ready e l in
      solved g (known_blocks g rs blocks) (wanted_blocks g rs blocks) rs.datamissing i
        (get_or out i (no_row g)) inside reduced

  pub length-compute :
      (out : List (Row g)) (i : ℕ)
      → IsReady rs
      → compute g rs ≡ some out
      → i < rs.datamissing + rs.parmissing
      → length (get_or out i (no_row g)).left ≡ length (known_blocks g rs blocks)
  length-compute out i ready e l = (compute-IsReduced out i ready e l).0.left_width
