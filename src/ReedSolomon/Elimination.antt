-- ===== src/ReedSolomon/Elimination.antt =====
-- `GaussElim` solves the equations that the two matrices stand for.
use par2cmdline_turbo.Prelude.{
  ℕ, zero, suc, ◌+◌, ◌<◌, ◌≤◌, ◌≡◌, ◌≢◌, ◌⊎◌, inl, inr, refl, ap, sym, subst, ◌∙◌, false, ◌==◌,
  some, List, [], ◌∷◌, get_or, length, arith, dec_lt, Bool-cases, passes,
}
use mathlib.Core.Path.{ap₂}
use mathlib.Core.Option.{some-injective}
use par2cmdline_turbo.ReedSolomon.Field.{Galois, beq-cases, nought_add, nought_mul}
use par2cmdline_turbo.ReedSolomon.Sums.{dot}
use par2cmdline_turbo.ReedSolomon.Reduced.{
  delta, delta_ne, IsReduced, scale_row-IsReduced, eliminate_row-IsReduced,
}
use par2cmdline_turbo.ReedSolomon.{Row, scale_row, eliminate_rows, gauss_elim, no_row}

module _ (g : Galois) where
  open g use {Element, nought, one, add, mul, beq, mul_one, mul_comm, add_nought}

  -- All rows, the first of which has the index `start`.
  abbrev pub AllRows : (ℕ → Row g → Type 0) → ℕ → List (Row g) → Type 0
  AllRows P start [] = Unit
  AllRows P start (r ∷ rs) = P start r × AllRows P (suc start) rs

  pub AllRows-get_or :
      (P : ℕ → Row g → Type 0) (start i k : ℕ) (rows : List (Row g))
      → k ≡ i + start
      → AllRows P start rows
      → i < length rows
      → P k (get_or rows i (no_row g))
  AllRows-get_or P start i k [] e h l = absurd (omega arith)
  AllRows-get_or P start zero k (r ∷ rows) e h l = subst (λ n. P n r) (omega arith) h.0
  AllRows-get_or P start (suc i) k (r ∷ rows) e h l =
      AllRows-get_or P (suc start) i k rows (omega arith) h.1 (omega arith)

  length-eliminate_rows :
      (row start : ℕ) (pivot : Row g) (rows : List (Row g))
      → length (eliminate_rows g row pivot start rows) ≡ length rows
  unfolding eliminate_rows
  length-eliminate_rows row start pivot [] = refl
  length-eliminate_rows row start pivot (r ∷ rows) =
      ap suc (length-eliminate_rows row (suc start) pivot rows)

  module _ (known unknown : List Element) (pivots : ℕ) where
    eliminate_rows-AllRows :
        (row start : ℕ) (pivot : Row g) (rows : List (Row g))
        → row < pivots
        → row < length unknown
        → IsReduced g known unknown pivots (suc row) row pivot
        → AllRows (IsReduced g known unknown pivots row) start rows
        → AllRows
            (IsReduced g known unknown pivots (suc row))
            start
            (eliminate_rows g row pivot start rows)
    unfolding eliminate_rows
    eliminate_rows-AllRows row start pivot [] within inside p h = tt
    eliminate_rows-AllRows row start pivot (r ∷ rows) within inside p h = (
      elim (Bool-cases (row == start)) [
        | inl t ↦
            let e : row ≡ start = ground (arith, t) in
            rw t (subst (λ n. IsReduced g known unknown pivots (suc row) n pivot) e p)
        | inr t ↦ rw t (
            eliminate_row-IsReduced g known unknown pivots row start pivot r within inside
              (λ e. absurd (ground (arith, t, e))) p h.0)
      ],
      eliminate_rows-AllRows row (suc start) pivot rows within inside p h.1,
    )

    -- Every round clears the column of its pivot.
    pub gauss_elim-AllRows :
        (rounds row : ℕ) (rows out : List (Row g))
        → row + rounds ≡ pivots
        → pivots ≤ length unknown
        → length rows ≡ length unknown
        → AllRows (IsReduced g known unknown pivots row) 0 rows
        → gauss_elim g rounds row rows ≡ some out
        → AllRows (IsReduced g known unknown pivots pivots) 0 out × (length out ≡ length unknown)
    unfolding gauss_elim
    gauss_elim-AllRows zero row rows out e l n h done =
        let same : rows ≡ out = some-injective _ _ done in
        let all : AllRows (IsReduced g known unknown pivots pivots) 0 rows =
          subst (λ b. AllRows (IsReduced g known unknown pivots b) 0 rows) (omega arith) h in
        (
          subst (λ out'. AllRows (IsReduced g known unknown pivots pivots) 0 out') same all,
          ap length (sym same) ∙ n,
        )
    gauss_elim-AllRows (suc rounds) row rows out e l n h done =
        let r = get_or rows row (no_row g) in
        let p = get_or r.right row nought in
        let (t, more) = passes (beq p nought) _ out done in
        let pivot = scale_row g p row r in
        let reduced =
          AllRows-get_or (IsReduced g known unknown pivots row) 0 row row rows (omega arith) h
            (omega arith) in
        let nonzero : p ≢ nought = not_nought p t in
        gauss_elim-AllRows rounds (suc row) (eliminate_rows g row pivot 0 rows) out (omega arith) l
          (length-eliminate_rows row 0 pivot rows ∙ n)
          (eliminate_rows-AllRows row 0 pivot rows (omega arith) (omega arith)
            (scale_row-IsReduced g known unknown pivots row r (omega arith) (omega arith) nonzero
              reduced)
            h)
          more
      where
        not_nought : (p : Element) → beq p nought ≡ false → p ≢ nought
        not_nought p t = elim (beq-cases g p nought) [ inl (u, e) ↦ absurd (cc) | inr (u, n) ↦ n ]

  dot_nought :
      (xs ys : List Element)
      → ((j : ℕ) → j < length xs → get_or xs j nought ≡ nought)
      → dot g xs ys ≡ nought
  dot_nought [] ys h = refl
  dot_nought (x ∷ xs) [] h = refl
  dot_nought (x ∷ xs) (y ∷ ys) h =
      ap₂ add (ap (λ (u : Element). mul u y) (h 0 (omega arith)) ∙ nought_mul g y)
        (dot_nought xs ys (λ j l. h (suc j) (omega arith)))
      ∙ add_nought nought

  delta_at : (i j : ℕ) → j ≡ i → delta g i j ≡ one
  delta_at i j h = ground arith

  -- A row of the unit matrix picks one block out.
  pub dot-delta :
      (i start k : ℕ) (xs ys : List Element)
      → k + start ≡ i
      → k < length xs
      → length xs ≡ length ys
      → ((j : ℕ) → j < length xs → get_or xs j nought ≡ delta g i (j + start))
      → dot g xs ys ≡ get_or ys k nought
  dot-delta i start k [] ys e l n h = absurd (omega arith)
  dot-delta i start k (x ∷ xs) [] e l n h = absurd (omega arith)
  dot-delta i start zero (x ∷ xs) (y ∷ ys) e l n h =
      ap₂ add
        (ap (λ (u : Element). mul u y) (h 0 (omega arith) ∙ delta_at i (0 + start) e)
          ∙ mul_comm one y
          ∙ mul_one y)
        (dot_nought xs ys
          (λ j m. h (suc j) (omega arith) ∙ delta_ne g i (suc j + start) (λ q. omega arith)))
      ∙ add_nought y
  dot-delta i start (suc k) (x ∷ xs) (y ∷ ys) e l n h =
      ap₂ add
        (ap (λ (u : Element). mul u y)
            (h 0 (omega arith) ∙ delta_ne g i (0 + start) (λ q. omega arith))
          ∙ nought_mul g y)
        (dot-delta i (suc start) k xs ys (omega arith) (omega arith) (omega arith)
          (λ j m. h (suc j) (omega arith) ∙ ap (delta g i) (shift j start)))
      ∙ nought_add g (get_or ys k nought)
    where
      shift : (j start : ℕ) → suc j + start ≡ j + suc start
      shift j start = omega arith

  -- What a reduced row says when all columns have been cleared.
  pub solved :
      (known unknown : List Element) (pivots i : ℕ) (r : Row g)
      → i < length unknown
      → IsReduced g known unknown pivots pivots i r
      → dot g r.left known ≡ get_or unknown i nought
  solved known unknown pivots i r l h =
      h.holds
      ∙ dot-delta i 0 i r.right unknown (omega arith) (omega (arith, h.right_width)) h.right_width
          (λ j m.
            h.clear j (either j) (omega (arith, h.right_width)) ∙ ap (delta g i) (omega arith))
    where
      either : (j : ℕ) → (j < pivots) ⊎ (pivots ≤ j)
      either j = elim (dec_lt j pivots) [ yes q ↦ inl q | no q ↦ inr (omega arith) ]
