-- ===== src/ReedSolomon/Rows.antt =====
-- The sizes of the rows, and what stands in them.
use par2cmdline_turbo.Prelude.{
  ℕ, zero, suc, ◌+◌, ◌<◌, ◌≤◌, ◌≡◌, refl, ap, subst, ◌∙◌, Bool, List, [], ◌∷◌, ◌++◌, get_or, length,
  arith,
}
use par2cmdline_turbo.ReedSolomon.Field.{Galois}
use par2cmdline_turbo.ReedSolomon.Sums.{dot}
use par2cmdline_turbo.ReedSolomon.Reduced.{delta}
use par2cmdline_turbo.ReedSolomon.Elimination.{AllRows, dot-delta}
use par2cmdline_turbo.ReedSolomon.Blocks.{rows_of, pick}
use par2cmdline_turbo.ReedSolomon.{OutputRow, Row, next_exponents, unit_row, powers}

pub length-next_exponents :
    (wanted : Bool) (n : ℕ) (rows : List OutputRow)
    → n ≤ rows_of wanted rows
    → length (next_exponents wanted n rows) ≡ n
unfolding next_exponents
length-next_exponents wanted n [] h = omega arith
length-next_exponents wanted zero (row ∷ rows) h = refl
length-next_exponents wanted (suc n) (row ∷ rows) h =
    ground (arith, length-next_exponents wanted n rows, length-next_exponents wanted (suc n) rows)

module _ (g : Galois) where
  open g use {Element, nought, one, add, mul, add_assoc, add_comm, add_nought, add_self}

  pub length-powers :
      (database : List ℕ) (exponent : ℕ) (is : List ℕ)
      → length (powers g database exponent is) ≡ length is
  unfolding powers
  length-powers database exponent [] = refl
  length-powers database exponent (i ∷ is) = ap suc (length-powers database exponent is)

  pub length-pick : (blocks : List Element) (is : List ℕ) → length (pick g blocks is) ≡ length is
  length-pick blocks [] = refl
  length-pick blocks (i ∷ is) = ap suc (length-pick blocks is)

  pub length-unit_row : (row col n : ℕ) → length (unit_row g row col n) ≡ n
  unfolding unit_row
  length-unit_row row col zero = refl
  length-unit_row row col (suc n) = ap suc (length-unit_row row (suc col) n)

  pub get_or-unit_row :
      (row col n j : ℕ) → j < n → get_or (unit_row g row col n) j nought ≡ delta g row (j + col)
  unfolding unit_row
  get_or-unit_row row col zero j h = absurd (omega arith)
  get_or-unit_row row col (suc n) zero h = ap (delta g row) (omega arith)
  get_or-unit_row row col (suc n) (suc j) h =
      get_or-unit_row row (suc col) n j (omega arith) ∙ ap (delta g row) (omega arith)

  pub get_or-append_behind :
      (xs ys : List Element) (j k : ℕ)
      → j ≡ length xs + k
      → get_or (xs ++ ys) j nought ≡ get_or ys k nought
  get_or-append_behind [] ys j k h = ap (λ (n : ℕ). get_or ys n nought) (omega arith)
  get_or-append_behind (x ∷ xs) ys zero k h = absurd (omega arith)
  get_or-append_behind (x ∷ xs) ys (suc j) k h = get_or-append_behind xs ys j k (omega arith)

  pub AllRows-append :
      (P : ℕ → Row g → Type 0) (start middle : ℕ) (xs ys : List (Row g))
      → middle ≡ start + length xs
      → AllRows g P start xs
      → AllRows g P middle ys
      → AllRows g P start (xs ++ ys)
  AllRows-append P start middle [] ys e h k = subst (λ n. AllRows g P n ys) (omega arith) k
  AllRows-append P start middle (x ∷ xs) ys e h k =
      (h.0, AllRows-append P (suc start) middle xs ys (omega arith) h.1 k)

  pub dot-unit_row :
      (row n : ℕ) (ys : List Element)
      → row < n
      → n ≡ length ys
      → dot g (unit_row g row 0 n) ys ≡ get_or ys row nought
  dot-unit_row row n ys h e =
      dot-delta g row 0 row (unit_row g row 0 n) ys (omega arith)
        (omega (arith, length-unit_row row 0 n)) (length-unit_row row 0 n ∙ e)
        (λ j l. get_or-unit_row row 0 n j (omega (arith, length-unit_row row 0 n)))
