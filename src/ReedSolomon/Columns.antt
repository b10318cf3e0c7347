-- ===== src/ReedSolomon/Columns.antt =====
-- The entries of a row behind the row operations.
use par2cmdline_turbo.Prelude.{
  ℕ, zero, suc, ◌+◌, ◌<◌, ◌≤◌, ◌≡◌, inl, inr, refl, ap, sym, ◌∙◌, false, ◌==◌, List, [], ◌∷◌,
  get_or, length, arith, lt→ltb, le→ltb,
}
use par2cmdline_turbo.ReedSolomon.Field.{Galois, beq-cases, nought_mul}
use par2cmdline_turbo.ReedSolomon.{divide, scale_right, subtract_from}
use par2cmdline_turbo.ReedSolomon.Sums.{subtract_lem}

module _ (g : Galois) where
  open g use {Element, nought, one, add, mul, div, beq, add_nought}

  pub length-scale_right :
      (p : Element) (row col : ℕ) (xs : List Element)
      → length (scale_right g p row col xs) ≡ length xs
  unfolding scale_right
  length-scale_right p row col [] = refl
  length-scale_right p row col (x ∷ xs) = ap suc (length-scale_right p row (suc col) xs)

  pub length-subtract_from :
      (s : Element) (from col : ℕ) (ps xs : List Element)
      → length (subtract_from g s from col ps xs) ≡ length xs
  unfolding subtract_from
  length-subtract_from s from col [] xs = refl
  length-subtract_from s from col (p ∷ ps) [] = refl
  length-subtract_from s from col (p ∷ ps) (x ∷ xs) =
      ap suc (length-subtract_from s from (suc col) ps xs)

  divide-nought : (p : Element) → divide g p nought ≡ nought
  divide-nought p = elim (beq-cases g nought nought) [
    | inl (t, e) ↦ rw t
    | inr (t, n) ↦ absurd (n refl)
  ]

  -- The entry at `j`, by where its column stands.
  pub scale_right-before :
      (p : Element) (row col j : ℕ) (xs : List Element)
      → j + col < row
      → get_or (scale_right g p row col xs) j nought ≡ get_or xs j nought
  unfolding scale_right
  scale_right-before p row col j [] h = refl
  scale_right-before p row col zero (x ∷ xs) h = rw (lt→ltb col row (omega arith))
  scale_right-before p row col (suc j) (x ∷ xs) h =
      scale_right-before p row (suc col) j xs (omega arith)

  pub scale_right-at :
      (p : Element) (row col j : ℕ) (xs : List Element)
      → j + col ≡ row
      → j < length xs
      → get_or (scale_right g p row col xs) j nought ≡ one
  unfolding scale_right
  scale_right-at p row col j [] h l = absurd (omega arith)
  scale_right-at p row col zero (x ∷ xs) h l = ground arith
  scale_right-at p row col (suc j) (x ∷ xs) h l =
      scale_right-at p row (suc col) j xs (omega arith) (omega arith)

  pub scale_right-behind :
      (p : Element) (row col j : ℕ) (xs : List Element)
      → row < j + col
      → get_or xs j nought ≡ nought
      → get_or (scale_right g p row col xs) j nought ≡ nought
  unfolding scale_right
  scale_right-behind p row col j [] h e = refl
  scale_right-behind p row col zero (x ∷ xs) h e =
      let differs : (col == row) ≡ false = ground arith in
      rw (le→ltb col row (omega arith), differs) (ap (divide g p) e ∙ divide-nought p)
  scale_right-behind p row col (suc j) (x ∷ xs) h e =
      scale_right-behind p row (suc col) j xs (omega arith) e

  pub subtract_from-before :
      (s : Element) (from col j : ℕ) (ps xs : List Element)
      → j + col < from
      → length ps ≡ length xs
      → get_or (subtract_from g s from col ps xs) j nought ≡ get_or xs j nought
  unfolding subtract_from
  subtract_from-before s from col j [] xs h l = refl
  subtract_from-before s from col j (p ∷ ps) [] h l = refl
  subtract_from-before s from col zero (p ∷ ps) (x ∷ xs) h l = rw (lt→ltb col from (omega arith))
  subtract_from-before s from col (suc j) (p ∷ ps) (x ∷ xs) h l =
      subtract_from-before s from (suc col) j ps xs (omega arith) (omega arith)

  pub subtract_from-behind :
      (s : Element) (from col j : ℕ) (ps xs : List Element)
      → from ≤ j + col
      → length ps ≡ length xs
      → get_or (subtract_from g s from col ps xs) j nought
        ≡ add (get_or xs j nought) (mul (get_or ps j nought) s)
  unfolding subtract_from
  subtract_from-behind s from col j [] [] h l =
      sym (ap (add nought) (nought_mul g s) ∙ add_nought nought)
  subtract_from-behind s from col j [] (x ∷ xs) h l = absurd (omega arith)
  subtract_from-behind s from col j (p ∷ ps) [] h l = absurd (omega arith)
  subtract_from-behind s from col zero (p ∷ ps) (x ∷ xs) h l =
      rw (le→ltb col from (omega arith)) (subtract_lem g s p x)
  subtract_from-behind s from col (suc j) (p ∷ ps) (x ∷ xs) h l =
      subtract_from-behind s from (suc col) j ps xs (omega arith) (omega arith)
