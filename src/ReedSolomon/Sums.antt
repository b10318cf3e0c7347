-- ===== src/ReedSolomon/Sums.antt =====
-- The value of a row at a vector, and what the row operations do to it.
use mathlib.Core.Path.{ap₂}
use par2cmdline_turbo.Prelude.{
  ℕ, zero, suc, ◌+◌, ◌<◌, ◌≡◌, ◌≢◌, inl, inr, refl, ap, sym, ◌∙◌, ◌==◌, List, [], ◌∷◌, ◌++◌, map,
  ltb, if◌then◌else◌, get_or, replicate, length, arith, dec_lt, lt→ltb, le→ltb, Bool-cases,
}
use par2cmdline_turbo.ReedSolomon.Field.{
  Galois, beq-cases, nought_add, mul_nought, nought_mul, add_mul, add_exchange,
}
use par2cmdline_turbo.ReedSolomon.{divide, subtract, scale_right, subtract_from}

module _ (g : Galois) where
  open g use {
    Element, nought, one, add, mul, div, beq, add_assoc, add_comm, add_nought, mul_assoc, mul_comm,
    mul_one, mul_add, div_mul,
  }

  abbrev pub dot : List Element → List Element → Element
  dot [] ys = nought
  dot (x ∷ xs) [] = nought
  dot (x ∷ xs) (y ∷ ys) = add (mul x y) (dot xs ys)

  pub dot-append :
      (xs us ys vs : List Element)
      → length xs ≡ length ys
      → dot (xs ++ us) (ys ++ vs) ≡ add (dot xs ys) (dot us vs)
  dot-append [] us [] vs h = sym (nought_add g (dot us vs))
  dot-append [] us (y ∷ ys) vs h = absurd (omega arith)
  dot-append (x ∷ xs) us [] vs h = absurd (omega arith)
  dot-append (x ∷ xs) us (y ∷ ys) vs h =
      ap (add (mul x y)) (dot-append xs us ys vs (omega arith))
      ∙ sym (add_assoc (mul x y) (dot xs ys) (dot us vs))

  pub dot-zeros : (n : ℕ) (ys : List Element) → dot (replicate n nought) ys ≡ nought
  dot-zeros zero ys = refl
  dot-zeros (suc n) [] = refl
  dot-zeros (suc n) (y ∷ ys) = ap₂ add (nought_mul g y) (dot-zeros n ys) ∙ add_nought nought

  -- Skipping what is 0 makes no difference.
  divide_lem : (p x : Element) → p ≢ nought → mul (divide g p x) p ≡ x
  divide_lem p x h = elim (beq-cases g x nought) [
    | inl (t, e) ↦ rw t (ap (λ (u : Element). mul u p) e ∙ nought_mul g p ∙ sym e)
    | inr (t, n) ↦ rw t (div_mul x p h)
  ]

  pub subtract_lem : (s p x : Element) → subtract g s p x ≡ add x (mul p s)
  subtract_lem s p x = elim (beq-cases g p nought) [
    | inl (t, e) ↦
        rw t (
          sym
            (ap (λ (u : Element). add x (mul u s)) e ∙ ap (add x) (nought_mul g s) ∙ add_nought x))
    | inr (t, n) ↦ elim (beq-cases g s one) [
      | inl (u, e) ↦ rw (t, u) (ap (add x) (sym (ap (mul p) e ∙ mul_one p)))
      | inr (u, m) ↦ rw (t, u) refl
    ]
  ]

  -- A term of a sum in which both factors are scaled.
  scaled_term :
      (p a b y rest : Element)
      → mul a p ≡ b
      → mul (add (mul a y) rest) p ≡ add (mul b y) (mul rest p)
  scaled_term p a b y rest h =
      add_mul g (mul a y) rest p
      ∙ ap (λ (u : Element). add u (mul rest p))
          (mul_assoc a y p
            ∙ ap (mul a) (mul_comm y p)
            ∙ sym (mul_assoc a p y)
            ∙ ap (λ (u : Element). mul u y) h)

  pub dot-divide :
      (p : Element) (xs ys : List Element)
      → p ≢ nought
      → mul (dot (map (divide g p) xs) ys) p ≡ dot xs ys
  dot-divide p [] ys h = nought_mul g p
  dot-divide p (x ∷ xs) [] h = nought_mul g p
  dot-divide p (x ∷ xs) (y ∷ ys) h =
      scaled_term p (divide g p x) x y (dot (map (divide g p) xs) ys) (divide_lem p x h)
      ∙ ap (add (mul x y)) (dot-divide p xs ys h)

  pub dot-scale_right :
      (p : Element) (row col : ℕ) (xs ys : List Element)
      → p ≢ nought
      → ((j : ℕ) → j + col < row → get_or xs j nought ≡ nought)
      → ((j : ℕ) → j + col ≡ row → j < length xs → get_or xs j nought ≡ p)
      → mul (dot (scale_right g p row col xs) ys) p ≡ dot xs ys
  unfolding scale_right
  dot-scale_right p row col [] ys h low at = nought_mul g p
  dot-scale_right p row col (x ∷ xs) [] h low at = nought_mul g p
  dot-scale_right p row col (x ∷ xs) (y ∷ ys) h low at =
      scaled_term p _ x y (dot (scale_right g p row (suc col) xs) ys) entry
      ∙ ap (add (mul x y)) (
          dot-scale_right p row (suc col) xs ys h (λ j k. low (suc j) (omega arith))
            (λ j k l. at (suc j) (omega arith) (omega arith)))
    where
      entry : mul (if ltb col row then x else if col == row then one else divide g p x) p ≡ x
      entry = elim (dec_lt col row) [
        | yes k ↦
            let e : x ≡ nought = low 0 (omega arith) in
            rw (lt→ltb col row k) (ap (λ (u : Element). mul u p) e ∙ nought_mul g p ∙ sym e)
        | no k ↦ elim (Bool-cases (col == row)) [
          | inl t ↦
              let e : x ≡ p = at 0 (ground (arith, t)) (omega arith) in
              rw (le→ltb col row (omega arith), t) (mul_comm one p ∙ mul_one p ∙ sym e)
          | inr t ↦ rw (le→ltb col row (omega arith), t) (divide_lem p x h)
        ]
      ]

  pub dot-subtract_from :
      (s : Element) (from col : ℕ) (ps xs ys : List Element)
      → length ps ≡ length xs
      → ((j : ℕ) → j + col < from → get_or ps j nought ≡ nought)
      → dot (subtract_from g s from col ps xs) ys ≡ add (dot xs ys) (mul s (dot ps ys))
  unfolding subtract_from
  dot-subtract_from s from col [] [] ys h low =
      sym (ap (add nought) (mul_nought g s) ∙ add_nought nought)
  dot-subtract_from s from col [] (x ∷ xs) ys h low = absurd (omega arith)
  dot-subtract_from s from col (p ∷ ps) [] ys h low = absurd (omega arith)
  dot-subtract_from s from col (p ∷ ps) (x ∷ xs) [] h low =
      sym (ap (add nought) (mul_nought g s) ∙ add_nought nought)
  dot-subtract_from s from col (p ∷ ps) (x ∷ xs) (y ∷ ys) h low =
      ap₂ add (ap (λ (u : Element). mul u y) entry ∙ add_mul g x (mul p s) y) (
        dot-subtract_from s from (suc col) ps xs ys (omega arith)
          (λ j k. low (suc j) (omega arith)))
      ∙ add_exchange g (mul x y) (mul (mul p s) y) (dot xs ys) (mul s (dot ps ys))
      ∙ ap (add (add (mul x y) (dot xs ys))) (
          ap (λ (u : Element). add u (mul s (dot ps ys)))
            (ap (λ (u : Element). mul u y) (mul_comm p s) ∙ mul_assoc s p y)
          ∙ sym (mul_add s (mul p y) (dot ps ys)))
    where
      entry : (if ltb col from then x else subtract g s p x) ≡ add x (mul p s)
      entry = elim (dec_lt col from) [
        | yes k ↦
            let e : p ≡ nought = low 0 (omega arith) in
            rw (lt→ltb col from k) (
              sym (
                ap (λ (u : Element). add x (mul u s)) e
                ∙ ap (add x) (nought_mul g s)
                ∙ add_nought x))
        | no k ↦ rw (le→ltb col from (omega arith)) (subtract_lem s p x)
      ]
