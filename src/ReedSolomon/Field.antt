-- ===== src/ReedSolomon/Field.antt =====
-- What the template parameter `g` of `ReedSolomon` has to be: a field in which adding and
-- subtracting are the same.
use mathlib.Core.Path.{ap₂}
use par2cmdline_turbo.Prelude.{
  ℕ, Bool, true, false, ◌≡◌, ◌≢◌, ◌↔◌, ◌⊎◌, inl, inr, ap, sym, ◌∙◌, Bool-cases,
}

-- `of_value` is the constructor from a value, and `beq` the comparison of the values.
pub record Galois : Type 1 where
  pub Element : Type 0
  pub of_value : ℕ → Element
  pub nought : Element
  pub one : Element
  pub add : Element → Element → Element
  pub mul : Element → Element → Element
  pub div : Element → Element → Element
  pub pow : Element → ℕ → Element
  pub beq : Element → Element → Bool
  pub beq_iff : (a b : Element) → (beq a b ≡ true) ↔ (a ≡ b)
  pub add_assoc : (a b c : Element) → add (add a b) c ≡ add a (add b c)
  pub add_comm : (a b : Element) → add a b ≡ add b a
  pub add_nought : (a : Element) → add a nought ≡ a
  pub add_self : (a : Element) → add a a ≡ nought
  pub mul_assoc : (a b c : Element) → mul (mul a b) c ≡ mul a (mul b c)
  pub mul_comm : (a b : Element) → mul a b ≡ mul b a
  pub mul_one : (a : Element) → mul a one ≡ a
  pub mul_add : (a b c : Element) → mul a (add b c) ≡ add (mul a b) (mul a c)
  pub div_mul : (a b : Element) → b ≢ nought → mul (div a b) b ≡ a

module _ (g : Galois) where
  open g use {
    Element, nought, one, add, mul, div, beq, beq_iff, add_assoc, add_comm, add_nought, add_self,
    mul_assoc, mul_comm, mul_one, mul_add, div_mul,
  }

  pub beq-cases : (a b : Element) → ((beq a b ≡ true) × (a ≡ b)) ⊎ ((beq a b ≡ false) × (a ≢ b))
  beq-cases a b = elim (Bool-cases (beq a b)) [
    | inl e ↦ inl (e, (beq_iff a b).0 e)
    | inr e ↦ inr (e, λ p. differs (sym e ∙ (beq_iff a b).1 p))
  ]
    where
      differs : false ≡ true → ⊥
      differs q = cc

  pub nought_add : (a : Element) → add nought a ≡ a
  nought_add a = add_comm nought a ∙ add_nought a

  pub mul_nought : (a : Element) → mul a nought ≡ nought
  mul_nought a =
      ap (mul a) (sym (add_self nought)) ∙ mul_add a nought nought ∙ add_self (mul a nought)

  pub nought_mul : (a : Element) → mul nought a ≡ nought
  nought_mul a = mul_comm nought a ∙ mul_nought a

  pub add_mul : (a b c : Element) → mul (add a b) c ≡ add (mul a c) (mul b c)
  add_mul a b c = mul_comm (add a b) c ∙ mul_add c a b ∙ ap₂ add (mul_comm c a) (mul_comm c b)

  -- A factor that is not 0 cancels.
  pub mul_cancel : (a b c : Element) → c ≢ nought → mul a c ≡ mul b c → a ≡ b
  mul_cancel a b c h e =
      let i = div one c in
      let back = λ (x : Element). undo x in sym (undo a) ∙ ap (λ (t : Element). mul t i) e ∙ undo b
    where
      undo : (x : Element) → mul (mul x c) (div one c) ≡ x
      undo x =
          mul_assoc x c (div one c)
          ∙ ap (mul x) (mul_comm c (div one c) ∙ div_mul one c h)
          ∙ mul_one x

  pub nought_div : (a : Element) → a ≢ nought → div nought a ≡ nought
  nought_div a h = mul_cancel (div nought a) nought a h (div_mul nought a h ∙ sym (nought_mul a))

  pub div_self : (a : Element) → a ≢ nought → div a a ≡ one
  div_self a h = mul_cancel (div a a) one a h (div_mul a a h ∙ sym (mul_comm one a ∙ mul_one a))

  -- What is added twice is gone.
  pub add_cancel : (a b : Element) → add (add a b) b ≡ a
  add_cancel a b = add_assoc a b b ∙ ap (add a) (add_self b) ∙ add_nought a

  pub add_exchange : (a b c d : Element) → add (add a b) (add c d) ≡ add (add a c) (add b d)
  add_exchange a b c d =
      add_assoc a b (add c d)
      ∙ ap (add a)
          (sym (add_assoc b c d) ∙ ap (λ (t : Element). add t d) (add_comm b c) ∙ add_assoc c b d)
      ∙ sym (add_assoc a c (add b d))
