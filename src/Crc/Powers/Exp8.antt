-- ===== src/Crc/Powers/Exp8.antt =====
-- `CRCExp8` of src/crc.cpp.
use native.Mathlib.Nat.{pow-suc}
use par2cmdline_turbo.Prelude.{
  ℕ, zero, suc, ◌+◌, ◌-◌, ◌*◌, ◌/◌, ◌%◌, ◌^◌, ◌<◌, bit_and, ◌≡◌, refl, ap, sym, ◌∙◌, true, false,
  ◌==◌, if◌then◌else◌, arith, dec_lt, get_or,
}
use par2cmdline_turbo.Bits.{bit_and_mask}
use par2cmdline_turbo.Crc.{ccitt, crc_step, crc_steps}
use par2cmdline_turbo.Crc.Powers.{
  gf32_multiply, ccitt_power, exp8_rounds, crc_exp8, multiply_rounds,
}
use par2cmdline_turbo.Crc.Powers.Product.{crc_steps-step, crc_steps-zero, crc_steps-add}
use par2cmdline_turbo.Crc.Powers.Exponents.{one, ccitt_steps-lt, gf32_multiply-power}
use par2cmdline_turbo.Crc.Powers.Squares.{chain, chain_lem, get_or-ccitt_power}

-- The step before the number that stands for 1.
before_one : ℕ
before_one = 0xdb710641

period_one : crc_steps ccitt (2 ^ 32 - 1) one ≡ one
unfolding before_one
period_one =
    ap (crc_steps ccitt (2 ^ 32 - 1)) one_after
    ∙ sym (crc_steps-step ccitt (2 ^ 32 - 1) before_one)
    ∙ sym (gf32_multiply-power (2 ^ 32) before_one (omega arith))
    ∙ ap (λ (t : ℕ). gf32_multiply before_one t ccitt) (sym (chain_lem 32))
    ∙ product
  where
    one_after : one ≡ crc_step ccitt before_one
    one_after = unfold crc_step in refl

    product : gf32_multiply before_one (chain 32) ccitt ≡ one
    product = unfold chain gf32_multiply multiply_rounds in refl

period_steps : (q a : ℕ) → a < 2 ^ 32 → crc_steps ccitt (q * (2 ^ 32 - 1)) a ≡ a
period_steps zero a h = crc_steps-zero ccitt a
period_steps (suc q) a h =
    let more : suc q * (2 ^ 32 - 1) ≡ q * (2 ^ 32 - 1) + (2 ^ 32 - 1) = omega arith in
    let m = 2 ^ 32 - 1 in
    ap (λ (t : ℕ). crc_steps ccitt t a) more
    ∙ crc_steps-add ccitt (q * m) m a
    ∙ ap (crc_steps ccitt m) (period_steps q a h)
    ∙ sym (gf32_multiply-power m a h)
    ∙ ap (λ (t : ℕ). gf32_multiply a t ccitt) (period_one ∙ sym (crc_steps-zero ccitt one))
    ∙ gf32_multiply-power 0 a h
    ∙ crc_steps-zero ccitt a

even_bit : (n : ℕ) → ¬ (0 < n % 2) → n % 2 ≡ 0
even_bit n h = omega arith

odd_bit : (n : ℕ) → 0 < n % 2 → n % 2 ≡ 1
odd_bit n h = omega arith

-- The bit of `n` that a round of `CRCExp8` takes.
taken :
    (p n result : ℕ)
    → p < 32
    → result < 2 ^ 32
    → (if bit_and n 1 == 0 then result else gf32_multiply result (get_or ccitt_power p 0) ccitt)
      ≡ crc_steps ccitt (n % 2 * 2 ^ (p + 3)) result
taken p n result h k = elim (dec_lt 0 (n % 2)) [
  | no e ↦
      let even : bit_and n 1 ≡ 0 = omega (arith, bit_and_mask 1 n) in
      let none_left : 0 ≡ n % 2 * 2 ^ (p + 3) =
        omega (arith, ap (λ (t : ℕ). t * 2 ^ (p + 3)) (even_bit n e)) in
      rw even
        (sym (crc_steps-zero ccitt result) ∙ ap (λ (t : ℕ). crc_steps ccitt t result) none_left)
  | yes e ↦
      let odd : bit_and n 1 ≡ 1 = omega (arith, bit_and_mask 1 n) in
      let all : 2 ^ (p + 3) ≡ n % 2 * 2 ^ (p + 3) =
        omega (arith, ap (λ (t : ℕ). t * 2 ^ (p + 3)) (odd_bit n e)) in
      rw odd (
        ap (λ (t : ℕ). gf32_multiply result t ccitt) (get_or-ccitt_power p h)
        ∙ gf32_multiply-power (2 ^ (p + 3)) result k
        ∙ ap (λ (t : ℕ). crc_steps ccitt t result) all)
]

-- The rest of the loop, for what is left of `n`.
joined :
    (p n result : ℕ)
    → crc_steps ccitt (n / 2 * 2 ^ (p + 1 + 3)) (crc_steps ccitt (n % 2 * 2 ^ (p + 3)) result)
      ≡ crc_steps ccitt (n * 2 ^ (p + 3)) result
joined p n result =
    let q = 2 ^ (p + 3) in
    let exponent : p + 1 + 3 ≡ suc (p + 3) = omega arith in
    let next : 2 ^ (p + 1 + 3) ≡ 2 * q =
      ap (λ (t : ℕ). 2 ^ t) exponent ∙ omega (arith, pow-suc 2 (p + 3)) in
    let whole : n % 2 * q + n / 2 * 2 ^ (p + 1 + 3) ≡ n * q =
      ap (λ (t : ℕ). n % 2 * q + n / 2 * t) next ∙ digits n q in
    sym (crc_steps-add ccitt (n % 2 * q) (n / 2 * 2 ^ (p + 1 + 3)) result)
    ∙ ap (λ (t : ℕ). crc_steps ccitt t result) whole
  where
    digits : (n q : ℕ) → n % 2 * q + n / 2 * (2 * q) ≡ n * q
    digits n q =
        let parts : n ≡ n % 2 + n / 2 * 2 = omega arith in
        let sum : (n % 2 + n / 2 * 2) * q ≡ n % 2 * q + n / 2 * (2 * q) = grind arith in
        sym (ap (λ (t : ℕ). t * q) parts ∙ sum)

nothing_left : (p n result : ℕ) → n ≡ 0 → result ≡ crc_steps ccitt (n * 2 ^ (p + 3)) result
nothing_left p n result h =
    let none_left : 0 ≡ n * 2 ^ (p + 3) = omega (arith, ap (λ (t : ℕ). t * 2 ^ (p + 3)) h) in
    sym (crc_steps-zero ccitt result) ∙ ap (λ (t : ℕ). crc_steps ccitt t result) none_left

exp8_rounds_lem :
    (fuel result p n : ℕ)
    → n < 2 ^ fuel
    → p + fuel ≡ 32
    → result < 2 ^ 32
    → exp8_rounds fuel result p n ≡ crc_steps ccitt (n * 2 ^ (p + 3)) result
unfolding exp8_rounds
exp8_rounds_lem zero result p n h k l = nothing_left p n result (omega arith)
exp8_rounds_lem (suc fuel) result p n h k l = elim (dec_lt 0 n) [
  | no e ↦
      let none_left : (n == 0) ≡ true = ground arith in
      rw none_left (nothing_left p n result (omega arith))
  | yes e ↦
      let more : (n == 0) ≡ false = ground arith in
      let result' = crc_steps ccitt (n % 2 * 2 ^ (p + 3)) result in
      let small = ccitt_steps-lt (n % 2 * 2 ^ (p + 3)) result l in
      rw more (
        ap (λ (t : ℕ). exp8_rounds fuel t (bit_and (p + 1) 31) (n / 2))
          (taken p n result (omega arith) l)
        ∙ last fuel result' p (n / 2) (omega (arith, pow-suc 2 fuel)) (omega arith)
        ∙ exp8_rounds_lem fuel result' (p + 1) (n / 2) (omega (arith, pow-suc 2 fuel)) (omega arith)
            small
        ∙ joined p n result)
]
  where
    last :
        (fuel result p n : ℕ)
        → n < 2 ^ fuel
        → p + 1 + fuel ≡ 32
        → exp8_rounds fuel result (bit_and (p + 1) 31) n ≡ exp8_rounds fuel result (p + 1) n
    last zero result p n h k = refl
    last (suc fuel) result p n h k =
        let e : bit_and (p + 1) 31 ≡ p + 1 = omega (arith, bit_and_mask 5 (p + 1)) in
        ap (λ (t : ℕ). exp8_rounds (suc fuel) result t n) e

pub crc_exp8_lem : (n : ℕ) → crc_exp8 n ≡ crc_steps ccitt (n * 8) one
unfolding crc_exp8
crc_exp8_lem n =
    let m = 2 ^ 32 - 1 in
    let r = n % m in
    let q = n / m in
    let parts : n * 8 ≡ r * 8 + q * 8 * m = omega arith in
    exp8_rounds_lem 32 one 0 r (omega arith) refl (omega arith)
    ∙ sym (
        period_steps (q * 8) (crc_steps ccitt (r * 8) one)
          (ccitt_steps-lt (r * 8) one (omega arith)))
    ∙ sym (crc_steps-add ccitt (r * 8) (q * 8 * m) one)
    ∙ ap (λ (t : ℕ). crc_steps ccitt t one) (sym parts)
