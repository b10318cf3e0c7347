-- ===== src/Crc/Powers/Exponents.antt =====
-- Multiplying by a power of the generator is taking that many rounds of the CRC.
use mathlib.Core.Path.{ap₂}
use native.Mathlib.Nat.{pow-suc}
use par2cmdline_turbo.Prelude.{
  ℕ, zero, suc, ◌-◌, ◌*◌, ◌/◌, ◌%◌, ◌^◌, ◌<◌, bit_xor, ◌≡◌, refl, ap, sym, ◌∙◌, Bool, true, ◌==◌,
  arith, dec_lt, all_below, all_below_lem,
}
use par2cmdline_turbo.Bits.Xor.{xor_comm, xor_self, xor-zero, xor_fields}
use par2cmdline_turbo.Crc.{ccitt, crc_step, crc_steps}
use par2cmdline_turbo.Crc.Linear.{crc_step_lem, feedback, crc_step-xor, crc_steps-xor, crc_steps-lt}
use par2cmdline_turbo.Crc.Powers.{gf32_multiply, multiply_rounds}
use par2cmdline_turbo.Crc.Powers.Product.{
  sum_of, sum_of-xor_right, sum_of-xor_left, sum_of-half, sum_of-top, multiply_rounds_lem,
  crc_steps-suc, crc_steps-zero, feedback-step, feedback-suc,
}

-- The number that stands for 1.
abbrev pub one : ℕ
one = 0x80000000

-- Two additive functions that agree on the powers of 2.
agree :
    (f g : ℕ → ℕ) (n a : ℕ)
    → ((a b : ℕ) → f (bit_xor a b) ≡ bit_xor (f a) (f b))
    → ((a b : ℕ) → g (bit_xor a b) ≡ bit_xor (g a) (g b))
    → ((i : ℕ) → i < n → f (2 ^ i) ≡ g (2 ^ i))
    → a < 2 ^ n
    → f a ≡ g a
agree f g zero a p q h k =
    let none_left : a ≡ bit_xor 0 0 = omega arith in
    ap f none_left ∙ p 0 0 ∙ xor_self (f 0) ∙ sym (ap g none_left ∙ q 0 0 ∙ xor_self (g 0))
agree f g (suc n) a p q h k = elim (dec_lt a (2 ^ n)) [
  | yes l ↦ agree f g n a p q (λ i m. h i (omega arith)) l
  | no l ↦
      let r = a - 2 ^ n in
      let small : r < 2 ^ n = omega (arith, pow-suc 2 n) in
      let parts : a ≡ bit_xor (2 ^ n) r =
        omega (arith, xor_fields n 1 r small, ap (λ (t : ℕ). bit_xor t r) (single n)) in
      ap f parts
      ∙ p (2 ^ n) r
      ∙ ap₂ bit_xor (h n (omega arith)) (agree f g n r p q (λ i m. h i (omega arith)) small)
      ∙ sym (ap g parts ∙ q (2 ^ n) r)
]
  where
    single : (n : ℕ) → 1 * 2 ^ n ≡ 2 ^ n
    single n = omega arith

sum_of-zero : (n a : ℕ) → sum_of ccitt n a 0 ≡ 0
unfolding sum_of
sum_of-zero zero a = refl
sum_of-zero (suc n) a = ap (bit_xor 0) (sum_of-zero n a)

basis_test : ℕ → Bool
basis_test i = sum_of ccitt 32 (2 ^ i) ccitt == crc_steps ccitt 32 (2 ^ i)

basis_all : all_below 32 basis_test ≡ true
unfolding basis_test sum_of crc_steps crc_step
basis_all = refl

-- The polynomial stands for the 32nd power.
sum_of-polynomial : (a : ℕ) → a < 2 ^ 32 → sum_of ccitt 32 a ccitt ≡ crc_steps ccitt 32 a
sum_of-polynomial a h =
    agree (λ t. sum_of ccitt 32 t ccitt) (crc_steps ccitt 32) 32 a
      (λ b c. sum_of-xor_left ccitt 32 b c ccitt) (crc_steps-xor ccitt 32) basis h
  where
    basis : (i : ℕ) → i < 32 → sum_of ccitt 32 (2 ^ i) ccitt ≡ crc_steps ccitt 32 (2 ^ i)
    basis i h =
        let e = all_below_lem 32 basis_test i basis_all h in unfold basis_test in ground (arith, e)

sum_of-feedback :
    (bit a : ℕ)
    → a < 2 ^ 32
    → sum_of ccitt 32 a (feedback ccitt bit) ≡ feedback (crc_steps ccitt 32 a) bit
sum_of-feedback zero a h = sum_of-zero 32 a
sum_of-feedback (suc bit) a h =
    ap (sum_of ccitt 32 a) (feedback-suc ccitt bit)
    ∙ sum_of-polynomial a h
    ∙ sym (feedback-suc (crc_steps ccitt 32 a) bit)

-- A round on the second argument is one on the product.
sum_of-step_right :
    (a b : ℕ)
    → a < 2 ^ 32
    → b < 2 ^ 32
    → sum_of ccitt 32 a (crc_step ccitt b) ≡ crc_step ccitt (sum_of ccitt 32 a b)
sum_of-step_right a b h k =
    let half = sum_of ccitt 31 a (b / 2) in
    let bit = b % 2 in
    let last = crc_steps ccitt 31 a in
    let split : sum_of ccitt 32 a b ≡ bit_xor (feedback last bit) half = unfold sum_of in refl in
    ap (sum_of ccitt 32 a) (crc_step_lem ccitt b)
    ∙ sum_of-xor_right ccitt 32 a (b / 2) (feedback ccitt bit)
    ∙ ap₂ bit_xor (sum_of-half ccitt 31 a (b / 2) (omega arith)) (
        sum_of-feedback bit a h
        ∙ ap (λ (t : ℕ). feedback t bit) (crc_steps-suc ccitt 31 a)
        ∙ sym (feedback-step ccitt bit last))
    ∙ xor_comm (crc_step ccitt half) (crc_step ccitt (feedback last bit))
    ∙ sym (ap (crc_step ccitt) split ∙ crc_step-xor ccitt (feedback last bit) half)

pub sum_of-one : (a : ℕ) → sum_of ccitt 32 a one ≡ a
sum_of-one a =
    sum_of-top ccitt 31 a one (omega arith)
    ∙ ap (bit_xor a) (sum_of-zero 31 (crc_step ccitt a))
    ∙ xor-zero a

pub gf32_multiply-sum_of :
    (a b : ℕ) → a < 2 ^ 32 → b < 2 ^ 32 → gf32_multiply a b ccitt ≡ sum_of ccitt 32 a b
unfolding gf32_multiply
gf32_multiply-sum_of a b h k =
    let same : b ≡ b * 2 ^ 0 = omega arith in
    ap (multiply_rounds ccitt 31 0 a) same
    ∙ multiply_rounds_lem ccitt 31 0 0 a b (omega arith) h refl k
    ∙ xor_comm 0 (sum_of ccitt 32 a b)
    ∙ xor-zero (sum_of ccitt 32 a b)

pub ccitt_steps-lt : (n a : ℕ) → a < 2 ^ 32 → crc_steps ccitt n a < 2 ^ 32
ccitt_steps-lt n a h = crc_steps-lt ccitt n a (omega arith) h

pub sum_of-steps :
    (n a b : ℕ)
    → a < 2 ^ 32
    → b < 2 ^ 32
    → sum_of ccitt 32 a (crc_steps ccitt n b) ≡ crc_steps ccitt n (sum_of ccitt 32 a b)
sum_of-steps zero a b h k =
    ap (sum_of ccitt 32 a) (crc_steps-zero ccitt b)
    ∙ sym (crc_steps-zero ccitt (sum_of ccitt 32 a b))
sum_of-steps (suc n) a b h k =
    ap (sum_of ccitt 32 a) (crc_steps-suc ccitt n b)
    ∙ sum_of-step_right a (crc_steps ccitt n b) h (ccitt_steps-lt n b k)
    ∙ ap (crc_step ccitt) (sum_of-steps n a b h k)
    ∙ sym (crc_steps-suc ccitt n (sum_of ccitt 32 a b))

-- Multiplying by a power.
pub gf32_multiply-power :
    (n a : ℕ) → a < 2 ^ 32 → gf32_multiply a (crc_steps ccitt n one) ccitt ≡ crc_steps ccitt n a
gf32_multiply-power n a h =
    gf32_multiply-sum_of a (crc_steps ccitt n one) h (ccitt_steps-lt n one (omega arith))
    ∙ sum_of-steps n a one h (omega arith)
    ∙ ap (crc_steps ccitt n) (sum_of-one a)
