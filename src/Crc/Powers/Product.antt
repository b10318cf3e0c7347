-- ===== src/Crc/Powers/Product.antt =====
-- `GF32Multiply` by the bits of its second argument.
use mathlib.Core.Path.{ap₂}
use native.Mathlib.Nat.{pow-suc, mul-div-mul_right, one-le-pow, mod-lt, div-lt_iff_lt-mul}
use par2cmdline_turbo.Prelude.{
  ℕ, zero, suc, ◌+◌, ◌-◌, ◌*◌, ◌/◌, ◌%◌, ◌^◌, ◌<◌, bit_and, bit_xor, ◌≡◌, refl, ap, sym, subst, ◌∙◌,
  arith,
}
use par2cmdline_turbo.Bits.{bit_and_mask, bit_and-zero}
use par2cmdline_turbo.Bits.Shift.{bit_and_comm, pow_add, mul-mod_shift, halves, remainder_parts}
use par2cmdline_turbo.Bits.Xor.{xor_comm, xor_assoc, xor-zero, xor_parts}
use par2cmdline_turbo.Crc.{crc_step, crc_steps}
use par2cmdline_turbo.Crc.Linear.{
  exchange, feedback, feedback-differ, crc_step-xor, crc_steps-xor, crc_steps-lt,
}
use par2cmdline_turbo.Crc.Powers.{negate32, multiply_rounds}

-- The sum over `n` bits of `c`, of which the highest stands for `a` and each lower one for a further
-- round of the CRC on `a`.
unfoldable pub sum_of : ℕ → ℕ → ℕ → ℕ → ℕ
sum_of polynomial zero a c = 0
sum_of polynomial (suc n) a c =
    bit_xor (feedback (crc_steps polynomial n a) (c % 2)) (sum_of polynomial n a (c / 2))

pub crc_step-zero : (polynomial : ℕ) → crc_step polynomial 0 ≡ 0
unfolding crc_step
crc_step-zero polynomial = refl

pub feedback-suc : (a bit : ℕ) → feedback a (suc bit) ≡ a
feedback-suc a bit = ground arith

pub feedback-step :
    (polynomial bit a : ℕ)
    → crc_step polynomial (feedback a bit) ≡ feedback (crc_step polynomial a) bit
feedback-step polynomial zero a = crc_step-zero polynomial
feedback-step polynomial (suc bit) a =
    ap (crc_step polynomial) (feedback-suc a bit) ∙ sym (feedback-suc (crc_step polynomial a) bit)

feedback-xor :
    (bit a b : ℕ) → feedback (bit_xor a b) bit ≡ bit_xor (feedback a bit) (feedback b bit)
feedback-xor zero a b = refl
feedback-xor (suc bit) a b =
    feedback-suc (bit_xor a b) bit ∙ sym (ap₂ bit_xor (feedback-suc a bit) (feedback-suc b bit))

-- One round more, at the end.
pub crc_steps-suc :
    (polynomial n a : ℕ)
    → crc_steps polynomial (suc n) a ≡ crc_step polynomial (crc_steps polynomial n a)
unfolding crc_steps
crc_steps-suc polynomial zero a = refl
crc_steps-suc polynomial (suc n) a = crc_steps-suc polynomial n (crc_step polynomial a)

pub crc_steps-step :
    (polynomial n a : ℕ)
    → crc_steps polynomial (suc n) a ≡ crc_steps polynomial n (crc_step polynomial a)
unfolding crc_steps
crc_steps-step polynomial n a = refl

pub crc_steps-zero : (polynomial a : ℕ) → crc_steps polynomial 0 a ≡ a
unfolding crc_steps
crc_steps-zero polynomial a = refl

pub crc_steps-add :
    (polynomial m n a : ℕ)
    → crc_steps polynomial (m + n) a ≡ crc_steps polynomial n (crc_steps polynomial m a)
crc_steps-add polynomial zero n a =
    let e : 0 + n ≡ n = omega arith in
    ap (λ (t : ℕ). crc_steps polynomial t a) e
    ∙ ap (crc_steps polynomial n) (sym (crc_steps-zero polynomial a))
crc_steps-add polynomial (suc m) n a =
    let e : suc m + n ≡ suc (m + n) = omega arith in
    ap (λ (t : ℕ). crc_steps polynomial t a) e
    ∙ crc_steps-step polynomial (m + n) a
    ∙ crc_steps-add polynomial m n (crc_step polynomial a)
    ∙ ap (crc_steps polynomial n) (sym (crc_steps-step polynomial m a))

module _ (polynomial : ℕ) where
  pub sum_of-xor_right :
      (n a c d : ℕ)
      → sum_of polynomial n a (bit_xor c d)
        ≡ bit_xor (sum_of polynomial n a c) (sum_of polynomial n a d)
  unfolding sum_of
  sum_of-xor_right zero a c d = refl
  sum_of-xor_right (suc n) a c d =
      let (high, low) = xor_parts c d in
      let x = crc_steps polynomial n a in
      ap₂ bit_xor
        (ap (feedback x) low ∙ feedback-differ x (c % 2) (d % 2) (omega arith) (omega arith))
        (ap (sum_of polynomial n a) high ∙ sum_of-xor_right n a (c / 2) (d / 2))
      ∙ exchange (feedback x (c % 2)) (feedback x (d % 2)) (sum_of polynomial n a (c / 2))
          (sum_of polynomial n a (d / 2))

  pub sum_of-xor_left :
      (n a b c : ℕ)
      → sum_of polynomial n (bit_xor a b) c
        ≡ bit_xor (sum_of polynomial n a c) (sum_of polynomial n b c)
  unfolding sum_of
  sum_of-xor_left zero a b c = refl
  sum_of-xor_left (suc n) a b c =
      let x = crc_steps polynomial n a in
      let y = crc_steps polynomial n b in
      ap₂ bit_xor
        (ap (λ (t : ℕ). feedback t (c % 2)) (crc_steps-xor polynomial n a b)
          ∙ feedback-xor (c % 2) x y)
        (sum_of-xor_left n a b (c / 2))
      ∙ exchange (feedback x (c % 2)) (feedback y (c % 2)) (sum_of polynomial n a (c / 2))
          (sum_of polynomial n b (c / 2))

  pub sum_of-step :
      (n a c : ℕ)
      → sum_of polynomial n (crc_step polynomial a) c
        ≡ crc_step polynomial (sum_of polynomial n a c)
  unfolding sum_of
  sum_of-step zero a c = sym (crc_step-zero polynomial)
  sum_of-step (suc n) a c =
      ap₂ bit_xor
        (ap (λ (t : ℕ). feedback t (c % 2))
            (sym (crc_steps-step polynomial n a) ∙ crc_steps-suc polynomial n a)
          ∙ sym (feedback-step polynomial (c % 2) (crc_steps polynomial n a)))
        (sum_of-step n a (c / 2))
      ∙ sym (
          crc_step-xor polynomial (feedback (crc_steps polynomial n a) (c % 2))
            (sum_of polynomial n a (c / 2)))

  -- A bit that is 0 at the top moves the others on.
  pub sum_of-half :
      (n a c : ℕ)
      → c < 2 ^ n
      → sum_of polynomial (suc n) a c ≡ crc_step polynomial (sum_of polynomial n a c)
  unfolding sum_of
  sum_of-half zero a c h =
      let none_left : c ≡ 0 = omega arith in
      ap (λ (t : ℕ). sum_of polynomial 1 a t) none_left ∙ sym (crc_step-zero polynomial)
  sum_of-half (suc n) a c h =
      ap₂ bit_xor
        (ap (λ (t : ℕ). feedback t (c % 2)) (crc_steps-suc polynomial n a)
          ∙ sym (feedback-step polynomial (c % 2) (crc_steps polynomial n a)))
        (sum_of-half n a (c / 2) (omega (arith, pow-suc 2 n)))
      ∙ sym (
          crc_step-xor polynomial (feedback (crc_steps polynomial n a) (c % 2))
            (sum_of polynomial n a (c / 2)))

  -- The top bit and the others.
  pub sum_of-top :
      (n a c : ℕ)
      → c < 2 ^ suc n
      → sum_of polynomial (suc n) a c
        ≡ bit_xor (feedback a (c / 2 ^ n)) (sum_of polynomial n (crc_step polynomial a) (c % 2 ^ n))
  unfolding sum_of
  sum_of-top zero a c h =
      let e : c % 2 ≡ c / 2 ^ 0 = omega arith in
      ap₂ (λ (t u : ℕ). bit_xor (feedback t u) 0) (crc_steps-zero polynomial a) e
  sum_of-top (suc n) a c h =
      let f = feedback (crc_steps polynomial (suc n) a) (c % 2) in
      let t = feedback a (c / 2 / 2 ^ n) in
      let s = sum_of polynomial n (crc_step polynomial a) (c / 2 % 2 ^ n) in
      let (rest, low) = remainder_parts c n in
      ap (bit_xor f) (sum_of-top n a (c / 2) (omega (arith, pow-suc 2 (suc n))))
      ∙ sym (xor_assoc f t s)
      ∙ ap (λ (u : ℕ). bit_xor u s) (xor_comm f t)
      ∙ xor_assoc t f s
      ∙ sym (
          ap₂ bit_xor (ap (feedback a) (halves c n)) (
            ap₂ bit_xor (ap₂ feedback (sym (crc_steps-step polynomial n a)) low)
              (ap (sum_of polynomial n (crc_step polynomial a)) rest)))

  -- The loop of `GF32Multiply`, for a number that has been shifted up.
  masked_lem : (bit a : ℕ) → bit < 2 → a < 2 ^ 32 → bit_and (negate32 bit) a ≡ feedback a bit
  masked_lem zero a h k = bit_and_comm 0 a ∙ bit_and-zero a
  masked_lem (suc zero) a h k = bit_and_comm (2 ^ 32 - 1) a ∙ bit_and_mask 32 a ∙ omega arith
  masked_lem (suc (suc bit)) a h k = absurd (omega arith)

  whole : (n e k : ℕ) → n + e ≡ k → 2 ^ k ≡ 2 ^ n * 2 ^ e
  whole n e k h = ap (λ (t : ℕ). 2 ^ t) (sym h) ∙ pow_add n e

  twice : (c s : ℕ) → c * s * 2 ≡ c * (2 * s)
  twice c s = grind arith

  double : (e : ℕ) → 2 * 2 ^ e ≡ 2 ^ suc e
  double e = omega (arith, pow-suc 2 e)

  shifted_top : (n e c : ℕ) → n + e ≡ 31 → c < 2 ^ suc n → c * 2 ^ e / 2 ^ 31 ≡ c / 2 ^ n
  shifted_top n e c h k =
      ap (λ (t : ℕ). c * 2 ^ e / t) (whole n e 31 h)
      ∙ mul-div-mul_right c (2 ^ n) (one-le-pow e 2 (omega arith))

  shifted_rest :
      (n e c : ℕ)
      → suc n + e ≡ 31
      → c < 2 ^ suc (suc n)
      → c * 2 ^ e * 2 % 2 ^ 32 ≡ c % 2 ^ suc n * 2 ^ suc e
  shifted_rest n e c h k =
      let e2 : c * 2 ^ e * 2 ≡ c * 2 ^ suc e = twice c (2 ^ e) ∙ ap (λ (t : ℕ). c * t) (double e) in
      ap₂ (λ (t u : ℕ). t % u) e2 (whole (suc n) (suc e) 32 (omega arith))
      ∙ mul-mod_shift c (2 ^ suc n) (2 ^ suc e) (one-le-pow (suc n) 2 (omega arith))
          (one-le-pow (suc e) 2 (omega arith))

  unfolded_step :
      (a : ℕ) → crc_step polynomial a ≡ bit_xor (a / 2) (feedback polynomial (bit_and a 1))
  unfolding crc_step
  unfolded_step a = refl

  crc_step-lt : (a : ℕ) → polynomial < 2 ^ 32 → a < 2 ^ 32 → crc_step polynomial a < 2 ^ 32
  crc_step-lt a p h =
      subst (λ (t : ℕ). t < 2 ^ 32)
        (crc_steps-step polynomial 0 a ∙ crc_steps-zero polynomial (crc_step polynomial a))
        (crc_steps-lt polynomial 1 a p h)

  pub multiply_rounds_lem :
      (n e product a c : ℕ)
      → polynomial < 2 ^ 32
      → a < 2 ^ 32
      → n + e ≡ 31
      → c < 2 ^ suc n
      → multiply_rounds polynomial n product a (c * 2 ^ e)
        ≡ bit_xor product (sum_of polynomial (suc n) a c)
  unfolding multiply_rounds sum_of
  multiply_rounds_lem zero e product a c p q h k =
      let top = shifted_top zero e c h k in
      let bit : c / 2 ^ 0 < 2 = omega arith in
      ap (bit_xor product) (
        ap (λ (t : ℕ). bit_and (negate32 t) a) top
        ∙ masked_lem (c / 2 ^ 0) a bit q
        ∙ sym (sum_of-top zero a c k ∙ xor-zero (feedback a (c / 2 ^ 0))))
  multiply_rounds_lem (suc n) e product a c p q h k =
      let top = shifted_top (suc n) e c h k in
      let bit : c / 2 ^ suc n < 2 =
        (div-lt_iff_lt-mul (one-le-pow (suc n) 2 (omega arith))).1
          (omega (arith, pow-suc 2 (suc n))) in
      let low : c % 2 ^ suc n < 2 ^ suc n = mod-lt c (one-le-pow (suc n) 2 (omega arith)) in
      let f = feedback a (c / 2 ^ suc n) in
      let added = ap (λ (t : ℕ). bit_and (negate32 t) a) top ∙ masked_lem (c / 2 ^ suc n) a bit q in
      let next : bit_xor (a / 2) (bit_and polynomial (negate32 (bit_and a 1)))
          ≡ crc_step polynomial a =
        ap (bit_xor (a / 2)) (
          bit_and_comm polynomial (negate32 (bit_and a 1))
          ∙ masked_lem (bit_and a 1) polynomial (omega (arith, bit_and_mask 1 a)) p)
        ∙ sym (unfolded_step a) in
      ap₂ (λ (t u : ℕ). multiply_rounds polynomial n (bit_xor product t) u (c * 2 ^ e * 2 % 2 ^ 32))
        added next
      ∙ ap (multiply_rounds polynomial n (bit_xor product f) (crc_step polynomial a))
          (shifted_rest n e c h k)
      ∙ multiply_rounds_lem n (suc e) (bit_xor product f) (crc_step polynomial a) (c % 2 ^ suc n) p
          (crc_step-lt a p q) (omega arith) low
      ∙ xor_assoc product f (sum_of polynomial (suc n) (crc_step polynomial a) (c % 2 ^ suc n))
      ∙ ap (bit_xor product) (sym (sum_of-top (suc n) a c k))
