-- ===== src/Galois/Arithmetic.antt =====
-- Multiplication and division by logarithms are those of a field.
use native.Mathlib.Nat.{add_comm}
use par2cmdline_turbo.Prelude.{
  ℕ, zero, suc, ◌+◌, ◌-◌, ◌%◌, ◌<◌, ◌≡◌, refl, ap, sym, ◌∙◌, false, ◌||◌, ◌==◌, arith, bit_xor,
  dec_lt, le→ltb, lt→ltb,
}
use mathlib.Core.Path.{ap₂}
use par2cmdline_turbo.Bits.Xor.{xor-lt}
use par2cmdline_turbo.Galois.{
  next_power, log_of, antilog_of, limit, galois_add, galois_mul, galois_div,
}
use par2cmdline_turbo.Galois.Tables.{log_of-IsLogarithm, antilog-IsPower, next_power-xor}

-- The product of two numbers that are not 0 adds up their logarithms.
pub mul_log :
    (a b : ℕ)
    → 0 < a
    → 0 < b
    → a < 256
    → b < 256
    → galois_mul a b ≡ antilog_of ((log_of a + log_of b) % 255)
unfolding galois_mul
mul_log a b p q h k =
    let x = (log_of-IsLogarithm a p h).below in
    let y = (log_of-IsLogarithm b q k).below in
    let nonzero : ((a == 0) || (b == 0)) ≡ false = ground arith in
    elim (dec_lt (log_of a + log_of b) limit) [
      | yes small ↦
          let e : log_of a + log_of b ≡ (log_of a + log_of b) % 255 = omega arith in
          rw (nonzero, lt→ltb (log_of a + log_of b) limit small) (ap antilog_of e)
      | no large ↦
          let e : log_of a + log_of b - limit ≡ (log_of a + log_of b) % 255 = omega arith in
          rw (nonzero, le→ltb (log_of a + log_of b) limit (omega arith)) (ap antilog_of e)
    ]

pub zero-mul : (b : ℕ) → galois_mul 0 b ≡ 0
unfolding galois_mul
zero-mul b = refl

pub mul-zero : (a : ℕ) → galois_mul a 0 ≡ 0
unfolding galois_mul
mul-zero a = ground arith

-- What the product is, as a byte and as a power of 2.
pub record IsProduct (a b : ℕ) : Type 0 where
  pub positive : 0 < galois_mul a b
  pub below : galois_mul a b < 256
  pub log : log_of (galois_mul a b) ≡ (log_of a + log_of b) % 255

pub mul-IsProduct : (a b : ℕ) → 0 < a → 0 < b → a < 256 → b < 256 → IsProduct a b
mul-IsProduct a b p q h k =
    let e = mul_log a b p q h k in
    let w = antilog-IsPower ((log_of a + log_of b) % 255) (omega arith) in
    record { positive = rw e w.positive; below = rw e w.below; log = rw e w.back }

pub mul-lt : (a b : ℕ) → a < 256 → b < 256 → galois_mul a b < 256
mul-lt zero b h k = rw (zero-mul b) (omega arith)
mul-lt (suc a) zero h k = rw (mul-zero (suc a)) (omega arith)
mul-lt (suc a) (suc b) h k = (mul-IsProduct (suc a) (suc b) (omega arith) (omega arith) h k).below

pub mul_comm : (a b : ℕ) → a < 256 → b < 256 → galois_mul a b ≡ galois_mul b a
mul_comm zero b h k = zero-mul b ∙ sym (mul-zero b)
mul_comm (suc a) zero h k = mul-zero (suc a) ∙ sym (zero-mul (suc a))
mul_comm (suc a) (suc b) h k =
    mul_log (suc a) (suc b) (omega arith) (omega arith) h k
    ∙ ap (λ (t : ℕ). antilog_of (t % 255)) (add_comm (log_of (suc a)) (log_of (suc b)))
    ∙ sym (mul_log (suc b) (suc a) (omega arith) (omega arith) k h)

mul_assoc_pos :
    (a b c : ℕ)
    → 0 < a
    → 0 < b
    → 0 < c
    → a < 256
    → b < 256
    → c < 256
    → galois_mul (galois_mul a b) c ≡ galois_mul a (galois_mul b c)
mul_assoc_pos a b c p q r h k l =
    let ab = mul-IsProduct a b p q h k in
    let bc = mul-IsProduct b c q r k l in
    mul_log (galois_mul a b) c ab.positive r ab.below l
    ∙ ap antilog_of (omega (arith, ab.log, bc.log))
    ∙ sym (mul_log a (galois_mul b c) p bc.positive h bc.below)

pub mul_assoc :
    (a b c : ℕ)
    → a < 256
    → b < 256
    → c < 256
    → galois_mul (galois_mul a b) c ≡ galois_mul a (galois_mul b c)
mul_assoc zero b c h k l =
    ap (λ (t : ℕ). galois_mul t c) (zero-mul b) ∙ zero-mul c ∙ sym (zero-mul (galois_mul b c))
mul_assoc (suc a) zero c h k l =
    ap (λ (t : ℕ). galois_mul t c) (mul-zero (suc a))
    ∙ zero-mul c
    ∙ sym (ap (galois_mul (suc a)) (zero-mul c) ∙ mul-zero (suc a))
mul_assoc (suc a) (suc b) zero h k l =
    mul-zero (galois_mul (suc a) (suc b))
    ∙ sym (ap (galois_mul (suc a)) (mul-zero (suc b)) ∙ mul-zero (suc a))
mul_assoc (suc a) (suc b) (suc c) h k l =
    mul_assoc_pos (suc a) (suc b) (suc c) (omega arith) (omega arith) (omega arith) h k l

-- Multiplying by a power of 2 takes that many steps of the generator.
abbrev pub power : ℕ → ℕ → ℕ
power zero b = b
power (suc k) b = power k (next_power b)

power-antilog : (k l : ℕ) → l < 255 → power k (antilog_of l) ≡ antilog_of ((l + k) % 255)
power-antilog zero l h = ap antilog_of (omega arith)
power-antilog (suc k) l h =
    ap (power k) (antilog-IsPower l h).next
    ∙ power-antilog k ((l + 1) % 255) (omega arith)
    ∙ ap antilog_of (omega arith)

power-zero : (k : ℕ) → power k 0 ≡ 0
unfolding next_power
power-zero zero = refl
power-zero (suc k) = power-zero k

pub mul-eq-power : (a b : ℕ) → 0 < a → a < 256 → b < 256 → galois_mul a b ≡ power (log_of a) b
mul-eq-power a zero p h k = mul-zero a ∙ sym (power-zero (log_of a))
mul-eq-power a (suc b) p h k =
    let y = log_of-IsLogarithm (suc b) (omega arith) k in
    mul_comm a (suc b) h k
    ∙ mul_log (suc b) a (omega arith) p k h
    ∙ sym (power-antilog (log_of a) (log_of (suc b)) y.below)
    ∙ ap (power (log_of a)) y.back

power-xor :
    (k a b : ℕ) → a < 256 → b < 256 → power k (bit_xor a b) ≡ bit_xor (power k a) (power k b)
power-xor zero a b h l = refl
power-xor (suc k) a b h l =
    ap (power k) (next_power-xor a b h l).0
    ∙ power-xor k (next_power a) (next_power b) (next_power-xor a b h l).1
        (next_power-xor b a l h).1

pub mul-add :
    (a b c : ℕ)
    → a < 256
    → b < 256
    → c < 256
    → galois_mul a (galois_add b c) ≡ galois_add (galois_mul a b) (galois_mul a c)
unfolding galois_add
mul-add zero b c h k l = zero-mul (bit_xor b c) ∙ sym (ap₂ bit_xor (zero-mul b) (zero-mul c))
mul-add (suc a) b c h k l =
    let p : 0 < suc a = omega arith in
    mul-eq-power (suc a) (bit_xor b c) p h (xor-lt 8 b c k l)
    ∙ power-xor (log_of (suc a)) b c k l
    ∙ sym (ap₂ bit_xor (mul-eq-power (suc a) b p h k) (mul-eq-power (suc a) c p h l))

pub one-mul : (b : ℕ) → b < 256 → galois_mul 1 b ≡ b
one-mul b h = mul-eq-power 1 b (omega arith) (omega arith) h ∙ ap (λ (t : ℕ). power t b) log_one
  where
    log_one : log_of 1 ≡ 0
    log_one = unfold log_of in refl

div_log :
    (a b : ℕ)
    → 0 < a
    → 0 < b
    → a < 256
    → b < 256
    → galois_div a b ≡ antilog_of ((log_of a + 255 - log_of b) % 255)
unfolding galois_div
div_log a b p q h k =
    let x = (log_of-IsLogarithm a p h).below in
    let y = (log_of-IsLogarithm b q k).below in
    let nonzero : (a == 0) ≡ false = ground arith in
    let divides : (b == 0) ≡ false = ground arith in
    elim (dec_lt (log_of a) (log_of b)) [
      | yes less ↦
          let e : log_of a + limit - log_of b ≡ (log_of a + 255 - log_of b) % 255 = omega arith in
          rw (nonzero, divides, lt→ltb (log_of a) (log_of b) less) (ap antilog_of e)
      | no more ↦
          let e : log_of a - log_of b ≡ (log_of a + 255 - log_of b) % 255 = omega arith in
          rw (nonzero, divides, le→ltb (log_of a) (log_of b) (omega arith)) (ap antilog_of e)
    ]

pub zero-div : (b : ℕ) → galois_div 0 b ≡ 0
unfolding galois_div
zero-div b = refl

-- For two bytes, the second not 0, what `operator/` gives is a byte, and `operator*` of it and the
-- divisor gives the dividend back.
pub div-mul :
    (a b : ℕ)
    → 0 < b
    → a < 256
    → b < 256
    → (galois_mul (galois_div a b) b ≡ a) × (galois_div a b < 256)
div-mul zero b p h k = rw (zero-div b) (zero-mul b, omega arith)
div-mul (suc a) b p h k =
    let y = log_of-IsLogarithm b p k in
    let x = log_of-IsLogarithm (suc a) (omega arith) h in
    let l = (log_of (suc a) + 255 - log_of b) % 255 in
    let w = antilog-IsPower l (omega arith) in
    let sum : (l + log_of b) % 255 ≡ log_of (suc a) = omega (arith, x.below, y.below) in
    rw (div_log (suc a) b (omega arith) p h k) (
      mul_log (antilog_of l) b w.positive p w.below k
          ∙ ap (λ (t : ℕ). antilog_of ((t + log_of b) % 255)) w.back
          ∙ ap antilog_of sum
          ∙ x.back,
      w.below,
    )
