-- ===== src/Galois/Polynomials.antt =====
-- The product by tables is the product of polynomials over two elements, taken modulo the
-- generator, and `pow` is the power.
use par2cmdline_turbo.Prelude.{
  ℕ, zero, suc, ◌+◌, ◌-◌, ◌*◌, ◌/◌, ◌%◌, ◌^◌, ◌≤◌, ◌<◌, ◌≡◌, refl, ap, sym, ◌∙◌, Bool, true, false,
  ◌==◌, if◌then◌else◌, arith, bit_xor, dec_lt, le→ltb, lt→ltb, all_below, all_below_lem,
}
use mathlib.Core.Path.{ap₂}
use native.Mathlib.Nat.{pow-suc}
use par2cmdline_turbo.Bits.{bit_and_mask}
use par2cmdline_turbo.Bits.Xor.{xor_fields, xor_comm, xor-lt}
use par2cmdline_turbo.Galois.{
  next_power, log_of, antilog_of, limit, galois_add, galois_mul, galois_pow,
}
use par2cmdline_turbo.Galois.Tables.{log_of-IsLogarithm, next_power-xor}
use par2cmdline_turbo.Galois.Arithmetic.{
  mul-eq-power, mul_comm, mul_assoc, mul-add, zero-mul, one-mul, power, mul-IsProduct,
}

-- Long multiplication, a bit of `a` at a time, the lowest first: `b` is added where the bit is
-- set, and multiplied by x for the next.
abbrev pub long_product : ℕ → ℕ → ℕ → ℕ
long_product zero a b = 0
long_product (suc bits) a b =
    galois_add (if a % 2 == 0 then 0 else b) (long_product bits (a / 2) (next_power b))

double_test : ℕ → Bool
double_test c = next_power c == 2 * c

double_all : all_below 128 double_test ≡ true
unfolding double_test next_power
double_all = refl

double : (c : ℕ) → c < 128 → next_power c ≡ 2 * c
double c h =
    let e = all_below_lem 128 double_test c double_all h in unfold double_test in ground (arith, e)

two-mul : (b : ℕ) → b < 256 → galois_mul 2 b ≡ next_power b
two-mul b h = mul-eq-power 2 b (omega arith) (omega arith) h ∙ ap (λ (t : ℕ). power t b) log_two
  where
    log_two : log_of 2 ≡ 1
    log_two = unfold log_of in refl

-- A factor x moves to the other side.
double-mul : (c b : ℕ) → c < 128 → b < 256 → galois_mul (2 * c) b ≡ galois_mul c (next_power b)
double-mul c b h k =
    ap (λ (t : ℕ). galois_mul t b) (sym (two-mul c (omega arith) ∙ double c h))
    ∙ ap (λ (t : ℕ). galois_mul t b) (mul_comm 2 c (omega arith) (omega arith))
    ∙ mul_assoc c 2 b (omega arith) (omega arith) k
    ∙ ap (galois_mul c) (two-mul b k)

bit-mul : (bit b : ℕ) → bit < 2 → b < 256 → galois_mul bit b ≡ (if bit == 0 then 0 else b)
bit-mul zero b h k = zero-mul b
bit-mul (suc zero) b h k = one-mul b k
bit-mul (suc (suc bit)) b h k = absurd (omega arith)

add-lt : (a b : ℕ) → a < 256 → b < 256 → galois_add a b < 256
unfolding galois_add
add-lt a b h k = xor-lt 8 a b h k

add-mul :
    (a b c : ℕ)
    → a < 256
    → b < 256
    → c < 256
    → galois_mul (galois_add a b) c ≡ galois_add (galois_mul a c) (galois_mul b c)
add-mul a b c h k l =
    mul_comm (galois_add a b) c (add-lt a b h k) l
    ∙ mul-add c a b l h k
    ∙ ap₂ galois_add (mul_comm c a l h) (mul_comm c b l k)

split_low : (a : ℕ) → a ≡ galois_add (a % 2) (2 * (a / 2))
unfolding galois_add
split_low a =
    let q = a / 2 in
    let e : q * 2 ^ 1 + a % 2 ≡ a = omega arith in
    let d : q * 2 ^ 1 ≡ 2 * q = omega arith in
    sym e
    ∙ sym (xor_fields 1 q (a % 2) (omega arith))
    ∙ xor_comm (q * 2 ^ 1) (a % 2)
    ∙ ap (bit_xor (a % 2)) d

long_product-mul :
    (bits a b : ℕ)
    → bits ≤ 8
    → a < 2 ^ bits
    → a < 256
    → b < 256
    → long_product bits a b ≡ galois_mul a b
long_product-mul zero a b le fits h k = let e : a ≡ 0 = omega arith in rw e (sym (zero-mul b))
long_product-mul (suc bits) a b le fits h k =
    let half : a / 2 < 2 ^ bits = omega (arith, pow-suc 2 bits) in
    ap₂ galois_add (sym (bit-mul (a % 2) b (omega arith) k)) (
      long_product-mul bits (a / 2) (next_power b) (omega arith) half (omega arith)
        (next_power-xor b b k k).1)
    ∙ ap (galois_add (galois_mul (a % 2) b)) (sym (double-mul (a / 2) b (omega arith) k))
    ∙ sym (add-mul (a % 2) (2 * (a / 2)) b (omega arith) (omega arith) k)
    ∙ ap (λ (t : ℕ). galois_mul t b) (sym (split_low a))

-- For any two bytes, the product that `operator*` looks up is their product as polynomials of
-- degree below 8 with coefficients 0 and 1, computed a bit at a time and reduced by the generator.
pub galois_mul-eq-long_product : (a b : ℕ) → a < 256 → b < 256 → galois_mul a b ≡ long_product 8 a b
galois_mul-eq-long_product a b h k = sym (long_product-mul 8 a b (omega arith) h h k)

-- Repeated multiplication.
abbrev pub product_of : ℕ → ℕ → ℕ
product_of value zero = 1
product_of value (suc n) = galois_mul value (product_of value n)

pub record IsRepeated (value n : ℕ) : Type 0 where
  pub positive : 0 < product_of value n
  pub below : product_of value n < 256
  pub log : log_of (product_of value n) ≡ log_of value * n % 255

log_one : log_of 1 ≡ 0
unfolding log_of
log_one = refl

product_of-IsRepeated : (value n : ℕ) → 0 < value → value < 256 → IsRepeated value n
product_of-IsRepeated value zero p h = record {
  positive = omega arith;
  below = omega arith;
  log = log_one ∙ omega arith;
}
product_of-IsRepeated value (suc n) p h =
    let r = product_of-IsRepeated value n p h in
    let w = mul-IsProduct value (product_of value n) p r.positive h r.below in
    let l = log_of value in
    let e : l * suc n ≡ l * n + l = grind arith in
    record { positive = w.positive; below = w.below; log = w.log ∙ omega (arith, r.log, e) }

product_bound : (l n : ℕ) → l ≤ 254 → n ≤ 255 → l * n ≤ 254 * 255
product_bound l n p q = grind arith

-- The logarithm that `pow` looks up.
galois_pow-log :
    (value right : ℕ)
    → 0 < value
    → 0 < right
    → value < 256
    → right < 256
    → galois_pow value right ≡ antilog_of (log_of value * right % 255)
unfolding galois_pow
galois_pow-log value right p q h k =
    let l = (log_of-IsLogarithm value p h).below in
    let product = log_of value * right in
    let bound = product_bound (log_of value) right (omega arith) (omega arith) in
    let exact : product % 2 ^ 32 ≡ product = omega arith in
    let mask = bit_and_mask 8 product in
    let sum = product / 2 ^ 8 + product % 2 ^ 8 in
    let nonzero : (right == 0) ≡ false = ground arith in
    let positive : (value == 0) ≡ false = ground arith in
    elim (dec_lt sum limit) [
      | yes small ↦
          let e : sum ≡ product % 255 = omega arith in
          rw (nonzero, positive, exact, mask, lt→ltb sum limit small) (ap antilog_of e)
      | no large ↦
          let e : sum - limit ≡ product % 255 = omega arith in
          rw (nonzero, positive, exact, mask, le→ltb sum limit (omega arith)) (ap antilog_of e)
    ]

zero-pow : (n : ℕ) → galois_pow 0 (suc n) ≡ 0
unfolding galois_pow
zero-pow n = ground arith

-- For a byte and an exponent below 256, which is what a volume number can be, `pow` is repeated
-- multiplication.
pub galois_pow-eq-product_of :
    (value right : ℕ) → value < 256 → right < 256 → galois_pow value right ≡ product_of value right
galois_pow-eq-product_of value zero h k = unfold galois_pow in refl
galois_pow-eq-product_of zero (suc n) h k = zero-pow n ∙ sym (zero-mul (product_of 0 n))
galois_pow-eq-product_of (suc v) (suc n) h k =
    let value = suc v in
    let right = suc n in
    let r = product_of-IsRepeated value right (omega arith) h in
    let index = log_of value * right % 255 in
    galois_pow-log value right (omega arith) (omega arith) h k
    ∙ ap antilog_of (sym r.log)
    ∙ (log_of-IsLogarithm (product_of value right) r.positive r.below).back
