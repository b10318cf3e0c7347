-- ===== src/ReedSolomon/Bytes.antt =====
-- `Galois8` is a field that `ReedSolomon` can be used with.
use mathlib.Core.HLevel.{is_prop→PathP}
use native.Mathlib.Bridge.{le_prop}
use par2cmdline_turbo.Prelude.{ℕ, ◌%◌, ◌^◌, ◌<◌, ◌≡◌, ◌≢◌, ◌↔◌, ap, ◌∙◌, true, ◌==◌, arith, dec_lt}
use par2cmdline_turbo.Bits.Xor.{xor-lt, xor-zero, xor_comm, xor_assoc, xor_self}
use par2cmdline_turbo.Galois.{galois_add, galois_mul, galois_div, galois_pow}
use par2cmdline_turbo.Galois.Arithmetic.{mul-lt, mul_comm, mul_assoc, mul-add, one-mul, div-mul}
use par2cmdline_turbo.ReedSolomon.Field.{Galois}

-- A value of type u8.
pub record Byte : Type 0 where
  pub value : ℕ
  pub below : value < 256

pub Byte-eq : (a b : Byte) → a.value ≡ b.value → a ≡ b
Byte-eq a b e = λ i. record {
  value = e i;
  below = is_prop→PathP (λ j. e j < 256) (λ j. le_prop) a.below b.below i;
}

pub add_assoc : (a b c : ℕ) → galois_add (galois_add a b) c ≡ galois_add a (galois_add b c)
unfolding galois_add
add_assoc a b c = xor_assoc a b c

pub add_comm : (a b : ℕ) → galois_add a b ≡ galois_add b a
unfolding galois_add
add_comm a b = xor_comm a b

pub add-zero : (a : ℕ) → galois_add a 0 ≡ a
unfolding galois_add
add-zero a = xor-zero a

pub add_self : (a : ℕ) → galois_add a a ≡ 0
unfolding galois_add
add_self a = xor_self a

-- The conversion to a u8
abbrev pub byte : ℕ → Byte
byte n = record { value = n % 2 ^ 8; below = omega arith }

pub add-lt : (a b : Byte) → galois_add a.value b.value < 256
unfolding galois_add
add-lt a b = xor-lt 8 a.value b.value a.below b.below

abbrev pub plus : Byte → Byte → Byte
plus a b = record { value = galois_add a.value b.value; below = add-lt a b }

abbrev pub times : Byte → Byte → Byte
times a b = record {
  value = galois_mul a.value b.value;
  below = mul-lt a.value b.value a.below b.below;
}

pub same_byte : (a b : Byte) → ((a.value == b.value) ≡ true) ↔ (a ≡ b)
same_byte a b = (
  λ h. Byte-eq a b (ground (arith, h)),
  λ h. let e : a.value ≡ b.value = ap (λ (x : Byte). x.value) h in ground (arith, e),
)

positive : (b : Byte) → b.value ≢ 0 → 0 < b.value
positive b h = elim (dec_lt 0 b.value) [ yes p ↦ p | no p ↦ absurd (h (omega arith)) ]

pub div_times :
    (a b : Byte) → b ≢ byte 0 → galois_mul (galois_div a.value b.value % 2 ^ 8) b.value ≡ a.value
div_times a b h =
    let p : 0 < b.value = positive b (λ e. h (Byte-eq b (byte 0) e)) in
    let (e, l) = div-mul a.value b.value p a.below b.below in
    let small : galois_div a.value b.value % 2 ^ 8 ≡ galois_div a.value b.value = omega arith in
    rw small e

-- The field that `Galois8` is.
abbrev pub galois8 : Galois
galois8 = record {
  Element = Byte;
  of_value = byte;
  nought = byte 0;
  one = byte 1;
  add = plus;
  mul = times;
  div = λ a b. byte (galois_div a.value b.value);
  pow = λ a n. byte (galois_pow a.value n);
  beq = λ a b. a.value == b.value;
  beq_iff = same_byte;
  add_assoc = λ a b c. Byte-eq _ _ (add_assoc a.value b.value c.value);
  add_comm = λ a b. Byte-eq _ _ (add_comm a.value b.value);
  add_nought = λ a. Byte-eq _ _ (add-zero a.value);
  add_self = λ a. Byte-eq _ _ (add_self a.value);
  mul_assoc = λ a b c. Byte-eq _ _ (mul_assoc a.value b.value c.value a.below b.below c.below);
  mul_comm = λ a b. Byte-eq _ _ (mul_comm a.value b.value a.below b.below);
  mul_one = λ a. Byte-eq _ _ (mul_comm a.value 1 a.below (omega arith) ∙ one-mul a.value a.below);
  mul_add = λ a b c. Byte-eq _ _ (mul-add a.value b.value c.value a.below b.below c.below);
  div_mul = λ a b h. Byte-eq _ _ (div_times a b h);
}
