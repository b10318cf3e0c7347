-- ===== src/Bits.antt =====
-- What the C++ operators `&`, `|` and `^` on unsigned integers mean as arithmetic: the equation
-- for the lowest bit, masks of low bits, fields that do not overlap, and the laws of `^`.
mod Step
pub mod Xor
pub mod Shift
use Prim.Native.Nat.{bit_or-bitwise}
use native.Mathlib.Nat.{pow-suc, one-le-pow, mul-add-mod_self_right}
use par2cmdline_turbo.Prelude.{
  ℕ, zero, suc, ◌+◌, ◌-◌, ◌*◌, ◌/◌, ◌%◌, ◌^◌, ◌≤◌, ◌<◌, bit_and, bit_or, ◌≡◌, refl, sym, ◌∙◌, ap,
  arith,
}
use Step.{bit_and_step, bit_or_step}

no_common_bits : (bound number : ℕ) → number < bound → bit_and number 0 ≡ 0
no_common_bits zero number h = absurd (omega arith)
no_common_bits (suc bound) zero h = refl
no_common_bits (suc bound) (suc number) h =
    let above = no_common_bits bound (suc number / 2) (omega arith) in
    omega (arith, bit_and_step (suc number) 0)

pub bit_and-zero : (a : ℕ) → bit_and a 0 ≡ 0
bit_and-zero a = no_common_bits (suc a) a (omega arith)

double-pow : (q k : ℕ) → q * 2 ^ suc k ≡ 2 * (q * 2 ^ k)
double-pow q k = omega (arith, ap (λ (t : ℕ). q * t) (pow-suc 2 k))

-- The remainder by a power of two, one bit at a time.
pub mod-pow-suc : (k a : ℕ) → a % 2 ^ suc k ≡ a / 2 % 2 ^ k * 2 + a % 2
mod-pow-suc k a =
    let m = 2 ^ k in
    let q = a / 2 / m in
    let r = a / 2 % m in
    let whole : a ≡ q * 2 ^ suc k + (r * 2 + a % 2) =
      omega (arith, double-pow q k, native.Mathlib.Nat.div-add-mod' (a / 2) m) in
    let small : r * 2 + a % 2 < 2 ^ suc k =
      omega
        (arith, pow-suc 2 k, native.Mathlib.Nat.mod-lt (a / 2) (one-le-pow k 2 (omega arith))) in
    ap (λ (t : ℕ). t % 2 ^ suc k) whole
    ∙ mul-add-mod_self_right q (2 ^ suc k) (r * 2 + a % 2)
    ∙ native.Mathlib.Nat.mod-eq_of_lt small

-- `a & (2 ^ k - 1)` keeps the low `k` bits.
pub bit_and_mask : (k a : ℕ) → bit_and a (2 ^ k - 1) ≡ a % 2 ^ k
bit_and_mask zero a = omega (arith, bit_and-zero a)
bit_and_mask (suc k) a = omega (
  arith,
  pow-suc 2 k,
  one-le-pow k 2 (omega arith),
  bit_and_step a (2 ^ suc k - 1),
  ap (λ (t : ℕ). bit_and (a / 2) t) (half_mask k),
  bit_and_mask k (a / 2),
  mod-pow-suc k a,
)
  where
    half_mask : (k : ℕ) → (2 ^ suc k - 1) / 2 ≡ 2 ^ k - 1
    half_mask k = omega (arith, pow-suc 2 k, one-le-pow k 2 (omega arith))

-- `a & ~3` on 64 bits, and `a & 3`.
pub bit_and-not_three : (a : ℕ) → a < 2 ^ 64 → bit_and a (2 ^ 64 - 4) ≡ a - a % 4
bit_and-not_three a h = omega (
  arith,
  bit_and_step a (2 ^ 64 - 4),
  bit_and_step (a / 2) (2 ^ 63 - 2),
  bit_and_mask 62 (a / 2 / 2),
)

-- The same on 32 bits.
pub bit_and-not_three_32 : (a : ℕ) → a < 2 ^ 32 → bit_and a (2 ^ 32 - 4) ≡ a - a % 4
bit_and-not_three_32 a h = omega (
  arith,
  bit_and_step a (2 ^ 32 - 4),
  bit_and_step (a / 2) (2 ^ 31 - 2),
  bit_and_mask 30 (a / 2 / 2),
)

-- `r | (q << k)` is a sum where `r` has `k` bits.
pub bit_or_fields : (k q r : ℕ) → r < 2 ^ k → bit_or r (q * 2 ^ k) ≡ r + q * 2 ^ k
bit_or_fields zero q zero h = omega (arith, bit_or-bitwise 0 (q * 1))
bit_or_fields zero q (suc r) h = absurd (omega arith)
bit_or_fields (suc k) q r h = omega (
  arith,
  pow-suc 2 k,
  double-pow q k,
  bit_or_step r (q * 2 ^ suc k),
  ap (λ (t : ℕ). bit_or (r / 2) t) (half_shift q k),
  bit_or_fields k q (r / 2) (omega (arith, pow-suc 2 k)),
)
  where
    half_shift : (q k : ℕ) → q * 2 ^ suc k / 2 ≡ q * 2 ^ k
    half_shift q k = omega (arith, double-pow q k)
