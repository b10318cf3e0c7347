-- ===== src/Bits/Shift.antt =====
-- `^` on a number cut in two.
use Prim.Native.Nat.{differ}
use mathlib.Core.Path.{ap₂}
use native.Mathlib.Nat.{
  pow-suc, div-div-eq-div-mul, div-one, div-add-mod', mod-lt, mod-eq_of_lt, mul-add-mod_self_right,
}
use par2cmdline_turbo.Prelude.{
  ℕ, zero, suc, ◌+◌, ◌*◌, ◌/◌, ◌%◌, ◌^◌, ◌<◌, ◌≤◌, bit_and, bit_xor, ◌≡◌, refl, ap, sym, ◌∙◌, arith,
}
use par2cmdline_turbo.Bits.{mod-pow-suc}
use par2cmdline_turbo.Bits.Step.{bit_xor_step, bit_and_step}
use par2cmdline_turbo.Bits.Xor.{xor_parts}

pub halves : (a k : ℕ) → a / 2 ^ suc k ≡ a / 2 / 2 ^ k
halves a k = ap (λ (t : ℕ). a / t) (double k) ∙ sym (div-div-eq-div-mul a 2 (2 ^ k))
  where
    double : (k : ℕ) → 2 ^ suc k ≡ 2 * 2 ^ k
    double k = omega (arith, pow-suc 2 k)

pub xor-div : (k a b : ℕ) → bit_xor a b / 2 ^ k ≡ bit_xor (a / 2 ^ k) (b / 2 ^ k)
xor-div zero a b = div-one (bit_xor a b) ∙ sym (ap₂ bit_xor (div-one a) (div-one b))
xor-div (suc k) a b =
    halves (bit_xor a b) k
    ∙ ap (λ (t : ℕ). t / 2 ^ k) (xor_parts a b).0
    ∙ xor-div k (a / 2) (b / 2)
    ∙ sym (ap₂ bit_xor (halves a k) (halves b k))

-- The digits of a remainder.
pub remainder_parts : (a k : ℕ) → (a % 2 ^ suc k / 2 ≡ a / 2 % 2 ^ k) × (a % 2 ^ suc k % 2 ≡ a % 2)
remainder_parts a k = (omega (arith, mod-pow-suc k a), omega (arith, mod-pow-suc k a))

pub xor-mod : (k a b : ℕ) → bit_xor a b % 2 ^ k ≡ bit_xor (a % 2 ^ k) (b % 2 ^ k)
xor-mod zero a b = one (bit_xor a b) ∙ sym (ap₂ bit_xor (one a) (one b))
  where
    one : (n : ℕ) → n % 2 ^ 0 ≡ 0
    one n = omega arith
xor-mod (suc k) a b =
    mod-pow-suc k (bit_xor a b)
    ∙ ap₂ (λ (s t : ℕ). s * 2 + t)
        (ap (λ (t : ℕ). t % 2 ^ k) (xor_parts a b).0 ∙ xor-mod k (a / 2) (b / 2)) (xor_parts a b).1
    ∙ sym (
        bit_xor_step (a % 2 ^ suc k) (b % 2 ^ suc k)
        ∙ ap₂ (λ (s t : ℕ). s * 2 + t) (ap₂ bit_xor (remainder_parts a k).0 (remainder_parts b k).0)
            (ap₂ differ (remainder_parts a k).1 (remainder_parts b k).1))

bit_and_comm_fuel : (n a b : ℕ) → a ≤ n → b ≤ n → bit_and a b ≡ bit_and b a
bit_and_comm_fuel zero zero zero p q = refl
bit_and_comm_fuel zero zero (suc b) p q = absurd (omega arith)
bit_and_comm_fuel zero (suc a) b p q = absurd (omega arith)
bit_and_comm_fuel (suc n) a b p q = omega (
  arith,
  bit_and_step a b,
  bit_and_step b a,
  bit_and_comm_fuel n (a / 2) (b / 2) (omega arith) (omega arith),
)

pub bit_and_comm : (a b : ℕ) → bit_and a b ≡ bit_and b a
bit_and_comm a b = bit_and_comm_fuel (a + b) a b (omega arith) (omega arith)

pub pow_add : (n e : ℕ) → 2 ^ (n + e) ≡ 2 ^ n * 2 ^ e
pow_add zero e = let plain : 0 + e ≡ e = omega arith in ap (λ (t : ℕ). 2 ^ t) plain ∙ omega arith
pow_add (suc n) e =
    let next : suc n + e ≡ suc (n + e) = omega arith in
    let p = 2 ^ n in
    let s = 2 ^ e in
    let twice : 2 * p * s ≡ 2 * (p * s) = grind arith in
    let double : 2 ^ suc n ≡ 2 * p = omega (arith, pow-suc 2 n) in
    ap (λ (t : ℕ). 2 ^ t) next
    ∙ omega (arith, pow-suc 2 (n + e), pow_add n e, twice, ap (λ (t : ℕ). t * s) double)

-- The low part of a number that is shifted up.
pub mul-mod_shift : (c p s : ℕ) → 0 < p → 0 < s → c * s % (p * s) ≡ c % p * s
mul-mod_shift c p s h k =
    let q = c / p in
    let r = c % p in
    let parts : c ≡ q * p + r = omega (arith, div-add-mod' c p) in
    let whole : (q * p + r) * s ≡ q * (p * s) + r * s = grind arith in
    let small : r * s < p * s = less r p s (mod-lt c h) k in
    ap (λ (t : ℕ). t * s % (p * s)) parts
    ∙ ap (λ (t : ℕ). t % (p * s)) whole
    ∙ mul-add-mod_self_right q (p * s) (r * s)
    ∙ mod-eq_of_lt small
  where
    less : (r p s : ℕ) → r < p → 0 < s → r * s < p * s
    less r p s h k = let step : r * s + s ≤ p * s = grind arith in omega arith
