-- ===== src/Crc/Powers/Squares.antt =====
-- The table `power` of src/crc.cpp: each entry is the square of the one before.
use native.Mathlib.Nat.{pow-suc}
use par2cmdline_turbo.Prelude.{
  ℕ, zero, suc, ◌+◌, ◌^◌, ◌<◌, ◌≡◌, refl, ap, sym, ◌∙◌, Bool, true, ◌==◌, arith, get_or, all_below,
  all_below_lem,
}
use par2cmdline_turbo.Crc.{ccitt, crc_step, crc_steps}
use par2cmdline_turbo.Crc.Powers.{gf32_multiply, ccitt_power, multiply_rounds, fill_power}
use par2cmdline_turbo.Crc.Powers.Product.{crc_steps-add}
use par2cmdline_turbo.Crc.Powers.Exponents.{one, ccitt_steps-lt, gf32_multiply-power}

-- Squares of squares.
unfoldable pub chain : ℕ → ℕ
chain zero = 0x40000000
chain (suc j) = gf32_multiply (chain j) (chain j) ccitt

pub chain_lem : (j : ℕ) → chain j ≡ crc_steps ccitt (2 ^ j) one
unfolding chain
chain_lem zero = unfold crc_steps crc_step in refl
chain_lem (suc j) =
    let p = 2 ^ j in
    let power = crc_steps ccitt p one in
    let double : p + p ≡ 2 ^ suc j = omega (arith, pow-suc 2 j) in
    ap (λ (t : ℕ). gf32_multiply t t ccitt) (chain_lem j)
    ∙ gf32_multiply-power p power (ccitt_steps-lt p one (omega arith))
    ∙ sym (crc_steps-add ccitt p p one)
    ∙ ap (λ (t : ℕ). crc_steps ccitt t one) double

power_test : ℕ → Bool
power_test p = get_or ccitt_power p 0 == chain (p + 3)

power_all : all_below 32 power_test ≡ true
unfolding power_test chain ccitt_power fill_power gf32_multiply multiply_rounds
power_all = refl

-- `power[p]` is the generator to the 2^(p+3).
pub get_or-ccitt_power :
    (p : ℕ) → p < 32 → get_or ccitt_power p 0 ≡ crc_steps ccitt (2 ^ (p + 3)) one
get_or-ccitt_power p h =
    let e = all_below_lem 32 power_test p power_all h in tested e ∙ chain_lem (p + 3)
  where
    tested : power_test p ≡ true → get_or ccitt_power p 0 ≡ chain (p + 3)
    tested e = unfold power_test in ground (arith, e)
