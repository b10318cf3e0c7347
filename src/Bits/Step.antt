-- ===== src/Bits/Step.antt =====
-- The library states the bitwise operations by a recursion on digits with fuel. Here the fuel
-- goes, and one equation for the lowest bit is left of each.
use Prim.Native.Nat.{digits, bit_and-bitwise, bit_or-bitwise, bit_xor-bitwise, differ}
use par2cmdline_turbo.Prelude.{
  ℕ, zero, suc, ◌+◌, ◌*◌, ◌/◌, ◌%◌, ◌≤◌, min, max, bit_and, bit_or, bit_xor, ◌≡◌, refl, ap, ◌∙◌,
  sym, arith,
}

module _ (rest : ℕ → ℕ) (bit : ℕ → ℕ → ℕ) where
  ran_out : (n b : ℕ) → digits rest bit n 0 b ≡ rest b
  ran_out zero b = refl
  ran_out (suc n) b = refl

  -- Any fuel that covers the first operand gives the same digits.
  any_fuel : (n k a b : ℕ) → a ≤ n → a ≤ k → digits rest bit n a b ≡ digits rest bit k a b
  any_fuel n k zero b p q = ran_out n b ∙ sym (ran_out k b)
  any_fuel zero k (suc a) b p q = absurd (omega arith)
  any_fuel (suc n) zero (suc a) b p q = absurd (omega arith)
  any_fuel (suc n) (suc k) (suc a) b p q =
      ap (λ (t : ℕ). t * 2 + bit (suc a % 2) (b % 2))
        (any_fuel n k (suc a / 2) (b / 2) (omega arith) (omega arith))

  lowest_bit :
      (a b : ℕ)
      → digits rest bit (suc a) (suc a) b
        ≡ digits rest bit (suc a / 2) (suc a / 2) (b / 2) * 2 + bit (suc a % 2) (b % 2)
  lowest_bit a b =
      ap (λ (t : ℕ). t * 2 + bit (suc a % 2) (b % 2))
        (any_fuel a (suc a / 2) (suc a / 2) (b / 2) (omega arith) (omega arith))

-- The lowest bit of each operation, and the bits above it.
pub bit_xor_step :
    (left right : ℕ)
    → bit_xor left right ≡ bit_xor (left / 2) (right / 2) * 2 + differ (left % 2) (right % 2)
bit_xor_step zero right = simp bit_xor-bitwise (omega arith)
bit_xor_step (suc left) right = omega (
  arith,
  bit_xor-bitwise (suc left) right,
  lowest_bit (λ rest. rest) differ left right,
  bit_xor-bitwise (suc left / 2) (right / 2),
)

pub bit_or_step :
    (left right : ℕ)
    → bit_or left right ≡ max (left % 2) (right % 2) + bit_or (left / 2) (right / 2) * 2
bit_or_step zero right = simp bit_or-bitwise (omega arith)
bit_or_step (suc left) right = omega (
  arith,
  bit_or-bitwise (suc left) right,
  lowest_bit (λ rest. rest) max left right,
  bit_or-bitwise (suc left / 2) (right / 2),
)

pub bit_and_step :
    (left right : ℕ)
    → bit_and left right ≡ min (left % 2) (right % 2) + bit_and (left / 2) (right / 2) * 2
bit_and_step zero right = simp bit_and-bitwise (omega arith)
bit_and_step (suc left) right = omega (
  arith,
  bit_and-bitwise (suc left) right,
  lowest_bit (λ rest. 0) min left right,
  bit_and-bitwise (suc left / 2) (right / 2),
)
