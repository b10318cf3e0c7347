-- ===== src/Crc/Linear.antt =====
-- One round of the CRC, and several, of a sum by `^`.
use Prim.Native.Nat.{differ}
use native.Mathlib.Nat.{pow-suc}
use par2cmdline_turbo.Prelude.{
  ℕ, zero, suc, ◌*◌, ◌/◌, ◌%◌, ◌^◌, ◌<◌, bit_and, bit_xor, ◌≡◌, refl, ap, sym, ◌∙◌, ◌==◌,
  if◌then◌else◌, arith,
}
use mathlib.Core.Path.{ap₂}
use par2cmdline_turbo.Bits.{bit_and_mask}
use par2cmdline_turbo.Bits.Xor.{xor_comm, xor_assoc, xor_self, xor-zero, xor-lt, xor_parts}
use par2cmdline_turbo.Crc.{crc_step, crc_steps}

-- The terms of a sum of four, with the inner two exchanged.
pub exchange :
    (a b c d : ℕ) → bit_xor (bit_xor a b) (bit_xor c d) ≡ bit_xor (bit_xor a c) (bit_xor b d)
exchange a b c d =
    xor_assoc a b (bit_xor c d)
    ∙ ap (bit_xor a)
        (sym (xor_assoc b c d) ∙ ap (λ (t : ℕ). bit_xor t d) (xor_comm b c) ∙ xor_assoc c b d)
    ∙ sym (xor_assoc a c (bit_xor b d))

-- What a round adds for the bit that is shifted out.
abbrev pub feedback : ℕ → ℕ → ℕ
feedback polynomial bit = if bit == 0 then 0 else polynomial

pub crc_step_lem :
    (polynomial crc : ℕ)
    → crc_step polynomial crc ≡ bit_xor (crc / 2) (feedback polynomial (crc % 2))
unfolding crc_step
crc_step_lem polynomial crc =
    ap (λ (t : ℕ). bit_xor (crc / 2) (feedback polynomial t)) (bit_and_mask 1 crc)

pub feedback-differ :
    (polynomial a b : ℕ)
    → a < 2
    → b < 2
    → feedback polynomial (differ a b) ≡ bit_xor (feedback polynomial a) (feedback polynomial b)
feedback-differ polynomial zero zero p q = refl
feedback-differ polynomial zero (suc zero) p q = sym (xor_comm 0 polynomial ∙ xor-zero polynomial)
feedback-differ polynomial zero (suc (suc b)) p q = absurd (omega arith)
feedback-differ polynomial (suc zero) zero p q = sym (xor-zero polynomial)
feedback-differ polynomial (suc zero) (suc zero) p q = sym (xor_self polynomial)
feedback-differ polynomial (suc zero) (suc (suc b)) p q = absurd (omega arith)
feedback-differ polynomial (suc (suc a)) b p q = absurd (omega arith)

pub crc_step-xor :
    (polynomial a b : ℕ)
    → crc_step polynomial (bit_xor a b) ≡ bit_xor (crc_step polynomial a) (crc_step polynomial b)
crc_step-xor polynomial a b =
    let (high, low) = xor_parts a b in
    crc_step_lem polynomial (bit_xor a b)
    ∙ ap₂ (λ (t u : ℕ). bit_xor t (feedback polynomial u)) high low
    ∙ ap (bit_xor (bit_xor (a / 2) (b / 2)))
        (feedback-differ polynomial (a % 2) (b % 2) (omega arith) (omega arith))
    ∙ exchange (a / 2) (b / 2) (feedback polynomial (a % 2)) (feedback polynomial (b % 2))
    ∙ sym (ap₂ bit_xor (crc_step_lem polynomial a) (crc_step_lem polynomial b))

pub crc_steps-xor :
    (polynomial rounds a b : ℕ)
    → crc_steps polynomial rounds (bit_xor a b)
      ≡ bit_xor (crc_steps polynomial rounds a) (crc_steps polynomial rounds b)
unfolding crc_steps
crc_steps-xor polynomial zero a b = refl
crc_steps-xor polynomial (suc rounds) a b =
    ap (crc_steps polynomial rounds) (crc_step-xor polynomial a b)
    ∙ crc_steps-xor polynomial rounds (crc_step polynomial a) (crc_step polynomial b)

-- Zeros are shifted out.
pub crc_steps-shift : (polynomial rounds q : ℕ) → crc_steps polynomial rounds (q * 2 ^ rounds) ≡ q
unfolding crc_steps
crc_steps-shift polynomial zero q = omega arith
crc_steps-shift polynomial (suc rounds) q =
    let double : q * 2 ^ suc rounds ≡ 2 * (q * 2 ^ rounds) =
      omega (arith, ap (λ (t : ℕ). q * t) (pow-suc 2 rounds)) in
    let half : q * 2 ^ suc rounds / 2 ≡ q * 2 ^ rounds = omega arith in
    let even : q * 2 ^ suc rounds % 2 ≡ 0 = omega arith in
    ap (crc_steps polynomial rounds) (
      crc_step_lem polynomial (q * 2 ^ suc rounds)
      ∙ ap₂ (λ (t u : ℕ). bit_xor t (feedback polynomial u)) half even
      ∙ xor-zero (q * 2 ^ rounds))
    ∙ crc_steps-shift polynomial rounds q

pub crc_steps-lt :
    (polynomial rounds crc : ℕ)
    → polynomial < 2 ^ 32
    → crc < 2 ^ 32
    → crc_steps polynomial rounds crc < 2 ^ 32
unfolding crc_steps crc_step
crc_steps-lt polynomial zero crc p h = h
crc_steps-lt polynomial (suc rounds) crc p h =
    crc_steps-lt polynomial rounds (crc_step polynomial crc) p (
      xor-lt 32 (crc / 2) (if bit_and crc 1 == 0 then 0 else polynomial) (omega arith)
        (ground arith))
