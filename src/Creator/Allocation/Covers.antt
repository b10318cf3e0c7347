-- ===== src/Creator/Allocation/Covers.antt =====
-- Each scheme, from the loops up.
use native.Mathlib.Nat.{pow-suc, one-le-pow}
use par2cmdline_turbo.Prelude.{
  ℕ, zero, suc, ◌+◌, ◌-◌, ◌*◌, ◌%◌, ◌^◌, ◌≤◌, ◌<◌, min, ◌≡◌, refl, ap, List, [], ◌∷◌, arith, dec_lt,
  subst, lt→ltb, le→ltb,
}
use par2cmdline_turbo.Creator.Allocation.{
  FileAllocation, Filled, fill, uniform_files, doubling_files,
}

-- The files hold the blocks from exponent `first` up to `limit`, each block once and in order.
abbrev pub Covers : ℕ → ℕ → List FileAllocation → Type 0
Covers first limit [] = first ≡ limit
Covers first limit (a ∷ files) = (a.exponent ≡ first) × Covers (first + a.count) limit files

abbrev pub AllFilled : List FileAllocation → Type 0
AllFilled [] = Unit
AllFilled (a ∷ files) = (0 < a.count) × AllFilled files

-- A loop that has filled the blocks from `first` up to `limit`.
abbrev pub IsFilled : ℕ → ℕ → Filled → Type 0
IsFilled first limit r = Covers first limit r.files × (r.exponent ≡ limit)

fill-IsFilled :
    (exponent count next limit : ℕ) (r : Filled)
    → next ≡ exponent + count
    → IsFilled next limit r
    → IsFilled exponent limit (fill exponent count r)
fill-IsFilled exponent count next limit r e h =
    ((refl, subst (λ n. Covers n limit r.files) e h.0), h.1)

-- The blocks of `left` files from `filenumber` on.
abbrev pub share : ℕ → ℕ → ℕ → ℕ → ℕ
share left filenumber base remainder =
    left * base + (min remainder (filenumber + left) - min remainder filenumber)

pub uniform_files-IsFilled :
    (left filenumber exponent base remainder limit : ℕ)
    → exponent + share left filenumber base remainder ≡ limit
    → limit < 2 ^ 32
    → IsFilled exponent limit (uniform_files left filenumber exponent base remainder)
unfolding uniform_files
uniform_files-IsFilled zero filenumber exponent base remainder limit e h =
    (omega arith, omega arith)
uniform_files-IsFilled (suc left) filenumber exponent base remainder limit e h =
    elim (dec_lt filenumber remainder) [
      | yes p ↦ rw (lt→ltb filenumber remainder p) (
          fill-IsFilled exponent (base + 1) ((exponent + (base + 1)) % 2 ^ 32) limit _ (omega arith)
            (uniform_files-IsFilled left (filenumber + 1) ((exponent + (base + 1)) % 2 ^ 32) base
              remainder limit (omega arith) h))
      | no p ↦ rw (le→ltb filenumber remainder (omega arith)) (
          fill-IsFilled exponent base ((exponent + base) % 2 ^ 32) limit _ (omega arith) (
            uniform_files-IsFilled left (filenumber + 1) ((exponent + base) % 2 ^ 32) base remainder
              limit (omega arith) h))
    ]

le-mul : (x m : ℕ) → 1 ≤ m → x ≤ x * m
le-mul x m h = grind arith

-- The conditions of the doubling loop pass to its next round, also where the count wraps to 0
-- behind the last one.
doubled :
    (left blocks count : ℕ)
    → count * 2 ^ suc left ≤ 2 ^ 32
    → blocks + count ≤ count * 2 ^ suc left
    → (count * 2 % 2 ^ 32 * 2 ^ left ≤ 2 ^ 32)
      × (blocks - min count blocks + count * 2 % 2 ^ 32 ≤ count * 2 % 2 ^ 32 * 2 ^ left)
doubled left blocks count fits enough =
    let m = 2 ^ left in
    let pos : 1 ≤ m = one-le-pow left 2 (omega arith) in
    let whole : count * 2 ^ suc left ≡ count * 2 * m =
      omega (arith, ap (λ (t : ℕ). count * t) (pow-suc 2 left)) in
    let less : count * 2 ≤ count * 2 * m = le-mul (count * 2) m pos in
    elim (dec_lt (count * 2) (2 ^ 32)) [
      | yes p ↦
          let e : count * 2 % 2 ^ 32 ≡ count * 2 = omega arith in rw e (omega arith, omega arith)
      | no p ↦ let e : count * 2 % 2 ^ 32 ≡ 0 = omega arith in rw e (omega arith, omega arith)
    ]

-- The doubling loop fills all blocks, if the files together can take them.
pub doubling_files-IsFilled :
    (left blocks count exponent limit : ℕ)
    → exponent + blocks ≡ limit
    → limit < 2 ^ 32
    → count * 2 ^ left ≤ 2 ^ 32
    → blocks + count ≤ count * 2 ^ left
    → IsFilled exponent limit (doubling_files left blocks count exponent)
unfolding doubling_files
doubling_files-IsFilled zero blocks count exponent limit e h fits enough =
    (omega arith, omega arith)
doubling_files-IsFilled (suc left) blocks count exponent limit e h fits enough =
    let number = min count blocks in
    let (a, b) = doubled left blocks count fits enough in
    fill-IsFilled exponent number ((exponent + number) % 2 ^ 32) limit _ (omega arith) (
      doubling_files-IsFilled left (blocks - number) (count * 2 % 2 ^ 32)
        ((exponent + number) % 2 ^ 32) limit (omega arith) h a b)

-- No file of the doubling loop is left empty, if there are more blocks than all the files but
-- the last can take.
pub doubling_files-AllFilled :
    (left blocks count exponent : ℕ)
    → 0 < count
    → count * 2 ^ suc left ≤ 2 ^ 32
    → count * 2 ^ left < blocks + count
    → AllFilled (doubling_files (suc left) blocks count exponent).files
unfolding doubling_files
doubling_files-AllFilled zero blocks count exponent pos fits many = (omega arith, tt)
doubling_files-AllFilled (suc left) blocks count exponent pos fits many =
    let m = 2 ^ left in
    let one : 1 ≤ m = one-le-pow left 2 (omega arith) in
    let whole : count * 2 ^ suc left ≡ count * 2 * m =
      omega (arith, ap (λ (t : ℕ). count * t) (pow-suc 2 left)) in
    let wider : count * 2 ^ suc (suc left) ≡ count * 2 * 2 ^ suc left =
      omega (arith, ap (λ (t : ℕ). count * t) (pow-suc 2 (suc left))) in
    let less : count * 2 ≤ count * 2 * m = le-mul (count * 2) m one in
    let e : count * 2 % 2 ^ 32 ≡ count * 2 =
      omega (arith, ap (λ (t : ℕ). count * 2 * t) (pow-suc 2 left)) in
    (
      omega arith,
      doubling_files-AllFilled left (blocks - min count blocks) (count * 2 % 2 ^ 32)
          ((exponent + min count blocks) % 2 ^ 32) (omega arith) (rw e (omega arith))
          (rw e (omega arith)),
    )
