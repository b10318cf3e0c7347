-- ===== src/Creator/Allocation/Planned.antt =====
-- The schemes with the number of files that `ComputeRecoveryFileCount` has found.
use native.Mathlib.Nat.{pow-suc, one-le-pow}
use par2cmdline_turbo.Prelude.{
  ℕ, zero, suc, ◌+◌, ◌-◌, ◌*◌, ◌/◌, ◌%◌, ◌^◌, ◌≤◌, ◌<◌, ◌≡◌, ◌⊎◌, inl, inr, refl, sym, List, [],
  ◌∷◌, ◌++◌, ltb, leb, if◌then◌else◌, arith, dec_lt, subst, le→ltb, lt→leb, le→leb,
}
use par2cmdline_turbo.Creator.FileCount.{HasBits}
use par2cmdline_turbo.Creator.Allocation.{
  FileAllocation, Filled, uniform_files, low_block_count, doubling_files, Top, top_files,
  limited_files, variable_files,
}
use par2cmdline_turbo.Creator.Allocation.Covers.{
  Covers, AllFilled, uniform_files-IsFilled, doubling_files-IsFilled, doubling_files-AllFilled,
}

Covers-append :
    (first middle limit : ℕ) (low high : List FileAllocation)
    → Covers first middle low
    → Covers middle limit high
    → Covers first limit (low ++ high)
Covers-append first middle limit [] high h k = subst (λ n. Covers n limit high) (sym h) k
Covers-append first middle limit (a ∷ low) high h k =
    (h.0, Covers-append (first + a.count) middle limit low high h.1 k)

AllFilled-append :
    (low high : List FileAllocation) → AllFilled low → AllFilled high → AllFilled (low ++ high)
AllFilled-append [] high h k = k
AllFilled-append (a ∷ low) high h k = (h.0, AllFilled-append low high h.1 k)

-- The first loop of `scLimited` fills `whole` files of `largest` blocks from the top down, and
-- leaves `files` files for the `extra` blocks below.
record IsTop (first files extra limit : ℕ) (r : Top) : Type 0 where
  left : r.filenumber ≡ files
  rest : r.blocks ≡ extra
  covers : Covers (first + extra) limit r.files
  filled : AllFilled r.files

top_files-IsTop :
    (whole filenumber blocks largest first files extra limit exponent : ℕ)
    (above : List FileAllocation)
    → filenumber ≡ whole + files
    → 0 < files
    → blocks ≡ whole * largest + extra
    → 0 < largest
    → 2 * largest < 2 ^ 32
    → extra < 2 * largest
    → (whole ≡ 0) ⊎ (largest ≤ extra)
    → exponent ≡ first + blocks
    → first + blocks < 2 ^ 32
    → Covers exponent limit above
    → AllFilled above
    → IsTop first files extra limit (top_files filenumber blocks largest exponent above)
unfolding top_files
top_files-IsTop whole zero blocks largest first files extra limit exponent above n pos b l w x y e f
      c a =
    absurd (omega arith)
top_files-IsTop zero (suc filenumber) blocks largest first files extra limit exponent above n pos b
      l w x y e f c a =
    let stop : blocks < 2 * largest % 2 ^ 32 = omega arith in
    rw (lt→leb (2 * largest % 2 ^ 32) blocks stop) (record {
      left = omega arith;
      rest = omega arith;
      covers = subst (λ k. Covers k limit above) (omega arith) c;
      filled = a;
    })
top_files-IsTop (suc whole) (suc filenumber) blocks largest first files extra limit exponent above n
      pos b l w x y e f c a =
    let below = (exponent + 2 ^ 32 - largest) % 2 ^ 32 in
    let bound : largest ≤ extra = omega arith in
    let back : below + largest ≡ exponent = omega arith in
    let more : 2 * largest % 2 ^ 32 ≤ blocks = omega arith in
    rw (le→leb (2 * largest % 2 ^ 32) blocks more) (
      top_files-IsTop whole filenumber (blocks - largest) largest first files extra limit below
        (record { exponent = below; count = largest } ∷ above) (omega arith) pos (omega arith) l w x
        (inr bound) (omega arith) (omega arith)
        (refl, subst (λ k. Covers k limit above) (sym back) c) (l, a))

-- The files of `scLimited`: how many full ones, and the blocks below them.
pub record Split (n largest whole extra : ℕ) : Type 0 where
  pub total : n ≡ whole * largest + extra
  pub small : extra < 2 * largest
  pub above : (whole ≡ 0) ⊎ (largest ≤ extra)
  pub pos : 0 < extra

pub split :
    (n largest : ℕ)
    → 0 < n
    → 0 < largest
    → let whole = if leb 1 (n / largest) then n / largest - 1 else 0 in
      Split n largest whole (n - whole * largest)
split n largest p l =
    let q = n / largest in
    let r : n % largest < largest = native.Mathlib.Nat.mod-lt n l in
    let e : q * largest + n % largest ≡ n = native.Mathlib.Nat.div-add-mod' n largest in
    elim (dec_lt 0 q) [
      | yes h ↦
          let f : q * largest ≡ (q - 1) * largest + largest = grind arith in
          rw (le→leb 1 q h) (record {
            total = omega arith;
            small = omega arith;
            above = inr (omega arith);
            pos = omega arith;
          })
      | no h ↦
          let z : q ≡ 0 = omega arith in
          let f : q * largest ≡ 0 = rw z (omega arith) in
          rw (lt→leb 1 q (omega arith)) (record {
            total = omega arith;
            small = omega arith;
            above = inl refl;
            pos = omega arith;
          })
    ]

-- What a scheme has to achieve: the files but the last have the blocks in order, each at least
-- one.
pub record IsPlan (first limit : ℕ) (r : Filled) : Type 0 where
  pub covers : Covers first limit r.files
  pub filled : AllFilled r.files

pub limited_files-IsPlan :
    (first n files largest whole extra bits : ℕ)
    → Split n largest whole extra
    → files ≡ whole + bits
    → 0 < bits
    → HasBits extra bits
    → 0 < largest
    → 2 * largest < 2 ^ 31
    → first + n < 2 ^ 32
    → IsPlan first (first + n) (limited_files first n files largest)
unfolding limited_files
limited_files-IsPlan first n files largest whole extra zero sp e pos has l w f =
    absurd (omega arith)
limited_files-IsPlan first n files largest whole extra (suc k) sp e pos has l w f =
    let exponent = (first + n) % 2 ^ 32 in
    let top =
      top_files-IsTop whole files n largest first (suc k) extra (first + n) exponent [] e pos
        sp.total l (omega arith) sp.small sp.above (omega arith) f (omega arith) tt in
    let next = pow-suc 2 k in
    let fits : 1 * 2 ^ suc k ≤ 2 ^ 32 = omega (arith, has, sp.small) in
    let below =
      doubling_files-IsFilled (suc k) extra 1 first (first + extra) refl (omega (arith, sp.total))
        fits (omega (arith, has)) in
    rw (top.left, top.rest)
      (record {
        covers =
            Covers-append first (first + extra) (first + n)
              (doubling_files (suc k) extra 1 first).files _ below.0 top.covers;
        filled =
            AllFilled-append (doubling_files (suc k) extra 1 first).files _
              (doubling_files-AllFilled k extra 1 first (omega arith) fits
                (omega (arith, has, next)))
              top.filled;
      })

uniform_files-AllFilled :
    (left filenumber exponent base remainder : ℕ)
    → 0 < base
    → AllFilled (uniform_files left filenumber exponent base remainder).files
unfolding uniform_files
uniform_files-AllFilled zero filenumber exponent base remainder p = tt
uniform_files-AllFilled (suc left) filenumber exponent base remainder p =
    let count = if ltb filenumber remainder then base + 1 else base in
    (
      ground arith,
      uniform_files-AllFilled left (filenumber + 1) ((exponent + count) % 2 ^ 32) base remainder p,
    )

pub uniform_files-IsPlan :
    (first n files : ℕ)
    → 0 < files
    → files ≤ n
    → first + n < 2 ^ 32
    → IsPlan first (first + n) (uniform_files files 0 first (n / files) (n % files))
uniform_files-IsPlan first n files p le f =
    let total : n / files * files + n % files ≡ n = native.Mathlib.Nat.div-add-mod' n files in
    let less : n % files < files = native.Mathlib.Nat.mod-lt n p in
    let swap : n / files * files ≡ files * (n / files) = grind arith in
    let base : 0 < n / files = quotient-pos (n / files) files (n % files) n total less le in
    record {
      covers =
          (uniform_files-IsFilled files 0 first (n / files) (n % files) (first + n) (omega arith)
            f).0;
      filled = uniform_files-AllFilled files 0 first (n / files) (n % files) base;
    }
  where
    quotient-pos : (q b r a : ℕ) → q * b + r ≡ a → r < b → b ≤ a → 0 < q
    quotient-pos zero b r a e l h = omega arith
    quotient-pos (suc q) b r a e l h = omega arith

low_block_count-enough :
    (fuel m blocks : ℕ) → blocks ≤ m → low_block_count (suc fuel) m blocks 1 ≡ 1
unfolding low_block_count
low_block_count-enough fuel m blocks h = rw (le→ltb m blocks h) refl

-- When the files of doubling sizes from 1 on can take all blocks, the loop keeps 1.
pub variable_files-IsPlan :
    (first n bits : ℕ)
    → 0 < bits
    → HasBits n bits
    → n < 2 ^ 31
    → first + n < 2 ^ 32
    → IsPlan first (first + n) (variable_files first n bits)
unfolding variable_files
variable_files-IsPlan first n zero p has l f = absurd (omega arith)
variable_files-IsPlan first n (suc k) p has l f =
    let next = pow-suc 2 k in
    let low =
      low_block_count-enough 31 ((2 ^ suc k + 2 ^ 32 - 1) % 2 ^ 32) n (omega (arith, has, next)) in
    let fits : 1 * 2 ^ suc k ≤ 2 ^ 32 = omega (arith, has) in
    rw low (record {
      covers =
          (doubling_files-IsFilled (suc k) n 1 first (first + n) refl f fits
            (omega (arith, has))).0;
      filled = doubling_files-AllFilled k n 1 first (omega arith) fits (omega (arith, has, next));
    })
