-- ===== src/Creator/BlockSize/Least.antt =====
-- The size that `ComputeBlockSize` finds is the least.
use native.Mathlib.Nat.{div-mul-le_self, le-div_iff_mul-le, le_of_mul-le-mul_right}
use par2cmdline_turbo.Prelude.{
  ℕ, zero, suc, ◌+◌, ◌-◌, ◌*◌, ◌/◌, ◌%◌, ◌^◌, ◌≤◌, ◌<◌, ◌≡◌, refl, ap, sym, subst, ◌∙◌, false, ◌==◌,
  Option, some, List, [], ◌∷◌, map, length, length-map, arith, dec_lt, le→ltb,
}
use par2cmdline_turbo.Creator.BlockSize.{
  units, total_units, search_size, size_between, checked_size, compute_block_size,
}
use par2cmdline_turbo.Creator.BlockSize.Search.{
  blocks_of_size, sum_of, round_up, round_up-le, IsLeast, Found, search_size_lem,
}

total_units_lem :
    (total : ℕ) (files : List ℕ)
    → total + sum_of (map units files) < 2 ^ 62
    → total_units total files ≡ total + sum_of (map units files)
unfolding total_units
total_units_lem total [] h = omega arith
total_units_lem total (f ∷ files) h =
    let next : (total + units f) % 2 ^ 64 ≡ total + units f = omega arith in
    ap (λ (n : ℕ). total_units n files) next
    ∙ total_units_lem (total + units f) files (omega arith)
    ∙ omega arith

-- How much all blocks hold.
blocks_bounds :
    (s : ℕ) (us : List ℕ)
    → 0 < s
    → (sum_of us ≤ blocks_of_size s us * s) × (blocks_of_size s us * s ≤ sum_of us + length us * s)
blocks_bounds s [] h = (omega arith, omega arith)
blocks_bounds s (u ∷ us) h =
    let r = round_up u s h in
    let rest = blocks_bounds s us h in
    let c = (u + s - 1) / s in
    let split : (c + blocks_of_size s us) * s ≡ c * s + blocks_of_size s us * s = grind arith in
    let more : suc (length us) * s ≡ s + length us * s = grind arith in
    (omega (arith, r, rest, split), omega (arith, r, rest, split, more))

distribute : (d n u : ℕ) → u * d + n * u ≡ (d + n) * u
distribute d n u = grind arith

strict : (b s l : ℕ) → 0 < b → s < l → b * s < l * b
strict b s l h k = let step : b * s + b ≤ l * b = grind arith in omega arith

-- The bounds between which the size is searched for.
module _ (sum number blockcount : ℕ) (more : number < blockcount) (enough : blockcount ≤ sum) where
  abbrev lower : ℕ
  lower = sum / blockcount

  abbrev upper : ℕ
  upper = (sum + (blockcount - number) - 1) / (blockcount - number)

  upper-enough : sum ≤ upper * (blockcount - number)
  upper-enough = (round_up sum (blockcount - number) (omega arith)).0

  upper-le : upper ≤ sum
  upper-le = round_up-le sum (blockcount - number) (omega arith)

  lower-pos : 0 < lower
  lower-pos = (le-div_iff_mul-le (omega arith)).1 (omega arith)

  lower-upper : lower ≤ upper
  lower-upper =
      let small = div-mul-le_self sum blockcount in
      let wide : upper * (blockcount - number) ≤ upper * blockcount = grind arith in
      let product : lower * blockcount ≤ upper * blockcount =
        omega (arith, small, wide, upper-enough) in
      le_of_mul-le-mul_right product (omega arith)

  upper-fits :
      (us : List ℕ) → sum_of us ≡ sum → length us ≡ number → blocks_of_size upper us ≤ blockcount
  upper-fits us e l =
      let positive : 0 < upper = omega (arith, lower-pos, lower-upper) in
      let b = blocks_bounds upper us positive in
      let same : length us * upper ≡ number * upper = ap (λ (n : ℕ). n * upper) l in
      let parts : upper * (blockcount - number) + number * upper ≡ blockcount * upper =
        distribute (blockcount - number) number upper ∙ ap (λ (n : ℕ). n * upper) (omega arith) in
      le_of_mul-le-mul_right (omega (arith, b, same, parts, upper-enough, e)) positive

  lower-least :
      (us : List ℕ) (s : ℕ) → sum_of us ≡ sum → 0 < s → s < lower → blockcount < blocks_of_size s us
  lower-least us s e h k =
      let small = div-mul-le_self sum blockcount in
      let b = blocks_bounds s us h in
      elim (dec_lt blockcount (blocks_of_size s us)) [
        | yes q ↦ q
        | no q ↦
            let first : blocks_of_size s us * s ≤ blockcount * s = grind arith in
            let second : blockcount * s < lower * blockcount =
              strict blockcount s lower (omega arith) k in
            absurd (omega (arith, first, second, small, b, e))
      ]

-- The result, with a size of which there is none smaller that gives so few blocks.
pub record IsBest (blockcount : ℕ) (files : List ℕ) (result : Option ℕ) : Type 0 where
  pub size : ℕ
  pub chosen : result ≡ some (size * 4)
  pub is_least : IsLeast blockcount size (map units files)

-- A count that is small enough and not 0 passes the last tests.
checked_size_lem :
    (size count : ℕ)
    → 0 < count
    → count ≤ 32768
    → size < 2 ^ 61
    → checked_size (some (size, count)) ≡ some (size * 4)
checked_size_lem size count h k l =
    let exact : size * 4 % 2 ^ 64 ≡ size * 4 = omega arith in
    let some_blocks : (count == 0) ≡ false = ground arith in
    rw (le→ltb 32768 count k, some_blocks, exact)

-- The bounds do not wrap around, and the fuel suffices.
size_between_lem :
    (blockcount : ℕ) (files : List ℕ)
    → length files < blockcount
    → blockcount ≤ sum_of (map units files)
    → blockcount ≤ 32768
    → sum_of (map units files) < 2 ^ 60
    → Found blockcount (map units files) (size_between (sum_of (map units files)) blockcount files)
unfolding size_between
size_between_lem blockcount files more enough limit small =
    let us = map units files in
    let sum = sum_of us in
    let number = length files in
    let up = upper sum number blockcount more enough in
    let low = lower sum number blockcount more enough in
    let exact : ((sum + blockcount + 2 ^ 64 - number) % 2 ^ 64 + 2 ^ 64 - 1) % 2 ^ 64
        ≡ sum + (blockcount - number) - 1 =
      omega arith in
    let bound : up
        ≡ ((sum + blockcount + 2 ^ 64 - number) % 2 ^ 64 + 2 ^ 64 - 1)
          % 2 ^ 64
          / (blockcount - number) =
      ap (λ (n : ℕ). n / (blockcount - number)) (sym exact) in
    subst (λ n. Found blockcount us (search_size (suc n) blockcount files low n)) bound
      (search_size_lem (suc up) blockcount files low up (omega arith)
        (lower-upper sum number blockcount more enough)
        (lower-pos sum number blockcount more enough)
        (omega (arith, upper-le sum number blockcount more enough)) (omega arith)
        (upper-fits sum number blockcount more enough us refl (length-map files units))
        (λ s h k. lower-least sum number blockcount more enough us s refl h k))

factor_pos : (x b s : ℕ) → 0 < x → x ≤ b * s → 0 < b
factor_pos x zero s h k = absurd (grind arith)
factor_pos x (suc b) s h k = omega arith

-- One block per file and no more suffices when a block holds all.
least-le :
    (blockcount size : ℕ) (us : List ℕ)
    → length us < blockcount
    → 0 < sum_of us
    → IsLeast blockcount size us
    → size ≤ sum_of us
least-le blockcount size us more positive h =
    let sum = sum_of us in
    let b = blocks_of_size sum us in
    elim (dec_lt sum size) [
      | no k ↦ omega arith
      | yes k ↦
          let many : blockcount < b = h.least sum positive k in
          let bounds = blocks_bounds sum us positive in
          let step : (1 + length us) * sum ≡ sum + length us * sum = grind arith in
          let product : b * sum ≤ (1 + length us) * sum = omega (arith, bounds, step) in
          let few : b ≤ 1 + length us = le_of_mul-le-mul_right product positive in
          absurd (omega (arith, many, few))
    ]

-- When no block size is given, the block count is at most 32768 and above the number of files, and
-- the files have at least as many units of 4 bytes as blocks are asked for, but not 2^60: the search
-- ends, and the block size is 4 times the least number of units with which the files have at most
-- that many blocks.
pub compute_block_size-IsBest :
    (blockcount : ℕ) (files : List ℕ)
    → length files < blockcount
    → blockcount ≤ 32768
    → blockcount ≤ sum_of (map units files)
    → sum_of (map units files) < 2 ^ 60
    → IsBest blockcount files (compute_block_size 0 blockcount files)
unfolding compute_block_size
compute_block_size-IsBest blockcount files more limit enough small =
    let us = map units files in
    let sum = sum_of us in
    let total : total_units 0 files ≡ sum = total_units_lem 0 files (omega arith) ∙ omega arith in
    let differs : (blockcount == length files) ≡ false = ground arith in
    let f = size_between_lem blockcount files more enough limit small in
    let least = f.is_least in
    let blocks = blocks_bounds f.size us least.positive in
    let positive : 0 < blocks_of_size f.size us =
      factor_pos sum (blocks_of_size f.size us) f.size (omega arith) blocks.0 in
    rw
      (
        le→ltb blockcount (length files) (omega arith),
        differs,
        total,
        le→ltb sum blockcount enough,
        f.found,
      )
      (record {
        size = f.size;
        chosen =
            checked_size_lem f.size (blocks_of_size f.size us) positive (omega (arith, least.fits))
              (omega (
                arith,
                least-le blockcount f.size us (omega (arith, length-map files units)) (omega arith)
                    least,
              ));
        is_least = least;
      })
