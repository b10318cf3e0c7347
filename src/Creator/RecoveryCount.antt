-- ===== src/Creator/RecoveryCount.antt =====
-- `ComputeRecoveryBlockCount` of src/commandline.cpp.
use native.Mathlib.Nat.{div-mul-le_self}
use par2cmdline_turbo.Prelude.{
  ℕ, ◌+◌, ◌-◌, ◌*◌, ◌/◌, ◌%◌, ◌^◌, ◌≤◌, ◌<◌, ◌≡◌, ◌⊎◌, inl, inr, refl, sym, ap, ◌∙◌, Bool, true,
  false, ◌&&◌, ◌==◌, Option, none, some, ltb, leb, if◌then◌else◌, arith, dec_lt, le→ltb, subst,
  passes,
}
use mathlib.Core.Option.{some-injective}
use par2cmdline_turbo.Creator.FileCount.{Scheme, compute_recovery_file_count}

-- How many recovery packets fit into a size.
unfoldable pub fitting_blocks : ℕ → ℕ → ℕ → ℕ
fitting_blocks redundancysize overhead recovery_packet_size =
    if ltb redundancysize overhead
    then 1
    else (redundancysize - overhead) / recovery_packet_size % 2 ^ 32

-- The number of recovery files, which is computed for an estimate where it is not given.
unfoldable pub planned_files : ℕ → ℕ → Scheme → ℕ → ℕ → ℕ → Option ℕ
unfolding fitting_blocks
planned_files sourceblockcount blocksize recoveryfilescheme recoveryfilecount redundancysize
      largestfilesize =
    if recoveryfilecount == 0
    then compute_recovery_file_count recoveryfilecount recoveryfilescheme
        (fitting_blocks redundancysize (15 * (sourceblockcount * 21) % 2 ^ 64)
          ((blocksize + 70) % 2 ^ 64))
        largestfilesize blocksize
    else some recoveryfilecount

-- The tests at the end of the function.
unfoldable pub valid_count : ℕ → ℕ → ℕ → Option ℕ
valid_count firstblock redundancy recoveryblockcount =
    let count = if (recoveryblockcount == 0) && ltb 0 redundancy then 1 else recoveryblockcount in
    if ltb 65536 count
    then none
    else if leb 65536 ((firstblock + count) % 2 ^ 32)
    then none
    else some count

-- The last branch, when the number of files is known.
unfoldable pub valid_size_count : ℕ → ℕ → ℕ → ℕ → Option ℕ → Option ℕ
unfolding valid_count fitting_blocks
valid_size_count sourceblockcount blocksize firstblock redundancysize none = none
valid_size_count sourceblockcount blocksize firstblock redundancysize (some recoveryfilecount) =
    valid_count firstblock 0 (
      fitting_blocks redundancysize (recoveryfilecount * (sourceblockcount * 21) % 2 ^ 64)
        ((blocksize + 70) % 2 ^ 64))

-- `ComputeRecoveryBlockCount`: `recoveryblockcount` is the value that the pointer has before the call,
-- and the result the one behind it; `none` is `return false`.
unfoldable pub compute_recovery_block_count :
    ℕ → ℕ → ℕ → ℕ → Scheme → ℕ → Bool → ℕ → ℕ → ℕ → Option ℕ
unfolding valid_size_count valid_count planned_files
compute_recovery_block_count recoveryblockcount sourceblockcount blocksize firstblock
      recoveryfilescheme recoveryfilecount recoveryblockcountset redundancy redundancysize
      largestfilesize =
    if recoveryblockcountset
    then valid_count firstblock redundancy recoveryblockcount
    else if ltb 0 redundancy
    then valid_count firstblock redundancy
        ((sourceblockcount * redundancy % 2 ^ 32 + 50) % 2 ^ 32 / 100)
    else if ltb 0 redundancysize
    then valid_size_count sourceblockcount blocksize firstblock redundancysize (
        planned_files sourceblockcount blocksize recoveryfilescheme recoveryfilecount redundancysize
          largestfilesize)
    else none

-- What the tests at the end assure.
pub record IsValid (firstblock redundancy n : ℕ) : Type 0 where
  pub bounded : n ≤ 65536
  pub exponents : firstblock < 2 ^ 31 → firstblock + n < 65536
  pub positive : 0 < redundancy → 0 < n

valid_count-IsValid :
    (firstblock redundancy count n : ℕ)
    → valid_count firstblock redundancy count ≡ some n
    → IsValid firstblock redundancy n
unfolding valid_count
valid_count-IsValid firstblock redundancy count n e =
    let forced = if (count == 0) && ltb 0 redundancy then 1 else count in
    let sum = (firstblock + forced) % 2 ^ 32 in
    let (small, rest) =
      passes (ltb 65536 forced) (if leb 65536 sum then none else some forced) n e in
    let (low, done) = passes (leb 65536 sum) (some forced) n rest in
    let same : forced ≡ n = some-injective _ _ done in
    record {
      bounded = ground (arith, small, same);
      exponents = λ h. ground (arith, small, low, same, h);
      positive = λ h. forced_positive count redundancy h n same;
    }
  where
    forced_positive :
        (count redundancy : ℕ)
        → 0 < redundancy
        → (n : ℕ) → (if (count == 0) && ltb 0 redundancy then 1 else count) ≡ n
        → 0 < n
    forced_positive count redundancy h n e = ground arith

-- One of two branches
either_branch :
    (b : Bool) (x y : Option ℕ) (n : ℕ)
    → (if b then x else y) ≡ some n
    → ((b ≡ true) × (x ≡ some n)) ⊎ ((b ≡ false) × (y ≡ some n))
either_branch true x y n e = inl (refl, e)
either_branch false x y n e = inr (refl, e)

valid_size_count-IsValid :
    (source size firstblock total n : ℕ) (files : Option ℕ)
    → valid_size_count source size firstblock total files ≡ some n
    → IsValid firstblock 0 n
unfolding valid_size_count
valid_size_count-IsValid source size firstblock total n none e = absurd (ground arith)
valid_size_count-IsValid source size firstblock total n (some files) e =
    valid_count-IsValid firstblock 0
      (fitting_blocks total (files * (source * 21) % 2 ^ 64) ((size + 70) % 2 ^ 64)) n e

-- Whenever `ComputeRecoveryBlockCount` succeeds, whatever it was asked for: there are at most 65536
-- recovery blocks, for a first block below 2^31 all their numbers are below 65536, and a redundancy
-- that is not 0 gives one block at least.
pub compute_recovery_block_count-IsValid :
    (recoveryblockcount sourceblockcount blocksize firstblock : ℕ) (scheme : Scheme)
    (recoveryfilecount : ℕ) (recoveryblockcountset : Bool)
    (redundancy redundancysize largestfilesize n : ℕ)
    → compute_recovery_block_count recoveryblockcount sourceblockcount blocksize firstblock scheme
        recoveryfilecount recoveryblockcountset redundancy redundancysize largestfilesize
      ≡ some n
    → IsValid firstblock redundancy n
unfolding compute_recovery_block_count
compute_recovery_block_count-IsValid given source size firstblock scheme files true redundancy total
      largest n e =
    valid_count-IsValid firstblock redundancy given n e
compute_recovery_block_count-IsValid given source size firstblock scheme files false redundancy
      total largest n e =
    elim (either_branch (ltb 0 redundancy) _ _ n e) [
      | inl (t, h) ↦
          valid_count-IsValid firstblock redundancy
            ((source * redundancy % 2 ^ 32 + 50) % 2 ^ 32 / 100) n h
      | inr (t, h) ↦ elim (either_branch (ltb 0 total) _ _ n h) [
        | inl (u, k) ↦
            let zero_redundancy : 0 ≡ redundancy = ground (arith, t) in
            subst (λ r. IsValid firstblock r n) zero_redundancy
              (valid_size_count-IsValid source size firstblock total n _ k)
        | inr (u, k) ↦ absurd (ground arith)
      ]
    ]

fitting_blocks_lem :
    (total overhead packet : ℕ)
    → (fitting_blocks total overhead packet ≡ 1)
      ⊎ (fitting_blocks total overhead packet * packet ≤ total)
unfolding fitting_blocks
fitting_blocks_lem total overhead packet = elim (dec_lt total overhead) [
  | yes h ↦ inl (ground arith)
  | no h ↦
      let q = (total - overhead) / packet in
      let whole = div-mul-le_self (total - overhead) packet in
      let below : q % 2 ^ 32 ≤ q = omega arith in
      let fits : q % 2 ^ 32 * packet ≤ q * packet = grind arith in
      inr (rw (le→ltb total overhead (omega arith)) (omega arith))
]

valid_count-zero : (firstblock count n : ℕ) → valid_count firstblock 0 count ≡ some n → count ≡ n
unfolding valid_count
valid_count-zero firstblock count n e =
    let forced = if (count == 0) && ltb 0 0 then 1 else count in
    let sum = (firstblock + forced) % 2 ^ 32 in
    let (small, rest) =
      passes (ltb 65536 forced) (if leb 65536 sum then none else some forced) n e in
    let (low, done) = passes (leb 65536 sum) (some forced) n rest in
    let same : forced ≡ n = some-injective _ _ done in
    let plain : count ≡ forced = unforced count in plain ∙ same
  where
    unforced : (count : ℕ) → count ≡ (if (count == 0) && ltb 0 0 then 1 else count)
    unforced count = ground arith

size_fits :
    (source size firstblock total n : ℕ) (files : Option ℕ)
    → size + 70 < 2 ^ 64
    → valid_size_count source size firstblock total files ≡ some n
    → (n ≡ 1) ⊎ (n * (size + 70) ≤ total)
unfolding valid_size_count
size_fits source size firstblock total n none h e = absurd (ground arith)
size_fits source size firstblock total n (some files) h e =
    let overhead = files * (source * 21) % 2 ^ 64 in
    let exact : (size + 70) % 2 ^ 64 ≡ size + 70 = omega arith in
    let same =
      valid_count-zero firstblock (fitting_blocks total overhead ((size + 70) % 2 ^ 64)) n e in
    let count : fitting_blocks total overhead (size + 70) ≡ n =
      sym (ap (fitting_blocks total overhead) exact) ∙ same in
    elim (fitting_blocks_lem total overhead (size + 70)) [
      | inl p ↦ inl (sym count ∙ p)
      | inr p ↦ inr (subst (λ c. c * (size + 70) ≤ total) count p)
    ]

-- When a size is asked for and neither a count nor a redundancy, and the sizes do not wrap around:
-- the result is one block, or the recovery packets of all blocks fit into that size.
pub compute_recovery_block_count_fits :
    (recoveryblockcount sourceblockcount blocksize firstblock : ℕ) (scheme : Scheme)
    (recoveryfilecount redundancysize largestfilesize n : ℕ)
    → blocksize + 70 < 2 ^ 64
    → compute_recovery_block_count recoveryblockcount sourceblockcount blocksize firstblock scheme
        recoveryfilecount false 0 redundancysize largestfilesize
      ≡ some n
    → (n ≡ 1) ⊎ (n * (blocksize + 70) ≤ redundancysize)
unfolding compute_recovery_block_count
compute_recovery_block_count_fits given source size firstblock scheme files total largest n h e =
    elim (either_branch (ltb 0 total) _ _ n e) [
      | inl (u, k) ↦ size_fits source size firstblock total n _ h k
      | inr (u, k) ↦ absurd (ground arith)
    ]
