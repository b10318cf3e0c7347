-- ===== src/Creator/FileCount.antt =====
-- `ComputeRecoveryFileCount` of src/libpar2.cpp.
use par2cmdline_turbo.Prelude.{
  ℕ, zero, suc, ◌+◌, ◌-◌, ◌*◌, ◌/◌, ◌%◌, ◌^◌, ◌≤◌, ◌<◌, ◌≡◌, refl, ◌==◌, Option, none, some, ltb,
  leb, if◌then◌else◌, arith, dec_lt, ap, ◌∙◌,
}
use native.Mathlib.Nat.{pow-suc}

-- `Scheme` of include/par2/libpar2.h
pub data Scheme : Type 0 where
  unknown variable limited uniform : Scheme

-- `for (u32 blocks=…; blocks>0; blocks>>=1) (*recoveryfilecount)++;` on a 32-bit count, which has
-- at most 32 rounds.
unfoldable pub count_bits : ℕ → ℕ → ℕ → ℕ
count_bits zero blocks filecount = filecount
count_bits (suc fuel) blocks filecount =
    let rest = count_bits fuel (blocks / 2) (filecount + 1) in
    if ltb 0 blocks then rest else filecount

-- `(u32)((largestfilesize + blocksize-1) / blocksize)`
unfoldable pub largest_blocks : ℕ → ℕ → ℕ
largest_blocks largestfilesize blocksize =
    (largestfilesize + blocksize - 1) % 2 ^ 64 / blocksize % 2 ^ 32

-- `none` is `false`. `recoveryfilecount` is the value that the pointer has before the call.
-- The largest file is not empty where the scheme is `limited`: the source divides by its blocks.
unfoldable pub compute_recovery_file_count : ℕ → Scheme → ℕ → ℕ → ℕ → Option ℕ
compute_recovery_file_count recoveryfilecount unknown recoveryblockcount largestfilesize blocksize =
    if recoveryblockcount == 0 then some 0 else none
compute_recovery_file_count recoveryfilecount limited recoveryblockcount largestfilesize blocksize =
    let largest = largest_blocks largestfilesize blocksize in
    let whole' = recoveryblockcount / largest in
    let whole = if leb 1 whole' then whole' - 1 else 0 in
    let extra = recoveryblockcount - whole * largest in
    if recoveryblockcount == 0 then some 0 else some (count_bits 32 extra whole)
compute_recovery_file_count recoveryfilecount _ recoveryblockcount largestfilesize blocksize =
    let filecount =
      if recoveryfilecount == 0 then count_bits 32 recoveryblockcount 0 else recoveryfilecount in
    if recoveryblockcount == 0
    then some 0
    else if ltb recoveryblockcount filecount
    then none
    else some filecount

-- `n` is below `2 ^ b`, and not below half of that.
abbrev pub HasBits : ℕ → ℕ → Type 0
HasBits n b = (n < 2 ^ b) × (2 ^ b ≤ 2 * n)

count_bits-zero : (fuel filecount : ℕ) → count_bits fuel 0 filecount ≡ filecount
unfolding count_bits
count_bits-zero zero filecount = refl
count_bits-zero (suc fuel) filecount = refl

pub record Bits (filecount n result : ℕ) : Type 0 where
  pub bits : ℕ
  pub counted : result ≡ filecount + bits
  pub pos : 0 < bits
  pub has : HasBits n bits

count_bits_lem :
    (fuel blocks filecount : ℕ)
    → 0 < blocks
    → blocks < 2 ^ fuel
    → Bits filecount blocks (count_bits fuel blocks filecount)
unfolding count_bits
count_bits_lem zero blocks filecount pos h = absurd (omega arith)
count_bits_lem (suc fuel) blocks filecount pos h = elim (dec_lt 0 (blocks / 2)) [
  | no small ↦ record {
    bits = 1;
    counted = ground (arith, count_bits-one);
    pos = omega arith;
    has = (omega arith, omega arith);
  }
  | yes big ↦
      let r =
        count_bits_lem fuel (blocks / 2) (filecount + 1) big (omega (arith, pow-suc 2 fuel)) in
      record {
        bits = suc r.bits;
        counted = ground (arith, r.counted);
        pos = omega arith;
        has = (omega (arith, pow-suc 2 r.bits, r.has), omega (arith, pow-suc 2 r.bits, r.has));
      }
]
  where
    count_bits-one : blocks / 2 ≡ 0 → count_bits fuel (blocks / 2) (filecount + 1) ≡ filecount + 1
    count_bits-one e =
        ap (λ (n : ℕ). count_bits fuel n (filecount + 1)) e ∙ count_bits-zero fuel (filecount + 1)

pub count_bits-Bits :
    (blocks filecount : ℕ)
    → 0 < blocks
    → blocks < 2 ^ 32
    → Bits filecount blocks (count_bits 32 blocks filecount)
count_bits-Bits blocks filecount p h = count_bits_lem 32 blocks filecount p h
