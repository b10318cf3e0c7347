-- ===== src/Creator/Allocation/Complete.antt =====
-- `ComputeRecoveryFileCount` of src/libpar2.cpp and the `switch` of `InitialiseOutputFiles` of
-- src/par2creator.cpp, one behind the other.
use native.Mathlib.Nat.{pow-suc}
use par2cmdline_turbo.Prelude.{
  ℕ, zero, suc, ◌+◌, ◌-◌, ◌*◌, ◌/◌, ◌%◌, ◌^◌, ◌≤◌, ◌<◌, ◌≡◌, ◌≢◌, refl, none, some, ltb, leb, ◌==◌,
  if◌then◌else◌, arith,
}
use par2cmdline_turbo.Creator.FileCount.{
  Scheme, unknown, variable, limited, uniform, largest_blocks, compute_recovery_file_count,
  count_bits, Bits, count_bits-Bits,
}
use par2cmdline_turbo.Creator.Allocation.{
  Filled, uniform_files, limited_files, variable_files, allocate, with_last,
}
use par2cmdline_turbo.Creator.Allocation.Planned.{
  IsPlan, split, limited_files-IsPlan, uniform_files-IsPlan, variable_files-IsPlan,
}

-- The number of files is found, the files are allocated, and all but the last of them hold the
-- blocks from exponent `first` up to `limit` in order, each file at least one block.
pub record IsAllocated (scheme : Scheme) (first n limit largestfilesize blocksize : ℕ)
    : Type 0 where
  pub files : ℕ
  pub found : compute_recovery_file_count 0 scheme n largestfilesize blocksize ≡ some files
  pub filled : Filled
  pub made : allocate scheme first n files largestfilesize blocksize ≡ some (with_last filled)
  pub plan : IsPlan first limit filled

le-pow : (k : ℕ) → suc k ≤ 2 ^ k
le-pow zero = omega arith
le-pow (suc k) = omega (arith, le-pow k, pow-suc 2 k)

bits-le : (bits n : ℕ) → 0 < bits → 2 ^ bits ≤ 2 * n → bits ≤ n
bits-le zero n p h = omega arith
bits-le (suc k) n p h = omega (arith, le-pow k, pow-suc 2 k)

positive {ℓ} : {A : Type ℓ} → (n : ℕ) (a b : A) → 0 < n → (if n == 0 then a else b) ≡ b
positive n a b p = ground arith

-- The two schemes whose files are counted by the bits of the number of blocks.
counted_by_bits :
    (n : ℕ) (b : Bits 0 n (count_bits 32 n 0))
    → (if n == 0
        then some 0
        else if ltb n (count_bits 32 n 0)
        then none
        else some (count_bits 32 n 0))
      ≡ some b.bits
counted_by_bits n b =
    let c : count_bits 32 n 0 ≡ b.bits = omega (arith, b.counted) in
    let small : b.bits ≤ n = bits-le b.bits n b.pos b.has.1 in ground (arith, c)

-- For every known scheme, one recovery block or more, exponents below 2^32, fewer than 2^31 blocks,
-- and a largest file of fewer than 2^30 blocks and at least one, `ComputeRecoveryFileCount`
-- succeeds when no number of files is asked for, and `InitialiseOutputFiles` then gives each
-- exponent from the first one on to exactly one of the files, in order, leaves none of these files
-- without a block, and adds one file without blocks behind them.
pub allocate-IsAllocated :
    (scheme : Scheme) (first n largestfilesize blocksize : ℕ)
    → scheme ≢ unknown
    → 0 < n
    → n < 2 ^ 31
    → first + n < 2 ^ 32
    → 0 < largest_blocks largestfilesize blocksize
    → 2 * largest_blocks largestfilesize blocksize < 2 ^ 31
    → IsAllocated scheme first n (first + n) largestfilesize blocksize
unfolding compute_recovery_file_count allocate
allocate-IsAllocated unknown first n largestfilesize blocksize known p h f l w = absurd (known refl)
allocate-IsAllocated variable first n largestfilesize blocksize known p h f l w =
    let b = count_bits-Bits n 0 p (omega arith) in
    record {
      files = b.bits;
      found = counted_by_bits n b;
      filled = variable_files first n b.bits;
      made = positive b.bits _ _ b.pos;
      plan = variable_files-IsPlan first n b.bits b.pos b.has h f;
    }
allocate-IsAllocated limited first n largestfilesize blocksize known p h f l w =
    let largest = largest_blocks largestfilesize blocksize in
    let whole = if leb 1 (n / largest) then n / largest - 1 else 0 in
    let s = split n largest p l in
    let extra = n - whole * largest in
    let b = count_bits-Bits extra whole s.pos (omega (arith, s.small)) in
    record {
      files = whole + b.bits;
      found = ground (arith, b.counted);
      filled = limited_files first n (whole + b.bits) largest;
      made = positive (whole + b.bits) _ _ (omega (arith, b.pos));
      plan =
          limited_files-IsPlan first n (whole + b.bits) largest whole extra b.bits s refl b.pos
            b.has l w f;
    }
allocate-IsAllocated uniform first n largestfilesize blocksize known p h f l w =
    let b = count_bits-Bits n 0 p (omega arith) in
    record {
      files = b.bits;
      found = counted_by_bits n b;
      filled = uniform_files b.bits 0 first (n / b.bits) (n % b.bits);
      made = positive b.bits _ _ b.pos;
      plan = uniform_files-IsPlan first n b.bits b.pos (bits-le b.bits n b.pos b.has.1) f;
    }
