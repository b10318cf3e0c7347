-- ===== src/Creator/Sizes.antt =====
-- `ComputeBlockCount` and `CalculateProcessBlockSize` of src/par2creator.cpp.
use par2cmdline_turbo.Prelude.{
  ℕ, ◌+◌, ◌-◌, ◌*◌, ◌/◌, ◌%◌, ◌^◌, ◌≤◌, ◌<◌, ◌≡◌, sym, subst, not, ◌==◌, Option, none, some, List,
  [], ◌∷◌, ltb, if◌then◌else◌, arith, passes, ltb→le,
}
use mathlib.Core.Option.{some-injective}

-- The loop that finds `largestfilesize`; a file is its size.
unfoldable pub largest_of : ℕ → List ℕ → ℕ
largest_of largestfilesize [] = largestfilesize
largest_of largestfilesize (filesize ∷ files) =
    largest_of (if ltb largestfilesize filesize then filesize else largestfilesize) files

-- The loop that counts the blocks, on u64.
unfoldable pub count_from : ℕ → ℕ → List ℕ → ℕ
count_from blocksize count [] = count
count_from blocksize count (filesize ∷ files) =
    count_from blocksize ((count + (filesize + blocksize - 1) % 2 ^ 64 / blocksize) % 2 ^ 64) files

-- `largestfilesize` and `sourceblockcount`
pub record BlockCount : Type 0 where
  pub largestfilesize : ℕ
  pub sourceblockcount : ℕ

-- `ComputeBlockCount`: `none` is `return false`.
unfoldable pub compute_block_count : ℕ → List ℕ → Option BlockCount
unfolding largest_of count_from
compute_block_count blocksize files =
    if blocksize == 0
    then none
    else if not (blocksize % 4 == 0)
    then none
    else if ltb 32768 (count_from blocksize 0 files)
    then none
    else some (record {
      largestfilesize = largest_of 0 files;
      sourceblockcount = count_from blocksize 0 files % 2 ^ 32;
    })

-- The blocks that cut a file into pieces of `blocksize` bytes: no fewer hold it, and none is empty.
abbrev pub Cuts : ℕ → ℕ → ℕ → Type 0
Cuts blocksize filesize blocks =
    (filesize ≤ blocks * blocksize) × (blocks * blocksize < filesize + blocksize)

-- The numbers of blocks of the files, and their sum.
pub data CutsAll (blocksize : ℕ) : List ℕ → ℕ → Type 0 where
  nil : CutsAll blocksize [] 0
  cons :
      {filesize : ℕ} {files : List ℕ} (blocks total : ℕ)
      → Cuts blocksize filesize blocks
      → CutsAll blocksize files total
      → CutsAll blocksize (filesize ∷ files) (blocks + total)

cuts_lem :
    (blocksize filesize : ℕ)
    → 0 < blocksize
    → filesize + blocksize < 2 ^ 64
    → Cuts blocksize filesize ((filesize + blocksize - 1) % 2 ^ 64 / blocksize)
cuts_lem blocksize filesize p h =
    let n = (filesize + blocksize - 1) % 2 ^ 64 in
    omega (arith, native.Mathlib.Nat.div-add-mod' n blocksize, native.Mathlib.Nat.mod-lt n p)

-- The sizes of the files, each with a block, and so the sum of their blocks, stay below 2^64.
abbrev pub Fits : ℕ → ℕ → List ℕ → Type 0
Fits blocksize count [] = count < 2 ^ 64
Fits blocksize count (filesize ∷ files) = Fits blocksize (count + (filesize + blocksize)) files

Fits-bound : (blocksize count : ℕ) (files : List ℕ) → Fits blocksize count files → count < 2 ^ 64
Fits-bound blocksize count [] h = h
Fits-bound blocksize count (filesize ∷ files) h =
    omega (arith, Fits-bound blocksize (count + (filesize + blocksize)) files h)

Fits-less :
    (blocksize m n : ℕ) (files : List ℕ) → m ≤ n → Fits blocksize n files → Fits blocksize m files
Fits-less blocksize m n [] le h = omega arith
Fits-less blocksize m n (filesize ∷ files) le h =
    Fits-less blocksize (m + (filesize + blocksize)) (n + (filesize + blocksize)) files
      (omega arith) h

count_from-CutsAll :
    (blocksize count : ℕ) (files : List ℕ)
    → 0 < blocksize
    → Fits blocksize count files
    → (total : ℕ) × CutsAll blocksize files total
      × (count_from blocksize count files ≡ count + total)
unfolding count_from
count_from-CutsAll blocksize count [] p h = (0, nil, omega arith)
count_from-CutsAll blocksize count (filesize ∷ files) p h =
    let bound = Fits-bound blocksize (count + (filesize + blocksize)) files h in
    let blocks = (filesize + blocksize - 1) % 2 ^ 64 / blocksize in
    let cuts = cuts_lem blocksize filesize p (omega arith) in
    let few : blocks ≤ filesize + blocksize = few_blocks blocks blocksize filesize p cuts.1 in
    let next : (count + blocks) % 2 ^ 64 ≡ count + blocks = omega arith in
    let (total, all, e) = count_from-CutsAll blocksize ((count + blocks) % 2 ^ 64) files p (
      Fits-less blocksize ((count + blocks) % 2 ^ 64) (count + (filesize + blocksize)) files
        (omega arith) h) in
    (blocks + total, cons blocks total cuts all, omega (arith, e))
  where
    few_blocks :
        (blocks blocksize filesize : ℕ)
        → 0 < blocksize
        → blocks * blocksize < filesize + blocksize
        → blocks ≤ filesize + blocksize
    few_blocks blocks blocksize filesize p h = grind arith

-- Every file is at most so large, and one is, if there are any.
pub data AllAtMost (largest : ℕ) : List ℕ → Type 0 where
  nil : AllAtMost largest []
  cons :
      {filesize : ℕ} {files : List ℕ}
      → filesize ≤ largest
      → AllAtMost largest files
      → AllAtMost largest (filesize ∷ files)

largest_of-AllAtMost :
    (start : ℕ) (files : List ℕ)
    → (start ≤ largest_of start files) × AllAtMost (largest_of start files) files
unfolding largest_of
largest_of-AllAtMost start [] = (omega arith, nil)
largest_of-AllAtMost start (filesize ∷ files) =
    let start' = if ltb start filesize then filesize else start in
    let (up, all) = largest_of-AllAtMost start' files in
    let both : (start ≤ start') × (filesize ≤ start') = (ground arith, ground arith) in
    (omega (arith, up, both), cons (omega (arith, up, both)) all)

pub record IsCount (blocksize : ℕ) (files : List ℕ) (r : BlockCount) : Type 0 where
  pub positive : 0 < blocksize
  pub aligned : blocksize % 4 ≡ 0
  pub cuts : CutsAll blocksize files r.sourceblockcount
  pub bounded : r.sourceblockcount ≤ 32768
  pub largest : AllAtMost r.largestfilesize files

-- For files whose sizes, each with one block added, sum up to less than 2^64: when
-- `ComputeBlockCount` succeeds, the block size is a positive multiple of 4, the count is the sum
-- over the files of the blocks that each takes, where the blocks hold the file and the last of them
-- is not superfluous; it is at most 32768, and no file is larger than `largestfilesize`.
pub compute_block_count-IsCount :
    (blocksize : ℕ) (files : List ℕ) (r : BlockCount)
    → Fits blocksize 0 files
    → compute_block_count blocksize files ≡ some r
    → IsCount blocksize files r
unfolding compute_block_count
compute_block_count-IsCount blocksize files r h e =
    let (nonzero, more) = passes (blocksize == 0) _ r e in
    let (whole, further) = passes (not (blocksize % 4 == 0)) _ r more in
    let (small, made) = passes (ltb 32768 (count_from blocksize 0 files)) _ r further in
    let positive : 0 < blocksize = ground arith in
    let (total, all, c) = count_from-CutsAll blocksize 0 files positive h in
    let bound = ltb→le 32768 (count_from blocksize 0 files) small in
    let count : count_from blocksize 0 files % 2 ^ 32 ≡ total = omega (arith, c, bound) in
    rw (← (some-injective _ _ made)) (record {
      positive = positive;
      aligned = ground arith;
      cuts = subst (CutsAll blocksize files) (sym count) all;
      bounded = omega (arith, bound);
      largest = (largest_of-AllAtMost 0 files).1;
    })
