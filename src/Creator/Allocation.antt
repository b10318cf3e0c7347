-- ===== src/Creator/Allocation.antt =====
-- How `InitialiseOutputFiles` of src/par2creator.cpp spreads the recovery blocks over the
-- recovery files: the `switch` on the scheme, and the last file, which has no recovery blocks.
pub mod Covers
pub mod Planned
pub mod Complete
use par2cmdline_turbo.Prelude.{
  ℕ, zero, suc, ◌+◌, ◌-◌, ◌*◌, ◌/◌, ◌%◌, ◌^◌, min, Bool, true, false, ◌==◌, Option, none, some,
  List, [], ◌∷◌, ◌++◌, ltb, leb, if◌then◌else◌,
}
use par2cmdline_turbo.Creator.FileCount.{
  Scheme, unknown, variable, limited, uniform, largest_blocks,
}

-- `FileAllocation`, without the file's name
pub record FileAllocation : Type 0 where
  pub exponent : ℕ
  pub count : ℕ

-- The files that a loop fills, and the value of `exponent` behind it.
pub record Filled : Type 0 where
  pub files : List FileAllocation
  pub exponent : ℕ

abbrev pub fill : ℕ → ℕ → Filled → Filled
fill exponent count rest = record {
  files = record { exponent = exponent; count = count } ∷ rest.files;
  exponent = rest.exponent;
}

-- `case scUniform`: the loop from `filenumber` on, with `left` files to go.
unfoldable pub uniform_files : ℕ → ℕ → ℕ → ℕ → ℕ → Filled
uniform_files zero filenumber exponent base remainder = record { files = []; exponent = exponent }
uniform_files (suc left) filenumber exponent base remainder =
    let count = if ltb filenumber remainder then base + 1 else base in
    fill exponent count
      (uniform_files left (filenumber + 1) ((exponent + count) % 2 ^ 32) base remainder)

-- `while (maxrecoveryblocks < recoveryblockcount)`: 32 bits are doubled away in 32 rounds.
unfoldable pub low_block_count : ℕ → ℕ → ℕ → ℕ → ℕ
low_block_count zero maxrecoveryblocks recoveryblockcount lowblockcount = lowblockcount
low_block_count (suc fuel) maxrecoveryblocks recoveryblockcount lowblockcount =
    let rest =
      low_block_count fuel (maxrecoveryblocks * 2 % 2 ^ 32) recoveryblockcount
        (lowblockcount * 2 % 2 ^ 32) in
    if ltb maxrecoveryblocks recoveryblockcount then rest else lowblockcount

-- The loops that fill `left` files with twice as many blocks each time.
unfoldable pub doubling_files : ℕ → ℕ → ℕ → ℕ → Filled
doubling_files zero blocks count exponent = record { files = []; exponent = exponent }
doubling_files (suc left) blocks count exponent =
    let number = min count blocks in
    fill exponent number
      (doubling_files left (blocks - number) (count * 2 % 2 ^ 32) ((exponent + number) % 2 ^ 32))

-- The state of `case scLimited` behind its first loop: the files left, the blocks left, and the
-- files filled at the top.
pub record Top : Type 0 where
  pub filenumber : ℕ
  pub blocks : ℕ
  pub files : List FileAllocation

-- `while (blocks >= 2*largest && filenumber > 0)`
unfoldable pub top_files : ℕ → ℕ → ℕ → ℕ → List FileAllocation → Top
top_files zero blocks largest exponent above = record {
  filenumber = zero;
  blocks = blocks;
  files = above;
}
top_files (suc filenumber) blocks largest exponent above =
    let below = (exponent + 2 ^ 32 - largest) % 2 ^ 32 in
    let rest =
      top_files filenumber (blocks - largest) largest below
        (record { exponent = below; count = largest } ∷ above) in
    if leb (2 * largest % 2 ^ 32) blocks
    then rest
    else record { filenumber = suc filenumber; blocks = blocks; files = above }

abbrev pub behind : List FileAllocation → Filled → Filled
behind above low = record { files = low.files ++ above; exponent = low.exponent }

-- `case scLimited`
unfoldable pub limited_files : ℕ → ℕ → ℕ → ℕ → Filled
unfolding top_files doubling_files
limited_files firstrecoveryblock recoveryblockcount recoveryfilecount largest =
    let top =
      top_files recoveryfilecount recoveryblockcount largest
        ((firstrecoveryblock + recoveryblockcount) % 2 ^ 32) [] in
    behind top.files (doubling_files top.filenumber top.blocks 1 firstrecoveryblock)

-- `case scVariable`. The source shifts a signed int, which is undefined from 31 files on; here the
-- power of 2 is taken modulo 2^32.
unfoldable pub variable_files : ℕ → ℕ → ℕ → Filled
unfolding low_block_count doubling_files
variable_files firstrecoveryblock recoveryblockcount recoveryfilecount =
    let low =
      low_block_count 32 ((2 ^ recoveryfilecount + 2 ^ 32 - 1) % 2 ^ 32) recoveryblockcount 1 in
    doubling_files recoveryfilecount recoveryblockcount low firstrecoveryblock

-- `fileallocations[recoveryfilecount]`
abbrev pub with_last : Filled → List FileAllocation
with_last filled = filled.files ++ record { exponent = filled.exponent; count = 0 } ∷ []

-- `none` is `return false`.
unfoldable pub allocate : Scheme → ℕ → ℕ → ℕ → ℕ → ℕ → Option (List FileAllocation)
unfolding uniform_files variable_files limited_files
allocate scheme first blocks files largestfilesize blocksize =
    if files == 0 then some (with_last (record { files = []; exponent = first })) else elim scheme [
      | unknown ↦ none
      | uniform ↦ some (with_last (uniform_files files 0 first (blocks / files) (blocks % files)))
      | variable ↦ some (with_last (variable_files first blocks files))
      | limited ↦
          some (
            with_last (limited_files first blocks files (largest_blocks largestfilesize blocksize)))
    ]
