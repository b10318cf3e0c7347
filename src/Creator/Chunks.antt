-- ===== src/Creator/Chunks.antt =====
-- `CalculateProcessBlockSize` of src/par2creator.cpp, and the loop of `Process` over the chunks of
-- the blocks.
pub mod Progress
use par2cmdline_turbo.Prelude.{
  ℕ, zero, suc, ◌+◌, ◌-◌, ◌*◌, ◌/◌, ◌%◌, ◌^◌, ◌≤◌, ◌<◌, min, bit_and, ◌≡◌, refl, Bool, true, false,
  ◌==◌, List, [], ◌∷◌, ltb, if◌then◌else◌, arith, dec_lt, lt→ltb, le→ltb, Option, none, some, subst,
}
use par2cmdline_turbo.Bits.{bit_and-not_three}

pub record ChunkSize : Type 0 where
  pub chunksize : ℕ
  pub deferhashcomputation : Bool

-- `MAX_CHUNK_SIZE`
abbrev pub max_chunk_size : ℕ
max_chunk_size = 33554432

-- `recoveryblockcount + blockoverhead`, of the buffers that are kept besides the recovery blocks.
unfoldable pub buffer_count : ℕ → ℕ → ℕ
buffer_count recoveryblockcount sourceblockcount =
    (recoveryblockcount + (2 + min 24 ((sourceblockcount + 1) % 2 ^ 32)) % 2 ^ 32) % 2 ^ 32

unfoldable pub cap_chunk : ChunkSize → ChunkSize
cap_chunk c =
    if ltb max_chunk_size c.chunksize
    then record { chunksize = max_chunk_size; deferhashcomputation = false }
    else c

-- `CalculateProcessBlockSize`
unfoldable pub calculate_process_block_size : ℕ → ℕ → ℕ → ℕ → ChunkSize
calculate_process_block_size blocksize recoveryblockcount sourceblockcount memorylimit =
    let buffers = buffer_count recoveryblockcount sourceblockcount in
    if recoveryblockcount == 0
    then record { chunksize = 0; deferhashcomputation = false }
    else if ltb memorylimit (blocksize * buffers % 2 ^ 64)
    then cap_chunk (record {
      chunksize = bit_and (memorylimit / buffers) (2 ^ 64 - 4);
      deferhashcomputation = false;
    })
    else cap_chunk (record { chunksize = blocksize; deferhashcomputation = true })

-- `blockoffset` and `blocklength` of a round of the loop
pub record Chunk : Type 0 where
  pub blockoffset : ℕ
  pub blocklength : ℕ

-- `while (blockoffset < blocksize)`; nothing is returned when the fuel does not last. The loop
-- in front of it, over the recovery blocks, is not part of this: its counter is a u16, so it ends for
-- fewer than 65536 of them.
unfoldable pub chunks_from : ℕ → ℕ → ℕ → ℕ → Option (List Chunk)
chunks_from zero blocksize chunksize blockoffset =
    if ltb blockoffset blocksize then none else some []
chunks_from (suc fuel) blocksize chunksize blockoffset =
    let blocklength = min chunksize (blocksize - blockoffset) in
    let rest = chunks_from fuel blocksize chunksize ((blockoffset + blocklength) % 2 ^ 64) in
    if ltb blockoffset blocksize
    then elim rest [
      | none ↦ none
      | some chunks ↦
          some (record { blockoffset = blockoffset; blocklength = blocklength } ∷ chunks)
    ]
    else some []
