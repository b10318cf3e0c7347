-- ===== src/Tests/Packets.antt =====
-- Little-endian fields, the order of critical packets, the recovery files and the chunks at
-- concrete inputs.
use par2cmdline_turbo.Prelude.{
  ℕ, ◌≡◌, ◌≢◌, refl, true, false, some, [], ◌∷◌, ◌++◌, arith, replicate,
}
use par2cmdline_turbo.Letype.{put_leu32, put_leu64, get_leu32, get_leu64, get_leu-put_leu}
use par2cmdline_turbo.CriticalPacket.{CriticalPacket, compare_less}
use par2cmdline_turbo.CriticalPacket.Order.{compare_less-IsStrictWeakOrder}
use par2cmdline_turbo.Creator.FileCount.{variable, uniform, unknown, largest_blocks}
use par2cmdline_turbo.Creator.Chunks.{
  Chunk, buffer_count, cap_chunk, calculate_process_block_size, chunks_from,
}
use par2cmdline_turbo.Creator.Chunks.Progress.{IsChunked, calculate_process_block_size-IsChunked}
use par2cmdline_turbo.Creator.Allocation.{FileAllocation, allocate}
use par2cmdline_turbo.Creator.Allocation.Complete.{IsAllocated, allocate-IsAllocated}

get_leu-put_leu_example :
    (get_leu32 (put_leu32 4000000000 ++ (1 ∷ [])) ≡ 4000000000)
    × (get_leu64 (put_leu64 1234567890123 ++ (1 ∷ [])) ≡ 1234567890123)
get_leu-put_leu_example =
    get_leu-put_leu 4000000000 1234567890123 (1 ∷ []) (omega arith) (omega arith)

-- A packet with the letter of its type, and the first byte of its body.
abbrev packet : ℕ → ℕ → CriticalPacket
packet letter first = record {
  packetdata = replicate 56 0 ++ letter ∷ replicate 7 0 ++ first ∷ replicate 15 0;
}

compare_less-IsStrictWeakOrder_example :
    (compare_less (packet b'M' 9) (packet b'M' 9) ≡ false)
    × (compare_less (packet b'M' 9) (packet b'F' 2) ≡ true
        → compare_less (packet b'F' 2) (packet b'I' 1) ≡ true
        → compare_less (packet b'M' 9) (packet b'I' 1) ≡ true)
    × (compare_less (packet b'M' 9) (packet b'F' 2) ≡ false
        → compare_less (packet b'F' 2) (packet b'M' 9) ≡ false
        → compare_less (packet b'F' 2) (packet b'I' 1) ≡ false
        → compare_less (packet b'I' 1) (packet b'F' 2) ≡ false
        → (compare_less (packet b'M' 9) (packet b'I' 1) ≡ false)
          × (compare_less (packet b'I' 1) (packet b'M' 9) ≡ false))
compare_less-IsStrictWeakOrder_example =
    compare_less-IsStrictWeakOrder (packet b'M' 9) (packet b'F' 2) (packet b'I' 1)

variable_ne_unknown : variable ≢ unknown
variable_ne_unknown = cc

-- 100 blocks, the largest file of 10 blocks.
allocate-IsAllocated_example : IsAllocated variable 3 100 103 5000 500
allocate-IsAllocated_example =
    allocate-IsAllocated variable 3 100 5000 500 variable_ne_unknown (omega arith) (omega arith)
      (omega arith) (unfold largest_blocks in omega arith) (unfold largest_blocks in omega arith)

abbrev file : ℕ → ℕ → FileAllocation
file exponent count = record { exponent = exponent; count = count }

allocate_run :
    (allocate variable 3 100 7 5000 500
      ≡ some (
          file 3 1
          ∷ file 4 2
          ∷ file 6 4
          ∷ file 10 8
          ∷ file 18 16
          ∷ file 34 32
          ∷ file 66 37
          ∷ file 103 0
          ∷ []))
    × (allocate uniform 0 7 3 5000 500 ≡ some (file 0 3 ∷ file 3 2 ∷ file 5 2 ∷ file 7 0 ∷ []))
unfolding allocate
allocate_run = (refl, refl)

-- 18 buffers of blocks of 400 bytes do not fit into 3600 bytes.
calculate_process_block_size-IsChunked_example :
    IsChunked 400 (buffer_count 10 5) 3600 (calculate_process_block_size 400 10 5 3600).chunksize
calculate_process_block_size-IsChunked_example =
    calculate_process_block_size-IsChunked 400 10 5 3600 (omega arith) (omega arith)
      (unfold buffer_count in omega arith) (omega arith) (omega arith) (omega arith)
      (unfold buffer_count in omega arith)

abbrev chunk : ℕ → ℕ → Chunk
chunk blockoffset blocklength = record { blockoffset = blockoffset; blocklength = blocklength }

chunks_run :
    ((calculate_process_block_size 400 10 5 3600).chunksize ≡ 200)
    × (chunks_from 400 400 160 0 ≡ some (chunk 0 160 ∷ chunk 160 160 ∷ chunk 320 80 ∷ []))
unfolding calculate_process_block_size buffer_count cap_chunk chunks_from
chunks_run = (refl, refl)
