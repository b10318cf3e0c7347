-- ===== src/Creator/Chunks/Progress.antt =====
-- The chunk size is usable, and the loop over the chunks ends.
use par2cmdline_turbo.Prelude.{
  ℕ, zero, suc, ◌+◌, ◌-◌, ◌*◌, ◌/◌, ◌%◌, ◌^◌, ◌≤◌, ◌<◌, min, bit_and, ◌≡◌, refl, false, ◌==◌, List,
  [], ◌∷◌, arith, dec_lt, lt→ltb, le→ltb, some, subst,
}
use par2cmdline_turbo.Bits.{bit_and-not_three}
use par2cmdline_turbo.Creator.Chunks.{
  ChunkSize, Chunk, max_chunk_size, buffer_count, cap_chunk, calculate_process_block_size,
  chunks_from,
}

-- The chunks follow each other from `start` up to `limit`, none is empty or longer than `most`.
abbrev pub Tiles : ℕ → ℕ → ℕ → List Chunk → Type 0
Tiles most start limit [] = start ≡ limit
Tiles most start limit (c ∷ cs) =
    (c.blockoffset ≡ start)
    × (0 < c.blocklength)
    × (c.blocklength ≤ most)
    × Tiles most (start + c.blocklength) limit cs

-- A round takes at least one byte, so as much fuel as there are bytes is enough.
chunks_from-Tiles :
    (fuel blocksize chunksize blockoffset : ℕ)
    → 0 < chunksize
    → blocksize < 2 ^ 64
    → blockoffset ≤ blocksize
    → blocksize ≤ blockoffset + fuel
    → (chunks : List Chunk) × (chunks_from fuel blocksize chunksize blockoffset ≡ some chunks)
      × Tiles chunksize blockoffset blocksize chunks
unfolding chunks_from
chunks_from-Tiles zero blocksize chunksize blockoffset p s l f =
    ([], rw (le→ltb blockoffset blocksize (omega arith)) refl, omega arith)
chunks_from-Tiles (suc fuel) blocksize chunksize blockoffset p s l f =
    elim (dec_lt blockoffset blocksize) [
      | no h ↦ ([], rw (le→ltb blockoffset blocksize (omega arith)) refl, omega arith)
      | yes h ↦
          let blocklength = min chunksize (blocksize - blockoffset) in
          let next = (blockoffset + blocklength) % 2 ^ 64 in
          let same : next ≡ blockoffset + blocklength = omega arith in
          let (chunks, e, tiles) =
            chunks_from-Tiles fuel blocksize chunksize next p s (omega arith) (omega arith) in
          (
            record { blockoffset = blockoffset; blocklength = blocklength } ∷ chunks,
            rw (lt→ltb blockoffset blocksize h, e) refl,
            (
              refl,
              omega arith,
              omega arith,
              subst (λ t. Tiles chunksize t blocksize chunks) same tiles,
            ),
          )
    ]

scale : (a b c : ℕ) → a ≤ b → a * c ≤ b * c
scale a b c h = grind arith

scale_pos : (a c : ℕ) → 0 < c → a ≤ a * c
scale_pos a c h = grind arith

-- A chunk size that works, before it is capped.
record IsWorkable (blocksize buffers memorylimit chunksize : ℕ) : Type 0 where
  positive : 0 < chunksize
  aligned : chunksize % 4 ≡ 0
  within : chunksize ≤ blocksize
  affordable : chunksize * buffers ≤ memorylimit

smaller-IsWorkable :
    (blocksize buffers memorylimit chunksize less : ℕ)
    → 0 < less
    → less % 4 ≡ 0
    → less ≤ chunksize
    → IsWorkable blocksize buffers memorylimit chunksize
    → IsWorkable blocksize buffers memorylimit less
smaller-IsWorkable blocksize buffers memorylimit chunksize less p a l h =
    let scaled = scale less chunksize buffers l in
    record {
      positive = p;
      aligned = a;
      within = omega (arith, h.within);
      affordable = omega (arith, h.affordable);
    }

quotient_bounds :
    (blocksize buffers memorylimit quotient remainder : ℕ)
    → quotient * buffers + remainder ≡ memorylimit
    → remainder < buffers
    → 4 * buffers ≤ memorylimit
    → memorylimit < blocksize * buffers
    → (4 ≤ quotient) × (quotient < blocksize)
quotient_bounds blocksize buffers memorylimit quotient remainder e r enough less = (
  elim (dec_lt quotient 4) [
    | yes h ↦
        let scaled : suc quotient * buffers ≤ 4 * buffers = grind arith in absurd (grind arith)
    | no h ↦ omega arith
  ],
  elim (dec_lt quotient blocksize) [
    | yes h ↦ h
    | no h ↦
        let scaled : blocksize * buffers ≤ quotient * buffers = grind arith in absurd (omega arith)
  ],
)

limited-IsWorkable :
    (blocksize buffers memorylimit : ℕ)
    → 0 < buffers
    → memorylimit < 2 ^ 64
    → 4 * buffers ≤ memorylimit
    → memorylimit < blocksize * buffers
    → IsWorkable blocksize buffers memorylimit (bit_and (memorylimit / buffers) (2 ^ 64 - 4))
limited-IsWorkable blocksize buffers memorylimit p m enough less =
    let quotient = memorylimit / buffers in
    let whole : quotient * buffers + memorylimit % buffers ≡ memorylimit =
      native.Mathlib.Nat.div-add-mod' memorylimit buffers in
    let (four, below) =
      quotient_bounds blocksize buffers memorylimit quotient (memorylimit % buffers) whole
        (native.Mathlib.Nat.mod-lt memorylimit p) enough less in
    let fits : quotient < 2 ^ 64 = omega (arith, scale_pos quotient buffers p) in
    rw (bit_and-not_three quotient fits) (record {
      positive = omega arith;
      aligned = omega arith;
      within = omega arith;
      affordable = omega (arith, scale (quotient - quotient % 4) quotient buffers (omega arith));
    })

cap_chunk-IsWorkable :
    (blocksize buffers memorylimit : ℕ) (c : ChunkSize)
    → IsWorkable blocksize buffers memorylimit c.chunksize
    → IsWorkable blocksize buffers memorylimit (cap_chunk c).chunksize
      × ((cap_chunk c).chunksize ≤ max_chunk_size)
unfolding cap_chunk
cap_chunk-IsWorkable blocksize buffers memorylimit c h = elim (dec_lt max_chunk_size c.chunksize) [
  | yes large ↦ rw (lt→ltb max_chunk_size c.chunksize large) (
    smaller-IsWorkable blocksize buffers memorylimit c.chunksize max_chunk_size (omega arith)
        (omega arith) (omega arith) h,
    omega arith,
  )
  | no small ↦ rw (le→ltb max_chunk_size c.chunksize (omega arith)) (h, omega arith)
]

buffer_count-pos : (r s : ℕ) → r < 2 ^ 31 → 0 < buffer_count r s
unfolding buffer_count
buffer_count-pos r s h = omega arith

calculate_process_block_size-IsWorkable :
    (blocksize recoveryblockcount sourceblockcount memorylimit : ℕ)
    → 0 < blocksize
    → blocksize % 4 ≡ 0
    → blocksize * buffer_count recoveryblockcount sourceblockcount < 2 ^ 64
    → 0 < recoveryblockcount
    → recoveryblockcount < 2 ^ 31
    → memorylimit < 2 ^ 64
    → 4 * buffer_count recoveryblockcount sourceblockcount ≤ memorylimit
    → IsWorkable blocksize
        (buffer_count recoveryblockcount sourceblockcount)
        memorylimit
        (calculate_process_block_size blocksize recoveryblockcount sourceblockcount
          memorylimit).chunksize
      × ((calculate_process_block_size blocksize recoveryblockcount sourceblockcount
            memorylimit).chunksize
          ≤ max_chunk_size)
unfolding calculate_process_block_size
calculate_process_block_size-IsWorkable blocksize recoveryblockcount sourceblockcount memorylimit p
      a o r q m enough =
    let buffers = buffer_count recoveryblockcount sourceblockcount in
    let exact : blocksize * buffers % 2 ^ 64 ≡ blocksize * buffers = omega arith in
    let asked : (recoveryblockcount == 0) ≡ false = ground arith in
    elim (dec_lt memorylimit (blocksize * buffers)) [
      | yes less ↦
          rw (asked, exact, lt→ltb memorylimit (blocksize * buffers) less)
            (cap_chunk-IsWorkable blocksize buffers memorylimit _ (
              limited-IsWorkable blocksize buffers memorylimit
                (buffer_count-pos recoveryblockcount sourceblockcount q) m enough less))
      | no fits ↦
          rw (asked, exact, le→ltb memorylimit (blocksize * buffers) (omega arith))
            (cap_chunk-IsWorkable blocksize buffers memorylimit _ (record {
              positive = p;
              aligned = a;
              within = omega arith;
              affordable = omega arith;
            }))
    ]

pub record IsChunked (blocksize buffers memorylimit chunksize : ℕ) : Type 0 where
  pub positive : 0 < chunksize
  pub aligned : chunksize % 4 ≡ 0
  pub within : chunksize ≤ blocksize
  pub capped : chunksize ≤ max_chunk_size
  pub affordable : chunksize * buffers ≤ memorylimit
  pub chunks : List Chunk
  pub processed : chunks_from blocksize blocksize chunksize 0 ≡ some chunks
  pub tiles : Tiles chunksize 0 blocksize chunks

-- For a block size that is a positive multiple of 4, between 1 and 2^31 - 1 recovery blocks, block
-- buffers that together have a size below 2^64, and a memory limit that has room for 4 bytes of each
-- buffer: the chunk size that `CalculateProcessBlockSize` picks is a positive multiple of 4, not
-- larger than a block or than the cap, the buffers of that size keep to the memory limit, and the
-- loop of `Process` ends, having processed the block in chunks that follow each other from its first
-- byte to its last.
pub calculate_process_block_size-IsChunked :
    (blocksize recoveryblockcount sourceblockcount memorylimit : ℕ)
    → 0 < blocksize
    → blocksize % 4 ≡ 0
    → blocksize * buffer_count recoveryblockcount sourceblockcount < 2 ^ 64
    → 0 < recoveryblockcount
    → recoveryblockcount < 2 ^ 31
    → memorylimit < 2 ^ 64
    → 4 * buffer_count recoveryblockcount sourceblockcount ≤ memorylimit
    → IsChunked blocksize
        (buffer_count recoveryblockcount sourceblockcount)
        memorylimit
        (calculate_process_block_size blocksize recoveryblockcount sourceblockcount
          memorylimit).chunksize
calculate_process_block_size-IsChunked blocksize recoveryblockcount sourceblockcount memorylimit p a
      o r q m enough =
    let buffers = buffer_count recoveryblockcount sourceblockcount in
    let (size, capped) =
      calculate_process_block_size-IsWorkable blocksize recoveryblockcount sourceblockcount
        memorylimit p a o r q m enough in
    let chunksize =
      (calculate_process_block_size blocksize recoveryblockcount sourceblockcount
        memorylimit).chunksize in
    let bound : blocksize < 2 ^ 64 = omega (
      arith,
      scale_pos blocksize buffers (buffer_count-pos recoveryblockcount sourceblockcount q),
    ) in
    let (chunks, e, tiles) =
      chunks_from-Tiles blocksize blocksize chunksize 0 size.positive bound (omega arith)
        (omega arith) in
    record {
      positive = size.positive;
      aligned = size.aligned;
      within = size.within;
      capped = capped;
      affordable = size.affordable;
      chunks = chunks;
      processed = e;
      tiles = tiles;
    }
