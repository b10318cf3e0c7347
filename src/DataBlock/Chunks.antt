-- ===== src/DataBlock/Chunks.antt =====
-- A block is read in parts.
use par2cmdline_turbo.Prelude.{
  ℕ, ◌+◌, ◌^◌, ◌≤◌, ◌<◌, ◌≡◌, refl, ap, ◌∙◌, Option, some, List, ◌++◌, length, arith,
}
use par2cmdline_turbo.DataBlock.{DataBlock, read_data}
use par2cmdline_turbo.DataBlock.Windows.{data_of, window, Holds, window-add, read_data-eq-window}

-- For a file shorter than 2^64 bytes, a block whose range ends below 2^64, and two neighbouring
-- parts that begin no later than the end of the file: reading the parts one after the other gives
-- the same bytes as reading both at once, so that the size of the chunks that the data is processed
-- in does not matter.
pub read_data_in_chunks :
    (read : ℕ → ℕ → Option (List ℕ)) (content : List ℕ) (b : DataBlock) (position m n : ℕ)
    → Holds read content
    → length content < 2 ^ 64
    → b.offset + b.length < 2 ^ 64
    → b.offset + (position + m) ≤ length content
    → (first rest : List ℕ) × (read_data read (length content) b position m ≡ some first)
      × (read_data read (length content) b (position + m) n ≡ some rest)
      × (read_data read (length content) b position (m + n) ≡ some (first ++ rest))
read_data_in_chunks read content b position m n holds c l p =
    let bytes = data_of content b in
    (
      window bytes position m,
      window bytes (position + m) n,
      read_data-eq-window read content b position m holds c l (omega arith),
      read_data-eq-window read content b (position + m) n holds c l p,
      read_data-eq-window read content b position (m + n) holds c l (omega arith)
          ∙ ap some (window-add bytes position m n (position + m) (m + n) refl refl),
    )
