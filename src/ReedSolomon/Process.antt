-- ===== src/ReedSolomon/Process.antt =====
-- `InternalProcess` of src/reedsolomon.cpp for `Galois8`, where `LONGMULTIPLY` is defined, on a
-- little-endian host: a buffer is multiplied by a factor, four bytes at a time, by a table of
-- products.
pub mod Words
pub mod Buffers
use par2cmdline_turbo.Prelude.{
  ℕ, zero, suc, ◌+◌, ◌*◌, ◌/◌, ◌%◌, ◌^◌, bit_xor, List, [], ◌∷◌, ◌++◌, get_or, length, take, drop,
}
use par2cmdline_turbo.Letype.{byte_of, put_leu32, get_leu32}
use par2cmdline_turbo.Galois.{galois_mul}

-- The inner loop of the constructor of `GaloisLongMultiplyTable`, with `rounds` rounds left.
unfoldable pub fill_products : ℕ → ℕ → ℕ → List ℕ
fill_products ii jj zero = []
fill_products ii jj (suc rounds) = galois_mul ii jj ∷ fill_products ii (jj + 1) rounds

-- The loop over `ii`; `Bytes` is 1.
unfoldable pub fill_tables : ℕ → ℕ → List ℕ
fill_tables ii zero = []
fill_tables ii (suc rounds) = fill_products ii 0 256 ++ fill_tables (ii + 1) rounds

-- `glmt->tables`
unfoldable pub long_multiply_table : List ℕ
long_multiply_table = fill_tables 0 256

-- The table `L` of a factor.
unfoldable pub factor_table : ℕ → List ℕ
factor_table factor = take 256 (drop ((factor % 2 ^ 8) * 256) long_multiply_table)

-- `*dst4++ ^= …`
unfoldable pub process_word : List ℕ → ℕ → ℕ → ℕ
process_word l s d = bit_xor d (
    bit_xor
      (bit_xor (bit_xor (get_or l (byte_of s 0) 0) (get_or l (byte_of s 8) 0 * 2 ^ 8 % 2 ^ 32))
        (get_or l (byte_of s 16) 0 * 2 ^ 16 % 2 ^ 32))
      (get_or l (byte_of s 24) 0 * 2 ^ 24 % 2 ^ 32))

-- `*dst1++ ^= L[s]`
unfoldable pub process_bytes : List ℕ → List ℕ → List ℕ → List ℕ
process_bytes l [] dst = dst
process_bytes l (s ∷ src) [] = []
process_bytes l (s ∷ src) (d ∷ dst) = bit_xor d (get_or l s 0) ∷ process_bytes l src dst

-- The loop over words, with `words` words left, and the loop over the bytes behind them.
unfoldable pub process_words : List ℕ → ℕ → List ℕ → List ℕ → List ℕ
unfolding process_word process_bytes
process_words l zero src dst = process_bytes l src dst
process_words l (suc words) src dst =
    put_leu32 (process_word l (get_leu32 src) (get_leu32 dst))
    ++ process_words l words (drop 4 src) (drop 4 dst)

-- `InternalProcess`: the output buffer behind the call; the size is that of the input buffer.
unfoldable pub internal_process : ℕ → List ℕ → List ℕ → List ℕ
unfolding process_words factor_table
internal_process factor src dst = process_words (factor_table factor) (length src / 4) src dst

-- The same byte by byte.
abbrev pub add_product : ℕ → List ℕ → List ℕ → List ℕ
add_product factor [] dst = dst
add_product factor (s ∷ src) [] = []
add_product factor (s ∷ src) (d ∷ dst) =
    bit_xor d (galois_mul factor s) ∷ add_product factor src dst
