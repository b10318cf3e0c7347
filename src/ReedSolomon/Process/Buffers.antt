-- ===== src/ReedSolomon/Process/Buffers.antt =====
-- The loops of `InternalProcess`.
use mathlib.Core.Path.{ap₂}
use par2cmdline_turbo.Prelude.{
  ℕ, zero, suc, ◌*◌, ◌/◌, ◌<◌, ◌≤◌, ◌≡◌, refl, ap, ◌∙◌, bit_xor, List, [], ◌∷◌, ◌++◌, length, arith,
}
use par2cmdline_turbo.Crc.Bitwise.{AllBytes}
use par2cmdline_turbo.Galois.{galois_mul}
use par2cmdline_turbo.ReedSolomon.Process.{
  factor_table, process_bytes, process_words, internal_process, add_product,
}
use par2cmdline_turbo.ReedSolomon.Process.Words.{process_word_lem, get_or-factor_table}

process_bytes_lem :
    (factor : ℕ) (src dst : List ℕ)
    → factor < 256
    → AllBytes src
    → process_bytes (factor_table factor) src dst ≡ add_product factor src dst
unfolding process_bytes
process_bytes_lem factor [] dst h k = refl
process_bytes_lem factor (s ∷ src) [] h k = refl
process_bytes_lem factor (s ∷ src) (d ∷ dst) h k =
    ap₂ (λ (x : ℕ) (xs : List ℕ). bit_xor d x ∷ xs) (get_or-factor_table factor s h k.0)
      (process_bytes_lem factor src dst h k.1)

first_four :
    (a b c d : ℕ) (rest : List ℕ) → AllBytes (a ∷ b ∷ c ∷ d ∷ rest) → AllBytes (a ∷ b ∷ c ∷ d ∷ [])
first_four a b c d rest h = (h.0, (h.1.0, (h.1.1.0, (h.1.1.1.0, tt))))

process_words_lem :
    (factor words : ℕ) (src dst : List ℕ)
    → factor < 256
    → words * 4 ≤ length src
    → length dst ≡ length src
    → AllBytes src
    → AllBytes dst
    → process_words (factor_table factor) words src dst ≡ add_product factor src dst
unfolding process_words
process_words_lem factor zero src dst h n e k l = process_bytes_lem factor src dst h k
process_words_lem factor (suc words) (a ∷ b ∷ c ∷ d ∷ src) (e ∷ f ∷ g ∷ i ∷ dst) h n m k l =
    ap (λ (xs : List ℕ). xs ++ process_words (factor_table factor) words src dst)
      (process_word_lem factor a b c d e f g i src dst h (first_four a b c d src k)
        (first_four e f g i dst l))
    ∙ ap
        (λ (xs : List ℕ).
          bit_xor e (galois_mul factor a)
          ∷ bit_xor f (galois_mul factor b)
          ∷ bit_xor g (galois_mul factor c)
          ∷ bit_xor i (galois_mul factor d)
          ∷ xs)
        (process_words_lem factor words src dst h (omega arith) (omega arith) k.1.1.1.1 l.1.1.1.1)
process_words_lem factor (suc words) [] dst h n m k l = absurd (omega arith)
process_words_lem factor (suc words) (a ∷ []) dst h n m k l = absurd (omega arith)
process_words_lem factor (suc words) (a ∷ b ∷ []) dst h n m k l = absurd (omega arith)
process_words_lem factor (suc words) (a ∷ b ∷ c ∷ []) dst h n m k l = absurd (omega arith)
process_words_lem factor (suc words) (a ∷ b ∷ c ∷ d ∷ src) [] h n m k l = absurd (omega arith)
process_words_lem factor (suc words) (a ∷ b ∷ c ∷ d ∷ src) (e ∷ []) h n m k l = absurd (omega arith)
process_words_lem factor (suc words) (a ∷ b ∷ c ∷ d ∷ src) (e ∷ f ∷ []) h n m k l =
    absurd (omega arith)
process_words_lem factor (suc words) (a ∷ b ∷ c ∷ d ∷ src) (e ∷ f ∷ g ∷ []) h n m k l =
    absurd (omega arith)

-- For a factor that is a byte, and two buffers of bytes of one size, multiplying four bytes at a
-- time by the table of products adds to each byte of the output buffer the product of the factor and
-- the byte of the input buffer, whether the size is a multiple of 4 or not.
pub internal_process-eq-add_product :
    (factor : ℕ) (src dst : List ℕ)
    → factor < 256
    → length dst ≡ length src
    → AllBytes src
    → AllBytes dst
    → internal_process factor src dst ≡ add_product factor src dst
unfolding internal_process
internal_process-eq-add_product factor src dst h e k l =
    process_words_lem factor (length src / 4) src dst h (omega arith) e k l
