-- ===== src/Crc/Powers/Slide.antt =====
-- `GenerateWindowTable` and `CRCSlideChar` of src/crc.cpp and include/par2/crc.h.
use mathlib.Core.Path.{ap₂}
use par2cmdline_turbo.Prelude.{
  ℕ, suc, ◌+◌, ◌*◌, ◌^◌, ◌<◌, bit_xor, ◌≡◌, refl, ap, sym, ◌∙◌, List, [], ◌∷◌, ◌++◌, length, arith,
}
use par2cmdline_turbo.Bits.Xor.{xor_comm, xor_assoc, xor-zero, xor_self, xor_cancel}
use par2cmdline_turbo.Crc.{ccitt, crc_step, crc_steps, table_entry, update_char, update_block}
use par2cmdline_turbo.Crc.Linear.{exchange, crc_steps-xor}
use par2cmdline_turbo.Crc.Bitwise.{bitwise, AllBytes, update_block-eq-bitwise, update_char_lem}
use par2cmdline_turbo.Crc.Powers.{gf32_multiply, window_mask, window_entry, slide_char}
use par2cmdline_turbo.Crc.Powers.Product.{sum_of, sum_of-xor_right, crc_steps-add}
use par2cmdline_turbo.Crc.Powers.Exponents.{
  one, sum_of-one, sum_of-steps, gf32_multiply-sum_of, ccitt_steps-lt,
}
use par2cmdline_turbo.Crc.Powers.Zeros.{steps_byte, bitwise_parts, gf32_multiply-crc_exp8}

-- `~0`
abbrev ones : ℕ
ones = 0xffffffff

-- `~0 ^ CRCUpdateBlock(~0, window, buffer)`
abbrev pub crc_of : List ℕ → ℕ
crc_of buffer = bit_xor ones (update_block ccitt ones buffer)

-- A number and the same one byte on.
sum_of-byte :
    (a : ℕ) → a < 2 ^ 32 → gf32_multiply a 0x80800000 ccitt ≡ bit_xor a (crc_steps ccitt 8 a)
sum_of-byte a h =
    let parts : 0x80800000 ≡ bit_xor one (crc_steps ccitt 8 one) =
      unfold crc_steps crc_step in refl in
    gf32_multiply-sum_of a 0x80800000 h (omega arith)
    ∙ ap (sum_of ccitt 32 a) parts
    ∙ sum_of-xor_right ccitt 32 a one (crc_steps ccitt 8 one)
    ∙ ap₂ bit_xor (sum_of-one a)
        (sum_of-steps 8 a one h (omega arith) ∙ ap (crc_steps ccitt 8) (sum_of-one a))

steps_swap :
    (n a : ℕ) → crc_steps ccitt 8 (crc_steps ccitt (n * 8) a) ≡ crc_steps ccitt (suc n * 8) a
steps_swap n a =
    let e : n * 8 + 8 ≡ suc n * 8 = omega arith in
    sym (crc_steps-add ccitt (n * 8) 8 a) ∙ ap (λ (t : ℕ). crc_steps ccitt t a) e

-- What the table holds for a byte: what the byte at the start of a longer buffer adds, and what
-- `~0` in front of that buffer does more than in front of the shorter one.
window_entry_lem :
    (w c : ℕ)
    → c < 2 ^ 8
    → window_entry w c
      ≡ bit_xor
          (crc_steps ccitt (suc w * 8) c)
          (bit_xor (bit_xor (crc_steps ccitt (w * 8) ones) (crc_steps ccitt (suc w * 8) ones)) ones)
unfolding window_entry window_mask table_entry
window_entry_lem w c h =
    let held = crc_steps ccitt (w * 8) ones in
    let small = ccitt_steps-lt (w * 8) ones (omega arith) in
    ap₂ bit_xor
      (gf32_multiply-crc_exp8 (crc_steps ccitt 8 c) w (ccitt_steps-lt 8 c (omega arith))
        ∙ steps_byte w c)
      (ap (λ (t : ℕ). bit_xor t ones)
        (ap (λ (t : ℕ). gf32_multiply t 0x80800000 ccitt)
            (gf32_multiply-crc_exp8 ones w (omega arith))
          ∙ sum_of-byte held small
          ∙ ap (bit_xor held) (steps_swap w ones)))

bitwise-append :
    (crc new : ℕ) (buffer : List ℕ)
    → bitwise ccitt crc (buffer ++ (new ∷ []))
      ≡ crc_steps ccitt 8 (bit_xor (bitwise ccitt crc buffer) new)
bitwise-append crc new [] = refl
bitwise-append crc new (c ∷ buffer) = bitwise-append (crc_steps ccitt 8 (bit_xor crc c)) new buffer

length-append_one : (xs : List ℕ) (x : ℕ) → length (xs ++ (x ∷ [])) ≡ suc (length xs)
length-append_one [] x = refl
length-append_one (y ∷ xs) x = ap suc (length-append_one xs x)

append-AllBytes : (xs : List ℕ) (x : ℕ) → AllBytes xs → x < 2 ^ 8 → AllBytes (xs ++ (x ∷ []))
append-AllBytes [] x h k = (k, tt)
append-AllBytes (y ∷ xs) x h k = (h.0, append-AllBytes xs x h.1 k)

-- The old byte, and `~0` in front of it, go out.
removed :
    (x c b w o : ℕ)
    → bit_xor (bit_xor (bit_xor x c) b) (bit_xor c (bit_xor (bit_xor w x) o))
      ≡ bit_xor o (bit_xor w b)
removed x c b w o =
    let rest = bit_xor (bit_xor w x) o in
    ap (λ (t : ℕ). bit_xor t (bit_xor c rest))
      (ap (λ (t : ℕ). bit_xor t b) (xor_comm x c) ∙ xor_assoc c x b)
    ∙ exchange c (bit_xor x b) c rest
    ∙ ap (λ (t : ℕ). bit_xor t (bit_xor (bit_xor x b) rest)) (xor_self c)
    ∙ xor_comm 0 (bit_xor (bit_xor x b) rest)
    ∙ xor-zero (bit_xor (bit_xor x b) rest)
    ∙ sym (xor_assoc (bit_xor x b) (bit_xor w x) o)
    ∙ xor_comm (bit_xor (bit_xor x b) (bit_xor w x)) o
    ∙ ap (bit_xor o) (
        ap₂ bit_xor (xor_comm x b) (xor_comm w x)
        ∙ xor_assoc b x (bit_xor x w)
        ∙ ap (bit_xor b) (xor_cancel x w)
        ∙ xor_comm b w)

-- For a buffer of bytes that starts with `old`, and a further byte `new`: from the CRC of the buffer,
-- `CRCSlideChar` with the table that `GenerateWindowTable` makes for the length of the buffer gives
-- the CRC of the buffer that leaves out `old` and ends with `new`.
pub slide_char-crc_of :
    (old new : ℕ) (between : List ℕ)
    → old < 2 ^ 8
    → new < 2 ^ 8
    → AllBytes between
    → slide_char (length (old ∷ between)) (crc_of (old ∷ between)) new old
      ≡ crc_of (between ++ (new ∷ []))
unfolding slide_char update_char update_block
slide_char-crc_of old new between h k bytes =
    let n = length between in
    let w = suc n in
    let after = between ++ (new ∷ []) in
    let (before_same, before_lt) =
      update_block-eq-bitwise ccitt ones (old ∷ between) (omega arith) (omega arith) (h, bytes) in
    let (after_same, after_lt) =
      update_block-eq-bitwise ccitt ones after (omega arith) (omega arith)
        (append-AllBytes between new bytes k) in
    let crc = update_block ccitt ones (old ∷ between) in
    let inverted : bit_xor (crc_of (old ∷ between)) ones ≡ crc =
      xor_comm (crc_of (old ∷ between)) ones ∙ xor_cancel ones crc in
    let x = crc_steps ccitt (suc w * 8) ones in
    let c = crc_steps ccitt (suc w * 8) old in
    let b = bitwise ccitt 0 after in
    let o = crc_steps ccitt (w * 8) ones in
    let more : length after ≡ w = length-append_one between new in
    let longer : update_char ccitt crc new ≡ bit_xor (bit_xor x c) b =
      update_char_lem ccitt crc new before_lt
      ∙ ap (λ (t : ℕ). crc_steps ccitt 8 (bit_xor t new)) before_same
      ∙ sym (bitwise-append ones new (old ∷ between))
      ∙ bitwise_parts (crc_steps ccitt 8 (bit_xor ones old)) after
      ∙ ap (λ (t : ℕ). bit_xor (crc_steps ccitt (t * 8) (crc_steps ccitt 8 (bit_xor ones old))) b)
          more
      ∙ ap (λ (t : ℕ). bit_xor t b)
          (steps_byte w (bit_xor ones old) ∙ crc_steps-xor ccitt (suc w * 8) ones old) in
    let shorter : update_block ccitt ones after ≡ bit_xor o b =
      after_same
      ∙ bitwise_parts ones after
      ∙ ap (λ (t : ℕ). bit_xor (crc_steps ccitt (t * 8) ones) b) more in
    ap (λ (t : ℕ). bit_xor (update_char ccitt t new) (window_entry w old)) inverted
    ∙ ap₂ bit_xor longer (window_entry_lem w old h)
    ∙ removed x c b o ones
    ∙ sym (ap (bit_xor ones) shorter)
