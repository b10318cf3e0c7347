-- ===== src/Crc/Powers/Zeros.antt =====
-- `CRCUpdateBlock` of src/crc.cpp, for a block of zeros.
use par2cmdline_turbo.Prelude.{
  ℕ, zero, suc, ◌+◌, ◌*◌, ◌^◌, ◌<◌, bit_xor, ◌≡◌, ap, sym, ◌∙◌, List, [], ◌∷◌, replicate, length,
  arith,
}
use par2cmdline_turbo.Bits.Xor.{xor_comm, xor_assoc, xor-zero}
use par2cmdline_turbo.Crc.{ccitt, crc_steps, update_block}
use par2cmdline_turbo.Crc.Linear.{crc_steps-xor}
use par2cmdline_turbo.Crc.Bitwise.{bitwise, AllBytes, update_block-eq-bitwise}
use par2cmdline_turbo.Crc.Powers.{gf32_multiply, crc_exp8, update_zeros}
use par2cmdline_turbo.Crc.Powers.Product.{crc_steps-zero, crc_steps-add}
use par2cmdline_turbo.Crc.Powers.Exponents.{gf32_multiply-power}
use par2cmdline_turbo.Crc.Powers.Exp8.{crc_exp8_lem}

-- A byte more in the buffer: 8 rounds more.
pub steps_byte :
    (n a : ℕ) → crc_steps ccitt (n * 8) (crc_steps ccitt 8 a) ≡ crc_steps ccitt (suc n * 8) a
steps_byte n a =
    let e : 8 + n * 8 ≡ suc n * 8 = omega arith in
    sym (crc_steps-add ccitt 8 (n * 8) a) ∙ ap (λ (t : ℕ). crc_steps ccitt t a) e

-- What the CRC was before the buffer, and what the buffer adds to it.
pub bitwise_parts :
    (crc : ℕ) (buffer : List ℕ)
    → bitwise ccitt crc buffer
      ≡ bit_xor (crc_steps ccitt (length buffer * 8) crc) (bitwise ccitt 0 buffer)
bitwise_parts crc [] = sym (ap (λ (t : ℕ). bit_xor t 0) (crc_steps-zero ccitt crc) ∙ xor-zero crc)
bitwise_parts crc (ch ∷ buffer) =
    let n = length buffer in
    let own = crc_steps ccitt (suc n * 8) crc in
    let added = crc_steps ccitt (suc n * 8) ch in
    let rest = bitwise ccitt 0 buffer in
    let none = xor_comm 0 ch ∙ xor-zero ch in
    bitwise_parts (crc_steps ccitt 8 (bit_xor crc ch)) buffer
    ∙ ap (λ (t : ℕ). bit_xor t rest)
        (steps_byte n (bit_xor crc ch) ∙ crc_steps-xor ccitt (suc n * 8) crc ch)
    ∙ xor_assoc own added rest
    ∙ ap (bit_xor own) (
        sym (
          bitwise_parts (crc_steps ccitt 8 (bit_xor 0 ch)) buffer
          ∙ ap (λ (t : ℕ). bit_xor t rest)
              (steps_byte n (bit_xor 0 ch) ∙ ap (crc_steps ccitt (suc n * 8)) none)))

bitwise-replicate : (crc n : ℕ) → bitwise ccitt crc (replicate n 0) ≡ crc_steps ccitt (n * 8) crc
bitwise-replicate crc zero = sym (crc_steps-zero ccitt crc)
bitwise-replicate crc (suc n) =
    bitwise-replicate (crc_steps ccitt 8 (bit_xor crc 0)) n
    ∙ steps_byte n (bit_xor crc 0)
    ∙ ap (crc_steps ccitt (suc n * 8)) (xor-zero crc)

replicate-AllBytes : (n : ℕ) → AllBytes (replicate n 0)
replicate-AllBytes zero = tt
replicate-AllBytes (suc n) = (omega arith, replicate-AllBytes n)

-- Multiplying by `CRCExp8` of a length.
pub gf32_multiply-crc_exp8 :
    (a n : ℕ) → a < 2 ^ 32 → gf32_multiply a (crc_exp8 n) ccitt ≡ crc_steps ccitt (n * 8) a
gf32_multiply-crc_exp8 a n h =
    ap (λ (t : ℕ). gf32_multiply a t ccitt) (crc_exp8_lem n) ∙ gf32_multiply-power (n * 8) a h

-- For a CRC of 32 bits and every length: `CRCUpdateBlock` of a length, which multiplies by a power,
-- gives the CRC that `CRCUpdateBlock` gives for a buffer of that many zeros.
pub update_zeros-eq-update_block :
    (crc length : ℕ)
    → crc < 2 ^ 32
    → update_zeros crc length ≡ update_block ccitt crc (replicate length 0)
unfolding update_zeros
update_zeros-eq-update_block crc length h =
    gf32_multiply-crc_exp8 crc length h
    ∙ sym (bitwise-replicate crc length)
    ∙ sym
        (update_block-eq-bitwise ccitt crc (replicate length 0) (omega arith) h
          (replicate-AllBytes length)).0
