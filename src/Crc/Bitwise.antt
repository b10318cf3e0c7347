-- ===== src/Crc/Bitwise.antt =====
-- The table does what the bits would.
use par2cmdline_turbo.Prelude.{
  ℕ, ◌*◌, ◌/◌, ◌%◌, ◌^◌, ◌<◌, bit_and, bit_xor, ◌≡◌, refl, ap, sym, ◌∙◌, List, [], ◌∷◌, arith,
}
use par2cmdline_turbo.Bits.{bit_and_mask}
use par2cmdline_turbo.Bits.Xor.{xor_assoc, xor-lt, xor_fields}
use par2cmdline_turbo.Crc.{crc_steps, table_entry, update_char, update_block}
use par2cmdline_turbo.Crc.Linear.{crc_steps-xor, crc_steps-shift, crc_steps-lt}

-- The CRC of a buffer, bit by bit: each byte is added to the low bits, and goes through 8 rounds.
abbrev pub bitwise : ℕ → ℕ → List ℕ → ℕ
bitwise polynomial crc [] = crc
bitwise polynomial crc (ch ∷ buffer) =
    bitwise polynomial (crc_steps polynomial 8 (bit_xor crc ch)) buffer

abbrev pub AllBytes : List ℕ → Type 0
AllBytes [] = Unit
AllBytes (c ∷ cs) = (c < 2 ^ 8) × AllBytes cs

pub update_char_lem :
    (polynomial crc ch : ℕ)
    → crc < 2 ^ 32
    → update_char polynomial crc ch ≡ crc_steps polynomial 8 (bit_xor crc ch)
unfolding update_char table_entry
update_char_lem polynomial crc ch h =
    let q = crc / 2 ^ 8 in
    let low = crc % 2 ^ 8 in
    let high : bit_and q 0x00ffffff ≡ q = omega (arith, bit_and_mask 24 q) in
    let parts : bit_xor (q * 2 ^ 8) low ≡ crc = omega (arith, xor_fields 8 q low (omega arith)) in
    ap (λ (t : ℕ). bit_xor t (crc_steps polynomial 8 (bit_xor low ch)))
      (high ∙ sym (crc_steps-shift polynomial 8 q))
    ∙ sym (crc_steps-xor polynomial 8 (q * 2 ^ 8) (bit_xor low ch))
    ∙ ap (crc_steps polynomial 8)
        (sym (xor_assoc (q * 2 ^ 8) low ch) ∙ ap (λ (t : ℕ). bit_xor t ch) parts)

-- For every polynomial and every CRC of 32 bits, and a buffer of bytes: `CRCUpdateBlock`, which
-- takes a byte at a time by the table, is the CRC that is computed bit by bit, and has 32 bits.
pub update_block-eq-bitwise :
    (polynomial crc : ℕ) (buffer : List ℕ)
    → polynomial < 2 ^ 32
    → crc < 2 ^ 32
    → AllBytes buffer
    → (update_block polynomial crc buffer ≡ bitwise polynomial crc buffer)
      × (update_block polynomial crc buffer < 2 ^ 32)
unfolding update_block
update_block-eq-bitwise polynomial crc [] p h bytes = (refl, h)
update_block-eq-bitwise polynomial crc (ch ∷ buffer) p h bytes =
    let next = crc_steps polynomial 8 (bit_xor crc ch) in
    let same = update_char_lem polynomial crc ch h in
    let small : next < 2 ^ 32 =
      crc_steps-lt polynomial 8 (bit_xor crc ch) p (xor-lt 32 crc ch h (omega arith)) in
    rw same (update_block-eq-bitwise polynomial next buffer p small bytes.1)
