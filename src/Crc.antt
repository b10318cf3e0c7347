-- ===== src/Crc.antt =====
-- The table-driven CRC of include/par2/crc.h and src/crc.cpp.
pub mod Linear
pub mod Bitwise
pub mod Powers
use par2cmdline_turbo.Prelude.{
  ℕ, zero, suc, ◌+◌, ◌*◌, ◌/◌, ◌%◌, ◌^◌, bit_and, bit_xor, Bool, ◌==◌, List, [], ◌∷◌, if◌then◌else◌,
}

-- `ccitttable(0xEDB88320L)`
abbrev pub ccitt : ℕ
ccitt = 0xedb88320

-- `crc = (crc >> 1) ^ ((crc & 1) ? polynomial : 0)`
unfoldable pub crc_step : ℕ → ℕ → ℕ
crc_step polynomial crc = bit_xor (crc / 2) (if bit_and crc 1 == 0 then 0 else polynomial)

-- Rounds of that.
unfoldable pub crc_steps : ℕ → ℕ → ℕ → ℕ
crc_steps polynomial zero crc = crc
crc_steps polynomial (suc rounds) crc = crc_steps polynomial rounds (crc_step polynomial crc)

-- `table[i]`, as the constructor of `crc32table` fills it in.
unfoldable pub table_entry : ℕ → ℕ → ℕ
table_entry polynomial i = crc_steps polynomial 8 i

-- The body of the loop of `CRCUpdateBlock`.
unfoldable pub update_char : ℕ → ℕ → ℕ → ℕ
update_char polynomial crc ch =
    bit_xor (bit_and (crc / 2 ^ 8) 0x00ffffff) (table_entry polynomial (bit_xor (crc % 2 ^ 8) ch))

-- `CRCUpdateBlock` on a buffer
unfoldable pub update_block : ℕ → ℕ → List ℕ → ℕ
update_block polynomial crc [] = crc
update_block polynomial crc (ch ∷ buffer) =
    update_block polynomial (update_char polynomial crc ch) buffer
