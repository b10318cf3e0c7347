-- ===== src/Crc/Powers.antt =====
-- `GF32Multiply`, `CRCExp8` and what is built on them in src/crc.cpp: the CRC of zeros, and the
-- table by which a byte is taken out of a window.
pub mod Product
pub mod Exponents
pub mod Squares
pub mod Exp8
pub mod Zeros
pub mod Slide
use par2cmdline_turbo.Prelude.{
  ℕ, zero, suc, ◌+◌, ◌-◌, ◌*◌, ◌/◌, ◌%◌, ◌^◌, bit_and, bit_xor, ◌==◌, List, [], ◌∷◌, if◌then◌else◌,
  get_or, set, replicate,
}
use par2cmdline_turbo.Crc.{ccitt, table_entry}

-- `NEGATE32`
abbrev pub negate32 : ℕ → ℕ
negate32 n = (2 ^ 32 - n % 2 ^ 32) % 2 ^ 32

-- The loop of `GF32Multiply` with `rounds` rounds left, and the last line.
unfoldable pub multiply_rounds : ℕ → ℕ → ℕ → ℕ → ℕ → ℕ
multiply_rounds polynomial zero product a b = bit_xor product (bit_and (negate32 (b / 2 ^ 31)) a)
multiply_rounds polynomial (suc rounds) product a b =
    multiply_rounds polynomial rounds (bit_xor product (bit_and (negate32 (b / 2 ^ 31)) a))
      (bit_xor (a / 2) (bit_and polynomial (negate32 (bit_and a 1)))) (b * 2 % 2 ^ 32)

-- `GF32Multiply`
unfoldable pub gf32_multiply : ℕ → ℕ → ℕ → ℕ
unfolding multiply_rounds
gf32_multiply a b polynomial = multiply_rounds polynomial 31 0 a b

-- The loop that fills in `power`, from round `i` on.
unfoldable pub fill_power : ℕ → ℕ → ℕ → ℕ → List ℕ → List ℕ
unfolding gf32_multiply
fill_power polynomial zero i k power = power
fill_power polynomial (suc rounds) i k power =
    fill_power polynomial rounds (i + 1) (gf32_multiply k k polynomial)
      (set power (bit_and ((i + 2 ^ 32 - 3) % 2 ^ 32) 31) k)

-- `ccitttable.power`
unfoldable pub ccitt_power : List ℕ
unfolding fill_power
ccitt_power = fill_power ccitt 32 0 (0x80000000 / 2) (replicate 32 0)

-- `while (n)`, which halves `n` in each round.
unfoldable pub exp8_rounds : ℕ → ℕ → ℕ → ℕ → ℕ
unfolding gf32_multiply ccitt_power
exp8_rounds zero result power n = result
exp8_rounds (suc fuel) result power n =
    let rest =
      exp8_rounds fuel
        (if bit_and n 1 == 0
          then result
          else gf32_multiply result (get_or ccitt_power power 0) ccitt)
        (bit_and (power + 1) 31) (n / 2) in
    if n == 0 then result else rest

-- `CRCExp8`: after the remainder, `n` has at most 32 bits.
unfoldable pub crc_exp8 : ℕ → ℕ
unfolding exp8_rounds
crc_exp8 n = exp8_rounds 32 0x80000000 0 (n % 0xffffffff)

-- `CRCUpdateBlock` on zeros
unfoldable pub update_zeros : ℕ → ℕ → ℕ
unfolding crc_exp8
update_zeros crc length = gf32_multiply crc (crc_exp8 length) ccitt

-- `mask` of `GenerateWindowTable`
unfoldable pub window_mask : ℕ → ℕ
window_mask coeff =
    bit_xor (gf32_multiply (gf32_multiply 0xffffffff coeff ccitt) 0x80800000 ccitt) 0xffffffff

-- `target[i]`, as `GenerateWindowTable` fills it in.
unfoldable pub window_entry : ℕ → ℕ → ℕ
unfolding window_mask crc_exp8 table_entry
window_entry window i =
    let coeff = crc_exp8 window in
    bit_xor (gf32_multiply (table_entry ccitt i) coeff ccitt) (window_mask coeff)

-- `CRCSlideChar`
unfoldable pub slide_char : ℕ → ℕ → ℕ → ℕ → ℕ
unfolding window_entry table_entry
slide_char window crc new old =
    let inverted = bit_xor crc 0xffffffff in
    bit_xor
      (bit_xor (bit_and (inverted / 2 ^ 8) 0x00ffffff)
        (table_entry ccitt (bit_xor (inverted % 2 ^ 8) new)))
      (window_entry window old)
