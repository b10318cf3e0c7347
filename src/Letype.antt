-- ===== src/Letype.antt =====
-- The little-endian fields of include/par2/letype.h, as the bytes that a file holds. On a
-- little-endian host the types are the plain integers, whose bytes in memory are the same.
use par2cmdline_turbo.Prelude.{
  ℕ, ◌+◌, ◌*◌, ◌/◌, ◌%◌, ◌^◌, ◌<◌, bit_or, bit_and, ◌≡◌, ◌∙◌, List, [], ◌∷◌, ◌++◌, arith, get_or,
}
use par2cmdline_turbo.Bits.{bit_or_fields, bit_and_mask}

-- `(unsigned char)((other >> shift) & 0xff)`
unfoldable pub byte_of : ℕ → ℕ → ℕ
byte_of other shift = bit_and (other / 2 ^ shift) 0xff % 2 ^ 8

-- `leu32::operator=`
unfoldable pub put_leu32 : ℕ → List ℕ
unfolding byte_of
put_leu32 other = byte_of other 0 ∷ byte_of other 8 ∷ byte_of other 16 ∷ byte_of other 24 ∷ []

-- `leu64::operator=`
unfoldable pub put_leu64 : ℕ → List ℕ
unfolding byte_of
put_leu64 other =
    byte_of other 0
    ∷ byte_of other 8
    ∷ byte_of other 16
    ∷ byte_of other 24
    ∷ byte_of other 32
    ∷ byte_of other 40
    ∷ byte_of other 48
    ∷ byte_of other 56
    ∷ []

-- `((unsigned char*)&value)[i]`
unfoldable pub byte_in : List ℕ → ℕ → ℕ
byte_in bytes i = get_or bytes i 0 % 2 ^ 8

-- `leu32::operator u32`
unfoldable pub get_leu32 : List ℕ → ℕ
unfolding byte_in
get_leu32 value =
    bit_or (bit_or (bit_or (byte_in value 0) (byte_in value 1 * 2 ^ 8)) (byte_in value 2 * 2 ^ 16))
      (byte_in value 3 * 2 ^ 24)

-- `leu64::operator u64`
unfoldable pub get_leu64 : List ℕ → ℕ
unfolding byte_in
get_leu64 value =
    let low = get_leu32 value in
    bit_or
      (bit_or (bit_or (bit_or low (byte_in value 4 * 2 ^ 32)) (byte_in value 5 * 2 ^ 40))
        (byte_in value 6 * 2 ^ 48))
      (byte_in value 7 * 2 ^ 56)

byte_in-lt : (bytes : List ℕ) (i : ℕ) → byte_in bytes i < 2 ^ 8
unfolding byte_in
byte_in-lt bytes i = omega arith

-- Joining bytes by `|` is adding them up by their weights.
join_leu32 :
    (a b c d : ℕ)
    → a < 2 ^ 8
    → b < 2 ^ 8
    → c < 2 ^ 8
    → bit_or (bit_or (bit_or a (b * 2 ^ 8)) (c * 2 ^ 16)) (d * 2 ^ 24)
      ≡ a + b * 2 ^ 8 + c * 2 ^ 16 + d * 2 ^ 24
join_leu32 a b c d p q r = rw (
  bit_or_fields 8 b a p,
  bit_or_fields 16 c (a + b * 2 ^ 8) (omega arith),
  bit_or_fields 24 d (a + b * 2 ^ 8 + c * 2 ^ 16) (omega arith),
)

join_leu64 :
    (low a b c d : ℕ)
    → low < 2 ^ 32
    → a < 2 ^ 8
    → b < 2 ^ 8
    → c < 2 ^ 8
    → bit_or (bit_or (bit_or (bit_or low (a * 2 ^ 32)) (b * 2 ^ 40)) (c * 2 ^ 48)) (d * 2 ^ 56)
      ≡ low + a * 2 ^ 32 + b * 2 ^ 40 + c * 2 ^ 48 + d * 2 ^ 56
join_leu64 low a b c d l p q r = rw (
  bit_or_fields 32 a low l,
  bit_or_fields 40 b (low + a * 2 ^ 32) (omega arith),
  bit_or_fields 48 c (low + a * 2 ^ 32 + b * 2 ^ 40) (omega arith),
  bit_or_fields 56 d (low + a * 2 ^ 32 + b * 2 ^ 40 + c * 2 ^ 48) (omega arith),
)

pub get_leu32_sum :
    (v : List ℕ)
    → get_leu32 v ≡ byte_in v 0 + byte_in v 1 * 2 ^ 8 + byte_in v 2 * 2 ^ 16 + byte_in v 3 * 2 ^ 24
unfolding get_leu32
get_leu32_sum v =
    join_leu32 (byte_in v 0) (byte_in v 1) (byte_in v 2) (byte_in v 3) (byte_in-lt v 0)
      (byte_in-lt v 1) (byte_in-lt v 2)

pub get_leu32-lt : (v : List ℕ) → get_leu32 v < 2 ^ 32
get_leu32-lt v =
    omega (arith, get_leu32_sum v, byte_in-lt v 0, byte_in-lt v 1, byte_in-lt v 2, byte_in-lt v 3)

pub get_leu64_sum :
    (v : List ℕ)
    → get_leu64 v
      ≡ get_leu32 v
        + byte_in v 4 * 2 ^ 32
        + byte_in v 5 * 2 ^ 40
        + byte_in v 6 * 2 ^ 48
        + byte_in v 7 * 2 ^ 56
unfolding get_leu64
get_leu64_sum v =
    join_leu64 (get_leu32 v) (byte_in v 4) (byte_in v 5) (byte_in v 6) (byte_in v 7)
      (get_leu32-lt v) (byte_in-lt v 4) (byte_in-lt v 5) (byte_in-lt v 6)

pub get_leu64-lt : (v : List ℕ) → get_leu64 v < 2 ^ 64
get_leu64-lt v = omega (
  arith,
  get_leu64_sum v,
  get_leu32-lt v,
  byte_in-lt v 4,
  byte_in-lt v 5,
  byte_in-lt v 6,
  byte_in-lt v 7,
)

pub byte_of_lem : (other shift : ℕ) → byte_of other shift ≡ other / 2 ^ shift % 2 ^ 8
unfolding byte_of
byte_of_lem other shift = omega (arith, bit_and_mask 8 (other / 2 ^ shift))

-- A 32-bit and a 64-bit number come back from the bytes that are written for them, whatever
-- bytes follow.
pub get_leu-put_leu :
    (n m : ℕ) (rest : List ℕ)
    → n < 2 ^ 32
    → m < 2 ^ 64
    → (get_leu32 (put_leu32 n ++ rest) ≡ n) × (get_leu64 (put_leu64 m ++ rest) ≡ m)
get_leu-put_leu n m rest h k = (
  get_leu32_sum (put_leu32 n ++ rest)
      ∙ (unfold put_leu32 byte_in in
          omega (arith, byte_of_lem n 0, byte_of_lem n 8, byte_of_lem n 16, byte_of_lem n 24)),
  get_leu64_sum (put_leu64 m ++ rest)
      ∙ (rw (get_leu32_sum (put_leu64 m ++ rest)) (
          unfold put_leu64 byte_in in
          omega (
            arith,
            byte_of_lem m 0,
            byte_of_lem m 8,
            byte_of_lem m 16,
            byte_of_lem m 24,
            byte_of_lem m 32,
            byte_of_lem m 40,
            byte_of_lem m 48,
            byte_of_lem m 56,
          ))),
)
