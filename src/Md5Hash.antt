-- ===== src/Md5Hash.antt =====
-- `MD5Hash` of include/par2/md5.h: sixteen bytes and their comparison. The digest itself is
-- computed by code that the library only calls, so it stays a parameter wherever it is used.
use native.Mathlib.Nat.{pow-suc}
use par2cmdline_turbo.Prelude.{
  ℕ, zero, suc, ◌+◌, ◌*◌, ◌%◌, ◌^◌, ◌<◌, ◌≡◌, refl, Bool, true, ◌&&◌, List, arith, ltb, ◌==◌,
  if◌then◌else◌, get_or,
}

-- `u8 hash[16]`
pub record Md5Hash : Type 0 where
  pub hash : List ℕ

-- `hash[index]`, a `u8`
unfoldable pub byte_at : Md5Hash → ℕ → ℕ
byte_at h index = get_or h.hash index 0 % 2 ^ 8

-- `while (index > 0 && hash[index] == other.hash[index]) index--;` and the comparison after it
lt_from : ℕ → Md5Hash → Md5Hash → Bool
lt_from zero a b = ltb (byte_at a 0) (byte_at b 0)
lt_from (suc i) a b =
    let rest = lt_from i a b in
    if byte_at a (suc i) == byte_at b (suc i)
    then rest
    else ltb (byte_at a (suc i)) (byte_at b (suc i))

-- `operator<`
unfoldable pub hash_lt : Md5Hash → Md5Hash → Bool
unfolding lt_from
hash_lt a b = lt_from 15 a b

-- `memcmp` of the first `n` bytes
same_bytes : ℕ → Md5Hash → Md5Hash → Bool
same_bytes zero a b = true
same_bytes (suc n) a b = (byte_at a n == byte_at b n) && same_bytes n a b

-- `operator==`
unfoldable pub hash_eq : Md5Hash → Md5Hash → Bool
unfolding same_bytes
hash_eq a b = same_bytes 16 a b

-- The first `n` bytes as a number, least significant first.
value_of : ℕ → Md5Hash → ℕ
value_of zero h = 0
value_of (suc n) h = byte_at h n * 256 ^ n + value_of n h

unfoldable pub value : Md5Hash → ℕ
unfolding value_of
value h = value_of 16 h

byte_at-lt : (h : Md5Hash) (i : ℕ) → byte_at h i < 256
unfolding byte_at
byte_at-lt h i = omega arith

leading_digit : (p x y a b : ℕ) → x < y → a < p → x * p + a < y * p + b
leading_digit p x y a b h k = grind arith

value_of-lt : (n : ℕ) (h : Md5Hash) → value_of n h < 256 ^ n
unfolding value_of
value_of-lt zero h = omega arith
value_of-lt (suc n) h =
    let step : byte_at h n * 256 ^ n + value_of n h < 256 * 256 ^ n + 0 =
      leading_digit (256 ^ n) (byte_at h n) 256 (value_of n h) 0 (byte_at-lt h n)
        (value_of-lt n h) in
    omega (arith, pow-suc 256 n)

-- Comparing from the byte `i` down is comparing the numbers of the first `i + 1` bytes.
lt_from_lem :
    (i : ℕ) (a b : Md5Hash) → lt_from i a b ≡ ltb (value_of (suc i) a) (value_of (suc i) b)
unfolding lt_from value_of
lt_from_lem zero a b = ground arith
lt_from_lem (suc i) a b =
    let p = 256 ^ suc i in
    let x = byte_at a (suc i) in
    let y = byte_at b (suc i) in
    let va = value_of (suc i) a in
    let vb = value_of (suc i) b in
    ground (
      arith,
      lt_from_lem i a b,
      leading_digit p x y va vb,
      leading_digit p y x vb va,
      value_of-lt (suc i) a,
      value_of-lt (suc i) b,
    )

same_bytes_lem : (n : ℕ) (a b : Md5Hash) → same_bytes n a b ≡ (value_of n a == value_of n b)
unfolding same_bytes value_of
same_bytes_lem zero a b = refl
same_bytes_lem (suc n) a b =
    let p = 256 ^ n in
    let x = byte_at a n in
    let y = byte_at b n in
    let va = value_of n a in
    let vb = value_of n b in
    ground (
      arith,
      same_bytes_lem n a b,
      leading_digit p x y va vb,
      leading_digit p y x vb va,
      value_of-lt n a,
      value_of-lt n b,
    )

-- `operator<` of two hashes is the order of the numbers that their bytes spell, the last byte
-- being the most significant, and `operator==` is the equality of those numbers.
pub hash_lt-eq-value :
    (a b : Md5Hash) → (hash_lt a b ≡ ltb (value a) (value b)) × (hash_eq a b ≡ (value a == value b))
unfolding hash_lt hash_eq value
hash_lt-eq-value a b = (lt_from_lem 15 a b, same_bytes_lem 16 a b)

pub value-lt : (h : Md5Hash) → value h < 256 ^ 16
unfolding value
value-lt h = value_of-lt 16 h
