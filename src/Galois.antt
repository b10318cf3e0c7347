-- ===== src/Galois.antt =====
-- `Galois8` of include/par2/galois.h: arithmetic in GF(2^8) by tables of logarithms. A `Galois8`
-- is its `value`, a u8.
pub mod Tables
pub mod Arithmetic
pub mod Polynomials
use par2cmdline_turbo.Prelude.{
  ℕ, zero, suc, ◌+◌, ◌-◌, ◌*◌, ◌/◌, ◌%◌, ◌^◌, bit_and, bit_xor, Bool, ◌==◌, ◌||◌, List, [], ◌∷◌,
  ltb, if◌then◌else◌, get_or, set, replicate,
}

-- `Count`, `Limit` and `Generator`
abbrev pub count : ℕ
count = 256

abbrev pub limit : ℕ
limit = 255

abbrev pub generator : ℕ
generator = 0x11d

-- `GaloisTable`
pub record GaloisTable : Type 0 where
  pub log : List ℕ
  pub antilog : List ℕ

-- `b <<= 1; if (b & Count) b ^= Generator;`
unfoldable pub next_power : ℕ → ℕ
next_power b = let b' = b * 2 % 2 ^ 32 in if bit_and b' count == 0 then b' else bit_xor b' generator

-- The loop of the constructor, with `rounds` rounds left.
unfoldable pub fill_table : ℕ → ℕ → ℕ → GaloisTable → GaloisTable
unfolding next_power
fill_table zero l b t = t
fill_table (suc rounds) l b t =
    fill_table rounds (l + 1) (next_power b)
      (record { log = set t.log b (l % 2 ^ 8); antilog = set t.antilog l (b % 2 ^ 8) })

-- The constructor of `GaloisTable`; the arrays of a static object begin as zeros.
unfoldable pub table : GaloisTable
unfolding fill_table
table =
    let t =
      fill_table limit 0 1 (record { log = replicate count 0; antilog = replicate count 0 }) in
    record { log = set t.log 0 limit; antilog = set t.antilog limit 0 }

-- `table.log[value]`
unfoldable pub log_of : ℕ → ℕ
unfolding table
log_of value = get_or table.log value 0

-- `table.antilog[sum]`
unfoldable pub antilog_of : ℕ → ℕ
unfolding table
antilog_of sum = get_or table.antilog sum 0

-- `operator+` and `operator-`
unfoldable pub galois_add : ℕ → ℕ → ℕ
galois_add value right = bit_xor value right

-- `operator*`
unfoldable pub galois_mul : ℕ → ℕ → ℕ
galois_mul value right =
    let sum = log_of value + log_of right in
    if (value == 0) || (right == 0)
    then 0
    else if ltb sum limit
    then antilog_of sum
    else antilog_of (sum - limit)

-- `operator/`. `sum` is an int, which is negative where the first logarithm is smaller; the assertion
-- is followed by a test that returns 0.
unfoldable pub galois_div : ℕ → ℕ → ℕ
galois_div value right =
    if value == 0
    then 0
    else if right == 0
    then 0
    else if ltb (log_of value) (log_of right)
    then antilog_of (log_of value + limit - log_of right)
    else antilog_of (log_of value - log_of right)

-- `pow`. For exponents up to 258 the index lies within the table, and a volume number is below 256;
-- where it lies behind the table, the source reads what is there, and the model gives 0.
unfoldable pub galois_pow : ℕ → ℕ → ℕ
galois_pow value right =
    let product = log_of value * right % 2 ^ 32 in
    let sum = product / 2 ^ 8 + bit_and product limit in
    if right == 0
    then 1
    else if value == 0
    then 0
    else if ltb sum limit
    then antilog_of sum
    else antilog_of (sum - limit)
