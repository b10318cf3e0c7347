-- ===== src/ReedSolomon/Process/Words.antt =====
-- A word of four products is the four products.
use mathlib.Core.Path.{ap₂}
use par2cmdline_turbo.Prelude.{
  ℕ, zero, suc, ◌+◌, ◌*◌, ◌/◌, ◌%◌, ◌^◌, ◌<◌, ◌≡◌, refl, ap, sym, ◌∙◌, bit_xor, List, [], ◌∷◌, ◌++◌,
  get_or, length, take, drop, take-append, drop-past, arith,
}
use par2cmdline_turbo.Bits.Xor.{xor_fields, xor_comm}
use par2cmdline_turbo.Bits.Shift.{xor-div, xor-mod}
use par2cmdline_turbo.Crc.Bitwise.{AllBytes}
use par2cmdline_turbo.Letype.{byte_of, byte_in, put_leu32, get_leu32, byte_of_lem, get_leu32_sum}
use par2cmdline_turbo.Galois.{galois_mul}
use par2cmdline_turbo.Galois.Arithmetic.{mul-lt}
use par2cmdline_turbo.ReedSolomon.Process.{
  fill_products, fill_tables, long_multiply_table, factor_table, process_word,
}

length-fill_products : (ii jj rounds : ℕ) → length (fill_products ii jj rounds) ≡ rounds
unfolding fill_products
length-fill_products ii jj zero = refl
length-fill_products ii jj (suc rounds) = ap suc (length-fill_products ii (jj + 1) rounds)

get_or-fill_products :
    (ii jj rounds k : ℕ)
    → k < rounds
    → get_or (fill_products ii jj rounds) k 0 ≡ galois_mul ii (jj + k)
unfolding fill_products
get_or-fill_products ii jj zero k h = absurd (omega arith)
get_or-fill_products ii jj (suc rounds) zero h = ap (galois_mul ii) (omega arith)
get_or-fill_products ii jj (suc rounds) (suc k) h =
    get_or-fill_products ii (jj + 1) rounds k (omega arith) ∙ ap (galois_mul ii) (omega arith)

next_tables :
    (ii rounds : ℕ)
    → fill_tables ii (suc rounds) ≡ fill_products ii 0 256 ++ fill_tables (ii + 1) rounds
unfolding fill_tables
next_tables ii rounds = refl

-- The part of the table that belongs to a factor.
drop-fill_tables :
    (ii rounds k : ℕ)
    → k < rounds
    → take 256 (drop (k * 256) (fill_tables ii rounds)) ≡ fill_products (ii + k) 0 256
drop-fill_tables ii zero k h = absurd (omega arith)
drop-fill_tables ii (suc rounds) zero h =
    ap (take 256) (next_tables ii rounds)
    ∙ take-append 256 (fill_products ii 0 256) (fill_tables (ii + 1) rounds)
        (length-fill_products ii 0 256)
    ∙ ap (λ (t : ℕ). fill_products t 0 256) (omega arith)
drop-fill_tables ii (suc rounds) (suc k) h =
    ap (λ (t : List ℕ). take 256 (drop (suc k * 256) t)) (next_tables ii rounds)
    ∙ ap (take 256) (
        drop-past (suc k * 256) (k * 256) (fill_products ii 0 256) (fill_tables (ii + 1) rounds)
          (omega (arith, length-fill_products ii 0 256)))
    ∙ drop-fill_tables (ii + 1) rounds k (omega arith)
    ∙ ap (λ (t : ℕ). fill_products t 0 256) (omega arith)

-- The table of a factor holds its products.
pub get_or-factor_table :
    (factor s : ℕ) → factor < 256 → s < 256 → get_or (factor_table factor) s 0 ≡ galois_mul factor s
unfolding factor_table long_multiply_table
get_or-factor_table factor s h k =
    ap (λ (t : ℕ). get_or (take 256 (drop (t * 256) (fill_tables 0 256))) s 0) (omega arith)
    ∙ ap (λ (l : List ℕ). get_or l s 0) (drop-fill_tables 0 256 factor h)
    ∙ get_or-fill_products (0 + factor) 0 256 s k
    ∙ ap₂ galois_mul (plain factor) (plain s)
  where
    plain : (n : ℕ) → 0 + n ≡ n
    plain n = omega arith

-- The bytes of a word
byte_of-xor :
    (a b shift : ℕ) → byte_of (bit_xor a b) shift ≡ bit_xor (byte_of a shift) (byte_of b shift)
byte_of-xor a b shift =
    byte_of_lem (bit_xor a b) shift
    ∙ ap (λ (t : ℕ). t % 2 ^ 8) (xor-div shift a b)
    ∙ xor-mod 8 (a / 2 ^ shift) (b / 2 ^ shift)
    ∙ sym (ap₂ bit_xor (byte_of_lem a shift) (byte_of_lem b shift))

record Quarters (v a b c d : ℕ) : Type 0 where
  first : byte_of v 0 ≡ a
  second : byte_of v 8 ≡ b
  third : byte_of v 16 ≡ c
  fourth : byte_of v 24 ≡ d

sum_bytes :
    (v a b c d : ℕ)
    → a < 2 ^ 8
    → b < 2 ^ 8
    → c < 2 ^ 8
    → d < 2 ^ 8
    → v ≡ a + b * 2 ^ 8 + c * 2 ^ 16 + d * 2 ^ 24
    → Quarters v a b c d
sum_bytes v a b c d p q r s h = record {
  first = byte_of_lem v 0 ∙ omega arith;
  second = byte_of_lem v 8 ∙ omega arith;
  third = byte_of_lem v 16 ∙ omega arith;
  fourth = byte_of_lem v 24 ∙ omega arith;
}

read_bytes :
    (a b c d : ℕ) (rest : List ℕ)
    → a < 2 ^ 8
    → b < 2 ^ 8
    → c < 2 ^ 8
    → d < 2 ^ 8
    → Quarters (get_leu32 (a ∷ b ∷ c ∷ d ∷ rest)) a b c d
read_bytes a b c d rest p q r s =
    sum_bytes (get_leu32 (a ∷ b ∷ c ∷ d ∷ rest)) a b c d p q r s
      (get_leu32_sum (a ∷ b ∷ c ∷ d ∷ rest) ∙ (unfold byte_in in omega arith))

put_bytes : (v a b c d : ℕ) → Quarters v a b c d → put_leu32 v ≡ a ∷ b ∷ c ∷ d ∷ []
put_bytes v a b c d h =
    four
    ∙ ap₂ (λ (x y : ℕ). x ∷ y ∷ byte_of v 16 ∷ byte_of v 24 ∷ []) h.first h.second
    ∙ ap₂ (λ (x y : ℕ). a ∷ b ∷ x ∷ y ∷ []) h.third h.fourth
  where
    four : put_leu32 v ≡ byte_of v 0 ∷ byte_of v 8 ∷ byte_of v 16 ∷ byte_of v 24 ∷ []
    four = unfold put_leu32 byte_of in refl

xor_bytes :
    (v w a b c d e f g h : ℕ)
    → Quarters v a b c d
    → Quarters w e f g h
    → Quarters (bit_xor v w) (bit_xor a e) (bit_xor b f) (bit_xor c g) (bit_xor d h)
xor_bytes v w a b c d e f g h x y = record {
  first = byte_of-xor v w 0 ∙ ap₂ bit_xor x.first y.first;
  second = byte_of-xor v w 8 ∙ ap₂ bit_xor x.second y.second;
  third = byte_of-xor v w 16 ∙ ap₂ bit_xor x.third y.third;
  fourth = byte_of-xor v w 24 ∙ ap₂ bit_xor x.fourth y.fourth;
}

field_sum :
    (low q k : ℕ)
    → q * 2 ^ k < 2 ^ 32
    → low < 2 ^ k
    → bit_xor low (q * 2 ^ k % 2 ^ 32) ≡ low + q * 2 ^ k
field_sum low q k h l =
    let same : q * 2 ^ k % 2 ^ 32 ≡ q * 2 ^ k = omega arith in
    ap (bit_xor low) same ∙ xor_comm low (q * 2 ^ k) ∙ xor_fields k q low l ∙ omega arith

-- The products, shifted into place, make up a word.
joined_sum :
    (a b c d : ℕ)
    → a < 2 ^ 8
    → b < 2 ^ 8
    → c < 2 ^ 8
    → d < 2 ^ 8
    → bit_xor (bit_xor (bit_xor a (b * 2 ^ 8 % 2 ^ 32)) (c * 2 ^ 16 % 2 ^ 32)) (d * 2 ^ 24 % 2 ^ 32)
      ≡ a + b * 2 ^ 8 + c * 2 ^ 16 + d * 2 ^ 24
joined_sum a b c d p q r s = rw (
  field_sum a b 8 (omega arith) p,
  field_sum (a + b * 2 ^ 8) c 16 (omega arith) (omega arith),
  field_sum (a + b * 2 ^ 8 + c * 2 ^ 16) d 24 (omega arith) (omega arith),
)

-- Four bytes, of the input buffer and of the output buffer, and what follows them.
module _ (factor a b c d e f g h : ℕ) (src dst : List ℕ) where
  pub process_word_lem :
      factor < 256
      → AllBytes (a ∷ b ∷ c ∷ d ∷ [])
      → AllBytes (e ∷ f ∷ g ∷ h ∷ [])
      → put_leu32 (
          process_word
            (factor_table factor)
            (get_leu32 (a ∷ b ∷ c ∷ d ∷ src))
            (get_leu32 (e ∷ f ∷ g ∷ h ∷ dst)))
        ≡ bit_xor e (galois_mul factor a)
          ∷ bit_xor f (galois_mul factor b)
          ∷ bit_xor g (galois_mul factor c)
          ∷ bit_xor h (galois_mul factor d)
          ∷ []
  unfolding process_word
  process_word_lem k x y =
      let source = read_bytes a b c d src x.0 x.1.0 x.1.1.0 x.1.1.1.0 in
      let old = read_bytes e f g h dst y.0 y.1.0 y.1.1.0 y.1.1.1.0 in
      let p = mul-lt factor a k x.0 in
      let q = mul-lt factor b k x.1.0 in
      let r = mul-lt factor c k x.1.1.0 in
      let s = mul-lt factor d k x.1.1.1.0 in
      let new =
        sum_bytes _ (galois_mul factor a) (galois_mul factor b) (galois_mul factor c)
          (galois_mul factor d) p q r s
          (joined_sum (galois_mul factor a) (galois_mul factor b) (galois_mul factor c)
            (galois_mul factor d) p q r s) in
      rw
        (
          source.first,
          source.second,
          source.third,
          source.fourth,
          get_or-factor_table factor a k x.0,
          get_or-factor_table factor b k x.1.0,
          get_or-factor_table factor c k x.1.1.0,
          get_or-factor_table factor d k x.1.1.1.0,
        )
        (put_bytes _ _ _ _ _ (
          xor_bytes (get_leu32 (e ∷ f ∷ g ∷ h ∷ dst)) _ e f g h (galois_mul factor a)
            (galois_mul factor b) (galois_mul factor c) (galois_mul factor d) old new))
