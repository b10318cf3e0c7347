-- ===== src/CriticalPacket/Order.antt =====
-- The comparison is the order of one number, so sorting by it is well defined.
use par2cmdline_turbo.Prelude.{
  ℕ, ◌+◌, ◌*◌, ◌^◌, ◌<◌, ◌≡◌, true, false, ◌==◌, ltb, if◌then◌else◌, arith, compared, lt, eq, gt,
  lt→ltb, le→ltb, take, drop, refl, sym, ◌∙◌,
}
use par2cmdline_turbo.Letype.{get_leu32-lt}
use par2cmdline_turbo.Md5Hash.{value, value-lt, hash_lt, hash_lt-eq-value}
use par2cmdline_turbo.CriticalPacket.{
  CriticalPacket, type_letter, type_value, file_id, exponent, compare_less,
}

-- The field that orders packets of the type with the value `v`.
within : ℕ → CriticalPacket → ℕ
within v p =
    if v == 1
    then value (file_id p)
    else if v == 2
    then value (file_id p)
    else if v == 4
    then exponent p
    else 0

pub rank : CriticalPacket → ℕ
rank p = let v = type_value (type_letter p) in v * 256 ^ 16 + within v p

exponent-lt : (p : CriticalPacket) → exponent p < 256 ^ 16
unfolding exponent
exponent-lt p = omega (arith, get_leu32-lt (take 4 (drop 64 p.packetdata)))

within-lt : (v : ℕ) (p : CriticalPacket) → within v p < 256 ^ 16
unfolding within
within-lt v p = ground (arith, value-lt (file_id p), exponent-lt p)

-- Packets of one type.
same_type :
    (v : ℕ) (l r : CriticalPacket)
    → (if v == 1
        then hash_lt (file_id l) (file_id r)
        else if v == 2
        then hash_lt (file_id l) (file_id r)
        else if v == 4
        then ltb (exponent l) (exponent r)
        else false)
      ≡ ltb (within v l) (within v r)
unfolding within
same_type v l r = ground (arith, (hash_lt-eq-value (file_id l) (file_id r)).0)

ltb-add : (n x y : ℕ) → ltb (n + x) (n + y) ≡ ltb x y
ltb-add n x y = ground arith

leading : (p a b x y : ℕ) → a < b → x < p → a * p + x < b * p + y
leading p a b x y h k = grind arith

-- The comparison of two values that the `switch` has produced.
by_value :
    (l r : CriticalPacket) (a b : ℕ)
    → type_value (type_letter l) ≡ a
    → type_value (type_letter r) ≡ b
    → compare_less l r ≡ ltb (a * 256 ^ 16 + within a l) (b * 256 ^ 16 + within b r)
unfolding compare_less
by_value l r a b p q = elim (compared a b) [
  | lt h ↦
      rw (p, q, lt→ltb a b h)
        (sym (lt→ltb _ _ (leading (256 ^ 16) a b (within a l) (within b r) h (within-lt a l))))
  | gt h ↦
      rw (p, q, le→ltb a b (omega arith), lt→ltb b a h)
        (sym (
          le→ltb _ _
            (omega (arith, leading (256 ^ 16) b a (within b r) (within a l) h (within-lt b r)))))
  | eq h ↦
      rw (p, q, ← h, le→ltb a a (omega arith))
        (same_type a l r ∙ sym (ltb-add (a * 256 ^ 16) (within a l) (within a r)))
]

pub compare_less-eq-rank : (l r : CriticalPacket) → compare_less l r ≡ ltb (rank l) (rank r)
unfolding rank
compare_less-eq-rank l r =
    by_value l r (type_value (type_letter l)) (type_value (type_letter r)) refl refl

-- `std::list::sort` is given a strict weak order: no packet comes before itself, the order is
-- transitive, and so is standing at the same place.
pub compare_less-IsStrictWeakOrder :
    (a b c : CriticalPacket)
    → (compare_less a a ≡ false)
      × (compare_less a b ≡ true → compare_less b c ≡ true → compare_less a c ≡ true)
      × (compare_less a b ≡ false
          → compare_less b a ≡ false
          → compare_less b c ≡ false
          → compare_less c b ≡ false
          → (compare_less a c ≡ false) × (compare_less c a ≡ false))
compare_less-IsStrictWeakOrder a b c =
    rw
      (
        compare_less-eq-rank a a,
        compare_less-eq-rank a b,
        compare_less-eq-rank b c,
        compare_less-eq-rank a c,
        compare_less-eq-rank b a,
        compare_less-eq-rank c b,
        compare_less-eq-rank c a,
      )
      (ground arith, (λ p q. ground arith), (λ p q r s. (ground arith, ground arith)))
