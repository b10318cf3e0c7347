-- ===== src/HashTable/Table/Laws.antt =====
-- A table of buckets is one map from checksum and hash to a list of entries.
use native.Mathlib.Nat.{pow-suc, one-le-pow, pow-le-pow_right, mod-lt}
use native.Mathlib.Decide.{ℕ_discrete}
use par2cmdline_turbo.Prelude.{
  ℕ, zero, suc, ◌+◌, ◌*◌, ◌^◌, ◌≤◌, ◌<◌, bit_and, ◌≡◌, ◌≢◌, ◌⊎◌, refl, ap, ◌∙◌, true, false, ◌&&◌,
  List, [], ◌∷◌, ◌++◌, append-nil, ltb, length, length-set, length-replicate, get_or-replicate,
  get_or-set_self, get_or-set_ne, arith, Bool-cases, inl, inr,
}
use par2cmdline_turbo.Bits.{bit_and_mask}
use par2cmdline_turbo.Md5Hash.{Md5Hash, value-lt}
use par2cmdline_turbo.HashTable.Tree.{Entry, empty, insert, search_crc, search_hash, chain, entries}
use par2cmdline_turbo.HashTable.Chains.{rank_of, IsOrdered, matching}
use par2cmdline_turbo.HashTable.Lookup.{chain-search_hash-search_crc}
use par2cmdline_turbo.HashTable.Insert.{insert-IsOrdered, matching-insert}
use par2cmdline_turbo.HashTable.Table.{Table, grow, table_size, set_limit, bucket, insert_entry}

pow-lt : (k : ℕ) → k < 16 → 2 ^ k < 65536
pow-lt k h = omega (
  arith,
  pow-suc 2 k,
  one-le-pow k 2 (omega arith),
  pow-le-pow_right {n = 2} (omega arith) {i = suc k} {j = 16} h,
)

-- Above every rank of an entry with a checksum of 32 bits.
pub top : ℕ
top = 2 ^ 32 * 256 ^ 16

rank-lt-top : (crc : ℕ) (hash : Md5Hash) → crc < 2 ^ 32 → rank_of crc hash < top
unfolding top rank_of
rank-lt-top crc hash h = omega (arith, value-lt hash)

-- The mask stays in the array, and every bucket is a search tree.
pub record IsTable (t : Table) : Type 0 where
  pub in_range : (crc : ℕ) → bit_and crc t.hashmask < length t.hashtable
  pub ordered : (crc : ℕ) → IsOrdered 0 top (bucket t crc)

-- What the two searches of `FindMatch` find, as a list.
unfoldable pub find_all : Table → ℕ → Md5Hash → List Entry
find_all t crc hash = chain (search_hash (search_crc (bucket t crc) crc) hash)

find_all_lem :
    {t : Table} (crc : ℕ) (hash : Md5Hash)
    → IsTable t
    → find_all t crc hash ≡ matching crc hash (entries (bucket t crc))
unfolding find_all
find_all_lem {t} crc hash v =
    chain-search_hash-search_crc crc hash 0 top (bucket t crc) (v.ordered crc)

-- `n` is the first of the powers of two from `2 ^ k` to `2 ^ 16` that reaches `limit`, or the
-- last of them.
pub record IsSize (k limit n : ℕ) : Type 0 where
  pub exponent : ℕ
  pub least : k ≤ exponent
  pub most : exponent ≤ 16
  pub power : n ≡ 2 ^ exponent
  pub enough : (limit ≤ n) ⊎ (exponent ≡ 16)
  pub first : (i : ℕ) → k ≤ i → i < exponent → 2 ^ i < limit

grow-IsSize : (fuel limit k : ℕ) → k ≤ 16 → 16 < fuel + k → IsSize k limit (grow fuel limit (2 ^ k))
unfolding grow
grow-IsSize zero limit k hi enough = absurd (omega arith)
grow-IsSize (suc fuel) limit k hi enough =
    elim (Bool-cases (ltb (2 ^ k) limit && ltb (2 ^ k) 65536)) [
      | inr stop ↦ rw stop (record {
        exponent = k;
        least = omega arith;
        most = hi;
        power = refl;
        enough = stopped stop (ℕ_discrete k 16);
        first = λ i p q. absurd (omega arith);
      })
      | inl more ↦
          let below : k ≢ 16 = λ e. not_last e more in
          let r = grow-IsSize fuel limit (suc k) (omega arith) (omega arith) in
          rw (more, ← pow-suc 2 k)
            (record {
              exponent = r.exponent;
              least = omega (arith, r.least);
              most = r.most;
              power = r.power;
              enough = r.enough;
              first = λ i p q. elim (ℕ_discrete i k) [
                | yes e ↦ rw e (ground arith)
                | no ne ↦ r.first i (omega arith) q
              ];
            })
    ]
  where
    not_last : k ≡ 16 → (ltb (2 ^ k) limit && ltb (2 ^ k) 65536) ≡ true → ⊥
    not_last e h = ground (arith, ap (λ (t : ℕ). 2 ^ t) e)

    stopped :
        (ltb (2 ^ k) limit && ltb (2 ^ k) 65536) ≡ false → Dec (k ≡ 16) → (limit ≤ 2 ^ k) ⊎ (k ≡ 16)
    stopped h (yes e) = inr e
    stopped h (no ne) = inl (ground (arith, pow-lt k (omega arith)))

-- The number of buckets that `SetLimit` picks: the first power of two from 256 on that reaches
-- the limit, but at most 65536.
pub table_size-IsSize : (limit : ℕ) → IsSize 8 limit (table_size limit)
unfolding table_size
table_size-IsSize limit = grow-IsSize 9 limit 8 (omega arith) (omega arith)

-- `SetLimit` makes a table without entries.
pub set_limit-IsTable : (limit : ℕ) → IsTable (set_limit limit)
unfolding set_limit bucket
set_limit-IsTable limit =
    let r = table_size-IsSize limit in
    record {
      in_range = λ crc.
          rw (length-replicate, r.power, bit_and_mask)
            (mod-lt crc (one-le-pow r.exponent 2 (omega arith)));
      ordered = λ crc. rw get_or-replicate tt;
    }

pub find_all-set_limit : (limit crc : ℕ) (hash : Md5Hash) → find_all (set_limit limit) crc hash ≡ []
find_all-set_limit limit crc hash =
    find_all_lem crc hash (set_limit-IsTable limit)
    ∙ (unfold set_limit bucket entries matching in rw get_or-replicate)

module _ (e : Entry) {t : Table} (v : IsTable t) (small : e.crc < 2 ^ 32) where
  -- The bucket of the entry has it inserted, and the others are as they were.
  bucket-insert_entry :
      (crc : ℕ)
      → (bucket (insert_entry e t) crc ≡ insert e (bucket t crc))
        ⊎ ((bucket (insert_entry e t) crc ≡ bucket t crc) × (e.crc ≢ crc))
  unfolding bucket insert_entry
  bucket-insert_entry crc =
      let mask = t.hashmask in
      elim (ℕ_discrete (bit_and e.crc mask) (bit_and crc mask)) [
        | yes same ↦ inl (rw (← same, get_or-set_self t.hashtable _ _ empty (v.in_range e.crc)))
        | no other ↦ inr (
          get_or-set_ne t.hashtable _ _ _ empty other,
          λ same. other (ap (λ (c : ℕ). bit_and c mask) same),
        )
      ]

  pub insert_entry-IsTable : IsTable (insert_entry e t)
  insert_entry-IsTable = record {
    in_range = λ crc. unfold insert_entry in rw length-set (v.in_range crc);
    ordered = λ crc. elim (bucket-insert_entry crc) [
      | inl here ↦ rw here (
          insert-IsOrdered 0 top e (bucket t crc) (omega arith) (rank-lt-top e.crc e.hash small)
            (v.ordered crc))
      | inr away ↦ rw away.0 (v.ordered crc)
    ];
  }

  pub find_all-insert_entry :
      (crc : ℕ) (hash : Md5Hash)
      → find_all (insert_entry e t) crc hash ≡ find_all t crc hash ++ matching crc hash (e ∷ [])
  find_all-insert_entry crc hash =
      rw (find_all_lem crc hash insert_entry-IsTable, find_all_lem crc hash v)
        (elim (bucket-insert_entry crc) [
          | inl here ↦ rw here (matching-insert crc hash e 0 top (bucket t crc) (v.ordered crc))
          | inr away ↦ rw (away.0, other_crc away.1, append-nil)
        ])
    where
      other_crc : e.crc ≢ crc → matching crc hash (e ∷ []) ≡ []
      other_crc ne = unfold matching in ground arith
