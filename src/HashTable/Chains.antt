-- ===== src/HashTable/Chains.antt =====
-- What insertion and the two searches mean for the chains of equal entries.
use par2cmdline_turbo.Prelude.{
  ℕ, suc, ◌==◌, ◌+◌, ◌*◌, ◌^◌, ◌≤◌, ◌<◌, ◌≡◌, ◌≢◌, ◌⊎◌, append_assoc, append-nil, sym, ◌∙◌, refl,
  ◌&&◌, ◌||◌, List, [], ◌∷◌, ◌++◌, ltb, if◌then◌else◌, arith, lt→ltb, le→ltb, compared, lt, eq, gt,
  inl, inr,
}
use par2cmdline_turbo.Md5Hash.{Md5Hash, value, value-lt, hash_lt, hash_eq, hash_lt-eq-value}
use par2cmdline_turbo.HashTable.Tree.{
  Entry, Tree, empty, node, less, greater, search_from, chain, entries,
}

-- The order of the entries is that of one number: the checksum above the hash.
unfoldable pub rank_of : ℕ → Md5Hash → ℕ
rank_of crc hash = crc * 256 ^ 16 + value hash

abbrev pub rank : Entry → ℕ
rank e = rank_of e.crc e.hash

rank_lem :
    (c d : ℕ) (g h : Md5Hash)
    → (ltb c d || (c == d && hash_lt g h)) ≡ ltb (rank_of c g) (rank_of d h)
unfolding rank_of
rank_lem c d g h = ground (arith, hash_lt-eq-value g h, value-lt g, value-lt h)

greater_lem :
    (c d : ℕ) (g h : Md5Hash)
    → (ltb d c || (c == d && hash_lt h g)) ≡ ltb (rank_of d h) (rank_of c g)
unfolding rank_of
greater_lem c d g h = ground (arith, hash_lt-eq-value h g, value-lt g, value-lt h)

pub less-rank : (l r : Entry) → less l r ≡ ltb (rank l) (rank r)
unfolding less
less-rank l r = rank_lem l.crc r.crc l.hash r.hash

pub greater-rank : (l r : Entry) → greater l r ≡ ltb (rank r) (rank l)
unfolding greater
greater-rank l r = greater_lem l.crc r.crc l.hash r.hash

-- The entries with a given checksum and hash, in the order of the list.
unfoldable pub matching : ℕ → Md5Hash → List Entry → List Entry
matching crc hash [] = []
matching crc hash (e ∷ es) =
    let rest = matching crc hash es in
    if e.crc == crc && hash_eq e.hash hash then e ∷ rest else rest

eq-rank :
    (e : Entry) (crc : ℕ) (hash : Md5Hash)
    → (e.crc == crc && hash_eq e.hash hash) ≡ (rank e == rank_of crc hash)
unfolding rank_of
eq-rank e crc hash = ground (arith, hash_lt-eq-value e.hash hash, value-lt e.hash, value-lt hash)

-- All ranks of a list are `k`.
abbrev pub AllRank : ℕ → List Entry → Type 0
AllRank k [] = Unit
AllRank k (e ∷ es) = (rank e ≡ k) × AllRank k es

-- A search tree with ranks from `lo` up to, but not including, `hi`.
abbrev pub IsOrdered : ℕ → ℕ → Tree → Type 0
IsOrdered lo hi empty = Unit
IsOrdered lo hi (node e same left right) =
    (lo ≤ rank e)
    × (rank e < hi)
    × AllRank (rank e) same
    × IsOrdered lo (rank e) left
    × IsOrdered (suc (rank e)) hi right

pub chain-node :
    (e : Entry) (same : List Entry) (left right : Tree) → chain (node e same left right) ≡ e ∷ same
unfolding chain
chain-node e same left right = refl

module _ (crc : ℕ) (hash : Md5Hash) where
  abbrev pub sought : ℕ
  sought = rank_of crc hash

  pub matching-append :
      (xs ys : List Entry)
      → matching crc hash (xs ++ ys) ≡ matching crc hash xs ++ matching crc hash ys
  unfolding matching
  matching-append [] ys = refl
  matching-append (x ∷ xs) ys = ground (arith, matching-append xs ys)

  pub matching-AllRank_ne :
      (k : ℕ) (es : List Entry) → AllRank k es → k ≢ sought → matching crc hash es ≡ []
  unfolding matching
  matching-AllRank_ne k [] all ne = refl
  matching-AllRank_ne k (e ∷ es) all ne =
      ground (arith, eq-rank e crc hash, matching-AllRank_ne k es)

  pub matching-AllRank_eq :
      (k : ℕ) (es : List Entry) → AllRank k es → k ≡ sought → matching crc hash es ≡ es
  unfolding matching
  matching-AllRank_eq k [] all ne = refl
  matching-AllRank_eq k (e ∷ es) all ne =
      ground (arith, eq-rank e crc hash, matching-AllRank_eq k es)

  pub matching-node :
      (e : Entry) (same : List Entry) (left right : Tree)
      → matching crc hash (entries (node e same left right))
        ≡ matching crc hash (entries left)
          ++ (matching crc hash (e ∷ same) ++ matching crc hash (entries right))
  unfolding entries
  matching-node e same left right = simp (matching-append, append_assoc)

  -- Nothing is found out of the range of a tree.
  pub matching_outside :
      (lo hi : ℕ) (t : Tree)
      → IsOrdered lo hi t
      → (sought < lo) ⊎ (hi ≤ sought)
      → matching crc hash (entries t) ≡ []
  matching_outside lo hi empty o far = unfold matching entries in refl
  matching_outside lo hi (node e same left right) o far = rw (
    matching-node e same left right,
    matching_outside lo (rank e) left o.3 (ground arith),
    matching-AllRank_ne (rank e) (e ∷ same) (refl, o.2) (ground arith),
    matching_outside (suc (rank e)) hi right o.4 (ground arith),
  )

  module _ (lo hi : ℕ) (e : Entry) (same : List Entry) (left right : Tree)
      (o : IsOrdered lo hi (node e same left right)) where
    pub matching_right :
        rank e < sought
        → matching crc hash (entries (node e same left right)) ≡ matching crc hash (entries right)
    matching_right h = rw (
      matching-node e same left right,
      matching_outside lo (rank e) left o.3 (inr (omega arith)),
      matching-AllRank_ne (rank e) (e ∷ same) (refl, o.2) (omega arith),
    )

    pub matching_left :
        sought < rank e
        → matching crc hash (entries (node e same left right)) ≡ matching crc hash (entries left)
    matching_left h = rw (
      matching-node e same left right,
      matching_outside (suc (rank e)) hi right o.4 (inl (omega arith)),
      matching-AllRank_ne (rank e) (e ∷ same) (refl, o.2) (omega arith),
      append-nil,
    )

    pub matching_here :
        rank e ≡ sought → matching crc hash (entries (node e same left right)) ≡ e ∷ same
    matching_here h = rw (
      matching-node e same left right,
      matching_outside lo (rank e) left o.3 (inr (omega arith)),
      matching_outside (suc (rank e)) hi right o.4 (inl (omega arith)),
      matching-AllRank_eq (rank e) (e ∷ same) (refl, o.2) h,
      append-nil,
    )

  search_from-node :
      (e : Entry) (same : List Entry) (left right : Tree)
      → search_from (node e same left right) crc hash ≡ (
          if ltb (rank e) sought
          then search_from right crc hash
          else if ltb sought (rank e)
          then search_from left crc hash
          else node e same left right)
  unfolding search_from
  search_from-node e same left right =
      rw (rank_lem e.crc crc e.hash hash, greater_lem e.crc crc e.hash hash)

  -- Searching one tree by checksum and hash together.
  pub chain-search_from :
      (lo hi : ℕ) (t : Tree)
      → IsOrdered lo hi t
      → chain (search_from t crc hash) ≡ matching crc hash (entries t)
  chain-search_from lo hi empty o = unfold search_from chain matching entries in refl
  chain-search_from lo hi (node e same left right) o = elim (compared (rank e) sought) [
    | lt h ↦
        rw (search_from-node e same left right, lt→ltb (rank e) sought h)
          (chain-search_from (suc (rank e)) hi right o.4
            ∙ sym (matching_right lo hi e same left right o h))
    | gt h ↦
        rw
          (
            search_from-node e same left right,
            le→ltb (rank e) sought (omega arith),
            lt→ltb sought (rank e) h,
          )
          (chain-search_from lo (rank e) left o.3 ∙ sym (matching_left lo hi e same left right o h))
    | eq h ↦
        rw
          (
            search_from-node e same left right,
            le→ltb (rank e) sought (omega arith),
            le→ltb sought (rank e) (omega arith),
          )
          (chain-node e same left right ∙ sym (matching_here lo hi e same left right o h))
  ]
