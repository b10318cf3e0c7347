-- ===== src/HashTable/Lookup.antt =====
-- The two searches one after the other, as `FindMatch` makes them: by the checksum from the
-- root, then by the hash from the entry found.
use par2cmdline_turbo.Prelude.{
  ℕ, suc, ◌<◌, ◌≡◌, refl, List, ap, sym, ◌∙◌, ltb, if◌then◌else◌, arith, compared, lt, eq, gt,
  lt→ltb, le→ltb,
}
use par2cmdline_turbo.Md5Hash.{Md5Hash, value-lt}
use par2cmdline_turbo.HashTable.Tree.{
  Entry, Tree, empty, node, search_crc, search_from, search_hash, chain, entries,
}
use par2cmdline_turbo.HashTable.Chains.{
  rank_of, rank, IsOrdered, matching, matching_right, matching_left, chain-search_from,
}

rank-lt : (c d : ℕ) (g h : Md5Hash) → c < d → rank_of c g < rank_of d h
unfolding rank_of
rank-lt c d g h p = grind (arith, value-lt)

search_crc-node :
    (e : Entry) (same : List Entry) (left right : Tree) (crc : ℕ)
    → search_crc (node e same left right) crc ≡ (
        if ltb e.crc crc
        then search_crc right crc
        else if ltb crc e.crc
        then search_crc left crc
        else node e same left right)
unfolding search_crc
search_crc-node e same left right crc = refl

-- `t` is empty, or its root has the checksum `crc`.
abbrev IsAt : ℕ → Tree → Type 0
IsAt crc empty = Unit
IsAt crc (node e same left right) = e.crc ≡ crc

-- What the search for `crc` in `t` ends at: an ordered subtree with `crc` at its root that
-- still has every entry of that checksum.
record Narrows (crc : ℕ) (hash : Md5Hash) (t found : Tree) : Type 0 where
  from : ℕ
  to : ℕ
  ordered : IsOrdered from to found
  at_crc : IsAt crc found
  keeps : matching crc hash (entries found) ≡ matching crc hash (entries t)

module _ (crc : ℕ) (hash : Md5Hash) where
  search_crc-Narrows :
      (lo hi : ℕ) (t : Tree) → IsOrdered lo hi t → Narrows crc hash t (search_crc t crc)
  search_crc-Narrows lo hi empty o =
      unfold search_crc in record { from = lo; to = hi; ordered = tt; at_crc = tt; keeps = refl }
  search_crc-Narrows lo hi (node e same left right) o = elim (compared e.crc crc) [
    | lt h ↦
        let r = search_crc-Narrows (suc (rank e)) hi right o.4 in
        let away =
          matching_right crc hash lo hi e same left right o (rank-lt e.crc crc e.hash hash h) in
        rw (search_crc-node e same left right crc, lt→ltb e.crc crc h)
          (record {
            from = r.from;
            to = r.to;
            ordered = r.ordered;
            at_crc = r.at_crc;
            keeps = r.keeps ∙ sym away;
          })
    | gt h ↦
        let r = search_crc-Narrows lo (rank e) left o.3 in
        let away =
          matching_left crc hash lo hi e same left right o (rank-lt crc e.crc hash e.hash h) in
        rw
          (
            search_crc-node e same left right crc,
            le→ltb e.crc crc (omega arith),
            lt→ltb crc e.crc h,
          )
          (record {
            from = r.from;
            to = r.to;
            ordered = r.ordered;
            at_crc = r.at_crc;
            keeps = r.keeps ∙ sym away;
          })
    | eq h ↦
        rw
          (
            search_crc-node e same left right crc,
            le→ltb e.crc crc (omega arith),
            le→ltb crc e.crc (omega arith),
          )
          (record { from = lo; to = hi; ordered = o; at_crc = h; keeps = refl })
  ]

  search_hash-IsAt :
      (found : Tree) → IsAt crc found → search_hash found hash ≡ search_from found crc hash
  search_hash-IsAt empty at = unfold search_hash search_from in refl
  search_hash-IsAt (node e same left right) at =
      unfold search_hash in ap (λ c. search_from (node e same left right) c hash) at

  -- In an ordered tree, the search for the checksum and from there for the hash ends at the node
  -- whose chain is all the entries with that checksum and hash, in their order, and at null when
  -- there is none.
  pub chain-search_hash-search_crc :
      (lo hi : ℕ) (t : Tree)
      → IsOrdered lo hi t
      → chain (search_hash (search_crc t crc) hash) ≡ matching crc hash (entries t)
  chain-search_hash-search_crc lo hi t o =
      let r = search_crc-Narrows lo hi t o in
      ap chain (search_hash-IsAt (search_crc t crc) r.at_crc)
      ∙ chain-search_from crc hash r.from r.to (search_crc t crc) r.ordered
      ∙ r.keeps
