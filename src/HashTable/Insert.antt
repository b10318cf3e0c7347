-- ===== src/HashTable/Insert.antt =====
-- Insertion keeps the search order, and puts an entry behind those that are equal to it.
use par2cmdline_turbo.Prelude.{
  ℕ, suc, ◌≤◌, ◌<◌, ◌≡◌, refl, List, [], ◌∷◌, ◌++◌, ap, sym, ◌∙◌, append-nil, append_assoc, ltb,
  if◌then◌else◌, arith, compared, lt, eq, gt, lt→ltb, le→ltb, inl, ◌≢◌,
}
use native.Mathlib.Decide.{ℕ_discrete}
use par2cmdline_turbo.Md5Hash.{Md5Hash}
use par2cmdline_turbo.HashTable.Tree.{Entry, Tree, empty, node, insert, entries}
use par2cmdline_turbo.HashTable.Chains.{
  rank_of, rank, less-rank, greater-rank, AllRank, IsOrdered, matching, matching-append,
  matching-node, matching_outside, matching-AllRank_ne,
}

insert-node :
    (this e : Entry) (same : List Entry) (left right : Tree)
    → insert this (node e same left right) ≡ (
        if ltb (rank e) (rank this)
        then node e same left (insert this right)
        else if ltb (rank this) (rank e)
        then node e same (insert this left) right
        else node e (same ++ this ∷ []) left right)
unfolding insert
insert-node this e same left right = rw (less-rank e this, greater-rank e this)

AllRank-append :
    (k : ℕ) (es : List Entry) (this : Entry)
    → AllRank k es
    → rank this ≡ k
    → AllRank k (es ++ this ∷ [])
AllRank-append k [] this all h = (h, tt)
AllRank-append k (e ∷ es) this all h = (all.0, AllRank-append k es this all.1 h)

-- Insertion keeps a tree ordered.
pub insert-IsOrdered :
    (lo hi : ℕ) (this : Entry) (t : Tree)
    → lo ≤ rank this
    → rank this < hi
    → IsOrdered lo hi t
    → IsOrdered lo hi (insert this t)
insert-IsOrdered lo hi this empty p q o = unfold insert in (p, q, tt, tt, tt)
insert-IsOrdered lo hi this (node e same left right) p q o = elim (compared (rank e) (rank this)) [
  | lt h ↦
      rw (insert-node this e same left right, lt→ltb (rank e) (rank this) h)
        (o.0, o.1, o.2, o.3, insert-IsOrdered (suc (rank e)) hi this right h q o.4)
  | gt h ↦
      rw
        (
          insert-node this e same left right,
          le→ltb (rank e) (rank this) (omega arith),
          lt→ltb (rank this) (rank e) h,
        )
        (o.0, o.1, o.2, insert-IsOrdered lo (rank e) this left p h o.3, o.4)
  | eq h ↦
      rw
        (
          insert-node this e same left right,
          le→ltb (rank e) (rank this) (omega arith),
          le→ltb (rank this) (rank e) (omega arith),
        )
        (o.0, o.1, AllRank-append (rank e) same this o.2 (sym h), o.3, o.4)
]

move_last :
    (xs ys zs : List Entry)
    → ys ++ xs ≡ xs ++ ys
    → zs ++ xs ≡ xs ++ zs
    → xs ++ (ys ++ zs) ≡ ys ++ (zs ++ xs)
move_last xs ys zs p q =
    sym (append_assoc xs ys zs)
    ∙ ap (λ (es : List Entry). es ++ zs) (sym p)
    ∙ append_assoc ys xs zs
    ∙ ap (λ (es : List Entry). ys ++ es) (sym q)

module _ (crc : ℕ) (hash : Md5Hash) (this : Entry) where
  abbrev sought : ℕ
  sought = rank_of crc hash

  abbrev old : Tree → List Entry
  old t = matching crc hash (entries t)

  abbrev added : List Entry
  added = matching crc hash (this ∷ [])

  not_added : rank this ≢ sought → added ≡ []
  not_added ne = matching-AllRank_ne crc hash (rank this) (this ∷ []) (refl, tt) ne

  -- What stands behind the place of a new entry holds no entry that is equal to it.
  added_last :
      (lo hi : ℕ) (t : Tree) → IsOrdered lo hi t → rank this < lo → old t ++ added ≡ added ++ old t
  added_last lo hi t o h = elim (ℕ_discrete (rank this) sought) [
    | yes e ↦ rw (matching_outside crc hash lo hi t o (inl (omega arith)), append-nil)
    | no ne ↦ rw (not_added ne, append-nil)
  ]

  added_last-AllRank :
      (k : ℕ) (es : List Entry)
      → AllRank k es
      → rank this ≢ k
      → matching crc hash es ++ added ≡ added ++ matching crc hash es
  added_last-AllRank k es all h = elim (ℕ_discrete (rank this) sought) [
    | yes e ↦ rw (matching-AllRank_ne crc hash k es all (omega arith), append-nil)
    | no ne ↦ rw (not_added ne, append-nil)
  ]

  -- For any checksum and hash, and a search tree that is ordered: after an entry has been inserted,
  -- the entries of the tree that have the checksum and the hash are those that had them before,
  -- in the same order, followed by the new entry if it has them.
  pub matching-insert :
      (lo hi : ℕ) (t : Tree) → IsOrdered lo hi t → old (insert this t) ≡ old t ++ added
  matching-insert lo hi empty o = unfold insert entries matching in refl
  matching-insert lo hi (node e same left right) o = elim (compared (rank e) (rank this)) [
    | lt h ↦
        rw (insert-node this e same left right, lt→ltb (rank e) (rank this) h)
          (simp (matching-node, append_assoc, matching-insert (suc (rank e)) hi right o.4))
    | gt h ↦
        let swap_node = added_last-AllRank (rank e) (e ∷ same) (refl, o.2) (omega arith) in
        let swap_right = added_last (suc (rank e)) hi right o.4 (omega arith) in
        rw
          (
            insert-node this e same left right,
            le→ltb (rank e) (rank this) (omega arith),
            lt→ltb (rank this) (rank e) h,
          )
          (simp (matching-node, append_assoc, matching-insert lo (rank e) left o.3)
            (ap (λ (es : List Entry). old left ++ es)
              (move_last added (matching crc hash (e ∷ same)) (old right) swap_node swap_right)))
    | eq h ↦
        let swap_right = added_last (suc (rank e)) hi right o.4 (omega arith) in
        rw
          (
            insert-node this e same left right,
            le→ltb (rank e) (rank this) (omega arith),
            le→ltb (rank this) (rank e) (omega arith),
          )
          (simp (matching-node, matching-append crc hash (e ∷ same) (this ∷ []), append_assoc)
            (ap (λ (es : List Entry). old left ++ (matching crc hash (e ∷ same) ++ es))
              (sym swap_right)))
  ]
