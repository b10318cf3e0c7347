-- ===== src/HashTable/Match/Sound.antt =====
-- What an entry that `FindMatch` returns has to do with the window.
use par2cmdline_turbo.Prelude.{
  ℕ, Bool, true, false, ◌&&◌, not, ◌==◌, ◌≡◌, ◌⊎◌, inl, inr, refl, Option, none, some, List, [],
  ◌∷◌, arith, Bool-cases, Option-cases, subst, ap, sym, ◌∙◌,
}
use par2cmdline_turbo.Md5Hash.{Md5Hash, hash_eq}
use par2cmdline_turbo.HashTable.Tree.{
  Entry, Tree, empty, node, chain, entries, search_crc, search_hash,
}
use par2cmdline_turbo.HashTable.Chains.{IsOrdered, matching}
use par2cmdline_turbo.HashTable.Lookup.{chain-search_hash-search_crc}
use par2cmdline_turbo.HashTable.Table.{Table, bucket}
use par2cmdline_turbo.HashTable.Match.{
  Window, Blocks, Found, accept, go_on, try_suggested, single, choose, hash_used, look_from,
  look_up, find_match,
}
use par2cmdline_turbo.HashTable.Match.Choice.{
  find_first, or_else, usable, usable_of, chosen, many-eq-chosen,
}

abbrev All : (Entry → Type 0) → List Entry → Type 0
All P [] = Unit {0}
All P (e ∷ es) = P e × All P es

find_first-All :
    (P : Entry → Type 0) (p : Entry → Bool) (es : List Entry) (e : Entry)
    → All P es
    → find_first p es ≡ some e
    → P e
find_first-All P p [] e all h = absurd (ground arith)
find_first-All P p (x ∷ es) e all h = elim (Bool-cases (p x)) [
  | inl y ↦ subst P (ground arith) all.0
  | inr n ↦ find_first-All P p es e all.1 (ground arith)
]

All-matching :
    (crc : ℕ) (hash : Md5Hash) (es : List Entry)
    → All (λ e. (e.crc ≡ crc) × (hash_eq e.hash hash ≡ true)) (matching crc hash es)
unfolding matching
All-matching crc hash [] = tt
All-matching crc hash (e ∷ es) = elim (Bool-cases (e.crc == crc && hash_eq e.hash hash)) [
  | inl y ↦ rw y ((ground arith, ground arith), All-matching crc hash es)
  | inr n ↦ rw n (All-matching crc hash es)
]

or_else-some : (o p : Option Entry) (e : Entry) → or_else o p ≡ some e → (o ≡ some e) ⊎ (p ≡ some e)
or_else-some none p e h = inr h
or_else-some (some x) p e h = inl h

module _ (w : Window) (b : Blocks) where
  chosen-All :
      (P : Entry → Type 0) (sourcefile : Option ℕ) (es : List Entry) (e : Entry)
      → All P es
      → chosen w b sourcefile es ≡ some e
      → P e
  chosen-All P none es e all h = find_first-All P (usable w b) es e all h
  chosen-All P (some sourcefile) es e all h =
      elim (or_else-some (find_first (usable_of w b sourcefile) es) (find_first (usable w b) es) e
        h) [
          | inl k ↦ find_first-All P (usable_of w b sourcefile) es e all k
          | inr k ↦ find_first-All P (usable w b) es e all k
        ]

  single-eq :
      (suggested : Option Entry) (x e : Entry) → (single w b suggested x).entry ≡ some e → x ≡ e
  unfolding single
  single-eq suggested x e h = ground arith

  choose-All :
      (P : Entry → Type 0) (suggested : Option Entry) (sourcefile : Option ℕ) (es : List Entry)
      (e : Entry)
      → All P es
      → (choose w b suggested sourcefile es).entry ≡ some e
      → P e
  unfolding choose
  choose-All P suggested sourcefile [] e all h = absurd (ground arith)
  choose-All P suggested sourcefile (x ∷ []) e all h = subst P (single-eq suggested x e h) all.0
  choose-All P suggested sourcefile (x ∷ y ∷ es) e all h =
      chosen-All P sourcefile (x ∷ y ∷ es) e all
        (sym (ap (λ (f : Found). f.entry) (many-eq-chosen w b sourcefile (x ∷ y ∷ es))) ∙ h)

  -- The suggested entry is the last of its file, and the window's first bytes, as many as its
  -- block has, agree with it; or it is not taken, and the whole window agrees with it.
  abbrev pub BySuggestion : Option Entry → Entry → Type 0
  BySuggestion suggested e =
      (suggested ≡ some e)
      × ((e.next ≡ none)
            × (w.short_checksum (b.length e.datablock) ≡ e.crc)
            × (hash_eq (w.short_hash (b.length e.datablock)) e.hash ≡ true)
          ⊎ (b.is_set e.datablock ≡ false) × (e.crc ≡ w.checksum) × (hash_eq w.hash e.hash ≡ true))

  -- The hash that the table was searched for: that of the window, or the one that was already
  -- at hand from comparing the window's first bytes with a suggested last block.
  abbrev pub IsHashUsed : Option Entry → Md5Hash → Type 0
  IsHashUsed suggested hash =
      (hash ≡ w.hash)
      ⊎ ((s : Entry) × (suggested ≡ some s)
          × (s.next ≡ none)
          × (w.short_checksum (b.length s.datablock) ≡ s.crc)
          × (hash ≡ w.short_hash (b.length s.datablock)))

  abbrev pub ByTable : Option Entry → Entry → Type 0
  ByTable suggested e =
      (e.crc ≡ w.checksum)
      × ((hash : Md5Hash) × IsHashUsed suggested hash × (hash_eq e.hash hash ≡ true))

  -- What the first step decides.
  try_suggested_lem :
      (suggested : Option Entry)
      → ((e : Entry) × (try_suggested w b suggested ≡ accept e) × BySuggestion suggested e)
        ⊎ ((havehash : Option Md5Hash) × (try_suggested w b suggested ≡ go_on havehash)
            × IsHashUsed suggested (hash_used w b havehash))
  unfolding try_suggested hash_used
  try_suggested_lem none = inr (none, refl, inl refl)
  try_suggested_lem (some s) =
      let length = b.length s.datablock in
      elim (Option-cases s.next) [
        | inl last ↦ elim (Bool-cases (w.short_checksum length == s.crc)) [
          | inr n ↦ inr (none, ground arith, inl refl)
          | inl y ↦ elim (Bool-cases (hash_eq (w.short_hash length) s.hash)) [
            | inl same ↦ inl (s, ground arith, (refl, inl (last, ground arith, same)))
            | inr other ↦
                inr (
                  some (w.short_hash length),
                  ground arith,
                  inr (s, refl, last, ground arith, refl),
                )
          ]
        ]
        | inr (i, more) ↦ elim (Bool-cases (not (b.is_set s.datablock) && (s.crc == w.checksum))) [
          | inr n ↦ inr (none, ground arith, inl refl)
          | inl y ↦ elim (Bool-cases (hash_eq w.hash s.hash)) [
            | inl same ↦ inl (s, ground arith, (refl, inr (ground arith, ground arith, same)))
            | inr other ↦ inr (some w.hash, ground arith, inl refl)
          ]
        ]
      ]

  look_up-ByTable :
      (t : Table) (suggested : Option Entry) (sourcefile : Option ℕ) (havehash : Option Md5Hash)
      (lo hi : ℕ) (e : Entry)
      → IsOrdered lo hi (bucket t w.checksum)
      → (look_up w b t suggested sourcefile havehash).entry ≡ some e
      → (e.crc ≡ w.checksum) × (hash_eq e.hash (hash_used w b havehash) ≡ true)
  unfolding look_up
  look_up-ByTable t suggested sourcefile havehash lo hi e o =
      go (search_crc (bucket t w.checksum) w.checksum) (
        chain-search_hash-search_crc w.checksum (hash_used w b havehash) lo hi (bucket t w.checksum)
          o)
    where
      go :
          (start : Tree)
          → chain (search_hash start (hash_used w b havehash))
            ≡ matching w.checksum (hash_used w b havehash) (entries (bucket t w.checksum))
          → (look_from w b start suggested sourcefile havehash).entry ≡ some e
          → (e.crc ≡ w.checksum) × (hash_eq e.hash (hash_used w b havehash) ≡ true)
      go empty c h = absurd (unfold look_from in ground arith)
      go (node x same left right) c h =
          choose-All (λ e. (e.crc ≡ w.checksum) × (hash_eq e.hash (hash_used w b havehash) ≡ true))
            suggested sourcefile _ e
            (subst (All _) (sym c)
              (All-matching w.checksum (hash_used w b havehash) (entries (bucket t w.checksum))))
            (unfold look_from in h)

  -- In an ordered bucket, an entry that `FindMatch` returns is backed by the window: either it
  -- is the suggested entry, and the window's checksum and hash are those of the entry (those of
  -- the window's first bytes, when it is the last of its file); or its checksum is the window's
  -- and its hash is the one that was looked up, which is the window's hash, or the hash of the
  -- window's first bytes that was left over from trying a suggested last block.
  pub find_match_sound :
      (t : Table) (suggested : Option Entry) (sourcefile : Option ℕ) (lo hi : ℕ) (e : Entry)
      → IsOrdered lo hi (bucket t w.checksum)
      → (find_match w b t suggested sourcefile).entry ≡ some e
      → BySuggestion suggested e ⊎ ByTable suggested e
  unfolding find_match
  find_match_sound t suggested sourcefile lo hi e o h = elim (try_suggested_lem suggested) [
    | inl (s, q, p) ↦ inl (subst (BySuggestion suggested) (ground arith) p)
    | inr (havehash, q, p) ↦
        let (c, k) = look_up-ByTable t suggested sourcefile havehash lo hi e o (ground arith) in
        inr (c, (hash_used w b havehash, p, k))
  ]
