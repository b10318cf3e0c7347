-- ===== src/HashTable/Tree.antt =====
-- The nodes and the loops of `VerificationHashEntry`.
use par2cmdline_turbo.Prelude.{
  ℕ, ◌==◌, Bool, ◌&&◌, ◌||◌, Option, List, [], ◌∷◌, ◌++◌, ltb, if◌then◌else◌,
}
use par2cmdline_turbo.Md5Hash.{Md5Hash, hash_lt}

-- What an entry holds beside its links in the tree. `ident` is its address; `next` is the
-- address of the entry for the next block of the same file. The source file and the data block
-- are objects of the repairer, named by numbers here.
pub record Entry : Type 0 where
  pub ident : ℕ
  pub sourcefile : ℕ
  pub datablock : ℕ
  pub firstblock : Bool
  pub crc : ℕ
  pub hash : Md5Hash
  pub next : Option ℕ

-- A node: its entry, the list behind `same`, and the subtrees `left` and `right`.
pub data Tree : Type 0 where
  empty : Tree
  node : Entry → List Entry → Tree → Tree → Tree

-- `operator <`
unfoldable pub less : Entry → Entry → Bool
less l r = ltb l.crc r.crc || (l.crc == r.crc && hash_lt l.hash r.hash)

-- `operator >`; `hash > r.hash` is `r.hash < hash`
unfoldable pub greater : Entry → Entry → Bool
greater l r = ltb r.crc l.crc || (l.crc == r.crc && hash_lt r.hash l.hash)

-- `Insert`: down by the order, then to the end of the list of equals.
unfoldable pub insert : Entry → Tree → Tree
insert this empty = node this [] empty empty
insert this (node parent same left right) =
    let on_right = node parent same left (insert this right) in
    let on_left = node parent same (insert this left) right in
    if less parent this
    then on_right
    else if greater parent this
    then on_left
    else node parent (same ++ this ∷ []) left right

-- `Search` for a checksum
unfoldable pub search_crc : Tree → ℕ → Tree
search_crc empty crc = empty
search_crc (node entry same left right) crc =
    let on_right = search_crc right crc in
    let on_left = search_crc left crc in
    if ltb entry.crc crc
    then on_right
    else if ltb crc entry.crc
    then on_left
    else node entry same left right

-- The loop of `Search` for a hash, among entries with the checksum `crc`
unfoldable pub search_from : Tree → ℕ → Md5Hash → Tree
search_from empty crc hash = empty
search_from (node entry same left right) crc hash =
    let on_right = search_from right crc hash in
    let on_left = search_from left crc hash in
    if ltb entry.crc crc || (entry.crc == crc && hash_lt entry.hash hash)
    then on_right
    else if ltb crc entry.crc || (entry.crc == crc && hash_lt hash entry.hash)
    then on_left
    else node entry same left right

-- `Search` for a hash takes the checksum from the entry that it starts at. The source reads
-- that entry without a test, and is only called with one.
unfoldable pub search_hash : Tree → Md5Hash → Tree
unfolding search_from
search_hash empty hash = empty
search_hash (node entry same left right) hash =
    search_from (node entry same left right) entry.crc hash

-- The entries that a pointer to a node leads to by `same`, itself first.
unfoldable pub chain : Tree → List Entry
chain empty = []
chain (node entry same left right) = entry ∷ same

-- All the entries of a tree, from left to right.
unfoldable pub entries : Tree → List Entry
entries empty = []
entries (node entry same left right) = entries left ++ (entry ∷ same) ++ entries right
