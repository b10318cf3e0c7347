-- ===== src/HashTable/Match.antt =====
-- `VerificationHashTable::FindMatch`.
pub mod Choice
pub mod Sound
use par2cmdline_turbo.Prelude.{
  ℕ, Bool, true, false, ◌&&◌, ◌||◌, not, ◌==◌, Option, none, some, List, [], ◌∷◌, if◌then◌else◌,
}
use par2cmdline_turbo.Md5Hash.{Md5Hash, hash_eq}
use par2cmdline_turbo.HashTable.Tree.{Entry, Tree, empty, node, search_crc, search_hash, chain}
use par2cmdline_turbo.HashTable.Table.{Table, bucket}

-- What `FindMatch` asks of the `FileCheckSummer`. A `short_` answer is about the first so many
-- bytes of the window, padded with zeros.
pub record Window : Type 0 where
  pub checksum : ℕ
  pub hash : Md5Hash
  pub short_checksum : ℕ → ℕ
  pub short_hash : ℕ → Md5Hash
  pub short_block : Bool
  pub block_length : ℕ
  pub offset : ℕ
  pub diskfile : ℕ

-- What it asks of the data blocks and of the source files.
pub record Blocks : Type 0 where
  pub is_set : ℕ → Bool
  pub length : ℕ → ℕ
  pub diskfile : ℕ → ℕ
  pub has_complete_file : ℕ → Bool

-- The entry returned, `none` for null, and the flag `duplicate`.
pub record Found : Type 0 where
  pub entry : Option Entry
  pub duplicate : Bool

abbrev pub found : Entry → Found
found e = record { entry = some e; duplicate = false }

abbrev pub not_found : Found
not_found = record { entry = none; duplicate = false }

abbrev pub is_duplicate : Found
is_duplicate = record { entry = none; duplicate = true }

-- The suggested entry is accepted, or the search goes on with the hash if one was computed.
pub data Suggestion : Type 0 where
  accept : Entry → Suggestion
  go_on : Option Md5Hash → Suggestion

module _ (w : Window) (b : Blocks) where
  unfoldable pub try_suggested : Option Entry → Suggestion
  try_suggested none = go_on none
  try_suggested (some s) = elim s.next [
    | none ↦
        let length = b.length s.datablock in
        if w.short_checksum length == s.crc
        then (if hash_eq (w.short_hash length) s.hash
            then accept s
            else go_on (some (w.short_hash length)))
        else go_on none
    | some _ ↦
        if not (b.is_set s.datablock) && (s.crc == w.checksum)
        then (if hash_eq w.hash s.hash then accept s else go_on (some w.hash))
        else go_on none
  ]

  -- `checksummer.ShortBlock() && checksummer.BlockLength() != …->GetLength()`
  unfoldable pub wrong_length : Entry → Bool
  wrong_length e = w.short_block && not (w.block_length == b.length e.datablock)

  -- Taken already, or of the wrong length.
  unfoldable pub unusable : Entry → Bool
  unfolding wrong_length
  unusable e = b.is_set e.datablock || wrong_length e

  is_suggested : Option Entry → Entry → Bool
  is_suggested none e = false
  is_suggested (some s) e = e.ident == s.ident

  -- One entry has the checksum and the hash.
  unfoldable pub single : Option Entry → Entry → Found
  unfolding is_suggested wrong_length
  single suggested e =
      if b.has_complete_file e.sourcefile
      then is_duplicate
      else if wrong_length e
      then not_found
      else if e.firstblock && (w.offset == 0)
      then found e
      else if is_suggested suggested e
      then (if b.is_set e.datablock && (b.diskfile e.datablock == w.diskfile)
          then is_duplicate
          else found e)
      else if b.is_set e.datablock
      then is_duplicate
      else found e

  -- What the loop for the preferred source file ends with: its entry, or the pointer
  -- `nextentry`, which is the rest of the chain from the entry that it remembered.
  pub data Preferred : Type 0 where
    current : Entry → Preferred
    remembered : List Entry → Preferred

  is_null : List Entry → Bool
  is_null [] = true
  is_null (e ∷ es) = false

  unfoldable pub prefer : ℕ → List Entry → List Entry → Preferred
  unfolding unusable is_null
  prefer sourcefile nextentry [] = remembered nextentry
  prefer sourcefile nextentry (e ∷ es) =
      let rest =
        prefer sourcefile (if is_null nextentry && not (unusable e) then e ∷ es else nextentry)
          es in
      if not (e.sourcefile == sourcefile) || unusable e then rest else current e

  -- `while (nextentry && …) nextentry = nextentry->Same();`
  unfoldable pub first_usable : List Entry → Option Entry
  unfolding unusable
  first_usable [] = none
  first_usable (e ∷ es) = let rest = first_usable es in if unusable e then rest else some e

  -- Several entries have the checksum and the hash.
  unfoldable pub many : Option ℕ → List Entry → Found
  unfolding prefer first_usable
  many none es = record { entry = first_usable es; duplicate = false }
  many (some sourcefile) es = elim (prefer sourcefile [] es) [
    | current e ↦ found e
    | remembered rest ↦ record { entry = first_usable rest; duplicate = false }
  ]

  -- The entries with the checksum and the hash, the one found in the tree first.
  unfoldable pub choose : Option Entry → Option ℕ → List Entry → Found
  unfolding single many
  choose suggested sourcefile [] = not_found
  choose suggested sourcefile (e ∷ []) = single suggested e
  choose suggested sourcefile (e ∷ f ∷ es) = many sourcefile (e ∷ f ∷ es)

  -- `if (!havehash) hash = checksummer.Hash();`
  unfoldable pub hash_used : Option Md5Hash → Md5Hash
  hash_used none = w.hash
  hash_used (some hash) = hash

  -- From the first entry with the checksum on.
  unfoldable pub look_from : Tree → Option Entry → Option ℕ → Option Md5Hash → Found
  unfolding choose hash_used
  look_from empty suggested sourcefile havehash = not_found
  look_from (node e same left right) suggested sourcefile havehash =
      choose suggested sourcefile
        (chain (search_hash (node e same left right) (hash_used havehash)))

  unfoldable pub look_up : Table → Option Entry → Option ℕ → Option Md5Hash → Found
  unfolding look_from
  look_up t suggested sourcefile havehash =
      look_from (search_crc (bucket t w.checksum) w.checksum) suggested sourcefile havehash

  unfoldable pub find_match : Table → Option Entry → Option ℕ → Found
  unfolding try_suggested look_up
  find_match t suggested sourcefile = elim (try_suggested suggested) [
    | accept s ↦ found s
    | go_on havehash ↦ look_up t suggested sourcefile havehash
  ]
