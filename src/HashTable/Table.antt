-- ===== src/HashTable/Table.antt =====
-- `VerificationHashTable`: the buckets, `SetLimit` and `Load`.
pub mod Laws
pub mod Load
use par2cmdline_turbo.Prelude.{
  ℕ, zero, suc, ◌+◌, ◌-◌, ◌*◌, bit_and, Bool, true, false, ◌&&◌, ◌==◌, Option, none, some, List, [],
  ◌∷◌, ltb, if◌then◌else◌, get_or, set, replicate, length,
}
use par2cmdline_turbo.Md5Hash.{Md5Hash}
use par2cmdline_turbo.HashTable.Tree.{Entry, Tree, empty, insert}

-- `hashtable` and `hashmask`
pub record Table : Type 0 where
  pub hashtable : List Tree
  pub hashmask : ℕ

-- `FILEVERIFICATIONENTRY`
pub record VerificationEntry : Type 0 where
  pub hash : Md5Hash
  pub crc : ℕ

-- `while (hashmask < limit && hashmask < 65536) hashmask <<= 1;`. It doubles from 256, so nine
-- rounds are more than it makes.
grow : ℕ → ℕ → ℕ → ℕ
grow zero limit hashmask = hashmask
grow (suc fuel) limit hashmask =
    let rest = grow fuel limit (hashmask * 2) in
    if ltb hashmask limit && ltb hashmask 65536 then rest else hashmask

unfoldable pub table_size : ℕ → ℕ
unfolding grow
table_size limit = grow 9 limit 256

-- `SetLimit`
unfoldable pub set_limit : ℕ → Table
set_limit limit = record {
  hashtable = replicate (table_size limit) empty;
  hashmask = table_size limit - 1;
}

-- `hashtable[crc & hashmask]`
unfoldable pub bucket : Table → ℕ → Tree
bucket t crc = get_or t.hashtable (bit_and crc t.hashmask) empty

-- `entry->Insert(&hashtable[entry->Checksum() & hashmask])`
unfoldable pub insert_entry : Entry → Table → Table
insert_entry entry t = record t {
  hashtable = set t.hashtable (bit_and entry.crc t.hashmask) (insert entry (bucket t entry.crc));
}

-- The entry that `Load` makes for block `blocknumber` of a file: entries take the addresses from
-- `ident` on, and the data blocks are numbered from the file's first. `preventry->Next(entry)`
-- is written when the next entry is made and not read before, so the entry has it at once.
unfoldable pub new_entry : ℕ → ℕ → ℕ → ℕ → VerificationEntry → List VerificationEntry → Entry
new_entry sourcefile firstblock ident blocknumber v rest = record {
  ident = ident + blocknumber;
  sourcefile = sourcefile;
  datablock = firstblock + blocknumber;
  firstblock = blocknumber == 0;
  crc = v.crc;
  hash = v.hash;
  next = elim rest [ [] ↦ none | w ∷ ws ↦ some (ident + blocknumber + 1) ];
}

-- The entries of a file from block `blocknumber` on.
unfoldable pub entries_from : ℕ → ℕ → ℕ → ℕ → List VerificationEntry → List Entry
entries_from sourcefile firstblock ident blocknumber [] = []
entries_from sourcefile firstblock ident blocknumber (v ∷ vs) =
    new_entry sourcefile firstblock ident blocknumber v vs
    ∷ entries_from sourcefile firstblock ident (blocknumber + 1) vs

-- The loop of `Load`.
load_from : ℕ → ℕ → ℕ → ℕ → List VerificationEntry → Table → Table
load_from sourcefile firstblock ident blocknumber [] t = t
load_from sourcefile firstblock ident blocknumber (v ∷ vs) t =
    load_from sourcefile firstblock ident (blocknumber + 1) vs
      (insert_entry (new_entry sourcefile firstblock ident blocknumber v vs) t)

-- `Load`
unfoldable pub load : ℕ → ℕ → ℕ → List VerificationEntry → Table → Table
unfolding load_from
load sourcefile firstblock ident vs t = load_from sourcefile firstblock ident 0 vs t
