-- ===== src/HashTable/Table/Load.antt =====
-- `Load` adds the entries of a file to the map that the table stands for.
use par2cmdline_turbo.Prelude.{
  ℕ, ◌+◌, ◌^◌, ◌<◌, ◌≡◌, sym, ◌∙◌, ap, List, [], ◌∷◌, ◌++◌, append-nil, append_assoc,
}
use par2cmdline_turbo.Md5Hash.{Md5Hash}
use par2cmdline_turbo.HashTable.Tree.{Entry}
use par2cmdline_turbo.HashTable.Chains.{matching, matching-append}
use par2cmdline_turbo.HashTable.Table.{
  Table, VerificationEntry, insert_entry, new_entry, entries_from, load, load_from,
}
use par2cmdline_turbo.HashTable.Table.Laws.{
  IsTable, find_all, find_all-insert_entry, insert_entry-IsTable,
}

-- The checksums are those of 32-bit fields.
abbrev pub AllSmall : List VerificationEntry → Type 0
AllSmall [] = Unit
AllSmall (v ∷ vs) = (v.crc < 2 ^ 32) × AllSmall vs

-- The table stands for the old map with `es` behind it.
record Extends (t : Table) (es : List Entry) (t' : Table) : Type 0 where
  valid : IsTable t'
  reads :
      (crc : ℕ) (hash : Md5Hash)
      → find_all t' crc hash ≡ find_all t crc hash ++ matching crc hash es

module _ (sourcefile firstblock ident : ℕ) where
  load_from-Extends :
      (blocknumber : ℕ) (vs : List VerificationEntry) (t : Table)
      → IsTable t
      → AllSmall vs
      → Extends t
          (entries_from sourcefile firstblock ident blocknumber vs)
          (load_from sourcefile firstblock ident blocknumber vs t)
  unfolding load_from entries_from
  load_from-Extends blocknumber [] t v small = record {
    valid = v;
    reads = λ crc hash. unfold matching in rw append-nil;
  }
  load_from-Extends blocknumber (x ∷ xs) t v small =
      let e = new_entry sourcefile firstblock ident blocknumber x xs in
      let fits : e.crc < 2 ^ 32 = unfold new_entry in small.0 in
      let r =
        load_from-Extends (blocknumber + 1) xs (insert_entry e t) (insert_entry-IsTable e v fits)
          small.1 in
      let later = entries_from sourcefile firstblock ident (blocknumber + 1) xs in
      record {
        valid = r.valid;
        reads = λ crc hash.
            r.reads crc hash
            ∙ ap (λ (es : List Entry). es ++ matching crc hash later)
                (find_all-insert_entry e v fits crc hash)
            ∙ append_assoc (find_all t crc hash) (matching crc hash (e ∷ [])) _
            ∙ ap (λ (es : List Entry). find_all t crc hash ++ es)
                (sym (matching-append crc hash (e ∷ []) later));
      }

  -- Loading the verification packet of a file into a table keeps the table valid, and after it a
  -- search for any checksum and hash finds what it found before, followed by exactly the blocks of
  -- the file that have this checksum and hash, in the order of the file.
  pub find_all-load :
      (vs : List VerificationEntry) (t : Table)
      → IsTable t
      → AllSmall vs
      → IsTable (load sourcefile firstblock ident vs t)
        × ((crc : ℕ) (hash : Md5Hash)
            → find_all (load sourcefile firstblock ident vs t) crc hash
              ≡ find_all t crc hash
                ++ matching crc hash (entries_from sourcefile firstblock ident 0 vs))
  unfolding load
  find_all-load vs t v small = let r = load_from-Extends 0 vs t v small in (r.valid, r.reads)
