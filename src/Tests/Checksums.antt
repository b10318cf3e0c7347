-- ===== src/Tests/Checksums.antt =====
-- Hashes, search trees and the verification hash table at concrete inputs.
use par2cmdline_turbo.Prelude.{
  ℕ, ◌≡◌, ◌⊎◌, refl, false, ◌==◌, none, some, List, [], ◌∷◌, ◌++◌, ltb, arith, replicate,
}
use par2cmdline_turbo.Prelude.{◌<◌, ◌^◌, bit_xor}
use par2cmdline_turbo.Crc.{ccitt, update_block, update_char, table_entry, crc_steps, crc_step}
use par2cmdline_turbo.Crc.Bitwise.{AllBytes, bitwise, update_block-eq-bitwise}
use par2cmdline_turbo.Md5Hash.{Md5Hash, hash_lt, hash_eq, value, hash_lt-eq-value, byte_at}
use par2cmdline_turbo.HashTable.Tree.{
  Entry, insert, search_crc, search_hash, chain, entries, less, greater,
}
use par2cmdline_turbo.HashTable.Chains.{IsOrdered, matching}
use par2cmdline_turbo.HashTable.Lookup.{chain-search_hash-search_crc}
use par2cmdline_turbo.HashTable.Insert.{matching-insert}
use par2cmdline_turbo.HashTable.Table.{
  Table, VerificationEntry, set_limit, table_size, bucket, load, entries_from, insert_entry,
  new_entry,
}
use par2cmdline_turbo.HashTable.Table.Laws.{IsTable, find_all, top, set_limit-IsTable}
use par2cmdline_turbo.HashTable.Table.Load.{find_all-load}
use par2cmdline_turbo.HashTable.Match.{Window, Blocks, many, find_match}
use par2cmdline_turbo.HashTable.Match.Choice.{chosen, many-eq-chosen}
use par2cmdline_turbo.HashTable.Match.Sound.{BySuggestion, ByTable, find_match_sound}

abbrev hash_of : ℕ → Md5Hash
hash_of b = record { hash = b ∷ replicate 15 7 }

abbrev block : ℕ → ℕ → VerificationEntry
block crc b = record { hash = hash_of b; crc = crc }

-- Three blocks; the first and the last are equal.
abbrev file : List VerificationEntry
file = block 5 1 ∷ block 261 2 ∷ block 5 1 ∷ []

abbrev loaded : Table
loaded = load 1 0 100 file (set_limit 3)

hash_lt-eq-value_example :
    (hash_lt (hash_of 1) (hash_of 2) ≡ ltb (value (hash_of 1)) (value (hash_of 2)))
    × (hash_eq (hash_of 1) (hash_of 2) ≡ (value (hash_of 1) == value (hash_of 2)))
hash_lt-eq-value_example = hash_lt-eq-value (hash_of 1) (hash_of 2)

table_size_run : (table_size 3000 ≡ 4096) × (table_size 100_000 ≡ 65536)
unfolding table_size
table_size_run = (refl, refl)

find_all-load_example :
    IsTable loaded
    × ((crc : ℕ) (hash : Md5Hash)
        → find_all loaded crc hash
          ≡ find_all (set_limit 3) crc hash ++ matching crc hash (entries_from 1 0 100 0 file))
find_all-load_example = find_all-load 1 0 100 file (set_limit 3) (set_limit-IsTable 3) (omega arith)

abbrev newcomer : Entry
newcomer = record {
  ident = 2;
  sourcefile = 1;
  datablock = 1;
  firstblock = false;
  crc = 5;
  hash = hash_of 1;
  next = none;
}

loaded-IsOrdered : IsOrdered 0 top (bucket loaded 5)
loaded-IsOrdered = find_all-load_example.0.ordered 5

chain-search_hash-search_crc_example :
    chain (search_hash (search_crc (bucket loaded 5) 5) (hash_of 1))
    ≡ matching 5 (hash_of 1) (entries (bucket loaded 5))
chain-search_hash-search_crc_example =
    chain-search_hash-search_crc 5 (hash_of 1) 0 top (bucket loaded 5) loaded-IsOrdered

matching-insert_example :
    matching 5 (hash_of 1) (entries (insert newcomer (bucket loaded 5)))
    ≡ matching 5 (hash_of 1) (entries (bucket loaded 5)) ++ matching 5 (hash_of 1) (newcomer ∷ [])
matching-insert_example =
    matching-insert 5 (hash_of 1) newcomer 0 top (bucket loaded 5) loaded-IsOrdered

abbrev window : Window
window = record {
  checksum = 5;
  hash = hash_of 1;
  short_checksum = λ n. 0;
  short_hash = λ n. hash_of 9;
  short_block = false;
  block_length = 4;
  offset = 8;
  diskfile = 1;
}

abbrev blocks : Blocks
blocks = record {
  is_set = λ b. b == 0;
  length = λ b. 4;
  diskfile = λ b. 1;
  has_complete_file = λ f. false;
}

many-eq-chosen_example :
    many window blocks (some 1) (newcomer ∷ newcomer ∷ [])
    ≡ record { entry = chosen window blocks (some 1) (newcomer ∷ newcomer ∷ []); duplicate = false }
many-eq-chosen_example = many-eq-chosen window blocks (some 1) (newcomer ∷ newcomer ∷ [])

-- The first and the third block match; the first is taken.
abbrev third : Entry
third = record {
  ident = 102;
  sourcefile = 1;
  datablock = 2;
  firstblock = false;
  crc = 5;
  hash = hash_of 1;
  next = none;
}

find_match_run : (find_match window blocks loaded none (some 1)).entry ≡ some third
unfolding find_match load set_limit table_size bucket search_crc search_hash insert less greater
    chain hash_lt hash_eq byte_at many insert_entry new_entry
find_match_run = refl

find_match_sound_example : BySuggestion window blocks none third ⊎ ByTable window blocks none third
find_match_sound_example =
    find_match_sound window blocks loaded none (some 1) 0 top third loaded-IsOrdered find_match_run

-- `123456789`
abbrev digits : List ℕ
digits = 49 ∷ 50 ∷ 51 ∷ 52 ∷ 53 ∷ 54 ∷ 55 ∷ 56 ∷ 57 ∷ []

digits-AllBytes : AllBytes digits
digits-AllBytes = (
  omega arith,
  (
    omega arith,
    (
      omega arith,
      (omega arith, (omega arith, (omega arith, (omega arith, (omega arith, (omega arith, tt)))))),
    ),
  ),
)

update_block-eq-bitwise_example :
    (update_block ccitt 0xffffffff digits ≡ bitwise ccitt 0xffffffff digits)
    × (update_block ccitt 0xffffffff digits < 2 ^ 32)
update_block-eq-bitwise_example =
    update_block-eq-bitwise ccitt 0xffffffff digits (omega arith) (omega arith) digits-AllBytes

-- The check value of this CRC.
update_block_run : bit_xor 0xffffffff (update_block ccitt 0xffffffff digits) ≡ 0xcbf43926
unfolding update_block update_char table_entry crc_steps crc_step
update_block_run = refl
