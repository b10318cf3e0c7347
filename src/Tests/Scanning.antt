-- ===== src/Tests/Scanning.antt =====
-- The CRC of zeros, the sliding CRC and the scan of a file at concrete inputs.
use par2cmdline_turbo.Prelude.{
  ℕ, ◌≡◌, ◌⊎◌, ◌^◌, ◌<◌, refl, Option, none, some, List, [], ◌∷◌, ◌++◌, take, drop, replicate,
  arith, true, false,
}
use par2cmdline_turbo.Md5Hash.{Md5Hash}
use par2cmdline_turbo.Crc.{ccitt, crc_step, crc_steps, table_entry, update_char, update_block}
use par2cmdline_turbo.Crc.Bitwise.{AllBytes}
use par2cmdline_turbo.Crc.Powers.{update_zeros, slide_char}
use par2cmdline_turbo.Crc.Powers.Zeros.{update_zeros-eq-update_block}
use par2cmdline_turbo.Crc.Powers.Slide.{crc_of, slide_char-crc_of}
use par2cmdline_turbo.DataBlock.Windows.{window}
use par2cmdline_turbo.FileCheckSummer.{
  Hashing, CheckSummer, new_checksummer, start, step, jump, jump_ahead, keep_rest, fill, fill_read,
  fill_blank, slide, at_end, stop_hasher, compute_current_checksum, update_hashes, update_full,
  update_16k, write_at, hash, block_length, short_block, short_checksum, short_hash,
  get_file_hashes,
}
use par2cmdline_turbo.FileCheckSummer.Memory.{zeros}
use par2cmdline_turbo.FileCheckSummer.Matching.{asked, IsInFile, find_match-Scanned}
use par2cmdline_turbo.Md5Hash.{hash_lt, hash_eq, byte_at}
use par2cmdline_turbo.HashTable.Tree.{Entry, insert, search_crc, search_hash, chain, less, greater}
use par2cmdline_turbo.HashTable.Table.{
  Table, set_limit, table_size, bucket, load, insert_entry, new_entry,
}
use par2cmdline_turbo.HashTable.Table.Laws.{top, IsTable, set_limit-IsTable}
use par2cmdline_turbo.HashTable.Table.Load.{find_all-load}
use par2cmdline_turbo.HashTable.Match.{Blocks, many, find_match}
use par2cmdline_turbo.FileCheckSummer.Moves.{
  Scanned, started, stepped, jumped, Setting, Scanned-answers,
}
use par2cmdline_turbo.FileCheckSummer.Whole.{scan_loop, scan_ends, get_file_hashes-Scanned}

update_zeros-eq-update_block_example :
    update_zeros 0xcbf43926 5 ≡ update_block ccitt 0xcbf43926 (replicate 5 0)
update_zeros-eq-update_block_example = update_zeros-eq-update_block 0xcbf43926 5 (omega arith)

-- One byte has taken the place of another, in a window of three.
slide_char-crc_of_example : slide_char 3 (crc_of (7 ∷ 8 ∷ 9 ∷ [])) 10 7 ≡ crc_of (8 ∷ 9 ∷ 10 ∷ [])
slide_char-crc_of_example =
    slide_char-crc_of 7 10 (8 ∷ 9 ∷ []) (omega arith) (omega arith) (omega arith, (omega arith, tt))

-- A file of seven bytes, in blocks of four.
abbrev file : List ℕ
file = 9 ∷ 1 ∷ 2 ∷ 3 ∷ 4 ∷ 5 ∷ 6 ∷ []

abbrev disk : ℕ → ℕ → Option (List ℕ)
disk offset n = some (take n (drop offset file))

abbrev digest : List ℕ → Md5Hash
digest bytes = record { hash = take 16 bytes }

abbrev library : Hashing
library = record {
  crc32 = crc_of;
  md5_crc = λ bytes n. (crc_of (bytes ++ zeros n), digest (bytes ++ zeros n));
  get_block = λ bytes n. (crc_of (bytes ++ zeros n), digest (bytes ++ zeros n));
  md5 = digest;
}

-- The new buffer is not blank.
abbrev used : List ℕ
used = 200 ∷ 201 ∷ 202 ∷ 203 ∷ 204 ∷ 205 ∷ 206 ∷ 207 ∷ []

eight-AllBytes :
    (a b c d e f g h : ℕ)
    → a < 2 ^ 8
    → b < 2 ^ 8
    → c < 2 ^ 8
    → d < 2 ^ 8
    → e < 2 ^ 8
    → f < 2 ^ 8
    → g < 2 ^ 8
    → h < 2 ^ 8
    → AllBytes (a ∷ b ∷ c ∷ d ∷ e ∷ f ∷ g ∷ h ∷ [])
eight-AllBytes a b c d e f g h p q r s t u v w = (p, (q, (r, (s, (t, (u, (v, (w, tt))))))))

setting : Setting file disk 4 library used
setting = record {
  holds = λ offset n h. refl;
  all_bytes =
      (eight-AllBytes 0 9 1 2 3 4 5 6 (omega arith) (omega arith) (omega arith) (omega arith)
        (omega arith) (omega arith) (omega arith) (omega arith)).1;
  small = omega arith;
  documented = record {
    crc32 = λ bytes h. refl;
    md5_crc = λ bytes n h. refl;
    get_block = λ bytes n h. refl;
  };
  size = refl;
  bytes =
      eight-AllBytes 200 201 202 203 204 205 206 207 (omega arith) (omega arith) (omega arith)
        (omega arith) (omega arith) (omega arith) (omega arith) (omega arith);
  some_block = omega arith;
  some_content = omega arith;
}

abbrev or_new : Option CheckSummer → CheckSummer
or_new o = elim o [ none ↦ new_checksummer used | some s ↦ s ]

-- At the start, one byte on, a block further, and at the end.
abbrev at_first : CheckSummer
at_first = or_new (start disk 7 4 library (new_checksummer used))

abbrev at_second : CheckSummer
at_second = or_new (step disk 7 4 at_first)

abbrev at_last : CheckSummer
at_last = or_new (jump disk 7 4 library 4 at_second)

abbrev at_end_of_file : CheckSummer
at_end_of_file = or_new (jump disk 7 4 library 4 at_last)

first_run : start disk 7 4 library (new_checksummer used) ≡ some at_first
unfolding start fill fill_read fill_blank compute_current_checksum update_hashes update_full
    update_16k write_at
first_run = refl

second_run : step disk 7 4 at_first ≡ some at_second
unfolding start fill fill_read fill_blank compute_current_checksum update_hashes update_full
    update_16k write_at stop_hasher step at_end slide
second_run = refl

last_run : jump disk 7 4 library 4 at_second ≡ some at_last
unfolding start fill fill_read fill_blank compute_current_checksum update_hashes update_full
    update_16k write_at stop_hasher step at_end slide keep_rest jump_ahead jump
last_run = refl

end_run : jump disk 7 4 library 4 at_last ≡ some at_end_of_file
unfolding start fill fill_read fill_blank compute_current_checksum update_hashes update_full
    update_16k write_at stop_hasher step at_end slide keep_rest jump_ahead jump
end_run = refl

offsets_run :
    (at_second.currentoffset ≡ 1) × (at_last.currentoffset ≡ 5) × (at_end_of_file.currentoffset ≡ 7)
unfolding start fill fill_read fill_blank compute_current_checksum update_hashes update_full
    update_16k write_at stop_hasher step at_end slide keep_rest jump_ahead jump
offsets_run = (refl, refl, refl)

last-Scanned : Scanned disk 7 4 library used at_last
last-Scanned =
    jumped at_second at_last 4 (stepped at_first at_second (started at_first first_run) second_run)
      last_run

Scanned-answers_example :
    (short_checksum library 4 (block_length disk 7 4 at_last) at_last
      ≡ crc_of (window file at_last.currentoffset 4))
    × (short_hash library 4 (block_length disk 7 4 at_last) at_last
        ≡ library.md5 (window file at_last.currentoffset 4))
    × ((short_block disk 7 4 at_last ≡ true)
        ⊎ ((at_last.checksum ≡ crc_of (window file at_last.currentoffset 4))
            × (hash library 4 at_last ≡ library.md5 (window file at_last.currentoffset 4))))
Scanned-answers_example =
    Scanned-answers file disk 4 library used setting at_last last-Scanned
      (omega (arith, offsets_run.1))

get_file_hashes-Scanned_example :
    get_file_hashes library 7 at_end_of_file ≡ (library.md5 file, library.md5 (take 16384 file))
get_file_hashes-Scanned_example =
    get_file_hashes-Scanned file disk 4 library used setting at_end_of_file
      (jumped at_last at_end_of_file 4 last-Scanned end_run) offsets_run.2

-- The last two bytes, with what was in the buffer behind them.
last_window_run : window at_last.buffer at_last.outpointer 4 ≡ 5 ∷ 6 ∷ 2 ∷ 3 ∷ []
unfolding start fill fill_read fill_blank compute_current_checksum update_hashes update_full
    update_16k write_at stop_hasher step at_end slide keep_rest jump_ahead jump
last_window_run = refl

-- A scan that goes on by three bytes in each round.
scan_ends_example :
    (s : CheckSummer) × (start disk 7 4 library (new_checksummer used) ≡ some s)
    × ((t : CheckSummer) × (scan_loop disk 7 4 library (λ u. 3) 7 s ≡ some t)
        × Scanned disk 7 4 library used t
        × (t.currentoffset ≡ 7))
scan_ends_example = scan_ends file disk 4 library used setting (λ u. 3) (λ u. omega arith)

-- The block at the start of the file is known.
abbrev known : Table
known =
    load 1 0 100
      (record { hash = digest (9 ∷ 1 ∷ 2 ∷ 3 ∷ []); crc = crc_of (9 ∷ 1 ∷ 2 ∷ 3 ∷ []) } ∷ [])
      (set_limit 1)

abbrev known_entry : Entry
known_entry = record {
  ident = 100;
  sourcefile = 1;
  datablock = 0;
  firstblock = true;
  crc = crc_of (9 ∷ 1 ∷ 2 ∷ 3 ∷ []);
  hash = digest (9 ∷ 1 ∷ 2 ∷ 3 ∷ []);
  next = none;
}

abbrev none_set : Blocks
none_set = record {
  is_set = λ b. false;
  length = λ b. 4;
  diskfile = λ b. 0;
  has_complete_file = λ f. false;
}

known_run :
    (find_match (asked disk 7 4 library 0 at_first) none_set known none none).entry
    ≡ some known_entry
unfolding find_match load set_limit table_size bucket search_crc search_hash insert less greater
    chain hash_lt hash_eq byte_at many insert_entry new_entry start fill fill_read fill_blank
    compute_current_checksum update_hashes update_full update_16k write_at hash short_block
    update_block update_char table_entry crc_steps crc_step
known_run = refl

first_run_offset : at_first.currentoffset ≡ 0
unfolding start fill fill_read fill_blank compute_current_checksum update_hashes update_full
    update_16k write_at
first_run_offset = refl

known-IsTable : IsTable known
unfolding update_block update_char table_entry crc_steps crc_step
known-IsTable =
    (find_all-load 1 0 100
      (record { hash = digest (9 ∷ 1 ∷ 2 ∷ 3 ∷ []); crc = crc_of (9 ∷ 1 ∷ 2 ∷ 3 ∷ []) } ∷ [])
      (set_limit 1) (set_limit-IsTable 1) (omega arith)).0

find_match-Scanned_example :
    IsInFile file disk 4 library used setting none_set 0 at_first
      (started at_first first_run)
      (omega (arith, first_run_offset))
      known_entry
find_match-Scanned_example =
    find_match-Scanned file disk 4 library used setting none_set 0 at_first
      (started at_first first_run) (omega (arith, first_run_offset)) known none none 0 top
      known_entry (λ x e. absurd (ground (arith, e))) (known-IsTable.ordered at_first.checksum)
      known_run
