-- ===== src/Tests/Loading.antt =====
-- Packets that are created, written and loaded, at concrete inputs.
use par2cmdline_turbo.Prelude.{
  ℕ, ◌≡◌, ◌≢◌, ◌↔◌, ◌%◌, ◌==◌, refl, inl, inr, Bool-cases, Option, none, some, List, [], ◌∷◌, ◌++◌,
  if◌then◌else◌, arith, replicate, length, take, drop,
}
use par2cmdline_turbo.Prelude.{==_iff, length-take, length-drop}
use par2cmdline_turbo.Letype.{put_leu32, put_leu64, byte_of}
use par2cmdline_turbo.Md5Hash.{Md5Hash, hash_lt, byte_at}
use par2cmdline_turbo.Utf8.{latin1_to_utf8}
use par2cmdline_turbo.Packets.{
  PacketHeader, IsHeader, Reads, packet_magic, mainpacket_type, header_bytes,
}
use par2cmdline_turbo.Packets.Main.{
  load_main, main_body, main_header, create_main, in_order, store_ids,
}
use par2cmdline_turbo.Packets.Main.Loaded.{IsLoaded, load_main-IsLoaded}
use par2cmdline_turbo.Packets.Main.Roundtrip.{load_main-create_main}
use par2cmdline_turbo.Packets.Loads.{
  VerificationPacket, load_verification, c_string, DescriptionPacket, load_description,
}
use par2cmdline_turbo.Packets.Loads.Bounds.{IsVerification, load_verification-IsVerification}
use par2cmdline_turbo.Packets.Description.{
  describe, description_body, padded, create_description, compute_file_id,
}
use par2cmdline_turbo.Packets.Description.Roundtrip.{AllAscii, load_description-describe}
use par2cmdline_turbo.DataBlock.{DataBlock, read_data}
use par2cmdline_turbo.DataBlock.Windows.{Holds, window, data_of, read_data-eq-window}
use par2cmdline_turbo.DataBlock.Chunks.{read_data_in_chunks}
use par2cmdline_turbo.Creator.Sizes.{
  BlockCount, compute_block_count, IsCount, compute_block_count-IsCount,
}

-- A file with these bytes.
abbrev disk : List ℕ → ℕ → ℕ → Option (List ℕ)
disk content offset n =
    if length (take n (drop offset content)) == n then some (take n (drop offset content)) else none

disk-Reads : (content : List ℕ) → Reads (disk content)
disk-Reads content offset n bytes h =
    elim (Bool-cases (length (take n (drop offset content)) == n)) [
      | inl y ↦ ground (arith, y)
      | inr differs ↦ absurd (ground (arith, differs))
    ]

abbrev hash_of : ℕ → Md5Hash
hash_of b = record { hash = b ∷ replicate 15 7 }

-- A digest with the right width.
abbrev digest : List ℕ → Md5Hash
digest bytes = hash_of (length bytes % 256)

digest_width : (bytes : List ℕ) → length (digest bytes).hash ≡ 16
digest_width bytes = refl

-- Two hashes in order.
abbrev sort : List Md5Hash → List Md5Hash
sort (a ∷ b ∷ []) = if hash_lt b a then b ∷ a ∷ [] else a ∷ b ∷ []
sort ids = ids

abbrev ids : List Md5Hash
ids = hash_of 5 ∷ hash_of 3 ∷ []

sort-length : length (sort ids) ≡ 2
unfolding hash_lt byte_at
sort-length = refl

abbrev main_disk : ℕ → ℕ → Option (List ℕ)
main_disk = disk (replicate 64 0 ++ main_body (in_order sort ids) 400)

main_stored : main_disk 64 44 ≡ some (main_body (in_order sort ids) 400)
unfolding main_body in_order put_leu64 put_leu32 byte_of store_ids hash_lt byte_at
main_stored = refl

load_main-create_main_example :
    load_main main_disk 0 (main_header digest (in_order sort ids) 400)
    ≡ some (create_main digest sort ids 400)
load_main-create_main_example =
    load_main-create_main digest sort main_disk ids 0 400 (omega arith) (omega arith) (omega arith)
      (omega arith) sort-length main_stored

main_header-IsHeader : IsHeader (main_header digest (in_order sort ids) 400)
unfolding main_header
main_header-IsHeader = record {
  magic_width = refl;
  hash_width = refl;
  setid_width = refl;
  type_width = refl;
  length_fits = omega arith;
}

load_main-IsLoaded_example :
    IsLoaded (main_header digest (in_order sort ids) 400) (create_main digest sort ids 400)
load_main-IsLoaded_example =
    load_main-IsLoaded main_disk 0 (main_header digest (in_order sort ids) 400)
      (create_main digest sort ids 400)
      (disk-Reads (replicate 64 0 ++ main_body (in_order sort ids) 400)) main_header-IsHeader
      load_main-create_main_example

-- A verification packet of two entries.
abbrev verification_header : PacketHeader
verification_header = record {
  magic = packet_magic;
  length = 120;
  hash = hash_of 1;
  setid = hash_of 2;
  type = mainpacket_type;
}

verification_header-IsHeader : IsHeader verification_header
verification_header-IsHeader = record {
  magic_width = refl;
  hash_width = refl;
  setid_width = refl;
  type_width = refl;
  length_fits = omega arith;
}

abbrev verification_packet : VerificationPacket
verification_packet = record {
  packetdata = header_bytes verification_header ++ replicate 56 9;
  blockcount = 2;
}

verification_loads :
    load_verification (disk (replicate 120 9)) 0 verification_header ≡ some verification_packet
unfolding load_verification
verification_loads = refl

load_verification-IsVerification_example : IsVerification verification_header verification_packet
load_verification-IsVerification_example =
    load_verification-IsVerification (disk (replicate 120 9)) 0 verification_header
      verification_packet (disk-Reads (replicate 120 9)) verification_header-IsHeader
      verification_loads

-- `é`, in UTF-8
abbrev name : List ℕ
name = 0xc3 ∷ 0xa9 ∷ []

name_ne_nil : name ≢ []
name_ne_nil = cc

abbrev description_header : PacketHeader
description_header = record {
  magic = packet_magic;
  length = 124;
  hash = hash_of 1;
  setid = hash_of 2;
  type = mainpacket_type;
}

abbrev description_disk : ℕ → ℕ → Option (List ℕ)
description_disk =
    disk (replicate 64 0 ++ description_body (describe digest name 20000 (hash_of 4) (hash_of 5)))

description_stored :
    description_disk 64 60
    ≡ some (description_body (describe digest name 20000 (hash_of 4) (hash_of 5)))
unfolding description_body describe create_description compute_file_id padded put_leu64 byte_of
    c_string
description_stored = refl

description_length : 124 ≡ (describe digest name 20000 (hash_of 4) (hash_of 5)).packetlength
unfolding describe create_description compute_file_id padded
description_length = refl

load_description-describe_example :
    (p : DescriptionPacket) × (load_description description_disk 0 description_header ≡ some p)
    × (p.filename ≡ latin1_to_utf8 name)
    × ((p.filename ≡ name) ↔ AllAscii name)
load_description-describe_example =
    load_description-describe digest description_disk 0 description_header name 20000 (hash_of 4)
      (hash_of 5) digest_width refl refl name_ne_nil (omega arith, (omega arith, tt)) (omega arith)
      (omega arith) (λ small. absurd (omega arith)) description_length description_stored

-- A block of 6 bytes at the end of a file that has lost its last 2 bytes.
abbrev short_file : List ℕ
short_file = 9 ∷ 8 ∷ 7 ∷ 6 ∷ 5 ∷ 4 ∷ []

abbrev short_block : DataBlock
short_block = record { diskfile = some 6; offset = 2; length = 6; filesize = 8 }

short_file-Holds : Holds (disk short_file) short_file
short_file-Holds offset n h = rw (
    (==_iff (length (take n (drop offset short_file))) n).1
      (omega (arith, length-take n (drop offset short_file), length-drop offset short_file)))

read_data-eq-window_example :
    read_data (disk short_file) 6 short_block 1 4
    ≡ some (window (data_of short_file short_block) 1 4)
read_data-eq-window_example =
    read_data-eq-window (disk short_file) short_file short_block 1 4 short_file-Holds (omega arith)
      (omega arith) (omega arith)

read_data_run : read_data (disk short_file) 6 short_block 1 5 ≡ some (6 ∷ 5 ∷ 4 ∷ 0 ∷ 0 ∷ [])
unfolding read_data
read_data_run = refl

read_data_in_chunks_example :
    (first rest : List ℕ) × (read_data (disk short_file) 6 short_block 1 2 ≡ some first)
    × (read_data (disk short_file) 6 short_block 3 3 ≡ some rest)
    × (read_data (disk short_file) 6 short_block 1 5 ≡ some (first ++ rest))
read_data_in_chunks_example =
    read_data_in_chunks (disk short_file) short_file short_block 1 2 3 short_file-Holds
      (omega arith) (omega arith) (omega arith)

-- Three files in blocks of 100 bytes.
abbrev three_files : List ℕ
three_files = 250 ∷ 100 ∷ 0 ∷ []

abbrev three_count : BlockCount
three_count = record { largestfilesize = 250; sourceblockcount = 4 }

three_counted : compute_block_count 100 three_files ≡ some three_count
unfolding compute_block_count
three_counted = refl

compute_block_count-IsCount_example : IsCount 100 three_files three_count
compute_block_count-IsCount_example =
    compute_block_count-IsCount 100 three_files three_count (omega arith) three_counted
