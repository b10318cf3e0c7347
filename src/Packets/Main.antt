-- ===== src/Packets/Main.antt =====
-- The main packet: src/mainpacket.cpp and include/par2/mainpacket.h.
pub mod Loaded
pub mod Roundtrip
use par2cmdline_turbo.Prelude.{
  ℕ, ◌+◌, ◌-◌, ◌*◌, ◌/◌, ◌%◌, ◌^◌, bit_and, not, ◌||◌, ◌==◌, Option, none, some, List, [], ◌∷◌,
  ◌++◌, ltb, if◌then◌else◌, length, take, drop,
}
use par2cmdline_turbo.Letype.{put_leu32, put_leu64, get_leu32, get_leu64}
use par2cmdline_turbo.Md5Hash.{Md5Hash}
use par2cmdline_turbo.Packets.{PacketHeader, header_bytes, packet_magic, mainpacket_type}

pub record MainPacket : Type 0 where
  pub packetdata : List ℕ
  pub blocksize : ℕ
  pub totalfilecount : ℕ
  pub recoverablefilecount : ℕ

-- `sizeof(MAINPACKET)`
abbrev pub main_size : ℕ
main_size = 76

-- `FileId`: the hash at `fileid[filenumber]`
unfoldable pub file_id_at : MainPacket → ℕ → Md5Hash
file_id_at p filenumber = record {
  hash = take 16 (drop (main_size + 16 * filenumber) p.packetdata);
}

-- The tests on the body that has been read, which begins with the block size.
unfoldable pub load_body : PacketHeader → ℕ → List ℕ → Option MainPacket
load_body header totalfilecount body =
    let recoverablefilecount = get_leu32 (drop 8 body) in
    let blocksize = get_leu64 body in
    if ltb totalfilecount recoverablefilecount
    then none
    else if (blocksize == 0) || not (bit_and blocksize 3 == 0)
    then none
    else some (record {
      packetdata = header_bytes header ++ body;
      blocksize = blocksize;
      totalfilecount = totalfilecount;
      recoverablefilecount = recoverablefilecount;
    })

-- `Load`: `none` is `return false`.
unfoldable pub load_main : (ℕ → ℕ → Option (List ℕ)) → ℕ → PacketHeader → Option MainPacket
load_main read offset header =
    if ltb header.length main_size
    then none
    else if ltb 0 ((header.length - main_size) % 16)
    then none
    else if ltb (main_size + 32768 * 16) header.length
    then none
    else elim (read ((offset + 64) % 2 ^ 64) (header.length - 64)) [
      | none ↦ none
      | some body ↦ load_body header ((header.length - main_size) / 16 % 2 ^ 32) body
    ]

-- The array `fileid`.
unfoldable pub store_ids : List Md5Hash → List ℕ
store_ids [] = []
store_ids (id ∷ ids) = id.hash ++ store_ids ids

-- The body of the packet, from `blocksize` on.
unfoldable pub main_body : List Md5Hash → ℕ → List ℕ
unfolding store_ids
main_body ids blocksize = put_leu64 blocksize ++ (put_leu32 (length ids % 2 ^ 32) ++ store_ids ids)

-- The header that `Create` writes.
unfoldable pub main_header : (List ℕ → Md5Hash) → List Md5Hash → ℕ → PacketHeader
unfolding main_body
main_header md5 ids blocksize =
    let body = main_body ids blocksize in
    let setid = md5 body in
    record {
      magic = packet_magic;
      length = (main_size + length ids % 2 ^ 32 * 16) % 2 ^ 64;
      hash = md5 (setid.hash ++ (mainpacket_type ++ body));
      setid = setid;
      type = mainpacket_type;
    }

-- `if (totalfilecount > 1) std::sort(…)`; `sort` is `std::sort` by `CompareLess`.
unfoldable pub in_order : (List Md5Hash → List Md5Hash) → List Md5Hash → List Md5Hash
in_order sort fileids = if ltb 1 (length fileids % 2 ^ 32) then sort fileids else fileids

-- `Create`, from the `FileId` of each source file.
unfoldable pub create_main :
    (List ℕ → Md5Hash) → (List Md5Hash → List Md5Hash) → List Md5Hash → ℕ → MainPacket
unfolding main_header in_order
create_main md5 sort fileids blocksize =
    let totalfilecount = length fileids % 2 ^ 32 in
    let ids = in_order sort fileids in
    record {
      packetdata = header_bytes (main_header md5 ids blocksize) ++ main_body ids blocksize;
      blocksize = blocksize;
      totalfilecount = totalfilecount;
      recoverablefilecount = totalfilecount;
    }
