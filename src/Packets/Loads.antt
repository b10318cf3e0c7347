-- ===== src/Packets/Loads.antt =====
-- The `Load` functions of src/verificationpacket.cpp, src/recoverypacket.cpp,
-- src/creatorpacket.cpp and src/descriptionpacket.cpp. `read` is `DiskFile::Read`; `none` is
-- `return false`. `Read` fills the packet behind its header.
pub mod Bounds
use par2cmdline_turbo.Prelude.{
  ℕ, ◌+◌, ◌-◌, ◌*◌, ◌/◌, ◌%◌, ◌^◌, ◌&&◌, not, ◌==◌, Option, none, some, List, [], ◌∷◌, ◌++◌, ltb,
  leb, if◌then◌else◌, take, drop, replicate,
}
use par2cmdline_turbo.Letype.{get_leu32, get_leu64}
use par2cmdline_turbo.Md5Hash.{Md5Hash, hash_eq}
use par2cmdline_turbo.Utf8.{latin1_to_utf8}
use par2cmdline_turbo.Packets.{PacketHeader, header_bytes}

pub record VerificationPacket : Type 0 where
  pub packetdata : List ℕ
  pub blockcount : ℕ

-- `sizeof(FILEVERIFICATIONPACKET)`
abbrev pub verification_size : ℕ
verification_size = 80

-- `VerificationPacket::Load`
unfoldable pub load_verification :
    (ℕ → ℕ → Option (List ℕ)) → ℕ → PacketHeader → Option VerificationPacket
load_verification read offset header =
    if leb header.length verification_size
    then none
    else if ltb 0 ((header.length - verification_size) % 20)
    then none
    else if ltb (verification_size + 32768 * 20) header.length
    then none
    else elim (read ((offset + 64) % 2 ^ 64) (header.length - 64)) [
      | none ↦ none
      | some body ↦ some (record {
        packetdata = header_bytes header ++ body;
        blockcount = (header.length - verification_size) / 20 % 2 ^ 32;
      })
    ]

-- The location of the data on disk, the header, and the bytes of the exponent.
pub record RecoveryPacket : Type 0 where
  pub offset : ℕ
  pub header : PacketHeader
  pub exponent : ℕ
  pub data_offset : ℕ
  pub data_length : ℕ

-- `sizeof(RECOVERYBLOCKPACKET)`
abbrev pub recovery_size : ℕ
recovery_size = 68

-- `RecoveryPacket::Load`
unfoldable pub load_recovery : (ℕ → ℕ → Option (List ℕ)) → ℕ → PacketHeader → Option RecoveryPacket
load_recovery read offset header =
    if leb header.length recovery_size
    then none
    else elim (read ((offset + 64) % 2 ^ 64) (recovery_size - 64)) [
      | none ↦ none
      | some body ↦ some (record {
        offset = offset;
        header = header;
        exponent = get_leu32 body;
        data_offset = (offset + recovery_size) % 2 ^ 64;
        data_length = header.length - recovery_size;
      })
    ]

-- `CreatorPacket::Load`: the bytes of the packet, and 4 zeros behind them.
unfoldable pub load_creator : (ℕ → ℕ → Option (List ℕ)) → ℕ → PacketHeader → Option (List ℕ)
load_creator read offset header =
    if leb header.length 64
    then none
    else if ltb 100000 (header.length - 64)
    then none
    else elim (read ((offset + 64) % 2 ^ 64) (header.length - 64)) [
      | none ↦ none
      | some body ↦ some (header_bytes header ++ (body ++ replicate 4 0))
    ]

pub record DescriptionPacket : Type 0 where
  pub packetdata : List ℕ
  pub filename : List ℕ

-- `sizeof(FILEDESCRIPTIONPACKET)`
abbrev pub description_size : ℕ
description_size = 120

-- A string ends in front of its first zero.
unfoldable pub c_string : List ℕ → List ℕ
c_string [] = []
c_string (c ∷ cs) = if c == 0 then [] else c ∷ c_string cs

-- The fields behind the header: `fileid`, `hashfull`, `hash16k`, `length` and `name`.
abbrev pub hash_full : List ℕ → Md5Hash
hash_full body = record { hash = take 16 (drop 16 body) }

abbrev pub hash_16k : List ℕ → Md5Hash
hash_16k body = record { hash = take 16 (drop 32 body) }

abbrev pub file_length : List ℕ → ℕ
file_length body = get_leu64 (take 8 (drop 48 body))

-- The name, and the 4 zeros behind the packet.
abbrev pub name_bytes : List ℕ → List ℕ
name_bytes body = drop 56 (body ++ replicate 4 0)

-- `DescriptionPacket::Load`
unfoldable pub load_description :
    (ℕ → ℕ → Option (List ℕ)) → ℕ → PacketHeader → Option DescriptionPacket
unfolding c_string
load_description read offset header =
    if leb header.length description_size
    then none
    else if ltb 100000 (header.length - description_size)
    then none
    else elim (read ((offset + 64) % 2 ^ 64) (header.length - 64)) [
      | none ↦ none
      | some body ↦
          if leb (file_length body) 16384 && not (hash_eq (hash_16k body) (hash_full body))
          then none
          else some (record {
            packetdata = header_bytes header ++ (body ++ replicate 4 0);
            filename = latin1_to_utf8 (c_string (name_bytes body));
          })
    ]
