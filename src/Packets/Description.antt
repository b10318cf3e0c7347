-- ===== src/Packets/Description.antt =====
-- `DescriptionPacket::Create` and the setters of src/descriptionpacket.cpp.
pub mod Fields
pub mod Roundtrip
use par2cmdline_turbo.Prelude.{
  ℕ, ◌+◌, ◌-◌, ◌%◌, ◌^◌, bit_and, List, [], ◌∷◌, ◌++◌, length, replicate,
}
use par2cmdline_turbo.Letype.{put_leu64}
use par2cmdline_turbo.Md5Hash.{Md5Hash}
use par2cmdline_turbo.Packets.Loads.{c_string, description_size}

-- `FILEDESCRIPTIONPACKET` behind its header, and `packetlength`; `name` ends with the packet.
pub record NewDescription : Type 0 where
  pub packetlength : ℕ
  pub fileid : Md5Hash
  pub hashfull : Md5Hash
  pub hash16k : Md5Hash
  pub length : ℕ
  pub name : List ℕ

-- `memset`
abbrev no_hash : Md5Hash
no_hash = record { hash = replicate 16 0 }

-- `~3 & (3 + (u32)filename.size())`
unfoldable pub padded : ℕ → ℕ
padded size = bit_and ((3 + size % 2 ^ 32) % 2 ^ 32) (2 ^ 32 - 4)

-- `Create`
unfoldable pub create_description : List ℕ → ℕ → NewDescription
unfolding padded
create_description filename filesize = record {
  packetlength = description_size + padded (length filename);
  fileid = no_hash;
  hashfull = no_hash;
  hash16k = no_hash;
  length = filesize;
  name = filename ++ replicate (padded (length filename) - length filename) 0;
}

-- `Hash16k`
abbrev pub set_hash_16k : Md5Hash → NewDescription → NewDescription
set_hash_16k hash p = record p { hash16k = hash }

-- `HashFull`
abbrev pub set_hash_full : Md5Hash → NewDescription → NewDescription
set_hash_full hash p = record p { hashfull = hash }

-- `ComputeFileId`; the packet has 4 zeros behind the name.
unfoldable pub compute_file_id : (List ℕ → Md5Hash) → NewDescription → NewDescription
compute_file_id md5 p = record p {
  fileid = md5 (p.hash16k.hash ++ (put_leu64 p.length ++ c_string (p.name ++ replicate 4 0)));
}

-- The bytes that are written behind the header.
unfoldable pub description_body : NewDescription → List ℕ
description_body p =
    p.fileid.hash ++ (p.hashfull.hash ++ (p.hash16k.hash ++ (put_leu64 p.length ++ p.name)))

-- `Hash16k`, `HashFull` and `ComputeFileId`, as the creator calls them for a source file when the
-- hashes are not deferred.
unfoldable pub describe : (List ℕ → Md5Hash) → List ℕ → ℕ → Md5Hash → Md5Hash → NewDescription
unfolding compute_file_id create_description
describe md5 filename filesize hash_full hash_16k =
    compute_file_id md5
      (set_hash_full hash_full (set_hash_16k hash_16k (create_description filename filesize)))
