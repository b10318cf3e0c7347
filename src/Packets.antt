-- ===== src/Packets.antt =====
-- What the packets have in common: the header of include/par2/par2fileformat.h and the constants
-- of src/par2fileformat.cpp. Their bodies are in the modules below.
pub mod Main
pub mod Loads
pub mod Description
use par2cmdline_turbo.Prelude.{
  Option, some, ℕ, ◌+◌, ◌%◌, ◌^◌, ◌<◌, ◌≡◌, List, [], ◌∷◌, ◌++◌, length, length-append, replicate,
  arith, ap, ◌∙◌,
}
use par2cmdline_turbo.Letype.{put_leu64}
use par2cmdline_turbo.Md5Hash.{Md5Hash}

-- `PACKET_HEADER`
pub record PacketHeader : Type 0 where
  pub magic : List ℕ
  pub length : ℕ
  pub hash : Md5Hash
  pub setid : Md5Hash
  pub type : List ℕ

-- Its bytes in the packed structure.
abbrev pub header_bytes : PacketHeader → List ℕ
header_bytes header =
    header.magic
    ++ (put_leu64 header.length ++ (header.hash.hash ++ (header.setid.hash ++ header.type)))

abbrev pub packet_magic : List ℕ
packet_magic = b'P' ∷ b'A' ∷ b'R' ∷ b'2' ∷ 0 ∷ b'P' ∷ b'K' ∷ b'T' ∷ []

abbrev pub type_prefix : List ℕ → List ℕ
type_prefix name = b'P' ∷ b'A' ∷ b'R' ∷ 32 ∷ b'2' ∷ b'.' ∷ b'0' ∷ 0 ∷ name

abbrev pub mainpacket_type : List ℕ
mainpacket_type = type_prefix (b'M' ∷ b'a' ∷ b'i' ∷ b'n' ∷ 0 ∷ 0 ∷ 0 ∷ 0 ∷ [])

-- A header as the packed structure has it: its fields have their widths.
pub record IsHeader (header : PacketHeader) : Type 0 where
  pub magic_width : length header.magic ≡ 8
  pub hash_width : length header.hash.hash ≡ 16
  pub setid_width : length header.setid.hash ≡ 16
  pub type_width : length header.type ≡ 16
  pub length_fits : header.length < 2 ^ 64

pub length-header_bytes : (h : PacketHeader) → IsHeader h → length (header_bytes h) ≡ 64
length-header_bytes h w =
    unfold put_leu64 in
    omega (
      arith,
      length-append h.magic (put_leu64 h.length ++ (h.hash.hash ++ (h.setid.hash ++ h.type))),
      length-append h.hash.hash (h.setid.hash ++ h.type),
      length-append h.setid.hash h.type,
      w.magic_width,
      w.hash_width,
      w.setid_width,
      w.type_width,
    )

-- `DiskFile::Read` at a file offset: the bytes, as many as asked for, or failure.
abbrev pub Reads : (ℕ → ℕ → Option (List ℕ)) → Type 0
Reads read = (offset n : ℕ) (bytes : List ℕ) → read offset n ≡ some bytes → length bytes ≡ n
