-- ===== src/CriticalPacket.antt =====
-- `CriticalPacket::CompareLess` of src/criticalpacket.cpp, on the bytes of two packets laid out
-- by the structures of include/par2/par2fileformat.h.
pub mod Order
use par2cmdline_turbo.Prelude.{
  ℕ, Bool, true, false, ◌==◌, List, ltb, if◌then◌else◌, get_or, drop, take,
}
use par2cmdline_turbo.Letype.{get_leu32}
use par2cmdline_turbo.Md5Hash.{Md5Hash, hash_lt}

-- `packetdata`. The header takes 64 bytes; its `type` stands at 48.
pub record CriticalPacket : Type 0 where
  pub packetdata : List ℕ

-- `header->type.type[8]`
unfoldable pub type_letter : CriticalPacket → ℕ
type_letter p = get_or p.packetdata 56 0

-- The `switch` on that letter.
unfoldable pub type_value : ℕ → ℕ
type_value letter =
    if letter == b'M'
    then 0
    else if letter == b'F'
    then 1
    else if letter == b'I'
    then 2
    else if letter == b'C'
    then 3
    else if letter == b'R'
    then 4
    else 5

-- `fileid`, of a file description packet and of a file verification packet
unfoldable pub file_id : CriticalPacket → Md5Hash
file_id p = record { hash = take 16 (drop 64 p.packetdata) }

-- `exponent`, of a recovery packet
unfoldable pub exponent : CriticalPacket → ℕ
exponent p = get_leu32 (take 4 (drop 64 p.packetdata))

unfoldable pub compare_less : CriticalPacket → CriticalPacket → Bool
unfolding type_value type_letter file_id exponent
compare_less left right =
    let left_value = type_value (type_letter left) in
    let right_value = type_value (type_letter right) in
    if ltb left_value right_value
    then true
    else if ltb right_value left_value
    then false
    else if left_value == 1
    then hash_lt (file_id left) (file_id right)
    else if left_value == 2
    then hash_lt (file_id left) (file_id right)
    else if left_value == 4
    then ltb (exponent left) (exponent right)
    else false
