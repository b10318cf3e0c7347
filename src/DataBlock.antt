-- ===== src/DataBlock.antt =====
-- `DataBlock` of src/datablock.cpp and include/par2/datablock.h: a range of a file on disk that
-- holds the data of a block. The disk file is a parameter: `read` and `write` are
-- `DiskFile::Read` and `DiskFile::Write`, `none` where they return false.
pub mod Windows
pub mod Chunks
use par2cmdline_turbo.Prelude.{
  ℕ, ◌+◌, ◌-◌, ◌*◌, ◌%◌, ◌^◌, min, Bool, true, false, ◌&&◌, Option, none, some, List, [], ◌∷◌, ◌++◌,
  ltb, if◌then◌else◌, take, replicate,
}

-- `diskfile` is the size of the file on disk, `none` for null.
pub record DataBlock : Type 0 where
  pub diskfile : Option ℕ
  pub offset : ℕ
  pub length : ℕ
  pub filesize : ℕ

abbrev pub new_block : DataBlock
new_block = record { diskfile = none; offset = 0; length = 0; filesize = 0 }

-- `SetLength`
abbrev pub set_length : ℕ → DataBlock → DataBlock
set_length length b = record b { length = length }

-- `SetLocation`
abbrev pub set_location : ℕ → ℕ → DataBlock → DataBlock
set_location diskfile offset b = record b { diskfile = some diskfile; offset = offset }

-- `ClearLocation`
abbrev pub clear_location : DataBlock → DataBlock
clear_location b = record b { diskfile = none; offset = 0 }

-- `IsSet`
unfoldable pub is_set : DataBlock → Bool
is_set b = elim b.diskfile [
  | none ↦ false
  | some size ↦
      if ltb 0 b.filesize
      then (if ltb size ((b.offset + b.length) % 2 ^ 64) && ltb size b.filesize
          then false
          else true)
      else true
]

-- `memset(&((u8*)buffer)[want], 0, size-want)`
abbrev pub zero_rest : ℕ → ℕ → List ℕ → List ℕ
zero_rest size want bytes = if ltb want size then bytes ++ replicate (size - want) 0 else bytes

-- `ReadData`: the buffer behind the call. `size` is at most the size of the buffer.
unfoldable pub read_data : (ℕ → ℕ → Option (List ℕ)) → ℕ → DataBlock → ℕ → ℕ → Option (List ℕ)
read_data read diskfilesize b position size =
    if ltb position b.length
    then (let fileoffset = (b.offset + position) % 2 ^ 64 in
        let want =
          min (min size (b.length - position)) ((diskfilesize + 2 ^ 64 - fileoffset) % 2 ^ 64) in
        elim (read fileoffset want) [ none ↦ none | some bytes ↦ some (zero_rest size want bytes) ])
    else some (replicate size 0)

-- `WriteData`: the disk behind the call, and `wrote`.
unfoldable pub write_data {ℓ} :
    {Disk : Type ℓ}
    → (Disk → ℕ → List ℕ → Option Disk)
    → Disk
    → DataBlock
    → ℕ
    → ℕ
    → List ℕ
    → Option (Disk × ℕ)
write_data write disk b position size buffer =
    if ltb position b.length
    then (let fileoffset = (b.offset + position) % 2 ^ 64 in
        let have = min size (b.length - position) in
        elim (write disk fileoffset (take have buffer)) [
          | none ↦ none
          | some disk' ↦ some (disk', have)
        ])
    else some (disk, 0)
