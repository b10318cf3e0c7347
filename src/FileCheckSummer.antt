-- ===== src/FileCheckSummer.antt =====
-- `FileCheckSummer` of src/filechecksummer.cpp and include/par2/filechecksummer.h: the window that
-- is slid along a file, its CRC and its hash, and the hashes of the file. Pointers into the buffer are
-- offsets. An MD5 context is the bytes that it has been given. `none` stands for false: at
-- the end of the file, or where the disk gives an error.
pub mod Memory
pub mod Contexts
pub mod Kept
pub mod Filling
pub mod Scan
pub mod Computing
pub mod Sliding
pub mod Stepping
pub mod Starting
pub mod Keeping
pub mod Jumping
pub mod Answers
pub mod Moves
pub mod Whole
pub mod Matching
use par2cmdline_turbo.Prelude.{
  ℕ, zero, suc, ◌+◌, ◌-◌, ◌*◌, ◌%◌, ◌^◌, min, bit_xor, Bool, true, false, ◌&&◌, not, ◌==◌, Option,
  none, some, List, [], ◌∷◌, ◌++◌, ltb, leb, if◌then◌else◌, take, drop, replicate, get_or, length,
}
use par2cmdline_turbo.Md5Hash.{Md5Hash}
use par2cmdline_turbo.DataBlock.Windows.{window}
use par2cmdline_turbo.Crc.Powers.{update_zeros, slide_char}

-- The functions of the hasher library: `CRC32_Calc`, `MD5CRC_Calc` of some bytes and a number of
-- zeros behind them, `HasherGetBlock` after these bytes and zeros, and the MD5 of all that a
-- context was given.
pub record Hashing : Type 0 where
  pub crc32 : List ℕ → ℕ
  pub md5_crc : List ℕ → ℕ → ℕ × Md5Hash
  pub get_block : List ℕ → ℕ → ℕ × Md5Hash
  pub md5 : List ℕ → Md5Hash

-- `blockhash` is `none` while `hasblockhash` is false. `hasher` holds the bytes of the file that
-- the multi-hash context was given, `none` for null.
pub record CheckSummer : Type 0 where
  pub buffer : List ℕ
  pub outpointer : ℕ
  pub inpointer : ℕ
  pub tailpointer : ℕ
  pub readoffset : ℕ
  pub currentoffset : ℕ
  pub checksum : ℕ
  pub blockhash : Option Md5Hash
  pub contextfull : List ℕ
  pub context16k : List ℕ
  pub hasher : Option (List ℕ)

-- Copies bytes into the buffer; what would go beyond its end is left out.
unfoldable pub write_at : ℕ → List ℕ → List ℕ → List ℕ
write_at zero [] buffer = buffer
write_at zero (x ∷ bytes) [] = []
write_at zero (x ∷ bytes) (y ∷ buffer) = x ∷ write_at zero bytes buffer
write_at (suc position) bytes [] = []
write_at (suc position) bytes (y ∷ buffer) = y ∷ write_at position bytes buffer

-- The constructor, with what the new buffer happens to hold.
abbrev pub new_checksummer : List ℕ → CheckSummer
new_checksummer buffer = record {
  buffer = buffer;
  outpointer = 0;
  inpointer = 0;
  tailpointer = 0;
  readoffset = 0;
  currentoffset = 0;
  checksum = 0;
  blockhash = none;
  contextfull = [];
  context16k = [];
  hasher = none;
}

-- `StopHasher`
unfoldable pub stop_hasher : CheckSummer → CheckSummer
stop_hasher s = elim s.hasher [
  | none ↦ s
  | some fed ↦ record s {
    contextfull =
        (if ltb s.inpointer s.tailpointer
          then fed ++ window s.buffer s.inpointer (s.tailpointer - s.inpointer)
          else fed);
    hasher = none;
  }
]

-- What `UpdateHashes` does to `contextfull`, if the hasher is not used.
unfoldable pub update_full : ℕ → List ℕ → List ℕ → List ℕ → List ℕ
update_full offset bytes context16k contextfull =
    if leb 16384 offset
    then contextfull ++ bytes
    else if leb 16384 (offset + length bytes)
    then (let first = 16384 - offset in
        if ltb 16384 (offset + length bytes)
        then (context16k ++ take first bytes) ++ drop first bytes
        else context16k ++ take first bytes)
    else contextfull

-- What it does to `context16k`.
unfoldable pub update_16k : ℕ → List ℕ → List ℕ → List ℕ
update_16k offset bytes context16k =
    if leb 16384 offset
    then context16k
    else if leb 16384 (offset + length bytes)
    then context16k ++ take (16384 - offset) bytes
    else context16k ++ bytes

-- `UpdateHashes`
unfoldable pub update_hashes : ℕ → List ℕ → CheckSummer → CheckSummer
unfolding update_full update_16k
update_hashes offset bytes s = record s {
  contextfull = elim s.hasher [
    | none ↦ update_full offset bytes s.context16k s.contextfull
    | some fed ↦ s.contextfull
  ];
  context16k = update_16k offset bytes s.context16k;
}

module _ (read : ℕ → ℕ → Option (List ℕ)) (filesize blocksize : ℕ) where
  -- The part of `Fill` that reads `want` bytes.
  unfoldable pub fill_read : ℕ → CheckSummer → Option CheckSummer
  unfolding update_hashes write_at
  fill_read want s =
      if ltb 0 want
      then elim (read s.readoffset want) [
        | none ↦ none
        | some bytes ↦
            let hashed =
              update_hashes s.readoffset bytes
                (record s { buffer = write_at s.tailpointer bytes s.buffer }) in
            some (record hashed {
              readoffset = (s.readoffset + want) % 2 ^ 64;
              tailpointer = s.tailpointer + want;
            })
      ]
      else some s

  -- The part that blanks the buffer up to `target`.
  unfoldable pub fill_blank : ℕ → CheckSummer → CheckSummer
  unfolding write_at
  fill_blank target s =
      let want = target - s.tailpointer in
      if ltb 0 want
      then record s { buffer = write_at s.tailpointer (replicate want 0) s.buffer }
      else s

  -- `Fill`
  unfoldable pub fill : Bool → CheckSummer → Option CheckSummer
  unfolding fill_read fill_blank
  fill longfill s =
      if leb filesize s.readoffset
      then some s
      else if leb blocksize s.tailpointer && not longfill
      then some s
      else (let target = if s.tailpointer == 0 then blocksize else 2 * blocksize in
          let want = min (filesize - s.readoffset) (target - s.tailpointer) in
          elim (fill_read want s) [ none ↦ none | some t ↦ some (fill_blank target t) ])

  module _ (hashing : Hashing) where
    -- `ComputeCurrentChecksum`
    unfoldable pub compute_current_checksum : Bool → CheckSummer → CheckSummer
    compute_current_checksum domd5 s = elim s.hasher [
      | some fed ↦
          let blocklen = min blocksize (filesize - s.currentoffset) in
          let bytes = window s.buffer 0 blocklen in
          let block = hashing.get_block bytes (blocksize - blocklen) in
          record s { hasher = some (fed ++ bytes); checksum = block.0; blockhash = some block.1 }
      | none ↦
          let bytes = window s.buffer 0 blocksize in
          if domd5
          then (let block = hashing.md5_crc bytes 0 in
              record s { checksum = block.0; blockhash = some block.1 })
          else record s { checksum = hashing.crc32 bytes }
    ]

    -- `Start`
    unfoldable pub start : CheckSummer → Option CheckSummer
    unfolding fill compute_current_checksum
    start s =
        let begun = record s {
          currentoffset = 0;
          readoffset = 0;
          tailpointer = 0;
          outpointer = 0;
          inpointer = blocksize;
          hasher = some [];
        } in
        elim (fill false begun) [ none ↦ none | some t ↦ some (compute_current_checksum true t) ]

  -- What `Step` and `Jump` do at the end of the file.
  unfoldable pub at_end : CheckSummer → CheckSummer
  unfolding write_at
  at_end s = record s {
    currentoffset = filesize;
    tailpointer = 0;
    outpointer = 0;
    buffer = write_at 0 (replicate blocksize 0) s.buffer;
    checksum = 0;
  }

  -- The rest of `Step`, when the incoming character is there.
  unfoldable pub slide : CheckSummer → CheckSummer
  unfolding write_at slide_char
  slide s =
      let inch = get_or s.buffer s.inpointer 0 in
      let outch = get_or s.buffer s.outpointer 0 in
      let slid = record s {
        inpointer = s.inpointer + 1;
        outpointer = s.outpointer + 1;
        checksum = slide_char blocksize s.checksum inch outch;
      } in
      if ltb slid.outpointer blocksize then slid else record slid {
        buffer = write_at 0 (window slid.buffer slid.outpointer blocksize) slid.buffer;
        inpointer = slid.outpointer;
        outpointer = 0;
        tailpointer = slid.tailpointer - blocksize;
      }

  -- `Step`
  unfoldable pub step : CheckSummer → Option CheckSummer
  unfolding stop_hasher fill slide at_end
  step s =
      if leb filesize s.currentoffset
      then none
      else (let next = (s.currentoffset + 1) % 2 ^ 64 in
          let stopped = record (stop_hasher s) { blockhash = none; currentoffset = next } in
          if leb filesize next
          then some (at_end stopped)
          else (let ready =
                if leb stopped.tailpointer stopped.inpointer
                then fill true stopped
                else some stopped in
              elim ready [ none ↦ none | some t ↦ some (slide t) ]))

  -- What `Jump` keeps of the buffer.
  unfoldable pub keep_rest : ℕ → CheckSummer → CheckSummer
  unfolding write_at
  keep_rest distance s =
      let from = s.outpointer + distance in
      let keep = s.tailpointer - from in
      record s {
        buffer = if ltb 0 keep then write_at 0 (window s.buffer from keep) s.buffer else s.buffer;
        tailpointer = if ltb 0 keep then keep else 0;
        outpointer = 0;
        inpointer = blocksize;
      }

  -- The rest of `Jump`, when `distance` is limited to a block.
  unfoldable pub jump_ahead : Hashing → ℕ → CheckSummer → Option CheckSummer
  unfolding stop_hasher at_end keep_rest fill compute_current_checksum
  jump_ahead hashing distance s =
      let next = (s.currentoffset + distance) % 2 ^ 64 in
      let stopped = if not (distance == blocksize) && ltb next filesize then stop_hasher s else s in
      let moved = record stopped { blockhash = none; currentoffset = next } in
      if leb filesize next
      then some (at_end moved)
      else elim (fill false (keep_rest distance moved)) [
        | none ↦ none
        | some t ↦ some (compute_current_checksum hashing (distance == blocksize) t)
      ]

  -- `Jump`
  unfoldable pub jump : Hashing → ℕ → CheckSummer → Option CheckSummer
  unfolding step jump_ahead
  jump hashing distance s =
      if leb filesize s.currentoffset
      then none
      else if distance == 0
      then none
      else if distance == 1
      then step s
      else jump_ahead hashing (if ltb blocksize distance then blocksize else distance) s

  -- `BlockLength`
  unfoldable pub block_length : CheckSummer → ℕ
  block_length s = min blocksize (filesize - s.currentoffset)

  -- `ShortBlock`
  unfoldable pub short_block : CheckSummer → Bool
  unfolding block_length
  short_block s = ltb (block_length s) blocksize

module _ (hashing : Hashing) (blocksize : ℕ) where
  -- `Hash`
  unfoldable pub hash : CheckSummer → Md5Hash
  hash s = elim s.blockhash [
    | some h ↦ h
    | none ↦ hashing.md5 (window s.buffer s.outpointer blocksize)
  ]

  -- `ShortChecksum`
  unfoldable pub short_checksum : ℕ → CheckSummer → ℕ
  unfolding update_zeros
  short_checksum blocklength s =
      let crc = hashing.crc32 (window s.buffer s.outpointer blocklength) in
      if ltb blocklength blocksize
      then bit_xor 0xffffffff (update_zeros (bit_xor 0xffffffff crc) (blocksize - blocklength))
      else crc

  -- `ShortHash`
  unfoldable pub short_hash : ℕ → CheckSummer → Md5Hash
  short_hash blocklength s =
      let bytes = window s.buffer s.outpointer blocklength in
      hashing.md5 (
        if ltb blocklength blocksize then bytes ++ replicate (blocksize - blocklength) 0 else bytes)

-- `GetFileHashes`: the hash of the file and that of the first 16k.
unfoldable pub get_file_hashes : Hashing → ℕ → CheckSummer → Md5Hash × Md5Hash
get_file_hashes hashing filesize s =
    let hash16k = hashing.md5 s.context16k in
    let hashfull =
      if ltb filesize 16384
      then hash16k
      else elim s.hasher [ some fed ↦ hashing.md5 fed | none ↦ hashing.md5 s.contextfull ] in
    (hashfull, hash16k)
