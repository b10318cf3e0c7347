-- ===== src/FileCheckSummer/Matching.antt =====
-- `FindMatch` of include/par2/verificationhashtable.h, asked during a scan.
use par2cmdline_turbo.Prelude.{
  ℕ, ◌+◌, ◌-◌, ◌≤◌, ◌≡◌, ◌⊎◌, inl, inr, ap, sym, subst, ◌∙◌, ◌==◌, true, Option, some, List, ◌++◌,
  length, arith,
}
use par2cmdline_turbo.Md5Hash.{Md5Hash, hash_eq, value, hash_lt-eq-value}
use par2cmdline_turbo.Crc.Powers.Slide.{crc_of}
use par2cmdline_turbo.DataBlock.Windows.{window}
use par2cmdline_turbo.HashTable.Tree.{Entry}
use par2cmdline_turbo.HashTable.Chains.{IsOrdered}
use par2cmdline_turbo.HashTable.Table.{Table, bucket}
use par2cmdline_turbo.HashTable.Match.{Window, Blocks, find_match}
use par2cmdline_turbo.HashTable.Match.Sound.{find_match_sound}
use par2cmdline_turbo.FileCheckSummer.{
  Hashing, CheckSummer, hash, block_length, short_block, short_checksum, short_hash,
}
use par2cmdline_turbo.FileCheckSummer.Memory.{zeros}
use par2cmdline_turbo.FileCheckSummer.Answers.{held, answers_part, append-zeros}
use par2cmdline_turbo.FileCheckSummer.Scan.{IsLive}
use par2cmdline_turbo.FileCheckSummer.Moves.{Scanned, Setting, Scanned-IsScan, within-IsLive}

-- What `FindMatch` asks a `FileCheckSummer` for.
abbrev pub asked : (ℕ → ℕ → Option (List ℕ)) → ℕ → ℕ → Hashing → ℕ → CheckSummer → Window
asked read filesize blocksize hashing diskfile s = record {
  checksum = s.checksum;
  hash = hash hashing blocksize s;
  short_checksum = λ n. short_checksum hashing blocksize n s;
  short_hash = λ n. short_hash hashing blocksize n s;
  short_block = short_block read filesize blocksize s;
  block_length = block_length read filesize blocksize s;
  offset = s.currentoffset;
  diskfile = diskfile;
}

hash_eq_sym : (a b : Md5Hash) → hash_eq a b ≡ true → hash_eq b a ≡ true
hash_eq_sym a b h =
    let (less, same) = hash_lt-eq-value a b in
    let (more, back) = hash_lt-eq-value b a in
    let e : (value a == value b) ≡ true = sym same ∙ h in
    let f : (value b == value a) ≡ true = ground (arith, e) in back ∙ f

-- The first bytes of a file at an offset, with zeros behind them up to the size of a block.
abbrev pub padded_data : List ℕ → ℕ → ℕ → ℕ → List ℕ
padded_data content blocksize offset n = window content offset n ++ zeros (blocksize - n)

module _ (content : List ℕ) (read : ℕ → ℕ → Option (List ℕ)) (blocksize : ℕ) (hashing : Hashing)
    (buffer : List ℕ) (setting : Setting content read blocksize hashing buffer) (b : Blocks)
    (diskfile : ℕ) (s : CheckSummer)
    (reached : Scanned read (length content) blocksize hashing buffer s)
    (whole : s.currentoffset + blocksize ≤ length content) where
  live : IsLive content blocksize hashing s
  live =
      within-IsLive content read blocksize hashing buffer setting s
        (omega (arith, setting.some_block))
        (Scanned-IsScan content read blocksize hashing buffer setting s reached)

  all_in :
      window content s.currentoffset blocksize
      ≡ padded_data content blocksize s.currentoffset blocksize
  all_in = sym (
      append-zeros (window content s.currentoffset blocksize) (blocksize - blocksize) (omega arith))

  -- The checksum and the hash of the whole window.
  full :
      (s.checksum ≡ crc_of (padded_data content blocksize s.currentoffset blocksize))
      × (hash hashing blocksize s
          ≡ hashing.md5 (padded_data content blocksize s.currentoffset blocksize))
  full =
      let same =
        held content blocksize hashing setting.documented s live blocksize
          (omega (arith, live.enough))
        ∙ all_in in
      (live.sum ∙ ap crc_of same, live.md5 ∙ ap hashing.md5 same)

  -- The entry has the CRC and the MD5 of data that the file has at the offset.
  abbrev pub IsInFile : Entry → Type 0
  IsInFile e =
      (n : ℕ) × (n ≤ blocksize)
      × (hash_eq e.hash (hashing.md5 (padded_data content blocksize s.currentoffset n)) ≡ true)
      × ((e.crc ≡ crc_of (padded_data content blocksize s.currentoffset n))
          ⊎ (e.crc ≡ crc_of (padded_data content blocksize s.currentoffset blocksize)))

  -- For a file that is not empty and, together with one block, shorter than 2^64 bytes, a block
  -- size that is not 0, a disk without errors, the hasher library as documented and a new buffer
  -- of two blocks; a state that is reached by `Start` and moves and has a whole block of the file
  -- at `Offset`; a table whose bucket for the checksum is ordered; and a suggested entry, if any,
  -- whose block is not longer than the block size: an entry that `FindMatch` returns, when it is
  -- asked with this `FileCheckSummer`, has as its hash the MD5 of bytes of the file at `Offset`,
  -- a block or fewer, padded with zeros to a block; and its checksum is the CRC of those, or of
  -- the whole block at `Offset`.
  pub find_match-Scanned :
      (t : Table) (suggested : Option Entry) (sourcefile : Option ℕ) (lo hi : ℕ) (e : Entry)
      → ((x : Entry) → suggested ≡ some x → b.length x.datablock ≤ blocksize)
      → IsOrdered lo hi (bucket t s.checksum)
      → (find_match
          (asked read (length content) blocksize hashing diskfile s)
          b
          t
          suggested
          sourcefile).entry
        ≡ some e
      → IsInFile e
  find_match-Scanned t suggested sourcefile lo hi e fits o h =
      let w = asked read (length content) blocksize hashing diskfile s in
      elim (find_match_sound w b t suggested sourcefile lo hi e o h) [
        | inl (same, inl (last, sum, md5)) ↦
            let n = b.length e.datablock in
            let most = fits e same in
            let (crc, digest) =
              answers_part content blocksize hashing setting.documented s live n most
                (omega arith) in
            (
              n,
              most,
              hash_eq_sym _ e.hash (subst (λ (t : Md5Hash). hash_eq t e.hash ≡ true) digest md5),
              inl (sym sum ∙ crc),
            )
        | inl (same, inr (free, sum, md5)) ↦ (
          blocksize,
          omega arith,
          hash_eq_sym _ e.hash (subst (λ (t : Md5Hash). hash_eq t e.hash ≡ true) full.1 md5),
          inr (sum ∙ full.0),
        )
        | inr (sum, (md5, inl used, agrees)) ↦ (
          blocksize,
          omega arith,
          subst (λ (t : Md5Hash). hash_eq e.hash t ≡ true) (used ∙ full.1) agrees,
          inr (sum ∙ full.0),
        )
        | inr (sum, (md5, inr (x, same, last, short, used), agrees)) ↦
            let n = b.length x.datablock in
            let most = fits x same in
            let (crc, digest) =
              answers_part content blocksize hashing setting.documented s live n most
                (omega arith) in
            (
              n,
              most,
              subst (λ (t : Md5Hash). hash_eq e.hash t ≡ true) (used ∙ digest) agrees,
              inr (sum ∙ full.0),
            )
      ]
