-- ===== src/FileCheckSummer/Moves.antt =====
-- Everything that a scan can do with a `FileCheckSummer`: `Start`, and then any steps and jumps, as
-- in `ScanDataFile` of src/par2repairer.cpp.
use mathlib.Core.Option.{some-injective}
use par2cmdline_turbo.Prelude.{
  ℕ, ◌+◌, ◌*◌, ◌^◌, ◌<◌, min, ◌≡◌, ◌⊎◌, inl, inr, refl, ap, sym, subst, ◌∙◌, true, Option, none,
  some, List, length, arith, dec_lt, Bool-cases, le→leb, leb,
}
use par2cmdline_turbo.Crc.Bitwise.{AllBytes}
use par2cmdline_turbo.Crc.Powers.Slide.{crc_of}
use par2cmdline_turbo.DataBlock.Windows.{window, Holds}
use par2cmdline_turbo.FileCheckSummer.{
  Hashing, CheckSummer, new_checksummer, start, step, jump, hash, block_length, short_block,
  short_checksum, short_hash,
}
use par2cmdline_turbo.FileCheckSummer.Scan.{IsHashing, IsLive, IsEnd, IsScan}
use par2cmdline_turbo.FileCheckSummer.Starting.{start-IsScan}
use par2cmdline_turbo.FileCheckSummer.Stepping.{step-IsScan}
use par2cmdline_turbo.FileCheckSummer.Jumping.{jump-IsScan}
use par2cmdline_turbo.FileCheckSummer.Answers.{answers_short, answers_whole}

-- The states that are reached when no call returns false.
pub data Scanned (read : ℕ → ℕ → Option (List ℕ)) (filesize blocksize : ℕ) (hashing : Hashing)
    (buffer : List ℕ) : CheckSummer → Type 0 where
  started :
      (s : CheckSummer)
      → start read filesize blocksize hashing (new_checksummer buffer) ≡ some s
      → Scanned read filesize blocksize hashing buffer s
  stepped :
      (s t : CheckSummer)
      → Scanned read filesize blocksize hashing buffer s
      → step read filesize blocksize s ≡ some t
      → Scanned read filesize blocksize hashing buffer t
  jumped :
      (s t : CheckSummer) (distance : ℕ)
      → Scanned read filesize blocksize hashing buffer s
      → jump read filesize blocksize hashing distance s ≡ some t
      → Scanned read filesize blocksize hashing buffer t

-- A file that is not empty, its disk, the hasher library, and a new buffer.
pub record Setting (content : List ℕ) (read : ℕ → ℕ → Option (List ℕ)) (blocksize : ℕ)
    (hashing : Hashing) (buffer : List ℕ) : Type 0 where
  pub holds : Holds read content
  pub all_bytes : AllBytes content
  pub small : length content + blocksize < 2 ^ 64
  pub documented : IsHashing hashing
  pub size : length buffer ≡ 2 * blocksize
  pub bytes : AllBytes buffer
  pub some_block : 0 < blocksize
  pub some_content : 0 < length content

module _ (content : List ℕ) (read : ℕ → ℕ → Option (List ℕ)) (blocksize : ℕ) (hashing : Hashing)
    (buffer : List ℕ) (setting : Setting content read blocksize hashing buffer) where
  -- At the end of the file there are no moves, nor is there one by nothing.
  step_end :
      (s : CheckSummer) → IsEnd content blocksize s → step read (length content) blocksize s ≡ none
  unfolding step
  step_end s done = rw (le→leb (length content) s.currentoffset (omega (arith, done.ended))) refl

  jump_end :
      (distance : ℕ) (s : CheckSummer)
      → IsEnd content blocksize s
      → jump read (length content) blocksize hashing distance s ≡ none
  unfolding jump
  jump_end distance s done =
      rw (le→leb (length content) s.currentoffset (omega (arith, done.ended))) refl

  jump_nowhere : (s : CheckSummer) → jump read (length content) blocksize hashing 0 s ≡ none
  unfolding jump
  jump_nowhere s = elim (Bool-cases (leb (length content) s.currentoffset)) [
    | inl e ↦ rw e refl
    | inr e ↦ rw e refl
  ]

  never : (o : Option CheckSummer) (t : CheckSummer) → o ≡ none → ¬ (o ≡ some t)
  never o t e f = let g = sym e ∙ f in ground (arith, g)

  -- The only result of a move.
  result :
      (o : Option CheckSummer) (t : CheckSummer)
      → o ≡ some t
      → ((u : CheckSummer) × (o ≡ some u) × IsScan content blocksize hashing u)
      → IsScan content blocksize hashing t
  result o t e (u, f, scan) =
      subst (IsScan content blocksize hashing) (some-injective u t (sym f ∙ e)) scan

  pub begun :
      (u : CheckSummer) × (start read (length content) blocksize hashing (new_checksummer buffer)
        ≡ some u)
      × IsScan content blocksize hashing u
      × (u.currentoffset ≡ 0)
  begun =
      start-IsScan content blocksize hashing read setting.holds setting.all_bytes setting.small
        setting.documented buffer setting.size setting.bytes setting.some_block setting.some_content

  pub moved :
      (distance : ℕ) (s : CheckSummer)
      → IsLive content blocksize hashing s
      → 0 < distance
      → (u : CheckSummer) × (jump read (length content) blocksize hashing distance s ≡ some u)
        × IsScan content blocksize hashing u
        × (u.currentoffset ≡ min (s.currentoffset + min distance blocksize) (length content))
  moved =
      jump-IsScan content blocksize hashing read setting.holds setting.all_bytes setting.small
        setting.documented

  -- Every state reached.
  pub Scanned-IsScan :
      (s : CheckSummer)
      → Scanned read (length content) blocksize hashing buffer s
      → IsScan content blocksize hashing s
  Scanned-IsScan _ (started s e) =
      let (u, f, scan, at) = begun in
      result (start read (length content) blocksize hashing (new_checksummer buffer)) s e
        (u, f, scan)
  Scanned-IsScan _ (stepped s t before e) = elim (Scanned-IsScan s before) [
    | inr done ↦ absurd (never (step read (length content) blocksize s) t (step_end s done) e)
    | inl live ↦
        let (u, f, scan, at) =
          step-IsScan content blocksize hashing read setting.holds setting.all_bytes
            (omega (arith, setting.small)) s live in
        result (step read (length content) blocksize s) t e (u, f, scan)
  ]
  Scanned-IsScan _ (jumped s t distance before e) = elim (Scanned-IsScan s before) [
    | inr done ↦ absurd (
        never (jump read (length content) blocksize hashing distance s) t (jump_end distance s done)
          e)
    | inl live ↦ elim (dec_lt 0 distance) [
      | yes on ↦
          let (u, f, scan, at) = moved distance s live on in
          result (jump read (length content) blocksize hashing distance s) t e (u, f, scan)
      | no still ↦
          let nowhere : 0 ≡ distance = omega arith in
          absurd (
            never (jump read (length content) blocksize hashing distance s) t
              (ap (λ (d : ℕ). jump read (length content) blocksize hashing d s) (sym nowhere)
                ∙ jump_nowhere s)
              e)
    ]
  ]

  pub within-IsLive :
      (s : CheckSummer)
      → s.currentoffset < length content
      → IsScan content blocksize hashing s
      → IsLive content blocksize hashing s
  within-IsLive s h (inl live) = live
  within-IsLive s h (inr done) = absurd (omega (arith, done.ended))

  -- For a file that is not empty and, together with one block, shorter than 2^64 bytes, a block
  -- size that is not 0, a disk without errors, the hasher library as documented and a new buffer
  -- of two blocks, whatever bytes it holds: after `Start` and any steps and jumps that have
  -- succeeded, within the file, `ShortChecksum` and `ShortHash` of `BlockLength` are the CRC and
  -- the MD5 of the block of the file at `Offset`, padded with zeros behind the end of the file;
  -- and unless `ShortBlock` holds, `Checksum` and `Hash` are that CRC and MD5.
  pub Scanned-answers :
      (s : CheckSummer)
      → Scanned read (length content) blocksize hashing buffer s
      → s.currentoffset < length content
      → (short_checksum hashing blocksize (block_length read (length content) blocksize s) s
          ≡ crc_of (window content s.currentoffset blocksize))
        × (short_hash hashing blocksize (block_length read (length content) blocksize s) s
            ≡ hashing.md5 (window content s.currentoffset blocksize))
        × ((short_block read (length content) blocksize s ≡ true)
            ⊎ ((s.checksum ≡ crc_of (window content s.currentoffset blocksize))
                × (hash hashing blocksize s
                    ≡ hashing.md5 (window content s.currentoffset blocksize))))
  Scanned-answers s reached within =
      let live = within-IsLive s within (Scanned-IsScan s reached) in
      let (sum, md5) = answers_short content blocksize hashing setting.documented s live read in
      (sum, md5, answers_whole content blocksize hashing setting.documented s live read)
