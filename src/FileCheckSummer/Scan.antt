-- ===== src/FileCheckSummer/Scan.antt =====
-- What `FileCheckSummer` is in between two calls, and what `StopHasher` does then.
use par2cmdline_turbo.Prelude.{
  ℕ, ◌+◌, ◌-◌, ◌<◌, ◌≤◌, min, ◌≡◌, ◌⊎◌, refl, ap, Option, none, some, List, ◌++◌, length, le→ltb,
  Option-cases, inl, inr,
}
use par2cmdline_turbo.Crc.Bitwise.{AllBytes}
use par2cmdline_turbo.Crc.Powers.Slide.{crc_of}
use par2cmdline_turbo.DataBlock.Windows.{window}
use par2cmdline_turbo.FileCheckSummer.{Hashing, CheckSummer, stop_hasher, hash}
use par2cmdline_turbo.FileCheckSummer.Memory.{zeros}
use par2cmdline_turbo.FileCheckSummer.Kept.{Kept}

-- The hasher library: every CRC is that of the bytes and the zeros behind them, and so is every
-- MD5 hash.
pub record IsHashing (hashing : Hashing) : Type 0 where
  pub crc32 : (bytes : List ℕ) → AllBytes bytes → hashing.crc32 bytes ≡ crc_of bytes
  pub md5_crc :
      (bytes : List ℕ) (n : ℕ)
      → AllBytes bytes
      → hashing.md5_crc bytes n ≡ (crc_of (bytes ++ zeros n), hashing.md5 (bytes ++ zeros n))
  pub get_block :
      (bytes : List ℕ) (n : ℕ)
      → AllBytes bytes
      → hashing.get_block bytes n ≡ (crc_of (bytes ++ zeros n), hashing.md5 (bytes ++ zeros n))

-- Within the file: there is a block in the buffer, or all of the file that is left; the checksum
-- and the hash are those of the bytes in the window; and the multi-hash context was given all
-- that has been read, which is the window and not more.
pub record IsLive (content : List ℕ) (blocksize : ℕ) (hashing : Hashing) (s : CheckSummer)
    : Type 0 where
  pub kept : Kept content blocksize s.currentoffset s
  pub within : s.currentoffset < length content
  pub out : s.outpointer < blocksize
  pub inp : s.inpointer ≡ s.outpointer + blocksize
  pub enough : min blocksize (length content - s.currentoffset) ≤ s.tailpointer - s.outpointer
  pub sum : s.checksum ≡ crc_of (window s.buffer s.outpointer blocksize)
  pub md5 : hash hashing blocksize s ≡ hashing.md5 (window s.buffer s.outpointer blocksize)
  pub fed :
      (f : List ℕ)
      → s.hasher ≡ some f
      → (f ≡ window content 0 s.readoffset) × (s.tailpointer ≤ s.inpointer)

-- At the end of the file: the window is blank, and all of the file has been read.
pub record IsEnd (content : List ℕ) (blocksize : ℕ) (s : CheckSummer) : Type 0 where
  pub ended : s.currentoffset ≡ length content
  pub sum : s.checksum ≡ 0
  pub blank : window s.buffer s.outpointer blocksize ≡ zeros blocksize
  pub first16k : s.context16k ≡ window content 0 (min (length content) 16384)
  pub full :
      s.hasher ≡ none → 16384 ≤ length content → s.contextfull ≡ window content 0 (length content)
  pub fed : (f : List ℕ) → s.hasher ≡ some f → f ≡ window content 0 (length content)

-- Either of them.
abbrev pub IsScan : List ℕ → ℕ → Hashing → CheckSummer → Type 0
IsScan content blocksize hashing s = IsLive content blocksize hashing s ⊎ IsEnd content blocksize s

pub with_hasher :
    (s : CheckSummer) (h : Option (List ℕ)) → s.hasher ≡ h → s ≡ record s { hasher = h }
with_hasher s h e = ap (λ (t : Option (List ℕ)). record s { hasher = t }) e

-- `StopHasher` in between two calls.
pub stop_hasher-IsLive :
    (content : List ℕ) (blocksize : ℕ) (hashing : Hashing) (s : CheckSummer)
    → IsLive content blocksize hashing s
    → (c : List ℕ) × (stop_hasher s ≡ record s { contextfull = c; hasher = none })
      × (16384 ≤ s.readoffset → c ≡ window content 0 s.readoffset)
unfolding stop_hasher
stop_hasher-IsLive content blocksize hashing s live = elim (Option-cases s.hasher) [
  | inl e ↦ (s.contextfull, ap stop_hasher (with_hasher s none e), live.kept.full e)
  | inr (f, e) ↦
      let (all, most) = live.fed f e in
      (f, rw (e, le→ltb s.inpointer s.tailpointer most) refl, λ long. all)
]
