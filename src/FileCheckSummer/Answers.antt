-- ===== src/FileCheckSummer/Answers.antt =====
-- What `FindMatch` is told about the window.
use par2cmdline_turbo.Prelude.{
  ℕ, zero, suc, ◌+◌, ◌-◌, ◌≤◌, min, bit_xor, ◌≡◌, ◌⊎◌, inl, inr, refl, Option, ap, sym, ◌∙◌, true,
  List, [], ◌∷◌, ◌++◌, length, arith, dec_lt, lt→ltb, le→ltb,
}
use par2cmdline_turbo.Bits.Xor.{xor_cancel}
use par2cmdline_turbo.Crc.{ccitt, update_char, update_block}
use par2cmdline_turbo.Crc.Bitwise.{AllBytes, update_block-eq-bitwise}
use par2cmdline_turbo.Crc.Powers.{update_zeros}
use par2cmdline_turbo.Crc.Powers.Zeros.{update_zeros-eq-update_block}
use par2cmdline_turbo.Crc.Powers.Slide.{crc_of}
use par2cmdline_turbo.DataBlock.Windows.{window, window-add, get_or-past}
use par2cmdline_turbo.FileCheckSummer.{
  Hashing, CheckSummer, hash, block_length, short_block, short_checksum, short_hash,
}
use par2cmdline_turbo.FileCheckSummer.Memory.{zeros, window-ext, window-AllBytes, window-blank}
use par2cmdline_turbo.FileCheckSummer.Scan.{IsHashing, IsLive}

update_block-append :
    (crc : ℕ) (xs ys : List ℕ)
    → update_block ccitt crc (xs ++ ys) ≡ update_block ccitt (update_block ccitt crc xs) ys
unfolding update_block
update_block-append crc [] ys = refl
update_block-append crc (x ∷ xs) ys = update_block-append (update_char ccitt crc x) xs ys

pub append-zeros : (bytes : List ℕ) (n : ℕ) → n ≡ 0 → bytes ++ zeros n ≡ bytes
append-zeros [] zero h = refl
append-zeros [] (suc n) h = absurd (omega arith)
append-zeros (x ∷ bytes) n h = ap (λ (t : List ℕ). x ∷ t) (append-zeros bytes n h)

-- The CRC of some bytes, brought up to date with zeros behind them.
crc_of-zeros :
    (bytes : List ℕ) (n : ℕ)
    → AllBytes bytes
    → bit_xor 0xffffffff (update_zeros (bit_xor 0xffffffff (crc_of bytes)) n)
      ≡ crc_of (bytes ++ zeros n)
crc_of-zeros bytes n h =
    let crc = update_block ccitt 0xffffffff bytes in
    let (same, small) =
      update_block-eq-bitwise ccitt 0xffffffff bytes (omega arith) (omega arith) h in
    ap (bit_xor 0xffffffff) (
      ap (λ (t : ℕ). update_zeros t n) (xor_cancel 0xffffffff crc)
      ∙ update_zeros-eq-update_block crc n small
      ∙ sym (update_block-append 0xffffffff bytes (zeros n)))

module _ (content : List ℕ) (blocksize : ℕ) (hashing : Hashing) (documented : IsHashing hashing)
    (s : CheckSummer) (live : IsLive content blocksize hashing s) where
  -- The bytes of the file in the window.
  pub held :
      (n : ℕ)
      → n ≤ s.tailpointer - s.outpointer
      → window s.buffer s.outpointer n ≡ window content s.currentoffset n
  held n h =
      window-ext s.buffer content s.outpointer s.currentoffset n
        (λ i k. live.kept.valid i (omega arith))

  -- With the zeros that are behind the end of the file.
  padded :
      (n : ℕ)
      → n ≡ min blocksize (length content - s.currentoffset)
      → window s.buffer s.outpointer n ++ zeros (blocksize - n)
        ≡ window content s.currentoffset blocksize
  padded n e =
      let after = s.currentoffset + n in
      let beyond : window content after (blocksize - n) ≡ zeros (blocksize - n) =
        window-blank content after (blocksize - n) (λ i a b. get_or-past i content (omega arith)) in
      ap (λ (t : List ℕ). t ++ zeros (blocksize - n)) (held n (omega (arith, live.enough)))
      ∙ ap (λ (t : List ℕ). window content s.currentoffset n ++ t) (sym beyond)
      ∙ sym
          (window-add content s.currentoffset n (blocksize - n) after blocksize refl (omega arith))

  -- The first bytes of the window, with zeros in place of the others.
  short_lem :
      (n : ℕ)
      → n ≤ blocksize
      → (short_checksum hashing blocksize n s
          ≡ crc_of (window s.buffer s.outpointer n ++ zeros (blocksize - n)))
        × (short_hash hashing blocksize n s
            ≡ hashing.md5 (window s.buffer s.outpointer n ++ zeros (blocksize - n)))
  unfolding short_checksum short_hash
  short_lem n h =
      let bytes = window s.buffer s.outpointer n in
      let valid = window-AllBytes s.buffer s.outpointer n live.kept.bytes in
      let sum = documented.crc32 bytes valid in
      elim (dec_lt n blocksize) [
        | yes part ↦
            let test = lt→ltb n blocksize part in
            (
              rw test (
                  ap
                    (λ (t : ℕ).
                      bit_xor 0xffffffff (update_zeros (bit_xor 0xffffffff t) (blocksize - n)))
                    sum
                  ∙ crc_of-zeros bytes (blocksize - n) valid),
              rw (short_hash, test) refl,
            )
        | no whole ↦
            let test = le→ltb n blocksize (omega arith) in
            let same = append-zeros bytes (blocksize - n) (omega arith) in
            (
              rw test (sum ∙ ap crc_of (sym same)),
              rw (short_hash, test) (ap hashing.md5 (sym same)),
            )
      ]

  -- At least as many bytes as are asked for, in the file and in the window.
  pub answers_part :
      (n : ℕ)
      → n ≤ blocksize
      → s.currentoffset + n ≤ length content
      → (short_checksum hashing blocksize n s
          ≡ crc_of (window content s.currentoffset n ++ zeros (blocksize - n)))
        × (short_hash hashing blocksize n s
            ≡ hashing.md5 (window content s.currentoffset n ++ zeros (blocksize - n)))
  answers_part n h k =
      let (sum, md5) = short_lem n h in
      let same =
        ap (λ (t : List ℕ). t ++ zeros (blocksize - n)) (held n (omega (arith, live.enough))) in
      (sum ∙ ap crc_of same, md5 ∙ ap hashing.md5 same)

  -- The window is `blocksize` bytes of the file, with zeros behind its end.
  pub answers_short :
      (read : ℕ → ℕ → Option (List ℕ))
      → (short_checksum hashing blocksize (block_length read (length content) blocksize s) s
          ≡ crc_of (window content s.currentoffset blocksize))
        × (short_hash hashing blocksize (block_length read (length content) blocksize s) s
            ≡ hashing.md5 (window content s.currentoffset blocksize))
  unfolding block_length
  answers_short read =
      let n = min blocksize (length content - s.currentoffset) in
      let (sum, md5) = short_lem n (omega arith) in
      (sum ∙ ap crc_of (padded n refl), md5 ∙ ap hashing.md5 (padded n refl))

  pub answers_whole :
      (read : ℕ → ℕ → Option (List ℕ))
      → (short_block read (length content) blocksize s ≡ true)
        ⊎ ((s.checksum ≡ crc_of (window content s.currentoffset blocksize))
            × (hash hashing blocksize s ≡ hashing.md5 (window content s.currentoffset blocksize)))
  unfolding short_block block_length
  answers_whole read =
      let n = min blocksize (length content - s.currentoffset) in
      elim (dec_lt n blocksize) [
        | yes part ↦ inl (lt→ltb n blocksize part)
        | no whole ↦
            let same = held blocksize (omega (arith, live.enough)) in
            inr (live.sum ∙ ap crc_of same, live.md5 ∙ ap hashing.md5 same)
      ]
