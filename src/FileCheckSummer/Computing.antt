-- ===== src/FileCheckSummer/Computing.antt =====
-- `ComputeCurrentChecksum` of src/filechecksummer.cpp.
use mathlib.Core.Path.{ap₂}
use mathlib.Core.Option.{some-injective}
use par2cmdline_turbo.Prelude.{
  ℕ, ◌+◌, ◌-◌, ◌<◌, ◌≤◌, min, ◌≡◌, refl, subst, ap, sym, ◌∙◌, Bool, true, false, Option, none, some,
  List, [], ◌∷◌, ◌++◌, get_or, length, arith, Option-cases, inl, inr,
}
use par2cmdline_turbo.Md5Hash.{Md5Hash}
use par2cmdline_turbo.Crc.Bitwise.{AllBytes}
use par2cmdline_turbo.Crc.Powers.Slide.{crc_of}
use par2cmdline_turbo.DataBlock.Windows.{window, window-add}
use par2cmdline_turbo.FileCheckSummer.{Hashing, CheckSummer, compute_current_checksum, hash}
use par2cmdline_turbo.FileCheckSummer.Memory.{window-blank, zeros, window-ext, window-AllBytes}
use par2cmdline_turbo.FileCheckSummer.Kept.{Kept}
use par2cmdline_turbo.FileCheckSummer.Scan.{IsHashing, IsLive, with_hasher}

append-zeros_none : (bytes : List ℕ) → bytes ++ zeros 0 ≡ bytes
append-zeros_none [] = refl
append-zeros_none (x ∷ bytes) = ap (λ (t : List ℕ). x ∷ t) (append-zeros_none bytes)

module _ (content : List ℕ) (blocksize : ℕ) (read : ℕ → ℕ → Option (List ℕ)) (hashing : Hashing)
    (documented : IsHashing hashing) where
  -- The state in which `ComputeCurrentChecksum` is called.
  pub record IsFilled (s : CheckSummer) : Type 0 where
    pub kept : Kept content blocksize s.currentoffset s
    pub within : s.currentoffset < length content
    pub some_block : 0 < blocksize
    pub out : s.outpointer ≡ 0
    pub inp : s.inpointer ≡ blocksize
    pub enough : min blocksize (length content - s.currentoffset) ≤ s.tailpointer
    pub no_hash : s.blockhash ≡ none
    pub fed :
        (f : List ℕ)
        → s.hasher ≡ some f
        → (f ≡ window content 0 s.currentoffset)
          × (s.tailpointer ≤ blocksize)
          × ((i : ℕ) → s.tailpointer ≤ i → i < blocksize → get_or s.buffer i 0 ≡ 0)

  -- A block that the hasher pads with zeros is the window.
  padded_block :
      (buffer : List ℕ) (n : ℕ)
      → n ≤ blocksize
      → ((i : ℕ) → n ≤ i → i < blocksize → get_or buffer i 0 ≡ 0)
      → window buffer 0 n ++ zeros (blocksize - n) ≡ window buffer 0 blocksize
  padded_block buffer n h blank =
      ap (λ (t : List ℕ). window buffer 0 n ++ t)
        (sym (window-blank buffer n (blocksize - n) (λ i a b. blank i a (omega arith))))
      ∙ sym (window-add buffer 0 n (blocksize - n) n blocksize (omega arith) (omega arith))

  -- The window, if there are no bytes behind it.
  whole_block : (bytes : List ℕ) → bytes ++ zeros 0 ≡ bytes
  whole_block bytes = append-zeros_none bytes

  module _ (s : CheckSummer) (filled : IsFilled s) where
    at_start : window s.buffer 0 blocksize ≡ window s.buffer s.outpointer blocksize
    at_start = ap (λ (t : ℕ). window s.buffer t blocksize) (sym filled.out)

    all_bytes : AllBytes (window s.buffer 0 blocksize)
    all_bytes = window-AllBytes s.buffer 0 blocksize filled.kept.bytes

    -- Whichever way the checksum and the hash were computed.
    IsLive-with :
        (sum : ℕ) (block : Option Md5Hash) (h : Option (List ℕ))
        → sum ≡ crc_of (window s.buffer 0 blocksize)
        → (hash hashing blocksize (record s { blockhash = block })
            ≡ hashing.md5 (window s.buffer s.outpointer blocksize))
        → (h ≡ none → 16384 ≤ s.readoffset → s.contextfull ≡ window content 0 s.readoffset)
        → ((f : List ℕ)
            → h ≡ some f
            → (f ≡ window content 0 s.readoffset) × (s.tailpointer ≤ s.inpointer))
        → IsLive content blocksize hashing
            (record s { checksum = sum; blockhash = block; hasher = h })
    unfolding hash
    IsLive-with sum block h e m full fed = record {
      kept = record {
        size = filled.kept.size;
        bytes = filled.kept.bytes;
        started = filled.kept.started;
        inside = filled.kept.inside;
        reads = filled.kept.reads;
        limit = filled.kept.limit;
        valid = filled.kept.valid;
        first16k = filled.kept.first16k;
        full = full;
      };
      within = filled.within;
      out = omega (arith, filled.out, filled.some_block);
      inp = omega (arith, filled.out, filled.inp);
      enough = omega (arith, filled.out, filled.enough);
      sum = e ∙ ap crc_of at_start;
      md5 = m;
      fed = fed;
    }

    not_fed :
        (f : List ℕ)
        → none ≡ some f
        → (f ≡ window content 0 s.readoffset) × (s.tailpointer ≤ s.inpointer)
    not_fed f e = absurd (ground (arith, e))

    -- Without the multi-hash context.
    compute_alone :
        (domd5 : Bool)
        → s.hasher ≡ none
        → IsLive content blocksize hashing (
            compute_current_checksum read
              (length content)
              blocksize
              hashing
              domd5
              (record s { hasher = none }))
    unfolding compute_current_checksum hash
    compute_alone true e =
        let bytes = window s.buffer 0 blocksize in
        let block = documented.md5_crc bytes 0 all_bytes in
        IsLive-with (hashing.md5_crc bytes 0).0 (some (hashing.md5_crc bytes 0).1) none
          (ap (λ (t : ℕ × Md5Hash). t.0) block ∙ ap crc_of (whole_block bytes))
          (ap (λ (t : ℕ × Md5Hash). t.1) block ∙ ap hashing.md5 (whole_block bytes ∙ at_start))
          (λ h. filled.kept.full e) not_fed
    compute_alone false e =
        IsLive-with (hashing.crc32 (window s.buffer 0 blocksize)) s.blockhash none
          (documented.crc32 (window s.buffer 0 blocksize) all_bytes) (rw filled.no_hash refl)
          (λ h. filled.kept.full e) not_fed

    -- With the multi-hash context, which so far was given what comes before the window.
    compute_fed :
        (domd5 : Bool) (f : List ℕ)
        → s.hasher ≡ some f
        → IsLive content blocksize hashing (
            compute_current_checksum read
              (length content)
              blocksize
              hashing
              domd5
              (record s { hasher = some f }))
    unfolding compute_current_checksum hash
    compute_fed domd5 f e =
        let (before, most, blank) = filled.fed f e in
        let n = min blocksize (length content - s.currentoffset) in
        let bytes = window s.buffer 0 n in
        let tail : s.tailpointer ≡ n =
          omega (arith, filled.kept.reads, filled.kept.limit, filled.out, filled.enough) in
        let block =
          documented.get_block bytes (blocksize - n)
            (window-AllBytes s.buffer 0 n filled.kept.bytes) in
        let padded = padded_block s.buffer n (omega arith) (λ i a b. blank i (omega arith) b) in
        let read_so_far : s.readoffset ≡ s.currentoffset + n =
          omega (arith, filled.kept.reads, filled.out) in
        let next : bytes ≡ window content s.currentoffset n =
          window-ext s.buffer content 0 s.currentoffset n (λ i h.
            ap (λ (t : ℕ). get_or s.buffer (t + i) 0) (sym filled.out)
            ∙ filled.kept.valid i (omega (arith, filled.out))) in
        IsLive-with (hashing.get_block bytes (blocksize - n)).0
          (some (hashing.get_block bytes (blocksize - n)).1) (some (f ++ bytes))
          (ap (λ (t : ℕ × Md5Hash). t.0) block ∙ ap crc_of padded)
          (ap (λ (t : ℕ × Md5Hash). t.1) block ∙ ap hashing.md5 (padded ∙ at_start))
          (λ h. absurd (ground (arith, h)))
          (λ g h. (
            sym (some-injective (f ++ bytes) g h)
                ∙ ap₂ (λ (t u : List ℕ). t ++ u) before next
                ∙ sym (
                    window-add content 0 s.currentoffset n s.currentoffset s.readoffset
                      (omega arith) read_so_far),
            omega (arith, filled.inp, most),
          ))

  -- `ComputeCurrentChecksum` is right about the window.
  pub compute_current_checksum-IsLive :
      (domd5 : Bool) (s : CheckSummer)
      → IsFilled s
      → IsLive content blocksize hashing
          (compute_current_checksum read (length content) blocksize hashing domd5 s)
  compute_current_checksum-IsLive domd5 s filled = elim (Option-cases s.hasher) [
    | inl e ↦
        subst
          (λ (t : CheckSummer).
            IsLive content blocksize hashing
              (compute_current_checksum read (length content) blocksize hashing domd5 t))
          (sym (with_hasher s none e)) (compute_alone s filled domd5 e)
    | inr (f, e) ↦
        subst
          (λ (t : CheckSummer).
            IsLive content blocksize hashing
              (compute_current_checksum read (length content) blocksize hashing domd5 t))
          (sym (with_hasher s (some f) e)) (compute_fed s filled domd5 f e)
  ]

  pub currentoffset-compute_current_checksum :
      (domd5 : Bool) (s : CheckSummer)
      → (compute_current_checksum read (length content) blocksize hashing domd5 s).currentoffset
        ≡ s.currentoffset
  unfolding compute_current_checksum
  currentoffset-compute_current_checksum true s = elim (Option-cases s.hasher) [
    | inl e ↦ rw e refl
    | inr (f, e) ↦ rw e refl
  ]
  currentoffset-compute_current_checksum false s = elim (Option-cases s.hasher) [
    | inl e ↦ rw e refl
    | inr (f, e) ↦ rw e refl
  ]
