-- ===== src/FileCheckSummer/Kept.antt =====
-- What the buffer holds, and what the two parts of `Fill` do to it.
use par2cmdline_turbo.Prelude.{
  ℕ, ◌+◌, ◌-◌, ◌*◌, ◌%◌, ◌^◌, ◌<◌, ◌≤◌, min, ◌≡◌, refl, ap, ◌∙◌, Option, none, some, List, get_or,
  length, arith, dec_lt, lt→ltb, le→ltb,
}
use par2cmdline_turbo.Crc.Bitwise.{AllBytes}
use par2cmdline_turbo.DataBlock.Windows.{window, Holds}
use par2cmdline_turbo.FileCheckSummer.{
  CheckSummer, write_at, update_hashes, update_full, update_16k, fill_read, fill_blank,
}
use par2cmdline_turbo.FileCheckSummer.Memory.{
  length-write_at, get_or-write_at, get_or-write_before, get_or-window, length-window,
  take-drop-window, zeros, get_or-zeros, length-zeros, zeros-AllBytes, window-AllBytes,
  write_at-AllBytes,
}
use par2cmdline_turbo.FileCheckSummer.Contexts.{update_16k_lem, update_full_lem}

-- The buffer holds the bytes of the file from `base` on, up to where it has been read, and the
-- hashes of the file are those of what has been read.
pub record Kept (content : List ℕ) (blocksize base : ℕ) (s : CheckSummer) : Type 0 where
  pub size : length s.buffer ≡ 2 * blocksize
  pub bytes : AllBytes s.buffer
  pub started : s.outpointer ≤ s.tailpointer
  pub inside : s.tailpointer ≤ 2 * blocksize
  pub reads : s.readoffset ≡ base + (s.tailpointer - s.outpointer)
  pub limit : s.readoffset ≤ length content
  pub valid :
      (i : ℕ)
      → i < s.tailpointer - s.outpointer
      → get_or s.buffer (s.outpointer + i) 0 ≡ get_or content (base + i) 0
  pub first16k : s.context16k ≡ window content 0 (min s.readoffset 16384)
  pub full : s.hasher ≡ none → 16384 ≤ s.readoffset → s.contextfull ≡ window content 0 s.readoffset

-- What `Fill` changes.
pub record Load : Type 0 where
  pub buffer : List ℕ
  pub tailpointer : ℕ
  pub readoffset : ℕ
  pub contextfull : List ℕ
  pub context16k : List ℕ

abbrev pub loaded : CheckSummer → Load → CheckSummer
loaded s l = record s {
  buffer = l.buffer;
  tailpointer = l.tailpointer;
  readoffset = l.readoffset;
  contextfull = l.contextfull;
  context16k = l.context16k;
}

-- The bytes that were valid, and the new ones behind them.
extended :
    (content buffer : List ℕ) (base out tail r want : ℕ)
    → out ≤ tail
    → tail + want ≤ length buffer
    → r ≡ base + (tail - out)
    → ((i : ℕ) → i < tail - out → get_or buffer (out + i) 0 ≡ get_or content (base + i) 0)
    → (i : ℕ) → i < tail + want - out
    → get_or (write_at tail (window content r want) buffer) (out + i) 0
      ≡ get_or content (base + i) 0
extended content buffer base out tail r want h k e valid i l = elim (dec_lt i (tail - out)) [
  | yes old ↦
      get_or-write_before tail (out + i) (window content r want) buffer (omega arith) ∙ valid i old
  | no new ↦
      let j = out + i - tail in
      get_or-write_at tail j (out + i) (window content r want) buffer
        (omega (arith, length-window content r want)) (omega arith) (omega arith)
      ∙ get_or-window content r want j (base + i) (omega arith) (omega arith)
]

module _ (content : List ℕ) (blocksize base : ℕ) (read : ℕ → ℕ → Option (List ℕ))
    (holds : Holds read content) (all_bytes : AllBytes content)
    (small : length content < 2 ^ 64) where
  -- The part that reads.
  pub fill_read-Kept :
      (want : ℕ) (s : CheckSummer)
      → Kept content blocksize base s
      → want ≤ length content - s.readoffset
      → want ≤ 2 * blocksize - s.tailpointer
      → (l : Load) × (fill_read read (length content) blocksize want s ≡ some (loaded s l))
        × Kept content blocksize base (loaded s l)
        × (l.tailpointer ≡ s.tailpointer + want)
        × (l.readoffset ≡ s.readoffset + want)
  unfolding fill_read update_hashes
  fill_read-Kept want s kept h k = elim (dec_lt 0 want) [
    | no none_wanted ↦
        let l : Load = record {
          buffer = s.buffer;
          tailpointer = s.tailpointer;
          readoffset = s.readoffset;
          contextfull = s.contextfull;
          context16k = s.context16k;
        } in
        (l, rw (le→ltb 0 want (omega arith)) refl, kept, omega arith, omega arith)
    | yes wanted ↦
        let r = s.readoffset in
        let new = window content r want in
        let there : read r want ≡ some new =
          holds r want (omega (arith, kept.limit))
          ∙ ap some (take-drop-window content r want (omega (arith, kept.limit))) in
        let no_wrap : (r + want) % 2 ^ 64 ≡ r + want = omega (arith, kept.limit) in
        let full : List ℕ = elim s.hasher [
          | none ↦ update_full r new s.context16k s.contextfull
          | some fed ↦ s.contextfull
        ] in
        let l : Load = record {
          buffer = write_at s.tailpointer new s.buffer;
          tailpointer = s.tailpointer + want;
          readoffset = r + want;
          contextfull = full;
          context16k = update_16k r new s.context16k;
        } in
        (
          l,
          rw (lt→ltb 0 want wanted, there, no_wrap) refl,
          record {
            size = length-write_at s.tailpointer new s.buffer ∙ kept.size;
            bytes =
                write_at-AllBytes s.tailpointer new s.buffer
                  (window-AllBytes content r want all_bytes) kept.bytes;
            started = omega (arith, kept.started);
            inside = omega (arith, kept.inside);
            reads = omega (arith, kept.reads, kept.started);
            limit = omega (arith, kept.limit);
            valid =
                extended content s.buffer base s.outpointer s.tailpointer r want kept.started
                  (omega (arith, kept.size, kept.inside)) kept.reads kept.valid;
            first16k = update_16k_lem content s.context16k r want kept.first16k;
            full = λ e m. rw e (
                update_full_lem content s.context16k s.contextfull r want kept.first16k
                  (kept.full e) m);
          },
          refl,
          refl,
        )
  ]

  -- The part that blanks.
  pub fill_blank-Kept :
      (target : ℕ) (s : CheckSummer)
      → Kept content blocksize base s
      → target ≤ 2 * blocksize
      → (b : List ℕ) × (fill_blank read (length content) blocksize target s
          ≡ record s { buffer = b })
        × Kept content blocksize base (record s { buffer = b })
        × ((i : ℕ) → s.tailpointer ≤ i → i < target → get_or b i 0 ≡ 0)
  unfolding fill_blank
  fill_blank-Kept target s kept h = elim (dec_lt s.tailpointer target) [
    | no none_wanted ↦ (
      s.buffer,
      rw (le→ltb 0 (target - s.tailpointer) (omega arith)) refl,
      kept,
      λ i p q. absurd (omega arith),
    )
    | yes wanted ↦
        let tail = s.tailpointer in
        let want = target - tail in
        let b = write_at tail (zeros want) s.buffer in
        (
          b,
          rw (lt→ltb 0 want (omega arith)) refl,
          record {
            started = kept.started;
            inside = kept.inside;
            reads = kept.reads;
            limit = kept.limit;
            first16k = kept.first16k;
            full = kept.full;
            size = length-write_at tail (zeros want) s.buffer ∙ kept.size;
            bytes = write_at-AllBytes tail (zeros want) s.buffer (zeros-AllBytes want) kept.bytes;
            valid = λ i l.
                get_or-write_before tail (s.outpointer + i) (zeros want) s.buffer (omega arith)
                ∙ kept.valid i l;
          },
          λ i p q.
              get_or-write_at tail (i - tail) i (zeros want) s.buffer
                (omega (arith, length-zeros want)) (omega arith) (omega (arith, kept.size))
              ∙ get_or-zeros want (i - tail),
        )
  ]
