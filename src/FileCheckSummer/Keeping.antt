-- ===== src/FileCheckSummer/Keeping.antt =====
-- What `Jump` keeps of the buffer.
use par2cmdline_turbo.Prelude.{
  ℕ, ◌+◌, ◌-◌, ◌*◌, ◌<◌, ◌≤◌, ◌≡◌, refl, ap, ◌∙◌, Bool, Option, List, get_or, length, arith, dec_lt,
  lt→ltb, le→ltb, if◌then◌else◌,
}
use par2cmdline_turbo.Crc.Bitwise.{AllBytes}
use par2cmdline_turbo.DataBlock.Windows.{window}
use par2cmdline_turbo.FileCheckSummer.{Hashing, CheckSummer, write_at}
use par2cmdline_turbo.FileCheckSummer.Memory.{
  length-write_at, get_or-write_at, get_or-window, length-window, window-AllBytes,
  write_at-AllBytes,
}
use par2cmdline_turbo.FileCheckSummer.Scan.{IsLive}
use par2cmdline_turbo.FileCheckSummer.{keep_rest}

module _ (content : List ℕ) (blocksize : ℕ) (read : ℕ → ℕ → Option (List ℕ)) where
  -- What is kept is moved to the start of the buffer.
  pub keep_rest_lem :
      (distance : ℕ) (s : CheckSummer)
      → length s.buffer ≡ 2 * blocksize
      → AllBytes s.buffer
      → s.tailpointer ≤ 2 * blocksize
      → (b : List ℕ) × (keep_rest read (length content) blocksize distance s ≡ record s {
        buffer = b;
        tailpointer = s.tailpointer - (s.outpointer + distance);
        outpointer = 0;
        inpointer = blocksize;
      })
        × (length b ≡ 2 * blocksize)
        × AllBytes b
        × ((i : ℕ)
            → i < s.tailpointer - (s.outpointer + distance)
            → get_or b (0 + i) 0 ≡ get_or s.buffer (s.outpointer + distance + i) 0)
  unfolding keep_rest
  keep_rest_lem distance s size bytes inside =
      let from = s.outpointer + distance in
      let keep = s.tailpointer - from in
      let rest = window s.buffer from keep in
      let moved = write_at 0 rest s.buffer in
      let result : Bool → CheckSummer = λ (t : Bool). record s {
        buffer = if t then moved else s.buffer;
        tailpointer = if t then keep else 0;
        outpointer = 0;
        inpointer = blocksize;
      } in
      elim (dec_lt 0 keep) [
        | yes some_left ↦ (
          moved,
          ap result (lt→ltb 0 keep some_left),
          length-write_at 0 rest s.buffer ∙ size,
          write_at-AllBytes 0 rest s.buffer (window-AllBytes s.buffer from keep bytes) bytes,
          λ i h.
              get_or-write_at 0 i (0 + i) rest s.buffer
                (omega (arith, length-window s.buffer from keep)) (omega arith)
                (omega (arith, size))
              ∙ get_or-window s.buffer from keep i (from + i) h refl,
        )
        | no none_left ↦
            let none_kept : 0 ≡ keep = omega arith in
            (
              s.buffer,
              ap result (le→ltb 0 keep (omega arith))
                  ∙ ap
                      (λ (t : ℕ). record s {
                        tailpointer = t;
                        outpointer = 0;
                        inpointer = blocksize;
                      })
                      none_kept,
              size,
              bytes,
              λ i h. absurd (omega arith),
            )
      ]

module _ (content : List ℕ) (blocksize : ℕ) (hashing : Hashing) where
  -- The rest of the window and of the buffer.
  pub valid_on :
      (s : CheckSummer) (distance : ℕ)
      → IsLive content blocksize hashing s
      → (i : ℕ) → i < s.tailpointer - (s.outpointer + distance)
      → get_or s.buffer (s.outpointer + distance + i) 0
        ≡ get_or content (s.currentoffset + distance + i) 0
  valid_on s distance live i h =
      let here : s.outpointer + distance + i ≡ s.outpointer + (distance + i) = omega arith in
      let there : s.currentoffset + (distance + i) ≡ s.currentoffset + distance + i = omega arith in
      ap (λ (t : ℕ). get_or s.buffer t 0) here
      ∙ live.kept.valid (distance + i) (omega arith)
      ∙ ap (λ (t : ℕ). get_or content t 0) there
