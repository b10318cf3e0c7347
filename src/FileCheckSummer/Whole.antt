-- ===== src/FileCheckSummer/Whole.antt =====
-- A scan of a whole file: that it ends, and the hashes of the file.
use mathlib.Core.Path.{ap₂}
use par2cmdline_turbo.Prelude.{
  ℕ, zero, suc, ◌+◌, ◌<◌, ◌≤◌, min, ◌≡◌, inl, inr, refl, ap, sym, ◌∙◌, Option, none, some, List,
  length, take, arith, dec_lt, Option-cases, ltb, lt→ltb, le→ltb, if◌then◌else◌,
}
use par2cmdline_turbo.DataBlock.Windows.{window}
use par2cmdline_turbo.FileCheckSummer.{
  Hashing, CheckSummer, new_checksummer, start, jump, get_file_hashes,
}
use par2cmdline_turbo.FileCheckSummer.Memory.{window-whole}
use par2cmdline_turbo.FileCheckSummer.Scan.{IsEnd}
use par2cmdline_turbo.DataBlock.Windows.{take-min_length}
use par2cmdline_turbo.FileCheckSummer.Memory.{take-drop-window}
use par2cmdline_turbo.FileCheckSummer.Moves.{
  Scanned, started, jumped, Setting, Scanned-IsScan, within-IsLive, moved, begun,
}

-- The loop of `ScanDataFile`, with what it decides in each round as a function of the state: how
-- far to jump.
unfoldable pub scan_loop :
    (ℕ → ℕ → Option (List ℕ))
    → ℕ
    → ℕ
    → Hashing
    → (CheckSummer → ℕ)
    → ℕ
    → CheckSummer
    → Option CheckSummer
scan_loop read filesize blocksize hashing decide zero s =
    if ltb s.currentoffset filesize then none else some s
scan_loop read filesize blocksize hashing decide (suc fuel) s =
    if ltb s.currentoffset filesize
    then elim (jump read filesize blocksize hashing (decide s) s) [
      | none ↦ none
      | some t ↦ scan_loop read filesize blocksize hashing decide fuel t
    ]
    else some s

module _ (content : List ℕ) (read : ℕ → ℕ → Option (List ℕ)) (blocksize : ℕ) (hashing : Hashing)
    (buffer : List ℕ) (setting : Setting content read blocksize hashing buffer) where
  hashes_end :
      (s : CheckSummer)
      → IsEnd content blocksize s
      → get_file_hashes hashing (length content) s
        ≡ (hashing.md5 content, hashing.md5 (take 16384 content))
  unfolding get_file_hashes
  hashes_end s done =
      let n = min (length content) 16384 in
      let first : s.context16k ≡ take 16384 content =
        done.first16k
        ∙ sym (take-drop-window content 0 n (omega arith))
        ∙ take-min_length 16384 n content (omega arith) in
      let all = window-whole content in
      elim (dec_lt (length content) 16384) [
        | yes short ↦
            let same : s.context16k ≡ content =
              done.first16k ∙ ap (window content 0) (least short) ∙ all in
            rw (lt→ltb (length content) 16384 short)
              (ap₂ (λ (t u : List ℕ). (hashing.md5 t, hashing.md5 u)) same first)
        | no long ↦ rw (le→ltb (length content) 16384 (omega arith)) (elim (Option-cases s.hasher) [
          | inl e ↦ rw e (
              ap₂ (λ (t u : List ℕ). (hashing.md5 t, hashing.md5 u))
                (done.full e (omega arith) ∙ all) first)
          | inr (f, e) ↦
              rw e
                (ap₂ (λ (t u : List ℕ). (hashing.md5 t, hashing.md5 u)) (done.fed f e ∙ all) first)
        ])
      ]
    where
      least : length content < 16384 → min (length content) 16384 ≡ length content
      least h = omega arith

  -- For a file that is not empty and, together with one block, shorter than 2^64 bytes, a block
  -- size that is not 0, a disk without errors, the hasher library as documented and a new buffer
  -- of two blocks: when `Start` and steps and jumps that have succeeded have brought the scan to
  -- the end of the file, `GetFileHashes` gives the MD5 of the whole file and that of its first
  -- 16384 bytes, whichever of the contexts they come from.
  pub get_file_hashes-Scanned :
      (s : CheckSummer)
      → Scanned read (length content) blocksize hashing buffer s
      → s.currentoffset ≡ length content
      → get_file_hashes hashing (length content) s
        ≡ (hashing.md5 content, hashing.md5 (take 16384 content))
  get_file_hashes-Scanned s reached at =
      elim (Scanned-IsScan content read blocksize hashing buffer setting s reached) [
        | inl live ↦ absurd (omega (arith, live.within))
        | inr done ↦ hashes_end s done
      ]

  module _ (decide : CheckSummer → ℕ) (moves : (s : CheckSummer) → 0 < decide s) where
    loop_end :
        (fuel : ℕ) (s : CheckSummer)
        → Scanned read (length content) blocksize hashing buffer s
        → s.currentoffset ≤ length content
        → length content ≤ s.currentoffset + fuel
        → (t : CheckSummer) × (scan_loop read (length content) blocksize hashing decide fuel s
            ≡ some t)
          × Scanned read (length content) blocksize hashing buffer t
          × (t.currentoffset ≡ length content)
    unfolding scan_loop
    loop_end zero s reached most enough =
        (s, rw (le→ltb s.currentoffset (length content) (omega arith)) refl, reached, omega arith)
    loop_end (suc fuel) s reached most enough = elim (dec_lt s.currentoffset (length content)) [
      | no past ↦
          (s, rw (le→ltb s.currentoffset (length content) (omega arith)) refl, reached, omega arith)
      | yes within ↦
          let live =
            within-IsLive content read blocksize hashing buffer setting s within
              (Scanned-IsScan content read blocksize hashing buffer setting s reached) in
          let (u, jumps, scan, at) =
            moved content read blocksize hashing buffer setting (decide s) s live (moves s) in
          let (t, done, after, ended) =
            loop_end fuel u (jumped s u (decide s) reached jumps) (omega arith)
              (omega (arith, moves s, setting.some_block)) in
          (t, rw (lt→ltb s.currentoffset (length content) within, jumps) done, after, ended)
    ]

    -- For a file that is not empty and, together with one block, shorter than 2^64 bytes, a block
    -- size that is not 0, a disk without errors, the hasher library as documented and a new
    -- buffer of two blocks, and for whatever distances, other than 0, that are decided on from
    -- the state: `Start` succeeds, and the loop that jumps until `Offset` is the size of the file
    -- succeeds, within as many rounds as there are bytes in the file, and ends with `Offset` at
    -- the end of the file, in a state reached by `Start` and moves.
    pub scan_ends :
        (s : CheckSummer) × (start read (length content) blocksize hashing (new_checksummer buffer)
          ≡ some s)
        × ((t : CheckSummer) × (scan_loop read
                (length content)
                blocksize
                hashing
                decide
                (length content)
                s
              ≡ some t)
            × Scanned read (length content) blocksize hashing buffer t
            × (t.currentoffset ≡ length content))
    scan_ends =
        let (s, begins, scan, at) = begun content read blocksize hashing buffer setting in
        (s, begins, loop_end (length content) s (started s begins) (omega arith) (omega arith))
