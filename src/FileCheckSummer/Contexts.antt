-- ===== src/FileCheckSummer/Contexts.antt =====
-- The hashes of the file, brought up to date with bytes that have been read.
use mathlib.Core.Path.{ap₂}
use par2cmdline_turbo.Prelude.{
  ℕ, ◌+◌, ◌-◌, ◌≤◌, min, ◌≡◌, refl, ap, sym, ◌∙◌, List, ◌++◌, take, arith, dec_lt, lt→ltb, le→ltb,
  le→leb, lt→leb,
}
use par2cmdline_turbo.DataBlock.Windows.{window, window-add}
use par2cmdline_turbo.FileCheckSummer.{update_16k, update_full}
use par2cmdline_turbo.FileCheckSummer.Memory.{length-window, take-window, drop-window}

-- So much of the first 16k as has been read.
pub update_16k_lem :
    (content context16k : List ℕ) (r w : ℕ)
    → context16k ≡ window content 0 (min r 16384)
    → update_16k r (window content r w) context16k ≡ window content 0 (min (r + w) 16384)
unfolding update_16k
update_16k_lem content context16k r w h = elim (dec_lt r 16384) [
  | no beyond ↦ rw (le→leb 16384 r (omega arith)) (h ∙ ap (window content 0) (omega arith))
  | yes before ↦
      rw (lt→leb 16384 r before, length-window content r w)
        (elim (dec_lt (r + w) 16384) [
          | yes short ↦ rw (lt→leb 16384 (r + w) short) (
              ap (λ (t : List ℕ). t ++ window content r w) h
              ∙ sym (
                  window-add content 0 (min r 16384) w r (min (r + w) 16384) (omega arith)
                    (omega arith)))
          | no long ↦ rw (le→leb 16384 (r + w) (omega arith)) (
              ap₂ (λ (t u : List ℕ). t ++ u) h (take-window content r (16384 - r) w (omega arith))
              ∙ sym (
                  window-add content 0 (min r 16384) (16384 - r) r (min (r + w) 16384) (omega arith)
                    (omega arith)))
        ])
]

-- All that has been read, once that is 16k.
pub update_full_lem :
    (content context16k contextfull : List ℕ) (r w : ℕ)
    → context16k ≡ window content 0 (min r 16384)
    → (16384 ≤ r → contextfull ≡ window content 0 r)
    → 16384 ≤ r + w
    → update_full r (window content r w) context16k contextfull ≡ window content 0 (r + w)
unfolding update_full
update_full_lem content context16k contextfull r w h f k = elim (dec_lt r 16384) [
  | no beyond ↦ rw (le→leb 16384 r (omega arith)) (
      ap (λ (t : List ℕ). t ++ window content r w) (f (omega arith))
      ∙ sym (window-add content 0 r w r (r + w) (omega arith) refl))
  | yes before ↦
      let first = 16384 - r in
      let kept : context16k ++ take first (window content r w) ≡ window content 0 16384 =
        ap₂ (λ (t u : List ℕ). t ++ u) h (take-window content r first w (omega arith))
        ∙ sym (window-add content 0 (min r 16384) first r 16384 (omega arith) (omega arith)) in
      rw (lt→leb 16384 r before, length-window content r w, le→leb 16384 (r + w) k)
        (elim (dec_lt 16384 (r + w)) [
          | yes more ↦ rw (lt→ltb 16384 (r + w) more) (
              ap₂ (λ (t u : List ℕ). t ++ u) kept
                (drop-window content r first w 16384 (r + w - 16384) (omega arith) (omega arith))
              ∙ sym (
                  window-add content 0 16384 (r + w - 16384) 16384 (r + w) (omega arith)
                    (omega arith)))
          | no all ↦
              rw (le→ltb 16384 (r + w) (omega arith)) (
                let all_read : 16384 ≡ r + w = omega arith in kept ∙ ap (window content 0) all_read)
        ])
]
