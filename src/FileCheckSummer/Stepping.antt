-- ===== src/FileCheckSummer/Stepping.antt =====
-- `Step` of include/par2/filechecksummer.h, as a whole.
use mathlib.Core.Path.{ap₂}
use par2cmdline_turbo.Prelude.{
  ℕ, ◌+◌, ◌-◌, ◌%◌, ◌^◌, ◌<◌, ◌≤◌, min, ◌≡◌, refl, ap, sym, ◌∙◌, Bool, true, Option, none, some,
  List, get_or, length, arith, dec_lt, leb, lt→leb, le→leb, if◌then◌else◌, inl, inr,
}
use par2cmdline_turbo.Crc.Bitwise.{AllBytes}
use par2cmdline_turbo.Crc.Powers.Slide.{crc_of}
use par2cmdline_turbo.DataBlock.Windows.{window, Holds}
use par2cmdline_turbo.FileCheckSummer.{
  Hashing, CheckSummer, write_at, fill, slide, step, at_end, stop_hasher,
}
use par2cmdline_turbo.FileCheckSummer.Memory.{
  zeros, get_or-zeros, length-zeros, get_or-write_at, window-blank, window-ext,
}
use par2cmdline_turbo.FileCheckSummer.Kept.{Kept, Load, loaded}
use par2cmdline_turbo.FileCheckSummer.Filling.{fill-Filled}
use par2cmdline_turbo.FileCheckSummer.Scan.{IsLive, IsEnd, IsScan, stop_hasher-IsLive}
use par2cmdline_turbo.FileCheckSummer.Sliding.{IsReady, slide-IsLive}

module _ (content : List ℕ) (blocksize : ℕ) (hashing : Hashing) where
  -- The end of the file, in less than a block from within the file.
  pub at_end-IsEnd :
      (read : ℕ → ℕ → Option (List ℕ)) (s : CheckSummer) (next : ℕ) (c : List ℕ)
      (h : Option (List ℕ))
      → IsLive content blocksize hashing s
      → length content ≤ s.currentoffset + blocksize
      → (h ≡ none → 16384 ≤ s.readoffset → c ≡ window content 0 s.readoffset)
      → ((f : List ℕ) → h ≡ some f → f ≡ window content 0 s.readoffset)
      → IsEnd content blocksize (
          at_end read
            (length content)
            blocksize
            (record s { contextfull = c; hasher = h; blockhash = none; currentoffset = next }))
  unfolding at_end
  at_end-IsEnd read s next c h live near full fed =
      let all : s.readoffset ≡ length content =
        omega (arith, live.kept.reads, live.kept.limit, live.enough, live.within) in
      record {
        ended = refl;
        sum = refl;
        blank = window-blank (write_at 0 (zeros blocksize) s.buffer) 0 blocksize (λ i a b.
            get_or-write_at 0 i i (zeros blocksize) s.buffer (omega (arith, length-zeros blocksize))
              (omega arith) (omega (arith, live.kept.size))
            ∙ get_or-zeros blocksize i);
        first16k = live.kept.first16k ∙ ap (λ (t : ℕ). window content 0 (min t 16384)) all;
        full = λ e long. full e (omega (arith, all)) ∙ ap (window content 0) all;
        fed = λ f e. fed f e ∙ ap (window content 0) all;
      }

  module _ (read : ℕ → ℕ → Option (List ℕ)) (holds : Holds read content)
      (all_bytes : AllBytes content) (small : length content < 2 ^ 64) where
    -- `Step` behind the call of `StopHasher`.
    abbrev after_stop : ℕ → CheckSummer → Option CheckSummer
    after_stop next u =
        let stopped = record u { blockhash = none; currentoffset = next } in
        if leb (length content) next
        then some (at_end read (length content) blocksize stopped)
        else elim (if leb stopped.tailpointer stopped.inpointer
            then fill read (length content) blocksize true stopped
            else some stopped) [
              | none ↦ none
              | some t ↦ some (slide read (length content) blocksize t)
            ]

    -- Moving the window, once the byte behind it is there.
    slide-some :
        (base : ℕ) (u : CheckSummer)
        → IsReady content blocksize hashing base u
        → (t : CheckSummer) × (some (slide read (length content) blocksize u) ≡ some t)
          × IsScan content blocksize hashing t
          × (t.currentoffset ≡ base + 1)
    slide-some base u ready =
        let (t, done, live, at) = slide-IsLive content blocksize hashing base u ready read in
        (t, ap some done, inl live, at)

    -- `Fill` does not change the window.
    unmoved :
        (s : CheckSummer) (l : Load)
        → IsLive content blocksize hashing s
        → ((i : ℕ)
            → i < l.tailpointer - s.outpointer
            → get_or l.buffer (s.outpointer + i) 0 ≡ get_or content (s.currentoffset + i) 0)
        → s.tailpointer ≤ l.tailpointer
        → (length content ≤ s.readoffset → l.buffer ≡ s.buffer)
        → window s.buffer s.outpointer blocksize ≡ window l.buffer s.outpointer blocksize
    unmoved s l live valid more idle = elim (dec_lt s.readoffset (length content)) [
      | no all ↦ ap (λ (t : List ℕ). window t s.outpointer blocksize) (sym (idle (omega arith)))
      | yes rest ↦ window-ext s.buffer l.buffer s.outpointer s.outpointer blocksize (λ i h.
          let held : i < s.tailpointer - s.outpointer =
            omega (arith, live.enough, live.kept.reads, live.kept.limit) in
          live.kept.valid i held ∙ sym (valid i (omega (arith, more))))
    ]

    -- Within the file.
    step_within :
        (s : CheckSummer) (c : List ℕ)
        → IsLive content blocksize hashing s
        → s.currentoffset + 1 < length content
        → (16384 ≤ s.readoffset → c ≡ window content 0 s.readoffset)
        → (t : CheckSummer) × (after_stop
              (s.currentoffset + 1)
              (record s { contextfull = c; hasher = none })
            ≡ some t)
          × IsScan content blocksize hashing t
          × (t.currentoffset ≡ s.currentoffset + 1)
    step_within s c live more full =
        let next = s.currentoffset + 1 in
        let u : CheckSummer = record s {
          contextfull = c;
          hasher = none;
          blockhash = none;
          currentoffset = next;
        } in
        let kept : Kept content blocksize s.currentoffset u = record {
          size = live.kept.size;
          bytes = live.kept.bytes;
          started = live.kept.started;
          inside = live.kept.inside;
          reads = live.kept.reads;
          limit = live.kept.limit;
          valid = live.kept.valid;
          first16k = live.kept.first16k;
          full = λ e. full;
        } in
        let inside = lt→leb (length content) next more in
        elim (dec_lt s.inpointer s.tailpointer) [
          | yes there ↦
              let (t, done, scan, at) = slide-some s.currentoffset u (record {
                kept = kept;
                moved = refl;
                within = more;
                out = live.out;
                inp = live.inp;
                enough = live.enough;
                incoming = λ rest. there;
                sum = live.sum;
                no_hash = refl;
                no_hasher = refl;
              }) in
              (t, rw (inside, lt→leb s.tailpointer s.inpointer there) done, scan, at)
          | no behind ↦
              let (l, filled, fl) =
                fill-Filled content blocksize s.currentoffset read holds all_bytes small true u
                  kept in
              let some_left : 0 < s.tailpointer =
                omega (arith, live.enough, live.out, live.within) in
              let (t, done, scan, at) = slide-some s.currentoffset (loaded u l) (record {
                kept = fl.kept;
                moved = refl;
                within = more;
                out = live.out;
                inp = live.inp;
                enough = elim (dec_lt l.readoffset (length content)) [
                  | yes rest ↦ omega (arith, fl.most refl some_left rest, live.out)
                  | no all ↦ omega (arith, fl.kept.reads, fl.kept.limit, live.within)
                ];
                incoming = λ rest. omega (arith, fl.most refl some_left rest, live.inp, live.out);
                sum = live.sum ∙ ap crc_of (unmoved s l live fl.kept.valid (fl.more) fl.idle);
                no_hash = refl;
                no_hasher = refl;
              }) in
              (
                t,
                rw (inside, le→leb s.tailpointer s.inpointer (omega arith), filled) done,
                scan,
                at,
              )
        ]

    -- `Step` moves the window by one byte.
    pub step-IsScan :
        (s : CheckSummer)
        → IsLive content blocksize hashing s
        → (t : CheckSummer) × (step read (length content) blocksize s ≡ some t)
          × IsScan content blocksize hashing t
          × (t.currentoffset ≡ s.currentoffset + 1)
    unfolding step at_end
    step-IsScan s live =
        let (c, stopped, full) = stop_hasher-IsLive content blocksize hashing s live in
        let next = s.currentoffset + 1 in
        let no_wrap : next % 2 ^ 64 ≡ next = omega (arith, live.within) in
        let reduced : step read (length content) blocksize s
            ≡ after_stop next (record s { contextfull = c; hasher = none }) =
          ap (λ (t : Bool). if t then none else after_stop (next % 2 ^ 64) (stop_hasher s))
            (lt→leb (length content) s.currentoffset live.within)
          ∙ ap₂ after_stop no_wrap stopped in
        elim (dec_lt next (length content)) [
          | yes more ↦
              let (t, done, scan, at) = step_within s c live more full in
              (t, reduced ∙ done, scan, at)
          | no past ↦
              let u : CheckSummer = record s {
                contextfull = c;
                hasher = none;
                blockhash = none;
                currentoffset = next;
              } in
              (
                at_end read (length content) blocksize u,
                reduced
                    ∙ ap
                        (λ (t : Bool).
                          if t
                          then some (at_end read (length content) blocksize u)
                          else elim (if leb u.tailpointer u.inpointer
                                then fill read (length content) blocksize true u
                                else some u)
                              as (λ x. Option CheckSummer) [
                                | none ↦ none
                                | some t ↦ some (slide read (length content) blocksize t)
                              ])
                        (le→leb (length content) next (omega arith)),
                inr (
                    at_end-IsEnd read s next c none live (omega (arith, live.out)) (λ e. full)
                      (λ f e. absurd (ground (arith, e)))),
                omega (arith, live.within),
              )
        ]
