-- ===== src/FileCheckSummer/Jumping.antt =====
-- `Jump` of src/filechecksummer.cpp.
use mathlib.Core.Path.{ap₂}
use par2cmdline_turbo.Prelude.{
  ℕ, ◌+◌, ◌-◌, ◌%◌, ◌^◌, ◌<◌, ◌≤◌, min, ◌≡◌, refl, ap, ◌∙◌, Bool, true, false, Option, none, some,
  List, length, arith, dec_lt, ltb, leb, lt→ltb, le→ltb, lt→leb, le→leb, ◌==◌, ◌&&◌, not,
  if◌then◌else◌, inr,
}
use par2cmdline_turbo.Crc.Bitwise.{AllBytes}
use par2cmdline_turbo.DataBlock.Windows.{window, Holds}
use par2cmdline_turbo.FileCheckSummer.{Hashing, CheckSummer, fill, step, at_end, stop_hasher}
use par2cmdline_turbo.FileCheckSummer.Kept.{Kept}
use par2cmdline_turbo.FileCheckSummer.Scan.{IsLive, IsScan, stop_hasher-IsLive}
use par2cmdline_turbo.FileCheckSummer.{keep_rest, jump_ahead, jump}
use par2cmdline_turbo.FileCheckSummer.Scan.{IsHashing}
use par2cmdline_turbo.FileCheckSummer.Keeping.{keep_rest_lem, valid_on}
use par2cmdline_turbo.FileCheckSummer.Starting.{filled_then, fill_then-IsScan}
use par2cmdline_turbo.FileCheckSummer.Stepping.{at_end-IsEnd, step-IsScan}

module _ (content : List ℕ) (blocksize : ℕ) (hashing : Hashing) (read : ℕ → ℕ → Option (List ℕ))
    (holds : Holds read content) (all_bytes : AllBytes content)
    (small : length content + blocksize < 2 ^ 64) (documented : IsHashing hashing) where
  -- `Jump` behind the call of `StopHasher`.
  abbrev after_jump : ℕ → ℕ → CheckSummer → Option CheckSummer
  after_jump distance next u =
      let moved = record u { blockhash = none; currentoffset = next } in
      if leb (length content) next
      then some (at_end read (length content) blocksize moved)
      else filled_then content blocksize hashing read holds all_bytes small documented
          (distance == blocksize)
          (fill read (length content) blocksize false
            (keep_rest read (length content) blocksize distance moved))

  jump_within :
      (distance : ℕ) (s : CheckSummer) (c : List ℕ) (h : Option (List ℕ))
      → IsLive content blocksize hashing s
      → distance ≤ blocksize
      → s.currentoffset + distance < length content
      → (h ≡ none → 16384 ≤ s.readoffset → c ≡ window content 0 s.readoffset)
      → ((f : List ℕ)
          → h ≡ some f
          → (f ≡ window content 0 s.readoffset)
            × (s.tailpointer ≤ s.inpointer)
            × (distance ≡ blocksize))
      → (t : CheckSummer) × (after_jump distance
            (s.currentoffset + distance)
            (record s { contextfull = c; hasher = h })
          ≡ some t)
        × IsScan content blocksize hashing t
        × (t.currentoffset ≡ s.currentoffset + distance)
  jump_within distance s c h live most more full fed =
      let next = s.currentoffset + distance in
      let u : CheckSummer = record s {
        contextfull = c;
        hasher = h;
        blockhash = none;
        currentoffset = next;
      } in
      let (b, rest, size, bytes, held) =
        keep_rest_lem content blocksize read distance u live.kept.size live.kept.bytes
          live.kept.inside in
      let keep = s.tailpointer - (s.outpointer + distance) in
      let v : CheckSummer = record u {
        buffer = b;
        tailpointer = keep;
        outpointer = 0;
        inpointer = blocksize;
      } in
      let kept : Kept content blocksize next v = record {
        size = size;
        bytes = bytes;
        started = omega arith;
        inside = omega (arith, live.kept.inside);
        reads = omega (arith, live.kept.reads, live.enough);
        limit = live.kept.limit;
        valid = λ i k.
            held i (omega arith)
            ∙ valid_on content blocksize hashing s distance live i (omega arith);
        first16k = live.kept.first16k;
        full = full;
      } in
      let (t, done, scan, at) =
        fill_then-IsScan content blocksize hashing read holds all_bytes small documented
          (distance == blocksize) v kept more (omega (arith, live.out)) refl refl refl
          (λ f e.
            let (before, behind, whole) = fed f e in
            let empty : keep ≡ 0 = omega (arith, live.inp) in
            let read_to : s.readoffset ≡ next = omega (arith, live.kept.reads, live.enough) in
            (before ∙ ap (window content 0) read_to, empty)) in
      (
        t,
        ap
              (λ (t : Bool).
                if t
                then some (at_end read (length content) blocksize u)
                else filled_then content blocksize hashing read holds all_bytes small documented
                    (distance == blocksize)
                    (fill read (length content) blocksize false
                      (keep_rest read (length content) blocksize distance u)))
              (lt→leb (length content) next more)
            ∙ ap
                (λ (t : CheckSummer).
                  filled_then content blocksize hashing read holds all_bytes small documented
                    (distance == blocksize) (fill read (length content) blocksize false t))
                rest
            ∙ done,
        scan,
        at,
      )

  jump_end :
      (distance : ℕ) (s : CheckSummer)
      → IsLive content blocksize hashing s
      → distance ≤ blocksize
      → length content ≤ s.currentoffset + distance
      → (t : CheckSummer) × (after_jump distance (s.currentoffset + distance) s ≡ some t)
        × IsScan content blocksize hashing t
        × (t.currentoffset ≡ length content)
  unfolding at_end
  jump_end distance s live most past =
      let next = s.currentoffset + distance in
      let u : CheckSummer = record s { blockhash = none; currentoffset = next } in
      (
        at_end read (length content) blocksize u,
        ap
            (λ (t : Bool).
              if t
              then some (at_end read (length content) blocksize u)
              else filled_then content blocksize hashing read holds all_bytes small documented
                  (distance == blocksize)
                  (fill read (length content) blocksize false
                    (keep_rest read (length content) blocksize distance u)))
            (le→leb (length content) next past),
        inr (
            at_end-IsEnd content blocksize hashing read s next s.contextfull s.hasher live
              (omega arith) live.kept.full (λ f e. (live.fed f e).0)),
        refl,
      )

  -- A jump of a block at most.
  jump_ahead-IsScan :
      (distance : ℕ) (s : CheckSummer)
      → IsLive content blocksize hashing s
      → distance ≤ blocksize
      → (t : CheckSummer) × (jump_ahead read (length content) blocksize hashing distance s ≡ some t)
        × IsScan content blocksize hashing t
        × (t.currentoffset ≡ min (s.currentoffset + distance) (length content))
  unfolding jump_ahead
  jump_ahead-IsScan distance s live most =
      let next = s.currentoffset + distance in
      let no_wrap : next % 2 ^ 64 ≡ next = omega (arith, live.within) in
      let stops : ℕ → Bool = λ (t : ℕ). not (distance == blocksize) && ltb t (length content) in
      let chosen : Bool → CheckSummer = λ (t : Bool). if t then stop_hasher s else s in
      let reduced : jump_ahead read (length content) blocksize hashing distance s
          ≡ after_jump distance next (chosen (stops next)) =
        ap (λ (t : ℕ). after_jump distance t (chosen (stops t))) no_wrap in
      let so : (b : Bool)
          → stops next ≡ b
          → jump_ahead read (length content) blocksize hashing distance s
            ≡ after_jump distance next (chosen b) =
        λ b e. reduced ∙ ap (λ (t : Bool). after_jump distance next (chosen t)) e in
      elim (dec_lt next (length content)) [
        | no past ↦
            let (t, done, scan, at) = jump_end distance s live most (omega arith) in
            let stays : stops next ≡ false = ground arith in
            (t, so false stays ∙ done, scan, at ∙ omega arith)
        | yes more ↦ elim (dec_lt distance blocksize) [
          | no whole ↦
              let (t, done, scan, at) =
                jump_within distance s s.contextfull s.hasher live most more live.kept.full
                  (λ f e. ((live.fed f e).0, (live.fed f e).1, omega arith)) in
              let stays : stops next ≡ false = ground arith in
              (t, so false stays ∙ done, scan, at ∙ omega arith)
          | yes part ↦
              let (c, stopped, full) = stop_hasher-IsLive content blocksize hashing s live in
              let (t, done, scan, at) =
                jump_within distance s c none live most more (λ e. full)
                  (λ f e. absurd (ground (arith, e))) in
              let leaves : stops next ≡ true = ground arith in
              (
                t,
                so true leaves ∙ ap (after_jump distance next) stopped ∙ done,
                scan,
                at ∙ omega arith,
              )
        ]
      ]

  abbrev choice : Bool → Bool → Bool → Option CheckSummer → Option CheckSummer → Option CheckSummer
  choice a b c x y = if a then none else (if b then none else (if c then x else y))

  limited : ℕ → ℕ
  limited distance = if ltb blocksize distance then blocksize else distance

  limited-min : (distance : ℕ) → limited distance ≡ min distance blocksize
  unfolding limited
  limited-min distance = elim (dec_lt blocksize distance) [
    | yes h ↦ rw (lt→ltb blocksize distance h) (omega arith)
    | no h ↦ rw (le→ltb blocksize distance (omega arith)) (omega arith)
  ]

  jump_lem :
      (distance : ℕ) (s : CheckSummer)
      → jump read (length content) blocksize hashing distance s
        ≡ choice
            (leb (length content) s.currentoffset)
            (distance == 0)
            (distance == 1)
            (step read (length content) blocksize s)
            (jump_ahead read (length content) blocksize hashing (limited distance) s)
  unfolding jump limited
  jump_lem distance s = refl

  -- Within a file, without an error from the disk, and for a distance that is not 0: `Jump`
  -- succeeds, and moves on by the distance, but by a block at most and not beyond the end.
  pub jump-IsScan :
      (distance : ℕ) (s : CheckSummer)
      → IsLive content blocksize hashing s
      → 0 < distance
      → (t : CheckSummer) × (jump read (length content) blocksize hashing distance s ≡ some t)
        × IsScan content blocksize hashing t
        × (t.currentoffset ≡ min (s.currentoffset + min distance blocksize) (length content))
  jump-IsScan distance s live positive =
      let x = step read (length content) blocksize s in
      let y = jump_ahead read (length content) blocksize hashing (limited distance) s in
      let within = lt→leb (length content) s.currentoffset live.within in
      let moves : (distance == 0) ≡ false = ground arith in
      let reduced : jump read (length content) blocksize hashing distance s
          ≡ choice false false (distance == 1) x y =
        jump_lem distance s ∙ ap₂ (λ (a b : Bool). choice a b (distance == 1) x y) within moves in
      elim (dec_lt 1 distance) [
        | no one ↦
            let single : (distance == 1) ≡ true = ground arith in
            let (t, done, scan, at) =
              step-IsScan content blocksize hashing read holds all_bytes (omega arith) s live in
            (
              t,
              reduced ∙ ap (λ (c : Bool). choice false false c x y) single ∙ done,
              scan,
              at ∙ omega (arith, live.out, live.within),
            )
        | yes more ↦
            let several : (distance == 1) ≡ false = ground arith in
            let length_limited = limited-min distance in
            let (t, done, scan, at) =
              jump_ahead-IsScan (limited distance) s live (omega (arith, length_limited)) in
            (
              t,
              reduced ∙ ap (λ (c : Bool). choice false false c x y) several ∙ done,
              scan,
              at ∙ omega (arith, length_limited),
            )
      ]
