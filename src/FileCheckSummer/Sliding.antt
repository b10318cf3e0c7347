-- ===== src/FileCheckSummer/Sliding.antt =====
-- The move of the window by one byte, in `Step` of include/par2/filechecksummer.h.
use mathlib.Core.Path.{ap₂}
use par2cmdline_turbo.Prelude.{
  ℕ, zero, suc, ◌+◌, ◌-◌, ◌<◌, ◌≤◌, min, ◌≡◌, refl, ap, sym, ◌∙◌, Bool, Option, none, some, List,
  ◌∷◌, get_or, length, arith, dec_lt, lt→ltb, le→ltb, if◌then◌else◌,
}
use par2cmdline_turbo.Crc.Bitwise.{AllBytes}
use par2cmdline_turbo.Crc.Powers.{slide_char}
use par2cmdline_turbo.Crc.Powers.Slide.{crc_of, slide_char-crc_of}
use par2cmdline_turbo.DataBlock.Windows.{window, window-add}
use par2cmdline_turbo.FileCheckSummer.{Hashing, CheckSummer, write_at, slide, hash}
use par2cmdline_turbo.FileCheckSummer.Memory.{
  length-write_at, get_or-write_at, get_or-window, length-window, get_or-lt, window-ext,
  window-AllBytes, write_at-AllBytes,
}
use par2cmdline_turbo.FileCheckSummer.Kept.{Kept}
use par2cmdline_turbo.FileCheckSummer.Scan.{IsLive}

-- The checksum of the window one byte on.
slide_char-window :
    (blocksize out inp sum : ℕ) (buffer : List ℕ)
    → 0 < blocksize
    → AllBytes buffer
    → inp ≡ out + blocksize
    → sum ≡ crc_of (window buffer out blocksize)
    → slide_char blocksize sum (get_or buffer inp 0) (get_or buffer out 0)
      ≡ crc_of (window buffer (out + 1) blocksize)
slide_char-window zero out inp sum buffer h bytes e m = absurd (omega arith)
slide_char-window (suc n) out inp sum buffer h bytes e m =
    let between = window buffer (suc out) n in
    let new = get_or buffer inp 0 in
    let old = get_or buffer out 0 in
    let width : suc n ≡ length (old ∷ between) = ap suc (sym (length-window buffer (suc out) n)) in
    let next : out + 1 ≡ suc out = omega arith in
    ap₂ (λ (t u : ℕ). slide_char t u new old) width m
    ∙ slide_char-crc_of old new between (get_or-lt buffer out bytes) (get_or-lt buffer inp bytes)
        (window-AllBytes buffer (suc out) n bytes)
    ∙ ap crc_of (
        sym (
          ap (λ (t : ℕ). window buffer t (suc n)) next
          ∙ window-add buffer (suc out) n 1 inp (suc n) (omega arith) (omega arith)))

module _ (content : List ℕ) (blocksize : ℕ) (hashing : Hashing) where
  -- The state in which the window is moved: `base` is where it has been so far.
  pub record IsReady (base : ℕ) (s : CheckSummer) : Type 0 where
    pub kept : Kept content blocksize base s
    pub moved : s.currentoffset ≡ base + 1
    pub within : base + 1 < length content
    pub out : s.outpointer < blocksize
    pub inp : s.inpointer ≡ s.outpointer + blocksize
    pub enough : min blocksize (length content - base) ≤ s.tailpointer - s.outpointer
    pub incoming : s.readoffset < length content → s.inpointer < s.tailpointer
    pub sum : s.checksum ≡ crc_of (window s.buffer s.outpointer blocksize)
    pub no_hash : s.blockhash ≡ none
    pub no_hasher : s.hasher ≡ none

  further : (out i : ℕ) → out + 1 + i ≡ out + (i + 1)
  further out i = omega arith

  module _ (base : ℕ) (s : CheckSummer) (ready : IsReady base s) where
    -- There is a block behind the new start of the window, or all that is left of the file.
    still_enough :
        (min blocksize (length content - s.currentoffset) ≤ s.tailpointer - (s.outpointer + 1))
        × (s.outpointer + 1 ≤ s.tailpointer)
    still_enough = elim (dec_lt s.readoffset (length content)) [
      | yes more ↦ (
        omega (arith, ready.incoming more, ready.inp),
        omega (arith, ready.incoming more, ready.inp),
      )
      | no all ↦ (
        omega (arith, ready.kept.reads, ready.kept.limit, ready.moved, ready.within),
        omega (arith, ready.kept.reads, ready.kept.limit, ready.within),
      )
    ]

    valid_next :
        (i : ℕ)
        → i < s.tailpointer - (s.outpointer + 1)
        → get_or s.buffer (s.outpointer + 1 + i) 0 ≡ get_or content (s.currentoffset + i) 0
    valid_next i h =
        let same : base + (i + 1) ≡ s.currentoffset + i = omega (arith, ready.moved) in
        ap (λ (t : ℕ). get_or s.buffer t 0) (further s.outpointer i)
        ∙ ready.kept.valid (i + 1) (omega arith)
        ∙ ap (λ (t : ℕ). get_or content t 0) same

    sum_next :
        slide_char blocksize s.checksum
          (get_or s.buffer s.inpointer 0)
          (get_or s.buffer s.outpointer 0)
        ≡ crc_of (window s.buffer (s.outpointer + 1) blocksize)
    sum_next =
        slide_char-window blocksize s.outpointer s.inpointer s.checksum s.buffer
          (omega (arith, ready.out)) ready.kept.bytes ready.inp ready.sum

    no_longer : (f : List ℕ) → ¬ (s.hasher ≡ some f)
    no_longer f e = let h = sym ready.no_hasher ∙ e in ground (arith, h)

    -- Further on in the buffer.
    slid : CheckSummer
    slid = record s {
      inpointer = s.inpointer + 1;
      outpointer = s.outpointer + 1;
      checksum =
          slide_char blocksize s.checksum (get_or s.buffer s.inpointer 0)
            (get_or s.buffer s.outpointer 0);
    }

    slid-IsLive : s.outpointer + 1 < blocksize → IsLive content blocksize hashing slid
    unfolding slid hash
    slid-IsLive room = record {
      kept = record {
        size = ready.kept.size;
        bytes = ready.kept.bytes;
        started = still_enough.1;
        inside = ready.kept.inside;
        reads = omega (arith, ready.kept.reads, ready.moved, still_enough.1);
        limit = ready.kept.limit;
        valid = valid_next;
        first16k = ready.kept.first16k;
        full = ready.kept.full;
      };
      within = omega (arith, ready.moved, ready.within);
      out = room;
      inp = omega (arith, ready.inp);
      enough = still_enough.0;
      sum = sum_next;
      md5 = rw ready.no_hash refl;
      fed = λ f e. absurd (no_longer f e);
    }

    -- Back at the start of the buffer.
    rewound : CheckSummer
    rewound = record s {
      buffer = write_at 0 (window s.buffer (s.outpointer + 1) blocksize) s.buffer;
      inpointer = s.outpointer + 1;
      outpointer = 0;
      tailpointer = s.tailpointer - blocksize;
      checksum =
          slide_char blocksize s.checksum (get_or s.buffer s.inpointer 0)
            (get_or s.buffer s.outpointer 0);
    }

    copied :
        (i : ℕ)
        → i < blocksize
        → get_or (write_at 0 (window s.buffer (s.outpointer + 1) blocksize) s.buffer) (0 + i) 0
          ≡ get_or s.buffer (s.outpointer + 1 + i) 0
    copied i h =
        let next = s.outpointer + 1 in
        get_or-write_at 0 i (0 + i) (window s.buffer next blocksize) s.buffer
          (omega (arith, length-window s.buffer next blocksize)) (omega arith)
          (omega (arith, ready.kept.size))
        ∙ get_or-window s.buffer next blocksize i (next + i) h refl

    rewound-IsLive : s.outpointer + 1 ≡ blocksize → IsLive content blocksize hashing rewound
    unfolding rewound hash
    rewound-IsLive full =
        let next = s.outpointer + 1 in
        let moved = window s.buffer next blocksize in
        record {
          kept = record {
            size = length-write_at 0 moved s.buffer ∙ ready.kept.size;
            bytes =
                write_at-AllBytes 0 moved s.buffer
                  (window-AllBytes s.buffer next blocksize ready.kept.bytes) ready.kept.bytes;
            started = omega arith;
            inside = omega (arith, ready.kept.inside);
            reads = omega (arith, ready.kept.reads, ready.moved, still_enough.1);
            limit = ready.kept.limit;
            valid = λ i h. copied i (omega (arith, ready.kept.inside)) ∙ valid_next i (omega arith);
            first16k = ready.kept.first16k;
            full = ready.kept.full;
          };
          within = omega (arith, ready.moved, ready.within);
          out = omega (arith, ready.out);
          inp = omega arith;
          enough = omega (arith, still_enough.0);
          sum =
              sum_next
              ∙ ap crc_of (
                  window-ext s.buffer (write_at 0 moved s.buffer) next 0 blocksize
                    (λ i h. sym (copied i h)));
          md5 = rw ready.no_hash refl;
          fed = λ f e. absurd (no_longer f e);
        }

    pub slide-IsLive :
        (read : ℕ → ℕ → Option (List ℕ))
        → (t : CheckSummer) × (slide read (length content) blocksize s ≡ t)
          × IsLive content blocksize hashing t
          × (t.currentoffset ≡ base + 1)
    unfolding slide slid rewound
    slide-IsLive read = elim (dec_lt (s.outpointer + 1) blocksize) [
      | yes room ↦ (
        slid,
        ap (λ (t : Bool). if t then slid else rewound) (lt→ltb (s.outpointer + 1) blocksize room),
        slid-IsLive room,
        ready.moved,
      )
      | no none_left ↦ (
        rewound,
        ap (λ (t : Bool). if t then slid else rewound)
            (le→ltb (s.outpointer + 1) blocksize (omega arith)),
        rewound-IsLive (omega (arith, ready.out)),
        ready.moved,
      )
    ]
