-- ===== src/FileCheckSummer/Filling.antt =====
-- `Fill` adds the next bytes of the file to the buffer.
use par2cmdline_turbo.Prelude.{
  ℕ, ◌-◌, ◌*◌, ◌^◌, ◌<◌, ◌≤◌, min, ◌≡◌, refl, ap, ◌∙◌, Bool, true, false, not, ◌&&◌, ◌==◌, Option,
  none, some, List, get_or, length, arith, dec_lt, leb, if◌then◌else◌, le→leb, lt→leb, Bool-cases,
  inl, inr,
}
use par2cmdline_turbo.Crc.Bitwise.{AllBytes}
use par2cmdline_turbo.DataBlock.Windows.{Holds}
use par2cmdline_turbo.FileCheckSummer.{CheckSummer, fill, fill_read, fill_blank}
use par2cmdline_turbo.FileCheckSummer.Kept.{Kept, Load, loaded, fill_read-Kept, fill_blank-Kept}

module _ (content : List ℕ) (blocksize base : ℕ) (read : ℕ → ℕ → Option (List ℕ))
    (holds : Holds read content) (all_bytes : AllBytes content)
    (small : length content < 2 ^ 64) where
  -- Both parts.
  abbrev up_to : ℕ → CheckSummer → Option CheckSummer
  up_to target s =
      let want = min (length content - s.readoffset) (target - s.tailpointer) in
      elim (fill_read read (length content) blocksize want s) [
        | none ↦ none
        | some t ↦ some (fill_blank read (length content) blocksize target t)
      ]

  fill_both-Kept :
      (target : ℕ) (s : CheckSummer)
      → Kept content blocksize base s
      → s.tailpointer ≤ target
      → target ≤ 2 * blocksize
      → (l : Load) × (up_to target s ≡ some (loaded s l))
        × Kept content blocksize base (loaded s l)
        × (l.readoffset < length content → l.tailpointer ≡ target)
        × (l.tailpointer ≤ target)
        × (s.tailpointer ≤ l.tailpointer)
        × ((i : ℕ) → l.tailpointer ≤ i → i < target → get_or l.buffer i 0 ≡ 0)
  fill_both-Kept target s kept h k =
      let want = min (length content - s.readoffset) (target - s.tailpointer) in
      let (m, read_done, after_read, tail_moved, read_moved) =
        fill_read-Kept content blocksize base read holds all_bytes small want s kept (omega arith)
          (omega arith) in
      let (b, blank_done, after_blank, blank) =
        fill_blank-Kept content blocksize base read holds all_bytes small target (loaded s m)
          after_read k in
      (
        record {
          buffer = b;
          tailpointer = m.tailpointer;
          readoffset = m.readoffset;
          contextfull = m.contextfull;
          context16k = m.context16k;
        },
        ap
              (λ (o : Option CheckSummer). elim o as (λ x. Option CheckSummer) [
                | none ↦ none
                | some t ↦ some (fill_blank read (length content) blocksize target t)
              ])
              read_done
            ∙ ap some blank_done,
        after_blank,
        λ short. omega arith,
        omega arith,
        omega arith,
        blank,
      )

  unchanged : CheckSummer → Load
  unchanged s = record {
    buffer = s.buffer;
    tailpointer = s.tailpointer;
    readoffset = s.readoffset;
    contextfull = s.contextfull;
    context16k = s.context16k;
  }

  -- What `Fill` leaves: unless the file has been read to its end there is a block, or, by a long
  -- fill, as much as there is room for; and what is added to an empty buffer is one block at
  -- most, and padded with zeros.
  pub record Filled (longfill : Bool) (s : CheckSummer) (l : Load) : Type 0 where
    pub kept : Kept content blocksize base (loaded s l)
    pub idle : length content ≤ s.readoffset → l.buffer ≡ s.buffer
    pub more : s.tailpointer ≤ l.tailpointer
    pub enough : l.readoffset < length content → blocksize ≤ l.tailpointer
    pub most :
        longfill ≡ true
        → 0 < s.tailpointer
        → l.readoffset < length content
        → l.tailpointer ≡ 2 * blocksize
    pub block : s.tailpointer ≡ 0 → l.tailpointer ≤ blocksize
    pub padded :
        s.readoffset < length content
        → s.tailpointer ≡ 0
        → (i : ℕ) → l.tailpointer ≤ i
        → i < blocksize
        → get_or l.buffer i 0 ≡ 0

  refill :
      (longfill : Bool) (s : CheckSummer)
      → Kept content blocksize base s
      → s.readoffset < length content
      → (l : Load) × (up_to (if s.tailpointer == 0 then blocksize else 2 * blocksize) s
          ≡ some (loaded s l))
        × Filled longfill s l
  refill longfill s kept more = elim (dec_lt 0 s.tailpointer) [
    | no empty ↦
        let test : (s.tailpointer == 0) ≡ true = ground arith in
        let (l, done, after, all, most, more_held, blank) =
          fill_both-Kept blocksize s kept (omega arith) (omega arith) in
        (
          l,
          ap (λ (t : Bool). up_to (if t then blocksize else 2 * blocksize) s) test ∙ done,
          record {
            kept = after;
            idle = λ rest. absurd (omega arith);
            more = more_held;
            enough = λ rest. omega (arith, all rest);
            most = λ long some rest. absurd (empty some);
            block = λ none. most;
            padded = λ rest none. blank;
          },
        )
    | yes some_left ↦
        let test : (s.tailpointer == 0) ≡ false = ground arith in
        let (l, done, after, all, most, more_held, blank) =
          fill_both-Kept (2 * blocksize) s kept kept.inside (omega arith) in
        (
          l,
          ap (λ (t : Bool). up_to (if t then blocksize else 2 * blocksize) s) test ∙ done,
          record {
            kept = after;
            idle = λ rest. absurd (omega arith);
            more = more_held;
            enough = λ rest. omega (arith, all rest);
            most = λ long some rest. all rest;
            block = λ none. absurd (omega arith);
            padded = λ rest none. absurd (omega arith);
          },
        )
  ]

  -- Without an error from the disk, `Fill` succeeds.
  pub fill-Filled :
      (longfill : Bool) (s : CheckSummer)
      → Kept content blocksize base s
      → (l : Load) × (fill read (length content) blocksize longfill s ≡ some (loaded s l))
        × Filled longfill s l
  unfolding fill unchanged
  fill-Filled longfill s kept = elim (dec_lt s.readoffset (length content)) [
    | no all_read ↦ (
      unchanged s,
      rw (le→leb (length content) s.readoffset (omega arith)) refl,
      record {
        kept = kept;
        idle = λ rest. refl;
        more = omega arith;
        enough = λ more. absurd (all_read more);
        most = λ long some more. absurd (all_read more);
        block = λ empty. omega arith;
        padded = λ more. absurd (all_read more);
      },
    )
    | yes more ↦
        rw (lt→leb (length content) s.readoffset more)
          (elim (Bool-cases (leb blocksize s.tailpointer && not longfill)) [
            | inl e ↦
                let (full, short) = enough_there s.tailpointer longfill e in
                (
                  unchanged s,
                  rw e refl,
                  record {
                    kept = kept;
                    idle = λ rest. refl;
                    more = omega arith;
                    enough = λ rest. full;
                    most = λ long. ground (arith, long, short);
                    block = λ empty. omega arith;
                    padded = λ rest empty i h k. absurd (omega arith);
                  },
                )
            | inr e ↦ rw e (refill longfill s kept more)
          ])
  ]
    where
      enough_there :
          (tail : ℕ) (longfill : Bool)
          → (leb blocksize tail && not longfill) ≡ true
          → (blocksize ≤ tail) × (longfill ≡ false)
      enough_there tail true e = ground (arith, e)
      enough_there tail false e = (ground (arith, e), refl)
