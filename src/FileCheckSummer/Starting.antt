-- ===== src/FileCheckSummer/Starting.antt =====
-- `Fill` and the checksum behind it, as `Start` and `Jump` call them, and `Start`.
use mathlib.Core.Option.{some-injective}
use par2cmdline_turbo.Prelude.{
  ℕ, ◌+◌, ◌*◌, ◌^◌, ◌<◌, ◌≡◌, refl, ap, sym, Bool, true, false, Option, none, some, List, [],
  length, arith, dec_lt, inl,
}
use par2cmdline_turbo.Crc.Bitwise.{AllBytes}
use par2cmdline_turbo.DataBlock.Windows.{window, Holds}
use par2cmdline_turbo.FileCheckSummer.{Hashing, CheckSummer, fill}
use par2cmdline_turbo.FileCheckSummer.Kept.{Kept, loaded}
use par2cmdline_turbo.FileCheckSummer.Filling.{fill-Filled}
use par2cmdline_turbo.FileCheckSummer.Scan.{IsScan}
use par2cmdline_turbo.FileCheckSummer.{start, new_checksummer, compute_current_checksum}
use par2cmdline_turbo.FileCheckSummer.Scan.{IsHashing}
use par2cmdline_turbo.FileCheckSummer.Computing.{
  IsFilled, currentoffset-compute_current_checksum, compute_current_checksum-IsLive,
}

module _ (content : List ℕ) (blocksize : ℕ) (hashing : Hashing) (read : ℕ → ℕ → Option (List ℕ))
    (holds : Holds read content) (all_bytes : AllBytes content)
    (small : length content + blocksize < 2 ^ 64) (documented : IsHashing hashing) where
  -- The rest of `Jump`, behind the call of `Fill`.
  abbrev pub filled_then : Bool → Option CheckSummer → Option CheckSummer
  filled_then domd5 o = elim o [
    | none ↦ none
    | some t ↦ some (compute_current_checksum read (length content) blocksize hashing domd5 t)
  ]

  -- `Fill`, and the checksum.
  pub fill_then-IsScan :
      (domd5 : Bool) (v : CheckSummer)
      → Kept content blocksize v.currentoffset v
      → v.currentoffset < length content
      → 0 < blocksize
      → v.outpointer ≡ 0
      → v.inpointer ≡ blocksize
      → v.blockhash ≡ none
      → ((f : List ℕ)
          → v.hasher ≡ some f
          → (f ≡ window content 0 v.currentoffset) × (v.tailpointer ≡ 0))
      → (t : CheckSummer) × (filled_then domd5 (fill read (length content) blocksize false v)
          ≡ some t)
        × IsScan content blocksize hashing t
        × (t.currentoffset ≡ v.currentoffset)
  fill_then-IsScan domd5 v kept more wide out inp no_hash fed =
      let (l, filled, fl) =
        fill-Filled content blocksize v.currentoffset read holds all_bytes (omega arith) false v
          kept in
      let result : IsFilled content blocksize read hashing documented (loaded v l) = record {
        kept = fl.kept;
        within = more;
        some_block = wide;
        out = out;
        inp = inp;
        enough = elim (dec_lt l.readoffset (length content)) [
          | yes some_left ↦ omega (arith, fl.enough some_left)
          | no all ↦ omega (arith, fl.kept.reads, fl.kept.limit)
        ];
        no_hash = no_hash;
        fed = λ f e.
            let (before, empty) = fed f e in
            (before, fl.block empty, fl.padded (omega (arith, kept.reads)) empty);
      } in
      (
        compute_current_checksum read (length content) blocksize hashing domd5 (loaded v l),
        ap (filled_then domd5) filled,
        inl (
            compute_current_checksum-IsLive content blocksize read hashing documented domd5
              (loaded v l) result),
        currentoffset-compute_current_checksum content blocksize read hashing documented domd5
            (loaded v l),
      )

  -- `Start`, for a new `FileCheckSummer` with a buffer of two blocks.
  pub start-IsScan :
      (buffer : List ℕ)
      → length buffer ≡ 2 * blocksize
      → AllBytes buffer
      → 0 < blocksize
      → 0 < length content
      → (t : CheckSummer) × (start read (length content) blocksize hashing (new_checksummer buffer)
          ≡ some t)
        × IsScan content blocksize hashing t
        × (t.currentoffset ≡ 0)
  unfolding start
  start-IsScan buffer size bytes wide more =
      let v : CheckSummer = record (new_checksummer buffer) {
        inpointer = blocksize;
        hasher = some [];
      } in
      fill_then-IsScan true v
        (record {
          size = size;
          bytes = bytes;
          started = omega arith;
          inside = omega arith;
          reads = refl;
          limit = omega arith;
          valid = λ i h. absurd (omega arith);
          first16k = refl;
          full = λ e. absurd (ground (arith, e));
        })
        more wide refl refl refl (λ f e. (sym (some-injective [] f e), refl))
