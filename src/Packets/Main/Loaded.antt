-- ===== src/Packets/Main/Loaded.antt =====
-- What `MainPacket::Load` has checked.
use mathlib.Core.Option.{some-injective}
use par2cmdline_turbo.Prelude.{
  ℕ, ◌+◌, ◌-◌, ◌*◌, ◌/◌, ◌%◌, ◌^◌, ◌≤◌, ◌<◌, ◌≡◌, bit_and, refl, false, not, ◌||◌, ◌==◌, Option,
  some, List, ◌++◌, length, length-append, arith, inl, inr, ltb, drop, passes, ltb→le, Option-cases,
}
use par2cmdline_turbo.Bits.{bit_and_mask}
use par2cmdline_turbo.Letype.{get_leu32, get_leu64, get_leu64-lt}
use par2cmdline_turbo.Packets.{PacketHeader, header_bytes, IsHeader, length-header_bytes, Reads}
use par2cmdline_turbo.Packets.Main.{MainPacket, load_main, load_body, main_size}

pub record IsLoaded (header : PacketHeader) (p : MainPacket) : Type 0 where
  pub positive : 0 < p.blocksize
  pub fits : p.blocksize < 2 ^ 64
  pub aligned : p.blocksize % 4 ≡ 0
  pub recoverable : p.recoverablefilecount ≤ p.totalfilecount
  pub bounded : p.totalfilecount ≤ 32768
  pub size : header.length ≡ main_size + 16 * p.totalfilecount
  pub all_read : length p.packetdata ≡ header.length

aligned_lem :
    (size : ℕ)
    → ((size == 0) || not (bit_and size 3 == 0)) ≡ false
    → (0 < size) × (bit_and size 3 ≡ 0)
aligned_lem size h = ground arith

body_lem :
    (header : PacketHeader) (total : ℕ) (body : List ℕ) (p : MainPacket)
    → load_body header total body ≡ some p
    → (0 < p.blocksize)
      × (p.blocksize < 2 ^ 64)
      × (p.blocksize % 4 ≡ 0)
      × (p.recoverablefilecount ≤ total)
      × (p.totalfilecount ≡ total)
      × (p.packetdata ≡ header_bytes header ++ body)
unfolding load_body
body_lem header total body p e =
    let recoverable = get_leu32 (drop 8 body) in
    let size = get_leu64 body in
    let (enough, valid) = passes (ltb total recoverable) _ p e in
    let (valid', made) = passes ((size == 0) || not (bit_and size 3 == 0)) _ p valid in
    let loaded = some-injective _ _ made in
    let mask : bit_and size 3 ≡ size % 4 = bit_and_mask 2 size in
    let (positive, aligned) = aligned_lem size valid' in
    rw (← loaded) (
      positive,
      get_leu64-lt body,
      omega (arith, mask, aligned),
      ltb→le total recoverable enough,
      refl,
      refl,
    )

-- For a disk that reads as many bytes as it is asked for, and a header whose fields have their
-- widths: a main packet that loads has a block size that is a positive multiple of 4, no more
-- recoverable files than files, at most 32768 files, and exactly the length of its file ids; and
-- all bytes of it that the header promises are there.
pub load_main-IsLoaded :
    (read : ℕ → ℕ → Option (List ℕ)) (offset : ℕ) (header : PacketHeader) (p : MainPacket)
    → Reads read
    → IsHeader header
    → load_main read offset header ≡ some p
    → IsLoaded header p
unfolding load_main
load_main-IsLoaded read offset header p reads w e =
    let total = (header.length - main_size) / 16 % 2 ^ 32 in
    let (large, more) = passes (ltb header.length main_size) _ p e in
    let (whole, further) = passes (ltb 0 ((header.length - main_size) % 16)) _ p more in
    let (small, last) = passes (ltb (main_size + 32768 * 16) header.length) _ p further in
    let at_least = ltb→le header.length main_size large in
    let divides = ltb→le 0 ((header.length - main_size) % 16) whole in
    let at_most = ltb→le (main_size + 32768 * 16) header.length small in
    elim (Option-cases (read ((offset + 64) % 2 ^ 64) (header.length - 64))) [
      | inl r ↦ absurd (ground (arith, r))
      | inr (body, r) ↦
          let loaded : load_body header total body ≡ some p = ground (arith, r) in
          let (positive, fits, aligned, recoverable, count, bytes) =
            body_lem header total body p loaded in
          record {
            positive = positive;
            fits = fits;
            aligned = aligned;
            recoverable = omega (arith, recoverable, count);
            bounded = omega (arith, count);
            size = omega (arith, count);
            all_read = rw bytes (
                omega (
                  arith,
                  length-append (header_bytes header) body,
                  length-header_bytes header w,
                  reads ((offset + 64) % 2 ^ 64) (header.length - 64) body r,
                ));
          }
    ]
