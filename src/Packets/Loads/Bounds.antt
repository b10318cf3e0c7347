-- ===== src/Packets/Loads/Bounds.antt =====
-- What the `Load` functions have checked.
use par2cmdline_turbo.Prelude.{
  ℕ, ◌+◌, ◌-◌, ◌*◌, ◌/◌, ◌%◌, ◌^◌, ◌≤◌, ◌<◌, ◌≡◌, false, Option, some, List, ◌++◌, length,
  length-append, arith, inl, inr, ltb, leb, passes, ltb→le, Option-cases,
}
use mathlib.Core.Option.{some-injective}
use par2cmdline_turbo.Packets.{PacketHeader, header_bytes, IsHeader, length-header_bytes, Reads}
use par2cmdline_turbo.Packets.Loads.{VerificationPacket, load_verification, verification_size}

leb→lt : (a b : ℕ) → leb a b ≡ false → b < a
leb→lt a b h = ground arith

pub record IsVerification (header : PacketHeader) (p : VerificationPacket) : Type 0 where
  pub positive : 0 < p.blockcount
  pub bounded : p.blockcount ≤ 32768
  pub size : header.length ≡ verification_size + 20 * p.blockcount
  pub all_read : length p.packetdata ≡ header.length

-- For a disk that reads as many bytes as it is asked for, and a header whose fields have their
-- widths: a verification packet that loads has between 1 and 32768 entries, exactly the length of
-- these entries, and all its bytes, so that reading any of its entries stays within the packet.
pub load_verification-IsVerification :
    (read : ℕ → ℕ → Option (List ℕ)) (offset : ℕ) (header : PacketHeader) (p : VerificationPacket)
    → Reads read
    → IsHeader header
    → load_verification read offset header ≡ some p
    → IsVerification header p
unfolding load_verification
load_verification-IsVerification read offset header p reads w e =
    let (large, more) = passes (leb header.length verification_size) _ p e in
    let (whole, further) = passes (ltb 0 ((header.length - verification_size) % 20)) _ p more in
    let (small, last) = passes (ltb (verification_size + 32768 * 20) header.length) _ p further in
    let at_least = leb→lt header.length verification_size large in
    let divides = ltb→le 0 ((header.length - verification_size) % 20) whole in
    let at_most = ltb→le (verification_size + 32768 * 20) header.length small in
    elim (Option-cases (read ((offset + 64) % 2 ^ 64) (header.length - 64))) [
      | inl r ↦ absurd (ground (arith, r))
      | inr (body, r) ↦
          let made : some (record {
            packetdata = header_bytes header ++ body;
            blockcount = (header.length - verification_size) / 20 % 2 ^ 32;
          })
              ≡ some p =
            ground (arith, r) in
          rw (← (some-injective _ _ made)) (record {
            positive = omega arith;
            bounded = omega arith;
            size = omega arith;
            all_read = omega (
              arith,
              length-append (header_bytes header) body,
              length-header_bytes header w,
              reads ((offset + 64) % 2 ^ 64) (header.length - 64) body r,
            );
          })
    ]
