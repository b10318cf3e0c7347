-- ===== src/Packets/Description/Roundtrip.antt =====
-- A description packet that was created is loaded, and what its name has become.
use par2cmdline_turbo.Prelude.{
  ℕ, ◌+◌, ◌-◌, ◌%◌, ◌^◌, ◌≤◌, ◌<◌, ◌≡◌, ◌≢◌, ◌↔◌, bit_and, if◌then◌else◌, refl, ap, sym, ◌∙◌,
  Option, some, List, [], ◌∷◌, ◌++◌, length, arith, ltb, drop, replicate, le→ltb, lt→ltb, dec_lt,
}
use par2cmdline_turbo.Bits.{bit_and-not_three_32}
use par2cmdline_turbo.Md5Hash.{Md5Hash}
use par2cmdline_turbo.Utf8.{latin1_to_utf8}
use par2cmdline_turbo.Packets.{PacketHeader, header_bytes}
use par2cmdline_turbo.Packets.Loads.{DescriptionPacket, load_description, c_string}
use par2cmdline_turbo.Packets.Description.{description_body, describe, padded}
use par2cmdline_turbo.Packets.Description.Fields.{
  NoZero, body-Fields, c_string-padding, load_description_lem,
}

abbrev pub AllAscii : List ℕ → Type 0
AllAscii [] = Unit
AllAscii (c ∷ cs) = (c < 128) × AllAscii cs

length-latin1_to_utf8 : (s : List ℕ) → length s ≤ length (latin1_to_utf8 s)
unfolding latin1_to_utf8
length-latin1_to_utf8 [] = omega arith
length-latin1_to_utf8 (c ∷ s) = ground (arith, length-latin1_to_utf8 s)

latin1_to_utf8-ascii : (s : List ℕ) → AllAscii s → latin1_to_utf8 s ≡ s
unfolding latin1_to_utf8
latin1_to_utf8-ascii [] h = refl
latin1_to_utf8-ascii (c ∷ s) h = rw (lt→ltb c 128 h.0, latin1_to_utf8-ascii s h.1)

ascii_head : (c : ℕ) (s : List ℕ) → c < 128 → latin1_to_utf8 (c ∷ s) ≡ c ∷ latin1_to_utf8 s
unfolding latin1_to_utf8
ascii_head c s h = rw (lt→ltb c 128 h)

high_head :
    (c : ℕ) (s : List ℕ)
    → 128 ≤ c
    → latin1_to_utf8 (c ∷ s)
      ≡ (0xc2 + (if ltb 0xbf c then 1 else 0)) % 2 ^ 8
        ∷ (bit_and c 0x3f + 0x80) % 2 ^ 8
        ∷ latin1_to_utf8 s
unfolding latin1_to_utf8
high_head c s h = rw (le→ltb c 128 h)

latin1_to_utf8-same : (s : List ℕ) → latin1_to_utf8 s ≡ s → AllAscii s
unfolding latin1_to_utf8
latin1_to_utf8-same [] h = tt
latin1_to_utf8-same (c ∷ s) h = elim (dec_lt c 128) [
  | yes low ↦
      let rest : latin1_to_utf8 s ≡ s =
        ap (λ (t : List ℕ). drop 1 t) (sym (ascii_head c s low) ∙ h) in
      (low, latin1_to_utf8-same s rest)
  | no high ↦ absurd (
      omega (
        arith,
        ap (λ (t : List ℕ). length t) (sym (high_head c s (omega arith)) ∙ h),
        length-latin1_to_utf8 s,
      ))
]

padded_lem : (n : ℕ) → n ≤ 100000 → (n ≤ padded n) × (padded n ≤ n + 3) × (padded n % 4 ≡ 0)
unfolding padded
padded_lem n h =
    let e = bit_and-not_three_32 ((3 + n % 2 ^ 32) % 2 ^ 32) (omega arith) in
    (omega (arith, e), omega (arith, e), omega (arith, e))

-- A packet that was created and described, and written to disk, loads, and its filename is the
-- name of the file passed through `Latin1ToUtf8`. The name is not empty, has no byte 0 and at most
-- 100000 bytes; the file size fits 64 bits; hashes have 16 bytes; and a file of at most 16384 bytes
-- has the same two hashes. The filename is the name of the file just when that is ASCII.
pub load_description-describe :
    (md5 : List ℕ → Md5Hash) (read : ℕ → ℕ → Option (List ℕ)) (offset : ℕ) (header : PacketHeader)
    (filename : List ℕ) (filesize : ℕ) (full half : Md5Hash)
    → ((bytes : List ℕ) → length (md5 bytes).hash ≡ 16)
    → length full.hash ≡ 16
    → length half.hash ≡ 16
    → filename ≢ []
    → NoZero filename
    → length filename ≤ 100000
    → filesize < 2 ^ 64
    → (filesize ≤ 16384 → half ≡ full)
    → header.length ≡ (describe md5 filename filesize full half).packetlength
    → read ((offset + 64) % 2 ^ 64) (header.length - 64)
      ≡ some (description_body (describe md5 filename filesize full half))
    → (p : DescriptionPacket) × (load_description read offset header ≡ some p)
      × (p.filename ≡ latin1_to_utf8 filename)
      × ((p.filename ≡ filename) ↔ AllAscii filename)
unfolding describe description_body
load_description-describe md5 read offset header filename filesize full half m f h ne nz l s same
      size stored =
    let d = describe md5 filename filesize full half in
    let pad = padded (length filename) - length filename in
    let name = filename ++ replicate pad 0 in
    let (wide, narrow, four) = padded_lem (length filename) l in
    let nonempty : 0 < length filename = length-pos filename ne in
    let fields = body-Fields d.fileid full half filesize name (m _) f h s in
    let text : c_string (name ++ replicate 4 0) ≡ filename = c_string-padding filename pad nz in
    (
      record {
        packetdata = header_bytes header ++ (description_body d ++ replicate 4 0);
        filename = latin1_to_utf8 (c_string (name ++ replicate 4 0));
      },
      load_description_lem read offset header (description_body d) full half filesize name
          (omega (arith, size)) (omega (arith, size)) stored fields same,
      ap latin1_to_utf8 text,
      (
        λ e. latin1_to_utf8-same filename (sym (ap latin1_to_utf8 text) ∙ e),
        λ a. ap latin1_to_utf8 text ∙ latin1_to_utf8-ascii filename a,
      ),
    )
  where
    length-pos : (xs : List ℕ) → xs ≢ [] → 0 < length xs
    length-pos [] h = absurd (h refl)
    length-pos (x ∷ xs) h = omega arith
