-- ===== src/Packets/Main/Roundtrip.antt =====
-- A main packet that was created is loaded.
use par2cmdline_turbo.Prelude.{
  ℕ, ◌+◌, ◌-◌, ◌*◌, ◌/◌, ◌%◌, ◌^◌, ◌≤◌, ◌<◌, ◌≡◌, bit_and, refl, ap, ◌∙◌, false, not, ◌||◌, ◌==◌,
  Option, some, List, ◌++◌, length, arith, drop, le→ltb,
}
use par2cmdline_turbo.Bits.{bit_and_mask}
use par2cmdline_turbo.Letype.{put_leu32, put_leu64, get_leu32, get_leu64, get_leu-put_leu}
use par2cmdline_turbo.Md5Hash.{Md5Hash}
use par2cmdline_turbo.Packets.{PacketHeader, header_bytes}
use par2cmdline_turbo.Packets.Main.{
  load_main, load_body, main_size, main_body, main_header, create_main, in_order, store_ids,
}

-- The body is read as it was written.
body_values :
    (ids : List Md5Hash) (blocksize : ℕ)
    → length ids ≤ 32768
    → blocksize < 2 ^ 64
    → (get_leu64 (main_body ids blocksize) ≡ blocksize)
      × (get_leu32 (drop 8 (main_body ids blocksize)) ≡ length ids)
unfolding main_body
body_values ids blocksize small fits =
    let n = length ids % 2 ^ 32 in
    (
      (get_leu-put_leu 0 blocksize (put_leu32 n ++ store_ids ids) (omega arith) fits).1,
      after_size
          ∙ (get_leu-put_leu n 0 (store_ids ids) (omega arith) (omega arith)).0
          ∙ omega arith,
    )
  where
    after_size :
        get_leu32 (drop 8 (main_body ids blocksize))
        ≡ get_leu32 (put_leu32 (length ids % 2 ^ 32) ++ store_ids ids)
    after_size = unfold put_leu64 in refl

load_body_lem :
    (header : PacketHeader) (ids : List Md5Hash) (blocksize : ℕ)
    → length ids ≤ 32768
    → 0 < blocksize
    → blocksize < 2 ^ 64
    → blocksize % 4 ≡ 0
    → load_body header (length ids) (main_body ids blocksize)
      ≡ some (record {
        packetdata = header_bytes header ++ main_body ids blocksize;
        blocksize = blocksize;
        totalfilecount = length ids;
        recoverablefilecount = length ids;
      })
unfolding load_body
load_body_lem header ids blocksize small positive fits aligned =
    let (size, count) = body_values ids blocksize small fits in
    let mask : bit_and blocksize 3 ≡ 0 = bit_and_mask 2 blocksize ∙ aligned in
    let valid : ((blocksize == 0) || not (bit_and blocksize 3 == 0)) ≡ false =
      ground (arith, mask) in
    rw (size, count, le→ltb (length ids) (length ids) (omega arith), valid)

length-in_order :
    (sort : List Md5Hash → List Md5Hash) (fileids : List Md5Hash)
    → length (sort fileids) ≡ length fileids
    → length (in_order sort fileids) ≡ length fileids
unfolding in_order
length-in_order sort fileids h = ground (arith, h)

load_main_lem :
    (read : ℕ → ℕ → Option (List ℕ)) (offset n : ℕ) (header : PacketHeader) (body : List ℕ)
    → n ≤ 32768
    → header.length ≡ 76 + 16 * n
    → read ((offset + 64) % 2 ^ 64) (12 + 16 * n) ≡ some body
    → load_main read offset header ≡ load_body header n body
unfolding load_main
load_main_lem read offset n header body small size stored =
    let rest : header.length - 64 ≡ 12 + 16 * n = omega arith in
    let count : (header.length - main_size) / 16 % 2 ^ 32 ≡ n = omega arith in
    let whole : (header.length - main_size) % 16 ≡ 0 = omega arith in
    rw
      (
        le→ltb header.length main_size (omega arith),
        whole,
        le→ltb (main_size + 32768 * 16) header.length (omega arith),
        rest,
        stored,
      )
      (ap (λ (t : ℕ). load_body header t body) count)

main_header-length :
    (md5 : List ℕ → Md5Hash) (ids : List Md5Hash) (blocksize : ℕ)
    → length ids ≤ 32768
    → (main_header md5 ids blocksize).length ≡ 76 + 16 * length ids
unfolding main_header
main_header-length md5 ids blocksize small = omega arith

-- For at most 32768 files, a block size that is a positive multiple of 4 below 2^64, and a sort
-- that keeps the number of files: where the disk holds the body that `Create` wrote, `Load` with
-- the header that `Create` wrote gives the packet that `Create` made.
pub load_main-create_main :
    (md5 : List ℕ → Md5Hash) (sort : List Md5Hash → List Md5Hash) (read : ℕ → ℕ → Option (List ℕ))
    (fileids : List Md5Hash) (offset blocksize : ℕ)
    → length fileids ≤ 32768
    → 0 < blocksize
    → blocksize < 2 ^ 64
    → blocksize % 4 ≡ 0
    → length (sort fileids) ≡ length fileids
    → read ((offset + 64) % 2 ^ 64) (12 + 16 * length fileids)
      ≡ some (main_body (in_order sort fileids) blocksize)
    → load_main read offset (main_header md5 (in_order sort fileids) blocksize)
      ≡ some (create_main md5 sort fileids blocksize)
load_main-create_main md5 sort read fileids offset blocksize small positive fits aligned sorted
      stored =
    let ids = in_order sort fileids in
    let n : length ids ≡ length fileids = length-in_order sort fileids sorted in
    let fewer : length ids ≤ 32768 = omega (arith, n) in
    let header = main_header md5 ids blocksize in
    load_main_lem read offset (length ids) header (main_body ids blocksize) fewer
      (main_header-length md5 ids blocksize fewer) (rw n stored)
    ∙ load_body_lem header ids blocksize fewer positive fits aligned
    ∙ created (length ids) (omega (arith, n))
  where
    created :
        (n : ℕ)
        → n ≡ length fileids % 2 ^ 32
        → some (record {
          packetdata =
              header_bytes (main_header md5 (in_order sort fileids) blocksize)
              ++ main_body (in_order sort fileids) blocksize;
          blocksize = blocksize;
          totalfilecount = n;
          recoverablefilecount = n;
        })
          ≡ some (create_main md5 sort fileids blocksize)
    created n e = unfold create_main in rw e
