-- ===== src/Packets/Description/Fields.antt =====
-- Where the fields of a description packet stand, and what `Load` makes of them.
use par2cmdline_turbo.Prelude.{
  ℕ, zero, suc, ◌+◌, ◌-◌, ◌%◌, ◌^◌, ◌≤◌, ◌<◌, ◌≡◌, refl, ap, sym, ◌∙◌, true, false, not, ◌&&◌,
  Option, some, List, [], ◌∷◌, ◌++◌, length, length-append, arith, leb, take, drop, replicate,
  append_assoc, append-nil, drop-past, drop-within, drop-append, take-append, lt→leb, le→ltb,
  dec_lt, ==_iff,
}
use par2cmdline_turbo.Letype.{put_leu64, get_leu64, get_leu-put_leu}
use par2cmdline_turbo.Md5Hash.{Md5Hash, hash_eq, value, hash_lt-eq-value}
use par2cmdline_turbo.Utf8.{latin1_to_utf8}
use par2cmdline_turbo.Packets.{PacketHeader, header_bytes}
use par2cmdline_turbo.Packets.Loads.{
  load_description, description_size, c_string, name_bytes, hash_full, hash_16k, file_length,
}

-- A name without the byte 0.
abbrev pub NoZero : List ℕ → Type 0
NoZero [] = Unit
NoZero (c ∷ cs) = (0 < c) × NoZero cs

c_string-zeros : (name rest : List ℕ) → NoZero name → c_string (name ++ 0 ∷ rest) ≡ name
unfolding c_string
c_string-zeros [] rest h = refl
c_string-zeros (zero ∷ name) rest h = absurd (omega arith)
c_string-zeros (suc c ∷ name) rest h = ground (arith, c_string-zeros name rest h.1)

-- The name is read up to the zeros behind it.
pub c_string-padding :
    (name : List ℕ) (k : ℕ)
    → NoZero name
    → c_string ((name ++ replicate k 0) ++ replicate 4 0) ≡ name
c_string-padding name zero h =
    ap (λ (t : List ℕ). c_string t) (append_assoc name [] (0 ∷ 0 ∷ 0 ∷ 0 ∷ []))
    ∙ c_string-zeros name (0 ∷ 0 ∷ 0 ∷ []) h
c_string-padding name (suc k) h =
    ap (λ (t : List ℕ). c_string t) (append_assoc name (0 ∷ replicate k 0) (0 ∷ 0 ∷ 0 ∷ 0 ∷ []))
    ∙ c_string-zeros name (replicate k 0 ++ (0 ∷ 0 ∷ 0 ∷ 0 ∷ [])) h

hash_eq_same : (h : Md5Hash) → hash_eq h h ≡ true
hash_eq_same h = (hash_lt-eq-value h h).1 ∙ (==_iff (value h) (value h)).1 refl

-- The four fields at their places, whatever follows.
pub record Fields (full half : Md5Hash) (size : ℕ) (name body : List ℕ) : Type 0 where
  pub full_there : hash_full body ≡ full
  pub half_there : hash_16k body ≡ half
  pub size_there : file_length body ≡ size
  pub name_there : name_bytes body ≡ name ++ replicate 4 0

pub body-Fields :
    (id full half : Md5Hash) (size : ℕ) (name : List ℕ)
    → length id.hash ≡ 16
    → length full.hash ≡ 16
    → length half.hash ≡ 16
    → size < 2 ^ 64
    → Fields full half size name (id.hash ++ (full.hash ++ (half.hash ++ (put_leu64 size ++ name))))
body-Fields id full half size name i f h s =
    let tail = put_leu64 size ++ name in
    let from_full = full.hash ++ (half.hash ++ tail) in
    let body = id.hash ++ from_full in
    let eight : length (put_leu64 size) ≡ 8 = unfold put_leu64 in refl in
    let at_full : drop 16 body ≡ from_full = drop-append 16 id.hash from_full i in
    let at_half : drop 32 body ≡ half.hash ++ tail =
      drop-past 32 16 id.hash from_full (omega arith)
      ∙ drop-append 16 full.hash (half.hash ++ tail) f in
    let at_size : drop 48 body ≡ tail =
      drop-past 48 32 id.hash from_full (omega arith)
      ∙ drop-past 32 16 full.hash (half.hash ++ tail) (omega arith)
      ∙ drop-append 16 half.hash tail h in
    let at_name : drop 56 body ≡ name =
      drop-past 56 40 id.hash from_full (omega arith)
      ∙ drop-past 40 24 full.hash (half.hash ++ tail) (omega arith)
      ∙ drop-past 24 8 half.hash tail (omega arith)
      ∙ drop-append 8 (put_leu64 size) name eight in
    let long : 56 ≤ length body = omega (
      arith,
      length-append id.hash from_full,
      length-append full.hash (half.hash ++ tail),
      length-append half.hash tail,
      length-append (put_leu64 size) name,
    ) in
    record {
      full_there =
          ap (λ (t : List ℕ). record { hash = take 16 t }) at_full
          ∙ ap (λ (t : List ℕ). record { hash = t })
              (take-append 16 full.hash (half.hash ++ tail) f);
      half_there =
          ap (λ (t : List ℕ). record { hash = take 16 t }) at_half
          ∙ ap (λ (t : List ℕ). record { hash = t }) (take-append 16 half.hash tail h);
      size_there =
          ap (λ (t : List ℕ). get_leu64 (take 8 t)) at_size
          ∙ ap get_leu64 (take-append 8 (put_leu64 size) name eight)
          ∙ ap get_leu64 (sym (append-nil (put_leu64 size)))
          ∙ (get_leu-put_leu 0 size [] (omega arith) s).1;
      name_there =
          drop-within 56 body (replicate 4 0) long
          ∙ ap (λ (t : List ℕ). t ++ replicate 4 0) at_name;
    }

consistent_lem :
    (size : ℕ) (half full : Md5Hash)
    → (size ≤ 16384 → half ≡ full)
    → (leb size 16384 && not (hash_eq half full)) ≡ false
consistent_lem size half full same = elim (dec_lt 16384 size) [
  | yes h ↦ rw (lt→leb size 16384 h)
  | no h ↦ rw (same (omega arith), hash_eq_same full) (ground arith)
]

pub load_description_lem :
    (read : ℕ → ℕ → Option (List ℕ)) (offset : ℕ) (header : PacketHeader) (body : List ℕ)
    (full half : Md5Hash) (size : ℕ) (name : List ℕ)
    → description_size < header.length
    → header.length ≤ description_size + 100000
    → read ((offset + 64) % 2 ^ 64) (header.length - 64) ≡ some body
    → Fields full half size name body
    → (size ≤ 16384 → half ≡ full)
    → load_description read offset header
      ≡ some (record {
        packetdata = header_bytes header ++ (body ++ replicate 4 0);
        filename = latin1_to_utf8 (c_string (name ++ replicate 4 0));
      })
unfolding load_description
load_description_lem read offset header body full half size name large small stored f same =
    let consistent : (leb size 16384 && not (hash_eq half full)) ≡ false =
      consistent_lem size half full same in
    rw (
      lt→leb header.length description_size large,
      le→ltb 100000 (header.length - description_size) (omega arith),
      stored,
      f.size_there,
      f.half_there,
      f.full_there,
      consistent,
      f.name_there,
    )
