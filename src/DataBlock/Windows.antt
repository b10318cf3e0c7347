-- ===== src/DataBlock/Windows.antt =====
-- What `ReadData` and `WriteData` do to the data of a block.
use mathlib.Core.Path.{ap₂}
use par2cmdline_turbo.Prelude.{
  ℕ, zero, suc, ◌+◌, ◌-◌, ◌%◌, ◌^◌, ◌≤◌, ◌<◌, min, ◌≡◌, refl, ap, sym, ◌∙◌, Option, some, List, [],
  ◌∷◌, ◌++◌, take, drop, get_or, replicate, length, length-drop, length-take, arith, dec_lt, lt→ltb,
  le→ltb, append-nil,
}
use par2cmdline_turbo.DataBlock.{DataBlock, read_data, zero_rest}

-- The data of a block: its range of the file, as far as the file goes.
abbrev pub data_of : List ℕ → DataBlock → List ℕ
data_of content b = take b.length (drop b.offset content)

-- `size` bytes from `position` on, with zeros for those that are missing.
abbrev pub window : List ℕ → ℕ → ℕ → List ℕ
window bytes position zero = []
window bytes position (suc size) = get_or bytes position 0 ∷ window bytes (suc position) size

-- A file with this content: a read within it gives the bytes there.
abbrev pub Holds : (ℕ → ℕ → Option (List ℕ)) → List ℕ → Type 0
Holds read content =
    (offset n : ℕ)
    → offset + n ≤ length content
    → read offset n ≡ some (take n (drop offset content))

take-take : (m n k : ℕ) (xs : List ℕ) → k ≡ min m n → take m (take n xs) ≡ take k xs
take-take zero n zero xs h = refl
take-take zero n (suc k) xs h = absurd (omega arith)
take-take (suc m) zero zero xs h = refl
take-take (suc m) zero (suc k) xs h = absurd (omega arith)
take-take (suc m) (suc n) zero xs h = absurd (omega arith)
take-take (suc m) (suc n) (suc k) [] h = refl
take-take (suc m) (suc n) (suc k) (x ∷ xs) h =
    ap (λ (t : List ℕ). x ∷ t) (take-take m n k xs (omega arith))

drop-drop : (m n k : ℕ) (xs : List ℕ) → k ≡ n + m → drop m (drop n xs) ≡ drop k xs
drop-drop m zero k xs h = ap (λ (t : ℕ). drop t xs) (omega arith)
drop-drop zero (suc n) zero xs h = absurd (omega arith)
drop-drop zero (suc n) (suc k) [] h = refl
drop-drop (suc m) (suc n) zero xs h = absurd (omega arith)
drop-drop (suc m) (suc n) (suc k) [] h = refl
drop-drop m (suc n) (suc k) (x ∷ xs) h = drop-drop m n k xs (omega arith)

drop-take : (m n k : ℕ) (xs : List ℕ) → n ≡ m + k → drop m (take n xs) ≡ take k (drop m xs)
drop-take zero n k xs h = ap (λ (t : ℕ). take t xs) (omega arith)
drop-take (suc m) zero k xs h = absurd (omega arith)
drop-take (suc m) (suc n) zero [] h = refl
drop-take (suc m) (suc n) (suc k) [] h = refl
drop-take (suc m) (suc n) k (x ∷ xs) h = drop-take m n k xs (omega arith)

pub take-min_length : (m k : ℕ) (xs : List ℕ) → k ≡ min m (length xs) → take k xs ≡ take m xs
take-min_length zero zero xs h = refl
take-min_length zero (suc k) xs h = absurd (omega arith)
take-min_length (suc m) zero [] h = refl
take-min_length (suc m) (suc k) [] h = absurd (omega arith)
take-min_length (suc m) zero (x ∷ xs) h = absurd (omega arith)
take-min_length (suc m) (suc k) (x ∷ xs) h =
    ap (λ (t : List ℕ). x ∷ t) (take-min_length m k xs (omega arith))

drop-get_or : (p : ℕ) (xs : List ℕ) → p < length xs → drop p xs ≡ get_or xs p 0 ∷ drop (suc p) xs
drop-get_or p [] h = absurd (omega arith)
drop-get_or zero (x ∷ xs) h = refl
drop-get_or (suc p) (x ∷ xs) h = drop-get_or p xs (omega arith)

pub get_or-past : (p : ℕ) (xs : List ℕ) → length xs ≤ p → get_or xs p 0 ≡ 0
get_or-past p [] h = refl
get_or-past zero (x ∷ xs) h = absurd (omega arith)
get_or-past (suc p) (x ∷ xs) h = get_or-past p xs (omega arith)

drop-past_end : (p : ℕ) (xs : List ℕ) → length xs ≤ p → drop p xs ≡ []
drop-past_end zero [] h = refl
drop-past_end (suc p) [] h = refl
drop-past_end zero (x ∷ xs) h = absurd (omega arith)
drop-past_end (suc p) (x ∷ xs) h = drop-past_end p xs (omega arith)

window-zeros : (xs : List ℕ) (p size : ℕ) → length xs ≤ p → window xs p size ≡ replicate size 0
window-zeros xs p zero h = refl
window-zeros xs p (suc size) h = rw (get_or-past p xs h, window-zeros xs (suc p) size (omega arith))

-- The bytes that are there, and the zeros.
pub window_parts :
    (xs : List ℕ) (p size missing : ℕ)
    → missing ≡ size - (length xs - p)
    → window xs p size ≡ take size (drop p xs) ++ replicate missing 0
window_parts xs p zero zero h = refl
window_parts xs p zero (suc missing) h = absurd (omega arith)
window_parts xs p (suc size) missing h = elim (dec_lt p (length xs)) [
  | yes within ↦
      rw (drop-get_or p xs within) (
        ap (λ (t : List ℕ). get_or xs p 0 ∷ t) (window_parts xs (suc p) size missing (omega arith)))
  | no past ↦
      let all : missing ≡ suc size = omega arith in
      rw (drop-past_end p xs (omega arith), all) (window-zeros xs p (suc size) (omega arith))
]

-- Reading a part and then the rest is reading the whole.
pub window-add :
    (xs : List ℕ) (p m n q k : ℕ)
    → q ≡ p + m
    → k ≡ m + n
    → window xs p k ≡ window xs p m ++ window xs q n
window-add xs p zero n q k e f = ap₂ (λ (t u : ℕ). window xs t u) (omega arith) (omega arith)
window-add xs p (suc m) n q zero e f = absurd (omega arith)
window-add xs p (suc m) n q (suc k) e f =
    ap (λ (t : List ℕ). get_or xs p 0 ∷ t)
      (window-add xs (suc p) m n q k (omega arith) (omega arith))

zero_rest_lem :
    (size want missing : ℕ) (bytes : List ℕ)
    → missing ≡ size - want
    → zero_rest size want bytes ≡ bytes ++ replicate missing 0
zero_rest_lem size want missing bytes h = elim (dec_lt want size) [
  | yes k ↦ rw (lt→ltb want size k, h)
  | no k ↦
      let none_missing : missing ≡ 0 = omega arith in
      rw (le→ltb want size (omega arith), none_missing, append-nil bytes)
]

-- The part of the data that is read.
part_read :
    (content : List ℕ) (b : DataBlock) (position size want start : ℕ)
    → position < b.length
    → start ≡ b.offset + position
    → want ≡ min (min size (b.length - position)) (length content - start)
    → take size (drop position (data_of content b)) ≡ take want (drop start content)
part_read content b position size want start h e w =
    let rest = b.length - position in
    let from = drop b.offset content in
    ap (take size) (drop-take position b.length rest from (omega arith))
    ∙ take-take size rest (min size rest) (drop position from) refl
    ∙ ap (take (min size rest)) (drop-drop position b.offset start content e)
    ∙ sym (
        take-min_length (min size rest) want (drop start content)
          (omega (arith, length-drop start content)))

-- For a file shorter than 2^64 bytes, a block whose range ends below 2^64, and a position that is
-- not beyond the end of the file: `ReadData` succeeds, and fills the buffer with the bytes of the
-- block from that position on, and with zeros behind the end of the block or of the file.
pub read_data-eq-window :
    (read : ℕ → ℕ → Option (List ℕ)) (content : List ℕ) (b : DataBlock) (position size : ℕ)
    → Holds read content
    → length content < 2 ^ 64
    → b.offset + b.length < 2 ^ 64
    → b.offset + position ≤ length content
    → read_data read (length content) b position size
      ≡ some (window (data_of content b) position size)
unfolding read_data
read_data-eq-window read content b position size holds c l p = elim (dec_lt position b.length) [
  | yes h ↦
      let start = (b.offset + position) % 2 ^ 64 in
      let want =
        min (min size (b.length - position)) ((length content + 2 ^ 64 - start) % 2 ^ 64) in
      let bytes = take want (drop start content) in
      let at : start ≡ b.offset + position = omega arith in
      let read_there : read start want ≡ some bytes = holds start want (omega arith) in
      rw (lt→ltb position b.length h, read_there)
        (ap some (
          zero_rest_lem size want (size - want) bytes refl
          ∙ ap (λ (t : List ℕ). t ++ replicate (size - want) 0)
              (sym (part_read content b position size want start h at (omega arith)))
          ∙ sym (
              window_parts (data_of content b) position size (size - want) (
                omega (
                  arith,
                  length-take b.length (drop b.offset content),
                  length-drop b.offset content,
                )))))
  | no h ↦ rw (le→ltb position b.length (omega arith)) (
      ap some (
        sym (
          window-zeros (data_of content b) position size
            (omega (arith, length-take b.length (drop b.offset content))))))
]
