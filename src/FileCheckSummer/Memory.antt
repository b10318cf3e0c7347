-- ===== src/FileCheckSummer/Memory.antt =====
-- Reading from the buffer and writing to it.
use mathlib.Core.Path.{ap₂}
use par2cmdline_turbo.Prelude.{
  ℕ, zero, suc, ◌+◌, ◌^◌, ◌<◌, ◌≤◌, ◌≡◌, refl, ap, sym, ◌∙◌, List, [], ◌∷◌, get_or, take, drop,
  replicate, length, arith, append-nil,
}
use par2cmdline_turbo.Crc.Bitwise.{AllBytes}
use par2cmdline_turbo.DataBlock.Windows.{window, window_parts}
use par2cmdline_turbo.FileCheckSummer.{write_at}

pub length-write_at :
    (p : ℕ) (bytes buffer : List ℕ) → length (write_at p bytes buffer) ≡ length buffer
unfolding write_at
length-write_at zero [] buffer = refl
length-write_at zero (x ∷ bytes) [] = refl
length-write_at zero (x ∷ bytes) (y ∷ buffer) = ap suc (length-write_at zero bytes buffer)
length-write_at (suc p) bytes [] = refl
length-write_at (suc p) bytes (y ∷ buffer) = ap suc (length-write_at p bytes buffer)

-- A position that is written.
pub get_or-write_at :
    (p i j : ℕ) (bytes buffer : List ℕ)
    → i < length bytes
    → j ≡ p + i
    → j < length buffer
    → get_or (write_at p bytes buffer) j 0 ≡ get_or bytes i 0
unfolding write_at
get_or-write_at p i j [] buffer h e k = absurd (omega arith)
get_or-write_at p i j (x ∷ bytes) [] h e k = absurd (omega arith)
get_or-write_at zero zero zero (x ∷ bytes) (y ∷ buffer) h e k = refl
get_or-write_at zero zero (suc j) (x ∷ bytes) (y ∷ buffer) h e k = absurd (omega arith)
get_or-write_at zero (suc i) zero (x ∷ bytes) (y ∷ buffer) h e k = absurd (omega arith)
get_or-write_at zero (suc i) (suc j) (x ∷ bytes) (y ∷ buffer) h e k =
    get_or-write_at zero i j bytes buffer (omega arith) (omega arith) (omega arith)
get_or-write_at (suc p) i zero (x ∷ bytes) (y ∷ buffer) h e k = absurd (omega arith)
get_or-write_at (suc p) i (suc j) (x ∷ bytes) (y ∷ buffer) h e k =
    get_or-write_at p i j (x ∷ bytes) buffer h (omega arith) (omega arith)

-- A position before.
pub get_or-write_before :
    (p j : ℕ) (bytes buffer : List ℕ)
    → j < p
    → get_or (write_at p bytes buffer) j 0 ≡ get_or buffer j 0
unfolding write_at
get_or-write_before zero j bytes buffer h = absurd (omega arith)
get_or-write_before (suc p) j bytes [] h = refl
get_or-write_before (suc p) zero bytes (y ∷ buffer) h = refl
get_or-write_before (suc p) (suc j) bytes (y ∷ buffer) h =
    get_or-write_before p j bytes buffer (omega arith)

pub get_or-window :
    (xs : List ℕ) (p n i j : ℕ) → i < n → j ≡ p + i → get_or (window xs p n) i 0 ≡ get_or xs j 0
get_or-window xs p zero i j h e = absurd (omega arith)
get_or-window xs p (suc n) zero j h e = ap (λ (t : ℕ). get_or xs t 0) (omega arith)
get_or-window xs p (suc n) (suc i) j h e =
    get_or-window xs (suc p) n i j (omega arith) (omega arith)

pub window-ext :
    (xs ys : List ℕ) (p q n : ℕ)
    → ((i : ℕ) → i < n → get_or xs (p + i) 0 ≡ get_or ys (q + i) 0)
    → window xs p n ≡ window ys q n
window-ext xs ys p q zero h = refl
window-ext xs ys p q (suc n) h =
    let a = none_more p in
    let b = none_more q in
    ap₂ (λ (t : ℕ) (u : List ℕ). t ∷ u)
      (ap (λ (t : ℕ). get_or xs t 0) (sym a) ∙ h 0 (omega arith) ∙ ap (λ (t : ℕ). get_or ys t 0) b)
      (window-ext xs ys (suc p) (suc q) n (λ i k.
        let c = one_more p i in
        let d = one_more q i in
        ap (λ (t : ℕ). get_or xs t 0) c
        ∙ h (suc i) (omega arith)
        ∙ ap (λ (t : ℕ). get_or ys t 0) (sym d)))
  where
    none_more : (p : ℕ) → p + 0 ≡ p
    none_more p = omega arith

    one_more : (p i : ℕ) → suc p + i ≡ p + suc i
    one_more p i = omega arith

pub length-window : (xs : List ℕ) (p n : ℕ) → length (window xs p n) ≡ n
length-window xs p zero = refl
length-window xs p (suc n) = ap suc (length-window xs (suc p) n)

pub take-window : (xs : List ℕ) (p m n : ℕ) → m ≤ n → take m (window xs p n) ≡ window xs p m
take-window xs p zero n h = refl
take-window xs p (suc m) zero h = absurd (omega arith)
take-window xs p (suc m) (suc n) h =
    ap (λ (t : List ℕ). get_or xs p 0 ∷ t) (take-window xs (suc p) m n (omega arith))

pub drop-window :
    (xs : List ℕ) (p m n q k : ℕ) → n ≡ m + k → q ≡ p + m → drop m (window xs p n) ≡ window xs q k
drop-window xs p zero n q k h e = ap₂ (λ (t u : ℕ). window xs t u) (omega arith) (omega arith)
drop-window xs p (suc m) zero q k h e = absurd (omega arith)
drop-window xs p (suc m) (suc n) q k h e =
    drop-window xs (suc p) m n q k (omega arith) (omega arith)

pub window-whole : (xs : List ℕ) → window xs 0 (length xs) ≡ xs
window-whole xs =
    window_parts xs 0 (length xs) 0 (omega arith) ∙ append-nil (take (length xs) xs) ∙ all xs
  where
    all : (xs : List ℕ) → take (length xs) xs ≡ xs
    all [] = refl
    all (x ∷ xs) = ap (λ (t : List ℕ). x ∷ t) (all xs)

pub take-drop-window :
    (xs : List ℕ) (p n : ℕ) → p + n ≤ length xs → take n (drop p xs) ≡ window xs p n
take-drop-window xs p n h =
    sym (append-nil (take n (drop p xs))) ∙ sym (window_parts xs p n 0 (omega arith))

-- Blanks
abbrev pub zeros : ℕ → List ℕ
zeros n = replicate n 0

pub get_or-zeros : (n i : ℕ) → get_or (zeros n) i 0 ≡ 0
get_or-zeros zero i = refl
get_or-zeros (suc n) zero = refl
get_or-zeros (suc n) (suc i) = get_or-zeros n i

pub length-zeros : (n : ℕ) → length (zeros n) ≡ n
length-zeros zero = refl
length-zeros (suc n) = ap suc (length-zeros n)

pub get_or-lt : (xs : List ℕ) (i : ℕ) → AllBytes xs → get_or xs i 0 < 2 ^ 8
get_or-lt [] i h = omega arith
get_or-lt (x ∷ xs) zero h = h.0
get_or-lt (x ∷ xs) (suc i) h = get_or-lt xs i h.1

pub window-AllBytes : (xs : List ℕ) (p n : ℕ) → AllBytes xs → AllBytes (window xs p n)
window-AllBytes xs p zero h = tt
window-AllBytes xs p (suc n) h = (get_or-lt xs p h, window-AllBytes xs (suc p) n h)

pub write_at-AllBytes :
    (p : ℕ) (bytes buffer : List ℕ)
    → AllBytes bytes
    → AllBytes buffer
    → AllBytes (write_at p bytes buffer)
unfolding write_at
write_at-AllBytes zero [] buffer h k = k
write_at-AllBytes zero (x ∷ bytes) [] h k = tt
write_at-AllBytes zero (x ∷ bytes) (y ∷ buffer) h k =
    (h.0, write_at-AllBytes zero bytes buffer h.1 k.1)
write_at-AllBytes (suc p) bytes [] h k = tt
write_at-AllBytes (suc p) bytes (y ∷ buffer) h k = (k.0, write_at-AllBytes p bytes buffer h k.1)

pub zeros-AllBytes : (n : ℕ) → AllBytes (zeros n)
zeros-AllBytes zero = tt
zeros-AllBytes (suc n) = (omega arith, zeros-AllBytes n)

pub window-blank :
    (xs : List ℕ) (p n : ℕ)
    → ((i : ℕ) → p ≤ i → i < p + n → get_or xs i 0 ≡ 0)
    → window xs p n ≡ zeros n
window-blank xs p zero h = refl
window-blank xs p (suc n) h =
    ap₂ (λ (t : ℕ) (u : List ℕ). t ∷ u) (h p (omega arith) (omega arith))
      (window-blank xs (suc p) n (λ i a b. h i (omega arith) (omega arith)))
