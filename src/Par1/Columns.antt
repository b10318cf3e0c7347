-- ===== src/Par1/Columns.antt =====
-- The bytes of several buffers at one position, and the buffers that are there or missing.
use mathlib.Core.Path.{ap₂}
use par2cmdline_turbo.Prelude.{
  ℕ, zero, suc, ◌%◌, ◌^◌, ◌<◌, ◌≡◌, refl, ap, Bool, true, false, List, [], ◌∷◌, ◌++◌, get_or,
  length, arith,
}
use par2cmdline_turbo.ReedSolomon.Bytes.{Byte, byte}
use par2cmdline_turbo.ReedSolomon.Places.{chosen}
use par2cmdline_turbo.Par1.{missing_count}
use par2cmdline_turbo.Par1.Buffers.{IsBuffer, AllBuffers, column}

pub length-column : (k : ℕ) (buffers : List (List ℕ)) → length (column k buffers) ≡ length buffers
length-column k [] = refl
length-column k (b ∷ buffers) = ap suc (length-column k buffers)

-- Buffers with the same bytes are equal.
pub buffer_eq :
    (size : ℕ) (xs ys : List ℕ)
    → IsBuffer size xs
    → IsBuffer size ys
    → ((k : ℕ) → k < size → byte (get_or xs k 0) ≡ byte (get_or ys k 0))
    → xs ≡ ys
buffer_eq size [] [] s t h = refl
buffer_eq size [] (y ∷ ys) s t h = absurd (omega (arith, s.width, t.width))
buffer_eq size (x ∷ xs) [] s t h = absurd (omega (arith, s.width, t.width))
buffer_eq zero (x ∷ xs) (y ∷ ys) s t h = absurd (omega (arith, s.width))
buffer_eq (suc size) (x ∷ xs) (y ∷ ys) s t h =
    let same : x % 2 ^ 8 ≡ y % 2 ^ 8 = ap (λ (b : Byte). b.value) (h 0 (omega arith)) in
    let first : x ≡ y = omega (arith, same, s.bytes.0, t.bytes.0) in
    ap₂ (λ (z : ℕ) (zs : List ℕ). z ∷ zs) first
      (buffer_eq size xs ys (record { width = omega (arith, s.width); bytes = s.bytes.1 })
        (record { width = omega (arith, t.width); bytes = t.bytes.1 })
        (λ k l. h (suc k) (omega arith)))

pub buffers_eq :
    (size : ℕ) (xs ys : List (List ℕ))
    → length xs ≡ length ys
    → AllBuffers size xs
    → AllBuffers size ys
    → ((i k : ℕ)
        → i < length xs
        → k < size
        → byte (get_or (get_or xs i []) k 0) ≡ byte (get_or (get_or ys i []) k 0))
    → xs ≡ ys
buffers_eq size [] [] e s t h = refl
buffers_eq size [] (y ∷ ys) e s t h = absurd (omega arith)
buffers_eq size (x ∷ xs) [] e s t h = absurd (omega arith)
buffers_eq size (x ∷ xs) (y ∷ ys) e s t h =
    ap₂ (λ (z : List ℕ) (zs : List (List ℕ)). z ∷ zs)
      (buffer_eq size x y s.0 t.0 (λ k l. h 0 k (omega arith) l))
      (buffers_eq size xs ys (omega arith) s.1 t.1 (λ i k l m. h (suc i) k (omega arith) m))

pub column-chosen :
    (wanted : Bool) (k : ℕ) (present : List Bool) (files : List (List ℕ))
    → column k (chosen wanted present files) ≡ chosen wanted present (column k files)
column-chosen wanted k [] files = refl
column-chosen wanted k (p ∷ present) [] = refl
column-chosen true k (true ∷ present) (f ∷ files) =
    ap (λ (t : List Byte). byte (get_or f k 0) ∷ t) (column-chosen true k present files)
column-chosen true k (false ∷ present) (f ∷ files) = column-chosen true k present files
column-chosen false k (true ∷ present) (f ∷ files) = column-chosen false k present files
column-chosen false k (false ∷ present) (f ∷ files) =
    ap (λ (t : List Byte). byte (get_or f k 0) ∷ t) (column-chosen false k present files)

pub chosen-AllBuffers :
    (wanted : Bool) (size : ℕ) (present : List Bool) (files : List (List ℕ))
    → AllBuffers size files
    → AllBuffers size (chosen wanted present files)
chosen-AllBuffers wanted size [] files h = tt
chosen-AllBuffers wanted size (p ∷ present) [] h = tt
chosen-AllBuffers true size (true ∷ present) (f ∷ files) h =
    (h.0, chosen-AllBuffers true size present files h.1)
chosen-AllBuffers true size (false ∷ present) (f ∷ files) h =
    chosen-AllBuffers true size present files h.1
chosen-AllBuffers false size (true ∷ present) (f ∷ files) h =
    chosen-AllBuffers false size present files h.1
chosen-AllBuffers false size (false ∷ present) (f ∷ files) h =
    (h.0, chosen-AllBuffers false size present files h.1)

pub length-chosen :
    (present : List Bool) (files : List (List ℕ))
    → length files ≡ length present
    → length (chosen false present files) ≡ missing_count present
length-chosen [] files h = refl
length-chosen (p ∷ present) [] h = absurd (omega arith)
length-chosen (true ∷ present) (f ∷ files) h =
    omega (arith, length-chosen present files (omega arith))
length-chosen (false ∷ present) (f ∷ files) h =
    omega (arith, length-chosen present files (omega arith))

pub column-append :
    (k : ℕ) (xs ys : List (List ℕ)) → column k (xs ++ ys) ≡ column k xs ++ column k ys
column-append k [] ys = refl
column-append k (x ∷ xs) ys =
    ap (λ (t : List Byte). byte (get_or x k 0) ∷ t) (column-append k xs ys)

pub append-AllBuffers :
    (size : ℕ) (xs ys : List (List ℕ))
    → AllBuffers size xs
    → AllBuffers size ys
    → AllBuffers size (xs ++ ys)
append-AllBuffers size [] ys h k = k
append-AllBuffers size (x ∷ xs) ys h k = (h.0, append-AllBuffers size xs ys h.1 k)

pub get_or-column :
    (k i : ℕ) (buffers : List (List ℕ))
    → i < length buffers
    → get_or (column k buffers) i (byte 0) ≡ byte (get_or (get_or buffers i []) k 0)
get_or-column k i [] h = absurd (omega arith)
get_or-column k zero (b ∷ buffers) h = refl
get_or-column k (suc i) (b ∷ buffers) h = get_or-column k i buffers (omega arith)
