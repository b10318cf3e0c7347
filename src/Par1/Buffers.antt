-- ===== src/Par1/Buffers.antt =====
-- What `ProcessData` leaves in the output buffers.
use mathlib.Core.Path.{ap₂}
use par2cmdline_turbo.Prelude.{
  ℕ, zero, suc, ◌+◌, ◌%◌, ◌^◌, ◌<◌, ◌≡◌, inl, inr, refl, ap, sym, ◌∙◌, ◌==◌, bit_xor, List, [], ◌∷◌,
  if◌then◌else◌, get_or, length, arith, Bool-cases,
}
use par2cmdline_turbo.Bits.Xor.{xor-lt}
use par2cmdline_turbo.Crc.Bitwise.{AllBytes}
use par2cmdline_turbo.Galois.{galois_mul, galois_add}
use par2cmdline_turbo.Galois.Arithmetic.{mul-lt}
use par2cmdline_turbo.ReedSolomon.Field.{nought_mul}
use par2cmdline_turbo.ReedSolomon.{Row, no_row}
use par2cmdline_turbo.ReedSolomon.Bytes.{Byte, Byte-eq, byte, plus, times, galois8}
use par2cmdline_turbo.ReedSolomon.Sums.{dot}
use par2cmdline_turbo.ReedSolomon.Process.{internal_process, add_product}
use par2cmdline_turbo.ReedSolomon.Process.Buffers.{internal_process-eq-add_product}
use par2cmdline_turbo.Par1.{process, process_outputs, process_inputs}

-- A buffer of a size.
pub record IsBuffer (size : ℕ) (buffer : List ℕ) : Type 0 where
  pub width : length buffer ≡ size
  pub bytes : AllBytes buffer

-- All of the input buffers.
abbrev pub AllBuffers : ℕ → List (List ℕ) → Type 0
AllBuffers size [] = Unit
AllBuffers size (buffer ∷ buffers) = IsBuffer size buffer × AllBuffers size buffers

-- The bytes at a position, of all buffers.
abbrev pub column : ℕ → List (List ℕ) → List Byte
column k [] = []
column k (buffer ∷ buffers) = byte (get_or buffer k 0) ∷ column k buffers

add_product-IsBuffer :
    (factor size : ℕ) (src dst : List ℕ)
    → factor < 256
    → IsBuffer size src
    → IsBuffer size dst
    → IsBuffer size (add_product factor src dst)
add_product-IsBuffer factor size [] dst h s d = d
add_product-IsBuffer factor size (x ∷ src) [] h s d = d
add_product-IsBuffer factor zero (x ∷ src) (y ∷ dst) h s d = absurd (omega (arith, s.width))
add_product-IsBuffer factor (suc size) (x ∷ src) (y ∷ dst) h s d =
    let rest =
      add_product-IsBuffer factor size src dst h
        (record { width = omega (arith, s.width); bytes = s.bytes.1 })
        (record { width = omega (arith, d.width); bytes = d.bytes.1 }) in
    record {
      width = ap suc rest.width;
      bytes =
          (xor-lt 8 y (galois_mul factor x) d.bytes.0 (mul-lt factor x h s.bytes.0), rest.bytes);
    }

get_or-add_product :
    (factor size k : ℕ) (src dst : List ℕ)
    → factor < 256
    → IsBuffer size src
    → IsBuffer size dst
    → k < size
    → (get_or (add_product factor src dst) k 0
        ≡ bit_xor (get_or dst k 0) (galois_mul factor (get_or src k 0)))
      × (get_or src k 0 < 256)
      × (get_or dst k 0 < 256)
get_or-add_product factor size k [] dst h s d l = absurd (omega (arith, s.width))
get_or-add_product factor size k (x ∷ src) [] h s d l = absurd (omega (arith, d.width))
get_or-add_product factor zero k (x ∷ src) (y ∷ dst) h s d l = absurd (omega arith)
get_or-add_product factor (suc size) zero (x ∷ src) (y ∷ dst) h s d l = (refl, s.bytes.0, d.bytes.0)
get_or-add_product factor (suc size) (suc k) (x ∷ src) (y ∷ dst) h s d l =
    get_or-add_product factor size k src dst h
      (record { width = omega (arith, s.width); bytes = s.bytes.1 })
      (record { width = omega (arith, d.width); bytes = d.bytes.1 }) (omega arith)

sum_byte :
    (a b f : ℕ)
    → a < 256
    → b < 256
    → f < 256
    → bit_xor a (galois_mul f b) % 2 ^ 8 ≡ galois_add (a % 2 ^ 8) (galois_mul f (b % 2 ^ 8))
unfolding galois_add
sum_byte a b f p q r =
    let bound = xor-lt 8 a (galois_mul f b) p (mul-lt f b r q) in
    let same : a ≡ a % 2 ^ 8 = omega arith in
    let other : b ≡ b % 2 ^ 8 = omega arith in
    let fits : bit_xor a (galois_mul f b) % 2 ^ 8 ≡ bit_xor a (galois_mul f b) = omega arith in
    fits ∙ ap₂ (λ (x y : ℕ). bit_xor x (galois_mul f y)) same other

-- The buffer `output` plus a multiple of the buffer `input`.
record IsSum (size : ℕ) (f : Byte) (input output result : List ℕ) : Type 0 where
  buffer : IsBuffer size result
  value :
      (k : ℕ)
      → k < size
      → byte (get_or result k 0)
        ≡ plus (byte (get_or output k 0)) (times f (byte (get_or input k 0)))

-- One call of `Process`
step_lem :
    (size : ℕ) (f : Byte) (input output : List ℕ)
    → IsBuffer size input
    → IsBuffer size output
    → IsSum size f input output
        (if f.value == 0 then output else internal_process f.value input output)
step_lem size f input output s d = elim (Bool-cases (f.value == 0)) [
  | inl t ↦
      let e : f ≡ byte 0 = Byte-eq f (byte 0) (ground (arith, t)) in
      rw t (record {
        buffer = d;
        value = λ k l.
            let x = byte (get_or output k 0) in
            let y = byte (get_or input k 0) in
            sym (
              ap (plus x) (ap (λ (u : Byte). times u y) e ∙ nought_mul galois8 y)
              ∙ galois8.add_nought x);
      })
  | inr t ↦
      let e =
        internal_process-eq-add_product f.value input output f.below (d.width ∙ sym s.width) s.bytes
          d.bytes in
      rw (t, e)
        (record {
          buffer = add_product-IsBuffer f.value size input output f.below s d;
          value = λ k l.
              let (v, p, q) = get_or-add_product f.value size k input output f.below s d l in
              Byte-eq _ _ (
                ap (λ (n : ℕ). n % 2 ^ 8) v
                ∙ sum_byte (get_or output k 0) (get_or input k 0) f.value q p f.below);
        })
]

module _ (rows : List (Row galois8)) (size : ℕ) where
  abbrev pub factor_at : ℕ → ℕ → Byte
  factor_at inputindex outputindex =
      get_or (get_or rows outputindex (no_row galois8)).left inputindex (byte 0)

  process_lem :
      (inputindex outputindex : ℕ) (input output : List ℕ)
      → IsBuffer size input
      → IsBuffer size output
      → IsSum size
          (factor_at inputindex outputindex)
          input
          output
          (process rows inputindex input outputindex output)
  unfolding process
  process_lem inputindex outputindex input output s d =
      step_lem size (factor_at inputindex outputindex) input output s d

  -- All calls for one output buffer, from the input block `inputindex` on.
  abbrev pub one_output : ℕ → ℕ → List (List ℕ) → List ℕ → List ℕ
  one_output outputindex inputindex [] output = output
  one_output outputindex inputindex (input ∷ inputs) output =
      one_output outputindex (suc inputindex) inputs
        (process rows inputindex input outputindex output)

  length-process_outputs :
      (inputindex : ℕ) (input : List ℕ) (start : ℕ) (outputs : List (List ℕ))
      → length (process_outputs rows inputindex input start outputs) ≡ length outputs
  unfolding process_outputs
  length-process_outputs inputindex input start [] = refl
  length-process_outputs inputindex input start (output ∷ outputs) =
      ap suc (length-process_outputs inputindex input (suc start) outputs)

  get_or-process_outputs :
      (inputindex : ℕ) (input : List ℕ) (start i : ℕ) (outputs : List (List ℕ))
      → i < length outputs
      → get_or (process_outputs rows inputindex input start outputs) i []
        ≡ process rows inputindex input (start + i) (get_or outputs i [])
  unfolding process_outputs
  get_or-process_outputs inputindex input start i [] h = absurd (omega arith)
  get_or-process_outputs inputindex input start zero (output ∷ outputs) h =
      ap (λ (n : ℕ). process rows inputindex input n output) (omega arith)
  get_or-process_outputs inputindex input start (suc i) (output ∷ outputs) h =
      get_or-process_outputs inputindex input (suc start) i outputs (omega arith)
      ∙ ap (λ (n : ℕ). process rows inputindex input n (get_or outputs i [])) (omega arith)

  -- The buffers do not disturb each other.
  pub get_or-process_inputs :
      (inputindex i : ℕ) (inputs outputs : List (List ℕ))
      → i < length outputs
      → get_or (process_inputs rows inputindex inputs outputs) i []
        ≡ one_output i inputindex inputs (get_or outputs i [])
  unfolding process_inputs
  get_or-process_inputs inputindex i [] outputs h = refl
  get_or-process_inputs inputindex i (input ∷ inputs) outputs h =
      get_or-process_inputs (suc inputindex) i inputs
        (process_outputs rows inputindex input 0 outputs)
        (omega (arith, length-process_outputs inputindex input 0 outputs))
      ∙ ap (one_output i (suc inputindex) inputs) (
          get_or-process_outputs inputindex input 0 i outputs h
          ∙ ap (λ (n : ℕ). process rows inputindex input n (get_or outputs i [])) (omega arith))

  -- A byte of an output buffer is what it was plus the value of the rest of the row at the bytes of
  -- the inputs.
  pub one_output-eq-dot :
      (i inputindex k : ℕ) (factors : List Byte) (inputs : List (List ℕ)) (output : List ℕ)
      → length factors ≡ length inputs
      → ((j : ℕ) → j < length inputs → factor_at (inputindex + j) i ≡ get_or factors j (byte 0))
      → AllBuffers size inputs
      → IsBuffer size output
      → k < size
      → byte (get_or (one_output i inputindex inputs output) k 0)
        ≡ plus (byte (get_or output k 0)) (dot galois8 factors (column k inputs))
  one_output-eq-dot i inputindex k [] [] output e h s d l =
      sym (galois8.add_nought (byte (get_or output k 0)))
  one_output-eq-dot i inputindex k [] (input ∷ inputs) output e h s d l = absurd (omega arith)
  one_output-eq-dot i inputindex k (f ∷ factors) [] output e h s d l = absurd (omega arith)
  one_output-eq-dot i inputindex k (f ∷ factors) (input ∷ inputs) output e h s d l =
      let step = process_lem inputindex i input output s.0 d in
      let first : factor_at inputindex i ≡ f =
        ap (λ (n : ℕ). factor_at n i) (start inputindex) ∙ h 0 (omega arith) in
      let x = byte (get_or output k 0) in
      let y = byte (get_or input k 0) in
      let rest = dot galois8 factors (column k inputs) in
      one_output-eq-dot i (suc inputindex) k factors inputs (process rows inputindex input i output)
        (omega arith)
        (λ j m. ap (λ (n : ℕ). factor_at n i) (next inputindex j) ∙ h (suc j) (omega arith)) s.1
        step.buffer l
      ∙ ap (λ (u : Byte). plus u rest)
          (step.value k l ∙ ap (λ (u : Byte). plus x (times u y)) first)
      ∙ galois8.add_assoc x (times f y) rest
    where
      start : (n : ℕ) → n ≡ n + 0
      start n = omega arith

      next : (n j : ℕ) → suc n + j ≡ n + suc j
      next n j = omega arith

  process_outputs-AllBuffers :
      (inputindex start : ℕ) (input : List ℕ) (outputs : List (List ℕ))
      → IsBuffer size input
      → AllBuffers size outputs
      → AllBuffers size (process_outputs rows inputindex input start outputs)
  unfolding process_outputs
  process_outputs-AllBuffers inputindex start input [] s d = tt
  process_outputs-AllBuffers inputindex start input (output ∷ outputs) s d = (
    (process_lem inputindex start input output s d.0).buffer,
    process_outputs-AllBuffers inputindex (suc start) input outputs s d.1,
  )

  -- The buffers keep their number and their sizes.
  pub process_inputs-AllBuffers :
      (inputindex : ℕ) (inputs outputs : List (List ℕ))
      → AllBuffers size inputs
      → AllBuffers size outputs
      → AllBuffers size (process_inputs rows inputindex inputs outputs)
        × (length (process_inputs rows inputindex inputs outputs) ≡ length outputs)
  unfolding process_inputs
  process_inputs-AllBuffers inputindex [] outputs s d = (d, refl)
  process_inputs-AllBuffers inputindex (input ∷ inputs) outputs s d =
      let next = process_outputs rows inputindex input 0 outputs in
      let (all, n) =
        process_inputs-AllBuffers (suc inputindex) inputs next s.1
          (process_outputs-AllBuffers inputindex 0 input outputs s.0 d) in
      (all, n ∙ length-process_outputs inputindex input 0 outputs)
