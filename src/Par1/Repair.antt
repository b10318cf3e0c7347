-- ===== src/Par1/Repair.antt =====
-- What `ComputeRSmatrix` and `ProcessData` give together.
use mathlib.Core.Path.{ap₂}
use mathlib.Core.Option.{some-injective}
use par2cmdline_turbo.Prelude.{
  ℕ, zero, suc, ◌+◌, ◌<◌, ◌≡◌, refl, ap, sym, ◌∙◌, Bool, true, false, Option, none, some, List, [],
  ◌∷◌, ◌++◌, get_or, replicate, length, length-replicate, get_or-replicate, arith,
}
use par2cmdline_turbo.Crc.Bitwise.{AllBytes}
use par2cmdline_turbo.ReedSolomon.Field.{nought_add}
use par2cmdline_turbo.ReedSolomon.{ReedSolomon, Row, no_row, new_reed_solomon, set_input, compute}
use par2cmdline_turbo.ReedSolomon.Bytes.{Byte, byte, plus, galois8}
use par2cmdline_turbo.ReedSolomon.Sums.{dot}
use par2cmdline_turbo.ReedSolomon.Blocks.{pick}
use par2cmdline_turbo.ReedSolomon.Places.{chosen}
use par2cmdline_turbo.Par1.Columns.{
  length-column, buffers_eq, column-chosen, chosen-AllBuffers, length-chosen, column-append,
  append-AllBuffers, get_or-column,
}
use par2cmdline_turbo.Par1.Volumes.{IsSetUp, used_exponents, volume_bytes, use_recovery-IsSetUp}
use par2cmdline_turbo.ReedSolomon.Filled.{known_blocks}
use par2cmdline_turbo.ReedSolomon.Recovery.{compute_recovers, length-compute}
use par2cmdline_turbo.Par1.{
  missing_count, use_recovery, compute_rs_matrix, keep, with_matrix, process_data,
}
use par2cmdline_turbo.Par1.Buffers.{
  IsBuffer, AllBuffers, column, one_output, get_or-process_inputs, one_output-eq-dot,
  process_inputs-AllBuffers,
}

-- Two calls, one behind the other, that both succeed.
kept :
    (o : Option (List (Row galois8))) (x rs : ReedSolomon) (rows : List (Row galois8))
    → keep x o ≡ some (rs, rows)
    → (x ≡ rs) × (o ≡ some rows)
kept none x rs rows e = absurd (ground arith)
kept (some y) x rs rows e =
    let p : ◌≡◌ {A = ReedSolomon × List (Row galois8)} (x, y) (rs, rows) = some-injective _ _ e in
    (
      ap (λ (u : ReedSolomon × List (Row galois8)). u.0) p,
      ap (λ (u : ReedSolomon × List (Row galois8)). some u.1) p,
    )

both_results :
    (o : Option ReedSolomon) (rs : ReedSolomon) (rows : List (Row galois8))
    → with_matrix o ≡ some (rs, rows)
    → (o ≡ some rs) × (compute galois8 rs ≡ some rows)
both_results none rs rows e = absurd (ground arith)
both_results (some x) rs rows e =
    let (p, q) = kept (compute galois8 x) x rs rows e in
    (ap some p, ap (compute galois8) (sym p) ∙ q)

-- A result of `ComputeRSmatrix` is one of `Compute` for an object that is ready.
compute_rs_matrix_lem :
    (present : List Bool) (exponents : List ℕ) (rs : ReedSolomon) (rows : List (Row galois8))
    → compute_rs_matrix present exponents ≡ some (rs, rows)
    → IsSetUp present exponents rs × (compute galois8 rs ≡ some rows)
unfolding compute_rs_matrix
compute_rs_matrix_lem present exponents rs rows e =
    let (p, q) =
      both_results
        (use_recovery (missing_count present) exponents (set_input present new_reed_solomon)) rs
        rows e in
    (use_recovery-IsSetUp present exponents rs p, q)

zeros-AllBytes : (n : ℕ) → AllBytes (replicate n 0)
zeros-AllBytes zero = tt
zeros-AllBytes (suc n) = (omega arith, zeros-AllBytes n)

zeros-IsBuffer : (n : ℕ) → IsBuffer n (replicate n 0)
zeros-IsBuffer n = record { width = length-replicate n 0; bytes = zeros-AllBytes n }

get_or-zeros :
    (n i size : ℕ) → i < n → get_or (replicate n (replicate {A = ℕ} size 0)) i [] ≡ replicate size 0
get_or-zeros zero i size h = absurd (omega arith)
get_or-zeros (suc n) zero size h = refl
get_or-zeros (suc n) (suc i) size h = get_or-zeros n i size (omega arith)

-- A buffer of `ProcessData` holds the values of a row.
process_data-eq-dot :
    (rows : List (Row galois8)) (files size i k : ℕ) (inputs : List (List ℕ))
    → length (get_or rows i (no_row galois8)).left ≡ length inputs
    → AllBuffers size inputs
    → i < files
    → k < size
    → byte (get_or (get_or (process_data rows files size inputs) i []) k 0)
      ≡ dot galois8 (get_or rows i (no_row galois8)).left (column k inputs)
unfolding process_data
process_data-eq-dot rows files size i k inputs e s h l =
    let factors = (get_or rows i (no_row galois8)).left in
    let zeros : List ℕ = replicate size 0 in
    ap (λ (b : List ℕ). byte (get_or b k 0))
      (get_or-process_inputs rows size 0 i inputs (replicate files zeros)
          (omega (arith, length-replicate files zeros))
        ∙ ap (one_output rows size i 0 inputs) (get_or-zeros files i size h))
    ∙ one_output-eq-dot rows size i 0 k factors inputs zeros e
        (λ j m. ap (λ (n : ℕ). get_or factors n (byte 0)) (omega arith)) s (zeros-IsBuffer size) l
    ∙ ap (λ (n : ℕ). plus (byte n) (dot galois8 factors (column k inputs)))
        (get_or-replicate size k 0)
    ∙ nought_add galois8 (dot galois8 factors (column k inputs))

get_or-append_before :
    (i : ℕ) (xs ys : List Byte)
    → i < length xs
    → get_or (xs ++ ys) i (byte 0) ≡ get_or xs i (byte 0)
get_or-append_before i [] ys h = absurd (omega arith)
get_or-append_before zero (x ∷ xs) ys h = refl
get_or-append_before (suc i) (x ∷ xs) ys h = get_or-append_before i xs ys (omega arith)

length-pick : (blocks : List Byte) (is : List ℕ) → length (pick galois8 blocks is) ≡ length is
length-pick blocks [] = refl
length-pick blocks (i ∷ is) = ap suc (length-pick blocks is)

zeros-AllBuffers : (n size : ℕ) → AllBuffers size (replicate n (replicate size 0))
zeros-AllBuffers zero size = tt
zeros-AllBuffers (suc n) size = (zeros-IsBuffer size, zeros-AllBuffers n size)

process_data-AllBuffers :
    (rows : List (Row galois8)) (files size : ℕ) (inputs : List (List ℕ))
    → AllBuffers size inputs
    → AllBuffers size (process_data rows files size inputs)
      × (length (process_data rows files size inputs) ≡ files)
unfolding process_data
process_data-AllBuffers rows files size inputs s =
    let zeros : List (List ℕ) = replicate files (replicate size 0) in
    let (all, n) =
      process_inputs-AllBuffers rows size 0 inputs zeros s (zeros-AllBuffers files size) in
    (all, n ∙ length-replicate files (replicate {A = ℕ} size 0))

-- Each output buffer, byte by byte.
repaired_byte :
    (present : List Bool) (exponents : List ℕ) (files inputs : List (List ℕ)) (size : ℕ)
    (rs : ReedSolomon) (rows : List (Row galois8)) (i k : ℕ)
    → compute_rs_matrix present exponents ≡ some (rs, rows)
    → AllBuffers size inputs
    → length files ≡ length present
    → column k inputs ≡ known_blocks galois8 rs (column k files)
    → i < missing_count present
    → k < size
    → byte (get_or (get_or (process_data rows (missing_count present) size inputs) i []) k 0)
      ≡ byte (get_or (get_or (chosen false present files) i []) k 0)
repaired_byte present exponents files inputs size rs rows i k e s n h l m =
    let (set_up, done) = compute_rs_matrix_lem present exponents rs rows e in
    let blocks = column k files in
    let ready = set_up.ready in
    let inside : i < rs.datamissing + rs.parmissing = omega (arith, set_up.datamissing) in
    let widths =
      length-compute galois8 rs blocks rows i ready done inside
      ∙ sym (ap length h)
      ∙ length-column k inputs in
    process_data-eq-dot rows (missing_count present) size i k inputs widths s l m
    ∙ ap (dot galois8 (get_or rows i (no_row galois8)).left) h
    ∙ compute_recovers galois8 rs blocks rows i ready done inside
    ∙ get_or-append_before i (pick galois8 blocks rs.datamissingindex) _ (
        omega
          (arith, set_up.datamissing, ready.data_missing, length-pick blocks rs.datamissingindex))
    ∙ ap (λ (t : List Byte). get_or t i (byte 0))
        (set_up.missing blocks (length-column k files ∙ n)
          ∙ sym (column-chosen false k present files))
    ∙ get_or-column k i (chosen false present files) (omega (arith, length-chosen present files n))

-- For any files of bytes, padded to the same size, of which some have been found, and volumes that
-- hold the recovery bytes of all files for the exponents that are used: when `ComputeRSmatrix`
-- succeeds, `ProcessData`, reading the files that were found and then the volumes, writes exactly the
-- files that were not found.
pub process_data_repairs :
    (present : List Bool) (exponents : List ℕ) (files volumes : List (List ℕ)) (size : ℕ)
    (rs : ReedSolomon) (rows : List (Row galois8))
    → compute_rs_matrix present exponents ≡ some (rs, rows)
    → length files ≡ length present
    → AllBuffers size files
    → AllBuffers size volumes
    → ((k : ℕ)
        → k < size
        → column k volumes
          ≡ volume_bytes
              (length present)
              (used_exponents (missing_count present) exponents)
              (column k files))
    → process_data rows (missing_count present) size (chosen true present files ++ volumes)
      ≡ chosen false present files
process_data_repairs present exponents files volumes size rs rows e n s t h =
    let inputs = chosen true present files ++ volumes in
    let all =
      append-AllBuffers size (chosen true present files) volumes
        (chosen-AllBuffers true size present files s) t in
    let (set_up, done) = compute_rs_matrix_lem present exponents rs rows e in
    let (outs, count) = process_data-AllBuffers rows (missing_count present) size inputs all in
    buffers_eq size _ _ (count ∙ sym (length-chosen present files n)) outs
      (chosen-AllBuffers false size present files s)
      (λ i k l m.
        repaired_byte present exponents files inputs size rs rows i k e all n
          (column-append k (chosen true present files) volumes
            ∙ ap₂ (λ (xs ys : List Byte). xs ++ ys) (column-chosen true k present files) (h k m)
            ∙ sym (set_up.known (column k files) (length-column k files ∙ n)))
          (omega (arith, count)) m)
