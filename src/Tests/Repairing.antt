-- ===== src/Tests/Repairing.antt =====
-- The repair of a PAR 1.0 set at concrete inputs.
use par2cmdline_turbo.Prelude.{
  ℕ, zero, suc, ◌<◌, ◌≡◌, refl, ap, Bool, true, false, Option, none, some, List, [], ◌∷◌, arith,
}
use par2cmdline_turbo.Galois.{galois_add, galois_mul, galois_pow, galois_div, log_of, antilog_of}
use par2cmdline_turbo.ReedSolomon.{
  ReedSolomon, new_reed_solomon, set_input, set_output, compute, Row,
}
use par2cmdline_turbo.ReedSolomon.Bytes.{Byte, Byte-eq, galois8}
use par2cmdline_turbo.Par1.{compute_rs_matrix, process_data}
use par2cmdline_turbo.Par1.Buffers.{IsBuffer, column}
use par2cmdline_turbo.Par1.Volumes.{used_exponents, volume_bytes}
use par2cmdline_turbo.Par1.Repair.{process_data_repairs}

abbrev first_file : List ℕ
first_file = 5 ∷ 77 ∷ 200 ∷ 0 ∷ 255 ∷ []

first_file_bytes : IsBuffer 5 first_file
first_file_bytes = record {
  width = refl;
  bytes = (omega arith, (omega arith, (omega arith, (omega arith, (omega arith, tt)))));
}

abbrev second_file : List ℕ
second_file = 1 ∷ 2 ∷ 3 ∷ 4 ∷ 5 ∷ []

second_file_bytes : IsBuffer 5 second_file
second_file_bytes = record {
  width = refl;
  bytes = (omega arith, (omega arith, (omega arith, (omega arith, (omega arith, tt)))));
}

abbrev third_file : List ℕ
third_file = 9 ∷ 8 ∷ 7 ∷ 6 ∷ 250 ∷ []

third_file_bytes : IsBuffer 5 third_file
third_file_bytes = record {
  width = refl;
  bytes = (omega arith, (omega arith, (omega arith, (omega arith, (omega arith, tt)))));
}

abbrev volume : List ℕ
volume = 44 ∷ 109 ∷ 223 ∷ 14 ∷ 222 ∷ []

volume_is_bytes : IsBuffer 5 volume
volume_is_bytes = record {
  width = refl;
  bytes = (omega arith, (omega arith, (omega arith, (omega arith, (omega arith, tt)))));
}

abbrev flags : List Bool
flags = true ∷ false ∷ true ∷ []

abbrev all_files : List (List ℕ)
all_files = first_file ∷ second_file ∷ third_file ∷ []

abbrev result_or : Option (ReedSolomon × List (Row galois8)) → ReedSolomon × List (Row galois8)
result_or none = (new_reed_solomon, [])
result_or (some result) = result

-- The object and the matrix of a set with one missing file and the recovery volume 2.
abbrev set_up : ReedSolomon × List (Row galois8)
set_up = result_or (compute_rs_matrix flags (2 ∷ []))

volume_holds :
    (k : ℕ)
    → k < 5
    → column k (volume ∷ []) ≡ volume_bytes 3 (used_exponents 1 (2 ∷ [])) (column k all_files)
unfolding galois_add galois_mul galois_pow log_of antilog_of
volume_holds zero h = ap (λ (b : Byte). b ∷ []) (Byte-eq _ _ refl)
volume_holds (suc zero) h = ap (λ (b : Byte). b ∷ []) (Byte-eq _ _ refl)
volume_holds (suc (suc zero)) h = ap (λ (b : Byte). b ∷ []) (Byte-eq _ _ refl)
volume_holds (suc (suc (suc zero))) h = ap (λ (b : Byte). b ∷ []) (Byte-eq _ _ refl)
volume_holds (suc (suc (suc (suc zero)))) h = ap (λ (b : Byte). b ∷ []) (Byte-eq _ _ refl)
volume_holds (suc (suc (suc (suc (suc k))))) h = absurd (omega arith)

process_data_repairs_example :
    process_data set_up.1 1 5 (first_file ∷ third_file ∷ volume ∷ []) ≡ second_file ∷ []
unfolding compute_rs_matrix compute set_output set_input galois_add galois_mul galois_div galois_pow
    log_of antilog_of
process_data_repairs_example =
    process_data_repairs flags (2 ∷ []) all_files (volume ∷ []) 5 set_up.0 set_up.1 refl refl
      (first_file_bytes, (second_file_bytes, (third_file_bytes, tt))) (volume_is_bytes, tt)
      volume_holds
