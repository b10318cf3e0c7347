-- ===== src/Tests/Recovering.antt =====
-- Galois fields and the Reed-Solomon matrix at concrete inputs.
use par2cmdline_turbo.Prelude.{
  ◌≡◌, ◌<◌, refl, true, false, Option, none, some, List, [], ◌∷◌, arith, get_or,
}
use par2cmdline_turbo.Galois.{galois_add, galois_mul, galois_pow, galois_div, log_of, antilog_of}
use par2cmdline_turbo.Galois.Arithmetic.{div-mul}
use par2cmdline_turbo.Galois.Polynomials.{
  long_product, product_of, galois_mul-eq-long_product, galois_pow-eq-product_of,
}
use par2cmdline_turbo.ReedSolomon.{
  ReedSolomon, new_reed_solomon, set_input, set_output, compute, no_row, Row,
}
use par2cmdline_turbo.ReedSolomon.Bytes.{byte, Byte, galois8}
use par2cmdline_turbo.ReedSolomon.Built.{
  Call, one, range, call_all, rows_called, IsBuilt, call_all-set_input-IsBuilt,
}
use par2cmdline_turbo.ReedSolomon.Blocks.{IsReady, set_input-IsReady, set_output-IsReady}
use par2cmdline_turbo.ReedSolomon.Process.{internal_process, add_product}
use par2cmdline_turbo.ReedSolomon.Process.Buffers.{internal_process-eq-add_product}
use par2cmdline_turbo.ReedSolomon.Sums.{dot}
use par2cmdline_turbo.ReedSolomon.Filled.{known_blocks, wanted_blocks}
use par2cmdline_turbo.ReedSolomon.Recovery.{compute_recovers}

galois_mul-eq-long_product_example : galois_mul 200 77 ≡ long_product 8 200 77
galois_mul-eq-long_product_example = galois_mul-eq-long_product 200 77 (omega arith) (omega arith)

product_example : galois_mul 200 77 ≡ 177
unfolding galois_mul log_of antilog_of
product_example = refl

galois_pow-eq-product_of_example : galois_pow 77 200 ≡ product_of 77 200
galois_pow-eq-product_of_example = galois_pow-eq-product_of 77 200 (omega arith) (omega arith)

-- The second of three blocks is missing, and so is the second of three recovery blocks.
abbrev inputs_set : ReedSolomon
inputs_set = set_input (true ∷ false ∷ true ∷ []) new_reed_solomon

abbrev damaged : ReedSolomon
damaged = set_output true 2 (set_output false 1 (set_output true 0 inputs_set))

damaged-IsReady : IsReady damaged
damaged-IsReady = set_output-IsReady true 2 (set_output false 1 (set_output true 0 inputs_set)) (
    set_output-IsReady false 1 (set_output true 0 inputs_set)
      (set_output-IsReady true 0 inputs_set (set_input-IsReady (true ∷ false ∷ true ∷ []))))

abbrev rows_or : Option (List (Row galois8)) → List (Row galois8)
rows_or none = []
rows_or (some rows) = rows

abbrev solution : List (Row galois8)
solution = rows_or (compute galois8 damaged)

abbrev data_blocks : List Byte
data_blocks = byte 5 ∷ byte 77 ∷ byte 200 ∷ []

compute_recovers_example :
    dot galois8 (get_or solution 0 (no_row galois8)).left (known_blocks galois8 damaged data_blocks)
    ≡ get_or (wanted_blocks galois8 damaged data_blocks) 0 (byte 0)
unfolding compute set_input set_output galois_mul galois_div galois_pow galois_add log_of antilog_of
compute_recovers_example =
    compute_recovers galois8 damaged data_blocks solution 0 damaged-IsReady refl (omega arith)

div-mul_example : (galois_mul (galois_div 200 77) 77 ≡ 200) × (galois_div 200 77 < 256)
div-mul_example = div-mul 200 77 (omega arith) (omega arith) (omega arith)

-- The second of three inputs is missing; of six recovery blocks, the first four are present.
abbrev calls : List Call
calls = range true 0 3 ∷ one false 9 ∷ one false 4 ∷ []

call_all-set_input-IsBuilt_example :
    IsBuilt
      (true ∷ false ∷ true ∷ [])
      (rows_called calls)
      (call_all calls (set_input (true ∷ false ∷ true ∷ []) new_reed_solomon))
call_all-set_input-IsBuilt_example =
    call_all-set_input-IsBuilt (true ∷ false ∷ true ∷ []) calls
      ((omega arith, omega arith), (omega arith, (omega arith, tt)))

internal_process-eq-add_product_example :
    internal_process 3 (1 ∷ 2 ∷ 3 ∷ 4 ∷ 128 ∷ []) (5 ∷ 5 ∷ 5 ∷ 5 ∷ 5 ∷ [])
    ≡ add_product 3 (1 ∷ 2 ∷ 3 ∷ 4 ∷ 128 ∷ []) (5 ∷ 5 ∷ 5 ∷ 5 ∷ 5 ∷ [])
internal_process-eq-add_product_example =
    internal_process-eq-add_product 3 (1 ∷ 2 ∷ 3 ∷ 4 ∷ 128 ∷ []) (5 ∷ 5 ∷ 5 ∷ 5 ∷ 5 ∷ [])
      (omega arith) refl
      (omega arith, (omega arith, (omega arith, (omega arith, (omega arith, tt)))))
      (omega arith, (omega arith, (omega arith, (omega arith, (omega arith, tt)))))

-- Ten inputs, of which the first and the last are missing, and two recovery blocks with the exponents
-- 0 and 5: the fifth powers of the bases 1 and 10 are both 1, so there is no pivot for the second row.
abbrev singular : ReedSolomon
singular = set_output true 5 (
    set_output true 0 (
      set_input (false ∷ true ∷ true ∷ true ∷ true ∷ true ∷ true ∷ true ∷ true ∷ false ∷ [])
        new_reed_solomon))

singular_run : compute galois8 singular ≡ none
unfolding compute set_input set_output galois_mul galois_div galois_pow galois_add log_of antilog_of
singular_run = refl
