-- ===== src/Par1.antt =====
-- The reconstruction of src/par1repairer.cpp: `ComputeRSmatrix` and `ProcessData`, with `Process` of
-- include/par2/reedsolomon.h. The data that is read from disk is a list of buffers.
pub mod Buffers
pub mod Columns
pub mod Volumes
pub mod Repair
use par2cmdline_turbo.Prelude.{
  ℕ, zero, suc, ◌+◌, ◌%◌, ◌^◌, Bool, true, false, ◌==◌, Option, none, some, List, [], ◌∷◌,
  if◌then◌else◌, get_or, replicate,
}
use par2cmdline_turbo.ReedSolomon.{
  ReedSolomon, Row, new_reed_solomon, set_input, set_output, compute, no_row,
}
use par2cmdline_turbo.ReedSolomon.Bytes.{Byte, byte, galois8}
use par2cmdline_turbo.ReedSolomon.Process.{internal_process}

-- How many source blocks have not been found.
abbrev pub missing_count : List Bool → ℕ
missing_count [] = 0
missing_count (present ∷ rest) = (if present then 0 else 1) + missing_count rest

-- `while (inputblock != inputblocks.end())`, with `left` blocks left. The source does not test whether
-- the recovery blocks suffice, which its caller has done; `none` stands for going past the last.
unfoldable pub use_recovery : ℕ → List ℕ → ReedSolomon → Option ReedSolomon
use_recovery zero exponents rs = some rs
use_recovery (suc left) [] rs = none
use_recovery (suc left) (exponent ∷ exponents) rs =
    use_recovery left exponents (set_output true (exponent % 2 ^ 16) rs)

-- `rs.Compute`, for the object that is there.
abbrev pub keep :
    ReedSolomon → Option (List (Row galois8)) → Option (ReedSolomon × List (Row galois8))
keep rs none = none
keep rs (some rows) = some (rs, rows)

abbrev pub with_matrix : Option ReedSolomon → Option (ReedSolomon × List (Row galois8))
with_matrix none = none
with_matrix (some rs) = keep rs (compute galois8 rs)

-- `ComputeRSmatrix` where there are files to repair: `present` says which source blocks are set, and
-- the exponents are those of `recoveryblocks` in ascending order. The result is the object and its
-- matrix.
unfoldable pub compute_rs_matrix : List Bool → List ℕ → Option (ReedSolomon × List (Row galois8))
unfolding use_recovery
compute_rs_matrix present exponents =
    with_matrix
      (use_recovery (missing_count present) exponents (set_input present new_reed_solomon))

-- `ReedSolomon::Process`
unfoldable pub process : List (Row galois8) → ℕ → List ℕ → ℕ → List ℕ → List ℕ
process rows inputindex inputbuffer outputindex outputbuffer =
    let factor : Byte =
      get_or (get_or rows outputindex (no_row galois8)).left inputindex (byte 0) in
    if factor.value == 0
    then outputbuffer
    else internal_process factor.value inputbuffer outputbuffer

-- `for (u32 outputindex=0; …)`, from `outputindex` on.
unfoldable pub process_outputs : List (Row galois8) → ℕ → List ℕ → ℕ → List (List ℕ) → List (List ℕ)
unfolding process
process_outputs rows inputindex inputbuffer outputindex [] = []
process_outputs rows inputindex inputbuffer outputindex (outbuf ∷ rest) =
    process rows inputindex inputbuffer outputindex outbuf
    ∷ process_outputs rows inputindex inputbuffer (suc outputindex) rest

-- `while (inputblock != inputblocks.end())`
unfoldable pub process_inputs :
    List (Row galois8) → ℕ → List (List ℕ) → List (List ℕ) → List (List ℕ)
unfolding process_outputs
process_inputs rows inputindex [] outputs = outputs
process_inputs rows inputindex (inputbuffer ∷ rest) outputs =
    process_inputs rows (suc inputindex) rest
      (process_outputs rows inputindex inputbuffer 0 outputs)

-- `ProcessData`: the buffers that are written to the `files` files of `verifylist`. The output buffers
-- begin as zeros.
unfoldable pub process_data : List (Row galois8) → ℕ → ℕ → List (List ℕ) → List (List ℕ)
unfolding process_inputs
process_data rows files blocklength inputs =
    process_inputs rows 0 inputs (replicate files (replicate blocklength 0))
