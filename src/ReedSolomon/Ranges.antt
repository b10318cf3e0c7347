-- ===== src/ReedSolomon/Ranges.antt =====
-- `SetInput` for a count and `SetOutput` for a range.
use par2cmdline_turbo.Prelude.{
  ℕ, zero, suc, ◌+◌, ◌-◌, ◌%◌, ◌^◌, ◌≡◌, refl, ap, sym, ◌∙◌, Bool, true, false, replicate,
  length-replicate, arith,
}
use par2cmdline_turbo.ReedSolomon.{
  ReedSolomon, set_inputs, set_input, set_all_inputs, set_input_count, set_output, set_outputs,
  set_output_range,
}
use par2cmdline_turbo.ReedSolomon.Blocks.{IsReady, set_output-IsReady}

set_all_inputs_lem :
    (rounds index base : ℕ) (rs : ReedSolomon)
    → set_all_inputs rounds index base rs ≡ set_inputs (replicate rounds true) index base rs
unfolding set_all_inputs set_inputs
set_all_inputs_lem zero index base rs = refl
set_all_inputs_lem (suc rounds) index base rs =
    set_all_inputs_lem rounds (index + 1) ((base + 1) % 2 ^ 8) _

-- `SetInput` for a count does what `SetInput` does for that many inputs that are all present.
pub set_input_count-eq-set_input :
    (count : ℕ) (rs : ReedSolomon) → set_input_count count rs ≡ set_input (replicate count true) rs
unfolding set_input_count set_input
set_input_count-eq-set_input count rs =
    set_all_inputs_lem count 0 1 (record rs { inputcount = count })
    ∙ ap (λ (n : ℕ). set_inputs (replicate count true) 0 1 (record rs { inputcount = n }))
        (sym (length-replicate count true))

one_more :
    (present : Bool) (exponent : ℕ) (rs : ReedSolomon)
    → (set_output present exponent rs).outputcount ≡ rs.outputcount + 1
unfolding set_output
one_more true exponent rs = refl
one_more false exponent rs = refl

set_outputs-IsReady :
    (rounds : ℕ) (present : Bool) (exponent : ℕ) (rs : ReedSolomon)
    → IsReady rs
    → IsReady (set_outputs rounds present exponent rs)
      × ((set_outputs rounds present exponent rs).outputcount ≡ rs.outputcount + rounds)
unfolding set_outputs
set_outputs-IsReady zero present exponent rs h = (h, omega arith)
set_outputs-IsReady (suc rounds) present exponent rs h =
    let next = set_output present (exponent % 2 ^ 16) rs in
    let (ready, count) =
      set_outputs-IsReady rounds present (exponent + 1) next
        (set_output-IsReady present (exponent % 2 ^ 16) rs h) in
    (ready, count ∙ omega (arith, one_more present (exponent % 2 ^ 16) rs))

-- `SetOutput` for a range keeps the counts and the indices true, and adds one recovery block for each
-- exponent of the range, both ends included.
pub set_output_range-IsReady :
    (present : Bool) (lowexponent highexponent : ℕ) (rs : ReedSolomon)
    → IsReady rs
    → IsReady (set_output_range present lowexponent highexponent rs)
      × ((set_output_range present lowexponent highexponent rs).outputcount
          ≡ rs.outputcount + (highexponent + 1 - lowexponent))
unfolding set_output_range
set_output_range-IsReady present low high rs h =
    set_outputs-IsReady (high + 1 - low) present low rs h
