-- ===== src/ReedSolomon/Blocks.antt =====
-- The recovery blocks of given data, and the counts and indices that the object keeps.
use par2cmdline_turbo.Prelude.{
  ℕ, zero, suc, ◌+◌, ◌%◌, ◌^◌, ◌≡◌, refl, ap, sym, subst, ◌∙◌, Bool, true, false, List, [], ◌∷◌,
  ◌++◌, if◌then◌else◌, get_or, length, length-append, arith,
}
use par2cmdline_turbo.ReedSolomon.Field.{Galois}
use par2cmdline_turbo.ReedSolomon.Sums.{dot}
use par2cmdline_turbo.ReedSolomon.{
  ReedSolomon, OutputRow, new_reed_solomon, set_inputs, set_input, set_output, powers,
}

-- The indices below `n`, in order, each in one of two lists.
pub data IsSplit : ℕ → List ℕ → List ℕ → Type 0 where
  none_yet : IsSplit 0 [] []
  one_present :
      {n : ℕ} {present missing all : List ℕ}
      → all ≡ present ++ n ∷ []
      → IsSplit n present missing
      → IsSplit (suc n) all missing
  one_missing :
      {n : ℕ} {present missing all : List ℕ}
      → all ≡ missing ++ n ∷ []
      → IsSplit n present missing
      → IsSplit (suc n) present all

-- How many rows are present, or missing.
abbrev pub rows_of : Bool → List OutputRow → ℕ
rows_of wanted [] = 0
rows_of wanted (row ∷ rows) =
    (if row.present then (if wanted then 1 else 0) else (if wanted then 0 else 1))
    + rows_of wanted rows

-- What `SetInput` and `SetOutput` keep true.
pub record IsReady (rs : ReedSolomon) : Type 0 where
  pub data_present : rs.datapresent ≡ length rs.datapresentindex
  pub data_missing : rs.datamissing ≡ length rs.datamissingindex
  pub inputs : IsSplit rs.inputcount rs.datapresentindex rs.datamissingindex
  pub par_present : rs.parpresent ≡ rows_of true rs.outputrows
  pub par_missing : rs.parmissing ≡ rows_of false rs.outputrows

pub rows_of-append :
    (wanted : Bool) (rows more : List OutputRow)
    → rows_of wanted (rows ++ more) ≡ rows_of wanted rows + rows_of wanted more
rows_of-append wanted [] more = omega arith
rows_of-append wanted (row ∷ rows) more = omega (arith, rows_of-append wanted rows more)

-- `SetOutput` keeps the counts and the indices true: the counts of present and missing inputs are
-- the lengths of their index lists, every input index is in exactly one of these, in order, and the
-- counts of present and missing recovery blocks are those of the stored rows.
pub set_output-IsReady :
    (present : Bool) (exponent : ℕ) (rs : ReedSolomon)
    → IsReady rs
    → IsReady (set_output present exponent rs)
unfolding set_output
set_output-IsReady true exponent rs h =
    let row : List OutputRow = record { present = true; exponent = exponent } ∷ [] in
    record {
      data_present = h.data_present;
      data_missing = h.data_missing;
      inputs = h.inputs;
      par_present = omega (arith, h.par_present, rows_of-append true rs.outputrows row);
      par_missing = omega (arith, h.par_missing, rows_of-append false rs.outputrows row);
    }
set_output-IsReady false exponent rs h =
    let row : List OutputRow = record { present = false; exponent = exponent } ∷ [] in
    record {
      data_present = h.data_present;
      data_missing = h.data_missing;
      inputs = h.inputs;
      par_present = omega (arith, h.par_present, rows_of-append true rs.outputrows row);
      par_missing = omega (arith, h.par_missing, rows_of-append false rs.outputrows row);
    }

-- The same in the course of `SetInput`, when `index` inputs have been set.
record IsBegun (index : ℕ) (rs : ReedSolomon) : Type 0 where
  data_present : rs.datapresent ≡ length rs.datapresentindex
  data_missing : rs.datamissing ≡ length rs.datamissingindex
  inputs : IsSplit index rs.datapresentindex rs.datamissingindex
  no_rows : (rs.parpresent ≡ 0) × (rs.parmissing ≡ 0) × (rs.outputrows ≡ [])

set_inputs-IsReady :
    (present : List Bool) (index base : ℕ) (rs : ReedSolomon)
    → rs.inputcount ≡ index + length present
    → IsBegun index rs
    → IsReady (set_inputs present index base rs)
unfolding set_inputs
set_inputs-IsReady [] index base rs n h =
    let e : index ≡ rs.inputcount = omega arith in
    record {
      data_present = h.data_present;
      data_missing = h.data_missing;
      inputs = subst (λ k. IsSplit k rs.datapresentindex rs.datamissingindex) e h.inputs;
      par_present = h.no_rows.0 ∙ sym (ap (rows_of true) h.no_rows.2);
      par_missing = h.no_rows.1 ∙ sym (ap (rows_of false) h.no_rows.2);
    }
set_inputs-IsReady (true ∷ rest) index base rs n h =
    let e : suc index ≡ index + 1 = omega arith in
    let all = rs.datapresentindex ++ index ∷ [] in
    set_inputs-IsReady rest (index + 1) ((base + 1) % 2 ^ 8) _ (omega arith) (record {
      data_present = omega (arith, h.data_present, length-append rs.datapresentindex (index ∷ []));
      data_missing = h.data_missing;
      inputs = subst (λ k. IsSplit k all rs.datamissingindex) e (one_present refl h.inputs);
      no_rows = h.no_rows;
    })
set_inputs-IsReady (false ∷ rest) index base rs n h =
    let e : suc index ≡ index + 1 = omega arith in
    let all = rs.datamissingindex ++ index ∷ [] in
    set_inputs-IsReady rest (index + 1) ((base + 1) % 2 ^ 8) _ (omega arith) (record {
      data_present = h.data_present;
      data_missing = omega (arith, h.data_missing, length-append rs.datamissingindex (index ∷ []));
      inputs = subst (λ k. IsSplit k rs.datapresentindex all) e (one_missing refl h.inputs);
      no_rows = h.no_rows;
    })

pub set_input-IsReady : (present : List Bool) → IsReady (set_input present new_reed_solomon)
unfolding set_input
set_input-IsReady present =
    set_inputs-IsReady present 0 1 (record new_reed_solomon { inputcount = length present })
      (omega arith)
      (record {
        data_present = refl;
        data_missing = refl;
        inputs = none_yet;
        no_rows = (refl, refl, refl);
      })

module _ (g : Galois) where
  open g use {Element, of_value, nought, add, mul, pow, add_assoc, add_nought, add_comm}

  abbrev pub sum_to : ℕ → (ℕ → Element) → Element
  sum_to zero f = nought
  sum_to (suc n) f = add (sum_to n f) (f n)

  abbrev pub pick : List Element → List ℕ → List Element
  pick blocks [] = []
  pick blocks (i ∷ is) = get_or blocks i nought ∷ pick blocks is

  -- What input `i` contributes to the recovery block with an exponent.
  abbrev pub term : List ℕ → ℕ → List Element → ℕ → Element
  term database exponent blocks i =
      mul (pow (of_value (get_or database i 0)) exponent) (get_or blocks i nought)

  -- The recovery block with an exponent: the sum over all inputs of their powers times the data.
  abbrev pub recovery_block : ℕ → List ℕ → List Element → ℕ → Element
  recovery_block inputcount database blocks exponent =
      sum_to inputcount (term database exponent blocks)

  abbrev part : List ℕ → ℕ → List Element → List ℕ → Element
  part database exponent blocks is = dot g (powers g database exponent is) (pick blocks is)

  part_end :
      (database : List ℕ) (exponent : ℕ) (blocks : List Element) (is : List ℕ) (n : ℕ)
      → part database exponent blocks (is ++ n ∷ [])
        ≡ add (part database exponent blocks is) (term database exponent blocks n)
  unfolding powers
  part_end database exponent blocks [] n =
      add_nought (term database exponent blocks n)
      ∙ sym (
          add_comm nought (term database exponent blocks n)
          ∙ add_nought (term database exponent blocks n))
  part_end database exponent blocks (i ∷ is) n =
      ap (add (term database exponent blocks i)) (part_end database exponent blocks is n)
      ∙ sym (
          add_assoc (term database exponent blocks i) (part database exponent blocks is)
            (term database exponent blocks n))

  -- A recovery block is what the present inputs and the missing ones contribute.
  pub recovery_block-IsSplit :
      (database : List ℕ) (exponent : ℕ) (blocks : List Element) (n : ℕ) (present missing : List ℕ)
      → IsSplit n present missing
      → recovery_block n database blocks exponent
        ≡ add
            (dot g (powers g database exponent present) (pick blocks present))
            (dot g (powers g database exponent missing) (pick blocks missing))
  unfolding powers
  recovery_block-IsSplit database exponent blocks zero present missing none_yet =
      sym (add_nought nought)
  recovery_block-IsSplit database exponent blocks (suc n) all missing
        (one_present {present = present} e h) =
      let t = term database exponent blocks n in
      let ps = part database exponent blocks present in
      let ms = part database exponent blocks missing in
      ap (λ (u : Element). add u t)
        (recovery_block-IsSplit database exponent blocks n present missing h)
      ∙ add_assoc ps ms t
      ∙ ap (add ps) (add_comm ms t)
      ∙ sym (add_assoc ps t ms)
      ∙ ap (λ (u : Element). add u ms)
          (sym (ap (part database exponent blocks) e ∙ part_end database exponent blocks present n))
  recovery_block-IsSplit database exponent blocks (suc n) present all
        (one_missing {missing = missing} e h) =
      let t = term database exponent blocks n in
      let ps = part database exponent blocks present in
      let ms = part database exponent blocks missing in
      ap (λ (u : Element). add u t)
        (recovery_block-IsSplit database exponent blocks n present missing h)
      ∙ add_assoc ps ms t
      ∙ ap (add ps)
          (sym (ap (part database exponent blocks) e ∙ part_end database exponent blocks missing n))
