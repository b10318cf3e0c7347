-- ===== src/ReedSolomon.antt =====
-- The Reed-Solomon matrix of include/par2/reedsolomon.h and src/reedsolomon.cpp. A matrix is the
-- list of its rows, where the source has one array; a row of the left matrix and the row of the
-- right matrix beside it go together.
pub mod Field
pub mod Sums
pub mod Columns
pub mod Reduced
pub mod Elimination
pub mod Blocks
pub mod Rows
pub mod Filled
pub mod Recovery
pub mod Bytes
pub mod Process
pub mod Places
pub mod Ranges
pub mod Built
use par2cmdline_turbo.Prelude.{
  ℕ, zero, suc, ◌+◌, ◌-◌, ◌%◌, ◌^◌, Bool, true, false, ◌==◌, Option, none, some, List, [], ◌∷◌,
  ◌++◌, map, ltb, if◌then◌else◌, get_or, set, replicate, length,
}
use Field.{Galois}

-- `RSOutputRow`
pub record OutputRow : Type 0 where
  pub present : Bool
  pub exponent : ℕ

-- The object without its matrix.
pub record ReedSolomon : Type 0 where
  pub inputcount : ℕ
  pub datapresent : ℕ
  pub datamissing : ℕ
  pub datapresentindex : List ℕ
  pub datamissingindex : List ℕ
  pub database : List ℕ
  pub outputcount : ℕ
  pub parpresent : ℕ
  pub parmissing : ℕ
  pub outputrows : List OutputRow

-- The constructor
abbrev pub new_reed_solomon : ReedSolomon
new_reed_solomon = record {
  inputcount = 0;
  datapresent = 0;
  datamissing = 0;
  datapresentindex = [];
  datamissingindex = [];
  database = [];
  outputcount = 0;
  parpresent = 0;
  parmissing = 0;
  outputrows = [];
}

-- The loop of `SetInput`; the arrays hold what has been stored in them so far. `base` is a u8.
unfoldable pub set_inputs : List Bool → ℕ → ℕ → ReedSolomon → ReedSolomon
set_inputs [] index base rs = rs
set_inputs (present ∷ rest) index base rs = set_inputs rest (index + 1) ((base + 1) % 2 ^ 8) (
    if present
    then record rs {
      datapresent = rs.datapresent + 1;
      datapresentindex = rs.datapresentindex ++ index ∷ [];
      database = rs.database ++ base ∷ [];
    }
    else record rs {
      datamissing = rs.datamissing + 1;
      datamissingindex = rs.datamissingindex ++ index ∷ [];
      database = rs.database ++ base ∷ [];
    })

-- `SetInput`
unfoldable pub set_input : List Bool → ReedSolomon → ReedSolomon
unfolding set_inputs
set_input present rs = set_inputs present 0 1 (record rs { inputcount = length present })

-- The loop of `SetInput` for a count, with `rounds` rounds left.
unfoldable pub set_all_inputs : ℕ → ℕ → ℕ → ReedSolomon → ReedSolomon
set_all_inputs zero index base rs = rs
set_all_inputs (suc rounds) index base rs =
    set_all_inputs rounds (index + 1) ((base + 1) % 2 ^ 8) (record rs {
      datapresent = rs.datapresent + 1;
      datapresentindex = rs.datapresentindex ++ index ∷ [];
      database = rs.database ++ base ∷ [];
    })

-- `SetInput` for a count
unfoldable pub set_input_count : ℕ → ReedSolomon → ReedSolomon
unfolding set_all_inputs
set_input_count count rs = set_all_inputs count 0 1 (record rs { inputcount = count })

-- `SetOutput`
unfoldable pub set_output : Bool → ℕ → ReedSolomon → ReedSolomon
set_output present exponent rs =
    let stored = record rs {
      outputrows = rs.outputrows ++ record { present = present; exponent = exponent } ∷ [];
      outputcount = rs.outputcount + 1;
    } in
    if present
    then record stored { parpresent = rs.parpresent + 1 }
    else record stored { parmissing = rs.parmissing + 1 }

-- The loop of `SetOutput` for a range, with `rounds` rounds left.
unfoldable pub set_outputs : ℕ → Bool → ℕ → ReedSolomon → ReedSolomon
unfolding set_output
set_outputs zero present exponent rs = rs
set_outputs (suc rounds) present exponent rs =
    set_outputs rounds present (exponent + 1) (set_output present (exponent % 2 ^ 16) rs)

-- `SetOutput` for a range
unfoldable pub set_output_range : Bool → ℕ → ℕ → ReedSolomon → ReedSolomon
unfolding set_outputs
set_output_range present lowexponent highexponent rs =
    set_outputs (highexponent + 1 - lowexponent) present lowexponent rs

-- The exponents of the first `n` rows that are present, or that are missing.
unfoldable pub next_exponents : Bool → ℕ → List OutputRow → List ℕ
next_exponents wanted n [] = []
next_exponents wanted zero (row ∷ rows) = []
next_exponents wanted (suc n) (row ∷ rows) =
    let taken = row.exponent ∷ next_exponents wanted n rows in
    let passed = next_exponents wanted (suc n) rows in
    if row.present then (if wanted then taken else passed) else (if wanted then passed else taken)

module _ (g : Galois) where
  open g use {Element, of_value, nought, one, add, mul, div, pow, beq}

  -- A row of `leftmatrix` and the row of `rightmatrix`
  pub record Row : Type 0 where
    pub left : List Element
    pub right : List Element

  -- `(row == col) ? 1 : 0`, for `n` columns from `col` on
  unfoldable pub unit_row : ℕ → ℕ → ℕ → List Element
  unit_row row col zero = []
  unit_row row col (suc n) = (if row == col then one else nought) ∷ unit_row row (suc col) n

  -- `G(database[…]).pow(exponent)`, for each of the indices
  unfoldable pub powers : List ℕ → ℕ → List ℕ → List Element
  powers database exponent [] = []
  powers database exponent (index ∷ indices) =
      pow (of_value (get_or database index 0)) exponent ∷ powers database exponent indices

  -- The rows for the present recovery blocks, from row `row` on.
  unfoldable pub present_rows : ReedSolomon → ℕ → List ℕ → List Row
  unfolding unit_row powers
  present_rows rs row [] = []
  present_rows rs row (exponent ∷ exponents) =
      record {
        left = powers rs.database exponent rs.datapresentindex ++ unit_row row 0 rs.datamissing;
        right = powers rs.database exponent rs.datamissingindex ++ replicate rs.parmissing nought;
      }
      ∷ present_rows rs (suc row) exponents

  -- The rows for the recovery blocks that are computed.
  unfoldable pub missing_rows : ReedSolomon → ℕ → List ℕ → List Row
  unfolding unit_row powers
  missing_rows rs row [] = []
  missing_rows rs row (exponent ∷ exponents) =
      record {
        left = powers rs.database exponent rs.datapresentindex ++ replicate rs.datamissing nought;
        right = powers rs.database exponent rs.datamissingindex ++ unit_row row 0 rs.parmissing;
      }
      ∷ missing_rows rs (suc row) exponents

  -- `if (… != 0) … /= pivotvalue`
  abbrev pub divide : Element → Element → Element
  divide pivotvalue x = if beq x nought then x else div x pivotvalue

  -- The scaling of the right row from column `col` on.
  unfoldable pub scale_right : Element → ℕ → ℕ → List Element → List Element
  scale_right pivotvalue row col [] = []
  scale_right pivotvalue row col (x ∷ xs) =
      (if ltb col row then x else if col == row then one else divide pivotvalue x)
      ∷ scale_right pivotvalue row (suc col) xs

  unfoldable pub scale_row : Element → ℕ → Row → Row
  unfolding scale_right
  scale_row pivotvalue row r = if beq pivotvalue one then r else record {
    left = map (divide pivotvalue) r.left;
    right = scale_right pivotvalue row 0 r.right;
  }

  -- `if (p != 0) x -= p`, or `x -= p * scalevalue`
  abbrev pub subtract : Element → Element → Element → Element
  subtract scalevalue p x =
      if beq p nought then x else if beq scalevalue one then add x p else add x (mul p scalevalue)

  -- Subtracting the row of the pivot from another, in the columns from `from` on.
  unfoldable pub subtract_from : Element → ℕ → ℕ → List Element → List Element → List Element
  subtract_from scalevalue from col [] xs = xs
  subtract_from scalevalue from col (p ∷ ps) [] = []
  subtract_from scalevalue from col (p ∷ ps) (x ∷ xs) =
      (if ltb col from then x else subtract scalevalue p x)
      ∷ subtract_from scalevalue from (suc col) ps xs

  unfoldable pub eliminate_row : ℕ → Row → Row → Row
  unfolding subtract_from
  eliminate_row row pivot r =
      let scalevalue = get_or r.right row nought in
      if beq scalevalue nought then r else record {
        left = subtract_from scalevalue 0 0 pivot.left r.left;
        right = subtract_from scalevalue row 0 pivot.right r.right;
      }

  -- `for (unsigned int row2=0; row2<rows; row2++)`
  unfoldable pub eliminate_rows : ℕ → Row → ℕ → List Row → List Row
  unfolding eliminate_row
  eliminate_rows row pivot row2 [] = []
  eliminate_rows row pivot row2 (r ∷ rs) =
      (if row == row2 then pivot else eliminate_row row pivot r)
      ∷ eliminate_rows row pivot (suc row2) rs

  abbrev pub no_row : Row
  no_row = record { left = []; right = [] }

  -- `GaussElim`, with `rounds` rounds left; `none` is `return false`.
  unfoldable pub gauss_elim : ℕ → ℕ → List Row → Option (List Row)
  unfolding scale_row eliminate_rows
  gauss_elim zero row rows = some rows
  gauss_elim (suc rounds) row rows =
      let r = get_or rows row no_row in
      let pivotvalue = get_or r.right row nought in
      let rest =
        gauss_elim rounds (suc row) (eliminate_rows row (scale_row pivotvalue row r) 0 rows) in
      if beq pivotvalue nought then none else rest

  -- The two matrices that `Compute` fills in.
  unfoldable pub matrices : ReedSolomon → List Row
  unfolding present_rows missing_rows next_exponents
  matrices rs =
      present_rows rs 0 (next_exponents true rs.datamissing rs.outputrows)
      ++ missing_rows rs 0 (next_exponents false rs.parmissing rs.outputrows)

  -- `Compute`: the rows, of which the left halves are `leftmatrix`; `none` is `return false`.
  unfoldable pub compute : ReedSolomon → Option (List Row)
  unfolding gauss_elim matrices
  compute rs =
      if ltb rs.parpresent rs.datamissing
      then none
      else if rs.datamissing + rs.parmissing == 0
      then none
      else if ltb 0 rs.datamissing
      then gauss_elim rs.datamissing 0 (matrices rs)
      else some (matrices rs)
