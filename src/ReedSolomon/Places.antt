-- ===== src/ReedSolomon/Places.antt =====
-- The indices that `SetInput` stores, and the blocks at them.
use mathlib.Core.Path.{ap₂}
use par2cmdline_turbo.Prelude.{
  ℕ, zero, suc, ◌+◌, ◌%◌, ◌^◌, ◌≡◌, refl, ap, sym, ◌∙◌, Bool, true, false, List, [], ◌∷◌, ◌++◌, map,
  get_or, length, append_assoc, append-nil, arith,
}
use par2cmdline_turbo.ReedSolomon.Field.{Galois}
use par2cmdline_turbo.ReedSolomon.{
  ReedSolomon, OutputRow, new_reed_solomon, set_inputs, set_input, next_exponents,
}
use par2cmdline_turbo.ReedSolomon.Blocks.{pick}

-- The indices of the inputs that are present, or that are missing, from `index` on.
abbrev pub places : Bool → ℕ → List Bool → List ℕ
places wanted index [] = []
places true index (true ∷ rest) = index ∷ places true (index + 1) rest
places true index (false ∷ rest) = places true (index + 1) rest
places false index (true ∷ rest) = places false (index + 1) rest
places false index (false ∷ rest) = index ∷ places false (index + 1) rest

-- The bases of the inputs.
abbrev pub bases : ℕ → ℕ → List ℕ
bases base zero = []
bases base (suc n) = base ∷ bases ((base + 1) % 2 ^ 8) n

-- What `SetInput` adds to the object.
pub record IsAdded (present : List Bool) (index base : ℕ) (rs out : ReedSolomon) : Type 0 where
  pub inputcount : out.inputcount ≡ rs.inputcount
  pub outputrows : out.outputrows ≡ rs.outputrows
  pub outputcount : out.outputcount ≡ rs.outputcount
  pub datapresentindex : out.datapresentindex ≡ rs.datapresentindex ++ places true index present
  pub datamissingindex : out.datamissingindex ≡ rs.datamissingindex ++ places false index present
  pub database : out.database ≡ rs.database ++ bases base (length present)

set_inputs-IsAdded :
    (present : List Bool) (index base : ℕ) (rs : ReedSolomon)
    → IsAdded present index base rs (set_inputs present index base rs)
unfolding set_inputs
set_inputs-IsAdded [] index base rs = record {
  inputcount = refl;
  outputrows = refl;
  outputcount = refl;
  datapresentindex = sym (append-nil rs.datapresentindex);
  datamissingindex = sym (append-nil rs.datamissingindex);
  database = sym (append-nil rs.database);
}
set_inputs-IsAdded (true ∷ rest) index base rs =
    let h = set_inputs-IsAdded rest (index + 1) ((base + 1) % 2 ^ 8) _ in
    record {
      inputcount = h.inputcount;
      outputrows = h.outputrows;
      outputcount = h.outputcount;
      datapresentindex = h.datapresentindex ∙ append_assoc rs.datapresentindex (index ∷ []) _;
      datamissingindex = h.datamissingindex;
      database = h.database ∙ append_assoc rs.database (base ∷ []) _;
    }
set_inputs-IsAdded (false ∷ rest) index base rs =
    let h = set_inputs-IsAdded rest (index + 1) ((base + 1) % 2 ^ 8) _ in
    record {
      inputcount = h.inputcount;
      outputrows = h.outputrows;
      outputcount = h.outputcount;
      datapresentindex = h.datapresentindex;
      datamissingindex = h.datamissingindex ∙ append_assoc rs.datamissingindex (index ∷ []) _;
      database = h.database ∙ append_assoc rs.database (base ∷ []) _;
    }

pub set_input-IsAdded :
    (present : List Bool)
    → IsAdded present 0 1
        (record new_reed_solomon { inputcount = length present })
        (set_input present new_reed_solomon)
unfolding set_input
set_input-IsAdded present = set_inputs-IsAdded present 0 1 _

-- The elements that are present, or that are missing.
abbrev pub chosen {ℓ} : {A : Type ℓ} → Bool → List Bool → List A → List A
chosen wanted [] xs = []
chosen wanted (p ∷ present) [] = []
chosen true (true ∷ present) (x ∷ xs) = x ∷ chosen true present xs
chosen true (false ∷ present) (x ∷ xs) = chosen true present xs
chosen false (true ∷ present) (x ∷ xs) = chosen false present xs
chosen false (false ∷ present) (x ∷ xs) = x ∷ chosen false present xs

module _ (g : Galois) where
  open g use {Element, nought}

  below : (index next : ℕ) → next ≡ index + 1 → next ≡ suc index
  below index next e = omega arith

  pick-suc :
      (wanted : Bool) (index next : ℕ) (present : List Bool) (x : Element) (xs : List Element)
      → next ≡ index + 1
      → pick g (x ∷ xs) (places wanted next present) ≡ pick g xs (places wanted index present)
  pick-suc wanted index next [] x xs e = refl
  pick-suc true index next (true ∷ present) x xs e =
      ap₂ (λ (a : Element) (rest : List Element). a ∷ rest)
        (ap (λ (n : ℕ). get_or (x ∷ xs) n nought) (below index next e))
        (pick-suc true (index + 1) (next + 1) present x xs (omega arith))
  pick-suc true index next (false ∷ present) x xs e =
      pick-suc true (index + 1) (next + 1) present x xs (omega arith)
  pick-suc false index next (true ∷ present) x xs e =
      pick-suc false (index + 1) (next + 1) present x xs (omega arith)
  pick-suc false index next (false ∷ present) x xs e =
      ap₂ (λ (a : Element) (rest : List Element). a ∷ rest)
        (ap (λ (n : ℕ). get_or (x ∷ xs) n nought) (below index next e))
        (pick-suc false (index + 1) (next + 1) present x xs (omega arith))

  -- The blocks at the stored indices.
  pub pick-places :
      (wanted : Bool) (present : List Bool) (xs : List Element)
      → length xs ≡ length present
      → pick g xs (places wanted 0 present) ≡ chosen wanted present xs
  pick-places wanted [] xs e = refl
  pick-places wanted (p ∷ present) [] e = absurd (omega arith)
  pick-places true (true ∷ present) (x ∷ xs) e =
      ap (λ (rest : List Element). x ∷ rest)
        (pick-suc true 0 (0 + 1) present x xs refl ∙ pick-places true present xs (omega arith))
  pick-places true (false ∷ present) (x ∷ xs) e =
      pick-suc true 0 (0 + 1) present x xs refl ∙ pick-places true present xs (omega arith)
  pick-places false (true ∷ present) (x ∷ xs) e =
      pick-suc false 0 (0 + 1) present x xs refl ∙ pick-places false present xs (omega arith)
  pick-places false (false ∷ present) (x ∷ xs) e =
      ap (λ (rest : List Element). x ∷ rest)
        (pick-suc false 0 (0 + 1) present x xs refl ∙ pick-places false present xs (omega arith))

-- The rows that `SetOutput` stores for present recovery blocks.
abbrev pub present_row : ℕ → OutputRow
present_row e = record { present = true; exponent = e }

pub next_exponents-present_row :
    (n : ℕ) (es : List ℕ) → n ≡ length es → next_exponents true n (map present_row es) ≡ es
unfolding next_exponents
next_exponents-present_row n [] h = refl
next_exponents-present_row zero (e ∷ es) h = absurd (omega arith)
next_exponents-present_row (suc n) (e ∷ es) h =
    ap (λ (t : List ℕ). e ∷ t) (next_exponents-present_row n es (omega arith))
