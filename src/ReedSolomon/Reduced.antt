-- ===== src/ReedSolomon/Reduced.antt =====
-- A row in the course of the elimination.
use mathlib.Core.Path.{ap₂}
use par2cmdline_turbo.Prelude.{
  ℕ, suc, ◌+◌, ◌<◌, ◌≤◌, ◌≡◌, ◌≢◌, ◌⊎◌, inl, inr, ap, sym, ◌∙◌, ◌==◌, List, map, if◌then◌else◌,
  get_or, length, length-map, arith, dec_lt, compared, lt, eq, gt,
}
use par2cmdline_turbo.ReedSolomon.Field.{Galois, beq-cases, nought_mul, mul_cancel}
use par2cmdline_turbo.ReedSolomon.Sums.{dot, dot-divide, dot-scale_right, dot-subtract_from}
use par2cmdline_turbo.ReedSolomon.Columns.{
  length-scale_right, length-subtract_from, scale_right-before, scale_right-at, scale_right-behind,
  subtract_from-before, subtract_from-behind,
}
use par2cmdline_turbo.ReedSolomon.{Row, divide, scale_right, scale_row, eliminate_row}

module _ (g : Galois) where
  open g use {
    Element, nought, one, add, mul, div, beq, add_assoc, add_comm, add_nought, add_self, mul_assoc,
    mul_comm, mul_one, mul_add, div_mul,
  }

  -- The entry of the unit matrix
  abbrev pub delta : ℕ → ℕ → Element
  delta i j = if i == j then one else nought

  pub delta_ne : (i j : ℕ) → i ≢ j → delta i j ≡ nought
  delta_ne i j h = ground arith

  -- The blocks that are known and those that are not, as many of each as there are columns, and
  -- the number of pivots.
  module _ (known unknown : List Element) (pivots : ℕ) where
    -- Row `i`, when the columns below `bound` have been cleared: its equation holds, and it is a row
    -- of the unit matrix in these columns and in those behind the pivots.
    pub record IsReduced (bound i : ℕ) (r : Row g) : Type 0 where
      pub left_width : length r.left ≡ length known
      pub right_width : length r.right ≡ length unknown
      pub clear :
          (j : ℕ)
          → (j < bound) ⊎ (pivots ≤ j)
          → j < length unknown
          → get_or r.right j nought ≡ delta i j
      pub holds : dot g r.left known ≡ dot g r.right unknown

    -- The condition on a column that the next pivot adds: it is the pivot's, or was there before.
    was_clear : (row j : ℕ) → (j < suc row) ⊎ (pivots ≤ j) → (j ≡ row) ⊎ ((j < row) ⊎ (pivots ≤ j))
    was_clear row j (inl h) = elim (dec_lt j row) [ yes k ↦ inr (inl k) | no k ↦ inl (omega arith) ]
    was_clear row j (inr h) = inr (inr h)

    beyond : (row j : ℕ) → (j < suc row) ⊎ (pivots ≤ j) → row < j → pivots ≤ j
    beyond row j (inl h) k = absurd (omega arith)
    beyond row j (inr h) k = h

    delta_same : (i j : ℕ) → j ≡ i → delta i j ≡ one
    delta_same i j h = ground arith

    pub scale_row-IsReduced :
        (row : ℕ) (r : Row g)
        → row < pivots
        → row < length unknown
        → get_or r.right row nought ≢ nought
        → IsReduced row row r
        → IsReduced (suc row) row (scale_row g (get_or r.right row nought) row r)
    unfolding scale_row
    scale_row-IsReduced row r within inside nonzero h =
        let p = get_or r.right row nought in
        elim (beq-cases g p one) [
          | inl (t, e) ↦ rw t (record {
            left_width = h.left_width;
            right_width = h.right_width;
            clear = λ j c l. elim (was_clear row j c) [
              | inl same ↦
                  ap (λ (k : ℕ). get_or r.right k nought) same ∙ e ∙ sym (delta_same row j same)
              | inr before ↦ h.clear j before l
            ];
            holds = h.holds;
          })
          | inr (t, n) ↦ rw t (record {
            left_width = length-map r.left (divide g p) ∙ h.left_width;
            right_width = length-scale_right g p row 0 r.right ∙ h.right_width;
            clear = λ j c l. elim (compared j row) [
              | lt k ↦ scale_right-before g p row 0 j r.right (omega arith) ∙ h.clear j (inl k) l
              | eq k ↦
                  scale_right-at g p row 0 j r.right (omega arith) (omega (arith, h.right_width))
                  ∙ sym (delta_same row j k)
              | gt k ↦
                  let behind : pivots ≤ j = beyond row j c k in
                  scale_right-behind g p row 0 j r.right (omega arith)
                    (h.clear j (inr behind) l ∙ delta_ne row j (λ q. omega arith))
                  ∙ sym (delta_ne row j (λ q. omega arith))
            ];
            holds =
                mul_cancel g (dot g (map (divide g p) r.left) known)
                  (dot g (scale_right g p row 0 r.right) unknown) p nonzero
                  (dot-divide g p r.left known nonzero
                    ∙ h.holds
                    ∙ sym (
                        dot-scale_right g p row 0 r.right unknown nonzero
                          (λ j k.
                            h.clear j (inl (omega arith)) (omega arith)
                            ∙ delta_ne row j (λ q. omega arith))
                          (λ j k l. ap (λ (u : ℕ). get_or r.right u nought) (at_row row j k))));
          })
        ]
      where
        at_row : (row j : ℕ) → j + 0 ≡ row → j ≡ row
        at_row row j e = omega arith

    pub eliminate_row-IsReduced :
        (row i : ℕ) (pivot r : Row g)
        → row < pivots
        → row < length unknown
        → i ≢ row
        → IsReduced (suc row) row pivot
        → IsReduced row i r
        → IsReduced (suc row) i (eliminate_row g row pivot r)
    unfolding eliminate_row
    eliminate_row-IsReduced row i pivot r within inside other p h =
        let s = get_or r.right row nought in
        let left_same : length pivot.left ≡ length r.left = p.left_width ∙ sym h.left_width in
        let right_same : length pivot.right ≡ length r.right = p.right_width ∙ sym h.right_width in
        elim (beq-cases g s nought) [
          | inl (t, e) ↦ rw t (record {
            left_width = h.left_width;
            right_width = h.right_width;
            clear = λ j c l. elim (was_clear row j c) [
              | inl same ↦
                  ap (λ (k : ℕ). get_or r.right k nought) same
                  ∙ e
                  ∙ sym (delta_ne i j (λ q. other (q ∙ same)))
              | inr before ↦ h.clear j before l
            ];
            holds = h.holds;
          })
          | inr (t, n) ↦ rw t (record {
            left_width = length-subtract_from g s 0 0 pivot.left r.left ∙ h.left_width;
            right_width = length-subtract_from g s row 0 pivot.right r.right ∙ h.right_width;
            clear = λ j c l. elim (compared j row) [
              | lt k ↦
                  subtract_from-before g s row 0 j pivot.right r.right (omega arith) right_same
                  ∙ h.clear j (inl k) l
              | eq k ↦
                  let pivot_one : get_or pivot.right j nought ≡ one =
                    p.clear j c l ∙ delta_same row j k in
                  let entry : get_or r.right j nought ≡ s =
                    ap (λ (u : ℕ). get_or r.right u nought) k in
                  subtract_from-behind g s row 0 j pivot.right r.right (omega arith) right_same
                  ∙ ap₂ add entry
                      (ap (λ (u : Element). mul u s) pivot_one ∙ mul_comm one s ∙ mul_one s)
                  ∙ add_self s
                  ∙ sym (delta_ne i j (λ q. other (q ∙ k)))
              | gt k ↦
                  let pivot_nought : get_or pivot.right j nought ≡ nought =
                    p.clear j c l ∙ delta_ne row j (λ q. omega arith) in
                  subtract_from-behind g s row 0 j pivot.right r.right (omega arith) right_same
                  ∙ ap (add (get_or r.right j nought))
                      (ap (λ (u : Element). mul u s) pivot_nought ∙ nought_mul g s)
                  ∙ add_nought (get_or r.right j nought)
                  ∙ h.clear j (inr (beyond row j c k)) l
            ];
            holds =
                dot-subtract_from g s 0 0 pivot.left r.left known left_same
                  (λ j k. absurd (omega arith))
                ∙ ap₂ add h.holds (ap (mul s) p.holds)
                ∙ sym (
                    dot-subtract_from g s row 0 pivot.right r.right unknown right_same (λ j k.
                      p.clear j (inl (omega arith)) (omega arith)
                      ∙ delta_ne row j (λ q. omega arith)));
          })
        ]
