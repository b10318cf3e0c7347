-- ===== src/Filename/Replace.antt =====
-- The loop that replaces `../`: it ends, and what it does to the characters.
use par2cmdline_turbo.Prelude.{
  ℕ, zero, suc, ◌+◌, ◌≤◌, ◌<◌, ◌≡◌, refl, ap, Bool, true, false, ◌==◌, none, some, List, [], ◌∷◌,
  ◌++◌, if◌then◌else◌, take, drop, length, arith, Bool-cases, Option-cases, inl, inr, subst, ◌≢◌,
}
use par2cmdline_turbo.Filename.{is_parent, find_parent, encoded_dots, replace_two, replace_parents}

-- How many dots a name has.
dots : List ℕ → ℕ
dots [] = 0
dots (c ∷ cs) = (if c == b'.' then 1 else 0) + dots cs

dots-le-length : (cs : List ℕ) → dots cs ≤ length cs
unfolding dots
dots-le-length [] = omega arith
dots-le-length (c ∷ cs) = ground (arith, dots-le-length cs)

-- Two dots at an index.
pub data DotsAt : List ℕ → ℕ → Type 0 where
  here : {a b : ℕ} {rest : List ℕ} → a ≡ b'.' → b ≡ b'.' → DotsAt (a ∷ b ∷ rest) zero
  there : {c i : ℕ} {cs : List ℕ} → DotsAt cs i → DotsAt (c ∷ cs) (suc i)

is_parent-dots : (cs : List ℕ) {i : ℕ} → is_parent cs ≡ true → some 0 ≡ some i → DotsAt cs i
unfolding is_parent
is_parent-dots [] h e = absurd (ground arith)
is_parent-dots (a ∷ []) h e = absurd (ground arith)
is_parent-dots (a ∷ b ∷ []) h e = absurd (ground arith)
is_parent-dots (a ∷ b ∷ c ∷ cs) h e =
    subst (DotsAt (a ∷ b ∷ c ∷ cs)) (ground arith) (here (ground arith) (ground arith))

find_parent-DotsAt : (cs : List ℕ) (i : ℕ) → find_parent cs ≡ some i → DotsAt cs i
unfolding find_parent
find_parent-DotsAt [] i h = absurd (ground arith)
find_parent-DotsAt (c ∷ cs) i h = elim (Bool-cases (is_parent (c ∷ cs))) [
  | inl y ↦ is_parent-dots (c ∷ cs) y (ground arith)
  | inr n ↦ elim (Option-cases (find_parent cs)) [
    | inl e ↦ absurd (ground arith)
    | inr (k, e) ↦ subst (DotsAt (c ∷ cs)) (ground arith) (there (find_parent-DotsAt cs k e))
  ]
]

replace_two-suc :
    (c : ℕ) (cs : List ℕ) (i : ℕ) → replace_two (c ∷ cs) (suc i) ≡ c ∷ replace_two cs i
unfolding replace_two
replace_two-suc c cs i =
    let e : suc i + 2 ≡ suc (i + 2) = omega arith in
    ap (λ (n : ℕ). c ∷ (take i cs ++ (encoded_dots ++ drop n (c ∷ cs)))) e

-- One replacement takes two dots away.
dots-replace_two : {cs : List ℕ} {i : ℕ} → DotsAt cs i → dots (replace_two cs i) + 2 ≡ dots cs
unfolding dots
dots-replace_two (here p q) = unfold replace_two in ground arith
dots-replace_two (there {c = c} {i = i} {cs = cs} d) =
    rw (replace_two-suc c cs i) (omega (arith, dots-replace_two d))

-- With fuel above the number of dots the loop ends by its test.
find_parent-replace_parents :
    (fuel : ℕ) (cs : List ℕ) → dots cs < fuel → find_parent (replace_parents fuel cs) ≡ none
unfolding replace_parents
find_parent-replace_parents zero cs h = absurd (omega arith)
find_parent-replace_parents (suc fuel) cs h = elim (Option-cases (find_parent cs)) [
  | inl e ↦ rw (e, replace_parents) e
  | inr (i, e) ↦
      rw (e, replace_parents)
        (find_parent-replace_parents fuel (replace_two cs i)
          (omega (arith, dots-replace_two (find_parent-DotsAt cs i e))))
]

-- A property of a name that one replacement keeps, the loop keeps.
pub replace_parents-keeps :
    (P : List ℕ → Type 0)
    → ((cs : List ℕ) (i : ℕ) → DotsAt cs i → P cs → P (replace_two cs i))
    → (fuel : ℕ) (cs : List ℕ) → P cs
    → P (replace_parents fuel cs)
unfolding replace_parents
replace_parents-keeps P keep zero cs h = h
replace_parents-keeps P keep (suc fuel) cs h = elim (Option-cases (find_parent cs)) [
  | inl e ↦ rw (e, replace_parents) h
  | inr (i, e) ↦
      rw (e, replace_parents)
        (replace_parents-keeps P keep fuel (replace_two cs i)
          (keep cs i (find_parent-DotsAt cs i e) h))
]

-- The fuel of the translation is enough.
pub replace_parents-done : (cs : List ℕ) → find_parent (replace_parents (length cs + 1) cs) ≡ none
replace_parents-done cs =
    find_parent-replace_parents (length cs + 1) cs (omega (arith, dots-le-length cs))

abbrev pub starts_with_slash : List ℕ → Bool
starts_with_slash [] = false
starts_with_slash (c ∷ cs) = c == b'/'

pub starts_with_slash-replace_two :
    {cs : List ℕ} {i : ℕ}
    → DotsAt cs i
    → starts_with_slash cs ≡ false
    → starts_with_slash (replace_two cs i) ≡ false
starts_with_slash-replace_two (here p q) h = unfold replace_two in refl
starts_with_slash-replace_two (there {c = c} {i = i} {cs = cs} d) h = rw (replace_two-suc c cs i) h

-- Characters that need no encoding.
abbrev pub AllPrintable : List ℕ → Type 0
AllPrintable [] = Unit
AllPrintable (c ∷ cs) = (32 ≤ c) × (c ≢ 0x5c) × AllPrintable cs

encoded_dots-AllPrintable : (cs : List ℕ) → AllPrintable cs → AllPrintable (encoded_dots ++ cs)
encoded_dots-AllPrintable cs h = (
  omega arith,
  omega arith,
  (
    omega arith,
    omega arith,
    (
      omega arith,
      omega arith,
      (omega arith, omega arith, (omega arith, omega arith, (omega arith, omega arith, h))),
    ),
  ),
)

pub replace_two-AllPrintable :
    {cs : List ℕ} {i : ℕ} → DotsAt cs i → AllPrintable cs → AllPrintable (replace_two cs i)
replace_two-AllPrintable (here p q) h = unfold replace_two in encoded_dots-AllPrintable _ h.2.2
replace_two-AllPrintable (there {c = c} {i = i} {cs = cs} d) h =
    rw (replace_two-suc c cs i) (h.0, h.1, replace_two-AllPrintable d h.2)
