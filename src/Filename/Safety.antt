-- ===== src/Filename/Safety.antt =====
-- What a translated filename cannot contain, and when there is one.
use native.Mathlib.Decide.{dec_lt}
use native.Mathlib.Numerals.{add-one}
use par2cmdline_turbo.Prelude.{
  ℕ, ◌+◌, ◌≤◌, ◌<◌, ◌≡◌, ◌≢◌, ◌↔◌, Option, sym, refl, ap, ◌∙◌, true, false, ◌==◌, none, some, List,
  [], ◌∷◌, ◌++◌, if◌then◌else◌, length, arith, ltb, le→ltb, Bool-cases, Option-cases, inl, inr, ◌/◌,
  ◌^◌, bit_and, ◌⊎◌, lt→ltb,
}
use par2cmdline_turbo.Bits.{bit_and_mask}
use par2cmdline_turbo.Filename.{
  NoiseLevel, local_char, local_chars, encode_root, find_parent, replace_parents, par2_to_local,
  local_to_par2, at_least_quiet, url_encode_char, copy_chars, check_first, hex_digit,
}
use par2cmdline_turbo.Filename.Replace.{
  replace_parents-keeps, replace_parents-done, starts_with_slash, AllPrintable,
  starts_with_slash-replace_two, replace_two-AllPrintable,
}

par2_to_local-eq :
    (noiselevel : NoiseLevel) (name s : List ℕ)
    → par2_to_local noiselevel name ≡ some s
    → (local : List ℕ) × (encode_root (local_chars noiselevel name) ≡ some local)
      × (s ≡ replace_parents (length local + 1) local)
unfolding par2_to_local
par2_to_local-eq noiselevel name s h =
    elim (Option-cases (encode_root (local_chars noiselevel name))) [
      | inl e ↦ absurd (ground arith)
      | inr (local, e) ↦ (local, e, ground arith)
    ]

par2_to_local-some :
    (noiselevel : NoiseLevel) (name local : List ℕ)
    → encode_root (local_chars noiselevel name) ≡ some local
    → par2_to_local noiselevel name ≡ some (replace_parents (length local + 1) local)
unfolding par2_to_local
par2_to_local-some noiselevel name local e = ground arith

encode_root-slash :
    (cs local : List ℕ) → encode_root cs ≡ some local → starts_with_slash local ≡ false
unfolding encode_root
encode_root-slash [] local h = absurd (ground arith)
encode_root-slash (c ∷ cs) local h = ground arith

-- Whatever name a recovery file holds, and at every noise level: the local name that is made of
-- it does not begin with a slash, and does not contain `../`.
pub par2_to_local-IsSafe :
    (noiselevel : NoiseLevel) (name s : List ℕ)
    → par2_to_local noiselevel name ≡ some s
    → (starts_with_slash s ≡ false) × (find_parent s ≡ none)
par2_to_local-IsSafe noiselevel name s h =
    let (local, e, q) = par2_to_local-eq noiselevel name s h in
    rw q (
      replace_parents-keeps (λ cs. starts_with_slash cs ≡ false)
          (λ cs i d. starts_with_slash-replace_two d) (length local + 1) local
          (encode_root-slash (local_chars noiselevel name) local e),
      replace_parents-done local,
    )

hex_digit-printable : (bits : ℕ) → bits < 16 → (32 ≤ hex_digit bits) × (hex_digit bits ≢ 0x5c)
unfolding hex_digit
hex_digit-printable bits h = ground arith

url_encode_char-AllPrintable : (c : ℕ) → AllPrintable (url_encode_char c)
unfolding url_encode_char
url_encode_char-AllPrintable c =
    let high =
      hex_digit-printable (bit_and (c / 2 ^ 4) 0xf) (omega (arith, bit_and_mask 4 (c / 2 ^ 4))) in
    let low = hex_digit-printable (bit_and c 0xf) (omega (arith, bit_and_mask 4 c)) in
    (omega arith, omega arith, (high.0, high.1, (low.0, low.1, tt)))

-- What one character becomes from `nlQuiet` up.
local_char-quiet :
    (noiselevel : NoiseLevel) (c : ℕ)
    → at_least_quiet noiselevel ≡ true
    → (c < 32) × (local_char noiselevel c ≡ url_encode_char c)
      ⊎ (32 ≤ c) × (local_char noiselevel c ≡ (if c == 0x5c then b'/' else c) ∷ [])
unfolding local_char
local_char-quiet noiselevel c q = elim (dec_lt c 32) [
  | yes h ↦ inl (h, ground (arith, lt→ltb c 32 h))
  | no h ↦ inr (omega arith, ground arith)
]

local_char-AllPrintable :
    (noiselevel : NoiseLevel) (c : ℕ)
    → at_least_quiet noiselevel ≡ true
    → AllPrintable (local_char noiselevel c) × (local_char noiselevel c ≢ [])
local_char-AllPrintable noiselevel c q = elim (local_char-quiet noiselevel c q) [
  | inl (h, e) ↦ rw e (url_encode_char-AllPrintable c, unfold url_encode_char in ground arith)
  | inr (h, e) ↦ rw e ((ground arith, ground arith, tt), ground arith)
]

AllPrintable-append : (xs ys : List ℕ) → AllPrintable xs → AllPrintable ys → AllPrintable (xs ++ ys)
AllPrintable-append [] ys h k = k
AllPrintable-append (x ∷ xs) ys h k = (h.0, h.1, AllPrintable-append xs ys h.2 k)

local_chars-AllPrintable :
    (noiselevel : NoiseLevel) (name : List ℕ)
    → at_least_quiet noiselevel ≡ true
    → AllPrintable (local_chars noiselevel name)
unfolding local_chars
local_chars-AllPrintable noiselevel [] q = tt
local_chars-AllPrintable noiselevel (c ∷ cs) q =
    AllPrintable-append (local_char noiselevel c) (local_chars noiselevel cs)
      (local_char-AllPrintable noiselevel c q).0 (local_chars-AllPrintable noiselevel cs q)

encode_root-AllPrintable :
    (cs : List ℕ)
    → cs ≢ []
    → AllPrintable cs
    → (local : List ℕ) × (encode_root cs ≡ some local) × AllPrintable local
unfolding encode_root
encode_root-AllPrintable [] ne h = absurd (ne refl)
encode_root-AllPrintable (c ∷ cs) ne h = elim (Bool-cases (c == b'/')) [
  | inl y ↦ (
    b'%' ∷ b'2' ∷ b'F' ∷ cs,
    ground arith,
    (omega arith, omega arith, (omega arith, omega arith, (omega arith, omega arith, h.2))),
  )
  | inr n ↦ (c ∷ cs, ground arith, h)
]

append-ne-nil : (xs ys : List ℕ) → xs ≢ [] → xs ++ ys ≢ []
append-ne-nil [] ys h e = h refl
append-ne-nil (x ∷ xs) ys h e = cc

-- From `nlQuiet` up, every name that is not empty has a translation, and no character of it is
-- below 32 or a backslash.
pub par2_to_local-AllPrintable :
    (noiselevel : NoiseLevel) (name : List ℕ)
    → at_least_quiet noiselevel ≡ true
    → name ≢ []
    → (s : List ℕ) × (par2_to_local noiselevel name ≡ some s) × AllPrintable s
par2_to_local-AllPrintable noiselevel [] q ne = absurd (ne refl)
par2_to_local-AllPrintable noiselevel (c ∷ cs) q ne =
    let (local, e, printable) =
      encode_root-AllPrintable (local_chars noiselevel (c ∷ cs))
        (unfold local_chars in
          append-ne-nil (local_char noiselevel c) (local_chars noiselevel cs)
            (local_char-AllPrintable noiselevel c q).1)
        (local_chars-AllPrintable noiselevel (c ∷ cs) q) in
    (
      replace_parents (length local + 1) local,
      par2_to_local-some noiselevel (c ∷ cs) local e,
      replace_parents-keeps AllPrintable (λ cs i d. replace_two-AllPrintable d) (length local + 1)
          local printable,
    )

-- The characters that are not control characters.
abbrev pub legal : List ℕ → List ℕ
legal [] = []
legal (c ∷ cs) = if ltb c 32 then legal cs else c ∷ legal cs

-- What the translation looks at: below `nlQuiet` the name without its control characters, from
-- `nlQuiet` up all of it.
abbrev pub kept : NoiseLevel → List ℕ → List ℕ
kept noiselevel name = if at_least_quiet noiselevel then name else legal name

legal-legal : (name : List ℕ) → legal (legal name) ≡ legal name
legal-legal [] = refl
legal-legal (c ∷ cs) = elim (dec_lt c 32) [
  | yes low ↦ rw (lt→ltb c 32 low) (legal-legal cs)
  | no high ↦
      let test = le→ltb c 32 (omega arith) in
      rw (test, test) (ap (λ (t : List ℕ). c ∷ t) (legal-legal cs))
]

local_char-control :
    (noiselevel : NoiseLevel) (c : ℕ)
    → at_least_quiet noiselevel ≡ false
    → c < 32
    → local_char noiselevel c ≡ []
unfolding local_char
local_char-control noiselevel c q h = rw (lt→ltb c 32 h, q) refl

local_char-legal :
    (noiselevel : NoiseLevel) (c : ℕ)
    → at_least_quiet noiselevel ≡ false
    → 32 ≤ c
    → local_char noiselevel c ≡ c ∷ []
unfolding local_char
local_char-legal noiselevel c q h = elim (Bool-cases (c == 0x5c)) [
  | inl e ↦ rw (le→ltb c 32 h, e, q) refl
  | inr e ↦ rw (le→ltb c 32 h, e) refl
]

local_chars-legal :
    (noiselevel : NoiseLevel) (name : List ℕ)
    → at_least_quiet noiselevel ≡ false
    → local_chars noiselevel name ≡ legal name
unfolding local_chars
local_chars-legal noiselevel [] q = refl
local_chars-legal noiselevel (c ∷ cs) q = elim (dec_lt c 32) [
  | yes low ↦
      rw (lt→ltb c 32 low, local_char-control noiselevel c q low)
        (local_chars-legal noiselevel cs q)
  | no high ↦
      rw (le→ltb c 32 (omega arith), local_char-legal noiselevel c q (omega arith))
        (ap (λ (t : List ℕ). c ∷ t) (local_chars-legal noiselevel cs q))
]

-- The translation is by what the characters become, and there is none only if that is nothing.
finish : List ℕ → Option (List ℕ)
unfolding encode_root
finish chars = elim (encode_root chars) [
  | none ↦ none
  | some local ↦ some (replace_parents (length local + 1) local)
]

par2_to_local-finish :
    (noiselevel : NoiseLevel) (name : List ℕ)
    → par2_to_local noiselevel name ≡ finish (local_chars noiselevel name)
unfolding par2_to_local finish
par2_to_local-finish noiselevel name = refl

finish-none : (chars : List ℕ) → (finish chars ≡ none) ↔ (chars ≡ [])
unfolding finish encode_root
finish-none [] = (λ h. refl, λ h. refl)
finish-none (c ∷ cs) = (λ h. absurd (ground arith), λ h. absurd (ground arith))

quiet_nothing :
    (noiselevel : NoiseLevel) (name : List ℕ)
    → at_least_quiet noiselevel ≡ true
    → (local_chars noiselevel name ≡ []) ↔ (name ≡ [])
unfolding local_chars
quiet_nothing noiselevel [] q = (λ h. refl, λ h. refl)
quiet_nothing noiselevel (c ∷ cs) q =
    let some_left = (local_char-AllPrintable noiselevel c q).1 in
    (
      λ h. absurd (some_left (first_part (local_char noiselevel c) (local_chars noiselevel cs) h)),
      λ h. absurd (ground arith),
    )
  where
    first_part : (xs ys : List ℕ) → xs ++ ys ≡ [] → xs ≡ []
    first_part [] ys h = refl
    first_part (x ∷ xs) ys h = absurd (ground arith)

local_chars-kept :
    (noiselevel : NoiseLevel) (name : List ℕ)
    → (local_chars noiselevel name ≡ local_chars noiselevel (kept noiselevel name))
      × ((local_chars noiselevel name ≡ []) ↔ (kept noiselevel name ≡ []))
local_chars-kept noiselevel name = elim (Bool-cases (at_least_quiet noiselevel)) [
  | inl q ↦ rw q (refl, quiet_nothing noiselevel name q)
  | inr q ↦
      let all = local_chars-legal noiselevel name q in
      let again = local_chars-legal noiselevel (legal name) q ∙ legal-legal name in
      rw q (all ∙ sym again, (λ h. sym all ∙ h, λ h. all ∙ h))
]

-- At every noise level: the translation of a name is that of what is kept of the name, which is all of
-- it from `nlQuiet` up, and below `nlQuiet` all but its control characters; and there is no
-- translation, since the test of the first character throws, exactly if nothing is kept.
pub par2_to_local-kept :
    (noiselevel : NoiseLevel) (name : List ℕ)
    → (par2_to_local noiselevel name ≡ par2_to_local noiselevel (kept noiselevel name))
      × ((par2_to_local noiselevel name ≡ none) ↔ (kept noiselevel name ≡ []))
par2_to_local-kept noiselevel name =
    let (same, nothing) = local_chars-kept noiselevel name in
    let whole = par2_to_local-finish noiselevel name in
    let ends = finish-none (local_chars noiselevel name) in
    (
      whole ∙ ap finish same ∙ sym (par2_to_local-finish noiselevel (kept noiselevel name)),
      (λ h. nothing.0 (ends.0 (sym whole ∙ h)), λ h. whole ∙ ends.1 (nothing.1 h)),
    )

local_chars_plain :
    (noiselevel : NoiseLevel) (name : List ℕ)
    → at_least_quiet noiselevel ≡ true
    → AllPrintable name
    → local_chars noiselevel name ≡ name
unfolding local_chars
local_chars_plain noiselevel [] q h = refl
local_chars_plain noiselevel (c ∷ cs) q h = elim (local_char-quiet noiselevel c q) [
  | inl (low, e) ↦ absurd (omega arith)
  | inr (high, e) ↦ rw (e, local_chars_plain noiselevel cs q h.2) (ground arith)
]

copy_chars_lem : (name : List ℕ) → copy_chars name ≡ name
unfolding copy_chars
copy_chars_lem [] = refl
copy_chars_lem (c ∷ cs) = ap (λ (t : List ℕ). c ∷ t) (copy_chars_lem cs)

-- A name that is relative, free of `../`, control characters and backslashes, and not empty is
-- stored in a recovery file as it is, and comes back unchanged from `nlQuiet` up.
pub par2_to_local-local_to_par2 :
    (noiselevel : NoiseLevel) (name : List ℕ)
    → at_least_quiet noiselevel ≡ true
    → name ≢ []
    → AllPrintable name
    → starts_with_slash name ≡ false
    → find_parent name ≡ none
    → (local_to_par2 name ≡ some name) × (par2_to_local noiselevel name ≡ some name)
unfolding local_to_par2 check_first
par2_to_local-local_to_par2 noiselevel [] q ne h slash parent = absurd (ne refl)
par2_to_local-local_to_par2 noiselevel (c ∷ cs) q ne h slash parent = (
  rw (copy_chars_lem (c ∷ cs)),
  par2_to_local-some noiselevel (c ∷ cs) (c ∷ cs) (
        ap encode_root (local_chars_plain noiselevel (c ∷ cs) q h)
        ∙ (unfold encode_root in ground arith))
      ∙ ap some (done (length (c ∷ cs))),
)
  where
    done : (n : ℕ) → replace_parents (n + 1) (c ∷ cs) ≡ c ∷ cs
    done n = unfold replace_parents in rw (add-one n) (rw (parent, replace_parents))
