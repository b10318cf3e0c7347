-- ===== src/Utf8.antt =====
-- `Latin1ToUtf8` of src/utf8.cpp.
use mathlib.Core.Path.{ap₂}
use native.Mathlib.Decide.{dec_lt}
use par2cmdline_turbo.Prelude.{
  ℕ, ◌+◌, ◌-◌, ◌*◌, ◌%◌, ◌^◌, ◌<◌, ◌≡◌, refl, bit_and, List, [], ◌∷◌, ltb, if◌then◌else◌, arith,
  ◌≤◌, ap, ◌∙◌, lt→ltb, le→ltb,
}
use par2cmdline_turbo.Bits.{bit_and_mask}

-- The loop over the characters; `push_back` stores a byte.
unfoldable pub latin1_to_utf8 : List ℕ → List ℕ
latin1_to_utf8 [] = []
latin1_to_utf8 (ch ∷ latin1_str) =
    let rest = latin1_to_utf8 latin1_str in
    if ltb ch 128
    then ch ∷ rest
    else (0xc2 + (if ltb 0xbf ch then 1 else 0)) % 2 ^ 8 ∷ (bit_and ch 0x3f + 0x80) % 2 ^ 8 ∷ rest

-- The reading of one- and two-byte sequences.
unfoldable pub decode : List ℕ → List ℕ
decode [] = []
decode (b ∷ []) = b ∷ []
decode (b ∷ c ∷ rest) =
    let one = decode (c ∷ rest) in
    let two = decode rest in if ltb b 0x80 then b ∷ one else ((b - 0xc0) * 64 + (c - 0x80)) ∷ two

-- Sequences of one byte, and of two bytes that are not an overlong form.
pub data IsUtf8 : List ℕ → Type 0 where
  nil : IsUtf8 []
  one : {b : ℕ} {rest : List ℕ} → b < 0x80 → IsUtf8 rest → IsUtf8 (b ∷ rest)
  two :
      {b c : ℕ} {rest : List ℕ}
      → 0xc2 ≤ b
      → b < 0xe0
      → 0x80 ≤ c
      → c < 0xc0
      → IsUtf8 rest
      → IsUtf8 (b ∷ c ∷ rest)

abbrev pub AllBytes : List ℕ → Type 0
AllBytes [] = Unit
AllBytes (b ∷ bs) = (b < 2 ^ 8) × AllBytes bs

decode_ascii : (b : ℕ) (rest : List ℕ) → b < 0x80 → decode (b ∷ rest) ≡ b ∷ decode rest
unfolding decode
decode_ascii b [] h = refl
decode_ascii b (c ∷ rest) h = ground arith

-- The bytes that stand for a character from 128 on.
lead : ℕ → ℕ
lead ch = (0xc2 + (if ltb 0xbf ch then 1 else 0)) % 2 ^ 8

low_six : (ch : ℕ) → (bit_and ch 0x3f + 0x80) % 2 ^ 8 ≡ ch % 64 + 0x80
low_six ch = omega (arith, bit_and_mask 6 ch)

latin1_to_utf8-high :
    (ch : ℕ) (rest : List ℕ)
    → 128 ≤ ch
    → latin1_to_utf8 (ch ∷ rest) ≡ lead ch ∷ (ch % 64 + 0x80) ∷ latin1_to_utf8 rest
unfolding latin1_to_utf8 lead
latin1_to_utf8-high ch rest h = rw (le→ltb ch 128 h, low_six ch)

latin1_to_utf8-low :
    (ch : ℕ) (rest : List ℕ) → ch < 128 → latin1_to_utf8 (ch ∷ rest) ≡ ch ∷ latin1_to_utf8 rest
unfolding latin1_to_utf8
latin1_to_utf8-low ch rest h = rw (lt→ltb ch 128 h)

decode_two :
    (b c : ℕ) (rest : List ℕ)
    → 0x80 ≤ b
    → decode (b ∷ c ∷ rest) ≡ ((b - 0xc0) * 64 + (c - 0x80)) ∷ decode rest
unfolding decode
decode_two b c rest h = rw (le→ltb b 0x80 h)

lead_bounds :
    (ch : ℕ)
    → 128 ≤ ch
    → ch < 2 ^ 8
    → (0xc2 ≤ lead ch) × (lead ch < 0xe0) × ((lead ch - 0xc0) * 64 + (ch % 64 + 0x80 - 0x80) ≡ ch)
unfolding lead
lead_bounds ch p q = ground arith

-- A string of bytes becomes well-formed UTF-8, and decoding that gives its characters back.
pub decode-latin1_to_utf8 :
    (s : List ℕ) → AllBytes s → IsUtf8 (latin1_to_utf8 s) × (decode (latin1_to_utf8 s) ≡ s)
decode-latin1_to_utf8 [] h = unfold latin1_to_utf8 decode in (nil, refl)
decode-latin1_to_utf8 (ch ∷ s) h =
    let (well, back) = decode-latin1_to_utf8 s h.1 in
    elim (dec_lt ch 128) [
      | yes low ↦
          rw (latin1_to_utf8-low ch s low) (
            one low well,
            decode_ascii ch (latin1_to_utf8 s) low ∙ ap (λ (t : List ℕ). ch ∷ t) back,
          )
      | no high ↦
          let b = lead_bounds ch (omega arith) h.0 in
          rw (latin1_to_utf8-high ch s (omega arith)) (
            two b.0 b.1 (omega arith) (omega arith) well,
            decode_two (lead ch) (ch % 64 + 0x80) (latin1_to_utf8 s) (omega arith)
                ∙ ap₂ (λ (c : ℕ) (t : List ℕ). c ∷ t) b.2 back,
          )
    ]
