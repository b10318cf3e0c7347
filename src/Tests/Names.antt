-- ===== src/Tests/Names.antt =====
-- UTF-8 and the translations of filenames at concrete inputs.
use par2cmdline_turbo.Prelude.{
  ℕ, ◌≡◌, ◌≢◌, ◌↔◌, refl, true, false, none, some, List, [], ◌∷◌, ◌++◌, arith,
}
use par2cmdline_turbo.Utf8.{latin1_to_utf8, decode, IsUtf8, decode-latin1_to_utf8}
use par2cmdline_turbo.Filename.{
  silent, quiet, par2_to_local, local_to_par2, find_parent, encoded_dots, at_least_quiet,
  encoded_dots, local_chars, local_char, url_encode_char, hex_digit, encode_root, replace_parents,
  replace_two,
}
use par2cmdline_turbo.Filename.Replace.{starts_with_slash, AllPrintable}
use par2cmdline_turbo.Filename.Safety.{
  par2_to_local-IsSafe, par2_to_local-AllPrintable, par2_to_local-kept, kept,
  par2_to_local-local_to_par2,
}

-- `ä.z`
decode-latin1_to_utf8_example :
    IsUtf8 (latin1_to_utf8 (228 ∷ 46 ∷ 122 ∷ []))
    × (decode (latin1_to_utf8 (228 ∷ 46 ∷ 122 ∷ [])) ≡ 228 ∷ 46 ∷ 122 ∷ [])
decode-latin1_to_utf8_example =
    decode-latin1_to_utf8 (228 ∷ 46 ∷ 122 ∷ []) (omega arith, (omega arith, (omega arith, tt)))

-- `../../x`
abbrev above : List ℕ
above = 46 ∷ 46 ∷ 47 ∷ 46 ∷ 46 ∷ 47 ∷ b'x' ∷ []

-- `%2E%2E/%2E%2E/x`
abbrev translated : List ℕ
translated = encoded_dots ++ (47 ∷ encoded_dots ++ (47 ∷ b'x' ∷ []))

translated_run : par2_to_local quiet above ≡ some translated
unfolding par2_to_local local_chars local_char url_encode_char hex_digit at_least_quiet encode_root
    replace_parents find_parent replace_two
translated_run = refl

par2_to_local-IsSafe_example :
    (starts_with_slash translated ≡ false) × (find_parent translated ≡ none)
par2_to_local-IsSafe_example = par2_to_local-IsSafe quiet above translated translated_run

abbrev newline : List ℕ
newline = b'a' ∷ 10 ∷ []

is_quiet : at_least_quiet quiet ≡ true
unfolding at_least_quiet
is_quiet = refl

newline_ne_nil : newline ≢ []
newline_ne_nil = cc

par2_to_local-AllPrintable_example :
    (s : List ℕ) × (par2_to_local quiet newline ≡ some s) × AllPrintable s
par2_to_local-AllPrintable_example =
    par2_to_local-AllPrintable quiet newline is_quiet newline_ne_nil

-- A name with a control character, and one with nothing else, at `nlSilent`.
par2_to_local-kept_example :
    (par2_to_local silent newline ≡ par2_to_local silent (kept silent newline))
    × ((par2_to_local silent newline ≡ none) ↔ (kept silent newline ≡ []))
par2_to_local-kept_example = par2_to_local-kept silent newline

kept_run :
    (kept silent newline ≡ b'a' ∷ [])
    × (kept quiet newline ≡ newline)
    × (kept silent (10 ∷ 13 ∷ []) ≡ [])
unfolding at_least_quiet
kept_run = (refl, refl, refl)

abbrev plain : List ℕ
plain = b'a' ∷ b'/' ∷ b'b' ∷ []

plain_ne_nil : plain ≢ []
plain_ne_nil = cc

plain-AllPrintable : AllPrintable plain
plain-AllPrintable =
    (omega arith, omega arith, (omega arith, omega arith, (omega arith, omega arith, tt)))

plain_slash : starts_with_slash plain ≡ false
plain_slash = refl

plain_parent : find_parent plain ≡ none
unfolding find_parent
plain_parent = refl

par2_to_local-local_to_par2_example :
    (local_to_par2 plain ≡ some plain) × (par2_to_local quiet plain ≡ some plain)
par2_to_local-local_to_par2_example =
    par2_to_local-local_to_par2 quiet plain is_quiet plain_ne_nil plain-AllPrintable plain_slash
      plain_parent
