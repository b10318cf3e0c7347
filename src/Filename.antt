-- ===== src/Filename.antt =====
-- The filename translations of src/descriptionpacket.cpp, in the branches for systems other than
-- Windows. A string is the list of its bytes. What the functions print is left out.
pub mod Replace
pub mod Safety
use par2cmdline_turbo.Prelude.{
  ℕ, zero, suc, ◌+◌, ◌-◌, ◌/◌, ◌%◌, ◌^◌, bit_and, Bool, true, false, ◌&&◌, ◌||◌, not, ◌==◌, Option,
  none, some, List, [], ◌∷◌, ◌++◌, ltb, leb, if◌then◌else◌, take, drop, length,
}

-- `NoiseLevel` of include/par2/libpar2.h
pub data NoiseLevel : Type 0 where
  unknown silent quiet normal noisy debug : NoiseLevel

abbrev pub level : NoiseLevel → ℕ
level unknown = 0
level silent = 1
level quiet = 2
level normal = 3
level noisy = 4
level debug = 5

-- `noiselevel >= nlQuiet`
unfoldable pub at_least_quiet : NoiseLevel → Bool
at_least_quiet noiselevel = leb (level quiet) (level noiselevel)

unfoldable pub hex_digit : ℕ → ℕ
hex_digit bits = if ltb bits 10 then b'0' + bits else b'A' + (bits - 10)

-- `UrlEncodeChar`
unfoldable pub url_encode_char : ℕ → List ℕ
url_encode_char c = b'%' ∷ hex_digit (bit_and (c / 2 ^ 4) 0xf) ∷ hex_digit (bit_and c 0xf) ∷ []

-- The body of the loop in `TranslateFilenameFromPar2ToLocal`: what it appends for a character.
unfoldable pub local_char : NoiseLevel → ℕ → List ℕ
local_char noiselevel ch =
    let ok = not (ltb ch 32) in
    let ch' = if (ch == 0x5c) && at_least_quiet noiselevel then b'/' else ch in
    if ok then ch' ∷ [] else if at_least_quiet noiselevel then url_encode_char ch' else []

unfoldable pub local_chars : NoiseLevel → List ℕ → List ℕ
local_chars noiselevel [] = []
local_chars noiselevel (ch ∷ name) = local_char noiselevel ch ++ local_chars noiselevel name

-- `find("../")`
is_parent : List ℕ → Bool
is_parent (a ∷ b ∷ c ∷ rest) = (a == b'.') && ((b == b'.') && (c == b'/'))
is_parent _ = false

unfoldable pub find_parent : List ℕ → Option ℕ
unfolding is_parent
find_parent [] = none
find_parent (c ∷ cs) =
    let later = find_parent cs in
    if is_parent (c ∷ cs) then some 0 else elim later [ none ↦ none | some i ↦ some (suc i) ]

-- `UrlEncodeChar('.') + UrlEncodeChar('.')`
abbrev pub encoded_dots : List ℕ
encoded_dots = b'%' ∷ b'2' ∷ b'E' ∷ b'%' ∷ b'2' ∷ b'E' ∷ []

-- `replace(index, 2, …)`
unfoldable pub replace_two : List ℕ → ℕ → List ℕ
replace_two name index = take index name ++ (encoded_dots ++ drop (index + 2) name)

-- `while (true)`: each round takes two dots away, so the length is fuel enough.
unfoldable pub replace_parents : ℕ → List ℕ → List ℕ
replace_parents zero name = name
replace_parents (suc fuel) name = elim (find_parent name) [
  | none ↦ name
  | some index ↦ replace_parents fuel (replace_two name index)
]

-- `if (local_filename.at(0) == '/') local_filename.replace(0, 1, UrlEncodeChar('/'))`; `at` throws
-- on an empty string, which is `none`.
unfoldable pub encode_root : List ℕ → Option (List ℕ)
encode_root [] = none
encode_root (c ∷ cs) = some (if c == b'/' then b'%' ∷ b'2' ∷ b'F' ∷ cs else c ∷ cs)

-- `TranslateFilenameFromPar2ToLocal`
unfoldable pub par2_to_local : NoiseLevel → List ℕ → Option (List ℕ)
par2_to_local noiselevel name = elim (encode_root (local_chars noiselevel name)) [
  | none ↦ none
  | some local ↦ some (replace_parents (length local + 1) local)
]

-- The loop of `TranslateFilenameFromLocalToPar2` copies the name.
unfoldable pub copy_chars : List ℕ → List ℕ
copy_chars [] = []
copy_chars (ch ∷ name) = ch ∷ copy_chars name

-- `par2_encoded_filename.at(0)` throws on an empty name; the tests only print warnings.
unfoldable pub check_first : List ℕ → Option (List ℕ)
check_first [] = none
check_first (c ∷ cs) = some (c ∷ cs)

-- `TranslateFilenameFromLocalToPar2`
unfoldable pub local_to_par2 : List ℕ → Option (List ℕ)
local_to_par2 name = check_first (copy_chars name)
