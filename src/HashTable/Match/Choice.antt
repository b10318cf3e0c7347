-- ===== src/HashTable/Match/Choice.antt =====
-- The choice among several entries with the same checksum and hash.
use par2cmdline_turbo.Prelude.{
  ℕ, Bool, true, false, ◌&&◌, not, ◌==◌, ◌≡◌, refl, Option, none, some, List, [], ◌∷◌, arith,
  if◌then◌else◌,
}
use par2cmdline_turbo.HashTable.Tree.{Entry}
use par2cmdline_turbo.HashTable.Match.{
  Window, Blocks, Preferred, current, remembered, unusable, prefer, first_usable, many,
}

abbrev pub find_first : (Entry → Bool) → List Entry → Option Entry
find_first p [] = none
find_first p (e ∷ es) = if p e then some e else find_first p es

abbrev pub or_else : Option Entry → Option Entry → Option Entry
or_else (some e) o = some e
or_else none o = o

module _ (w : Window) (b : Blocks) where
  abbrev pub usable : Entry → Bool
  usable e = not (unusable w b e)

  abbrev pub usable_of : ℕ → Entry → Bool
  usable_of sourcefile e = (e.sourcefile == sourcefile) && not (unusable w b e)

  first_usable_lem : (es : List Entry) → first_usable w b es ≡ find_first usable es
  unfolding first_usable
  first_usable_lem [] = refl
  first_usable_lem (e ∷ es) = ground (arith, first_usable_lem es)

  abbrev resolve : Preferred w b → Option Entry
  resolve (current e) = some e
  resolve (remembered rest) = first_usable w b rest

  prefer_remembering :
      (sourcefile : ℕ) (m : Entry) (ms es : List Entry)
      → usable m ≡ true
      → resolve (prefer w b sourcefile (m ∷ ms) es)
        ≡ or_else (find_first (usable_of sourcefile) es) (some m)
  unfolding prefer first_usable
  prefer_remembering sourcefile m ms [] h = ground arith
  prefer_remembering sourcefile m ms (e ∷ es) h =
      ground (arith, prefer_remembering sourcefile m ms es)

  prefer_lem :
      (sourcefile : ℕ) (es : List Entry)
      → resolve (prefer w b sourcefile [] es)
        ≡ or_else (find_first (usable_of sourcefile) es) (find_first usable es)
  unfolding prefer
  prefer_lem sourcefile [] = unfold first_usable in refl
  prefer_lem sourcefile (e ∷ es) =
      ground (arith, prefer_lem sourcefile es, prefer_remembering sourcefile e es es)

  -- The entry that a search should settle on: the first usable one of the preferred source file,
  -- or else the first usable one.
  abbrev pub chosen : Option ℕ → List Entry → Option Entry
  chosen none es = find_first usable es
  chosen (some sourcefile) es =
      or_else (find_first (usable_of sourcefile) es) (find_first usable es)

  -- Among several entries with the same checksum and hash, the loops of `FindMatch` return the
  -- first that is neither taken nor of the wrong length and belongs to the preferred source file;
  -- if there is no such entry, the first that is neither taken nor of the wrong length; and null,
  -- without setting `duplicate`, if there is none of that kind either.
  pub many-eq-chosen :
      (sourcefile : Option ℕ) (es : List Entry)
      → many w b sourcefile es ≡ record { entry = chosen sourcefile es; duplicate = false }
  unfolding many
  many-eq-chosen none es = ground (arith, first_usable_lem es)
  many-eq-chosen (some sourcefile) es = ground (arith, prefer_lem sourcefile es)
