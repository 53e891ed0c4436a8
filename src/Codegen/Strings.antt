-- ===== src/Codegen/Strings.antt =====
-- The functions of `str` that codegen/src uses, on texts of ASCII as lists of code points.
use Prim.Native.Char.{code}
use Prim.Native.String.{String}
use deravel_os.Prelude.{
  ℕ, ◌==◌, leb, if◌then◌else◌, ◌&&◌, ◌||◌, Bool, true, false, List, [], ◌∷◌, Option, none, some,
}

abbrev pub Text : Type 0
Text = List ℕ

-- A literal.
abbrev pub codes : String → Text
codes String.[] = []
codes (String.◌∷◌ c s) = code c ∷ codes s

abbrev pub text_eq : Text → Text → Bool
text_eq [] [] = true
text_eq [] (d ∷ t) = false
text_eq (c ∷ s) [] = false
text_eq (c ∷ s) (d ∷ t) = c == d && text_eq s t

abbrev pub is_empty : Text → Bool
is_empty [] = true
is_empty (c ∷ s) = false

abbrev pub strip_prefix : Text → Text → Option Text
strip_prefix [] s = some s
strip_prefix (p ∷ ps) [] = none
strip_prefix (p ∷ ps) (c ∷ s) = if p == c then strip_prefix ps s else none

abbrev pub contains : ℕ → Text → Bool
contains c [] = false
contains c (d ∷ s) = d == c || contains c s

-- `split_once` at a character.
abbrev pub split_once : ℕ → Text → Option (Text × Text)
split_once c [] = none
split_once c (d ∷ s) =
    if d == c
    then some ([], s)
    else elim (split_once c s) [ none ↦ none | some (before, after) ↦ some (d ∷ before, after) ]

abbrev pub push_first : ℕ → List Text → List Text
push_first c [] = (c ∷ []) ∷ []
push_first c (p ∷ ps) = (c ∷ p) ∷ ps

-- `split(", ")`
abbrev pub split_commas : Text → List Text
split_commas [] = [] ∷ []
split_commas (c ∷ []) = (c ∷ []) ∷ []
split_commas (c ∷ d ∷ s) =
    let apart = [] ∷ split_commas s in
    let joined = push_first c (split_commas (d ∷ s)) in
    if c == b',' && d == b' ' then apart else joined

-- A line ends at a line feed, with a carriage return before it or without.
abbrev pub lines : Text → List Text
lines [] = []
lines (c ∷ []) = if c == 10 then [] ∷ [] else (c ∷ []) ∷ []
lines (c ∷ d ∷ s) =
    let ended = [] ∷ lines (d ∷ s) in
    let returned = [] ∷ lines s in
    let joined = push_first c (lines (d ∷ s)) in
    if c == 10 then ended else if c == 13 && d == 10 then returned else joined

-- The text before the first `(` or space, and from there on.
abbrev pub split_name : Text → Text × Text
split_name [] = ([], [])
split_name (c ∷ s) =
    if c == b'(' || c == b' ' then ([], c ∷ s) else (c ∷ (split_name s).0, (split_name s).1)

is_whitespace : ℕ → Bool
is_whitespace c = c == b' ' || leb 9 c && leb c 13

abbrev pub drop_spaces : Text → Text
unfolding is_whitespace
drop_spaces [] = []
drop_spaces (c ∷ s) = if is_whitespace c then drop_spaces s else c ∷ s

abbrev pub drop_trailing : Text → Text
unfolding is_whitespace
drop_trailing [] = []
drop_trailing (c ∷ s) =
    let rest = drop_trailing s in if is_whitespace c && is_empty rest then [] else c ∷ rest

abbrev pub trim : Text → Text
trim s = drop_trailing (drop_spaces s)
