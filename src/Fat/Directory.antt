-- ===== src/Fat/Directory.antt =====
-- filesystems/fat/src/directory.rs: short and long names of directory entries.
pub mod Laws
use deravel_os.Prelude.{
  ℕ, zero, suc, ◌+◌, ◌-◌, ◌*◌, ◌/◌, ◌%◌, ◌^◌, ltb, leb, ◌==◌, if◌then◌else◌, Bool, true, false, not,
  ◌&&◌, ◌||◌, List, [], ◌∷◌, ◌++◌, length, get_or, get_elem?, take, drop, replicate, Option, none,
  some, Exec, done, panic, ◌>>=◌, ◌>>◌, assert, unwrap,
}
use mathlib.Core.List.{reverse}

-- A `DirectoryEntry` is a union over 32 bytes; a field is read at its offset.
abbrev pub DirectoryEntry : Type 0
DirectoryEntry = List ℕ

abbrev pub byte : DirectoryEntry → ℕ → ℕ
byte e i = get_or e i 0

abbrev pub word : DirectoryEntry → ℕ → ℕ
word e i = byte e i + byte e (i + 1) * 256

abbrev pub short_name : DirectoryEntry → List ℕ
short_name e = take 11 e

abbrev pub attr : DirectoryEntry → ℕ
attr e = byte e 11

abbrev pub long_ord : DirectoryEntry → ℕ
long_ord e = byte e 0

abbrev pub long_chksum : DirectoryEntry → ℕ
long_chksum e = byte e 13

abbrev pub file_size : DirectoryEntry → ℕ
file_size e = word e 28 + word e 30 * 2 ^ 16

-- `ShortNameDirectoryEntry::fst_clus`
unfoldable pub fst_clus : DirectoryEntry → ℕ
fst_clus e = word e 20 * 2 ^ 16 + word e 26

abbrev pub max_long_entries : ℕ
max_long_entries = 20

-- Attributes of a long entry: all four low ones, and neither directory nor archive.
abbrev pub is_long : DirectoryEntry → Bool
is_long e = attr e % 64 == 15

unfoldable pub try_as_first_long : DirectoryEntry → Exec (Option ℕ)
try_as_first_long e = if not (is_long e) then done none else do
  assert (not (long_ord e / 64 % 2 == 0))
  assert (leb 1 (long_ord e - 64) && leb (long_ord e - 64) max_long_entries)
  done (some (long_ord e - 64))

unfoldable pub checksum_from : ℕ → List ℕ → ℕ
checksum_from sum [] = sum
checksum_from sum (b ∷ rest) =
    checksum_from (((if sum % 2 == 0 then 0 else 0x80) + sum / 2 + b) % 256) rest

unfoldable pub compute_checksum : List ℕ → ℕ
unfolding checksum_from
compute_checksum name = checksum_from 0 name

unfoldable pub ord : ℕ → ℕ → ℕ
ord i long_count = if i == long_count - 1 then i + 1 + 64 else i + 1

-- The 13 units of a long entry.
unfoldable pub copy_long_chunk : DirectoryEntry → List ℕ
copy_long_chunk e =
    word e 1
    ∷ word e 3
    ∷ word e 5
    ∷ word e 7
    ∷ word e 9
    ∷ word e 14
    ∷ word e 16
    ∷ word e 18
    ∷ word e 20
    ∷ word e 22
    ∷ word e 24
    ∷ word e 28
    ∷ word e 30
    ∷ []

-- The entries from the last one back, the `i`-th and on.
unfoldable pub copy_long_from : ℕ → ℕ → ℕ → List DirectoryEntry → Exec (List ℕ)
unfolding ord copy_long_chunk
copy_long_from i long_count checksum [] = done []
copy_long_from i long_count checksum (e ∷ rest) = do
  assert (long_ord e == ord i long_count)
  assert (long_chksum e == checksum)
  units ← copy_long_from (i + 1) long_count checksum rest
  done (copy_long_chunk e ++ units)

unfoldable pub copy_long : List DirectoryEntry → ℕ → Exec (List ℕ)
unfolding copy_long_from
copy_long longs checksum = copy_long_from 0 (length longs) checksum (reverse longs)

abbrev pub is_upper : ℕ → Bool
is_upper c = leb b'A' c && leb c b'Z'

abbrev pub is_lower : ℕ → Bool
is_lower c = leb b'a' c && leb c b'z'

abbrev pub is_digit : ℕ → Bool
is_digit c = leb b'0' c && leb c b'9'

-- `$ % ' - _ @ ~ ` ! ( ) { } ^ # &` and the space.
abbrev pub is_symbol : ℕ → Bool
is_symbol c =
    c == 0x24
    || c == 0x25
    || c == 0x27
    || c == 0x2D
    || c == 0x5F
    || c == 0x40
    || c == 0x7E
    || c == 0x60
    || c == 0x21
    || c == 0x28
    || c == 0x29
    || c == 0x7B
    || c == 0x7D
    || c == 0x5E
    || c == 0x23
    || c == 0x26
    || c == 0x20

unfoldable pub is_valid_short_char : ℕ → Bool
is_valid_short_char c = is_upper c || is_digit c || leb 128 c || is_symbol c

-- Lower case letters and `. , ; = [ ]` besides.
unfoldable pub is_valid_long_char : ℕ → Bool
unfolding is_valid_short_char
is_valid_long_char c =
    leb 128 c
    || is_valid_short_char c
    || is_lower c
    || c == 0x2E
    || c == 0x2C
    || c == 0x3B
    || c == 0x3D
    || c == 0x5B
    || c == 0x5D

unfoldable pub trim_start : List ℕ → List ℕ
trim_start [] = []
trim_start (c ∷ rest) = let trimmed = trim_start rest in if c == 0x20 then trimmed else c ∷ rest

-- Spaces and periods at the end, of the name reversed.
unfoldable pub trim_end : List ℕ → List ℕ
trim_end [] = []
trim_end (c ∷ rest) =
    let trimmed = trim_end rest in if c == 0x20 || c == 0x2E then trimmed else c ∷ rest

unfoldable pub all_units : (ℕ → Bool) → List ℕ → Bool
all_units p [] = true
all_units p (c ∷ rest) = p c && all_units p rest

-- Up to the first 0, behind which there is padding only.
unfoldable pub cut_at_null : List ℕ → Exec (List ℕ)
unfolding all_units
cut_at_null [] = done []
cut_at_null (c ∷ rest) =
    let more : Exec (List ℕ) = cut_at_null rest in
    if c == 0
    then (do assert (all_units (λ u. u == 0xFFFF) rest); done [])
    else do kept ← more; done (c ∷ kept)

-- `postprocess_long_name` up to the units that it decodes as UTF-16.
unfoldable pub postprocess_units : List ℕ → Exec (List ℕ)
unfolding trim_start trim_end cut_at_null all_units
postprocess_units name = do
  kept ← cut_at_null (trim_start name)
  let trimmed = reverse (trim_end (reverse kept))
  assert (all_units is_valid_long_char trimmed)
  assert (leb (length trimmed) 255)
  done trimmed

-- `String::from_utf16`, to code points.
unfoldable pub from_utf16 : List ℕ → Option (List ℕ)
from_utf16 [] = some []
from_utf16 (u ∷ []) = if leb 0xD800 u && leb u 0xDFFF then none else some (u ∷ [])
from_utf16 (u ∷ v ∷ rest) =
    let one : Option (List ℕ) = elim (from_utf16 (v ∷ rest)) [
      | none ↦ none
      | some s ↦ some (u ∷ s)
    ] in
    let two : Option (List ℕ) = elim (from_utf16 rest) [
      | none ↦ none
      | some s ↦ some ((0x10000 + (u - 0xD800) * 0x400 + (v - 0xDC00)) ∷ s)
    ] in
    if leb 0xD800 u && leb u 0xDBFF && leb 0xDC00 v && leb v 0xDFFF
    then two
    else if leb 0xD800 u && leb u 0xDFFF
    then none
    else one

-- One item of `coalesce_long_names`: an entry with its long name, and the entries that are left.
with_long :
    List DirectoryEntry
    → DirectoryEntry
    → ℕ
    → Exec ((DirectoryEntry × Option (List ℕ)) × List DirectoryEntry)
with_long entries short long_count = do
  units ← copy_long (take long_count entries) (compute_checksum (short_name short))
  kept ← postprocess_units units
  name ← unwrap (from_utf16 kept)
  done ((short, some name), drop long_count entries)

unfoldable pub next_entry :
    List DirectoryEntry → Exec ((DirectoryEntry × Option (List ℕ)) × List DirectoryEntry)
unfolding with_long
next_entry [] = panic
next_entry (e ∷ rest) = do
  long ← try_as_first_long e
  elim long [
    | none ↦ done ((e, none), rest)
    | some long_count ↦ do
      short ← unwrap (get_elem? (e ∷ rest) long_count)
      with_long (e ∷ rest) short long_count
  ]

-- `str::split_once('.')`
unfoldable pub split_at_dot : List ℕ → List ℕ × List ℕ
split_at_dot [] = ([], [])
split_at_dot (c ∷ rest) =
    let (main, extension) = split_at_dot rest in
    if c == 0x2E then ([], rest) else (c ∷ main, extension)

unfoldable pub to_ascii_uppercase : ℕ → ℕ
to_ascii_uppercase c = if is_lower c then c - 32 else c

-- A character before an upper case part, if it is valid.
unfoldable pub upper_cons : ℕ → Option (List ℕ) → Option (List ℕ)
unfolding is_valid_short_char
upper_cons c none = none
upper_cons c (some s) = if is_valid_short_char c then some (c ∷ s) else none

-- A part in upper case, if all its characters are valid.
unfoldable pub upper_part : List ℕ → Option (List ℕ)
unfolding to_ascii_uppercase upper_cons
upper_part [] = some []
upper_part (c ∷ rest) = upper_cons (to_ascii_uppercase c) (upper_part rest)

abbrev pub pad : ℕ → List ℕ → List ℕ
pad n part = part ++ replicate (n - length part) 0x20

unfoldable pub pad_parts : Option (List ℕ) → Option (List ℕ) → Option (List ℕ)
pad_parts none extension = none
pad_parts (some m) none = none
pad_parts (some m) (some x) = some (pad 8 m ++ pad 3 x)

-- The bytes of a string to the 11 bytes of a short name.
unfoldable pub to_short_name : List ℕ → Option (List ℕ)
unfolding split_at_dot upper_part pad_parts
to_short_name s =
    let (main, extension) = split_at_dot s in
    if ltb 8 (length main)
    then none
    else if ltb 3 (length extension)
    then none
    else pad_parts (upper_part main) (upper_part extension)
