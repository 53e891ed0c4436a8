-- ===== src/Fat/Path.antt =====
-- filesystems/fat/src/main.rs: directories, and the file that a path leads to.
use deravel_os.Prelude.{
  ℕ, zero, suc, ◌+◌, ◌/◌, ◌%◌, ◌^◌, ltb, ◌==◌, if◌then◌else◌, Bool, true, false, ◌&&◌, List, [],
  ◌∷◌, length, take, drop, Option, none, some, Exec, done, panic, diverge, ◌>>=◌, ◌>>◌, assert,
}
use deravel_os.Fat.Bpb.{Bpb, FatType}
use deravel_os.Fat.Volume.{Drive, read_file}
use deravel_os.Fat.Directory.{
  DirectoryEntry, byte, short_name, fst_clus, file_size, next_entry, to_short_name,
}

pub data Directory : Type 0 where
  normal : ℕ → Directory
  root_directory_region : Directory

pub record Fat : Type 0 where
  pub type_ : FatType
  pub drive : Drive
  pub bpb : Bpb
  pub fat : List ℕ
  pub rdr : List DirectoryEntry

-- The entries of 32 bytes each, `n` of them.
chunks : ℕ → List ℕ → List DirectoryEntry
chunks zero bytes = []
chunks (suc n) bytes = take 32 bytes ∷ chunks n (drop 32 bytes)

-- The capacity of a vector is left out, and with it the second assertion.
unfoldable pub directory_bytes_to_entries : List ℕ → Exec (List DirectoryEntry)
unfolding chunks
directory_bytes_to_entries bytes = do
  assert (length bytes % 32 == 0)
  done (chunks (length bytes / 32) bytes)

-- `fuel` bounds the clusters of a directory or file.
unfoldable pub read_normal_directory : ℕ → Fat → ℕ → Exec (List DirectoryEntry)
read_normal_directory fuel fs cluster = do
  bytes ← read_file fuel fs.type_ fs.bpb fs.fat fs.drive cluster none
  directory_bytes_to_entries bytes

unfoldable pub read_directory : ℕ → Fat → Directory → Exec (List DirectoryEntry)
unfolding read_normal_directory
read_directory fuel fs (normal cluster) = read_normal_directory fuel fs cluster
read_directory fuel fs root_directory_region = done fs.rdr

-- A string is a list of code points; `to_short_name` works on its bytes.
unfoldable pub utf8 : List ℕ → List ℕ
utf8 [] = []
utf8 (c ∷ rest) =
    let more = utf8 rest in
    if ltb c 0x80
    then c ∷ more
    else if ltb c 0x800
    then (0xC0 + c / 64) ∷ (0x80 + c % 64) ∷ more
    else if ltb c 0x1_0000
    then (0xE0 + c / 4096) ∷ (0x80 + c / 64 % 64) ∷ (0x80 + c % 64) ∷ more
    else (0xF0 + c / 2 ^ 18)
      ∷ (0x80 + c / 4096 % 64)
      ∷ (0x80 + c / 64 % 64)
      ∷ (0x80 + c % 64)
      ∷ more

unfoldable pub same : List ℕ → List ℕ → Bool
same [] [] = true
same [] (y ∷ ys) = false
same (x ∷ xs) [] = false
same (x ∷ xs) (y ∷ ys) = x == y && same xs ys

name_matches : List ℕ → DirectoryEntry → Option (List ℕ) → Option (List ℕ) → Bool
unfolding same
name_matches segment de (some long_name) needle = same long_name segment
name_matches segment de none none = false
name_matches segment de none (some needle) = same needle (short_name de)

-- The `for` loop over the entries: the first one of the name, up to the end mark. Each round takes
-- an entry at least, so that one more than their number bounds the rounds.
unfoldable pub find_entry : ℕ → List ℕ → List DirectoryEntry → Exec (Option DirectoryEntry)
unfolding name_matches
find_entry zero segment entries = diverge
find_entry (suc f) segment entries = do
  (item, rest) ← next_entry entries
  let (de, long_name) = item
  if byte de 0 == 0xE5
      then find_entry f segment rest
      else if byte de 0 == 0
      then done none
      else if name_matches segment de long_name (to_short_name (utf8 segment))
      then done (some de)
      else find_entry f segment rest

-- `path.split_once('/')` until there is no `/`: the first segment and the ones behind it.
unfoldable pub split_segments : List ℕ → List ℕ × List (List ℕ)
split_segments [] = ([], [])
split_segments (c ∷ rest) =
    let (segment, others) = split_segments rest in
    if c == 0x2F then ([], segment ∷ others) else (c ∷ segment, others)

-- The cluster and the size of the file that the segments lead to.
traverse : ℕ → Fat → Directory → List ℕ → List (List ℕ) → Exec (ℕ × ℕ)
unfolding find_entry read_directory
traverse fuel fs dir segment [] = do
  entries ← read_directory fuel fs dir
  found ← find_entry (length entries + 1) segment entries
  elim found [ none ↦ panic | some de ↦ done (fst_clus de, file_size de) ]
traverse fuel fs dir segment (next ∷ others) = do
  entries ← read_directory fuel fs dir
  found ← find_entry (length entries + 1) segment entries
  elim found [ none ↦ panic | some de ↦ traverse fuel fs (normal (fst_clus de)) next others ]

unfoldable pub traverse_path : ℕ → Fat → Directory → List ℕ → Exec (ℕ × ℕ)
unfolding traverse split_segments
traverse_path fuel fs dir path =
    let (segment, others) = split_segments path in traverse fuel fs dir segment others

-- `Fat::read`
unfoldable pub read : ℕ → Fat → Directory → List ℕ → Exec (List ℕ)
read fuel fs dir path = do
  (file, size) ← traverse_path fuel fs dir path
  read_file fuel fs.type_ fs.bpb fs.fat fs.drive file (some size)

-- `Fat::subcapability`, the object that is granted.
unfoldable pub subcapability : ℕ → Fat → Directory → List ℕ → Exec Directory
subcapability fuel fs dir path = do
  (cluster, _) ← traverse_path fuel fs dir path
  done (normal cluster)
