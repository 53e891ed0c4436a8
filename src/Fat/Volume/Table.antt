-- ===== src/Fat/Volume/Table.antt =====
-- The file allocation table and the reading of files in filesystems/fat/src/main.rs.
use deravel_os.Prelude.{
  ℕ, zero, suc, ◌+◌, ◌-◌, ◌*◌, ◌/◌, ◌%◌, ◌<◌, ◌≡◌, refl, ap, ◌∙◌, sym, List, [], ◌∷◌, length,
  get_elem?, take, replicate, length-append, some, done, arith, >>=-eq-done, done-injective,
}
use deravel_os.Fat.Bpb.{Bpb, FatType, fat12}
use deravel_os.Fat.Volume.{read_fat_entry, read_file, read_clusters, resize, Drive}

-- The two 12-bit entries that a FAT12 table packs into three bytes are both read back.
pub read_fat_entry-fat12 :
    (fat : List ℕ) (k x y : ℕ)
    → x < 4096
    → y < 4096
    → get_elem? fat (3 * k) ≡ some (x % 256)
    → get_elem? fat (3 * k + 1) ≡ some (x / 256 + y % 16 * 16)
    → get_elem? fat (3 * k + 2) ≡ some (y / 16)
    → (read_fat_entry fat12 fat (2 * k) ≡ done x) × (read_fat_entry fat12 fat (2 * k + 1) ≡ done y)
unfolding read_fat_entry
read_fat_entry-fat12 fat k x y hx hy a b c =
    let i : 2 * k + 2 * k / 2 ≡ 3 * k = omega arith in
    let j : 2 * k + 1 + (2 * k + 1) / 2 ≡ 3 * k + 1 = omega arith in
    let j' : 3 * k + 1 + 1 ≡ 3 * k + 2 = omega arith in
    (rw (i, a, b) (ground arith), rw (j, j', b, c) (ground arith))

length-take_le : (n : ℕ) (xs : List ℕ) → length (take n xs) + (n - length xs) ≡ n
length-take_le zero xs = omega arith
length-take_le (suc n) [] = omega arith
length-take_le (suc n) (x ∷ xs) = omega (arith, length-take_le n xs)

length-replicate : (n v : ℕ) → length (replicate n v) ≡ n
length-replicate zero v = refl
length-replicate (suc n) v = ap suc (length-replicate n v)

length-resize : (bytes : List ℕ) (n : ℕ) → length (resize bytes n) ≡ n
length-resize bytes n = omega (
  arith,
  length-append (take n bytes) (replicate (n - length bytes) 0),
  length-replicate (n - length bytes) 0,
  length-take_le n bytes,
)

-- A file that is read to a size has that size, however long its chain of clusters is.
pub length-read_file :
    (fuel : ℕ) (t : FatType) (b : Bpb) (fat : List ℕ) (drive : Drive) (cluster n : ℕ)
    (bytes : List ℕ)
    → read_file fuel t b fat drive cluster (some n) ≡ done bytes
    → length bytes ≡ n
unfolding read_file
length-read_file fuel t b fat drive cluster n bytes h =
    let (raw, e, h') = >>=-eq-done (read_clusters fuel t b fat drive cluster (some n) []) _ h in
    ap length (sym (done-injective h')) ∙ length-resize raw n
