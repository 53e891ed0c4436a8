-- ===== src/Fat/Volume.antt =====
-- filesystems/fat/src/main.rs: where the parts of a volume lie, the file allocation table, and
-- the reading of files.
pub mod Layout
pub mod Table
use deravel_os.Prelude.{
  ℕ, zero, suc, ◌+◌, ◌-◌, ◌*◌, ◌/◌, ◌%◌, ◌^◌, ltb, leb, ◌==◌, if◌then◌else◌, Bool, true, false,
  ◌&&◌, ◌||◌, List, [], ◌∷◌, ◌++◌, length, get_elem?, take, replicate, Option, none, some, Exec,
  done, panic, diverge, ◌>>=◌, ◌>>◌, assert, unwrap, add_u32, mul_u32, sub_usize, div_checked,
}
use deravel_os.Fat.Bpb.{Bpb, FatType, fat12, fat16, fat32}

abbrev pub disk_sector_size : ℕ
disk_sector_size = 512

-- A range of sectors.
pub record Sectors : Type 0 where
  pub start : ℕ
  pub stop : ℕ

abbrev pub single_size : FatType → Bpb → ℕ
single_size fat32 b = b.fat_sz_32
single_size _ b = b.fat_sz_16

unfoldable pub fat_sectors : FatType → Bpb → Exec Sectors
fat_sectors t b = do
  total_size ← mul_u32 b.num_fats (single_size t b)
  stop ← add_u32 b.rsvd_sec_cnt total_size
  done (record { start = b.rsvd_sec_cnt; stop = stop })

unfoldable pub root_directory_sectors : FatType → Bpb → Exec Sectors
root_directory_sectors t b = do
  fats ← fat_sectors t b
  size ← div_checked (b.root_ent_cnt * 32) b.byts_per_sec
  stop ← add_u32 fats.stop size
  done (record { start = fats.stop; stop = stop })

abbrev pub total_sectors_count : FatType → Bpb → ℕ
total_sectors_count fat32 b = b.tot_sec_32
total_sectors_count _ b = if b.tot_sec_16 == 0 then b.tot_sec_32 else b.tot_sec_16

unfoldable pub data_sectors : FatType → Bpb → Exec Sectors
data_sectors t b = do
  root ← root_directory_sectors t b
  done (record { start = root.stop; stop = total_sectors_count t b })

unfoldable pub count_of_clusters : FatType → Bpb → Exec ℕ
count_of_clusters t b = do
  region ← data_sectors t b
  size ← sub_usize (total_sectors_count t b) region.start
  div_checked size b.sec_per_clus

unfoldable pub max_cluster : FatType → Bpb → Exec ℕ
max_cluster t b = do count ← count_of_clusters t b; add_u32 count 1

-- The `i`-th sector of a cluster, `i` below `sec_per_clus`.
unfoldable pub sector_of_cluster : FatType → Bpb → ℕ → ℕ → Exec ℕ
sector_of_cluster t b cluster i = do
  region ← data_sectors t b
  index ← sub_usize cluster 2
  offset ← mul_u32 index b.sec_per_clus
  first ← add_u32 region.start offset
  add_u32 first i

-- A sector in sectors of the disk, which are `u64`: `n` of them from the `i`-th on.
unfoldable pub disk_sectors_from : ℕ → ℕ → ℕ → ℕ → List ℕ
disk_sectors_from ratio sector i zero = []
disk_sectors_from ratio sector i (suc n) =
    (ratio * sector + i) ∷ disk_sectors_from ratio sector (i + 1) n

unfoldable pub drive_sectors_of_sector : Bpb → ℕ → List ℕ
unfolding disk_sectors_from
drive_sectors_of_sector b sector =
    let ratio = b.byts_per_sec / disk_sector_size in disk_sectors_from ratio sector 0 ratio

-- Little-endian words of the table; reading out of range panics.
unfoldable pub word_16 : List ℕ → ℕ → Exec ℕ
word_16 fat at = do
  lo ← unwrap (get_elem? fat at)
  hi ← unwrap (get_elem? fat (at + 1))
  done (lo + hi * 256)

unfoldable pub read_fat_entry : FatType → List ℕ → ℕ → Exec ℕ
unfolding word_16
read_fat_entry fat12 fat cluster = do
  value ← word_16 fat (cluster + cluster / 2)
  done (if cluster % 2 == 0 then value % 4096 else value / 16)
read_fat_entry fat16 fat cluster = word_16 fat (2 * cluster)
read_fat_entry fat32 fat cluster = do
  lo ← word_16 fat (4 * cluster)
  hi ← word_16 fat (4 * cluster + 2)
  done (lo + hi * 2 ^ 16)

abbrev pub end_of_chain : FatType → ℕ → Bool
end_of_chain fat12 e = leb 0xFF8 e && leb e 0xFFF
end_of_chain fat16 e = leb 0xFFF8 e && leb e 0xFFFF
end_of_chain fat32 e = leb 0xFFF_FFF8 e && leb e 0xFFF_FFFF

-- What follows a cluster: the next one, or `none` at the end; any other entry panics. The high
-- four bits of an entry do not count.
unfoldable pub next_cluster : FatType → Bpb → List ℕ → ℕ → Exec (Option ℕ)
next_cluster t b fat cluster = do
  entry ← read_fat_entry t fat cluster
  last ← max_cluster t b
  let e = entry % 2 ^ 28
  if leb 2 e && leb e last then done (some e) else if end_of_chain t e then done none else panic

-- `Drive::read`, of a disk sector.
abbrev pub Drive : Type 0
Drive = ℕ → List ℕ

-- The bytes of disk sectors, until there are `size`; the flag says whether there were.
unfoldable pub read_disk : Drive → List ℕ → Option ℕ → List ℕ → List ℕ × Bool
read_disk drive [] size bytes = (bytes, false)
read_disk drive (s ∷ rest) size bytes =
    let bytes' = bytes ++ drive s in
    let more = read_disk drive rest size bytes' in
    elim size [ none ↦ more | some n ↦ if leb n (length bytes') then (bytes', true) else more ]

-- The sectors of a cluster from the `i`-th on, `n` of them.
unfoldable pub read_cluster :
    FatType → Bpb → Drive → ℕ → Option ℕ → ℕ → ℕ → List ℕ → Exec (List ℕ × Bool)
unfolding read_disk sector_of_cluster
read_cluster t b drive cluster size i zero bytes = done (bytes, false)
read_cluster t b drive cluster size i (suc n) bytes = do
  sector ← sector_of_cluster t b cluster i
  let (bytes', full) = read_disk drive (drive_sectors_of_sector b sector) size bytes
  elim full [
    | true ↦ done (bytes', true)
    | false ↦ read_cluster t b drive cluster size (i + 1) n bytes'
  ]

-- The walk over the clusters of a file; `fuel` bounds their number. `successors` looks up what
-- follows a cluster before it gives the cluster out.
unfoldable pub read_clusters :
    ℕ → FatType → Bpb → List ℕ → Drive → ℕ → Option ℕ → List ℕ → Exec (List ℕ)
unfolding read_cluster
read_clusters zero t b fat drive cluster size bytes = diverge
read_clusters (suc f) t b fat drive cluster size bytes = do
  following ← next_cluster t b fat cluster
  (bytes', full) ← read_cluster t b drive cluster size 0 b.sec_per_clus bytes
  elim full [
    | true ↦ done bytes'
    | false ↦ elim following [
      | none ↦ done bytes'
      | some c ↦ read_clusters f t b fat drive c size bytes'
    ]
  ]

-- `Vec::resize`, with zeros.
abbrev pub resize : List ℕ → ℕ → List ℕ
resize bytes n = take n bytes ++ replicate (n - length bytes) 0

unfoldable pub read_file : ℕ → FatType → Bpb → List ℕ → Drive → ℕ → Option ℕ → Exec (List ℕ)
unfolding read_clusters
read_file fuel t b fat drive cluster size = do
  bytes ← read_clusters fuel t b fat drive cluster size []
  elim size [ none ↦ done bytes | some n ↦ done (resize bytes n) ]
