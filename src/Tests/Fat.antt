-- ===== src/Tests/Fat.antt =====
-- The theorems on the volumes of filesystems/fat, at a small FAT12 volume.
use deravel_os.Prelude.{
  ℕ, ◌+◌, ◌-◌, ◌*◌, ◌/◌, ◌≤◌, ◌<◌, ◌≡◌, refl, List, [], ◌∷◌, none, some, done, arith,
}
use deravel_os.Fat.Bpb.{Bpb, fat12, fat16, type_clusters, tot_sec}
use deravel_os.Fat.Volume.{
  Sectors, fat_sectors, root_directory_sectors, data_sectors, count_of_clusters, sector_of_cluster,
  read_fat_entry,
}
use deravel_os.Fat.Volume.Layout.{
  sector_of_cluster_lem, sector_of_cluster_injective, type_clusters_excess,
}
use deravel_os.Fat.Volume.Table.{read_fat_entry-fat12}
use deravel_os.Fat.Directory.{
  DirectoryEntry, try_as_first_long, copy_long, compute_checksum, postprocess_units,
  is_valid_long_char, from_utf16, next_entry,
}
use deravel_os.Fat.Directory.Laws.{next_entry-repeats}

-- One reserved sector, one table of one sector, one sector of root directory, and 7 clusters.
abbrev small_volume : Bpb
small_volume = record {
  jmp_0 = 0xEB;
  jmp_2 = 0x90;
  byts_per_sec = 512;
  sec_per_clus = 1;
  rsvd_sec_cnt = 1;
  num_fats = 1;
  root_ent_cnt = 16;
  tot_sec_16 = 10;
  media = 0xF8;
  fat_sz_16 = 1;
  tot_sec_32 = 0;
  fat_sz_32 = 0;
  root_clus = 0;
}

abbrev data_region : Sectors
data_region = record { start = 3; stop = 10 }

data_region_eq : data_sectors fat12 small_volume ≡ done data_region
unfolding data_sectors root_directory_sectors fat_sectors
data_region_eq = refl

seven_clusters : count_of_clusters fat12 small_volume ≡ done 7
unfolding count_of_clusters data_sectors root_directory_sectors fat_sectors
seven_clusters = refl

sector_of_cluster_lem_example :
    (q : ℕ) × (sector_of_cluster fat12 small_volume 8 0 ≡ done q)
    × (q ≡ 3 + (8 - 2) * 1 + 0)
    × (3 ≤ q)
    × (q < 10)
sector_of_cluster_lem_example =
    sector_of_cluster_lem fat12 small_volume data_region 7 8 0 data_region_eq seven_clusters
      (omega arith) (omega arith) (omega arith) (omega arith)

cluster_4 : sector_of_cluster fat12 small_volume 4 0 ≡ done 5
unfolding sector_of_cluster data_sectors root_directory_sectors fat_sectors
cluster_4 = refl

sector_of_cluster_injective_example : (◌≡◌ {A = ℕ} 4 4) × (◌≡◌ {A = ℕ} 0 0)
sector_of_cluster_injective_example =
    sector_of_cluster_injective fat12 small_volume data_region 7 4 4 0 0 5 data_region_eq
      seven_clusters (omega arith) (omega arith) (omega arith) (omega arith) (omega arith)
      (omega arith) (omega arith) cluster_4 cluster_4

data_region_16 : data_sectors fat16 small_volume ≡ done data_region
unfolding data_sectors root_directory_sectors fat_sectors
data_region_16 = refl

clusters_16 : count_of_clusters fat16 small_volume ≡ done 7
unfolding count_of_clusters data_sectors root_directory_sectors fat_sectors
clusters_16 = refl

nine_clusters : type_clusters small_volume ≡ done 9
unfolding type_clusters
nine_clusters = refl

type_clusters_excess_example :
    (7 ≡ (tot_sec small_volume - 3) / 1)
    × (9 ≡ (tot_sec small_volume - 3 + 2 * (16 * 32 / 512)) / 1)
type_clusters_excess_example =
    type_clusters_excess fat16 small_volume data_region 9 7 (λ h. cc h) (λ h. absurd (omega arith))
      refl data_region_16 clusters_16 nine_clusters

abbrev packed : List ℕ
packed = 0xF8 ∷ 0xFF ∷ 0xFF ∷ 0x03 ∷ 0x40 ∷ 0x00 ∷ []

read_fat_entry-fat12_example :
    (read_fat_entry fat12 packed 2 ≡ done 3) × (read_fat_entry fat12 packed 3 ≡ done 4)
read_fat_entry-fat12_example =
    read_fat_entry-fat12 packed 1 3 4 (omega arith) (omega arith) refl refl refl

-- `a`, with the short name `A`.
abbrev long_entry : DirectoryEntry
long_entry =
    65 ∷ 97 ∷ 0 ∷ 0 ∷ 0 ∷ 255 ∷ 255 ∷ 255 ∷ 255 ∷ 255 ∷ 255 ∷ 15 ∷ 0 ∷ 128 ∷ 255 ∷ 255 ∷ 255 ∷ 255
    ∷ 255 ∷ 255 ∷ 255 ∷ 255 ∷ 255 ∷ 255 ∷ 255 ∷ 255 ∷ 0 ∷ 0 ∷ 255 ∷ 255 ∷ 255 ∷ 255 ∷ []

abbrev short_entry : DirectoryEntry
short_entry =
    65 ∷ 32 ∷ 32 ∷ 32 ∷ 32 ∷ 32 ∷ 32 ∷ 32 ∷ 32 ∷ 32 ∷ 32 ∷ 32 ∷ 0 ∷ 0 ∷ 0 ∷ 0 ∷ 0 ∷ 0 ∷ 0 ∷ 0 ∷ 0
    ∷ 0 ∷ 0 ∷ 0 ∷ 0 ∷ 0 ∷ 0 ∷ 0 ∷ 5 ∷ 0 ∷ 0 ∷ 0 ∷ []

named :
    next_entry (long_entry ∷ short_entry ∷ [])
    ≡ done ((short_entry, some (0x61 ∷ [])), short_entry ∷ [])
unfolding next_entry try_as_first_long copy_long compute_checksum postprocess_units
    is_valid_long_char from_utf16
named = refl

next_entry-repeats_example :
    (rest : List DirectoryEntry) × ((short_entry ∷ []) ≡ short_entry ∷ rest)
    × (next_entry (short_entry ∷ []) ≡ done ((short_entry, none), rest))
next_entry-repeats_example =
    next_entry-repeats (long_entry ∷ short_entry ∷ []) (short_entry ∷ []) short_entry (0x61 ∷ [])
      named refl
