-- ===== src/Fat/Volume/Layout.antt =====
-- The sectors of clusters in filesystems/fat/src/main.rs, and the count of clusters that decides
-- the type in filesystems/fat/src/bpb.rs.
use deravel_os.Prelude.{
  ℕ, ◌+◌, ◌-◌, ◌*◌, ◌/◌, ◌%◌, ◌≤◌, ◌<◌, ◌≡◌, refl, ap, ◌∙◌, sym, done, arith, done-injective,
  lt→ltb, le→leb, u32_mod, inl, inr, lt_cases, ne→==, ◌≢◌,
}
use native.Mathlib.Nat.{div-add-mod, mod-lt}
use deravel_os.Fat.Bpb.{Bpb, FatType, fat12, fat16, fat32, type_clusters, tot_sec, fat_sz}
use deravel_os.Fat.Volume.{
  Sectors, data_sectors, count_of_clusters, sector_of_cluster, total_sectors_count, fat_sectors,
  root_directory_sectors,
}

-- The count, from the region of data.
count_lem :
    (t : FatType) (b : Bpb) (region : Sectors) (n : ℕ)
    → data_sectors t b ≡ done region
    → count_of_clusters t b ≡ done n
    → (0 < b.sec_per_clus)
      × (region.start ≤ total_sectors_count t b)
      × (n ≡ (total_sectors_count t b - region.start) / b.sec_per_clus)
unfolding count_of_clusters
count_lem t b region n e h = let h' = rw e at h in ground arith

inside_region :
    (spc size n index i : ℕ)
    → 0 < spc
    → n ≡ size / spc
    → index < n
    → i < spc
    → index * spc + i < size
inside_region spc size n index i pos e h l = grind (arith, div-add-mod size spc)

sector_eq :
    (t : FatType) (b : Bpb) (region : Sectors) (c i : ℕ)
    → data_sectors t b ≡ done region
    → 2 ≤ c
    → region.start + (c - 2) * b.sec_per_clus + i < u32_mod
    → sector_of_cluster t b c i ≡ done (region.start + (c - 2) * b.sec_per_clus + i)
unfolding sector_of_cluster
sector_eq t b region c i e h s =
    rw
      (
        e,
        le→leb 2 c h,
        lt→ltb ((c - 2) * b.sec_per_clus) u32_mod (omega arith),
        lt→ltb (region.start + (c - 2) * b.sec_per_clus) u32_mod (omega arith),
        lt→ltb _ _ s,
      )
      refl

-- Every sector of every cluster of a volume of less than 2^32 sectors lies in the region of data,
-- and its computation does not overflow.
pub sector_of_cluster_lem :
    (t : FatType) (b : Bpb) (region : Sectors) (n c i : ℕ)
    → data_sectors t b ≡ done region
    → count_of_clusters t b ≡ done n
    → total_sectors_count t b < u32_mod
    → 2 ≤ c
    → c ≤ n + 1
    → i < b.sec_per_clus
    → (q : ℕ) × (sector_of_cluster t b c i ≡ done q)
      × (q ≡ region.start + (c - 2) * b.sec_per_clus + i)
      × (region.start ≤ q)
      × (q < total_sectors_count t b)
sector_of_cluster_lem t b region n c i e f small lo hi l =
    let (pos, le, en) = count_lem t b region n e f in
    let inside =
      inside_region b.sec_per_clus (total_sectors_count t b - region.start) n (c - 2) i pos en
        (omega arith) l in
    (
      region.start + (c - 2) * b.sec_per_clus + i,
      sector_eq t b region c i e lo (omega arith),
      refl,
      omega arith,
      omega arith,
    )

ahead : (s x y i j : ℕ) → i < s → x < y → x * s + i < y * s + j
ahead s x y i j l h = grind arith

same_cluster :
    (s c c' i i' : ℕ)
    → i < s
    → i' < s
    → 2 ≤ c
    → 2 ≤ c'
    → (c - 2) * s + i ≡ (c' - 2) * s + i'
    → (c ≡ c') × (i ≡ i')
same_cluster s c c' i i' l l' lo lo' e = elim (lt_cases c c') [
  | inl lt ↦ absurd (omega (arith, ahead s (c - 2) (c' - 2) i i' l (omega arith)))
  | inr ge ↦ elim (lt_cases c' c) [
    | inl gt ↦ absurd (omega (arith, ahead s (c' - 2) (c - 2) i' i l' (omega arith)))
    | inr le ↦ let q : c ≡ c' = omega arith in (q, equal_rest s c c' i i' q e)
  ]
]
  where
    equal_rest : (s c c' i i' : ℕ) → c ≡ c' → (c - 2) * s + i ≡ (c' - 2) * s + i' → i ≡ i'
    equal_rest s c c' i i' q e = let e' = rw q at e in omega arith

-- Different clusters of a volume, and different sectors of one cluster, never share a sector.
pub sector_of_cluster_injective :
    (t : FatType) (b : Bpb) (region : Sectors) (n c c' i i' q : ℕ)
    → data_sectors t b ≡ done region
    → count_of_clusters t b ≡ done n
    → total_sectors_count t b < u32_mod
    → 2 ≤ c
    → c ≤ n + 1
    → 2 ≤ c'
    → c' ≤ n + 1
    → i < b.sec_per_clus
    → i' < b.sec_per_clus
    → sector_of_cluster t b c i ≡ done q
    → sector_of_cluster t b c' i' ≡ done q
    → (c ≡ c') × (i ≡ i')
sector_of_cluster_injective t b region n c c' i i' q e f small lo hi lo' hi' l l' h h' =
    let (p, a, ea, _, _) = sector_of_cluster_lem t b region n c i e f small lo hi l in
    let (p', a', ea', _, _) = sector_of_cluster_lem t b region n c' i' e f small lo' hi' l' in
    let ep : p ≡ q = done-injective (sym a ∙ h) in
    let ep' : p' ≡ q = done-injective (sym a' ∙ h') in
    same_cluster b.sec_per_clus c c' i i' l l' lo lo' (omega arith)

region_lem :
    (t : FatType) (b : Bpb) (region : Sectors)
    → t ≢ fat32
    → data_sectors t b ≡ done region
    → (0 < b.byts_per_sec)
      × (region.start
          ≡ b.rsvd_sec_cnt + b.num_fats * b.fat_sz_16 + b.root_ent_cnt * 32 / b.byts_per_sec)
unfolding data_sectors root_directory_sectors fat_sectors
region_lem fat12 b region ne e = ground arith
region_lem fat16 b region ne e = ground arith
region_lem fat32 b region ne e = absurd (ne refl)

total_lem : (t : FatType) (b : Bpb) → t ≢ fat32 → total_sectors_count t b ≡ tot_sec b
total_lem fat12 b ne = refl
total_lem fat16 b ne = refl
total_lem fat32 b ne = absurd (ne refl)

type_lem :
    (b : Bpb) (m : ℕ)
    → type_clusters b ≡ done m
    → (b.rsvd_sec_cnt + b.num_fats * fat_sz b ≤ tot_sec b)
      × (m
          ≡ (tot_sec b
              - (b.rsvd_sec_cnt + b.num_fats * fat_sz b)
              + (b.root_ent_cnt * 32 + b.byts_per_sec - 1) / b.byts_per_sec)
            / b.sec_per_clus)
unfolding type_clusters
type_lem b m e = ground arith

exact_ceil : (x y : ℕ) → 0 < y → x % y ≡ 0 → (x + y - 1) / y ≡ x / y
exact_ceil x y pos e =
    grind (arith, div-add-mod x y, div-add-mod (x + y - 1) y, mod-lt (x + y - 1) pos)

-- On a FAT12 or FAT16 volume that tells the size of its table in 16 bits and whose root directory
-- fills its sectors, if both counts are computed, the count that decides the type takes twice the
-- sectors of the root directory for data that count_of_clusters does not.
pub type_clusters_excess :
    (t : FatType) (b : Bpb) (region : Sectors) (m n : ℕ)
    → t ≢ fat32
    → b.fat_sz_16 ≢ 0
    → b.root_ent_cnt * 32 % b.byts_per_sec ≡ 0
    → data_sectors t b ≡ done region
    → count_of_clusters t b ≡ done n
    → type_clusters b ≡ done m
    → (n ≡ (tot_sec b - region.start) / b.sec_per_clus)
      × (m
          ≡ (tot_sec b - region.start + 2 * (b.root_ent_cnt * 32 / b.byts_per_sec))
            / b.sec_per_clus)
type_clusters_excess t b region m n ne w mult e f h =
    let (pos, le, en) = count_lem t b region n e f in
    let (bps, at) = region_lem t b region ne e in
    let (fits, em) = type_lem b m h in
    let total = total_lem t b ne in
    let size : fat_sz b ≡ b.fat_sz_16 = rw (ne→== _ _ w) refl in
    let le' : region.start ≤ tot_sec b = rw total at le in
    (
      rw total at en,
      em
          ∙ ap (λ k. k / b.sec_per_clus)
              (rw (size, exact_ceil (b.root_ent_cnt * 32) b.byts_per_sec bps mult) (omega arith)),
    )
