-- ===== src/Fat/Bpb.antt =====
-- filesystems/fat/src/bpb.rs: the BIOS parameter block and the type of a volume.
use deravel_os.Prelude.{
  ℕ, ◌+◌, ◌-◌, ◌*◌, ◌/◌, ◌%◌, ltb, leb, ◌==◌, if◌then◌else◌, Bool, not, ◌&&◌, ◌||◌, Exec, done,
  panic, ◌>>=◌, ◌>>◌, assert, add_u32, mul_u32, sub_usize, div_checked,
}

pub data FatType : Type 0 where
  fat12 fat16 fat32 : FatType

-- `BpbCommon`, and of the extended blocks the fields that the code reads. They overlay the same
-- bytes, so `fat_sz_32` and `root_clus` mean something on FAT32 volumes only.
pub record Bpb : Type 0 where
  pub jmp_0 : ℕ
  pub jmp_2 : ℕ
  pub byts_per_sec : ℕ
  pub sec_per_clus : ℕ
  pub rsvd_sec_cnt : ℕ
  pub num_fats : ℕ
  pub root_ent_cnt : ℕ
  pub tot_sec_16 : ℕ
  pub media : ℕ
  pub fat_sz_16 : ℕ
  pub tot_sec_32 : ℕ
  pub fat_sz_32 : ℕ
  pub root_clus : ℕ

abbrev pub is_power_of_two : ℕ → Bool
is_power_of_two n =
    n == 1 || n == 2 || n == 4 || n == 8 || n == 16 || n == 32 || n == 64 || n == 128

-- The assertions that depend on the type.
unfoldable pub validate_type : Bpb → FatType → Exec (Unit {0})
validate_type b fat32 = do
  assert (b.root_ent_cnt == 0)
  assert (b.tot_sec_16 == 0)
  assert (not (b.tot_sec_32 == 0))
  assert (b.media == 0xF0 || (leb 0xF8 b.media && leb b.media 0xFF))
  assert (b.fat_sz_16 == 0)
validate_type b _ = do
  assert (b.root_ent_cnt * 32 % b.byts_per_sec == 0)
  assert (if b.tot_sec_16 == 0 then leb 0x10000 b.tot_sec_32 else b.tot_sec_32 == 0)
  assert (b.media == 0xF0 || (leb 0xF8 b.media && leb b.media 0xFF))

unfoldable pub validate_bpb : Bpb → FatType → Exec (Unit {0})
unfolding validate_type
validate_bpb b t = do
  assert (b.jmp_0 == 0xEB && b.jmp_2 == 0x90 || b.jmp_0 == 0xE9)
  assert (
      b.byts_per_sec == 512
      || b.byts_per_sec == 1024
      || b.byts_per_sec == 2048
      || b.byts_per_sec == 4096)
  assert (is_power_of_two b.sec_per_clus)
  assert (not (b.rsvd_sec_cnt == 0))
  validate_type b t

abbrev pub fat_sz : Bpb → ℕ
fat_sz b = if b.fat_sz_16 == 0 then b.fat_sz_32 else b.fat_sz_16

abbrev pub tot_sec : Bpb → ℕ
tot_sec b = if b.tot_sec_16 == 0 then b.tot_sec_32 else b.tot_sec_16

-- The sectors of the root directory, rounded up; `div_ceil` panics at 0.
unfoldable pub root_dir_sectors : Bpb → Exec ℕ
root_dir_sectors b =
    if ltb 0 b.byts_per_sec
    then done ((b.root_ent_cnt * 32 + b.byts_per_sec - 1) / b.byts_per_sec)
    else panic

-- The count of clusters that decides the type, as the code has it: the sectors of the root
-- directory are added.
unfoldable pub type_clusters : Bpb → Exec ℕ
unfolding root_dir_sectors
type_clusters b = do
  root ← root_dir_sectors b
  fats ← mul_u32 b.num_fats (fat_sz b)
  before ← add_u32 b.rsvd_sec_cnt fats
  rest ← sub_usize (tot_sec b) before
  data_sec ← add_u32 rest root
  div_checked data_sec b.sec_per_clus

abbrev pub type_of_clusters : ℕ → FatType
type_of_clusters n = if ltb n 4085 then fat12 else if ltb n 65525 then fat16 else fat32

unfoldable pub determine_type : Bpb → Exec FatType
determine_type b = do
  n ← type_clusters b
  validate_bpb b (type_of_clusters n)
  done (type_of_clusters n)
