-- ===== src/Tests/Page.antt =====
-- The theorems on the page tables of kernel/src/page.
use deravel_os.Prelude.{ℕ, ◌+◌, ◌-◌, ◌*◌, ◌^◌, ◌≤◌, ◌<◌, ◌≡◌, ◌⊎◌, none, some, done, refl, arith}
use deravel_os.Memory.{page_size, physical_end, virtual_end}
use deravel_os.Page.Direct.{phys_to_virt, virt_to_phys, virt_to_phys-phys_to_virt}
use deravel_os.Page.Entry.{read_write, leaf, unpack, leaf_of, unpack-leaf}
use deravel_os.Page.Table.{PageTable, new, map}
use deravel_os.Page.Table.Translate.{translate, IsValid}
use deravel_os.Page.Table.Total.{map_lem}

virt_to_phys-phys_to_virt_example :
    (virt : ℕ) × (phys_to_virt 0x8020_0000 ≡ done virt)
    × (2 ^ 64 - physical_end ≤ virt)
    × (virt < 2 ^ 64)
    × (virt_to_phys virt ≡ done 0x8020_0000)
virt_to_phys-phys_to_virt_example = virt_to_phys-phys_to_virt 0x8020_0000 (omega arith)

unpack-leaf_example :
    unpack (leaf (0x8_0200 * page_size) (2 * 3 + 16 * 1))
    ≡ done (leaf_of (2 * 3 + 16 * 1) (0x8_0200 * page_size))
unpack-leaf_example = unpack-leaf 0x8_0200 3 1 (omega arith) (omega arith) (omega arith)

new-IsValid : IsValid 2 new
unfolding new
new-IsValid i = tt

new_unmapped : (v : ℕ) → translate new v ≡ none
unfolding new
new_unmapped v = refl

-- Four megabytes from an address that is aligned to 2 MiB, on physical memory that is not.
map_lem_example :
    (t' : PageTable) × (map new 0x4020_0000 0x8000_1000 0x40_0000 read_write ≡ done t')
    × IsValid 2 t'
    × ((v : ℕ)
        → 0x4020_0000 ≤ v
        → v < 0x4020_0000 + 0x40_0000
        → translate t' v ≡ some (0x8000_1000 + (v - 0x4020_0000), read_write))
    × ((v : ℕ)
        → v < virtual_end
        → (v < 0x4020_0000) ⊎ (0x4020_0000 + 0x40_0000 ≤ v)
        → translate t' v ≡ translate new v)
map_lem_example =
    map_lem new 0x4020_0000 0x8000_1000 0x40_0000 read_write new-IsValid (omega arith) (omega arith)
      (omega arith) (omega arith) (omega arith) (omega arith) (omega arith)
      (λ v l h. new_unmapped v)
