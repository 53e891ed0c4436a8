-- ===== src/Page/Table/Translate.antt =====
-- What the hardware reads in the tables of kernel/src/page/table.rs, and the shape of the tables.
use deravel_os.Prelude.{
  ℕ, zero, suc, ◌+◌, ◌%◌, ◌<◌, ◌≡◌, ◌==◌, if◌then◌else◌, true, Option, none, some,
}
use deravel_os.Memory.{page_table_entry_count}
use deravel_os.Page.Entry.{PageFlags}
use deravel_os.Page.Table.{
  Entry, invalid, indirect, leaf, PageTable, vpn_segment, level_page_size, entry_is_valid,
}

-- The walk of Sv39. A leaf whose physical address is not aligned to its size faults.
abbrev pub translate_entry : ℕ → Entry → ℕ → Option (ℕ × PageFlags)
translate_entry level invalid virt = none
translate_entry level (leaf phys flags) virt =
    if phys % level_page_size level == 0
    then some (phys + virt % level_page_size level, flags)
    else none
translate_entry zero (indirect t) virt = none
translate_entry (suc level) (indirect t) virt =
    translate_entry level (t (vpn_segment virt level)) virt

abbrev pub translate_from : ℕ → PageTable → ℕ → Option (ℕ × PageFlags)
translate_from level t virt = translate_entry level (t (vpn_segment virt level)) virt

abbrev pub translate : PageTable → ℕ → Option (ℕ × PageFlags)
translate t virt = translate_from 2 t virt

-- Leaves are aligned, level 0 has no tables below, and no table below another is empty.
abbrev pub EntryIsValid : ℕ → Entry → Type 0
EntryIsValid level invalid = Unit
EntryIsValid level (leaf phys flags) = phys % level_page_size level ≡ 0
EntryIsValid zero (indirect t) = ⊥
EntryIsValid (suc level) (indirect t) =
    ((i : ℕ) → EntryIsValid level (t i))
    × ((i : ℕ) × (i < page_table_entry_count) × (entry_is_valid (t i) ≡ true))

abbrev pub IsValid : ℕ → PageTable → Type 0
IsValid level t = (i : ℕ) → EntryIsValid level (t i)
