-- ===== src/Memory.antt =====
-- types/src/memory.rs and types/src/align.rs: the address space.
use deravel_os.Prelude.{ℕ, ◌*◌, ◌/◌}

abbrev pub page_size : ℕ
page_size = 4096

abbrev pub page_table_entry_count : ℕ
page_table_entry_count = 512

abbrev pub level_1_page_size : ℕ
level_1_page_size = page_table_entry_count * page_size

abbrev pub level_2_page_size : ℕ
level_2_page_size = page_table_entry_count * level_1_page_size

abbrev pub cache_line_size : ℕ
cache_line_size = 64

abbrev pub virtual_end : ℕ
virtual_end = page_table_entry_count * level_2_page_size

abbrev pub physical_end : ℕ
physical_end = virtual_end / 2

abbrev pub direct_mapping_start : ℕ
direct_mapping_start = virtual_end / 2

abbrev pub user_capabilities_start : ℕ
user_capabilities_start = 0x200_0000

abbrev pub user_capabilities_end : ℕ
user_capabilities_end = 0x400_0000

abbrev pub user_heap_start : ℕ
user_heap_start = 0x400_0000

-- types/src/lib.rs
abbrev pub max_processes : ℕ
max_processes = 8
