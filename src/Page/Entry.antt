-- ===== src/Page/Entry.antt =====
-- kernel/src/page/entry.rs: entries of page tables as words.
use deravel_os.Prelude.{
  ℕ, ◌+◌, ◌*◌, ◌/◌, ◌%◌, ◌<◌, ◌==◌, if◌then◌else◌, Bool, not, ◌&&◌, Exec, done, ◌>>=◌, ◌≡◌, arith,
}
use deravel_os.Memory.{page_size}
use deravel_os.Page.Direct.{phys_to_virt, virt_to_phys}

-- The bits R, W, X and U of an entry.
abbrev pub PageFlags : Type 0
PageFlags = ℕ

unfoldable pub readonly : PageFlags
readonly = 2

unfoldable pub read_write : PageFlags
read_write = 2 + 4

unfoldable pub executable : PageFlags
executable = 2 + 8

unfoldable pub read_write_execute : PageFlags
read_write_execute = 2 + 4 + 8

-- `| PAGE_U`
unfoldable pub user : PageFlags → PageFlags
user flags = if flags / 16 % 2 == 0 then flags + 16 else flags

unfoldable pub is_writable : PageFlags → Bool
is_writable flags = not (flags / 4 % 2 == 0)

abbrev pub PageTableEntry : Type 0
PageTableEntry = ℕ

unfoldable pub is_valid : PageTableEntry → Bool
is_valid e = not (e % 2 == 0)

unfoldable pub is_indirect : PageTableEntry → Bool
unfolding is_valid
is_indirect e = is_valid e && e / 2 % 8 == 0

unfoldable pub physical_page_pointer : PageTableEntry → ℕ
physical_page_pointer e = e / 1024 * page_size

-- A word from the page number and bits below 2^10, so that the `|` of the source is a sum.
unfoldable pub leaf : ℕ → PageFlags → PageTableEntry
leaf phys flags = phys / page_size * 1024 + 1 + flags

-- `table` is the virtual address of the box.
unfoldable pub indirect : ℕ → Exec PageTableEntry
indirect table = do phys ← virt_to_phys table; done (phys / page_size * 1024 + 1)

-- An indirect entry leads to the virtual address of a table.
pub data PageTableEntryUnpacked : Type 0 where
  invalid : PageTableEntryUnpacked
  indirect_to : ℕ → PageTableEntryUnpacked
  leaf_of : PageFlags → ℕ → PageTableEntryUnpacked

unfoldable pub unpack : PageTableEntry → Exec PageTableEntryUnpacked
unfolding is_valid is_indirect physical_page_pointer
unpack e =
    if not (is_valid e)
    then done invalid
    else if is_indirect e
    then (do table ← phys_to_virt (physical_page_pointer e); done (indirect_to table))
    else done (leaf_of (e % 256 / 2 * 2) (physical_page_pointer e))

-- A leaf entry of a page table is read back as the flags and the page that it was made from.
pub unpack-leaf :
    (page rwx u : ℕ)
    → 0 < rwx
    → rwx < 8
    → u < 2
    → unpack (leaf (page * page_size) (2 * rwx + 16 * u))
      ≡ done (leaf_of (2 * rwx + 16 * u) (page * page_size))
unfolding unpack leaf
unpack-leaf page rwx u a b c = ground arith
