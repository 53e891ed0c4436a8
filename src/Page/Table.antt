-- ===== src/Page/Table.antt =====
-- kernel/src/page/table.rs: tables of three levels. Every table is owned by one entry, so that a
-- table is a tree; where its page lies is left out.
pub mod Blocks
pub mod Indirect
pub mod Level
pub mod Mapping
pub mod Ranges
pub mod Steps
pub mod Total
pub mod Translate
use deravel_os.Prelude.{
  ℕ, zero, suc, ◌+◌, ◌-◌, ◌*◌, ◌/◌, ◌%◌, ltb, leb, ◌==◌, if◌then◌else◌, Bool, true, false, not,
  ◌&&◌, Exec, done, panic, ◌>>=◌, ◌>>◌, assert,
}
use deravel_os.Heap.Layout.{next_multiple_of}
use deravel_os.Memory.{page_size, virtual_end, physical_end, page_table_entry_count}
use deravel_os.Page.Entry.{PageFlags}

pub data Entry : Type 0 where
  invalid : Entry
  indirect : (ℕ → Entry) → Entry
  leaf : ℕ → PageFlags → Entry

abbrev pub PageTable : Type 0
PageTable = ℕ → Entry

unfoldable pub new : PageTable
new i = invalid

-- `LEVEL_PAGE_SIZES`
abbrev pub level_page_size : ℕ → ℕ
level_page_size zero = page_size
level_page_size (suc level) = page_table_entry_count * level_page_size level

unfoldable pub vpn_segment : ℕ → ℕ → ℕ
vpn_segment virt level = virt / level_page_size level % page_table_entry_count

abbrev pub store : PageTable → ℕ → Entry → PageTable
store t i e j = if j == i then e else t j

abbrev pub entry_is_valid : Entry → Bool
entry_is_valid invalid = false
entry_is_valid _ = true

pub record Range : Type 0 where
  pub start : ℕ
  pub stop : ℕ

abbrev pub is_empty : Range → Bool
is_empty r = leb r.stop r.start

-- The part of a range before the first multiple of `align`, the part up to the last one, and the
-- rest.
pub record Parts : Type 0 where
  pub prefix_ : Range
  pub aligned : Range
  pub suffix : Range

range : ℕ → ℕ → Range
range s e = record { start = s; stop = e }

unfoldable pub align_by : ℕ → ℕ → ℕ → Exec Parts
unfolding range
align_by s e align = do
  aligned_start ← next_multiple_of s align
  if leb e aligned_start
      then done (record { prefix_ = range s e; aligned = range 0 0; suffix = range e e })
      else do
        last ← next_multiple_of e align
        let aligned_end = if ltb e last then last - align else last
        done (record {
          prefix_ = range s aligned_start;
          aligned = range aligned_start aligned_end;
          suffix = range aligned_end e;
        })

-- A step of a `for` loop over the addresses of a range, from `v` on.
pub each : (ℕ → PageTable → Exec PageTable) → ℕ → ℕ → ℕ → PageTable → Exec PageTable
each body step v zero t = done t
each body step v (suc n) t = do t' ← body v t; each body step (v + step) n t'

abbrev pub count : Range → ℕ → ℕ
count r step = (r.stop - r.start + step - 1) / step

pub unless_empty : Range → Exec PageTable → PageTable → Exec PageTable
unless_empty r call t = if is_empty r then done t else call

pub map_leaf : PageTable → ℕ → ℕ → PageFlags → ℕ → Exec PageTable
map_leaf t virt phys flags level = do
  assert (not (entry_is_valid (t (vpn_segment virt level))))
  done (store t (vpn_segment virt level) (leaf phys flags))

-- What is done to the table that `map_indirect` returns.
pub map_indirect : PageTable → ℕ → ℕ → (PageTable → Exec PageTable) → Exec PageTable
map_indirect t virt level body = elim (t (vpn_segment virt level)) [
  | invalid ↦ do sub ← body new; done (store t (vpn_segment virt level) (indirect sub))
  | indirect s ↦ do sub ← body s; done (store t (vpn_segment virt level) (indirect sub))
  | leaf _ _ ↦ panic
]

-- One level of `map_impl`; `below` is the level under it, with the address, the physical address
-- and the size.
pub map_level :
    (ℕ → ℕ → ℕ → PageTable → Exec PageTable)
    → ℕ
    → ℕ
    → ℕ
    → ℕ
    → PageFlags
    → PageTable
    → Exec PageTable
unfolding each unless_empty map_leaf map_indirect
map_level below level virt phys size flags t = do
  parts ← align_by virt (virt + size) (level_page_size level)
  let under =
      λ (v : ℕ) (n : ℕ) (u : PageTable). map_indirect u v level (below v (phys + (v - virt)) n)
  t1 ←
      unless_empty parts.prefix_
        (under parts.prefix_.start (parts.prefix_.stop - parts.prefix_.start) t) t
  t2 ←
      if not (is_empty parts.aligned)
        && not ((phys + (parts.aligned.start - virt)) % level_page_size level == 0)
      then each (λ v u. under v (level_page_size level) u) (level_page_size level)
          parts.aligned.start (count parts.aligned (level_page_size level)) t1
      else each (λ v u. map_leaf u v (phys + (v - virt)) flags level) (level_page_size level)
          parts.aligned.start (count parts.aligned (level_page_size level)) t1
  unless_empty parts.suffix (under parts.suffix.start (parts.suffix.stop - parts.suffix.start) t2)
      t2

-- Below level 0 there is none: `level - 1` panics.
unfoldable pub map_impl : ℕ → ℕ → ℕ → ℕ → PageFlags → PageTable → Exec PageTable
unfolding map_level
map_impl zero virt phys size flags t = map_level (λ _ _ _ _. panic) zero virt phys size flags t
map_impl (suc level) virt phys size flags t =
    map_level (λ v p n u. map_impl level v p n flags u) (suc level) virt phys size flags t

pub check_range : ℕ → ℕ → ℕ → Exec (Unit {0})
check_range virt phys size = do
  assert (virt % page_size == 0)
  assert (ltb virt virtual_end)
  assert (leb (virt + size) virtual_end)
  assert (phys % page_size == 0)
  assert (ltb phys physical_end)
  assert (leb (phys + size) physical_end)
  assert (size % page_size == 0)

unfoldable pub map : PageTable → ℕ → ℕ → ℕ → PageFlags → Exec PageTable
unfolding check_range
map t virt phys size flags = do check_range virt phys size; map_impl 2 virt phys size flags t

unfoldable pub is_mapped_impl : ℕ → Entry → ℕ → Exec Bool
is_mapped_impl level invalid virt = done false
is_mapped_impl level (leaf _ _) virt = done true
is_mapped_impl zero (indirect t) virt = panic
is_mapped_impl (suc level) (indirect t) virt =
    is_mapped_impl level (t (vpn_segment virt level)) virt

unfoldable pub is_mapped : PageTable → ℕ → Exec Bool
is_mapped t virt = is_mapped_impl 2 (t (vpn_segment virt 2)) virt

-- The entries from the `i`-th on, `n` of them.
none_valid : ℕ → ℕ → PageTable → Bool
none_valid i zero t = true
none_valid i (suc n) t = not (entry_is_valid (t i)) && none_valid (i + 1) n t

is_completely_unmapped : PageTable → Bool
unfolding none_valid
is_completely_unmapped t = none_valid 0 page_table_entry_count t

unmap_leaf : PageTable → ℕ → ℕ → ℕ → Exec PageTable
unmap_leaf t virt phys level = elim (t (vpn_segment virt level)) [
  | invalid ↦ panic
  | indirect _ ↦ panic
  | leaf p _ ↦ do assert (p == phys); done (store t (vpn_segment virt level) invalid)
]

-- The calls on the table that `unwrap_indirect` returns, and `check_unmap_indirect` behind them.
unmap_indirect : PageTable → ℕ → ℕ → (PageTable → Exec PageTable) → Exec PageTable
unfolding is_completely_unmapped
unmap_indirect t virt level body = elim (t (vpn_segment virt level)) [
  | invalid ↦ panic
  | leaf _ _ ↦ panic
  | indirect s ↦ do
    sub ← body s
    done (
        store t (vpn_segment virt level)
          (if is_completely_unmapped sub then invalid else indirect sub))
]

unmap_level : (ℕ → ℕ → ℕ → PageTable → Exec PageTable) → ℕ → ℕ → ℕ → ℕ → PageTable → Exec PageTable
unfolding each unless_empty unmap_leaf unmap_indirect
unmap_level below level virt phys size t = do
  parts ← align_by virt (virt + size) (level_page_size level)
  let under =
      λ (v : ℕ) (n : ℕ) (u : PageTable). unmap_indirect u v level (below v (phys + (v - virt)) n)
  t1 ←
      unless_empty parts.prefix_
        (under parts.prefix_.start (parts.prefix_.stop - parts.prefix_.start) t) t
  t2 ←
      if not (is_empty parts.aligned)
        && not ((phys + (parts.aligned.start - virt)) % level_page_size level == 0)
      then each (λ v u. under v (level_page_size level) u) (level_page_size level)
          parts.aligned.start (count parts.aligned (level_page_size level)) t1
      else each (λ v u. unmap_leaf u v (phys + (v - virt)) level) (level_page_size level)
          parts.aligned.start (count parts.aligned (level_page_size level)) t1
  unless_empty parts.suffix (under parts.suffix.start (parts.suffix.stop - parts.suffix.start) t2)
      t2

unfoldable pub unmap_impl : ℕ → ℕ → ℕ → ℕ → PageTable → Exec PageTable
unfolding unmap_level
unmap_impl zero virt phys size t = unmap_level (λ _ _ _ _. panic) zero virt phys size t
unmap_impl (suc level) virt phys size t =
    unmap_level (unmap_impl level) (suc level) virt phys size t

unfoldable pub unmap : PageTable → ℕ → ℕ → ℕ → Exec PageTable
unfolding check_range
unmap t virt phys size = do check_range virt phys size; unmap_impl 2 virt phys size t
