-- ===== src/Heap/Layout.antt =====
-- `Layout` of the standard library as the heap uses it, the two roundings of `usize`, and
-- `page_granular` of kernel/src/heap/granularity.rs.
pub mod Rounding
use deravel_os.Prelude.{
  ◌^◌, ℕ, zero, suc, ◌+◌, ◌-◌, ◌%◌, max, leb, ◌==◌, if◌then◌else◌, Exec, done, panic, add_usize,
  true, false,
}
use deravel_os.Memory.{page_size}

pub record Layout : Type 0 where
  pub size : ℕ
  pub align : ℕ

-- `usize::next_power_of_two`: 2^63 is the last one that there is.
unfoldable pub pow_above : ℕ → ℕ → ℕ → Exec ℕ
pow_above zero p size = panic
pow_above (suc f) p size = elim (leb size p) [ true ↦ done p | false ↦ pow_above f (p + p) size ]

unfoldable pub next_power_of_two : ℕ → Exec ℕ
unfolding pow_above
next_power_of_two size = pow_above 64 1 size

-- `usize::next_multiple_of`, which panics at 0 and on overflow.
unfoldable pub next_multiple_of : ℕ → ℕ → Exec ℕ
next_multiple_of n a =
    if a == 0 then panic else if n % a == 0 then done n else add_usize n (a - n % a)

-- `Layout::from_size_align(size, PAGE_SIZE).unwrap()`
unfoldable pub page_layout : ℕ → Exec Layout
page_layout size =
    if leb (size + page_size) (2 ^ 63)
    then done (record { size = size; align = page_size })
    else panic

-- `Layout::from_size_align(..).unwrap()` succeeds on sizes up to isize::MAX, rounded up to the
-- alignment; a page is a power of two, and so is the larger of two powers of two.
unfoldable pub page_granular : Layout → Exec Layout
page_granular l =
    let size = max l.size page_size in
    let align = max l.align page_size in
    if leb (size + align) (2 ^ 63) then done (record { size = size; align = align }) else panic
