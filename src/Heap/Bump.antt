-- ===== src/Heap/Bump.antt =====
-- kernel/src/heap/bump.rs.
pub mod Laws
use deravel_os.Prelude.{
  ℕ, ltb, if◌then◌else◌, Option, none, some, Exec, done, ◌>>=◌, add_usize, sub_usize,
}
use deravel_os.Heap.Layout.{Layout, next_multiple_of}
use deravel_os.Heap.Buddy.{HeapStats}

-- The range is kept by its ends.
pub record BumpAllocator : Type 0 where
  pub start : ℕ
  pub stop : ℕ
  pub allocated : ℕ

unfoldable pub new : ℕ → ℕ → BumpAllocator
new start stop = record { start = start; stop = stop; allocated = 0 }

unfoldable pub alloc : BumpAllocator → Layout → Exec (BumpAllocator × Option ℕ)
alloc b layout = do
  pointer ← next_multiple_of b.start layout.align
  new_start ← add_usize pointer layout.size
  if ltb b.stop new_start then done (b, none) else do
    allocated ← add_usize b.allocated layout.size
    done (record b { start = new_start; allocated = allocated }, some pointer)

unfoldable pub stats : BumpAllocator → Exec HeapStats
stats b = do free ← sub_usize b.stop b.start; done (record { alloc = b.allocated; free = free })
