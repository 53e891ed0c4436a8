-- ===== src/Heap/Allocator.antt =====
-- `BuddyAllocator` of kernel/src/heap/buddy.rs, the tree over a range of addresses.
pub mod Sound
pub mod Fresh
use deravel_os.Prelude.{
  ℕ, max, leb, Option, none, some, Exec, done, ◌>>=◌, ◌>>◌, assert, add_usize, sub_usize,
}
use deravel_os.Heap.Layout.{Layout, next_power_of_two}
use deravel_os.Heap.Buddy
use deravel_os.Heap.Buddy.{Node, HeapStats}

-- The range is kept by its ends; `alloc`, the allocator of the boxes, leaves no trace here.
pub record BuddyAllocator : Type 0 where
  pub root : Node
  pub root_node_size : ℕ
  pub start : ℕ
  pub stop : ℕ

-- The depth of a tree over a `usize` range: sizes 2^63 down to 1, and the call at 0.
abbrev pub depth : ℕ
depth = 65

unfoldable pub new_in : ℕ → ℕ → Exec BuddyAllocator
new_in start stop = do
  size ← sub_usize stop start
  node_size ← next_power_of_two size
  root ← Buddy.new depth size node_size
  done (record { root = root; root_node_size = node_size; start = start; stop = stop })

abbrev pub req_size : Layout → ℕ
req_size layout = max layout.size layout.align

-- The option is the `Result`, `none` for `AllocError`.
finish : BuddyAllocator → ℕ → Node → Option ℕ → Exec (BuddyAllocator × Option ℕ)
finish b req root none = done (record b { root = root }, none)
finish b req root (some unoffset_ptr) = do
  ptr ← add_usize b.start unoffset_ptr
  assert (leb b.start ptr)
  last ← add_usize ptr req
  assert (leb last b.stop)
  done (record b { root = root }, some ptr)

unfoldable pub alloc : BuddyAllocator → Layout → Exec (BuddyAllocator × Option ℕ)
unfolding finish
alloc b layout = do
  (root, res) ← Buddy.alloc depth (req_size layout) b.root_node_size b.root
  finish b (req_size layout) root res

unfoldable pub dealloc : BuddyAllocator → ℕ → Layout → Exec BuddyAllocator
dealloc b ptr layout = do
  p ← sub_usize ptr b.start
  root ← Buddy.dealloc p (req_size layout) b.root_node_size b.root
  done (record b { root = root })

unfoldable pub reserve_range : BuddyAllocator → ℕ → ℕ → Exec BuddyAllocator
reserve_range b s e = do
  assert (leb b.start s)
  assert (leb e b.stop)
  s' ← sub_usize s b.start
  e' ← sub_usize e b.start
  root ← Buddy.reserve_range depth s' e' b.root_node_size b.root
  done (record b { root = root })

unfoldable pub stats : BuddyAllocator → HeapStats
stats b = Buddy.stats b.root
