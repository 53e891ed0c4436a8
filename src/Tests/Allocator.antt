-- ===== src/Tests/Allocator.antt =====
-- The theorems on `BuddyAllocator` of kernel/src/heap/buddy.rs and `BumpAllocator` of
-- kernel/src/heap/bump.rs, at ranges from the address 100.
use deravel_os.Prelude.{ℕ, ◌+◌, ◌≤◌, ◌<◌, ◌≡◌, refl, ◌⊎◌, inl, inr, none, some, done, arith}
use deravel_os.Heap.Layout.{Layout, next_multiple_of}
use deravel_os.Heap.Buddy.{Node, bare, split, combine}
use deravel_os.Heap.Buddy.Invariant.{Holds, cell, free}
use deravel_os.Heap.Buddy.Alloc.{Grants}
use deravel_os.Heap.Buddy.Dealloc.{Frees}
use deravel_os.Heap.Allocator
use deravel_os.Heap.Allocator.{BuddyAllocator, alloc, dealloc, new_in}
use deravel_os.Heap.Allocator.Sound.{IsSound, alloc_serves, dealloc_serves}
use deravel_os.Heap.Allocator.Fresh.{new_in_lem}
use deravel_os.Heap.Bump
use deravel_os.Heap.Bump.{BumpAllocator}
use deravel_os.Heap.Bump.Laws.{Cuts, alloc-Cuts}

abbrev four_taken : BuddyAllocator
four_taken = record {
  root = split 4 0 (bare 0 4) (bare 4 0);
  root_node_size = 8;
  start = 100;
  stop = 108;
}

four_taken-IsSound : IsSound four_taken
unfolding combine
four_taken-IsSound = record {
  level = 3;
  level_lt = omega arith;
  sized = refl;
  ordered = omega arith;
  bounded = omega arith;
  valid = (inr (refl, omega arith, omega arith), inl (inr (refl, refl)), inl (refl, refl));
  outside = λ i a b. absurd (omega arith);
}

abbrev four_units : Layout
four_units = record { size = 3; align = 4 }

alloc_serves_example :
    (p : ℕ) × (root : Node) × (Allocator.alloc four_taken four_units
      ≡ done (record four_taken { root = root }, some (100 + p)))
    × Grants 3 4 four_taken.root p root
    × (100 + p + 4 ≤ 108)
    × IsSound (record four_taken { root = root })
unfolding four_taken-IsSound
alloc_serves_example =
    alloc_serves four_taken four_units four_taken-IsSound (omega arith) (omega arith)

four_taken-Holds : Holds 3 four_taken.root 0 4
unfolding combine
four_taken-Holds = inr (refl, refl, inl (omega arith, (refl, refl, omega arith)))

dealloc_serves_example :
    (root : Node) × (Allocator.dealloc four_taken 100 four_units
      ≡ done (record four_taken { root = root }))
    × Frees 3 4 four_taken.root 0 root
    × IsSound (record four_taken { root = root })
unfolding four_taken-IsSound
dealloc_serves_example = dealloc_serves four_taken four_units 0 four_taken-IsSound four_taken-Holds

new_in_lem_example :
    (b : BuddyAllocator) × (s : IsSound b) × (new_in 100 105 ≡ done b)
    × ((i : ℕ) → i < 5 → cell s.level b.root i ≡ free)
new_in_lem_example = new_in_lem 100 105 (omega arith) (omega arith) (omega arith)

abbrev fresh_range : BumpAllocator
fresh_range = record { start = 100; stop = 200; allocated = 0 }

alloc-Cuts_example :
    (p : ℕ) × (next_multiple_of 100 4 ≡ done p)
    × (((p + 3 ≤ 200)
          × ((b' : BumpAllocator) × (Bump.alloc fresh_range four_units ≡ done (b', some p))
              × Cuts fresh_range four_units p b'))
        ⊎ ((200 < p + 3) × (Bump.alloc fresh_range four_units ≡ done (fresh_range, none))))
alloc-Cuts_example =
    alloc-Cuts fresh_range four_units (omega arith) (omega arith) (omega arith) (omega arith)
