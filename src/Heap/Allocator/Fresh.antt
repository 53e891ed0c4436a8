-- ===== src/Heap/Allocator/Fresh.antt =====
-- `BuddyAllocator::new_in` of kernel/src/heap/buddy.rs.
use deravel_os.Prelude.{ℕ, ◌-◌, ◌≤◌, ◌<◌, ◌≡◌, refl, done, arith, le→leb, usize_mod}
use deravel_os.Heap.Layout.{next_power_of_two}
use deravel_os.Heap.Layout.Rounding.{next_power_of_two_lem}
use deravel_os.Heap.Buddy
use deravel_os.Heap.Buddy.{Node}
use deravel_os.Heap.Buddy.Invariant.{pow2, free, cell}
use deravel_os.Heap.Buddy.Fresh.{new_lem}
use deravel_os.Heap.Allocator.{BuddyAllocator, new_in, depth}
use deravel_os.Heap.Allocator.Sound.{IsSound}

new_in_eq :
    (start stop n : ℕ) (t : Node)
    → start ≤ stop
    → next_power_of_two (stop - start) ≡ done n
    → Buddy.new depth (stop - start) n ≡ done t
    → new_in start stop ≡ done (record { root = t; root_node_size = n; start = start; stop = stop })
unfolding new_in
new_in_eq start stop n t le e d = rw (le→leb _ _ le, e, d) refl

-- A range of at most 2^63 units becomes a sound allocator in which every unit of the range is free.
pub new_in_lem :
    (start stop : ℕ)
    → start ≤ stop
    → stop < usize_mod
    → stop - start ≤ pow2 63
    → (b : BuddyAllocator) × (s : IsSound b) × (new_in start stop ≡ done b)
      × ((i : ℕ) → i < stop - start → cell s.level b.root i ≡ free)
new_in_lem start stop le small fits =
    let (k, hk, size, e) = next_power_of_two_lem 63 (stop - start) (omega arith) fits in
    let (t, d, f) = new_lem depth k (stop - start) (omega arith) size in
    (
      record { root = t; root_node_size = pow2 k; start = start; stop = stop },
      record {
        level = k;
        level_lt = omega arith;
        sized = refl;
        ordered = le;
        bounded = small;
        valid = f.valid;
        outside = f.outside;
      },
      new_in_eq start stop (pow2 k) t le e d,
      f.inside,
    )
