-- ===== src/Heap/Bump/Laws.antt =====
-- The pieces that kernel/src/heap/bump.rs hands out.
use deravel_os.Prelude.{
  ℕ, ◌+◌, ◌*◌, ◌≤◌, ◌<◌, ◌≡◌, ◌⊎◌, inl, inr, refl, some, none, done, arith, lt→ltb, le→ltb,
  lt_cases, usize_mod,
}
use deravel_os.Heap.Layout.{Layout, next_multiple_of}
use deravel_os.Heap.Layout.Rounding.{next_multiple_of_lem}
use deravel_os.Heap.Bump.{BumpAllocator, alloc}

-- The piece of `layout` at `p` was cut off the front of the range of `b`.
pub record Cuts (b : BumpAllocator) (layout : Layout) (p : ℕ) (b' : BumpAllocator) : Type 0 where
  pub after_start : b.start ≤ p
  pub waste : p < b.start + layout.align
  pub aligned : (q : ℕ) × (p ≡ q * layout.align)
  pub next_start : b'.start ≡ p + layout.size
  pub inside : b'.start ≤ b'.stop
  pub same_stop : b'.stop ≡ b.stop
  pub counted : b'.allocated ≡ b.allocated + layout.size

module _ (b : BumpAllocator) (layout : Layout) (p : ℕ)
    (e : next_multiple_of b.start layout.align ≡ done p) where
  alloc_cuts :
      p + layout.size ≤ b.stop
      → b.stop < usize_mod
      → b.allocated + layout.size < usize_mod
      → alloc b layout
        ≡ done (record b { start = p + layout.size; allocated = b.allocated + layout.size }, some p)
  unfolding alloc
  alloc_cuts h s c =
      rw
        (
          e,
          lt→ltb (p + layout.size) usize_mod (omega arith),
          le→ltb _ _ h,
          lt→ltb (b.allocated + layout.size) usize_mod c,
        )
        refl

  alloc_fails :
      b.stop < p + layout.size → p + layout.size < usize_mod → alloc b layout ≡ done (b, none)
  unfolding alloc
  alloc_fails h s = rw (e, lt→ltb (p + layout.size) usize_mod s, lt→ltb _ _ h) refl

-- As long as addresses and sizes stay in a usize, the bump allocator either cuts an aligned piece
-- off the front of its range or refuses and changes nothing, and it refuses exactly where the
-- aligned piece would not fit.
pub alloc-Cuts :
    (b : BumpAllocator) (layout : Layout)
    → 0 < layout.align
    → b.start ≤ b.stop
    → b.stop + layout.align + layout.size < usize_mod
    → b.allocated + layout.size < usize_mod
    → (p : ℕ) × (next_multiple_of b.start layout.align ≡ done p)
      × (((p + layout.size ≤ b.stop)
            × ((b' : BumpAllocator) × (alloc b layout ≡ done (b', some p)) × Cuts b layout p b'))
          ⊎ ((b.stop < p + layout.size) × (alloc b layout ≡ done (b, none))))
alloc-Cuts b layout pos ord small c =
    let (p, e, lo, hi, al) = next_multiple_of_lem b.start layout.align pos (omega arith) in
    (
      p,
      e,
      elim (lt_cases b.stop (p + layout.size)) [
        | inl bad ↦ inr (bad, alloc_fails b layout p e bad (omega arith))
        | inr fits ↦ inl (
          fits,
          (
            record b { start = p + layout.size; allocated = b.allocated + layout.size },
            alloc_cuts b layout p e fits (omega arith) c,
            record {
              after_start = lo;
              waste = hi;
              aligned = al;
              next_start = refl;
              inside = fits;
              same_stop = refl;
              counted = refl;
            },
          ),
        )
      ],
    )
