-- ===== src/Heap/Allocator/Sound.antt =====
-- What `BuddyAllocator` of kernel/src/heap/buddy.rs promises over its range of addresses.
use deravel_os.Prelude.{
  ℕ, ◌+◌, ◌-◌, ◌≤◌, ◌<◌, none, some, done, ◌≡◌, refl, ◌∙◌, inl, inr, arith, lt→ltb, le→leb,
  lt_cases, usize_mod,
}
use deravel_os.Heap.Layout.{Layout}
use deravel_os.Heap.Buddy
use deravel_os.Heap.Buddy.{Node, max_available}
use deravel_os.Heap.Buddy.Invariant.{
  pow2, IsValid, Cell, free, used, reserved, cell, Holds, block_of,
}
use deravel_os.Heap.Buddy.Alloc.{Grants}
use deravel_os.Heap.Buddy.Total.{alloc_lem, alloc_refuses}
use deravel_os.Heap.Buddy.Dealloc.{Frees}
use deravel_os.Heap.Buddy.Release.{dealloc_lem}
use deravel_os.Heap.Allocator.{BuddyAllocator, req_size, alloc, dealloc, depth}

-- The tree is well formed for its size, and nothing beyond the range is free or in use.
pub record IsSound (b : BuddyAllocator) : Type 0 where
  pub level : ℕ
  pub level_lt : level < 64
  pub sized : b.root_node_size ≡ pow2 level
  pub ordered : b.start ≤ b.stop
  pub bounded : b.stop < usize_mod
  pub valid : IsValid level b.root
  pub outside : (i : ℕ) → b.stop - b.start ≤ i → i < pow2 level → cell level b.root i ≡ reserved

free_ne_reserved : (c : Cell) → c ≡ free → c ≡ reserved → ⊥
free_ne_reserved c p q = cc (p, q)

used_ne_reserved : (c : Cell) (n : ℕ) → c ≡ used n → c ≡ reserved → ⊥
used_ne_reserved c n p q = cc (p, q)

-- A granted block lies in the range, since its last unit was free.
module _ (b : BuddyAllocator) (s : IsSound b) (req p : ℕ) (t' : Node) (pos : 0 < req) where
  granted_inside : (g : Grants s.level req b.root p t') → p + g.block ≤ b.stop - b.start
  granted_inside g = elim (lt_cases (b.stop - b.start) (p + g.block)) [
    | inl lt ↦ absurd (
        free_ne_reserved (cell s.level b.root (p + g.block - 1))
          (g.was_free (p + g.block - 1) (omega (arith, g.fits)) (omega (arith, g.fits)))
          (s.outside (p + g.block - 1) (omega arith) (omega (arith, g.inside, g.fits))))
    | inr le ↦ le
  ]

  granted-IsSound : Grants s.level req b.root p t' → IsSound (record b { root = t' })
  granted-IsSound g = record {
    level = s.level;
    level_lt = s.level_lt;
    sized = s.sized;
    ordered = s.ordered;
    bounded = s.bounded;
    valid = g.valid;
    outside = λ i a c. g.above i (omega (arith, granted_inside g)) c ∙ s.outside i a c;
  }

alloc_eq :
    (b : BuddyAllocator) (layout : Layout) (p : ℕ) (t' : Node)
    → Buddy.alloc depth (req_size layout) b.root_node_size b.root ≡ done (t', some p)
    → b.start + p + req_size layout ≤ b.stop
    → b.stop < usize_mod
    → alloc b layout ≡ done (record b { root = t' }, some (b.start + p))
unfolding alloc
alloc_eq b layout p t' e fits small =
    rw
      (
        e,
        lt→ltb (b.start + p) usize_mod (omega arith),
        le→leb b.start (b.start + p) (omega arith),
        lt→ltb (b.start + p + req_size layout) usize_mod (omega arith),
        le→leb _ _ fits,
      )
      refl

dealloc_eq :
    (b : BuddyAllocator) (layout : Layout) (p : ℕ) (t' : Node)
    → Buddy.dealloc p (req_size layout) b.root_node_size b.root ≡ done t'
    → dealloc b (b.start + p) layout ≡ done (record b { root = t' })
unfolding dealloc
dealloc_eq b layout p t' e =
    let shift : b.start + p - b.start ≡ p = omega arith in
    rw (le→leb b.start (b.start + p) (omega arith), shift, e) refl

-- In a sound allocator, alloc of a request with a positive alignment that the root reports room for
-- panics nowhere and returns an address of the range whose block was free, and the allocator stays
-- sound.
pub alloc_serves :
    (b : BuddyAllocator) (layout : Layout) (s : IsSound b)
    → 0 < layout.align
    → req_size layout ≤ max_available b.root
    → (p : ℕ) × (root : Node) × (alloc b layout
        ≡ done (record b { root = root }, some (b.start + p)))
      × Grants s.level (req_size layout) b.root p root
      × (b.start + p + req_size layout ≤ b.stop)
      × IsSound (record b { root = root })
alloc_serves b layout s pos h =
    let (p, t', e, g) =
      alloc_lem depth s.level (req_size layout) b.root (omega (arith, s.level_lt)) (omega arith)
        s.valid h in
    let last = granted_inside b s (req_size layout) p t' (omega arith) g in
    let room : b.start + p + req_size layout ≤ b.stop = omega (arith, last, g.fits, s.ordered) in
    (
      p,
      t',
      alloc_eq b layout p t' (rw s.sized e) room s.bounded,
      g,
      room,
      granted-IsSound b s (req_size layout) p t' (omega arith) g,
    )

-- A request above what the root reports room for is refused, and changes nothing.
pub alloc_out_of_memory :
    (b : BuddyAllocator) (layout : Layout)
    → max_available b.root < req_size layout
    → alloc b layout ≡ done (b, none)
unfolding alloc
alloc_out_of_memory b layout h =
    rw (alloc_refuses 64 (req_size layout) b.root_node_size b.root h) refl

freed_outside :
    (b : BuddyAllocator) (s : IsSound b) (req p : ℕ) (t' : Node)
    → Frees s.level req b.root p t'
    → (i : ℕ) → b.stop - b.start ≤ i
    → i < pow2 s.level
    → cell s.level t' i ≡ reserved
freed_outside b s req p t' f i a c = elim (lt_cases i p) [
  | inl d ↦ f.below i d ∙ s.outside i a c
  | inr d ↦ elim (lt_cases i (p + block_of s.level req)) [
    | inl q ↦
        absurd (used_ne_reserved (cell s.level b.root i) req (f.was_used i d q) (s.outside i a c))
    | inr q ↦ f.above i q c ∙ s.outside i a c
  ]
]

-- In a sound allocator, dealloc of a live allocation panics nowhere, frees its block alone, and the
-- allocator stays sound.
pub dealloc_serves :
    (b : BuddyAllocator) (layout : Layout) (p : ℕ) (s : IsSound b)
    → Holds s.level b.root p (req_size layout)
    → (root : Node) × (dealloc b (b.start + p) layout ≡ done (record b { root = root }))
      × Frees s.level (req_size layout) b.root p root
      × IsSound (record b { root = root })
dealloc_serves b layout p s h =
    let (t', e, f) = dealloc_lem s.level (req_size layout) p b.root s.valid h in
    (
      t',
      dealloc_eq b layout p t' (rw s.sized e),
      f,
      record {
        level = s.level;
        level_lt = s.level_lt;
        sized = s.sized;
        ordered = s.ordered;
        bounded = s.bounded;
        valid = f.valid;
        outside = λ i a c. freed_outside b s (req_size layout) p t' f i a c;
      },
    )
