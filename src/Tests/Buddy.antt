-- ===== src/Tests/Buddy.antt =====
-- The theorems on `Node` of kernel/src/heap/buddy.rs, at a block of 8 units, and on the roundings.
use deravel_os.Prelude.{ℕ, ◌+◌, ◌*◌, ◌≤◌, ◌<◌, ◌≡◌, refl, ◌↔◌, inl, inr, none, some, done, arith}
use deravel_os.Heap.Buddy.{Node, bare, split, combine, alloc, dealloc}
use deravel_os.Heap.Buddy.Invariant.{pow2, IsValid, IsBlock, Holds, cell}
use deravel_os.Heap.Buddy.Alloc.{Grants}
use deravel_os.Heap.Buddy.Dealloc.{Frees}
use deravel_os.Heap.Buddy.Total.{alloc_lem}
use deravel_os.Heap.Buddy.Release.{dealloc_lem, dealloc-alloc}
use deravel_os.Heap.Buddy.Largest.{IsFree, alloc_refuses_iff}
use deravel_os.Heap.Layout.{next_multiple_of}
use deravel_os.Heap.Layout.Rounding.{next_multiple_of_lem}

-- 8 units, of which 2 are allocated at the start.
abbrev two_taken : Node
two_taken = split 4 0 (split 2 0 (bare 0 2) (bare 2 0)) (bare 4 0)

two_taken-IsValid : IsValid 3 two_taken
unfolding combine
two_taken-IsValid = (
  (inr (refl, omega arith, omega arith), inl (inr (refl, refl)), inl (refl, refl)),
  inl (inr (refl, refl)),
  inl (refl, refl),
)

two_taken-Holds : Holds 3 two_taken 0 2
unfolding combine
two_taken-Holds =
    inr (
      refl,
      refl,
      inl (omega arith, inr (refl, refl, inl (omega arith, (refl, refl, omega arith)))),
    )

alloc_lem_example :
    (p : ℕ) × (t' : Node) × (alloc 4 3 8 two_taken ≡ done (t', some p)) × Grants 3 3 two_taken p t'
alloc_lem_example =
    alloc_lem 4 3 3 two_taken (omega arith) (omega arith) two_taken-IsValid (omega arith)

dealloc_lem_example : (t' : Node) × (dealloc 0 2 8 two_taken ≡ done t') × Frees 3 2 two_taken 0 t'
dealloc_lem_example = dealloc_lem 3 2 0 two_taken two_taken-IsValid two_taken-Holds

dealloc-alloc_example :
    (p : ℕ) × (t' : Node) × (t'' : Node) × (alloc 4 3 8 two_taken ≡ done (t', some p))
    × (dealloc p 3 8 t' ≡ done t'')
    × IsValid 3 t''
    × ((i : ℕ) → i < 8 → cell 3 t'' i ≡ cell 3 two_taken i)
dealloc-alloc_example =
    dealloc-alloc 4 3 3 two_taken (omega arith) (omega arith) two_taken-IsValid (omega arith)

alloc_refuses_iff_example :
    (alloc 4 5 8 two_taken ≡ done (two_taken, none))
    ↔ ((j p : ℕ) → IsBlock 3 j p → IsFree 3 two_taken j p → pow2 j < 5)
alloc_refuses_iff_example =
    alloc_refuses_iff 3 3 5 two_taken (omega arith) (omega arith) two_taken-IsValid

upper_half-IsFree : IsFree 3 two_taken 2 4
unfolding cell
upper_half-IsFree i a b = ground arith

next_multiple_of_lem_example :
    (m : ℕ) × (next_multiple_of 10 8 ≡ done m) × (10 ≤ m) × (m < 10 + 8) × ((q : ℕ) × (m ≡ q * 8))
next_multiple_of_lem_example = next_multiple_of_lem 10 8 (omega arith) (omega arith)
