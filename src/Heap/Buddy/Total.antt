-- ===== src/Heap/Buddy/Total.antt =====
-- `Node::alloc` of kernel/src/heap/buddy.rs on requests that the root reports room for.
use deravel_os.Prelude.{
  ℕ, zero, suc, ◌+◌, ◌/◌, ◌≤◌, ◌<◌, ◌≡◌, refl, ◌⊎◌, inl, inr, true, false, none, some, done, arith,
  le→ltb, lt→ltb, le→leb, lt_cases, eq→==,
}
use deravel_os.Heap.Buddy.{
  Node, max_available, allocated, set_state, combine, get_children, goes_left, alloc, split,
}
use deravel_os.Heap.Buddy.Invariant.{pow2, pow2_pos, IsValid, max_available-le, combine_cases}
use deravel_os.Heap.Buddy.Alloc.{
  half, Grants, Opened, whole-Grants, max_available-whole, get_children-Opened, left-Grants,
  right-Grants, joined,
}

-- A request above what the node reports is refused, and changes nothing.
pub alloc_refuses :
    (f req n : ℕ) (t : Node) → max_available t < req → alloc (suc f) req n t ≡ done (t, none)
unfolding alloc
alloc_refuses f req n t h = rw (lt→ltb _ _ h) refl

alloc_takes :
    (f req n : ℕ) (t : Node)
    → req ≤ max_available t
    → n / 2 < req
    → max_available t ≡ n
    → alloc (suc f) req n t ≡ done (set_state t 0 req, some 0)
unfolding alloc
alloc_takes f req n t a b c = rw (le→ltb _ _ a, lt→ltb _ _ b, eq→== _ _ c) refl

abbrev left : Node → ℕ → Node
left t n = (get_children t n).0

abbrev right : Node → ℕ → Node
right t n = (get_children t n).1

module _ (f req n : ℕ) (t : Node) where
  alloc_goes_left :
      (l' : Node) (p : ℕ)
      → req ≤ max_available t
      → req ≤ n / 2
      → req ≤ max_available (left t n)
      → goes_left req (max_available (left t n)) (max_available (right t n)) ≡ true
      → alloc f req (n / 2) (left t n) ≡ done (l', some p)
      → alloc (suc f) req n t
        ≡ done (
          split
              (combine (max_available l') (max_available (right t n)) n)
              (allocated t)
              l'
              (right t n),
          some p,
        )
  unfolding alloc
  alloc_goes_left l' p a b c d h = rw (le→ltb _ _ a, le→ltb _ _ b, d, le→leb _ _ c, h) refl

  alloc_goes_right :
      (r' : Node) (p : ℕ)
      → req ≤ max_available t
      → req ≤ n / 2
      → req ≤ max_available (right t n)
      → goes_left req (max_available (left t n)) (max_available (right t n)) ≡ false
      → alloc f req (n / 2) (right t n) ≡ done (r', some p)
      → alloc (suc f) req n t
        ≡ done (
          split
              (combine (max_available (left t n)) (max_available r') n)
              (allocated t)
              (left t n)
              r',
          some (p + n / 2),
        )
  unfolding alloc
  alloc_goes_right r' p a b c d h = rw (le→ltb _ _ a, le→ltb _ _ b, d, le→leb _ _ c, h) refl

goes_left-le :
    (req h l r : ℕ)
    → l ≤ h
    → r ≤ h
    → (req ≤ l) ⊎ (req ≤ r)
    → ((goes_left req l r ≡ true) × (req ≤ l)) ⊎ ((goes_left req l r ≡ false) × (req ≤ r))
goes_left-le req h l r a b c = ground arith

-- The half that is chosen has room.
Opened-fits :
    (k req : ℕ) (t l r : Node)
    → Opened k t l r
    → req ≤ max_available t
    → req ≤ pow2 k
    → ((goes_left req (max_available l) (max_available r) ≡ true) × (req ≤ max_available l))
      ⊎ ((goes_left req (max_available l) (max_available r) ≡ false) × (req ≤ max_available r))
Opened-fits k req t l r o h small =
    goes_left-le req (pow2 k) (max_available l) (max_available r) a b (
      ground (
        arith,
        o.combined,
        combine_cases (pow2 k) (max_available l) (max_available r) (pow2_pos k) a b,
      ))
  where
    a : max_available l ≤ pow2 k
    a = max_available-le k l o.left_valid

    b : max_available r ≤ pow2 k
    b = max_available-le k r o.right_valid

abbrev Granted : ℕ → ℕ → ℕ → Node → Type 0
Granted f k req t =
    (p : ℕ) × (t' : Node) × (alloc f req (pow2 k) t ≡ done (t', some p)) × Grants k req t p t'

alloc_descends :
    (f k req : ℕ) (t : Node)
    → 0 < req
    → IsValid (suc k) t
    → req ≤ max_available t
    → req ≤ pow2 k
    → ((c : Node) → 0 < req → IsValid k c → req ≤ max_available c → Granted f k req c)
    → Granted (suc f) (suc k) req t
unfolding joined
alloc_descends f k req t pos v h small ih =
    let n : ℕ = pow2 (suc k) in
    let o : Opened k t (left t n) (right t n) = get_children-Opened k t v (omega arith) in
    elim (Opened-fits k req t (left t n) (right t n) o h small) [
      | inl (g, fit) ↦
          let (p, l', e, grants) = ih (left t n) pos o.left_valid fit in
          (
            p,
            joined k req t (left t n) (right t n) pos o l' (right t n),
            alloc_goes_left f req n t l' p h (rw half small) fit g (rw half e),
            left-Grants k req t (left t n) (right t n) pos o p l' grants,
          )
      | inr (g, fit) ↦
          let (p, r', e, grants) = ih (right t n) pos o.right_valid fit in
          (
            p + pow2 k,
            joined k req t (left t n) (right t n) pos o (left t n) r',
            rw half at (alloc_goes_right f req n t r' p h (rw half small) fit g (rw half e)),
            right-Grants k req t (left t n) (right t n) pos o p r' grants,
          )
    ]

-- On a well-formed tree of 2^k units, with fuel above k, alloc grants every positive request that
-- the root reports room for, and what it grants is an aligned block of the least power of two that
-- holds the request, which was free before and is used after; every other unit and live allocation
-- stays as it was and the tree stays well formed.
pub alloc_lem :
    (f k req : ℕ) (t : Node)
    → k < f
    → 0 < req
    → IsValid k t
    → req ≤ max_available t
    → (p : ℕ) × (t' : Node) × (alloc f req (pow2 k) t ≡ done (t', some p)) × Grants k req t p t'
alloc_lem zero k req t lt pos v h = absurd (omega arith)
alloc_lem (suc f) zero req t lt pos v h =
    let w = max_available-whole zero t v (omega arith) in
    (
      0,
      set_state t 0 req,
      alloc_takes f req 1 t h (omega arith) w,
      whole-Grants zero req t pos v w (omega arith) (omega arith),
    )
alloc_lem (suc f) (suc k) req t lt pos v h = elim (lt_cases (pow2 (suc k) / 2) req) [
  | inl big ↦
      let w = max_available-whole (suc k) t v (omega arith) in
      (
        0,
        set_state t 0 req,
        alloc_takes f req (pow2 (suc k)) t h big w,
        whole-Grants (suc k) req t pos v w big (omega arith),
      )
  | inr small ↦
      alloc_descends f k req t pos v h (omega arith) (λ c. alloc_lem f k req c (omega arith))
]
