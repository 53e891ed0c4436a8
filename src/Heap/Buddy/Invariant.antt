-- ===== src/Heap/Buddy/Invariant.antt =====
-- When a tree of `Node` of kernel/src/heap/buddy.rs is well formed for a block of 2^k units, and
-- what it says of each unit.
use deravel_os.Prelude.{
  ℕ, zero, suc, ◌+◌, ◌-◌, ◌/◌, ◌≤◌, ◌<◌, ltb, leb, le→leb, lt→leb, ◌==◌, if◌then◌else◌, ◌&&◌, ◌≡◌,
  refl, ◌⊎◌, ◌≢◌, refl, inl, inr, arith, Bool-cases, ne→==, ==_iff,
}
use deravel_os.Heap.Buddy.{Node, bare, split, max_available, combine}

abbrev pub pow2 : ℕ → ℕ
pow2 zero = 1
pow2 (suc k) = pow2 k + pow2 k

pub pow2_pos : (k : ℕ) → 0 < pow2 k
pow2_pos zero = omega arith
pow2_pos (suc k) = omega (arith, pow2_pos k)

-- The numbers of a node of `n` units that is all free, all reserved, or one allocation, which
-- needs more than half of it.
abbrev pub IsTaken : ℕ → ℕ → ℕ → Type 0
IsTaken n m a = (m ≡ 0) × (n < a + a) × (a ≤ n)

abbrev pub IsWhole : ℕ → ℕ → ℕ → Type 0
IsWhole n m a = (((a ≡ 0) × (m ≡ 0)) ⊎ ((a ≡ 0) × (m ≡ n))) ⊎ IsTaken n m a

-- A node with children is divided between them, or both are free and the node is one block.
abbrev pub IsValid : ℕ → Node → Type 0
IsValid k (bare m a) = IsWhole (pow2 k) m a
IsValid zero (split m a l r) = ⊥
IsValid (suc k) (split m a l r) =
    IsValid k l
    × IsValid k r
    × (((a ≡ 0) × (m ≡ combine (max_available l) (max_available r) (pow2 (suc k))))
        ⊎ ((max_available l ≡ pow2 k)
            × (max_available r ≡ pow2 k)
            × (((a ≡ 0) × (m ≡ 0)) ⊎ IsTaken (pow2 (suc k)) m a)))

-- What the tree says of a unit; `used` carries the size asked for.
pub data Cell : Type 0 where
  free : Cell
  reserved : Cell
  used : ℕ → Cell

unfoldable pub cell : ℕ → Node → ℕ → Cell
cell k (bare m a) i = if a == 0 then (if m == 0 then reserved else free) else used a
cell zero (split m a l r) i = reserved
cell (suc k) (split m a l r) i =
    let left = cell k l i in
    let right = cell k r (i - pow2 k) in
    if a == 0
    then (if m == 0 && max_available l == pow2 k
        then reserved
        else if ltb i (pow2 k)
        then left
        else right)
    else used a

-- A live allocation of `req` units at `p`.
abbrev pub Holds : ℕ → Node → ℕ → ℕ → Type 0
Holds k (bare m a) p req = (p ≡ 0) × (a ≡ req) × (0 < req)
Holds zero (split m a l r) p req = ⊥
Holds (suc k) (split m a l r) p req =
    ((p ≡ 0) × (a ≡ req) × (0 < req))
    ⊎ ((a ≡ 0)
        × (m ≡ combine (max_available l) (max_available r) (pow2 (suc k)))
        × (((p < pow2 k) × Holds k l p req) ⊎ ((pow2 k ≤ p) × Holds k r (p - pow2 k) req)))

-- What the parent of halves of `h` units reports: both halves together where both are free, and
-- the better one otherwise.
pub combine_cases :
    (h l r : ℕ)
    → 0 < h
    → l ≤ h
    → r ≤ h
    → ((l ≡ h) × (r ≡ h) × (combine l r (h + h) ≡ h + h))
      ⊎ ((combine l r (h + h) ≤ h)
          × (l ≤ combine l r (h + h))
          × (r ≤ combine l r (h + h))
          × ((combine l r (h + h) ≡ l) ⊎ (combine l r (h + h) ≡ r)))
unfolding combine
combine_cases h l r p hl hr = ground arith

-- The blocks of 2^j units that halving a block of 2^k units gives.
abbrev pub IsBlock : ℕ → ℕ → ℕ → Type 0
IsBlock zero j p = (j ≡ 0) × (p ≡ 0)
IsBlock (suc k) j p =
    ((j ≡ suc k) × (p ≡ 0)) ⊎ (IsBlock k j p ⊎ ((pow2 k ≤ p) × IsBlock k j (p - pow2 k)))

pub IsBlock-self : (k : ℕ) → IsBlock k k 0
IsBlock-self zero = (refl, refl)
IsBlock-self (suc k) = inl (refl, refl)

-- The units that a request takes up: the least power of two that holds it, up to 2^k.
unfoldable pub block_of : ℕ → ℕ → ℕ
block_of zero req = 1
block_of (suc k) req = let rest = block_of k req in if leb req (pow2 k) then rest else pow2 (suc k)

pub block_of_half : (k req : ℕ) → req ≤ pow2 k → block_of (suc k) req ≡ block_of k req
unfolding block_of
block_of_half k req h = rw (le→leb _ _ h) refl

pub block_of_whole : (k req : ℕ) → pow2 k / 2 < req → block_of k req ≡ pow2 k
unfolding block_of
block_of_whole zero req h = refl
block_of_whole (suc k) req h = rw (lt→leb req (pow2 k) (omega arith)) refl

-- No node has more available than its size.
pub max_available-le : (k : ℕ) (t : Node) → IsValid k t → max_available t ≤ pow2 k
max_available-le k (bare m a) v = ground arith
max_available-le zero (split m a l r) v = absurd v
max_available-le (suc k) (split m a l r) v = ground (
  arith,
  pow2_pos k,
  max_available-le k l v.0,
  max_available-le k r v.1,
  combine_cases (pow2 k) (max_available l) (max_available r),
)

-- A node whose halves are not both free.
cell-split :
    (k m : ℕ) (l r : Node) (i : ℕ)
    → (m ≡ 0 → max_available l ≢ pow2 k)
    → cell (suc k) (split m 0 l r) i
      ≡ (if ltb i (pow2 k) then cell k l i else cell k r (i - pow2 k))
unfolding cell
cell-split k m l r i h = elim (Bool-cases (m == 0)) [
  | inl e ↦ rw (e, ne→== _ _ (h ((==_iff _ _).0 e))) refl
  | inr e ↦ rw e refl
]

-- A divided node reads as its halves.
pub cell-divided :
    (k m : ℕ) (l r : Node) (i : ℕ)
    → IsValid k l
    → IsValid k r
    → m ≡ combine (max_available l) (max_available r) (pow2 (suc k))
    → cell (suc k) (split m 0 l r) i
      ≡ (if ltb i (pow2 k) then cell k l i else cell k r (i - pow2 k))
cell-divided k m l r i vl vr e = cell-split k m l r i (λ z q. omega (
  arith,
  pow2_pos k,
  max_available-le k l vl,
  max_available-le k r vr,
  combine_cases (pow2 k) (max_available l) (max_available r),
))

-- A fully available node with children is divided into two that are.
pub full_halves :
    (k m a : ℕ) (l r : Node)
    → IsValid (suc k) (split m a l r)
    → m ≡ pow2 (suc k)
    → (a ≡ 0) × (max_available l ≡ pow2 k) × (max_available r ≡ pow2 k)
full_halves k m a l r v e = ground (
  arith,
  pow2_pos k,
  max_available-le k l v.0,
  max_available-le k r v.1,
  combine_cases (pow2 k) (max_available l) (max_available r),
)

-- A fully available node is free throughout.
pub cell-full :
    (k : ℕ) (t : Node) (i : ℕ) → IsValid k t → max_available t ≡ pow2 k → cell k t i ≡ free
unfolding cell
cell-full k (bare m a) i v e = ground (arith, pow2_pos k)
cell-full zero (split m a l r) i v e = absurd v
cell-full (suc k) (split m a l r) i v e =
    let h = full_halves k m a l r v e in
    ground (arith, pow2_pos k, h, cell-full k l i v.0 h.1, cell-full k r (i - pow2 k) v.1 h.2)

-- An allocation lies inside the block, and nothing is allocated in a free one.
pub Holds-le :
    (k p req : ℕ) (t : Node)
    → IsValid k t
    → Holds k t p req
    → (0 < req) × (req ≤ pow2 k) × (p < pow2 k) × (max_available t < pow2 k)
Holds-le k p req (bare m a) v h = ground (arith, pow2_pos k)
Holds-le zero p req (split m a l r) v h = absurd v
Holds-le (suc k) p req (split m a l r) v (inl h) = ground (arith, pow2_pos k)
Holds-le (suc k) p req (split m a l r) v (inr (z, e, inl (lt, h))) = omega (
  arith,
  Holds-le k p req l v.0 h,
  max_available-le k r v.1,
  combine_cases (pow2 k) (max_available l) (max_available r) (pow2_pos k) (max_available-le k l v.0)
      (max_available-le k r v.1),
)
Holds-le (suc k) p req (split m a l r) v (inr (z, e, inr (le, h))) = omega (
  arith,
  Holds-le k (p - pow2 k) req r v.1 h,
  max_available-le k l v.0,
  combine_cases (pow2 k) (max_available l) (max_available r) (pow2_pos k) (max_available-le k l v.0)
      (max_available-le k r v.1),
)
