-- ===== src/Heap/Buddy/Fresh.antt =====
-- `Node::new` of kernel/src/heap/buddy.rs.
use deravel_os.Prelude.{
  ℕ, zero, suc, ◌-◌, ◌/◌, ◌≤◌, ◌<◌, min, ltb, if◌then◌else◌, ◌≡◌, refl, inl, inr, done, arith,
  le→ltb, lt→ltb, eq→==, ne→==, lt_cases, ◌⊎◌,
}
use deravel_os.Heap.Buddy.{Node, bare, split, max_available, combine, new}
use deravel_os.Heap.Buddy.Invariant.{
  pow2, pow2_pos, IsValid, free, reserved, cell, cell-divided, cell-full,
}
use deravel_os.Heap.Buddy.Alloc.{half}

-- What `new` builds.
pub record IsFresh (k size : ℕ) (t : Node) : Type 0 where
  pub valid : IsValid k t
  pub inside : (i : ℕ) → i < size → cell k t i ≡ free
  pub outside : (i : ℕ) → size ≤ i → i < pow2 k → cell k t i ≡ reserved

cell-empty : (k i : ℕ) → cell k (bare 0 0) i ≡ reserved
unfolding cell
cell-empty k i = refl

empty-IsFresh : (k : ℕ) → IsFresh k 0 (bare 0 0)
empty-IsFresh k = record {
  valid = inl (inl (refl, refl));
  inside = λ i h. absurd (omega arith);
  outside = λ i _ _. cell-empty k i;
}

full-IsFresh : (k : ℕ) → IsFresh k (pow2 k) (bare (pow2 k) 0)
full-IsFresh k = record {
  valid = inl (inr (refl, refl));
  inside = λ i _. cell-full k (bare (pow2 k) 0) i (inl (inr (refl, refl))) refl;
  outside = λ i a b. absurd (omega arith);
}

new_empty : (f n : ℕ) → new (suc f) 0 n ≡ done (bare 0 0)
unfolding new
new_empty f n = refl

new_full : (f n : ℕ) → 0 < n → new (suc f) n n ≡ done (bare n 0)
unfolding new
new_full f n h = rw (ne→== n 0 (omega arith), eq→== n n refl) refl

new_split :
    (f size n : ℕ) (l r : Node)
    → 0 < size
    → size < n
    → new f (min (n / 2) size) (n / 2) ≡ done l
    → new f (size - n / 2) (n / 2) ≡ done r
    → new (suc f) size n ≡ done (split (combine (max_available l) (max_available r) n) 0 l r)
unfolding new
new_split f size n l r a b el er =
    rw (ne→== size 0 (omega arith), ne→== size n (omega arith), lt→ltb _ _ b, el, er) refl

split-IsFresh :
    (k size : ℕ) (l r : Node)
    → IsFresh k (min (pow2 k) size) l
    → IsFresh k (size - pow2 k) r
    → IsFresh
        (suc k)
        size
        (split (combine (max_available l) (max_available r) (pow2 (suc k))) 0 l r)
split-IsFresh k size l r fl fr = record {
  valid = (fl.valid, fr.valid, inl (refl, refl));
  inside = λ i h. elim (lt_cases i (pow2 k)) [
    | inl c ↦ rw (reads i, lt→ltb _ _ c) (fl.inside i (omega arith))
    | inr c ↦ rw (reads i, le→ltb _ _ c) (fr.inside (i - pow2 k) (omega arith))
  ];
  outside = λ i a b. elim (lt_cases i (pow2 k)) [
    | inl c ↦ rw (reads i, lt→ltb _ _ c) (fl.outside i (omega arith) c)
    | inr c ↦ rw (reads i, le→ltb _ _ c) (fr.outside (i - pow2 k) (omega arith) (omega arith))
  ];
}
  where
    reads :
        (i : ℕ)
        → cell (suc k) (split (combine (max_available l) (max_available r) (pow2 (suc k))) 0 l r) i
          ≡ (if ltb i (pow2 k) then cell k l i else cell k r (i - pow2 k))
    reads i = cell-divided k _ l r i fl.valid fr.valid refl

size_cases : (size n : ℕ) → size ≤ n → (size ≡ 0) ⊎ ((size ≡ n) ⊎ ((0 < size) × (size < n)))
size_cases size n h = ground arith

-- new, with fuel above k, ends, meets its assertion, and builds a well-formed tree of 2^k units
-- with exactly the units below size free.
pub new_lem :
    (f k size : ℕ)
    → k < f
    → size ≤ pow2 k
    → (t : Node) × (new f size (pow2 k) ≡ done t) × IsFresh k size t
new_lem zero k size lt h = absurd (omega arith)
new_lem (suc f) zero size lt h = elim (size_cases size 1 h) [
  | inl e ↦ (bare 0 0, rw e (new_empty f 1), rw e (empty-IsFresh 0))
  | inr (inl e) ↦ (bare 1 0, rw e (new_full f 1 (omega arith)), rw e (full-IsFresh 0))
  | inr (inr c) ↦ absurd (omega arith)
]
new_lem (suc f) (suc k) size lt h =
    let (l, el, fl) = new_lem f k (min (pow2 k) size) (omega arith) (omega arith) in
    let (r, er, fr) = new_lem f k (size - pow2 k) (omega arith) (omega arith) in
    elim (size_cases size (pow2 (suc k)) h) [
      | inl e ↦ (bare 0 0, rw e (new_empty f (pow2 (suc k))), rw e (empty-IsFresh (suc k)))
      | inr (inl e) ↦ (
        bare (pow2 (suc k)) 0,
        rw e (new_full f (pow2 (suc k)) (pow2_pos (suc k))),
        rw e (full-IsFresh (suc k)),
      )
      | inr (inr c) ↦ (
        split (combine (max_available l) (max_available r) (pow2 (suc k))) 0 l r,
        new_split f size (pow2 (suc k)) l r c.0 c.1 (rw half el) (rw half er),
        split-IsFresh k size l r fl fr,
      )
    ]
