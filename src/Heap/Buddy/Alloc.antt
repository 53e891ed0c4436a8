-- ===== src/Heap/Buddy/Alloc.antt =====
-- `Node::alloc` of kernel/src/heap/buddy.rs: the effect of an allocation.
use deravel_os.Prelude.{
  ℕ, zero, suc, ◌+◌, ◌-◌, ◌*◌, ◌/◌, ◌≤◌, ◌<◌, ltb, if◌then◌else◌, ◌≡◌, refl, ◌⊎◌, inl, inr, arith,
  le→ltb, lt→ltb, lt_cases, ◌∙◌, sym, subst,
}
use deravel_os.Heap.Buddy.{
  Node, bare, split, max_available, allocated, set_state, combine, get_children,
}
use deravel_os.Heap.Buddy.Invariant.{
  pow2, pow2_pos, IsValid, free, used, cell, Holds, combine_cases, max_available-le, cell-divided,
  cell-full, full_halves, block_of, block_of_half, block_of_whole, Holds-le, IsBlock, IsBlock-self,
}

-- The halves that `alloc` works with.
pub record Opened (k : ℕ) (t l r : Node) : Type 0 where
  pub unused : allocated t ≡ 0
  pub left_valid : IsValid k l
  pub right_valid : IsValid k r
  pub combined : max_available t ≡ combine (max_available l) (max_available r) (pow2 (suc k))
  pub parts :
      (q size : ℕ)
      → Holds (suc k) t q size
      → ((q < pow2 k) × Holds k l q size) ⊎ ((pow2 k ≤ q) × Holds k r (q - pow2 k) size)
  pub reads :
      (i : ℕ)
      → i < pow2 (suc k)
      → cell (suc k) t i ≡ (if ltb i (pow2 k) then cell k l i else cell k r (i - pow2 k))

pub half : (h : ℕ) → (h + h) / 2 ≡ h
half h = omega arith

fresh_half : (k : ℕ) → IsValid k (bare (pow2 (suc k) / 2) 0)
fresh_half k = inl (inr (refl, omega arith))

cell-fresh_half : (k i : ℕ) → cell k (bare (pow2 (suc k) / 2) 0) i ≡ free
cell-fresh_half k i = cell-full k _ i (fresh_half k) (omega arith)

cell_of_bare : (k m i : ℕ) → 0 < m → cell k (bare m 0) i ≡ free
unfolding cell
cell_of_bare k m i h = ground arith

pub combine-full : (h : ℕ) → combine h h (h + h) ≡ h + h
unfolding combine
combine-full h = ground arith

split_parts :
    (k m a : ℕ) (l r : Node) (q size : ℕ)
    → a ≡ 0
    → Holds (suc k) (split m a l r) q size
    → ((q < pow2 k) × Holds k l q size) ⊎ ((pow2 k ≤ q) × Holds k r (q - pow2 k) size)
split_parts k m a l r q size z (inl w) = absurd (omega arith)
split_parts k m a l r q size z (inr w) = w.2

pub get_children-Opened :
    (k : ℕ) (t : Node)
    → IsValid (suc k) t
    → 0 < max_available t
    → Opened k t (get_children t (pow2 (suc k))).0 (get_children t (pow2 (suc k))).1
get_children-Opened k (bare m a) v h =
    let z : a ≡ 0 = ground arith in
    record {
      unused = z;
      left_valid = fresh_half k;
      right_valid = fresh_half k;
      combined = rw (half (pow2 k)) (ground arith ∙ sym (combine-full (pow2 k)));
      parts = λ q size w. absurd (omega arith);
      reads = λ i b.
          rw (z, cell_of_bare (suc k) m i h, cell-fresh_half k i, cell-fresh_half k (i - pow2 k))
            (ground arith);
    }
get_children-Opened k (split m a l r) v h =
    let z : a ≡ 0 = ground arith in
    record {
      unused = z;
      left_valid = v.0;
      right_valid = v.1;
      combined = ground arith;
      parts = λ q size w. split_parts k m a l r q size z w;
      reads = λ i b. rw z (cell-divided k m l r i v.0 v.1 (ground arith));
    }

-- What holds between the tree `t` and the tree `t'` after `req` units were allocated at `p`.
pub record Grants (k req : ℕ) (t : Node) (p : ℕ) (t' : Node) : Type 0 where
  pub block : ℕ
  pub exact : block ≡ block_of k req
  pub fits : req ≤ block
  pub tight : block < req + req
  pub inside : p + block ≤ pow2 k
  pub aligned : (q : ℕ) × (p ≡ q * block)
  pub divides : (q : ℕ) × (pow2 k ≡ q * block)
  pub buddy : (j : ℕ) × (block ≡ pow2 j) × IsBlock k j p
  pub was_free : (i : ℕ) → p ≤ i → i < p + block → cell k t i ≡ free
  pub now_used : (i : ℕ) → p ≤ i → i < p + block → cell k t' i ≡ used req
  pub below : (i : ℕ) → i < p → cell k t' i ≡ cell k t i
  pub above : (i : ℕ) → p + block ≤ i → i < pow2 k → cell k t' i ≡ cell k t i
  pub held : Holds k t' p req
  pub keeps : (q size : ℕ) → Holds k t q size → Holds k t' q size
  pub valid : IsValid k t'

pub max_available-whole :
    (k : ℕ) (t : Node) → IsValid k t → pow2 k / 2 < max_available t → max_available t ≡ pow2 k
max_available-whole k (bare m a) v h = ground arith
max_available-whole zero (split m a l r) v h = absurd v
max_available-whole (suc k) (split m a l r) v h = ground (
  arith,
  pow2_pos k,
  max_available-le k l v.0,
  max_available-le k r v.1,
  combine_cases (pow2 k) (max_available l) (max_available r),
)

set_state-IsValid :
    (k req : ℕ) (t : Node)
    → IsValid k t
    → max_available t ≡ pow2 k
    → pow2 k / 2 < req
    → req ≤ pow2 k
    → IsValid k (set_state t 0 req)
set_state-IsValid k req (bare m a) v e b c = inr (omega arith)
set_state-IsValid zero req (split m a l r) v e b c = absurd v
set_state-IsValid (suc k) req (split m a l r) v e b c =
    let h = full_halves k m a l r v e in (v.0, v.1, inr (h.1, h.2, inr (omega arith)))

cell-set_state :
    (k req : ℕ) (t : Node) (i : ℕ) → IsValid k t → 0 < req → cell k (set_state t 0 req) i ≡ used req
unfolding cell
cell-set_state k req (bare m a) i v h = ground arith
cell-set_state zero req (split m a l r) i v h = absurd v
cell-set_state (suc k) req (split m a l r) i v h = ground arith

set_state-Holds : (k req : ℕ) (t : Node) → IsValid k t → 0 < req → Holds k (set_state t 0 req) 0 req
set_state-Holds k req (bare m a) v h = (refl, refl, h)
set_state-Holds zero req (split m a l r) v h = absurd v
set_state-Holds (suc k) req (split m a l r) v h = inl (refl, refl, h)

-- A whole node is taken.
pub whole-Grants :
    (k req : ℕ) (t : Node)
    → 0 < req
    → IsValid k t
    → max_available t ≡ pow2 k
    → pow2 k / 2 < req
    → req ≤ pow2 k
    → Grants k req t 0 (set_state t 0 req)
whole-Grants k req t h v e b c = record {
  block = pow2 k;
  exact = sym (block_of_whole k req b);
  fits = c;
  tight = omega arith;
  inside = omega arith;
  aligned = (0, omega arith);
  divides = (1, omega arith);
  buddy = (k, refl, IsBlock-self k);
  was_free = λ i _ _. cell-full k t i v e;
  now_used = λ i _ _. cell-set_state k req t i v h;
  below = λ i q. absurd (omega arith);
  above = λ i q s. absurd (omega arith);
  held = set_state-Holds k req t v h;
  keeps = λ q size w. absurd (omega (arith, Holds-le k q size t v w));
  valid = set_state-IsValid k req t v e b c;
}

-- A divided node behind its halves: what one half granted, the node grants.
module _ (k req : ℕ) (t l r : Node) (pos : 0 < req) (o : Opened k t l r) where
  unfoldable pub joined : Node → Node → Node
  joined l' r' =
      split (combine (max_available l') (max_available r') (pow2 (suc k))) (allocated t) l' r'

  joined-IsValid : (l' r' : Node) → IsValid k l' → IsValid k r' → IsValid (suc k) (joined l' r')
  unfolding joined
  joined-IsValid l' r' vl vr = (vl, vr, inl (o.unused, refl))

  joined_left :
      (l' r' : Node) (i : ℕ)
      → IsValid k l'
      → IsValid k r'
      → i < pow2 k
      → cell (suc k) (joined l' r') i ≡ cell k l' i
  unfolding joined
  joined_left l' r' i vl vr h =
      rw (o.unused, cell-divided k _ l' r' i vl vr refl, lt→ltb i (pow2 k) h) refl

  joined_right :
      (l' r' : Node) (i : ℕ)
      → IsValid k l'
      → IsValid k r'
      → pow2 k ≤ i
      → cell (suc k) (joined l' r') i ≡ cell k r' (i - pow2 k)
  unfolding joined
  joined_right l' r' i vl vr h =
      rw (o.unused, cell-divided k _ l' r' i vl vr refl, le→ltb i (pow2 k) h) refl

  reads_left : (i : ℕ) → i < pow2 k → cell (suc k) t i ≡ cell k l i
  reads_left i h = rw (o.reads i (omega arith), lt→ltb i (pow2 k) h) refl

  reads_right : (i : ℕ) → pow2 k ≤ i → i < pow2 (suc k) → cell (suc k) t i ≡ cell k r (i - pow2 k)
  reads_right i h b = rw (o.reads i b, le→ltb i (pow2 k) h) refl

  opened_left :
      (l' : Node) (q size : ℕ)
      → ((q' size' : ℕ) → Holds k l q' size' → Holds k l' q' size')
      → Holds (suc k) t q size
      → Holds (suc k) (joined l' r) q size
  unfolding joined
  opened_left l' q size keep w = elim (o.parts q size w) [
    | inl (lt, h) ↦ inr (o.unused, refl, inl (lt, keep q size h))
    | inr (le, h) ↦ inr (o.unused, refl, inr (le, h))
  ]

  opened_right :
      (r' : Node) (q size : ℕ)
      → ((q' size' : ℕ) → Holds k r q' size' → Holds k r' q' size')
      → Holds (suc k) t q size
      → Holds (suc k) (joined l r') q size
  unfolding joined
  opened_right r' q size keep w = elim (o.parts q size w) [
    | inl (lt, h) ↦ inr (o.unused, refl, inl (lt, h))
    | inr (le, h) ↦ inr (o.unused, refl, inr (le, keep (q - pow2 k) size h))
  ]

  pub left-Grants : (p : ℕ) (l' : Node) → Grants k req l p l' → Grants (suc k) req t p (joined l' r)
  left-Grants p l' g = record {
    block = g.block;
    exact = g.exact ∙ sym (block_of_half k req (omega (arith, g.inside, g.fits)));
    fits = g.fits;
    tight = g.tight;
    inside = omega (arith, g.inside);
    aligned = g.aligned;
    divides = (g.divides.0 + g.divides.0, grind (arith, g.divides.1));
    buddy = (g.buddy.0, g.buddy.1, inr (inl g.buddy.2));
    was_free = λ i a b. reads_left i (omega (arith, g.inside)) ∙ g.was_free i a b;
    now_used = λ i a b.
        joined_left l' r i g.valid o.right_valid (omega (arith, g.inside)) ∙ g.now_used i a b;
    below = λ i a.
        joined_left l' r i g.valid o.right_valid (omega (arith, g.inside))
        ∙ g.below i a
        ∙ sym (reads_left i (omega (arith, g.inside)));
    above = λ i a b. elim (lt_cases i (pow2 k)) [
      | inl c ↦ joined_left l' r i g.valid o.right_valid c ∙ g.above i a c ∙ sym (reads_left i c)
      | inr c ↦ joined_right l' r i g.valid o.right_valid c ∙ sym (reads_right i c b)
    ];
    held = unfold joined in inr (o.unused, refl, inl (omega (arith, g.inside, g.fits), g.held));
    keeps = λ q size w. opened_left l' q size g.keeps w;
    valid = joined-IsValid l' r g.valid o.right_valid;
  }

  pub right-Grants :
      (p : ℕ) (r' : Node) → Grants k req r p r' → Grants (suc k) req t (p + pow2 k) (joined l r')
  right-Grants p r' g = record {
    block = g.block;
    exact = g.exact ∙ sym (block_of_half k req (omega (arith, g.inside, g.fits)));
    fits = g.fits;
    tight = g.tight;
    inside = omega (arith, g.inside);
    aligned = (g.aligned.0 + g.divides.0, grind (arith, g.divides.1, g.aligned.1));
    divides = (g.divides.0 + g.divides.0, grind (arith, g.divides.1));
    buddy = (
      g.buddy.0,
      g.buddy.1,
      inr (inr (omega arith, subst (λ x. IsBlock k g.buddy.0 x) (omega arith) g.buddy.2)),
    );
    was_free = λ i a b.
        reads_right i (omega arith) (omega (arith, g.inside))
        ∙ g.was_free (i - pow2 k) (omega arith) (omega arith);
    now_used = λ i a b.
        joined_right l r' i o.left_valid g.valid (omega arith)
        ∙ g.now_used (i - pow2 k) (omega arith) (omega arith);
    below = λ i a. elim (lt_cases i (pow2 k)) [
      | inl c ↦ joined_left l r' i o.left_valid g.valid c ∙ sym (reads_left i c)
      | inr c ↦
          joined_right l r' i o.left_valid g.valid c
          ∙ g.below (i - pow2 k) (omega arith)
          ∙ sym (reads_right i c (omega (arith, g.inside)))
    ];
    above = λ i a b.
        joined_right l r' i o.left_valid g.valid (omega arith)
        ∙ g.above (i - pow2 k) (omega arith) (omega arith)
        ∙ sym (reads_right i (omega arith) b);
    held =
        unfold joined in
        inr (o.unused, refl, inr (omega arith, subst (λ x. Holds k r' x req) (omega arith) g.held));
    keeps = λ q size w. opened_right r' q size g.keeps w;
    valid = joined-IsValid l r' o.left_valid g.valid;
  }
