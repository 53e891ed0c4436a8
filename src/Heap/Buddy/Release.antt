-- ===== src/Heap/Buddy/Release.antt =====
-- `Node::dealloc` of kernel/src/heap/buddy.rs on live allocations.
use deravel_os.Prelude.{
  ℕ, zero, suc, ◌+◌, ◌-◌, ◌/◌, ◌≤◌, ◌<◌, ltb, ◌==◌, ◌&&◌, ◌≡◌, refl, sym, ◌∙◌, inl, inr, false,
  done, arith, le→ltb, lt→ltb, eq→==, lt_cases, some, ap,
}
use deravel_os.Heap.Buddy.{Node, bare, split, max_available, combine, dealloc, alloc}
use deravel_os.Heap.Buddy.Invariant.{
  pow2, pow2_pos, IsValid, IsTaken, cell, used, Holds, Holds-le, block_of,
}
use deravel_os.Heap.Buddy.Alloc.{half, combine-full, Grants}
use deravel_os.Heap.Buddy.Total.{alloc_lem}
use deravel_os.Heap.Buddy.Dealloc.{
  Frees, whole-Frees, left-Frees, right-Frees, divided, cell-taken_bare, cell-taken_split,
}

dealloc_bare :
    (req n a m p : ℕ)
    → p ≡ 0
    → n / 2 < req
    → m ≡ 0
    → a ≡ req
    → dealloc p req n (bare m a) ≡ done (bare n 0)
unfolding dealloc
dealloc_bare req n a m p z b c d = rw (eq→== _ _ z, lt→ltb _ _ b, eq→== _ _ c, eq→== _ _ d) refl

dealloc_whole :
    (req n a m p : ℕ) (l r : Node)
    → p ≡ 0
    → n / 2 < req
    → m ≡ 0
    → a ≡ req
    → dealloc p req n (split m a l r) ≡ done (split n 0 l r)
unfolding dealloc
dealloc_whole req n a m p l r z b c d =
    rw (eq→== _ _ z, lt→ltb _ _ b, eq→== _ _ c, eq→== _ _ d) refl

not_whole : (p h req : ℕ) → req ≤ h → (p == 0 && ltb h req) ≡ false
not_whole p h req le = ground arith

dealloc_left :
    (p req n m a : ℕ) (l r l' : Node)
    → req ≤ n / 2
    → p < n / 2
    → dealloc p req (n / 2) l ≡ done l'
    → dealloc p req n (split m a l r)
      ≡ done (split (combine (max_available l') (max_available r) n) a l' r)
unfolding dealloc
dealloc_left p req n m a l r l' fit lt e = rw (not_whole p (n / 2) req fit, lt→ltb _ _ lt, e) refl

dealloc_right :
    (p req n m a : ℕ) (l r r' : Node)
    → req ≤ n / 2
    → n / 2 ≤ p
    → dealloc (p - n / 2) req (n / 2) r ≡ done r'
    → dealloc p req n (split m a l r)
      ≡ done (split (combine (max_available l) (max_available r') n) a l r')
unfolding dealloc
dealloc_right p req n m a l r r' fit le e = rw (not_whole p (n / 2) req fit, le→ltb _ _ le, e) refl

IsTaken-split :
    (k m a : ℕ) (l r : Node)
    → IsValid (suc k) (split m a l r)
    → 0 < a
    → (max_available l ≡ pow2 k) × (max_available r ≡ pow2 k) × (IsTaken (pow2 (suc k)) m a)
IsTaken-split k m a l r v h = ground arith

only_whole :
    (k m a : ℕ) (l r : Node) → 0 < a → (q size : ℕ) → Holds (suc k) (split m a l r) q size → q ≡ 0
only_whole k m a l r h q size (inl w) = w.0
only_whole k m a l r h q size (inr w) = absurd (omega arith)

-- dealloc of a live allocation of a well-formed tree finds it, meets no failing assertion, frees
-- exactly the units of its block, keeps every other live allocation and leaves a well-formed tree.
pub dealloc_lem :
    (k req p : ℕ) (t : Node)
    → IsValid k t
    → Holds k t p req
    → (t' : Node) × (dealloc p req (pow2 k) t ≡ done t') × Frees k req t p t'
unfolding divided
dealloc_lem k req p (bare m a) v h =
    let k_taken : IsTaken (pow2 k) m a = ground (arith, pow2_pos k) in
    let big : pow2 k / 2 < req = omega arith in
    (
      bare (pow2 k) 0,
      dealloc_bare req (pow2 k) a m p h.0 big k_taken.0 h.1,
      rw h.0 (
          whole-Frees k req (bare m a) (bare (pow2 k) 0) big
            (λ i. cell-taken_bare k m a i (omega arith) ∙ ap used h.1) (λ q size w. w.0)
            (inl (inr (refl, refl))) refl),
    )
dealloc_lem zero req p (split m a l r) v h = absurd v
dealloc_lem (suc k) req p (split m a l r) v (inl h) =
    let taken = IsTaken-split k m a l r v (omega arith) in
    let big : pow2 (suc k) / 2 < req = omega arith in
    (
      split (pow2 (suc k)) 0 l r,
      dealloc_whole req (pow2 (suc k)) a m p l r h.0 big taken.2.0 h.1,
      rw h.0 (
          whole-Frees (suc k) req (split m a l r) (split (pow2 (suc k)) 0 l r) big
            (λ i. cell-taken_split k m a l r i (omega arith) ∙ ap used h.1)
            (only_whole k m a l r (omega arith))
            (v.0, v.1, inl (refl, rw (taken.0, taken.1) (sym (combine-full (pow2 k))))) refl),
    )
dealloc_lem (suc k) req p (split m a l r) v (inr (z, e, inl (lt, h))) =
    let le = Holds-le k p req l v.0 h in
    let (l', d, f) = dealloc_lem k req p l v.0 h in
    (
      divided k req m l r v.0 v.1 e l' r,
      rw z (dealloc_left p req (pow2 (suc k)) m 0 l r l' (omega arith) (omega arith) (rw half d)),
      rw z (left-Frees k req m l r v.0 v.1 e p l' le.1 f),
    )
dealloc_lem (suc k) req p (split m a l r) v (inr (z, e, inr (ge, h))) =
    let le = Holds-le k (p - pow2 k) req r v.1 h in
    let (r', d, f) = dealloc_lem k req (p - pow2 k) r v.1 h in
    (
      divided k req m l r v.0 v.1 e l r',
      rw z
          (dealloc_right p req (pow2 (suc k)) m 0 l r r' (omega arith) (omega arith) (rw half (d))),
      rw z (right-Frees k req m l r v.0 v.1 e p r' le.1 ge f),
    )

restored :
    (k req p : ℕ) (t t' t'' : Node)
    → Grants k req t p t'
    → Frees k req t' p t''
    → (i : ℕ) → i < pow2 k
    → cell k t'' i ≡ cell k t i
restored k req p t t' t'' g f i b = elim (lt_cases i p) [
  | inl c ↦ f.below i c ∙ g.below i c
  | inr c ↦ elim (lt_cases i (p + block_of k req)) [
    | inl d ↦ f.now_free i c d ∙ sym (g.was_free i c (omega (arith, g.exact)))
    | inr d ↦ f.above i d b ∙ g.above i (omega (arith, g.exact)) b
  ]
]

-- dealloc of what alloc returned succeeds, and every unit reads as before the two calls.
pub dealloc-alloc :
    (f k req : ℕ) (t : Node)
    → k < f
    → 0 < req
    → IsValid k t
    → req ≤ max_available t
    → (p : ℕ) × (t' : Node) × (t'' : Node) × (alloc f req (pow2 k) t ≡ done (t', some p))
      × (dealloc p req (pow2 k) t' ≡ done t'')
      × IsValid k t''
      × ((i : ℕ) → i < pow2 k → cell k t'' i ≡ cell k t i)
dealloc-alloc f k req t lt pos v h =
    let (p, t', e, g) = alloc_lem f k req t lt pos v h in
    let (t'', d, e') = dealloc_lem k req p t' g.valid g.held in
    (p, t', t'', e, d, e'.valid, λ i b. restored k req p t t' t'' g e' i b)
