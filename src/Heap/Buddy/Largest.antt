-- ===== src/Heap/Buddy/Largest.antt =====
-- `max_available` of kernel/src/heap/buddy.rs and the free buddy blocks.
use deravel_os.Prelude.{
  ℕ, zero, suc, ◌+◌, ◌-◌, ◌≤◌, ◌<◌, ◌≡◌, ◌≢◌, sym, ◌∙◌, inl, inr, arith, done, none, lt_cases, ◌↔◌,
}
use deravel_os.Heap.Buddy.{Node, bare, split, max_available, combine, alloc}
use deravel_os.Heap.Buddy.Invariant.{
  pow2, pow2_pos, IsValid, free, cell, combine_cases, max_available-le, IsBlock, IsBlock-self,
}
use deravel_os.Heap.Buddy.Total.{alloc_lem, alloc_refuses}
use deravel_os.Heap.Buddy.Alloc.{combine-full}
use deravel_os.Heap.Buddy.Dealloc.{reads_left, reads_right}

abbrev pub IsFree : ℕ → Node → ℕ → ℕ → Type 0
IsFree k t j p = (i : ℕ) → p ≤ i → i < p + pow2 j → cell k t i ≡ free

block_inside : (k j p : ℕ) → IsBlock k j p → p + pow2 j ≤ pow2 k
block_inside zero j p (a, b) = rw (a, b) (omega arith)
block_inside (suc k) j p (inl (a, b)) = rw (a, b) (omega arith)
block_inside (suc k) j p (inr (inl b)) = omega (arith, block_inside k j p b)
block_inside (suc k) j p (inr (inr (h, b))) = omega (arith, block_inside k j (p - pow2 k) b)

bare_free : (k m a i : ℕ) → cell k (bare m a) i ≡ free → (a ≡ 0) × (m ≢ 0)
unfolding cell
bare_free k m a i h = ground arith

-- A node with children that has a free unit is divided.
split_free :
    (k m a : ℕ) (l r : Node) (i : ℕ)
    → IsValid (suc k) (split m a l r)
    → cell (suc k) (split m a l r) i ≡ free
    → (a ≡ 0) × (m ≡ combine (max_available l) (max_available r) (pow2 (suc k)))
unfolding cell
split_free k m a l r i (vl, vr, inl d) h = d
split_free k m a l r i (vl, vr, inr (el, er, inl (za, zm))) h = absurd (ground arith)
split_free k m a l r i (vl, vr, inr (el, er, inr w)) h = absurd (ground (arith, pow2_pos k))

-- A part of a free range of a divided node is free in the half that holds it.
module _ (k m : ℕ) (l r : Node) (vl : IsValid k l) (vr : IsValid k r)
    (e : m ≡ combine (max_available l) (max_available r) (pow2 (suc k))) where
  IsFree-left :
      (j p : ℕ) → p + pow2 j ≤ pow2 k → IsFree (suc k) (split m 0 l r) j p → IsFree k l j p
  IsFree-left j p b f i s t = sym (reads_left k 0 m l r vl vr e i (omega arith)) ∙ f i s t

  IsFree-right :
      (j p : ℕ) → pow2 k ≤ p → IsFree (suc k) (split m 0 l r) j p → IsFree k r j (p - pow2 k)
  IsFree-right j p b f i s t =
      sym (rw (shift i) at (reads_right k 0 m l r vl vr e (i + pow2 k) (omega arith)))
      ∙ f (i + pow2 k) (omega arith) (omega arith)
    where
      shift : (i : ℕ) → i + pow2 k - pow2 k ≡ i
      shift i = omega arith

zero_based : (k : ℕ) (t : Node) → IsFree k t k (pow2 k - pow2 k) → IsFree k t k 0
zero_based k t f i s b = f i (omega arith) (omega arith)

-- A divided node reports at least what each half does.
better :
    (k m : ℕ) (l r : Node)
    → IsValid k l
    → IsValid k r
    → m ≡ combine (max_available l) (max_available r) (pow2 (suc k))
    → (max_available l ≤ m) × (max_available r ≤ m)
better k m l r vl vr e = omega (
  arith,
  max_available-le k l vl,
  max_available-le k r vr,
  combine_cases (pow2 k) (max_available l) (max_available r) (pow2_pos k) (max_available-le k l vl)
      (max_available-le k r vr),
)

-- Two full halves make one block.
both_full :
    (k m : ℕ) (l r : Node)
    → IsValid k l
    → IsValid k r
    → m ≡ combine (max_available l) (max_available r) (pow2 (suc k))
    → pow2 k ≤ max_available l
    → pow2 k ≤ max_available r
    → pow2 (suc k) ≤ m
both_full k m l r vl vr e hl hr =
    let el : max_available l ≡ pow2 k = omega (arith, max_available-le k l vl) in
    let er : max_available r ≡ pow2 k = omega (arith, max_available-le k r vr) in
    rw (e, el, er, combine-full (pow2 k)) (omega arith)

-- In a well-formed tree, a free buddy block is never larger than what the root reports as
-- available.
pub IsFree-le :
    (k j p : ℕ) (t : Node) → IsValid k t → IsBlock k j p → IsFree k t j p → pow2 j ≤ max_available t
IsFree-le k j p (bare m a) v b f =
    let (z, n) = bare_free k m a p (f p (omega arith) (omega (arith, pow2_pos j))) in
    omega (arith, block_inside k j p b)
IsFree-le zero j p (split m a l r) v b f = absurd v
IsFree-le (suc k) j p (split m a l r) v (inl (ej, ep)) f =
    let f' : IsFree (suc k) (split m a l r) (suc k) 0 = rw (ej, ep) at f in
    let (z, e) = split_free k m a l r 0 v (f' 0 (omega arith) (omega (arith, pow2_pos k))) in
    let g : IsFree (suc k) (split m 0 l r) (suc k) 0 = rw z at f' in
    rw ej (
      both_full k m l r v.0 v.1 e
        (IsFree-le k k 0 l v.0 (IsBlock-self k)
          (IsFree-left k m l r v.0 v.1 e k 0 (omega arith) (λ i s t. g i s (omega arith))))
        (IsFree-le k k 0 r v.1 (IsBlock-self k) (
          zero_based k r (
            IsFree-right k m l r v.0 v.1 e k (pow2 k) (omega arith)
              (λ i s t. g i (omega arith) (omega arith))))))
IsFree-le (suc k) j p (split m a l r) v (inr (inl b)) f =
    let (z, e) = split_free k m a l r p v (f p (omega arith) (omega (arith, pow2_pos j))) in
    let g : IsFree (suc k) (split m 0 l r) j p = rw z at f in
    let ih = IsFree-le k j p l v.0 b (IsFree-left k m l r v.0 v.1 e j p (block_inside k j p b) g) in
    omega (arith, ih, better k m l r v.0 v.1 e)
IsFree-le (suc k) j p (split m a l r) v (inr (inr (h, b))) f =
    let (z, e) = split_free k m a l r p v (f p (omega arith) (omega (arith, pow2_pos j))) in
    let g : IsFree (suc k) (split m 0 l r) j p = rw z at f in
    let ih = IsFree-le k j (p - pow2 k) r v.1 b (IsFree-right k m l r v.0 v.1 e j p h g) in
    omega (arith, ih, better k m l r v.0 v.1 e)

-- On a well-formed tree, alloc refuses a positive request and changes nothing exactly when every
-- free buddy block is smaller than the request.
pub alloc_refuses_iff :
    (f k req : ℕ) (t : Node)
    → k < suc f
    → 0 < req
    → IsValid k t
    → (alloc (suc f) req (pow2 k) t ≡ done (t, none))
      ↔ ((j p : ℕ) → IsBlock k j p → IsFree k t j p → pow2 j < req)
alloc_refuses_iff f k req t lt pos v = (
  λ e j p b room. elim (lt_cases (max_available t) req) [
    | inl below ↦ omega (arith, IsFree-le k j p t v b room)
    | inr ge ↦ let (q, t', e', g) = alloc_lem (suc f) k req t lt pos v ge in absurd (cc (e', e))
  ],
  λ none_fits. elim (lt_cases (max_available t) req) [
    | inl below ↦ alloc_refuses f req (pow2 k) t below
    | inr ge ↦
        let (q, t', e, g) = alloc_lem (suc f) k req t lt pos v ge in
        let (j, size, b) = g.buddy in
        absurd (omega (arith, g.fits, none_fits j q b (λ i s c. g.was_free i s (omega arith))))
  ],
)
