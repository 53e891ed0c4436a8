-- ===== src/Heap/Buddy/Dealloc.antt =====
-- `Node::dealloc` of kernel/src/heap/buddy.rs: its effect on a live allocation.
use deravel_os.Prelude.{
  ℕ, suc, ◌+◌, ◌-◌, ◌/◌, ◌≤◌, ◌<◌, ◌≡◌, ◌≢◌, refl, sym, ◌∙◌, inl, inr, arith, le→ltb, lt→ltb,
  lt_cases,
}
use deravel_os.Heap.Buddy.{Node, bare, split, max_available, combine}
use deravel_os.Heap.Buddy.Invariant.{
  pow2, IsValid, free, used, cell, Holds, block_of, block_of_half, block_of_whole, cell-divided,
  cell-full,
}

-- What holds between the tree `t` and the tree `t'` after the `req` units at `p` were given back.
pub record Frees (k req : ℕ) (t : Node) (p : ℕ) (t' : Node) : Type 0 where
  pub inside : p + block_of k req ≤ pow2 k
  pub was_used : (i : ℕ) → p ≤ i → i < p + block_of k req → cell k t i ≡ used req
  pub now_free : (i : ℕ) → p ≤ i → i < p + block_of k req → cell k t' i ≡ free
  pub below : (i : ℕ) → i < p → cell k t' i ≡ cell k t i
  pub above : (i : ℕ) → p + block_of k req ≤ i → i < pow2 k → cell k t' i ≡ cell k t i
  pub keeps : (q size : ℕ) → q ≢ p → Holds k t q size → Holds k t' q size
  pub valid : IsValid k t'

-- A node that is one allocation becomes free.
module _ (k req : ℕ) (t t' : Node) (big : pow2 k / 2 < req) where
  pub whole-Frees :
      ((i : ℕ) → cell k t i ≡ used req)
      → ((q size : ℕ) → Holds k t q size → q ≡ 0)
      → IsValid k t'
      → max_available t' ≡ pow2 k
      → Frees k req t 0 t'
  whole-Frees c only v e =
      let b = block_of_whole k req big in
      record {
        inside = omega (arith, b);
        was_used = λ i _ _. c i;
        now_free = λ i _ _. cell-full k t' i v e;
        below = λ i h. absurd (omega arith);
        above = λ i h s. absurd (omega (arith, b));
        keeps = λ q size ne h. absurd (ne (only q size h));
        valid = v;
      }

pub cell-taken_bare : (k m a i : ℕ) → 0 < a → cell k (bare m a) i ≡ used a
unfolding cell
cell-taken_bare k m a i h = ground arith

pub cell-taken_split :
    (k m a : ℕ) (l r : Node) (i : ℕ) → 0 < a → cell (suc k) (split m a l r) i ≡ used a
unfolding cell
cell-taken_split k m a l r i h = ground arith

-- A divided node behind its halves.
module _ (k req m : ℕ) (l r : Node) (vl : IsValid k l) (vr : IsValid k r)
    (e : m ≡ combine (max_available l) (max_available r) (pow2 (suc k))) where
  unfoldable pub divided : Node → Node → Node
  divided l' r' = split (combine (max_available l') (max_available r') (pow2 (suc k))) 0 l' r'

  pub reads_left : (i : ℕ) → i < pow2 k → cell (suc k) (split m 0 l r) i ≡ cell k l i
  reads_left i h = rw (cell-divided k m l r i vl vr e, lt→ltb i (pow2 k) h) refl

  pub reads_right : (i : ℕ) → pow2 k ≤ i → cell (suc k) (split m 0 l r) i ≡ cell k r (i - pow2 k)
  reads_right i h = rw (cell-divided k m l r i vl vr e, le→ltb i (pow2 k) h) refl

  divided_left :
      (l' r' : Node) (i : ℕ)
      → IsValid k l'
      → IsValid k r'
      → i < pow2 k
      → cell (suc k) (divided l' r') i ≡ cell k l' i
  unfolding divided
  divided_left l' r' i wl wr h = rw (cell-divided k _ l' r' i wl wr refl, lt→ltb i (pow2 k) h) refl

  divided_right :
      (l' r' : Node) (i : ℕ)
      → IsValid k l'
      → IsValid k r'
      → pow2 k ≤ i
      → cell (suc k) (divided l' r') i ≡ cell k r' (i - pow2 k)
  unfolding divided
  divided_right l' r' i wl wr h = rw (cell-divided k _ l' r' i wl wr refl, le→ltb i (pow2 k) h) refl

  pub left-Frees :
      (p : ℕ) (l' : Node)
      → req ≤ pow2 k
      → Frees k req l p l'
      → Frees (suc k) req (split m 0 l r) p (divided l' r)
  left-Frees p l' fit f =
      let b = block_of_half k req fit in
      record {
        inside = omega (arith, b, f.inside);
        was_used =
            λ i s t. reads_left i (omega (arith, b, f.inside)) ∙ f.was_used i s (omega (arith, b));
        now_free = λ i s t.
            divided_left l' r i f.valid vr (omega (arith, b, f.inside))
            ∙ f.now_free i s (omega (arith, b));
        below = λ i s.
            divided_left l' r i f.valid vr (omega (arith, f.inside))
            ∙ f.below i s
            ∙ sym (reads_left i (omega (arith, f.inside)));
        above = λ i s t. elim (lt_cases i (pow2 k)) [
          | inl c ↦
              divided_left l' r i f.valid vr c
              ∙ f.above i (omega (arith, b)) c
              ∙ sym (reads_left i c)
          | inr c ↦ divided_right l' r i f.valid vr c ∙ sym (reads_right i c)
        ];
        keeps = λ q size ne w.
            unfold divided in
            elim w [
              | inl h ↦ absurd (omega arith)
              | inr (z, _, inl (lt, h)) ↦ inr (refl, refl, inl (lt, f.keeps q size ne h))
              | inr (z, _, inr (le, h)) ↦ inr (refl, refl, inr (le, h))
            ];
        valid = unfold divided in (f.valid, vr, inl (refl, refl));
      }

  pub right-Frees :
      (p : ℕ) (r' : Node)
      → req ≤ pow2 k
      → pow2 k ≤ p
      → Frees k req r (p - pow2 k) r'
      → Frees (suc k) req (split m 0 l r) p (divided l r')
  right-Frees p r' fit ge f =
      let b = block_of_half k req fit in
      record {
        inside = omega (arith, b, f.inside);
        was_used = λ i s t.
            reads_right i (omega arith) ∙ f.was_used (i - pow2 k) (omega arith) (omega (arith, b));
        now_free = λ i s t.
            divided_right l r' i vl f.valid (omega arith)
            ∙ f.now_free (i - pow2 k) (omega arith) (omega (arith, b));
        below = λ i s. elim (lt_cases i (pow2 k)) [
          | inl c ↦ divided_left l r' i vl f.valid c ∙ sym (reads_left i c)
          | inr c ↦
              divided_right l r' i vl f.valid c
              ∙ f.below (i - pow2 k) (omega arith)
              ∙ sym (reads_right i c)
        ];
        above = λ i s t.
            divided_right l r' i vl f.valid (omega arith)
            ∙ f.above (i - pow2 k) (omega (arith, b)) (omega arith)
            ∙ sym (reads_right i (omega arith));
        keeps = λ q size ne w.
            unfold divided in
            elim w [
              | inl h ↦ absurd (omega arith)
              | inr (z, _, inl (lt, h)) ↦ inr (refl, refl, inl (lt, h))
              | inr (z, _, inr (le, h)) ↦
                  inr (refl, refl, inr (le, f.keeps (q - pow2 k) size (omega arith) h))
            ];
        valid = unfold divided in (vl, f.valid, inl (refl, refl));
      }
