-- ===== src/RingBuffer/Refine.antt =====
-- The ring of types/src/ring_buffer.rs and the queue that it stands for.
use deravel_os.Prelude.{
  ℕ, zero, suc, ◌+◌, ◌%◌, ◌-◌, ◌≤◌, ◌<◌, ◌≡◌, ◌≢◌, refl, ap, ap₂, sym, ◌∙◌, List, [], ◌∷◌, ◌++◌,
  length, get_elem?, set, get_elem?-set_self, get_elem?-set_ne, get_elem?_of_lt, length-set, Option,
  none, some, done, panic, arith, lt→ltb, le→ltb, le→leb, lt→leb, usize_mod, ◌⊎◌, inl, inr,
  lt_cases,
}
use native.Mathlib.Nat.{div-add-mod, mod-lt}
use deravel_os.RingBuffer.{RingBuffer, push, poll}

-- Two counters less than a lap apart use different slots.
pub mod_ne : (n a b : ℕ) → 0 < n → a < b → b < a + n → b % n ≢ a % n
mod_ne n a b pos lt near e = absurd (grind (arith, e, div-add-mod a n, div-add-mod b n))

module _ {ℓ} {A : Type ℓ} where
  -- The elements of `count` counters from `at` on, in `n` slots.
  abbrev pub window : ℕ → List A → ℕ → ℕ → List (Option A)
  window n slots at zero = []
  window n slots at (suc count) = get_elem? slots (at % n) ∷ window n slots (suc at) count

  -- Oldest first; `none` would be a slot out of range.
  abbrev pub contents : RingBuffer A → List (Option A)
  contents r = window (length r.slots) r.slots r.read (r.written - r.read)

  pub record IsValid (r : RingBuffer A) : Type 0 where
    pub nonempty : 0 < length r.slots
    pub ordered : r.read ≤ r.written
    pub bounded : r.written ≤ r.read + length r.slots
    pub small : r.read + length r.slots + 1 < usize_mod

  window-set :
      (n : ℕ) (slots : List A) (v : A) (c at i : ℕ)
      → 0 < n
      → n ≡ length slots
      → c < n
      → i ≡ at + c
      → window n (set slots (i % n) v) at (suc c) ≡ window n slots at c ++ (some v ∷ [])
  window-set n slots v zero at i pos len h e =
      let q : i ≡ at = omega arith in
      rw q (ap (λ x. x ∷ []) (get_elem?-set_self slots (at % n) v (omega (arith, mod-lt at pos))))
  window-set n slots v (suc c) at i pos len h e =
      ap₂ ◌∷◌
        (get_elem?-set_ne slots (i % n) (at % n) v (mod_ne n at i pos (omega arith) (omega arith)))
        (window-set n slots v c (suc at) i pos len (omega arith) (omega arith))

  pub window_of_lt :
      (n : ℕ) (slots : List A) (at c : ℕ)
      → 0 < c
      → window n slots at c ≡ get_elem? slots (at % n) ∷ window n slots (suc at) (c - 1)
  window_of_lt n slots at zero h = absurd (omega arith)
  window_of_lt n slots at (suc c) h =
      ap (λ k. get_elem? slots (at % n) ∷ window n slots (suc at) k) (omega arith)

  pushed : RingBuffer A → A → RingBuffer A
  pushed r v = record r {
    slots = set r.slots (r.written % length r.slots) v;
    written = r.written + 1;
  }

  push_eq :
      (r : RingBuffer A) (v : A)
      → r.read + length r.slots < usize_mod
      → r.written < r.read + length r.slots
      → r.written + 1 < usize_mod
      → push r v ≡ done (pushed r v)
  unfolding push pushed
  push_eq r v a b c = rw (lt→ltb _ _ a, lt→ltb _ _ b, lt→ltb _ _ c) refl

  push_full :
      (r : RingBuffer A) (v : A)
      → r.read + length r.slots < usize_mod
      → r.read + length r.slots ≤ r.written
      → push r v ≡ panic
  unfolding push
  push_full r v a b = rw (lt→ltb _ _ a, le→ltb _ _ b) refl

  appended :
      (r : RingBuffer A) (v : A)
      → IsValid r
      → r.written < r.read + length r.slots
      → contents (pushed r v) ≡ contents r ++ (some v ∷ [])
  unfolding pushed
  appended r v k lt =
      let n = length r.slots in
      let c : r.written + 1 - r.read ≡ suc (r.written - r.read) = omega (arith, k.ordered) in
      rw (length-set, c)
        (window-set n r.slots v (r.written - r.read) r.read r.written k.nonempty refl
          (omega (arith, k.ordered)) (omega (arith, k.ordered)))

  empty_window : (r : RingBuffer A) → r.written - r.read ≡ 0 → contents r ≡ []
  empty_window r e = rw e refl

  poll_empty : (r : RingBuffer A) → r.written ≤ r.read → poll r ≡ done (r, none)
  unfolding poll
  poll_empty r h = rw (le→leb _ _ h) refl

  poll-some :
      (r : RingBuffer A) (v : A)
      → r.read < r.written
      → get_elem? r.slots (r.read % length r.slots) ≡ some v
      → r.read + 1 < usize_mod
      → poll r ≡ done (record r { read = r.read + 1 }, some v)
  unfolding poll
  poll-some r v h e s = rw (lt→leb _ _ h, e, lt→ltb _ _ s) refl

  taken :
      (r : RingBuffer A) (v : A)
      → r.read < r.written
      → get_elem? r.slots (r.read % length r.slots) ≡ some v
      → contents r ≡ some v ∷ contents (record r { read = r.read + 1 })
  taken r v h e =
      let n = length r.slots in
      let c : r.written - (r.read + 1) ≡ r.written - r.read - 1 = omega arith in
      let d : r.read + 1 ≡ suc r.read = omega arith in
      window_of_lt n r.slots r.read (r.written - r.read) (omega arith)
      ∙ ap₂ ◌∷◌ e (rw c (ap (λ k. window n r.slots k (r.written - r.read - 1)) (sym d)))

  -- On a valid ring, push appends the value to the contents if a slot is free, and panics exactly
  -- if all are taken.
  pub push_lem :
      (r : RingBuffer A) (v : A)
      → IsValid r
      → ((r.written < r.read + length r.slots)
          × ((r' : RingBuffer A) × (push r v ≡ done r')
              × (contents r' ≡ contents r ++ (some v ∷ []))
              × (length r'.slots ≡ length r.slots)
              × (r'.read ≡ r.read)
              × (r'.written ≡ r.written + 1)))
        ⊎ ((r.written ≡ r.read + length r.slots) × (push r v ≡ panic))
  unfolding pushed
  push_lem r v k = elim (lt_cases r.written (r.read + length r.slots)) [
    | inl lt ↦ inl (
      lt,
      (
        pushed r v,
        push_eq r v (omega (arith, k.small)) lt (omega (arith, k.small)),
        appended r v k lt,
        length-set r.slots (r.written % length r.slots) v,
        refl,
        refl,
      ),
    )
    | inr ge ↦ inr (omega (arith, k.bounded), push_full r v (omega (arith, k.small)) ge)
  ]

  -- On a valid ring, poll takes the oldest of the contents, and returns nothing and changes nothing
  -- exactly if there are none.
  pub poll_lem :
      (r : RingBuffer A)
      → IsValid r
      → ((contents r ≡ []) × (poll r ≡ done (r, none)))
        ⊎ ((v : A) × (poll r ≡ done (record r { read = r.read + 1 }, some v))
            × (contents r ≡ some v ∷ contents (record r { read = r.read + 1 }))
            × (r.read < r.written))
  poll_lem r k = elim (lt_cases r.read r.written) [
    | inr ge ↦ inl (empty_window r (omega arith), poll_empty r ge)
    | inl lt ↦
        let (v, e) = get_elem?_of_lt r.slots (r.read % length r.slots) (mod-lt r.read k.nonempty) in
        inr (v, poll-some r v lt e (omega (arith, k.small)), taken r v lt e, lt)
  ]

  -- On a valid ring used by one thread, push appends the value to the contents if a slot is free
  -- and panics exactly if all are taken, and poll takes the oldest of the contents and returns
  -- nothing and changes nothing exactly if there are none.
  pub queue_lem :
      (r : RingBuffer A) (v : A)
      → IsValid r
      → (((r.written < r.read + length r.slots)
            × ((r' : RingBuffer A) × (push r v ≡ done r')
                × (contents r' ≡ contents r ++ (some v ∷ []))
                × (length r'.slots ≡ length r.slots)
                × (r'.read ≡ r.read)
                × (r'.written ≡ r.written + 1)))
          ⊎ ((r.written ≡ r.read + length r.slots) × (push r v ≡ panic)))
        × (((contents r ≡ []) × (poll r ≡ done (r, none)))
            ⊎ ((u : A) × (poll r ≡ done (record r { read = r.read + 1 }, some u))
                × (contents r ≡ some u ∷ contents (record r { read = r.read + 1 }))
                × (r.read < r.written)))
  queue_lem r v k = (push_lem r v k, poll_lem r k)
