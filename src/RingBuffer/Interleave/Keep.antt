-- ===== src/RingBuffer/Interleave/Keep.antt =====
-- `push` and `poll` of types/src/ring_buffer.rs at the same time: what the steps keep.
use deravel_os.Prelude.{
  ℕ, zero, suc, ◌+◌, ◌%◌, ◌-◌, ◌≤◌, ◌<◌, ◌≡◌, refl, ap, ap₂, sym, ◌∙◌, ltb, ◌&&◌, Bool-cases, inl,
  inr, ltb→lt, List, [], ◌∷◌, ◌++◌, map, length, get_elem?, set, Option, none, some,
  get_elem?-set_self, get_elem?-set_ne, length-set, usize_mod, arith, Bool, true,
}
use native.Mathlib.Nat.{mod-lt}
use deravel_os.RingBuffer.{RingBuffer}
use deravel_os.RingBuffer.Refine.{window, mod_ne}
use deravel_os.RingBuffer.Interleave.{Producer, Consumer, System, push_step}

and_right : (a b : Bool) → (a && b) ≡ true → b ≡ true
and_right a b h = ground arith

module _ {A : Type 0} where
  -- A write behind the window leaves it alone.
  window-set_past :
      (n : ℕ) (slots : List A) (v : A) (c at i : ℕ)
      → 0 < n
      → at + c ≤ i
      → i < at + n
      → window n (set slots (i % n) v) at c ≡ window n slots at c
  window-set_past n slots v zero at i pos lo hi = refl
  window-set_past n slots v (suc c) at i pos lo hi =
      ap₂ ◌∷◌ (get_elem?-set_ne slots (i % n) (at % n) v (mod_ne n at i pos (omega arith) hi))
        (window-set_past n slots v c (suc at) i pos (omega arith) (omega arith))

  window-snoc :
      (n : ℕ) (slots : List A) (c at i : ℕ)
      → i ≡ at + c
      → window n slots at (suc c) ≡ window n slots at c ++ get_elem? slots (i % n) ∷ []
  window-snoc n slots zero at i e = let q : i ≡ at = omega arith in rw q refl
  window-snoc n slots (suc c) at i e =
      ap (λ l. get_elem? slots (at % n) ∷ l) (window-snoc n slots c (suc at) i (omega arith))

module _ {A : Type 0} where
  -- What is known of the producer from where it stands.
  abbrev pub ProducerIsValid : Producer A → RingBuffer (Option A) → Type 0
  ProducerIsValid Producer.outside b = Unit
  ProducerIsValid (Producer.loaded_written v w) b = w ≡ b.written
  ProducerIsValid (Producer.loaded_read v w r) b = (w ≡ b.written) × (r ≤ b.read)
  ProducerIsValid (Producer.writing v w) b = (w ≡ b.written) × (w < b.read + length b.slots)
  ProducerIsValid (Producer.wrote v w) b =
      (w ≡ b.written)
      × (w < b.read + length b.slots)
      × (get_elem? b.slots (w % length b.slots) ≡ some (some v))
  ProducerIsValid Producer.panicked b = Unit

  abbrev pub ConsumerIsValid : Consumer A → RingBuffer (Option A) → Type 0
  ConsumerIsValid Consumer.outside b = Unit
  ConsumerIsValid (Consumer.loaded_read r) b = r ≡ b.read
  ConsumerIsValid (Consumer.loaded_written r w) b = (r ≡ b.read) × (w ≤ b.written)
  ConsumerIsValid (Consumer.reading r) b = (r ≡ b.read) × (r < b.written)
  ConsumerIsValid (Consumer.took r element) b =
      (r ≡ b.read) × (r < b.written) × (get_elem? b.slots (r % length b.slots) ≡ some element)
  ConsumerIsValid Consumer.panicked b = Unit

  -- `queue` is what has been pushed and not polled.
  pub record History (b : RingBuffer (Option A)) (pushed : List A) (polled : List (Option A))
      : Type 0 where
    pub taken : List A
    pub queue : List A
    pub pushed_eq : pushed ≡ taken ++ queue
    pub polled_eq : polled ≡ map some taken
    pub window_eq :
        window (length b.slots) b.slots b.read (b.written - b.read) ≡ map (λ v. some (some v)) queue

  pub record IsValid (n : ℕ) (s : System A) : Type 0 where
    pub positive : 0 < n
    pub slots_length : length s.ring.slots ≡ n
    pub ordered : s.ring.read ≤ s.ring.written
    pub bounded : s.ring.written ≤ s.ring.read + n
    pub producer_valid : ProducerIsValid s.producer s.ring
    pub consumer_valid : ConsumerIsValid s.consumer s.ring
    pub history : History s.ring s.pushed s.polled

  abbrev write_slot : RingBuffer (Option A) → ℕ → Option A → RingBuffer (Option A)
  write_slot b w x = record b { slots = set b.slots (w % length b.slots) x }

  -- The producer writes to no slot that the consumer may read.
  ConsumerIsValid-write :
      (c : Consumer A) (b : RingBuffer (Option A)) (w : ℕ) (x : Option A)
      → 0 < length b.slots
      → b.written ≤ w
      → w < b.read + length b.slots
      → ConsumerIsValid c b
      → ConsumerIsValid c (write_slot b w x)
  ConsumerIsValid-write Consumer.outside b w x pos lo hi h = tt
  ConsumerIsValid-write (Consumer.loaded_read r) b w x pos lo hi h = h
  ConsumerIsValid-write (Consumer.loaded_written r w') b w x pos lo hi h = h
  ConsumerIsValid-write (Consumer.reading r) b w x pos lo hi h = h
  ConsumerIsValid-write (Consumer.took r element) b w x pos lo hi h = (
    h.0,
    h.1,
    rw length-set (
        get_elem?-set_ne b.slots (w % length b.slots) (r % length b.slots) x
          (mod_ne (length b.slots) r w pos (omega (arith, h.0, h.1)) (omega (arith, h.0, h.1)))
        ∙ h.2),
  )
  ConsumerIsValid-write Consumer.panicked b w x pos lo hi h = tt

  History-write :
      (b : RingBuffer (Option A)) (w : ℕ) (x : Option A) {pushed : List A}
      {polled : List (Option A)}
      → 0 < length b.slots
      → b.read ≤ b.written
      → b.written ≤ w
      → w < b.read + length b.slots
      → History b pushed polled
      → History (write_slot b w x) pushed polled
  History-write b w x pos ord lo hi h = record {
    taken = h.taken;
    queue = h.queue;
    pushed_eq = h.pushed_eq;
    polled_eq = h.polled_eq;
    window_eq = rw length-set (
        window-set_past (length b.slots) b.slots x (b.written - b.read) b.read w pos (omega arith)
          hi
        ∙ h.window_eq);
  }

  -- A write leaves the producer at `p`.
  write-IsValid :
      (n : ℕ) (s : System A) (p : Producer A) (w : ℕ) (x : Option A)
      → IsValid n s
      → w ≡ s.ring.written
      → w < s.ring.read + length s.ring.slots
      → ProducerIsValid p (write_slot s.ring w x)
      → IsValid n (record s { producer = p; ring = write_slot s.ring w x })
  write-IsValid n s p w x k e lt v =
      let pos : 0 < length s.ring.slots = omega (arith, k.slots_length, k.positive) in
      record {
        positive = k.positive;
        slots_length = length-set s.ring.slots (w % length s.ring.slots) x ∙ k.slots_length;
        ordered = k.ordered;
        bounded = k.bounded;
        producer_valid = v;
        consumer_valid =
            ConsumerIsValid-write s.consumer s.ring w x pos (omega arith) lt k.consumer_valid;
        history = History-write s.ring w x pos k.ordered (omega arith) lt k.history;
      }

  move-IsValid :
      (n : ℕ) (s : System A) (p : Producer A)
      → IsValid n s
      → ProducerIsValid p s.ring
      → IsValid n (record s { producer = p })
  move-IsValid n s p k v = record {
    positive = k.positive;
    slots_length = k.slots_length;
    ordered = k.ordered;
    bounded = k.bounded;
    producer_valid = v;
    consumer_valid = k.consumer_valid;
    history = k.history;
  }

  pub wait-IsValid :
      (n : ℕ) (s : System A) (c : Consumer A)
      → IsValid n s
      → ConsumerIsValid c s.ring
      → IsValid n (record s { consumer = c })
  wait-IsValid n s c k v = record {
    positive = k.positive;
    slots_length = k.slots_length;
    ordered = k.ordered;
    bounded = k.bounded;
    producer_valid = k.producer_valid;
    consumer_valid = v;
    history = k.history;
  }

  pub map-snoc :
      {B : Type 0} (f : A → B) (xs : List A) (v : A) → map f (xs ++ v ∷ []) ≡ map f xs ++ f v ∷ []
  map-snoc f [] v = refl
  map-snoc f (x ∷ xs) v = ap (λ l. f x ∷ l) (map-snoc f xs v)

  pub append_snoc : (xs ys : List A) (v : A) → (xs ++ ys) ++ v ∷ [] ≡ xs ++ (ys ++ v ∷ [])
  append_snoc [] ys v = refl
  append_snoc (x ∷ xs) ys v = ap (λ l. x ∷ l) (append_snoc xs ys v)

  ConsumerIsValid-publish :
      (c : Consumer A) (b : RingBuffer (Option A)) (w : ℕ)
      → b.written ≤ w
      → ConsumerIsValid c b
      → ConsumerIsValid c (record b { written = w })
  ConsumerIsValid-publish Consumer.outside b w lo h = tt
  ConsumerIsValid-publish (Consumer.loaded_read r) b w lo h = h
  ConsumerIsValid-publish (Consumer.loaded_written r w') b w lo h = (h.0, omega (arith, h.1))
  ConsumerIsValid-publish (Consumer.reading r) b w lo h = (h.0, omega (arith, h.1))
  ConsumerIsValid-publish (Consumer.took r element) b w lo h = (h.0, omega (arith, h.1), h.2)
  ConsumerIsValid-publish Consumer.panicked b w lo h = tt

  History-publish :
      (b : RingBuffer (Option A)) (w : ℕ) (v : A) {pushed : List A} {polled : List (Option A)}
      → b.read ≤ b.written
      → w ≡ b.written
      → get_elem? b.slots (w % length b.slots) ≡ some (some v)
      → History b pushed polled
      → History (record b { written = w + 1 }) (pushed ++ v ∷ []) polled
  History-publish b w v ord e g h =
      let c : w + 1 - b.read ≡ suc (b.written - b.read) = omega arith in
      record {
        taken = h.taken;
        queue = h.queue ++ v ∷ [];
        pushed_eq = ap (λ l. l ++ v ∷ []) h.pushed_eq ∙ append_snoc h.taken h.queue v;
        polled_eq = h.polled_eq;
        window_eq = rw c (
            window-snoc (length b.slots) b.slots (b.written - b.read) b.read w (omega arith)
            ∙ ap₂ (λ l o. l ++ o ∷ []) h.window_eq g
            ∙ sym (map-snoc (λ u. some (some u)) h.queue v));
      }

  pub push_step-IsValid :
      (value : A) (seen n : ℕ) (p : Producer A) (s : System A)
      → IsValid n s
      → ProducerIsValid p s.ring
      → seen ≤ s.ring.read
      → IsValid n (push_step value seen p s)
  push_step-IsValid value seen n Producer.outside s k v le =
      move-IsValid n s (Producer.loaded_written value s.ring.written) k refl
  push_step-IsValid value seen n (Producer.loaded_written u w) s k v le =
      move-IsValid n s (Producer.loaded_read u w seen) k (v, le)
  push_step-IsValid value seen n (Producer.loaded_read u w r) s k v le =
      let m = length s.ring.slots in
      elim (Bool-cases (ltb (r + m) usize_mod && ltb w (r + m))) [
        | inr e ↦ rw e (move-IsValid n s Producer.panicked k tt)
        | inl e ↦
            let lt : w < r + m =
              ltb→lt w (r + m) (and_right (ltb (r + m) usize_mod) (ltb w (r + m)) e) in
            rw e (
              write-IsValid n s (Producer.writing u w) w none k v.0 (omega (arith, v.1))
                (v.0, rw length-set (omega (arith, v.1))))
      ]
  push_step-IsValid value seen n (Producer.writing u w) s k v le =
      let m = length s.ring.slots in
      let pos : 0 < m = omega (arith, k.slots_length, k.positive) in
      write-IsValid n s (Producer.wrote u w) w (some u) k v.0 v.1 (
        v.0,
        rw length-set (v.1),
        rw length-set (get_elem?-set_self s.ring.slots (w % m) (some u) (mod-lt w pos)),
      )
  push_step-IsValid value seen n (Producer.wrote u w) s k v le =
      elim (Bool-cases (ltb (w + 1) usize_mod)) [
        | inr e ↦ rw e (move-IsValid n s Producer.panicked k tt)
        | inl e ↦ rw e (record {
          positive = k.positive;
          slots_length = k.slots_length;
          ordered = omega (arith, k.ordered, v.0);
          bounded = omega (arith, v.0, v.1, k.slots_length);
          producer_valid = tt;
          consumer_valid =
              ConsumerIsValid-publish s.consumer s.ring (w + 1) (omega (arith, v.0))
                k.consumer_valid;
          history = History-publish s.ring w u k.ordered v.0 (v.2) k.history;
        })
      ]
  push_step-IsValid value seen n Producer.panicked s k v le = k
