-- ===== src/RingBuffer/Interleave/Fifo.antt =====
-- `push` and `poll` of types/src/ring_buffer.rs at the same time: what the consumer gets.
use deravel_os.Prelude.{
  ℕ, zero, suc, ◌+◌, ◌%◌, ◌-◌, ◌≤◌, ◌<◌, ◌≡◌, ◌≢◌, refl, ap, ap₂, sym, ◌∙◌, ltb, Bool-cases, inl,
  inr, List, [], ◌∷◌, ◌++◌, map, length, get_elem?, replicate, subst, lt_cases, le→leb, lt→leb,
  Option, some, get_elem?_of_lt, usize_mod, arith,
}
use native.Mathlib.Nat.{mod-lt}
use deravel_os.RingBuffer.{RingBuffer}
use deravel_os.RingBuffer.Refine.{window, window_of_lt, mod_ne}
use deravel_os.RingBuffer.Interleave.{
  Producer, Consumer, System, poll_step, Step, produce, consume, Reach, here, next, start,
}
use deravel_os.RingBuffer.Interleave.Keep.{
  IsValid, History, ProducerIsValid, ConsumerIsValid, push_step-IsValid, wait-IsValid, map-snoc,
}

length-replicate : {A : Type 0} (n : ℕ) (a : A) → length (replicate n a) ≡ n
length-replicate zero a = refl
length-replicate (suc n) a = ap suc (length-replicate n a)

module _ {A : Type 0} where
  length-window : (n : ℕ) (slots : List A) (at c : ℕ) → length (window n slots at c) ≡ c
  length-window n slots at zero = refl
  length-window n slots at (suc c) = ap suc (length-window n slots (suc at) c)

  length-map : {B : Type 0} (f : A → B) (xs : List A) → length (map f xs) ≡ length xs
  length-map f [] = refl
  length-map f (x ∷ xs) = ap suc (length-map f xs)

module _ {A : Type 0} where
  ProducerIsValid-release :
      (p : Producer A) (b : RingBuffer (Option A)) (r : ℕ)
      → b.read ≤ r
      → ProducerIsValid p b
      → ProducerIsValid p (record b { read = r })
  ProducerIsValid-release Producer.outside b r le h = tt
  ProducerIsValid-release (Producer.loaded_written v w) b r le h = h
  ProducerIsValid-release (Producer.loaded_read v w seen) b r le h = (h.0, omega (arith, h.1))
  ProducerIsValid-release (Producer.writing v w) b r le h = (h.0, omega (arith, h.1))
  ProducerIsValid-release (Producer.wrote v w) b r le h = (h.0, omega (arith, h.1), h.2)
  ProducerIsValid-release Producer.panicked b r le h = tt

  append_snoc_one : (xs ys : List A) (v : A) → (xs ++ v ∷ []) ++ ys ≡ xs ++ v ∷ ys
  append_snoc_one [] ys v = refl
  append_snoc_one (x ∷ xs) ys v = ap (λ l. x ∷ l) (append_snoc_one xs ys v)

  -- The first of the queue is what the oldest slot holds.
  first_queued :
      (f : A → Option (Option A)) (queue : List A) {o : Option (Option A)}
      {os : List (Option (Option A))}
      → o ∷ os ≡ map f queue
      → (v : A) × (rest : List A) × (queue ≡ v ∷ rest) × (o ≡ f v) × (os ≡ map f rest)
  first_queued f [] e = cc
  first_queued f (v ∷ rest) e = (v, rest, refl, cc, cc)

  History-release :
      (b : RingBuffer (Option A)) (r : ℕ) (element : Option A) {pushed : List A}
      {polled : List (Option A)}
      → b.read < b.written
      → r ≡ b.read
      → get_elem? b.slots (r % length b.slots) ≡ some element
      → History b pushed polled
      → History (record b { read = r + 1 }) pushed (polled ++ element ∷ [])
  History-release b r element lt e g h =
      let n = length b.slots in
      let first =
        sym (window_of_lt n b.slots b.read (b.written - b.read) (omega arith)) ∙ h.window_eq in
      let (v, rest, qe, oe, we) = first_queued (λ u. some (some u)) h.queue first in
      let c : b.written - (r + 1) ≡ b.written - b.read - 1 = omega arith in
      let d : r + 1 ≡ suc b.read = omega arith in
      let ev : element ≡ some v = cc (sym g ∙ ap (λ x. get_elem? b.slots (x % n)) e ∙ oe) in
      record {
        taken = h.taken ++ v ∷ [];
        queue = rest;
        pushed_eq = h.pushed_eq ∙ ap (λ l. h.taken ++ l) qe ∙ sym (append_snoc_one h.taken rest v);
        polled_eq = ap₂ (λ l x. l ++ x ∷ []) h.polled_eq ev ∙ sym (map-snoc some h.taken v);
        window_eq = rw (c, d) we;
      }

  poll_step-IsValid :
      (seen n : ℕ) (c : Consumer A) (s : System A)
      → IsValid n s
      → ConsumerIsValid c s.ring
      → seen ≤ s.ring.written
      → IsValid n (poll_step seen c s)
  poll_step-IsValid seen n Consumer.outside s k v le =
      wait-IsValid n s (Consumer.loaded_read s.ring.read) k refl
  poll_step-IsValid seen n (Consumer.loaded_read r) s k v le =
      wait-IsValid n s (Consumer.loaded_written r seen) k (v, le)
  poll_step-IsValid seen n (Consumer.loaded_written r w) s k v le = elim (lt_cases r w) [
    | inr ge ↦ rw (le→leb _ _ ge) (wait-IsValid n s Consumer.outside k tt)
    | inl lt ↦
        rw (lt→leb _ _ lt) (wait-IsValid n s (Consumer.reading r) k (v.0, omega (arith, v.1)))
  ]
  poll_step-IsValid seen n (Consumer.reading r) s k v le =
      let m = length s.ring.slots in
      let pos : 0 < m = omega (arith, k.slots_length, k.positive) in
      let (x, e) = get_elem?_of_lt s.ring.slots (r % m) (mod-lt r pos) in
      rw e (wait-IsValid n s (Consumer.took r x) k (v.0, v.1, e))
  poll_step-IsValid seen n (Consumer.took r x) s k v le =
      elim (Bool-cases (ltb (r + 1) usize_mod)) [
        | inr e ↦ rw e (wait-IsValid n s Consumer.panicked k tt)
        | inl e ↦ rw e (record {
          positive = k.positive;
          slots_length = k.slots_length;
          ordered = omega (arith, v.1);
          bounded = omega (arith, v.0, k.bounded);
          producer_valid =
              ProducerIsValid-release s.producer s.ring (r + 1) (omega (arith, v.0))
                k.producer_valid;
          consumer_valid = tt;
          history = History-release s.ring r x (omega (arith, v.0, v.1)) v.0 (v.2) k.history;
        })
      ]
  poll_step-IsValid seen n Consumer.panicked s k v le = k

  Step-IsValid : (n : ℕ) (s t : System A) → Step s t → IsValid n s → IsValid n t
  Step-IsValid n s t (produce value seen le e) k =
      rw e (push_step-IsValid value seen n s.producer s k k.producer_valid le)
  Step-IsValid n s t (consume seen le e) k =
      rw e (poll_step-IsValid seen n s.consumer s k k.consumer_valid le)

  start-IsValid : (default : A) (n : ℕ) → 0 < n → IsValid n (start default n)
  start-IsValid default n pos = record {
    positive = pos;
    slots_length = length-replicate n (some default);
    ordered = omega arith;
    bounded = omega arith;
    producer_valid = tt;
    consumer_valid = tt;
    history = record {
      taken = [];
      queue = [];
      pushed_eq = refl;
      polled_eq = refl;
      window_eq = refl;
    };
  }

  Reach-IsValid : (n : ℕ) {s t : System A} → IsValid n s → Reach s t → IsValid n t
  Reach-IsValid n k here = k
  Reach-IsValid n k (next {t} {u} r st) = Step-IsValid n t u st (Reach-IsValid n k r)

  -- However the steps of one producer and one consumer interleave, and whichever earlier value of
  -- the other's counter each loads, the values polled are, whole and in order, the first of the
  -- values pushed, and as many as the counters differ by, which is at most the number of slots, are
  -- left.
  pub Reach-fifo :
      (default : A) (n : ℕ) (s : System A)
      → 0 < n
      → Reach (start default n) s
      → (taken queue : List A) × (s.pushed ≡ taken ++ queue)
        × (s.polled ≡ map some taken)
        × (length queue ≡ s.ring.written - s.ring.read)
        × (s.ring.written - s.ring.read ≤ n)
  Reach-fifo default n s pos r =
      let k = Reach-IsValid n (start-IsValid default n pos) r in
      let h = k.history in
      (
        h.taken,
        h.queue,
        h.pushed_eq,
        h.polled_eq,
        (sym (length-map (λ u. some (some u)) h.queue)
            ∙ ap length (sym h.window_eq)
            ∙ length-window (length s.ring.slots) s.ring.slots s.ring.read
                (s.ring.written - s.ring.read)),
        omega (arith, k.ordered, k.bounded),
      )

  -- In every run of one producer and one consumer, the producer never writes to the slot that the
  -- consumer is reading.
  pub Reach-race_free :
      (default : A) (n : ℕ) (s : System A) (v : A) (w r : ℕ)
      → 0 < n
      → Reach (start default n) s
      → s.producer ≡ Producer.writing v w
      → s.consumer ≡ Consumer.reading r
      → (w % n ≢ r % n)
  Reach-race_free default n s v w r pos reach pe ce =
      let k = Reach-IsValid n (start-IsValid default n pos) reach in
      let p = subst (λ p. ProducerIsValid p s.ring) pe k.producer_valid in
      let c = subst (λ c. ConsumerIsValid c s.ring) ce k.consumer_valid in
      mod_ne n r w pos (omega (arith, p.0, c.0, c.1)) (omega (arith, p.1, c.0, k.slots_length))
