-- ===== src/RingBuffer/Interleave.antt =====
-- `push` and `poll` of types/src/ring_buffer.rs, run at the same time by one producer and one
-- consumer. Each load, store and access of an element is a step of its own. The load of the other
-- side's counter may give any value that it has held; `none` in a slot is an element in the middle of a
-- write.
pub mod Fifo
pub mod Keep
use deravel_os.Prelude.{
  ℕ, ◌+◌, ◌%◌, ◌≤◌, ltb, leb, if◌then◌else◌, ◌&&◌, ◌≡◌, List, [], ◌∷◌, ◌++◌, replicate, length, set,
  get_elem?, Option, none, some, usize_mod,
}
use deravel_os.RingBuffer.{RingBuffer}

-- Where the producer stands in `push`, with the locals that are still needed.
pub data Producer (A : Type 0) : Type 0 where
  outside : Producer A
  loaded_written : A → ℕ → Producer A
  loaded_read : A → ℕ → ℕ → Producer A
  writing : A → ℕ → Producer A
  wrote : A → ℕ → Producer A
  panicked : Producer A

-- Where the consumer stands in `poll`.
pub data Consumer (A : Type 0) : Type 0 where
  outside : Consumer A
  loaded_read : ℕ → Consumer A
  loaded_written : ℕ → ℕ → Consumer A
  reading : ℕ → Consumer A
  took : ℕ → Option A → Consumer A
  panicked : Consumer A

-- `pushed` and `polled` are the values of the calls that have stored their counter.
pub record System (A : Type 0) : Type 0 where
  pub ring : RingBuffer (Option A)
  pub producer : Producer A
  pub consumer : Consumer A
  pub pushed : List A
  pub polled : List (Option A)

module _ {A : Type 0} where
  -- The next step of the producer. `value` is the argument of the call that a step may begin, and
  -- `seen` what a load of `read` gives.
  abbrev pub push_step : A → ℕ → Producer A → System A → System A
  push_step value seen Producer.outside s = record s {
    producer = Producer.loaded_written value s.ring.written;
  }
  push_step value seen (Producer.loaded_written v w) s = record s {
    producer = Producer.loaded_read v w seen;
  }
  push_step value seen (Producer.loaded_read v w r) s =
      let n = length s.ring.slots in
      if ltb (r + n) usize_mod && ltb w (r + n)
      then record s {
        producer = Producer.writing v w;
        ring = record s.ring { slots = set s.ring.slots (w % n) none };
      }
      else record s { producer = Producer.panicked }
  push_step value seen (Producer.writing v w) s = record s {
    producer = Producer.wrote v w;
    ring = record s.ring { slots = set s.ring.slots (w % length s.ring.slots) (some v) };
  }
  push_step value seen (Producer.wrote v w) s =
      if ltb (w + 1) usize_mod
      then record s {
        producer = Producer.outside;
        ring = record s.ring { written = w + 1 };
        pushed = s.pushed ++ v ∷ [];
      }
      else record s { producer = Producer.panicked }
  push_step value seen Producer.panicked s = s

  -- The next step of the consumer; `seen` is what a load of `written` gives.
  abbrev pub poll_step : ℕ → Consumer A → System A → System A
  poll_step seen Consumer.outside s = record s { consumer = Consumer.loaded_read s.ring.read }
  poll_step seen (Consumer.loaded_read r) s = record s { consumer = Consumer.loaded_written r seen }
  poll_step seen (Consumer.loaded_written r w) s = record s {
    consumer = if leb w r then Consumer.outside else Consumer.reading r;
  }
  poll_step seen (Consumer.reading r) s = record s {
    consumer = elim (get_elem? s.ring.slots (r % length s.ring.slots)) [
      | none ↦ Consumer.panicked
      | some element ↦ Consumer.took r element
    ];
  }
  poll_step seen (Consumer.took r element) s =
      if ltb (r + 1) usize_mod
      then record s {
        consumer = Consumer.outside;
        ring = record s.ring { read = r + 1 };
        polled = s.polled ++ element ∷ [];
      }
      else record s { consumer = Consumer.panicked }
  poll_step seen Consumer.panicked s = s

  -- Either side moves.
  pub data Step (s t : System A) : Type 0 where
    produce :
        (value : A) (seen : ℕ)
        → seen ≤ s.ring.read
        → t ≡ push_step value seen s.producer s
        → Step s t
    consume : (seen : ℕ) → seen ≤ s.ring.written → t ≡ poll_step seen s.consumer s → Step s t

  pub data Reach (s : System A) : System A → Type 0 where
    here : Reach s s
    next : {t u : System A} → Reach s t → Step t u → Reach s u

  abbrev pub start : A → ℕ → System A
  start default element_count = record {
    ring = record { read = 0; written = 0; slots = replicate element_count (some default) };
    producer = Producer.outside;
    consumer = Consumer.outside;
    pushed = [];
    polled = [];
  }
