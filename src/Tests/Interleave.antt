-- ===== src/Tests/Interleave.antt =====
-- The theorems on the ring of types/src/ring_buffer.rs under a producer and a consumer, at a run in
-- which the second push and the first poll are both in the middle of an element.
use deravel_os.Prelude.{
  ℕ, ◌%◌, ◌-◌, ◌≤◌, ◌≡◌, ◌≢◌, refl, List, [], ◌∷◌, ◌++◌, map, length, none, some, arith,
}
use deravel_os.RingBuffer.Interleave.{
  Producer, Consumer, System, push_step, poll_step, Step, Reach, here, next, produce, consume,
  start,
}
use deravel_os.RingBuffer.Interleave.Fifo.{Reach-fifo, Reach-race_free}

abbrev pushing : System ℕ → System ℕ
pushing s = push_step 7 0 s.producer s

abbrev polling : System ℕ → System ℕ
polling s = poll_step 1 s.consumer s

abbrev both : System ℕ
both = record {
  ring = record { read = 0; written = 1; slots = some 7 ∷ none ∷ [] };
  producer = Producer.writing 7 1;
  consumer = Consumer.reading 0;
  pushed = 7 ∷ [];
  polled = [];
}

both_lem :
    pushing (
      pushing (
        pushing (
          polling
            (polling (polling (pushing (pushing (pushing (pushing (pushing (start 0 2)))))))))))
    ≡ both
both_lem = refl

Step-pushing : (s : System ℕ) → Step s (pushing s)
Step-pushing s = produce 7 0 (omega arith) refl

both-Reach : Reach (start 0 2) both
both-Reach =
    let one =
      next
        (next (next (next (next here (Step-pushing _)) (Step-pushing _)) (Step-pushing _))
          (Step-pushing _))
        (Step-pushing (pushing (pushing (pushing (pushing (start 0 2)))))) in
    let waiting : Reach (start 0 2) (
        polling (polling (polling (pushing (pushing (pushing (pushing (pushing (start 0 2))))))))) =
      next (next (next one (consume 1 (omega arith) refl)) (consume 1 (omega arith) refl))
        (consume 1 (omega arith) refl) in
    next (next (next waiting (Step-pushing _)) (Step-pushing _)) (Step-pushing _)

Reach-fifo_example :
    (taken queue : List ℕ) × (both.pushed ≡ taken ++ queue)
    × (both.polled ≡ map some taken)
    × (length queue ≡ both.ring.written - both.ring.read)
    × (both.ring.written - both.ring.read ≤ 2)
Reach-fifo_example = Reach-fifo 0 2 both (omega arith) both-Reach

Reach-race_free_example : 1 % 2 ≢ 0 % 2
Reach-race_free_example = Reach-race_free 0 2 both 7 1 0 (omega arith) both-Reach refl refl
