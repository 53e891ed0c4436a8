-- ===== src/Kernel/Schedule/Scan.antt =====
-- The search for a process to run, `find_runnable_process` of kernel/src/process.rs.
use deravel_os.Prelude.{
  ◌==◌, ℕ, zero, suc, ◌+◌, ◌-◌, ◌%◌, ◌<◌, ◌≡◌, ◌≢◌, refl, sym, ◌∙◌, ap, ◌⊎◌, inl, inr, Option, none,
  some, Bool, true, false, Bool-cases, ==_iff, done, arith,
}
use deravel_os.Capability.{Actor, kernel, userspace}
use deravel_os.Kernel.Process.{
  Kernel, Process, ProcessState, runnable, finished, waiting_for_reply, waiting_for_stream_map,
  ready_reply, ready_stream_map, put, update, process_count,
}
use deravel_os.Kernel.Process.Slots.{update_self, update_ne, beside}
use deravel_os.Kernel.Schedule.{
  waits_for, can_run, is_finished, is_gone, inspect_from, inspect_can_progress, scan_slot, scan,
  scan_start, find_runnable_process,
}

-- A process that waits for a process waits for another one, which has a slot.
abbrev pub IsSane : Kernel → Type 0
IsSane k =
    (i from : ℕ) (p : Process)
    → k.processes i ≡ some p
    → waits_for p.state ≡ some (userspace from)
    → (from < process_count) × (from ≢ i)

waits_for-can_run : (s : ProcessState) → can_run s ≡ true → waits_for s ≡ none
waits_for-can_run runnable h = refl
waits_for-can_run finished h = refl
waits_for-can_run (waiting_for_reply _ _) h = cc h
waits_for-can_run (waiting_for_stream_map _) h = cc h
waits_for-can_run (ready_reply _ _) h = refl
waits_for-can_run (ready_stream_map _ _) h = refl

abbrev finish : Process → Process
finish p = record p { state = finished }

-- Inspecting a process leaves it or finishes it.
inspect_from_cases :
    (k : Kernel) (i : ℕ) (p : Process) (w : Option Actor)
    → ((from : ℕ) → w ≡ some (userspace from) → (from < process_count) × (from ≢ i))
    → (q : Process) × (inspect_from k i p w ≡ done q) × ((q ≡ p) ⊎ ((q ≡ finish p) × (w ≢ none)))
unfolding inspect_from
inspect_from_cases k i p none s = (p, refl, inl refl)
inspect_from_cases k i p (some kernel) s = (p, refl, inl refl)
inspect_from_cases k i p (some (userspace from)) s =
    let (lt, ne) = s from refl in
    elim (Bool-cases (is_gone (k.processes from))) [
      | inl e ↦ (finish p, rw (beside k i from lt ne, e) refl, inr (refl, λ h. cc h))
      | inr e ↦ (p, rw (beside k i from lt ne, e) refl, inl refl)
    ]

pub set_slot-IsSane :
    (k : Kernel) (i : ℕ) (v : Option Process)
    → IsSane k
    → ((from : ℕ) (q : Process)
        → v ≡ some q
        → waits_for q.state ≡ some (userspace from)
        → (from < process_count) × (from ≢ i))
    → IsSane (record k { processes = update k.processes i v })
set_slot-IsSane k i v s h j from q e w = elim (Bool-cases (j == i)) [
  | inl c ↦
      let same : j ≡ i = (==_iff j i).0 c in
      let e' : v ≡ some q = rw c at e in rw same (h from q e' w)
  | inr c ↦ let e' : k.processes j ≡ some q = rw c at e in s j from q e' w
]

-- What a step of the scan at slot `i` does, `found` telling whether it ends there.
record Scanned (k : Kernel) (i : ℕ) (k' : Kernel) (found : Bool) : Type 0 where
  sane : IsSane k'
  runs : found ≡ true → (p : Process) × (k'.processes i ≡ some p) × (can_run p.state ≡ true)
  keeps :
      found ≡ false
      → (j : ℕ) (p : Process) → k.processes j ≡ some p
      → can_run p.state ≡ true
      → k'.processes j ≡ some p
  stuck : found ≡ false → (p : Process) → k.processes i ≡ some p → can_run p.state ≡ true → ⊥

module _ (k : Kernel) (i : ℕ) (p q : Process) (s : IsSane k) (e : k.processes i ≡ some p)
    (c : (q ≡ p) ⊎ ((q ≡ finish p) × (waits_for p.state ≢ none))) where
  inspected-IsSane :
      (from : ℕ) (r : Process)
      → some q ≡ some r
      → waits_for r.state ≡ some (userspace from)
      → (from < process_count) × (from ≢ i)
  inspected-IsSane from r f w = elim c [
    | inl same ↦ s i from r (e ∙ ap some (sym same) ∙ f) w
    | inr (gone, _) ↦
        let h : r ≡ q = cc f in
        let w' : waits_for q.state ≡ some (userspace from) = rw h at w in
        let g : none ≡ some (userspace from) = ap (λ x. waits_for x.state) (sym gone) ∙ w' in cc g
  ]

  elsewhere :
      can_run q.state ≡ false
      → (j : ℕ) (r : Process) → k.processes j ≡ some r
      → can_run r.state ≡ true
      → j ≢ i
  elsewhere stop j r f run h =
      let here : k.processes i ≡ some r = ap k.processes (sym h) ∙ f in
      let same : r ≡ p = cc (here, e) in
      let run' : can_run p.state ≡ true = rw same at run in
      elim c [
        | inl t ↦ let stop' : can_run p.state ≡ false = rw t at stop in cc (run', stop')
        | inr (_, waits) ↦ waits (waits_for-can_run p.state run')
      ]

  found_here : can_run q.state ≡ true → Scanned k i (put k i q) true
  found_here run = record {
    sane = set_slot-IsSane k i (some q) s inspected-IsSane;
    runs = λ _. (q, update_self k.processes i (some q), run);
    keeps = λ h. cc h;
    stuck = λ h. cc h;
  }

  passed : can_run q.state ≡ false → Scanned k i (put k i q) false
  passed stop = record {
    sane = set_slot-IsSane k i (some q) s inspected-IsSane;
    runs = λ h. cc h;
    keeps = λ _ j r f run. update_ne k.processes i j (some q) (elsewhere stop j r f run) ∙ f;
    stuck = λ _ r f run. elsewhere stop i r f run refl;
  }

  emptied :
      can_run q.state ≡ false
      → Scanned k i (record k { processes = update k.processes i none }) false
  emptied stop = record {
    sane = set_slot-IsSane k i none s (λ from r f w. cc f);
    runs = λ h. cc h;
    keeps = λ _ j r f run. update_ne k.processes i j none (elsewhere stop j r f run) ∙ f;
    stuck = λ _ r f run. elsewhere stop i r f run refl;
  }

scan_slot_lem :
    (k : Kernel) (i : ℕ) (slot : Option Process)
    → IsSane k
    → k.processes i ≡ slot
    → (k' : Kernel) × (found : Bool) × (scan_slot k i slot ≡ done (k', found))
      × Scanned k i k' found
unfolding scan_slot inspect_can_progress
scan_slot_lem k i none s e = (
  k,
  false,
  refl,
  record { sane = s; runs = λ h. cc h; keeps = λ _ j p f _. f; stuck = λ _ p f _. cc (e, f) },
)
scan_slot_lem k i (some p) s e =
    let (q, eq, c) = inspect_from_cases k i p (waits_for p.state) (λ from w. s i from p e w) in
    elim (Bool-cases (can_run q.state)) [
      | inl run ↦ (put k i q, true, rw (eq, run) refl, found_here k i p q s e c run)
      | inr stop ↦ elim (Bool-cases (is_finished q.state)) [
        | inl gone ↦ (
          record k { processes = update k.processes i none },
          false,
          rw (eq, stop, gone) refl,
          emptied k i p q s e c stop,
        )
        | inr here ↦ (put k i q, false, rw (eq, stop, here) refl, passed k i p q s e c stop)
      ]
    ]

-- What the scan finds.
pub record Finds (k : Kernel) (start rounds : ℕ) (k' : Kernel) (found : Option ℕ) : Type 0 where
  pub sane : IsSane k'
  pub runs :
      (i : ℕ)
      → found ≡ some i
      → (i < process_count) × ((p : Process) × (k'.processes i ≡ some p) × (can_run p.state ≡ true))
  pub misses_none :
      (j : ℕ) (p : Process)
      → j < rounds
      → k.processes ((start + j) % process_count) ≡ some p
      → can_run p.state ≡ true
      → found ≢ none

scan_continues :
    (rounds start : ℕ) (k k1 : Kernel)
    → scan_slot k (start % process_count) (k.processes (start % process_count)) ≡ done (k1, false)
    → scan (suc rounds) k start ≡ scan rounds k1 (start + 1)
unfolding scan
scan_continues rounds start k k1 e = rw e refl

scan_stops :
    (rounds start : ℕ) (k k1 : Kernel)
    → scan_slot k (start % process_count) (k.processes (start % process_count)) ≡ done (k1, true)
    → scan (suc rounds) k start ≡ done (k1, some (start % process_count))
unfolding scan
scan_stops rounds start k k1 e = rw e refl

later_misses :
    (rounds start : ℕ) (k k1 k' : Kernel) (found : Option ℕ)
    → Scanned k (start % process_count) k1 false
    → Finds k1 (start + 1) rounds k' found
    → (j : ℕ) (p : Process) → j < suc rounds
    → k.processes ((start + j) % process_count) ≡ some p
    → can_run p.state ≡ true
    → found ≢ none
later_misses rounds start k k1 k' found s f zero p lt e run =
    let here : start + 0 ≡ start = omega arith in absurd (s.stuck refl p (rw here at e) run)
later_misses rounds start k k1 k' found s f (suc j) p lt e run =
    let shift : start + suc j ≡ start + 1 + j = omega arith in
    f.misses_none j p (omega arith) (s.keeps refl _ p (rw shift at e) run) run

scan_lem :
    (rounds start : ℕ) (k : Kernel)
    → IsSane k
    → (k' : Kernel) × (found : Option ℕ) × (scan rounds k start ≡ done (k', found))
      × Finds k start rounds k' found
unfolding scan
scan_lem zero start k s = (
  k,
  none,
  refl,
  record { sane = s; runs = λ i h. cc h; misses_none = λ j p lt. absurd (omega arith) },
)
scan_lem (suc rounds) start k s =
    let i = start % process_count in
    let (k1, found, e, w) = scan_slot_lem k i (k.processes i) s refl in
    elim (Bool-cases found) [
      | inl ended ↦ (
        k1,
        some i,
        scan_stops rounds start k k1 (e ∙ ap (λ b. done (k1, b)) ended),
        record {
          sane = w.sane;
          runs = λ j h. let same : i ≡ j = cc h in rw (sym same) (omega arith, w.runs ended);
          misses_none = λ j p _ _ _ h. cc h;
        },
      )
      | inr going ↦
          let (k', res, e', f) = scan_lem rounds (start + 1) k1 w.sane in
          let w' : Scanned k i k1 false = rw going at w in
          (
            k',
            res,
            scan_continues rounds start k k1 (e ∙ ap (λ b. done (k1, b)) going) ∙ e',
            record {
              sane = f.sane;
              runs = f.runs;
              misses_none = later_misses rounds start k k1 k' res w' f;
            },
          )
    ]

-- In a kernel whose waiting processes wait for other processes that have a slot, the scheduler's
-- search ends without a panic and leaves such a kernel, what it finds is a process that can run,
-- and it finds one if any slot holds one.
pub find_runnable_process_lem :
    (k : Kernel) (last : Option ℕ)
    → IsSane k
    → (k' : Kernel) × (found : Option ℕ) × (find_runnable_process k last ≡ done (k', found))
      × IsSane k'
      × ((i : ℕ)
          → found ≡ some i
          → (i < process_count)
            × ((p : Process) × (k'.processes i ≡ some p) × (can_run p.state ≡ true)))
      × ((i : ℕ) (p : Process)
          → i < process_count
          → k.processes i ≡ some p
          → can_run p.state ≡ true
          → found ≢ none)
unfolding find_runnable_process
find_runnable_process_lem k last s =
    let start = scan_start last in
    let (k', found, e, f) = scan_lem process_count start k s in
    (
      k',
      found,
      e,
      f.sane,
      f.runs,
      λ i p lt at run.
          let j = (i + process_count - start % process_count) % process_count in
          let turn : (start + j) % process_count ≡ i = omega arith in
          f.misses_none j p (omega arith) (ap k.processes turn ∙ at) run,
    )
