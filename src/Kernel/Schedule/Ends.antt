-- ===== src/Kernel/Schedule/Ends.antt =====
-- `schedule_userspace` of kernel/src/process.rs, all rounds together.
use deravel_os.Prelude.{
  ℕ, zero, suc, ◌<◌, ◌≡◌, ◌≢◌, refl, sym, ◌∙◌, ap, subst, ◌⊎◌, inl, inr, ltb, Bool-cases, true,
  false, Option, none, some, done, length, arith,
}
use deravel_os.Capability.{userspace}
use deravel_os.Kernel.Process.{
  Kernel, Process, ProcessState, runnable, finished, waiting_for_reply, waiting_for_stream_map,
  ready_reply, ready_stream_map, put, current, process_count,
}
use deravel_os.Kernel.Process.Slots.{update_self, current_of_slot}
use deravel_os.Kernel.Schedule.{
  waits_for, can_run, find_runnable_process, resumed, map_memory, settle, resume_process,
  schedule_userspace, scan_start,
}
use deravel_os.Heap.Allocator.{BuddyAllocator}
use deravel_os.Page.Table.{PageTable}
use deravel_os.Kernel.Ipc.{Handlers}
use deravel_os.Kernel.Schedule.Scan.{IsSane, find_runnable_process_lem, set_slot-IsSane}
use deravel_os.Kernel.Schedule.Rounds.{
  Remains, Shrinks, set-Shrinks, scan-Shrinks, runs_in, count, count-le, count-lt,
}

-- Every process is in the slot of its id.
abbrev pub IsNumbered : Kernel → Type 0
IsNumbered k = (i : ℕ) (p : Process) → k.processes i ≡ some p → p.id ≡ i

Shrinks-IsNumbered : (k k' : Kernel) → Shrinks k k' → IsNumbered k → IsNumbered k'
Shrinks-IsNumbered k k' s n i q e = let (p, f, a) = s i q e in a.id ∙ n i p f

Shrinks-runs :
    (k k' : Kernel)
    → Shrinks k k'
    → (j : ℕ) → runs_in (k'.processes j) ≡ true
    → runs_in (k.processes j) ≡ true
Shrinks-runs k k' s j h = from_slot (k'.processes j) refl h
  where
    from_slot :
        (o : Option Process)
        → k'.processes j ≡ o
        → runs_in o ≡ true
        → runs_in (k.processes j) ≡ true
    from_slot none e h = cc h
    from_slot (some q) e h =
        let (p, f, a) = s j q e in rw f (subst (λ x. can_run x.state ≡ true) (a.same h) h)

find-Shrinks :
    (k : Kernel) (last : Option ℕ) (r : Kernel × Option ℕ)
    → find_runnable_process k last ≡ done r
    → Shrinks k r.0
unfolding find_runnable_process
find-Shrinks k last r h = scan-Shrinks process_count k (scan_start last) r h

count-bound : (n : ℕ) (f : ℕ → Option Process) → count n f < suc n
unfolding count
count-bound zero f = omega arith
count-bound (suc n) f =
    let below = count-bound n f in
    elim (Bool-cases (runs_in (f n))) [
      | inl c ↦ rw c (omega (arith, below))
      | inr c ↦ rw c (omega (arith, below))
    ]

abbrev gone : Process → Process
gone p = record p { state = finished }

-- Killing a process that can run leaves one fewer.
killing :
    (k : Kernel) (p : Process)
    → IsSane k
    → k.processes p.id ≡ some p
    → p.id < process_count
    → can_run p.state ≡ true
    → IsSane (put k p.id (gone p))
      × Shrinks k (put k p.id (gone p))
      × (count process_count (put k p.id (gone p)).processes < count process_count k.processes)
killing k p s at lt c =
    let k2 : Kernel = put k p.id (gone p) in
    let sh : Shrinks k k2 = set-Shrinks k p.id (some (gone p)) (λ x h.
      let same : gone p ≡ x = cc h in
      (p, at, subst (Remains p) same (record { id = refl; same = λ b. cc b }))) in
    let sane : IsSane k2 = set_slot-IsSane k p.id (some (gone p)) s (λ from x h w.
      let same : gone p ≡ x = cc h in
      let w' : none ≡ some (userspace from) = ap (λ y. waits_for y.state) same ∙ w in cc w') in
    (
      sane,
      sh,
      count-lt k.processes k2.processes (Shrinks-runs k k2 sh) process_count p.id lt
          (ap runs_in at ∙ c) (ap runs_in (update_self k.processes p.id (some (gone p)))),
    )

module _ (handlers : Handlers) where
  -- The memory of a stream that a process is ready with can be mapped.
  abbrev pub CanMap : Kernel → Type 0
  CanMap k =
      (i : ℕ) (p : Process) (ring size : ℕ)
      → k.processes i ≡ some p
      → p.state ≡ ready_stream_map ring size
      → (m : BuddyAllocator × PageTable × ℕ) × (map_memory handlers p ring ≡ done m)

  Shrinks-CanMap : (k k' : Kernel) → Shrinks k k' → CanMap k → CanMap k'
  Shrinks-CanMap k k' s c i q ring size e f =
      let (p, g, a) = s i q e in
      let run : can_run q.state ≡ true = rw f refl in
      let same = a.same run in
      let st : p.state ≡ ready_stream_map ring size = ap (λ x. x.state) (sym same) ∙ f in
      let (m, h) = c i p ring size g st in (m, rw same h)

  resumed_cases :
      (p : Process) (state : ProcessState)
      → ((ring size : ℕ)
          → state ≡ ready_stream_map ring size
          → (m : BuddyAllocator × PageTable × ℕ) × (map_memory handlers p ring ≡ done m))
      → p.state ≡ state
      → can_run state ≡ true
      → ((q : Process) × (resumed handlers p state ≡ done (some q)) × (q.state ≡ runnable))
        ⊎ (resumed handlers p state ≡ done none)
  unfolding resumed
  resumed_cases p runnable fits e c = inl (p, refl, e)
  resumed_cases p (ready_reply reply buffer) fits e c =
      elim (Bool-cases (ltb buffer.len (length reply))) [
        | inl d ↦ inr (rw d refl)
        | inr d ↦ inl (record p { a0 = length reply; state = runnable }, rw d refl, refl)
      ]
  resumed_cases p (ready_stream_map ring size) fits e c =
      let ((heap, table, virt), f) = fits ring size refl in
      inl (
        record p { heap = heap; page_table = table; a0 = virt; a1 = size; state = runnable },
        rw f refl,
        refl,
      )
  resumed_cases p finished fits e c = cc c
  resumed_cases p (waiting_for_reply _ _) fits e c = cc c
  resumed_cases p (waiting_for_stream_map _) fits e c = cc c

  -- What resuming a process that can run does.
  resume_process_cases :
      (k : Kernel) (i : ℕ) (p : Process)
      → i < process_count
      → IsNumbered k
      → CanMap k
      → k.processes i ≡ some p
      → can_run p.state ≡ true
      → ((q : Process) × (resume_process handlers k i ≡ done (put k i q, true))
          × (q.state ≡ runnable))
        ⊎ (resume_process handlers k i ≡ done (put k p.id (record p { state = finished }), false))
  unfolding resume_process settle
  resume_process_cases k i p lt n maps e c =
      let here = current_of_slot k i p lt e in
      let same : p.id ≡ i = n i p e in
      let again : current k p.id ≡ done p = subst (λ x. current k x ≡ done p) (sym same) here in
      elim (resumed_cases p p.state (λ ring size f. maps i p ring size e f) refl c) [
        | inl (q, f, r) ↦ inl (q, rw (here, f) refl, r)
        | inr f ↦ inr (rw (here, f, again) refl)
      ]

  Outcome : Kernel → Option ℕ → Type 0
  Outcome k none =
      (i : ℕ) (p : Process) → i < process_count → k.processes i ≡ some p → can_run p.state ≡ false
  Outcome k (some i) =
      (i < process_count) × ((p : Process) × (k.processes i ≡ some p) × (p.state ≡ runnable))

  schedule_round :
      (rounds : ℕ) (k : Kernel) (last : Option ℕ) (k1 : Kernel) (found : Option ℕ)
      → IsSane k1
      → IsNumbered k1
      → CanMap k1
      → Shrinks k k1
      → find_runnable_process k last ≡ done (k1, found)
      → ((i : ℕ)
          → found ≡ some i
          → (i < process_count)
            × ((p : Process) × (k1.processes i ≡ some p) × (can_run p.state ≡ true)))
      → ((i : ℕ) (p : Process)
          → i < process_count
          → k.processes i ≡ some p
          → can_run p.state ≡ true
          → found ≢ none)
      → count process_count k.processes < suc rounds
      → ((k2 : Kernel) (last2 : Option ℕ)
          → IsSane k2
          → IsNumbered k2
          → CanMap k2
          → count process_count k2.processes < rounds
          → (k' : Kernel) × (next : Option ℕ) × (schedule_userspace handlers rounds k2 last2
              ≡ done (k', next))
            × Outcome k' next)
      → (k' : Kernel) × (next : Option ℕ) × (schedule_userspace handlers (suc rounds) k last
          ≡ done (k', next))
        × Outcome k' next
  unfolding schedule_userspace Outcome
  schedule_round rounds k last k1 none s n maps sh e runs misses_none few rest = (
    k1,
    none,
    rw e refl,
    λ i q lt f. elim (Bool-cases (can_run q.state)) [
      | inl c ↦
          let (p, g, a) = sh i q f in
          absurd (misses_none i p lt g (subst (λ x. can_run x.state ≡ true) (a.same c) c) refl)
      | inr c ↦ c
    ],
  )
  schedule_round rounds k last k1 (some i) s n maps sh e runs misses_none few rest =
      let (lt, (p, f, c)) = runs i refl in
      let here = current_of_slot k1 i p lt f in
      elim (resume_process_cases k1 i p lt n maps f c) [
        | inl (q, g, r) ↦ (
          put k1 i q,
          some i,
          rw (e, here, g) refl,
          (lt, (q, update_self k1.processes i (some q), r)),
        )
        | inr g ↦
            let k2 : Kernel = put k1 p.id (gone p) in
            let at : k1.processes p.id ≡ some p =
              subst (λ x. k1.processes x ≡ some p) (sym (n i p f)) f in
            let less : p.id < process_count = subst (λ x. x < process_count) (sym (n i p f)) lt in
            let (sane2, sh2, fewer) = killing k1 p s at less c in
            let no_more = count-le k.processes k1.processes (Shrinks-runs k k1 sh) process_count in
            let (k', next, h, o) =
              rest k2 (some p.id) sane2 (Shrinks-IsNumbered k1 k2 sh2 n)
                (Shrinks-CanMap k1 k2 sh2 maps) (omega (arith, fewer, no_more, few)) in
            (k', next, rw (e, here, g) h, o)
      ]

  schedule_enough :
      (rounds : ℕ) (k : Kernel) (last : Option ℕ)
      → IsSane k
      → IsNumbered k
      → CanMap k
      → count process_count k.processes < rounds
      → (k' : Kernel) × (next : Option ℕ) × (schedule_userspace handlers rounds k last
          ≡ done (k', next))
        × Outcome k' next
  schedule_enough zero k last s n maps few = absurd (omega (arith, few))
  schedule_enough (suc rounds) k last s n maps few =
      let (k1, found, e, s1, runs, misses_none) = find_runnable_process_lem k last s in
      let sh = find-Shrinks k last (k1, found) e in
      schedule_round rounds k last k1 found s1 (Shrinks-IsNumbered k k1 sh n)
        (Shrinks-CanMap k k1 sh maps) sh e runs misses_none few (schedule_enough rounds)

  -- If every process is in the slot of its id, every process that waits for another waits for one
  -- that has a slot and is not itself, and for every process that is ready with a stream the memory
  -- of the stream can be mapped, then nine rounds are enough for the scheduler: it returns without
  -- a panic, either with a slot whose process is ready to run, or, to shut down, with none, and
  -- then no slot holds a process that can run.
  pub schedule_userspace_lem :
      (k : Kernel) (last : Option ℕ)
      → IsSane k
      → IsNumbered k
      → CanMap k
      → (k' : Kernel) × (next : Option ℕ) × (schedule_userspace handlers (suc process_count) k last
          ≡ done (k', next))
        × ((i : ℕ)
            → next ≡ some i
            → (i < process_count)
              × ((p : Process) × (k'.processes i ≡ some p) × (p.state ≡ runnable)))
        × (next ≡ none
            → (i : ℕ) (p : Process) → i < process_count
            → k'.processes i ≡ some p
            → can_run p.state ≡ false)
  unfolding Outcome
  schedule_userspace_lem k last s n maps =
      let (k', next, e, o) =
        schedule_enough (suc process_count) k last s n maps
          (count-bound process_count k.processes) in
      (k', next, e, λ i f. subst (Outcome k') f o, λ f. subst (Outcome k') f o)
