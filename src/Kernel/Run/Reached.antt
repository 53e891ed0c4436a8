-- ===== src/Kernel/Run/Reached.antt =====
-- What holds of every kernel that a run reaches.
use deravel_os.Prelude.{
  ℕ, ◌+◌, ◌∙◌, ◌<◌, ◌≡◌, ◌≢◌, refl, sym, ap, subst, ltb, inl, inr, Bool-cases, List, [], Option,
  none, some, Bool, true, Exec, done, panic, length, done-injective, >>=-eq-done,
}
use deravel_os.Capability.{Certificates, process_id}
use deravel_os.Kernel.Process.{
  Kernel, Process, ProcessState, runnable, finished, waiting_for_reply, waiting_for_stream_map,
  ready_reply, ready_stream_map, put, current, process_count, reserve_process, create_process,
}
use deravel_os.Heap.Allocator.{BuddyAllocator}
use deravel_os.Page.Table.{PageTable}
use deravel_os.Kernel.Ipc.{Handlers, Action, exit}
use deravel_os.Kernel.Ipc.Sane.{
  put-IsSane, kill-IsSane, current_inv, state_of, ipc_call-IsSane, ipc_receive-IsSane,
}
use deravel_os.Kernel.Ipc.Replies.{ipc_reply-IsSane}
use deravel_os.Kernel.Ipc.Streams.{ipc_stream-IsSane}
use deravel_os.Kernel.Schedule.{
  waits_for, can_run, find_runnable_process, resume_process, resumed, map_memory, settle,
}
use deravel_os.Kernel.Schedule.Scan.{IsSane, find_runnable_process_lem}
use deravel_os.Kernel.Run.{
  Surroundings, boot, Transition, Reachable, reserves, creates, kills, remaps, Spawns, nothing,
  reserving, creating, writing, writes, exits, calls, receives, replies, streams, searches, resumes,
  here, next,
}

boot-IsSane : (certs : Certificates) → IsSane (boot certs)
boot-IsSane certs i from p e w = cc e

exit-IsSane :
    (k : Kernel) (pid : ℕ) (k' : Kernel) (act : Action)
    → IsSane k
    → exit k pid ≡ done (k', act)
    → IsSane k'
unfolding exit
exit-IsSane k pid k' act s h =
    let (p, _, h1) = >>=-eq-done (current k pid) _ h in state_of (kill-IsSane k pid p s) h1

reserve_process-IsSane :
    (k : Kernel) (k' : Kernel) (pid : ℕ) → IsSane k → reserve_process k ≡ done (k', pid) → IsSane k'
unfolding reserve_process
reserve_process-IsSane k k' pid s h =
    let (q, _, h1) = >>=-eq-done (process_id (k.reserved + 1)) _ h in
    let e = ap (λ r. r.0) (done-injective h1) in subst IsSane e s

abbrev fresh_process : ℕ → BuddyAllocator → PageTable → Process
fresh_process pid heap page_table = record {
  id = pid;
  state = runnable;
  messages = [];
  currently_serving = none;
  a0 = 0;
  a1 = 0;
  heap = heap;
  page_table = page_table;
}

create_process-IsSane :
    (k : Kernel) (pid : ℕ) (heap : BuddyAllocator) (page_table : PageTable) (k' : Kernel)
    → IsSane k
    → create_process k pid heap page_table ≡ done k'
    → IsSane k'
unfolding create_process
create_process-IsSane k pid heap page_table k' s h = elim (Bool-cases (ltb pid process_count)) [
  | inl e ↦
      let h' : done (put k pid (fresh_process pid heap page_table)) ≡ done k' = rw e at h in
      subst IsSane (done-injective h')
        (put-IsSane k pid (fresh_process pid heap page_table) s (λ from w. cc w))
  | inr e ↦ let h' : panic ≡ done k' = rw e at h in cc h'
]

module _ (handlers : Handlers) (k : Kernel) (i : ℕ) (s : IsSane k) where
  waits_of_done :
      {p q : Process}
      → waits_for p.state ≡ none
      → ◌≡◌ {A = Exec (Option Process)} (done (some p)) (done (some q))
      → waits_for q.state ≡ none
  waits_of_done {p = p} {q = q} w h =
      let e = done-injective h in let same : p ≡ q = cc e in rw same at w

  resumed-waits :
      (p q : Process) (state : ProcessState)
      → p.state ≡ state
      → resumed handlers p state ≡ done (some q)
      → waits_for q.state ≡ none
  unfolding resumed
  resumed-waits p q runnable e h = waits_of_done (ap waits_for e) h
  resumed-waits p q (ready_reply reply buffer) e h =
      elim (Bool-cases (ltb buffer.len (length reply))) [
        | inl c ↦
            let h' : ◌≡◌ {A = Exec (Option Process)} (done none) (done (some q)) = rw c at h in
            cc h'
        | inr c ↦ waits_of_done refl (rw c at h)
      ]
  resumed-waits p q (ready_stream_map ring size) e h =
      let (m, _, h1) = >>=-eq-done (map_memory handlers p ring) _ h in waits_of_done refl h1
  resumed-waits p q finished e h = cc h
  resumed-waits p q (waiting_for_reply _ _) e h = cc h
  resumed-waits p q (waiting_for_stream_map _) e h = cc h

  settle-IsSane :
      (p : Process) (o : Option Process) (k' : Kernel) (running : Bool)
      → resumed handlers p p.state ≡ done o
      → settle handlers k i p o ≡ done (k', running)
      → IsSane k'
  unfolding settle
  settle-IsSane p (some q) k' running e h =
      let free = resumed-waits p q p.state refl e in
      let f = ap (λ r. r.0) (done-injective h) in
      subst IsSane f (put-IsSane k i q s (λ from w. cc (free, w)))
  settle-IsSane p none k' running e h =
      let (q, _, h1) = >>=-eq-done (current k p.id) _ h in
      let f = ap (λ r. r.0) (done-injective h1) in subst IsSane f (kill-IsSane k p.id q s)

  resume_process-IsSane :
      (k' : Kernel) (running : Bool) → resume_process handlers k i ≡ done (k', running) → IsSane k'
  unfolding resume_process
  resume_process-IsSane k' running h =
      let (p, _, h1) = >>=-eq-done (current k i) _ h in
      let (o, e, h2) = >>=-eq-done (resumed handlers p p.state) _ h1 in
      settle-IsSane p o k' running e h2

find_runnable_process-IsSane :
    (k : Kernel) (last : Option ℕ) (k' : Kernel) (found : Option ℕ)
    → IsSane k
    → find_runnable_process k last ≡ done (k', found)
    → IsSane k'
find_runnable_process-IsSane k last k' found s h =
    let (k1, f, e, s1, _, _) = find_runnable_process_lem k last s in
    let g = ap (λ r. r.0) (done-injective (sym e ∙ h)) in subst IsSane g s1

Spawns-IsSane : (k k' : Kernel) → IsSane k → Spawns k k' → IsSane k'
Spawns-IsSane k k' s nothing = s
Spawns-IsSane k k' s (reserving {k1} pid r h) =
    reserve_process-IsSane k1 k' pid (Spawns-IsSane k k1 s r) h
Spawns-IsSane k k' s (creating {k1} pid heap page_table r h) =
    create_process-IsSane k1 pid heap page_table k' (Spawns-IsSane k k1 s r) h
Spawns-IsSane k k' s (writing {k1} certs r h) = subst IsSane (sym h) (Spawns-IsSane k k1 s r)

module _ (around : Surroundings)
    (spawns : (k k' : Kernel) (index method : ℕ) (args result : List ℕ) (sender : ℕ)
      → around.handlers.call_method k index method args sender ≡ done (k', result)
      → Spawns k k') where
  Transition-IsSane : (k k' : Kernel) → IsSane k → Transition around k k' → IsSane k'
  Transition-IsSane k k' s (reserves pid h) = reserve_process-IsSane k k' pid s h
  Transition-IsSane k k' s (creates pid heap page_table h) =
      create_process-IsSane k pid heap page_table k' s h
  Transition-IsSane k k' s (kills pid p c h) = subst IsSane (sym h) (kill-IsSane k pid p s)
  Transition-IsSane k k' s (remaps pid p heap page_table c h) =
      let e = current_inv k pid p c in
      subst IsSane (sym h) (
        put-IsSane k pid (record p { heap = heap; page_table = page_table }) s
          (λ from w. s pid from p e w))
  Transition-IsSane k k' s (writes certs h) = subst IsSane (sym h) s
  Transition-IsSane k k' s (exits pid act h) = exit-IsSane k pid k' act s h
  Transition-IsSane k k' s (calls pid cap method args buffer act h) =
      ipc_call-IsSane around.handlers
        (λ a b index m xs r sender sane c.
          Spawns-IsSane a b sane (spawns a b index m xs r sender c))
        k pid s k' act method args buffer around.fuel cap h
  Transition-IsSane k k' s (receives pid room act h) = ipc_receive-IsSane k pid room k' act s h
  Transition-IsSane k k' s (replies pid result act h) =
      ipc_reply-IsSane around.handlers around.from_bytes around.fuel k pid s k' act result h
  Transition-IsSane k k' s (streams pid cap stream act h) =
      ipc_stream-IsSane around.handlers around.fuel k pid cap stream k' act s h
  Transition-IsSane k k' s (searches last found h) =
      find_runnable_process-IsSane k last k' found s h
  Transition-IsSane k k' s (resumes i running h) =
      resume_process-IsSane around.handlers k i s k' running h

  Reachable-IsSane : (k0 k : Kernel) → IsSane k0 → Reachable around k0 k → IsSane k
  Reachable-IsSane k0 k s here = s
  Reachable-IsSane k0 k s (next {k1} r step) =
      Transition-IsSane k1 k (Reachable-IsSane k0 k1 s r) step

  -- In every kernel that is reached from the start on, while processes are set up, exit, are
  -- killed, call each other, receive, reply and ask for streams in any order and with any
  -- arguments, change their own memory and write certificates in any way, and are searched for and
  -- resumed, every process that waits for another waits for one that has a slot and is not itself,
  -- if method calls of objects of the kernel do nothing to the table of processes but set up more
  -- and write certificates; the scheduler's search then ends without a panic, what it finds is a
  -- process that can run, and it finds one if any slot holds one.
  pub Reachable-schedules :
      (certs : Certificates) (k : Kernel) (last : Option ℕ)
      → Reachable around (boot certs) k
      → IsSane k
        × ((k' : Kernel) × (found : Option ℕ) × (find_runnable_process k last ≡ done (k', found))
            × ((i : ℕ)
                → found ≡ some i
                → (i < process_count)
                  × ((p : Process) × (k'.processes i ≡ some p) × (can_run p.state ≡ true)))
            × ((i : ℕ) (p : Process)
                → i < process_count
                → k.processes i ≡ some p
                → can_run p.state ≡ true
                → found ≢ none))
  Reachable-schedules certs k last r =
      let s = Reachable-IsSane (boot certs) k (boot-IsSane certs) r in
      let (k', found, e, _, runs, misses_none) = find_runnable_process_lem k last s in
      (s, (k', found, e, runs, misses_none))
