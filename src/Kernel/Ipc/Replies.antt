-- ===== src/Kernel/Ipc/Replies.antt =====
-- `ipc_reply` of kernel/src/syscall.rs, on all its branches: for whom processes wait.
use deravel_os.Prelude.{
  ◌*◌, ◌%◌, ℕ, ◌<◌, ◌≡◌, ◌≢◌, refl, ltb, ◌==◌, inl, inr, Bool-cases, List, Option, none, some, Exec,
  done, >>=-eq-done, unwrap, ◌>>=◌, add_usize,
}
use deravel_os.Memory.{page_size, cache_line_size}
use deravel_os.Capability.{
  kernel, userspace, RawCapability, validate, certifier, local_index, actor_eq, try_from,
}
use deravel_os.Kernel.Process.{
  Kernel, Process, ProcessState, runnable, finished, waiting_for_reply, waiting_for_stream_map,
  ready_reply, ready_stream_map, put, get_process_beside, current, process_count,
}
use deravel_os.Kernel.Ipc.{
  Handlers, Action, kill, map_ring, map_valid, map_decoded, reply_to, reply_served, ipc_reply,
}
use deravel_os.Kernel.Schedule.{waits_for}
use deravel_os.Kernel.Schedule.Scan.{IsSane}
use deravel_os.Kernel.Ipc.Sane.{current_inv, put-IsSane, kill-IsSane, state_of}

module _ (handlers : Handlers) (from_bytes : List ℕ → Option (ℕ × Option ℕ)) (fuel : ℕ) (k : Kernel)
    (pid : ℕ) (p : Process) (s : IsSane k)
    (w : (from : ℕ)
      → waits_for p.state ≡ some (userspace from)
      → (from < process_count) × (from ≢ pid))
    (k' : Kernel) (act : Action) (caller_pid : ℕ) (caller : Process) where
  ready-IsSane : (q : Process) → waits_for q.state ≡ none → IsSane (put (put k pid p) caller_pid q)
  ready-IsSane q e =
      put-IsSane (put k pid p) caller_pid q (put-IsSane k pid p s w) (λ from f. cc (e, f))

  map_ring-IsSane :
      (ring : RawCapability) (size : ℕ)
      → map_ring handlers from_bytes k pid p caller_pid caller ring size ≡ done (k', act)
      → IsSane k'
  unfolding map_ring
  map_ring-IsSane ring size h =
      let (by, _, h1) = >>=-eq-done (certifier ring) _ h in
      elim (Bool-cases (actor_eq by kernel)) [
        | inr c ↦ state_of (kill-IsSane k pid p s) (rw c at h1)
        | inl c ↦
            let (length, _, h2) =
              >>=-eq-done (handlers.shared_memory_size (local_index ring)) _ (rw c at h1) in
            elim (Bool-cases (length % page_size == 0)) [
              | inr d ↦ state_of (kill-IsSane k pid p s) (rw d at h2)
              | inl d ↦
                  let (needed, _, h3) =
                    >>=-eq-done (add_usize (2 * cache_line_size) size) _ (rw d at h2) in
                  elim (Bool-cases (ltb length needed)) [
                    | inl f ↦ state_of (kill-IsSane k pid p s) (rw f at h3)
                    | inr f ↦
                        state_of
                          (ready-IsSane (record caller { state = ready_stream_map ring size }) refl)
                          (rw f at h3)
                  ]
            ]
      ]

  map_valid-IsSane :
      (size : ℕ) (valid : Option RawCapability)
      → map_valid handlers from_bytes k pid p caller_pid caller size valid ≡ done (k', act)
      → IsSane k'
  unfolding map_valid
  map_valid-IsSane size none h = state_of (kill-IsSane k pid p s) h
  map_valid-IsSane size (some ring) h = map_ring-IsSane ring size h

  map_second-IsSane :
      (stream : RawCapability) (second : Option ℕ)
      → elim second as (λ _. Exec (Kernel × Action)) [
        | none ↦ kill k pid p
        | some size ↦
            validate fuel k.certs stream caller.id
            >>= (λ valid. map_valid handlers from_bytes k pid p caller_pid caller size valid)
      ]
        ≡ done (k', act)
      → IsSane k'
  map_second-IsSane stream none h = state_of (kill-IsSane k pid p s) h
  map_second-IsSane stream (some size) h =
      let (valid, _, h1) = >>=-eq-done (validate fuel k.certs stream caller.id) _ h in
      map_valid-IsSane size valid h1

  map_decoded-IsSane :
      (read : Option (ℕ × Option ℕ))
      → map_decoded handlers from_bytes fuel k pid p caller_pid caller read ≡ done (k', act)
      → IsSane k'
  unfolding map_decoded
  map_decoded-IsSane none h = state_of (kill-IsSane k pid p s) h
  map_decoded-IsSane (some (address, second)) h =
      let (stream, _, h1) = >>=-eq-done (unwrap (try_from address)) _ h in
      map_second-IsSane stream second h1

  reply_to-IsSane :
      (result : List ℕ) (state : ProcessState)
      → reply_to handlers from_bytes fuel k pid p caller_pid caller result state ≡ done (k', act)
      → IsSane k'
  unfolding reply_to
  reply_to-IsSane result runnable h = cc h
  reply_to-IsSane result finished h = cc h
  reply_to-IsSane result (ready_reply _ _) h = cc h
  reply_to-IsSane result (ready_stream_map _ _) h = cc h
  reply_to-IsSane result (waiting_for_reply from buffer) h =
      elim (Bool-cases (actor_eq from (userspace p.id))) [
        | inr c ↦ state_of (kill-IsSane k pid p s) (rw c at h)
        | inl c ↦
            state_of (ready-IsSane (record caller { state = ready_reply result buffer }) refl)
              (rw c at h)
      ]
  reply_to-IsSane result (waiting_for_stream_map from) h =
      elim (Bool-cases (actor_eq from (userspace p.id))) [
        | inr c ↦ state_of (kill-IsSane k pid p s) (rw c at h)
        | inl c ↦ map_decoded-IsSane (from_bytes result) (rw c at h)
      ]

module _ (handlers : Handlers) (from_bytes : List ℕ → Option (ℕ × Option ℕ)) (fuel : ℕ) (k : Kernel)
    (pid : ℕ) (s : IsSane k) (k' : Kernel) (act : Action) (result : List ℕ) where
  reply_served-IsSane :
      (p : Process) (serving : Option ℕ)
      → k.processes pid ≡ some p
      → reply_served handlers from_bytes fuel k pid p result serving ≡ done (k', act)
      → IsSane k'
  unfolding reply_served
  reply_served-IsSane p none e h = state_of (kill-IsSane k pid p s) h
  reply_served-IsSane p (some caller_pid) e h =
      let (slot, _, h1) = >>=-eq-done (get_process_beside k pid caller_pid) _ h in
      let (caller, _, h2) = >>=-eq-done (unwrap slot) _ h1 in
      reply_to-IsSane handlers from_bytes fuel k pid (record p { currently_serving = none }) s
        (λ from w. s pid from p e w) k' act caller_pid caller result caller.state h2

  -- A reply, on every branch on which it returns to the kernel, leaves a kernel whose waiting
  -- processes wait for other processes that have a slot, if it was called in one.
  pub ipc_reply-IsSane :
      ipc_reply handlers from_bytes fuel k pid result ≡ done (k', act) → IsSane k'
  unfolding ipc_reply
  ipc_reply-IsSane h =
      let (p, e, h1) = >>=-eq-done (current k pid) _ h in
      reply_served-IsSane p p.currently_serving (current_inv k pid p e) h1
