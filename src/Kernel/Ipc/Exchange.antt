-- ===== src/Kernel/Ipc/Exchange.antt =====
-- The calls of kernel/src/syscall.rs as two processes use them on each other.
use deravel_os.Prelude.{
  ℕ, ◌<◌, ◌≤◌, ◌≡◌, ◌≢◌, refl, sym, ◌∙◌, ap, le→ltb, ne→==, List, [], ◌∷◌, ◌++◌, length, Option,
  none, some, done, panic,
}
use deravel_os.Capability.{userspace, RawCapability, validate, certifier}
use deravel_os.Capability.Validate.{actor_eq_iff}
use deravel_os.Kernel.Process.{
  Kernel, Process, waiting_for_reply, ready_reply, Message, UserSlice, put, process_count,
}
use deravel_os.Kernel.Ipc.{
  Handlers, yield_, received, returned, send, ipc_call, ipc_receive, ipc_reply,
}
use deravel_os.Kernel.Process.Slots.{update_self, update_ne, current_of_slot, beside, beside_self}

module _ (handlers : Handlers) (fuel : ℕ) (k : Kernel) (a : ℕ) (p : Process) (cap c : RawCapability)
    (method : ℕ) (args : List ℕ) (buffer : UserSlice) where
  -- A process that calls a capability of its own makes the kernel panic, as it locks the slot of
  -- the process twice.
  pub ipc_call-own_panics :
      a < process_count
      → k.processes a ≡ some p
      → validate fuel k.certs cap p.id ≡ done (some c)
      → certifier c ≡ done (userspace a)
      → ipc_call handlers fuel k a cap method args buffer ≡ panic
  unfolding ipc_call
  ipc_call-own_panics h e v by = rw (current_of_slot k a p h e, v, by, beside_self k a h) refl

  call_sends :
      (b : ℕ) (d : Process)
      → a < process_count
      → b < process_count
      → b ≢ a
      → k.processes a ≡ some p
      → k.processes b ≡ some d
      → validate fuel k.certs cap p.id ≡ done (some c)
      → certifier c ≡ done (userspace b)
      → ipc_call handlers fuel k a cap method args buffer
        ≡ done (
          send k a p
              (waiting_for_reply (userspace b) buffer)
              b
              d
              (record { cap = c; method = method; args = args; sender = a }),
          yield_,
        )
  unfolding ipc_call
  call_sends b d ha hb n ea eb v by =
      rw (current_of_slot k a p ha ea, v, by, beside k a b hb n, eb) refl

receive_takes :
    (k : Kernel) (b room : ℕ) (d : Process) (m : Message) (rest : List Message)
    → b < process_count
    → k.processes b ≡ some d
    → d.currently_serving ≡ none
    → d.messages ≡ m ∷ rest
    → length m.args ≤ room
    → ipc_receive k b room
      ≡ done (put k b (record d { messages = rest; currently_serving = some m.sender }), received m)
unfolding ipc_receive
receive_takes k b room d m rest hb e s ms fits =
    rw (current_of_slot k b d hb e, s, ms, le→ltb room (length m.args) fits) refl

reply_answers :
    (handlers : Handlers) (from_bytes : List ℕ → Option (ℕ × Option ℕ)) (fuel : ℕ) (k : Kernel)
    (a b : ℕ) (p d : Process) (result : List ℕ) (buffer : UserSlice)
    → a < process_count
    → b < process_count
    → a ≢ b
    → k.processes a ≡ some p
    → k.processes b ≡ some d
    → d.currently_serving ≡ some a
    → p.state ≡ waiting_for_reply (userspace d.id) buffer
    → ipc_reply handlers from_bytes fuel k b result
      ≡ done (
        put
            (put k b (record d { currently_serving = none }))
            a
            (record p { state = ready_reply result buffer }),
        returned,
      )
unfolding ipc_reply
reply_answers handlers from_bytes fuel k a b p d result buffer ha hb n ea eb s w =
    rw
      (
        current_of_slot k b d hb eb,
        s,
        beside k b a ha n,
        ea,
        w,
        (actor_eq_iff (userspace d.id) (userspace d.id)).1 refl,
      )
      refl

-- Two processes of a kernel, in different slots.
pub record Pair (k : Kernel) (a b : ℕ) (p d : Process) : Type 0 where
  pub first_lt : a < process_count
  pub second_lt : b < process_count
  pub different : b ≢ a
  pub first : k.processes a ≡ some p
  pub second : k.processes b ≡ some d

different_back : (a b : ℕ) → b ≢ a → a ≢ b
different_back a b n e = n (sym e)

put_second : (k : Kernel) (a b : ℕ) (p d d' : Process) → Pair k a b p d → Pair (put k b d') a b p d'
put_second k a b p d d' w = record {
  first_lt = w.first_lt;
  second_lt = w.second_lt;
  different = w.different;
  first = update_ne k.processes b a (some d') (different_back a b w.different) ∙ w.first;
  second = update_self k.processes b (some d');
}

put_first : (k : Kernel) (a b : ℕ) (p d p' : Process) → Pair k a b p d → Pair (put k a p') a b p' d
put_first k a b p d p' w = record {
  first_lt = w.first_lt;
  second_lt = w.second_lt;
  different = w.different;
  first = update_self k.processes a (some p');
  second = update_ne k.processes a b (some p') w.different ∙ w.second;
}

-- A call with a valid capability to another, idle process, followed by its receiving and its reply,
-- succeeds at every step: the server gets the method, the arguments and the caller and is idle
-- again behind them, the caller is ready with the reply, and no other slot changes.
pub call-receive-reply :
    (handlers : Handlers) (from_bytes : List ℕ → Option (ℕ × Option ℕ)) (fuel fuel' room : ℕ)
    (k : Kernel) (a b : ℕ) (p d : Process) (cap c : RawCapability) (method : ℕ)
    (args result : List ℕ) (buffer : UserSlice)
    → Pair k a b p d
    → d.id ≡ b
    → d.messages ≡ []
    → d.currently_serving ≡ none
    → validate fuel k.certs cap p.id ≡ done (some c)
    → certifier c ≡ done (userspace b)
    → length args ≤ room
    → (k1 : Kernel) × (k2 : Kernel) × (k3 : Kernel) × (ipc_call handlers fuel k a cap method args
          buffer
        ≡ done (k1, yield_))
      × (ipc_receive k1 b room
          ≡ done (k2, received (record { cap = c; method = method; args = args; sender = a })))
      × (ipc_reply handlers from_bytes fuel' k2 b result ≡ done (k3, returned))
      × Pair k3 a b
          (record p { state = ready_reply result buffer })
          (record d { messages = []; currently_serving = none })
      × ((i : ℕ) → i ≢ a → i ≢ b → k3.processes i ≡ k.processes i)
call-receive-reply handlers from_bytes fuel fuel' room k a b p d cap c method args result buffer w
      id idle free v by fits =
    let m : Message = record { cap = c; method = method; args = args; sender = a } in
    let p1 : Process = record p { state = waiting_for_reply (userspace b) buffer } in
    let d1 : Process = record d { messages = d.messages ++ (m ∷ []) } in
    let d2 : Process = record d { messages = []; currently_serving = some a } in
    let d3 : Process = record d { messages = []; currently_serving = none } in
    let p3 : Process = record p { state = ready_reply result buffer } in
    let k1 = put (put k a p1) b d1 in
    let k2 = put k1 b d2 in
    let k3 = put (put k2 b d3) a p3 in
    let w1 = put_second (put k a p1) a b p1 d d1 (put_first k a b p d p1 w) in
    let w2 = put_second k1 a b p1 d1 d2 w1 in
    let w3 = put_first (put k2 b d3) a b p1 d3 p3 (put_second k2 a b p1 d2 d3 w2) in
    (
      k1,
      k2,
      k3,
      call_sends handlers fuel k a p cap c method args buffer b d w.first_lt w.second_lt w.different
          w.first w.second v by,
      receive_takes k1 b room d1 m [] w1.second_lt w1.second free (ap (λ l. l ++ (m ∷ [])) idle)
          fits,
      reply_answers handlers from_bytes fuel' k2 a b p1 d2 result buffer w2.first_lt w2.second_lt
          (different_back a b w2.different) w2.first w2.second refl
          (ap (λ i. waiting_for_reply (userspace i) buffer) (sym id)),
      w3,
      λ i na nb. rw (ne→== i a na, ne→== i b nb) refl,
    )
