-- ===== src/Kernel/Ipc/Sane.antt =====
-- `ipc_call` and `ipc_receive` of kernel/src/syscall.rs, on all their branches: for whom processes wait.
use deravel_os.Prelude.{
  ℕ, ◌<◌, ◌≡◌, ◌≢◌, sym, subst, ap, inl, inr, ltb, ltb→lt, ==_iff, ◌==◌, Bool-cases, List, [], ◌∷◌,
  ◌++◌, length, Option, none, some, Exec, done, panic, >>=-eq-done, done-injective, unwrap, ◌>>=◌,
}
use deravel_os.Capability.{
  Actor, kernel, userspace, RawCapability, validate, certifier, local_index,
}
use deravel_os.Kernel.Process.{
  Kernel, Process, ProcessState, finished, waiting_for_reply, Message, UserSlice, put,
  get_process_beside, current, process_count,
}
use deravel_os.Kernel.Ipc.{
  Handlers, Action, send, kill, call_kernel, call_process, call_valid, ipc_call, receive,
  ipc_receive,
}
use deravel_os.Kernel.Schedule.{waits_for}
use deravel_os.Kernel.Schedule.Scan.{IsSane, set_slot-IsSane}

pub unwrap_inv : {A : Type 0} (o : Option A) {x : A} → unwrap o ≡ done x → o ≡ some x
unwrap_inv none h = cc h
unwrap_inv (some y) h = ap some (done-injective h)

pub current_inv :
    (k : Kernel) (pid : ℕ) (p : Process) → current k pid ≡ done p → k.processes pid ≡ some p
unfolding current
current_inv k pid p h = elim (Bool-cases (ltb pid process_count)) [
  | inl e ↦ unwrap_inv (k.processes pid) (rw e at h)
  | inr e ↦ let h' : panic ≡ done p = rw e at h in cc h'
]

pub beside_inv :
    (k : Kernel) (a b : ℕ) (slot : Option Process)
    → get_process_beside k a b ≡ done slot
    → (b < process_count) × (b ≢ a) × (slot ≡ k.processes b)
unfolding get_process_beside
beside_inv k a b slot h = elim (Bool-cases (ltb b process_count)) [
  | inl e ↦ elim (Bool-cases (b == a)) [
    | inl q ↦ let h' : panic ≡ done slot = rw (e, q) at h in cc h'
    | inr q ↦
        let h' : done (k.processes b) ≡ done slot = rw (e, q) at h in
        (
          ltb→lt b process_count e,
          λ s. let t = (==_iff b a).1 s in cc (q, t),
          sym (done-injective h'),
        )
  ]
  | inr e ↦ let h' : panic ≡ done slot = rw e at h in cc h'
]

pub put-IsSane :
    (k : Kernel) (i : ℕ) (q : Process)
    → IsSane k
    → ((from : ℕ) → waits_for q.state ≡ some (userspace from) → (from < process_count) × (from ≢ i))
    → IsSane (put k i q)
put-IsSane k i q s h =
    set_slot-IsSane k i (some q) s (λ from r f w. let same : r ≡ q = cc f in h from (rw same at w))

pub kill-IsSane :
    (k : Kernel) (pid : ℕ) (p : Process)
    → IsSane k
    → IsSane (put k pid (record p { state = finished }))
kill-IsSane k pid p s = put-IsSane k pid (record p { state = finished }) s (λ from w. cc w)

pub send-IsSane :
    (k : Kernel) (pid : ℕ) (p : Process) (b : ℕ) (d : Process) (m : Message)
    (waiting : ProcessState)
    → ((from : ℕ)
        → waits_for waiting ≡ some (userspace from)
        → ◌≡◌ {A = Actor} (userspace b) (userspace from))
    → IsSane k
    → b < process_count
    → b ≢ pid
    → k.processes b ≡ some d
    → IsSane (send k pid p waiting b d m)
send-IsSane k pid p b d m waiting on s lt ne e =
    let p1 : Process = record p { state = waiting } in
    let d1 : Process = record d { messages = d.messages ++ (m ∷ []) } in
    put-IsSane (put k pid p1) b d1
      (put-IsSane k pid p1 s (λ from w.
        let f = on from w in let same : b ≡ from = cc f in (rw same at lt, rw same at ne)))
      (λ from w. s b from d e w)

pub state_of :
    {k1 k' : Kernel} {x act : Action}
    → IsSane k1
    → ◌≡◌ {A = Exec (Kernel × Action)} (done (k1, x)) (done (k', act))
    → IsSane k'
state_of s h = let e = ap (λ r. r.0) (done-injective h) in subst IsSane e s

module _ (handlers : Handlers)
    (keeps : (k k' : Kernel) (index method : ℕ) (args result : List ℕ) (sender : ℕ)
      → IsSane k
      → handlers.call_method k index method args sender ≡ done (k', result)
      → IsSane k')
    (k : Kernel) (pid : ℕ) (s : IsSane k) (k' : Kernel) (act : Action) (method : ℕ) (args : List ℕ)
    (buffer : UserSlice) where
  call_kernel-IsSane :
      (index : ℕ) → call_kernel handlers k pid index method args buffer ≡ done (k', act) → IsSane k'
  unfolding call_kernel
  call_kernel-IsSane index h =
      let (r, e, h1) = >>=-eq-done (handlers.call_method k index method args pid) _ h in
      let s1 : IsSane r.0 = keeps k r.0 index method args r.1 pid s e in
      elim (Bool-cases (ltb buffer.len (length r.1))) [
        | inl c ↦
            let (p, _, h2) = >>=-eq-done (current r.0 pid) _ (rw c at h1) in
            state_of (kill-IsSane r.0 pid p s1) h2
        | inr c ↦ state_of s1 (rw c at h1)
      ]

  call_process-IsSane :
      (p : Process) (cap : RawCapability) (dest : ℕ) (slot : Option Process)
      → get_process_beside k pid dest ≡ done slot
      → call_process handlers k pid p cap dest method args buffer slot ≡ done (k', act)
      → IsSane k'
  unfolding call_process
  call_process-IsSane p cap dest none b h = state_of (kill-IsSane k pid p s) h
  call_process-IsSane p cap dest (some d) b h =
      let (lt, ne, e) = beside_inv k pid dest (some d) b in
      state_of
        (send-IsSane k pid p dest d _ (waiting_for_reply (userspace dest) buffer) (λ from w. cc w) s
          lt ne (sym e))
        h

  call_certified-IsSane :
      (p : Process) (cap : RawCapability) (by : Actor)
      → elim by as (λ _. Exec (Kernel × Action)) [
        | kernel ↦ call_kernel handlers k pid (local_index cap) method args buffer
        | userspace dest ↦
            get_process_beside k pid dest
            >>= (λ slot. call_process handlers k pid p cap dest method args buffer slot)
      ]
        ≡ done (k', act)
      → IsSane k'
  call_certified-IsSane p cap kernel h = call_kernel-IsSane (local_index cap) h
  call_certified-IsSane p cap (userspace dest) h =
      let (slot, b, h1) = >>=-eq-done (get_process_beside k pid dest) _ h in
      call_process-IsSane p cap dest slot b h1

  call_valid-IsSane :
      (p : Process) (valid : Option RawCapability)
      → call_valid handlers k pid p method args buffer valid ≡ done (k', act)
      → IsSane k'
  unfolding call_valid
  call_valid-IsSane p none h = state_of (kill-IsSane k pid p s) h
  call_valid-IsSane p (some cap) h =
      let (by, e, h1) = >>=-eq-done (certifier cap) _ h in call_certified-IsSane p cap by h1

  -- A call, on every branch on which it returns to the kernel, leaves a kernel whose waiting
  -- processes wait for other processes that have a slot, if it was called in one and the handlers
  -- of kernel objects keep that.
  pub ipc_call-IsSane :
      (fuel : ℕ) (cap : RawCapability)
      → ipc_call handlers fuel k pid cap method args buffer ≡ done (k', act)
      → IsSane k'
  unfolding ipc_call
  ipc_call-IsSane fuel cap h =
      let (p, _, h1) = >>=-eq-done (current k pid) _ h in
      let (valid, _, h2) = >>=-eq-done (validate fuel k.certs cap p.id) _ h1 in
      call_valid-IsSane p valid h2

receive-IsSane :
    (k : Kernel) (pid room : ℕ) (p : Process) (messages : List Message) (k' : Kernel) (act : Action)
    → IsSane k
    → k.processes pid ≡ some p
    → receive k pid p room messages ≡ done (k', act)
    → IsSane k'
unfolding receive
receive-IsSane k pid room p [] k' act s e h = state_of s h
receive-IsSane k pid room p (m ∷ rest) k' act s e h =
    let q : Process = record p { messages = rest; currently_serving = some m.sender } in
    elim (Bool-cases (ltb room (length m.args))) [
      | inl c ↦ state_of (kill-IsSane k pid (record p { messages = rest }) s) (rw c at h)
      | inr c ↦ state_of (put-IsSane k pid q s (λ from w. s pid from p e w)) (rw c at h)
    ]

serving-IsSane :
    (k : Kernel) (pid room : ℕ) (p : Process) (serving : Option ℕ) (k' : Kernel) (act : Action)
    → IsSane k
    → k.processes pid ≡ some p
    → elim serving as (λ _. Exec (Kernel × Action)) [
      | some _ ↦ kill k pid p
      | none ↦ receive k pid p room p.messages
    ]
      ≡ done (k', act)
    → IsSane k'
serving-IsSane k pid room p none k' act s e h = receive-IsSane k pid room p p.messages k' act s e h
serving-IsSane k pid room p (some _) k' act s e h = state_of (kill-IsSane k pid p s) h

-- Receiving, on every branch on which it returns to the kernel, leaves a kernel whose waiting
-- processes wait for other processes that have a slot, if it was called in one.
pub ipc_receive-IsSane :
    (k : Kernel) (pid room : ℕ) (k' : Kernel) (act : Action)
    → IsSane k
    → ipc_receive k pid room ≡ done (k', act)
    → IsSane k'
unfolding ipc_receive
ipc_receive-IsSane k pid room k' act s h =
    let (p, e, h1) = >>=-eq-done (current k pid) _ h in
    serving-IsSane k pid room p p.currently_serving k' act s (current_inv k pid p e) h1
