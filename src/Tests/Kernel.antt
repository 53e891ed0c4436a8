-- ===== src/Tests/Kernel.antt =====
-- The theorems on calls and scheduling, at a kernel with a client in slot 1 and a server in slot 2.
use deravel_os.Prelude.{
  ℕ, ◌+◌, ◌*◌, ◌<◌, ◌≡◌, ◌≢◌, refl, ◌==◌, ==_iff, if◌then◌else◌, Bool-cases, inl, inr, true, List,
  [], ◌∷◌, Option, none, some, done, panic, arith,
}
use deravel_os.Heap.Buddy.{bare}
use deravel_os.Heap.Allocator.{BuddyAllocator}
use deravel_os.Page.Table.{invalid}
use deravel_os.Memory.{user_capabilities_start, page_size}
use deravel_os.Capability.{
  userspace, Certificates, granted, validate, validate_loop, validate_step, certifier,
  RawCapability,
}
use deravel_os.Kernel.Process.{
  Kernel, Process, ProcessState, runnable, waiting_for_reply, ready_reply, UserSlice, process_count,
}
use deravel_os.Kernel.Ipc.{Handlers, yield_, received, returned, ipc_call, ipc_receive, ipc_reply}
use deravel_os.Kernel.Ipc.Exchange.{Pair, call-receive-reply, ipc_call-own_panics}
use deravel_os.Kernel.Schedule.{can_run, find_runnable_process}
use deravel_os.Kernel.Schedule.Scan.{IsSane, find_runnable_process_lem}

abbrev empty_heap : BuddyAllocator
empty_heap = record { root = bare 1 0; root_node_size = 1; start = 0x1000; stop = 0x1001 }

abbrev process : ℕ → ProcessState → Process
process i s = record {
  id = i;
  state = s;
  messages = [];
  currently_serving = none;
  a0 = 0;
  a1 = 0;
  heap = empty_heap;
  page_table = λ _. invalid;
}

abbrev two_processes : Process → Process → ℕ → Option Process
two_processes p q i = if i == 1 then some p else if i == 2 then some q else none

-- The server's first certificate, and each certificate granting to the process given.
abbrev service : RawCapability
service = user_capabilities_start + 2 * page_size

abbrev all_to : ℕ → Certificates
all_to pid p i = granted (userspace pid)

abbrev idle_pair : ℕ → Kernel
idle_pair pid = record {
  processes = two_processes (process 1 runnable) (process 2 runnable);
  reserved = 2;
  certs = all_to pid;
}

abbrev no_drivers : Handlers
no_drivers = record {
  call_method = λ k _ _ _ _. done (k, []);
  map_stream = λ _ _. panic;
  shared_memory_map = λ _ _ table. done table;
  shared_memory_size = λ _. done 4096;
}

abbrev nothing_decoded : List ℕ → Option (ℕ × Option ℕ)
nothing_decoded _ = none

abbrev reply_buffer : UserSlice
reply_buffer = record { address = 0x5000; len = 16 }

service_of_2 : certifier service ≡ done (userspace 2)
unfolding certifier
service_of_2 = refl

service_valid : validate 1 (all_to 1) service 1 ≡ done (some service)
unfolding validate validate_loop validate_step granted
service_valid = refl

service_own : validate 1 (all_to 2) service 2 ≡ done (some service)
unfolding validate validate_loop validate_step granted
service_own = refl

idle_pair-Pair : Pair (idle_pair 1) 1 2 (process 1 runnable) (process 2 runnable)
idle_pair-Pair = record {
  first_lt = omega arith;
  second_lt = omega arith;
  different = λ h. absurd (omega arith);
  first = refl;
  second = refl;
}

call-receive-reply_example :
    (k1 : Kernel) × (k2 : Kernel) × (k3 : Kernel) × (ipc_call no_drivers 1
        (idle_pair 1)
        1
        service
        7
        (10 ∷ [])
        reply_buffer
      ≡ done (k1, yield_))
    × (ipc_receive k1 2 4
        ≡ done (k2, received (record { cap = service; method = 7; args = 10 ∷ []; sender = 1 })))
    × (ipc_reply no_drivers nothing_decoded 1 k2 2 (20 ∷ []) ≡ done (k3, returned))
    × Pair k3 1 2 (process 1 (ready_reply (20 ∷ []) reply_buffer)) (process 2 runnable)
    × ((i : ℕ) → i ≢ 1 → i ≢ 2 → k3.processes i ≡ (idle_pair 1).processes i)
call-receive-reply_example =
    call-receive-reply no_drivers nothing_decoded 1 1 4 (idle_pair 1) 1 2 (process 1 runnable)
      (process 2 runnable) service service 7 (10 ∷ []) (20 ∷ []) reply_buffer idle_pair-Pair refl
      refl refl service_valid service_of_2 (omega arith)

ipc_call-own_panics_example :
    ipc_call no_drivers 1 (idle_pair 2) 2 service 7 [] reply_buffer ≡ panic
ipc_call-own_panics_example =
    ipc_call-own_panics no_drivers 1 (idle_pair 2) 2 (process 2 runnable) service service 7 []
      reply_buffer (omega arith) refl service_own service_of_2

-- The client's first certificate.
abbrev first_service : RawCapability
first_service = user_capabilities_start + page_size

-- The client waits for the server, and grants to it.
abbrev client : Process
client = process 1 (waiting_for_reply (userspace 2) reply_buffer)

abbrev waiting_for : Process → Kernel
waiting_for server = record {
  processes = two_processes client server;
  reserved = 2;
  certs = all_to 2;
}

waiting_for-IsSane : (server : Process) → server.state ≡ runnable → IsSane (waiting_for server)
waiting_for-IsSane server idle i from p e w = elim (Bool-cases (i == 1)) [
  | inl a ↦
      let first : some client ≡ some p = rw a at e in
      let one : i ≡ 1 = (==_iff i 1).0 a in
      let two : 2 ≡ from = cc (first, w) in (omega arith, λ h. absurd (omega arith))
  | inr a ↦ elim (Bool-cases (i == 2)) [
    | inl b ↦
        let second : some server ≡ some p = rw (a, b) at e in
        let same : p ≡ server = cc second in
        let none_waits : none ≡ some (userspace from) = rw idle at (rw same at w) in cc none_waits
    | inr b ↦ let empty : none ≡ some p = rw (a, b) at e in cc empty
  ]
]

abbrev waiting_pair : Kernel
waiting_pair = waiting_for (process 2 runnable)

waiting_pair-IsSane : IsSane waiting_pair
waiting_pair-IsSane = waiting_for-IsSane (process 2 runnable) refl

find_runnable_process_lem_example :
    (k' : Kernel) × (found : Option ℕ) × (find_runnable_process waiting_pair (some 2)
      ≡ done (k', found))
    × IsSane k'
    × ((i : ℕ)
        → found ≡ some i
        → (i < process_count)
          × ((p : Process) × (k'.processes i ≡ some p) × (can_run p.state ≡ true)))
    × ((i : ℕ) (p : Process)
        → i < process_count
        → waiting_pair.processes i ≡ some p
        → can_run p.state ≡ true
        → found ≢ none)
find_runnable_process_lem_example =
    find_runnable_process_lem waiting_pair (some 2) waiting_pair-IsSane
