-- ===== src/Tests/Run.antt =====
-- The theorems on runs of the kernel, at a run in which a client calls a server, and on the scheduler,
-- at a process that is ready with a stream.
use deravel_os.Prelude.{
  ap, subst, done-injective, ℕ, ◌*◌, ◌+◌, ◌<◌, ◌≡◌, ◌≢◌, refl, true, false, sym, ◌∙◌, ◌==◌, ==_iff,
  Bool-cases, inl, inr, List, [], ◌∷◌, Option, none, some, done, panic,
}
use deravel_os.Heap.Buddy.{bare}
use deravel_os.Heap.Layout.{page_layout}
use deravel_os.Heap.Buddy
use deravel_os.Heap.Allocator
use deravel_os.Heap.Allocator.{BuddyAllocator}
use deravel_os.Page.Table.{PageTable, invalid}
use deravel_os.Memory.{user_capabilities_start, page_size}
use deravel_os.Capability.{
  userspace, Certificates, granted, RawCapability, validate, validate_loop, validate_step,
  certifier, process_id,
}
use deravel_os.Kernel.Process.{
  Kernel, Process, UserSlice, process_count, current, get_process_beside, waiting_for_reply,
  ready_stream_map, runnable, put, reserve_process, create_process,
}
use deravel_os.Kernel.Ipc.{Handlers, send, yield_, ipc_call}
use deravel_os.Kernel.Schedule.{
  waits_for, map_memory, can_run, find_runnable_process, schedule_userspace,
}
use deravel_os.Kernel.Schedule.Ends.{IsNumbered, CanMap, schedule_userspace_lem}
use deravel_os.Kernel.Schedule.Scan.{IsSane}
use deravel_os.Kernel.Run.{
  Spawns, nothing, Surroundings, boot, Reachable, reserves, creates, calls, here, next,
}
use deravel_os.Kernel.Run.Reached.{Reachable-schedules}

abbrev silent_handlers : Handlers
silent_handlers = record {
  call_method = λ k _ _ _ _. done (k, []);
  map_stream = λ _ _. panic;
  shared_memory_map = λ _ _ table. done table;
  shared_memory_size = λ _. done 4096;
}

silent_handlers-Spawns :
    (k k' : Kernel) (index method : ℕ) (args result : List ℕ) (sender : ℕ)
    → silent_handlers.call_method k index method args sender ≡ done (k', result)
    → Spawns k k'
silent_handlers-Spawns k k' index method args result sender h =
    let e = ap (λ r. r.0) (done-injective h) in subst (Spawns k) e nothing

abbrev around : Surroundings
around = record { handlers = silent_handlers; from_bytes = λ _. none; fuel = 1 }

abbrev all_to_client : Certificates
all_to_client p i = granted (userspace 1)

abbrev empty_heap : BuddyAllocator
empty_heap = record { root = bare 1 0; root_node_size = 1; start = 0x1000; stop = 0x1001 }

abbrev ready : ℕ → Process
ready pid = record {
  id = pid;
  state = runnable;
  messages = [];
  currently_serving = none;
  a0 = 0;
  a1 = 0;
  heap = empty_heap;
  page_table = λ _. invalid;
}

abbrev reserved_one : Kernel
reserved_one = record (boot all_to_client) { reserved = 1 }

abbrev client_only : Kernel
client_only = put reserved_one 1 (ready 1)

abbrev reserved_two : Kernel
reserved_two = record client_only { reserved = 2 }

abbrev both : Kernel
both = put reserved_two 2 (ready 2)

abbrev server_certificate : RawCapability
server_certificate = user_capabilities_start + 2 * page_size

abbrev room : UserSlice
room = record { address = 0x5000; len = 16 }

abbrev in_call : Kernel
in_call =
    send both 1 (ready 1) (waiting_for_reply (userspace 2) room) 2 (ready 2)
      (record { cap = server_certificate; method = 7; args = 10 ∷ []; sender = 1 })

first_reserved : reserve_process (boot all_to_client) ≡ done (reserved_one, 1)
unfolding reserve_process process_id
first_reserved = refl

first_created : create_process reserved_one 1 empty_heap (λ _. invalid) ≡ done client_only
unfolding create_process
first_created = refl

second_reserved : reserve_process client_only ≡ done (reserved_two, 2)
unfolding reserve_process process_id
second_reserved = refl

second_created : create_process reserved_two 2 empty_heap (λ _. invalid) ≡ done both
unfolding create_process
second_created = refl

calls_server :
    ipc_call silent_handlers 1 both 1 server_certificate 7 (10 ∷ []) room ≡ done (in_call, yield_)
unfolding ipc_call current validate validate_loop validate_step granted get_process_beside certifier
calls_server = refl

in_call-Reachable : Reachable around (boot all_to_client) in_call
in_call-Reachable =
    next
      (next
        (next
          (next (next here (reserves 1 first_reserved))
            (creates 1 empty_heap (λ _. invalid) first_created))
          (reserves 2 second_reserved))
        (creates 2 empty_heap (λ _. invalid) second_created))
      (calls 1 server_certificate 7 (10 ∷ []) room yield_ calls_server)

Reachable-schedules_example :
    IsSane in_call
    × ((k' : Kernel) × (found : Option ℕ) × (find_runnable_process in_call (some 1)
          ≡ done (k', found))
        × ((i : ℕ)
            → found ≡ some i
            → (i < process_count)
              × ((p : Process) × (k'.processes i ≡ some p) × (can_run p.state ≡ true)))
        × ((i : ℕ) (p : Process)
            → i < process_count
            → in_call.processes i ≡ some p
            → can_run p.state ≡ true
            → found ≢ none))
Reachable-schedules_example =
    Reachable-schedules around silent_handlers-Spawns all_to_client in_call (some 1)
      in_call-Reachable

-- A process that is ready with a stream of one page, and has a heap of one page.
abbrev page_heap : BuddyAllocator
page_heap = record { root = bare 4096 0; root_node_size = 4096; start = 0x1000; stop = 0x2000 }

abbrev streamer : Process
streamer = record (ready 1) {
  state = ready_stream_map (user_capabilities_start + 8) 100;
  heap = page_heap;
}

abbrev streaming : Kernel
streaming = put (boot all_to_client) 1 streamer

only_streamer : (i : ℕ) (p : Process) → streaming.processes i ≡ some p → (i ≡ 1) × (streamer ≡ p)
only_streamer i p e = elim (Bool-cases (i == 1)) [
  | inl a ↦
      let one : i ≡ 1 = (==_iff i 1).0 a in
      let first : some streamer ≡ some p = rw a at e in
      let same : streamer ≡ p = cc first in (one, same)
  | inr a ↦ let empty : none ≡ some p = rw a at e in cc empty
]

streaming-IsSane : IsSane streaming
streaming-IsSane i from p e w =
    let (_, same) = only_streamer i p e in
    let none_waits : none ≡ some (userspace from) = ap (λ x. waits_for x.state) same ∙ w in
    cc none_waits

streaming-IsNumbered : IsNumbered streaming
streaming-IsNumbered i p e =
    let (one, same) = only_streamer i p e in sym (ap (λ x. x.id) same) ∙ sym one

streamer_maps :
    (ring : RawCapability)
    → (m : BuddyAllocator × PageTable × ℕ) × (map_memory silent_handlers streamer ring ≡ done m)
unfolding map_memory page_layout Allocator.alloc Buddy.alloc
streamer_maps ring = (
  (
    record { root = bare 0 4096; root_node_size = 4096; start = 0x1000; stop = 0x2000 },
    (λ _. invalid),
    0x1000,
  ),
  refl,
)

streaming-CanMap : CanMap silent_handlers streaming
streaming-CanMap i p ring size e f =
    let (_, same) = only_streamer i p e in
    let (m, h) = streamer_maps ring in
    (m, subst (λ x. map_memory silent_handlers x ring ≡ done m) same h)

schedule_userspace_lem_example :
    (k' : Kernel) × (next : Option ℕ) × (schedule_userspace silent_handlers 9 streaming (some 1)
      ≡ done (k', next))
    × ((i : ℕ)
        → next ≡ some i
        → (i < process_count) × ((p : Process) × (k'.processes i ≡ some p) × (p.state ≡ runnable)))
    × (next ≡ none
        → (i : ℕ) (p : Process) → i < process_count
        → k'.processes i ≡ some p
        → can_run p.state ≡ false)
schedule_userspace_lem_example =
    schedule_userspace_lem silent_handlers streaming (some 1) streaming-IsSane streaming-IsNumbered
      streaming-CanMap
