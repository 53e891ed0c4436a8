-- ===== src/Kernel/Schedule.antt =====
-- The scheduler of kernel/src/process.rs.
pub mod Scan
pub mod Rounds
pub mod Ends
use deravel_os.Prelude.{
  ℕ, zero, suc, ◌+◌, ◌%◌, if◌then◌else◌, Option, none, some, Bool, true, false, Exec, done, ◌>>=◌,
  panic, unwrap, diverge, ltb, length,
}
use deravel_os.Capability.{ProcessId, Actor, kernel, userspace, RawCapability, local_index}
use deravel_os.Heap.Layout.{page_layout}
use deravel_os.Heap.Allocator
use deravel_os.Heap.Allocator.{BuddyAllocator}
use deravel_os.Page.Table.{PageTable}
use deravel_os.Kernel.Ipc.{Handlers}
use deravel_os.Kernel.Process.{
  Kernel, Process, ProcessState, runnable, finished, waiting_for_reply, waiting_for_stream_map,
  ready_reply, ready_stream_map, put, update, get_process_beside, process_count, current,
}

-- Whom a process waits for.
abbrev pub waits_for : ProcessState → Option Actor
waits_for (waiting_for_reply from _) = some from
waits_for (waiting_for_stream_map from) = some from
waits_for _ = none

abbrev pub can_run : ProcessState → Bool
can_run runnable = true
can_run (ready_reply _ _) = true
can_run (ready_stream_map _ _) = true
can_run _ = false

abbrev pub is_finished : ProcessState → Bool
is_finished finished = true
is_finished _ = false

-- Whether a slot is empty or holds a finished process.
abbrev pub is_gone : Option Process → Bool
is_gone none = true
is_gone (some p) = is_finished p.state

-- `inspect_can_progress`, on the process in slot `i`: one that waits on a process that is gone is
-- finished too.
inspect_from : Kernel → ℕ → Process → Option Actor → Exec Process
inspect_from k i p none = done p
inspect_from k i p (some kernel) = done p
inspect_from k i p (some (userspace from)) = do
  slot ← get_process_beside k i from
  done (if is_gone slot then record p { state = finished } else p)

unfoldable pub inspect_can_progress : Kernel → ℕ → Process → Exec Process
unfolding inspect_from
inspect_can_progress k i p = inspect_from k i p (waits_for p.state)

-- One step of the scan: the slot is inspected; a process that can run is found, and one that is
-- finished leaves its slot.
scan_slot : Kernel → ℕ → Option Process → Exec (Kernel × Bool)
scan_slot k i none = done (k, false)
scan_slot k i (some p) = do
  q ← inspect_can_progress k i p
  done (
      if can_run q.state
      then (put k i q, true)
      else if is_finished q.state
      then (record k { processes = update k.processes i none }, false)
      else (put k i q, false))

-- The slots from `start` on, going round, `rounds` of them.
unfoldable pub scan : ℕ → Kernel → ℕ → Exec (Kernel × Option ℕ)
unfolding scan_slot
scan zero k start = done (k, none)
scan (suc rounds) k start = do
  (k', found) ← scan_slot k (start % process_count) (k.processes (start % process_count))
  elim found [ true ↦ done (k', some (start % process_count)) | false ↦ scan rounds k' (start + 1) ]

abbrev pub scan_start : Option ProcessId → ℕ
scan_start none = 0
scan_start (some pid) = pid + 1

unfoldable pub find_runnable_process : Kernel → Option ProcessId → Exec (Kernel × Option ℕ)
unfolding scan
find_runnable_process k last = scan process_count k (scan_start last)

module _ (handlers : Handlers) where
  -- Shared memory is mapped into the memory of a process: its heap, its page table and the address.
  unfoldable pub map_memory : Process → RawCapability → Exec (BuddyAllocator × PageTable × ℕ)
  map_memory p ring = do
    length ← handlers.shared_memory_size (local_index ring)
    layout ← page_layout length
    (heap, place) ← Allocator.alloc p.heap layout
    virt ← unwrap place
    table ← handlers.shared_memory_map (local_index ring) virt p.page_table
    done (heap, table, virt)

  -- What `resume_process` makes of the process, by its state; nothing if its buffer is too short for
  -- the reply.
  unfoldable pub resumed : Process → ProcessState → Exec (Option Process)
  resumed p runnable = done (some p)
  resumed p (ready_reply reply result_buffer) =
      if ltb result_buffer.len (length reply)
      then done none
      else done (some (record p { a0 = length reply; state = runnable }))
  resumed p (ready_stream_map ring declared_size) = do
    (heap, table, virt) ← map_memory p ring
    done (
        some (record p {
          heap = heap;
          page_table = table;
          a0 = virt;
          a1 = declared_size;
          state = runnable;
        }))
  resumed p _ = panic

  -- The end of a process that could not be resumed, with `kill_manual!`.
  unfoldable pub settle : Kernel → ℕ → Process → Option Process → Exec (Kernel × Bool)
  settle k i p (some q) = done (put k i q, true)
  settle k i p none = do
    killed ← current k p.id
    done (put k p.id (record killed { state = finished }), false)

  -- The process in slot `i`, which `schedule_userspace` has found, runs, or it is killed.
  unfoldable pub resume_process : Kernel → ℕ → Exec (Kernel × Bool)
  unfolding resumed settle
  resume_process k i = do p ← current k i; q ← resumed p p.state; settle k i p q

  -- The process that runs next, by its slot; without one the machine shuts down. `rounds` bounds the
  -- searches.
  unfoldable pub schedule_userspace : ℕ → Kernel → Option ProcessId → Exec (Kernel × Option ℕ)
  schedule_userspace zero k last = diverge
  schedule_userspace (suc rounds) k last = do
    (k1, found) ← find_runnable_process k last
    elim found [
      | none ↦ done (k1, none)
      | some i ↦ do
        p ← current k1 i
        (k2, running) ← resume_process k1 i
        elim running [ true ↦ done (k2, some i) | false ↦ schedule_userspace rounds k2 (some p.id) ]
    ]
