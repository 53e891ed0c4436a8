-- ===== src/Kernel/Run.antt =====
-- Runs of the kernel: what happens to the table of processes from the start of kernel/src/main.rs on.
pub mod Reached
use deravel_os.Prelude.{ℕ, ◌≡◌, List, Option, none, Bool, Exec, done}
use deravel_os.Capability.{ProcessId, RawCapability, Certificates}
use deravel_os.Kernel.Process.{
  Kernel, Process, finished, UserSlice, put, current, reserve_process, create_process,
}
use deravel_os.Heap.Allocator.{BuddyAllocator}
use deravel_os.Page.Table.{PageTable}
use deravel_os.Kernel.Ipc.{Handlers, Action, exit, ipc_call, ipc_receive, ipc_reply}
use deravel_os.Kernel.Ipc.Streams.{ipc_stream}
use deravel_os.Kernel.Schedule.{find_runnable_process, resume_process}

-- The objects of the kernel, the decoder of replies, and the rounds allowed for a validation.
pub record Surroundings : Type 0 where
  pub handlers : Handlers
  pub from_bytes : List ℕ → Option (ℕ × Option ℕ)
  pub fuel : ℕ

-- No process is there yet.
abbrev pub boot : Certificates → Kernel
boot certs = record { processes = λ _. none; reserved = 0; certs = certs }

-- What objects of the kernel do to the processes in a method call: spawners set up processes, and
-- certificates are written; drivers leave the processes alone.
pub data Spawns (k : Kernel) : Kernel → Type 0 where
  nothing : Spawns k k
  reserving :
      {k1 k2 : Kernel} (pid : ProcessId)
      → Spawns k k1
      → reserve_process k1 ≡ done (k2, pid)
      → Spawns k k2
  creating :
      {k1 k2 : Kernel} (pid : ProcessId) (heap : BuddyAllocator) (page_table : PageTable)
      → Spawns k k1
      → create_process k1 pid heap page_table ≡ done k2
      → Spawns k k2
  writing :
      {k1 k2 : Kernel} (certs : Certificates)
      → Spawns k k1
      → k2 ≡ record k1 { certs = certs }
      → Spawns k k2

module _ (around : Surroundings) where
  -- What can happen to a kernel: a process is set up, it makes a system call with any arguments, the
  -- scheduler searches and resumes, certificates are written, and a process is killed. The system
  -- calls for memory (alloc, alloc_shared, map_shared, free) are `remaps`: any change of the memory
  -- of the caller, next to `writes` and `kills`; log does nothing to the table.
  pub data Transition (k k' : Kernel) : Type 0 where
    reserves : (pid : ProcessId) → reserve_process k ≡ done (k', pid) → Transition k k'
    creates :
        (pid : ProcessId) (heap : BuddyAllocator) (page_table : PageTable)
        → create_process k pid heap page_table ≡ done k'
        → Transition k k'
    kills :
        (pid : ProcessId) (p : Process)
        → current k pid ≡ done p
        → k' ≡ put k pid (record p { state = finished })
        → Transition k k'
    remaps :
        (pid : ProcessId) (p : Process) (heap : BuddyAllocator) (page_table : PageTable)
        → current k pid ≡ done p
        → k' ≡ put k pid (record p { heap = heap; page_table = page_table })
        → Transition k k'
    writes : (certs : Certificates) → k' ≡ record k { certs = certs } → Transition k k'
    exits : (pid : ProcessId) (act : Action) → exit k pid ≡ done (k', act) → Transition k k'
    calls :
        (pid : ProcessId) (cap : RawCapability) (method : ℕ) (args : List ℕ) (buffer : UserSlice)
        (act : Action)
        → ipc_call around.handlers around.fuel k pid cap method args buffer ≡ done (k', act)
        → Transition k k'
    receives :
        (pid : ProcessId) (room : ℕ) (act : Action)
        → ipc_receive k pid room ≡ done (k', act)
        → Transition k k'
    replies :
        (pid : ProcessId) (result : List ℕ) (act : Action)
        → ipc_reply around.handlers around.from_bytes around.fuel k pid result ≡ done (k', act)
        → Transition k k'
    streams :
        (pid : ProcessId) (cap : RawCapability) (stream : ℕ) (act : Action)
        → ipc_stream around.handlers around.fuel k pid cap stream ≡ done (k', act)
        → Transition k k'
    searches :
        (last : Option ProcessId) (found : Option ℕ)
        → find_runnable_process k last ≡ done (k', found)
        → Transition k k'
    resumes :
        (i : ℕ) (running : Bool)
        → resume_process around.handlers k i ≡ done (k', running)
        → Transition k k'

  pub data Reachable (k : Kernel) : Kernel → Type 0 where
    here : Reachable k k
    next : {k1 k2 : Kernel} → Reachable k k1 → Transition k1 k2 → Reachable k k2
