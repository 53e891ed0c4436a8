-- ===== src/Kernel/Process.antt =====
-- `Process`, `ProcessState`, `Message` and the table of processes of kernel/src/process.rs, as far
-- as calls and scheduling use them.
pub mod Slots
use deravel_os.Prelude.{
  ℕ, ◌+◌, ltb, ◌==◌, if◌then◌else◌, List, [], Option, none, some, Exec, done, panic, ◌>>=◌, ◌>>◌,
  assert, unwrap,
}
use deravel_os.Heap.Allocator.{BuddyAllocator}
use deravel_os.Page.Table.{PageTable}
use deravel_os.Capability.{ProcessId, Actor, RawCapability, Certificates, process_id}

-- A `UserPtr<[u8]>`.
pub record UserSlice : Type 0 where
  pub address : ℕ
  pub len : ℕ

pub data ProcessState : Type 0 where
  runnable : ProcessState
  finished : ProcessState
  waiting_for_reply : Actor → UserSlice → ProcessState
  waiting_for_stream_map : Actor → ProcessState
  ready_reply : List ℕ → UserSlice → ProcessState
  ready_stream_map : RawCapability → ℕ → ProcessState

pub record Message : Type 0 where
  pub cap : RawCapability
  pub method : ℕ
  pub args : List ℕ
  pub sender : ProcessId

-- `a0` and `a1` are the registers that a resumed call returns in.
pub record Process : Type 0 where
  pub id : ProcessId
  pub state : ProcessState
  pub messages : List Message
  pub currently_serving : Option ProcessId
  pub a0 : ℕ
  pub a1 : ℕ
  pub heap : BuddyAllocator
  pub page_table : PageTable

abbrev pub process_count : ℕ
process_count = 8

-- `PROCESSES` by slot, `PROCESSES_RESERVED`, and the certificates in memory.
pub record Kernel : Type 0 where
  pub processes : ℕ → Option Process
  pub reserved : ℕ
  pub certs : Certificates

abbrev pub update : (ℕ → Option Process) → ℕ → Option Process → ℕ → Option Process
update f i v j = if j == i then v else f j

abbrev pub put : Kernel → ℕ → Process → Kernel
put k i p = record k { processes = update k.processes i (some p) }

-- `get_process(pid).lock_if_some()`: the slot of a process id.
unfoldable pub get_process : Kernel → ProcessId → Exec (Option Process)
get_process k pid = do assert (ltb pid process_count); done (k.processes pid)

-- The same while the slot `held` is locked: locking it again panics.
unfoldable pub get_process_beside : Kernel → ProcessId → ProcessId → Exec (Option Process)
unfolding get_process
get_process_beside k held pid = do
  assert (ltb pid process_count)
  if pid == held then panic else done (k.processes pid)

-- `UserStoredCtx::process`.
unfoldable pub current : Kernel → ProcessId → Exec Process
unfolding get_process
current k pid = do p ← get_process k pid; unwrap p

-- `reserve_process` numbers processes from 1.
unfoldable pub reserve_process : Kernel → Exec (Kernel × ProcessId)
unfolding process_id
reserve_process k = do
  pid ← process_id (k.reserved + 1)
  done (record k { reserved = k.reserved + 1 }, pid)

-- What `create_process` puts into the slot. The heap, and the page table with the program and its
-- inputs, are arguments; the other registers are left out.
unfoldable pub create_process : Kernel → ProcessId → BuddyAllocator → PageTable → Exec Kernel
create_process k pid heap page_table = do
  let p : Process = record {
    id = pid;
    state = runnable;
    messages = [];
    currently_serving = none;
    a0 = 0;
    a1 = 0;
    heap = heap;
    page_table = page_table;
  }
  assert (ltb pid process_count)
  done (put k pid p)
