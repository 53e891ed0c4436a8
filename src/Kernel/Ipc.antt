-- ===== src/Kernel/Ipc.antt =====
-- The calls between processes of kernel/src/syscall.rs.
pub mod Exchange
pub mod Sane
pub mod Replies
pub mod Streams
use deravel_os.Prelude.{
  ℕ, ◌*◌, ◌%◌, ltb, ◌==◌, if◌then◌else◌, List, [], ◌∷◌, ◌++◌, length, Option, none, some, Exec,
  done, panic, ◌>>=◌, unwrap, not, add_usize,
}
use deravel_os.Memory.{page_size, cache_line_size}
use deravel_os.Capability.{
  ProcessId, kernel, userspace, RawCapability, validate, certifier, local_index, actor_eq, try_from,
}
use deravel_os.Page.Table.{PageTable}
use deravel_os.Kernel.Process.{
  Kernel, Process, ProcessState, finished, waiting_for_reply, waiting_for_stream_map, ready_reply,
  ready_stream_map, Message, UserSlice, put, get_process_beside, current,
}

-- The ring of a stream of the kernel: where it lies, its size, and the length of its data.
pub record KernelStream : Type 0 where
  pub address : ℕ
  pub size : ℕ
  pub len : ℕ

-- The objects of the kernel that capabilities lead to, by local index; where there is none, a call
-- panics. `call_method` is what a method call answers and does to the processes. Drivers, spawners
-- and shared memory implement them.
pub record Handlers : Type 0 where
  pub call_method : Kernel → ℕ → ℕ → List ℕ → ProcessId → Exec (Kernel × List ℕ)
  pub map_stream : ℕ → ℕ → Exec KernelStream
  pub shared_memory_map : ℕ → ℕ → PageTable → Exec PageTable
  pub shared_memory_size : ℕ → Exec ℕ

-- How a system call ends for the caller: it yields to the scheduler, or it returns, with the
-- bytes that were written to its buffer.
pub data Action : Type 0 where
  yield_ : Action
  answered : List ℕ → Action
  no_message : Action
  received : Message → Action
  mapped : ℕ → ℕ → Action
  returned : Action

-- `kill!`
abbrev pub kill : Kernel → ProcessId → Process → Exec (Kernel × Action)
kill k pid p = done (put k pid (record p { state = finished }), yield_)

unfoldable pub exit : Kernel → ProcessId → Exec (Kernel × Action)
exit k pid = do p ← current k pid; done (put k pid (record p { state = finished }), yield_)

-- The part of `ipc_call` and `ipc_stream` that sends to another process: the caller waits, and the
-- message is the last one of the receiver.
abbrev pub send :
    Kernel → ProcessId → Process → ProcessState → ProcessId → Process → Message → Kernel
send k pid p waiting dest_pid dest m =
    put (put k pid (record p { state = waiting })) dest_pid
      (record dest { messages = dest.messages ++ (m ∷ []) })

module _ (handlers : Handlers) where
  call_kernel : Kernel → ProcessId → ℕ → ℕ → List ℕ → UserSlice → Exec (Kernel × Action)
  call_kernel k pid index method args result_buffer = do
    (k', result) ← handlers.call_method k index method args pid
    if ltb result_buffer.len (length result)
        then (do p ← current k' pid; kill k' pid p)
        else done (k', answered result)

  call_process :
      Kernel
      → ProcessId
      → Process
      → RawCapability
      → ProcessId
      → ℕ
      → List ℕ
      → UserSlice
      → Option Process
      → Exec (Kernel × Action)
  call_process k pid p cap dest_pid method args result_buffer none = kill k pid p
  call_process k pid p cap dest_pid method args result_buffer (some dest) = done (
    send k pid p (waiting_for_reply (userspace dest_pid) result_buffer) dest_pid dest
        (record { cap = cap; method = method; args = args; sender = pid }),
    yield_,
  )

  call_valid :
      Kernel
      → ProcessId
      → Process
      → ℕ
      → List ℕ
      → UserSlice
      → Option RawCapability
      → Exec (Kernel × Action)
  unfolding call_kernel call_process
  call_valid k pid p method args result_buffer none = kill k pid p
  call_valid k pid p method args result_buffer (some cap) = do
    by ← certifier cap
    elim by [
      | kernel ↦ call_kernel k pid (local_index cap) method args result_buffer
      | userspace dest_pid ↦ do
        dest ← get_process_beside k pid dest_pid
        call_process k pid p cap dest_pid method args result_buffer dest
    ]

  -- `fuel` bounds the certificates that `validate` follows.
  unfoldable pub ipc_call :
      ℕ → Kernel → ProcessId → RawCapability → ℕ → List ℕ → UserSlice → Exec (Kernel × Action)
  unfolding call_valid
  ipc_call fuel k pid cap method args result_buffer = do
    p ← current k pid
    valid ← validate fuel k.certs cap p.id
    call_valid k pid p method args result_buffer valid

receive : Kernel → ProcessId → Process → ℕ → List Message → Exec (Kernel × Action)
receive k pid p room [] = done (k, no_message)
receive k pid p room (m ∷ rest) =
    let popped = record p { messages = rest } in
    if ltb room (length m.args)
    then kill k pid popped
    else done (put k pid (record popped { currently_serving = some m.sender }), received m)

-- `room` is the length of the buffer for the arguments.
unfoldable pub ipc_receive : Kernel → ProcessId → ℕ → Exec (Kernel × Action)
unfolding receive
ipc_receive k pid room = do
  p ← current k pid
  elim p.currently_serving [ some _ ↦ kill k pid p | none ↦ receive k pid p room p.messages ]

-- `from_bytes` is what postcard reads from the bytes of a reply, a number and another one. Reading
-- the first as a `RawCapability` panics where the address is none of a certificate.
module _ (handlers : Handlers) (from_bytes : List ℕ → Option (ℕ × Option ℕ)) where
  -- The checks on a stream's memory, before the caller may map it.
  map_ring :
      Kernel
      → ProcessId
      → Process
      → ProcessId
      → Process
      → RawCapability
      → ℕ
      → Exec (Kernel × Action)
  map_ring k pid p caller_pid caller ring declared_size = do
    by ← certifier ring
    if not (actor_eq by kernel) then kill k pid p else do
      size ← handlers.shared_memory_size (local_index ring)
      if not (size % page_size == 0) then kill k pid p else do
        needed ← add_usize (2 * cache_line_size) declared_size
        if ltb size needed
            then kill k pid p
            else done (
              put (put k pid p) caller_pid
                  (record caller { state = ready_stream_map ring declared_size }),
              returned,
            )

  map_valid :
      Kernel
      → ProcessId
      → Process
      → ProcessId
      → Process
      → ℕ
      → Option RawCapability
      → Exec (Kernel × Action)
  unfolding map_ring
  map_valid k pid p caller_pid caller declared_size none = kill k pid p
  map_valid k pid p caller_pid caller declared_size (some ring) =
      map_ring k pid p caller_pid caller ring declared_size

  map_decoded :
      ℕ
      → Kernel
      → ProcessId
      → Process
      → ProcessId
      → Process
      → Option (ℕ × Option ℕ)
      → Exec (Kernel × Action)
  unfolding map_valid try_from
  map_decoded fuel k pid p caller_pid caller none = kill k pid p
  map_decoded fuel k pid p caller_pid caller (some (address, second)) = do
    stream ← unwrap (try_from address)
    elim second [
      | none ↦ kill k pid p
      | some declared_size ↦ do
        valid ← validate fuel k.certs stream caller.id
        map_valid k pid p caller_pid caller declared_size valid
    ]

  -- `p` is the replying process, which serves nobody any more; it is stored with the answer.
  reply_to :
      ℕ
      → Kernel
      → ProcessId
      → Process
      → ProcessId
      → Process
      → List ℕ
      → ProcessState
      → Exec (Kernel × Action)
  unfolding map_decoded
  reply_to fuel k pid p caller_pid caller result (waiting_for_reply from result_buffer) =
      if not (actor_eq from (userspace p.id))
      then kill k pid p
      else done (
        put (put k pid p) caller_pid (record caller { state = ready_reply result result_buffer }),
        returned,
      )
  reply_to fuel k pid p caller_pid caller result (waiting_for_stream_map from) =
      if not (actor_eq from (userspace p.id))
      then kill k pid p
      else map_decoded fuel k pid p caller_pid caller (from_bytes result)
  reply_to fuel k pid p caller_pid caller result _ = panic

  reply_served :
      ℕ → Kernel → ProcessId → Process → List ℕ → Option ProcessId → Exec (Kernel × Action)
  unfolding reply_to
  reply_served fuel k pid p result none = kill k pid p
  reply_served fuel k pid p result (some caller_pid) = do
    slot ← get_process_beside k pid caller_pid
    caller ← unwrap slot
    reply_to fuel k pid (record p { currently_serving = none }) caller_pid caller result
        caller.state

  unfoldable pub ipc_reply : ℕ → Kernel → ProcessId → List ℕ → Exec (Kernel × Action)
  unfolding reply_served
  ipc_reply fuel k pid result = do
    p ← current k pid
    reply_served fuel k pid p result p.currently_serving

unfoldable pub yield_call : Kernel → ProcessId → Exec (Kernel × Action)
yield_call k pid = done (k, yield_)
