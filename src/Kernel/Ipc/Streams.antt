-- ===== src/Kernel/Ipc/Streams.antt =====
-- `ipc_stream` of kernel/src/syscall.rs.
use deravel_os.Prelude.{
  ℕ, ◌≡◌, sym, ◌∙◌, [], Option, none, some, Exec, done, ◌>>=◌, >>=-eq-done, unwrap, add_usize,
}
use deravel_os.Memory.{page_size}
use deravel_os.Heap.Layout.{page_layout}
use deravel_os.Heap.Allocator
use deravel_os.Heap.Allocator.{BuddyAllocator}
use deravel_os.Page.Direct.{virt_to_phys}
use deravel_os.Page.Entry.{read_write, user}
use deravel_os.Page.Table
use deravel_os.Capability.{
  ProcessId, Actor, kernel, userspace, RawCapability, validate, certifier, local_index,
}
use deravel_os.Kernel.Process.{
  Kernel, Process, put, waiting_for_stream_map, get_process_beside, current,
}
use deravel_os.Kernel.Ipc.{Handlers, KernelStream, Action, yield_, mapped, kill, send}
use deravel_os.Kernel.Ipc.Sane.{
  send-IsSane, kill-IsSane, put-IsSane, current_inv, state_of, beside_inv, unwrap_inv,
}
use deravel_os.Kernel.Schedule.Scan.{IsSane}

module _ (handlers : Handlers) where
  -- A stream of the kernel is mapped into the memory of the process, which is killed if it has no
  -- room.
  map_kernel_stream : Kernel → ProcessId → Process → KernelStream → Exec (Kernel × Action)
  map_kernel_stream k pid p ring = do
    layout ← page_layout ring.size
    (heap, place) ← Allocator.alloc p.heap layout
    elim place [
      | none ↦ kill k pid (record p { heap = heap })
      | some virt ↦ do
        phys ← virt_to_phys ring.address
        table ← Table.map p.page_table virt phys page_size (user read_write)
        done (put k pid (record p { heap = heap; page_table = table }), mapped virt ring.len)
    ]

  stream_certified :
      Kernel → ProcessId → Process → RawCapability → ℕ → Actor → Exec (Kernel × Action)
  stream_certified k pid p cap stream (userspace original_pid) = do
    slot ← get_process_beside k pid original_pid
    dest ← unwrap slot
    method ← add_usize 1000 stream
    done (
      send k pid p (waiting_for_stream_map (userspace original_pid)) original_pid dest
          (record { cap = cap; method = method; args = []; sender = pid }),
      yield_,
    )
  stream_certified k pid p cap stream kernel = do
    ring ← handlers.map_stream (local_index cap) stream
    map_kernel_stream k pid p ring

  stream_valid : Kernel → ProcessId → Process → ℕ → Option RawCapability → Exec (Kernel × Action)
  unfolding stream_certified map_kernel_stream
  stream_valid k pid p stream none = kill k pid p
  stream_valid k pid p stream (some cap) = do
    by ← certifier cap
    stream_certified k pid p cap stream by

  unfoldable pub ipc_stream : ℕ → Kernel → ProcessId → RawCapability → ℕ → Exec (Kernel × Action)
  unfolding stream_valid
  ipc_stream fuel k pid cap stream = do
    p ← current k pid
    valid ← validate fuel k.certs cap p.id
    stream_valid k pid p stream valid

  module _ (k : Kernel) (pid : ℕ) (s : IsSane k) (k' : Kernel) (act : Action) (stream : ℕ)
      (p : Process) (at : k.processes pid ≡ some p) where
    placed-IsSane :
        (ring : KernelStream) (heap : BuddyAllocator) (place : Option ℕ)
        → elim place as (λ _. Exec (Kernel × Action)) [
          | none ↦ kill k pid (record p { heap = heap })
          | some virt ↦ virt_to_phys ring.address >>= (λ phys.
              Table.map p.page_table virt phys page_size (user read_write) >>= (λ table.
                done
                  (put k pid (record p { heap = heap; page_table = table }), mapped virt ring.len)))
        ]
          ≡ done (k', act)
        → IsSane k'
    placed-IsSane ring heap none h = state_of (kill-IsSane k pid (record p { heap = heap }) s) h
    placed-IsSane ring heap (some virt) h =
        let (phys, _, h1) = >>=-eq-done (virt_to_phys ring.address) _ h in
        let (table, _, h2) =
          >>=-eq-done (Table.map p.page_table virt phys page_size (user read_write)) _ h1 in
        state_of
          (put-IsSane k pid (record p { heap = heap; page_table = table }) s
            (λ from w. s pid from p at w))
          h2

    map_kernel_stream-IsSane :
        (ring : KernelStream) → map_kernel_stream k pid p ring ≡ done (k', act) → IsSane k'
    unfolding map_kernel_stream
    map_kernel_stream-IsSane ring h =
        let (layout, _, h1) = >>=-eq-done (page_layout ring.size) _ h in
        let ((heap, place), _, h2) = >>=-eq-done (Allocator.alloc p.heap layout) _ h1 in
        placed-IsSane ring heap place h2

    stream_certified-IsSane :
        (cap : RawCapability) (by : Actor)
        → stream_certified k pid p cap stream by ≡ done (k', act)
        → IsSane k'
    unfolding stream_certified
    stream_certified-IsSane cap (userspace b) h =
        let (slot, e, h1) = >>=-eq-done (get_process_beside k pid b) _ h in
        let (d, f, h2) = >>=-eq-done (unwrap slot) _ h1 in
        let (method, _, h3) = >>=-eq-done (add_usize 1000 stream) _ h2 in
        let (lt, ne, same) = beside_inv k pid b slot e in
        state_of
          (send-IsSane k pid p b d _ (waiting_for_stream_map (userspace b)) (λ from w. cc w) s lt ne
            (sym same ∙ unwrap_inv slot f))
          h3
    stream_certified-IsSane cap kernel h =
        let (ring, _, h1) = >>=-eq-done (handlers.map_stream (local_index cap) stream) _ h in
        map_kernel_stream-IsSane ring h1

    stream_valid-IsSane :
        (valid : Option RawCapability)
        → stream_valid k pid p stream valid ≡ done (k', act)
        → IsSane k'
    unfolding stream_valid
    stream_valid-IsSane none h = state_of (kill-IsSane k pid p s) h
    stream_valid-IsSane (some cap) h =
        let (by, _, h1) = >>=-eq-done (certifier cap) _ h in stream_certified-IsSane cap by h1

  pub ipc_stream-IsSane :
      (fuel : ℕ) (k : Kernel) (pid : ℕ) (cap : RawCapability) (stream : ℕ) (k' : Kernel)
      (act : Action)
      → IsSane k
      → ipc_stream fuel k pid cap stream ≡ done (k', act)
      → IsSane k'
  unfolding ipc_stream
  ipc_stream-IsSane fuel k pid cap stream k' act s h =
      let (p, e, h1) = >>=-eq-done (current k pid) _ h in
      let (valid, _, h2) = >>=-eq-done (validate fuel k.certs cap p.id) _ h1 in
      stream_valid-IsSane k pid s k' act stream p (current_inv k pid p e) valid h2
