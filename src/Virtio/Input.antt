-- ===== src/Virtio/Input.antt =====
-- kernel/src/virtio/input.rs: the buffers that a device fills with events, and their way into the
-- ring. The device writes the buffers and the used ring.
pub mod Handled
use deravel_os.Prelude.{
  ℕ, zero, suc, ◌+◌, ◌-◌, ◌%◌, List, get_elem?, none, Exec, done, ◌>>=◌, unwrap,
}
use deravel_os.Input.{InputEvent}
use deravel_os.RingBuffer.{RingBuffer, push}
use deravel_os.Virtio.{Queue, AvailableRing, add_u16, sub_u16, descriptor_writeonly, set_available}

-- The size of an `InputEvent`.
abbrev pub event_size : ℕ
event_size = 8

abbrev pub queue_size : ℕ
queue_size = 64

pub record VirtioInput : Type 0 where
  pub ring : RingBuffer InputEvent
  pub eventq : Queue
  pub buffers : List InputEvent

-- Buffer `i` and those after it, `n` of them, are given to the device; `phys` are their addresses.
unfoldable pub arm_from : (ℕ → ℕ) → ℕ → ℕ → Queue → Exec Queue
unfolding descriptor_writeonly set_available
arm_from phys i zero q = done q
arm_from phys i (suc n) q = do
  described ← descriptor_writeonly q i (phys i) event_size none
  offered ← set_available described i i
  arm_from phys (i + 1) n offered

unfoldable pub arm : (ℕ → ℕ) → Queue → Exec Queue
unfolding arm_from
arm phys q = do
  q' ← arm_from phys 0 queue_size q
  done (record q' { available = record q'.available { index = queue_size } })

-- The events of `count` used indexes from `at` on are pushed.
unfoldable pub push_used :
    List InputEvent → ℕ → ℕ → RingBuffer InputEvent → Exec (RingBuffer InputEvent)
unfolding push
push_used buffers at zero ring = done ring
push_used buffers at (suc count) ring = do
  event ← unwrap (get_elem? buffers (at % queue_size))
  ring' ← push ring event
  push_used buffers (at + 1) count ring'

unfoldable pub handle : VirtioInput → Exec VirtioInput
unfolding push_used
handle v = do
  used_start ← sub_u16 v.eventq.available.index queue_size
  let used_end = v.eventq.used.index
  ring ← push_used v.buffers used_start (used_end - used_start) v.ring
  index ← add_u16 used_end queue_size
  done (record v {
    ring = ring;
    eventq = record v.eventq { available = record v.eventq.available { index = index } };
  })
