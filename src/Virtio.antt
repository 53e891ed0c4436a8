-- ===== src/Virtio.antt =====
-- The queues of kernel/src/virtio/queue.rs, without the registers that tell a device of them. The
-- physical address of what a descriptor stands for is an argument.
pub mod Input
use deravel_os.Prelude.{
  ℕ, ◌+◌, ◌-◌, ◌%◌, ◌^◌, ltb, leb, if◌then◌else◌, List, length, get_elem?, set, Option, none, some,
  Exec, done, panic, ◌>>=◌, ◌>>◌, assert, replicate,
}

-- `u16` arithmetic of a debug build.
abbrev pub add_u16 : ℕ → ℕ → Exec ℕ
add_u16 a b = if ltb (a + b) (2 ^ 16) then done (a + b) else panic

abbrev pub sub_u16 : ℕ → ℕ → Exec ℕ
sub_u16 a b = if leb b a then done (a - b) else panic

pub record Descriptor : Type 0 where
  pub address : ℕ
  pub length : ℕ
  pub flags : ℕ
  pub next : ℕ

pub record AvailableRing : Type 0 where
  pub index : ℕ
  pub ring : List ℕ

-- The device writes the used ring.
pub record UsedElement : Type 0 where
  pub id : ℕ
  pub len : ℕ

pub record UsedRing : Type 0 where
  pub index : ℕ
  pub ring : List UsedElement

pub record Queue : Type 0 where
  pub descriptors : List Descriptor
  pub available : AvailableRing
  pub used : UsedRing

abbrev pub virtq_desc_f_next : ℕ
virtq_desc_f_next = 1

abbrev pub virtq_desc_f_write : ℕ
virtq_desc_f_write = 2

abbrev pub new_queue : ℕ → Queue
new_queue size = record {
  descriptors = replicate size (record { address = 0; length = 0; flags = 0; next = 0 });
  available = record { index = 0; ring = replicate size 0 };
  used = record { index = 0; ring = replicate size (record { id = 0; len = 0 }) };
}

chained : ℕ → ℕ → ℕ → Option ℕ → Descriptor
chained phys size flags none = record { address = phys; length = size; flags = flags; next = 0 }
chained phys size flags (some next) = record {
  address = phys;
  length = size;
  flags = flags + virtq_desc_f_next;
  next = next;
}

put_descriptor : Queue → ℕ → Descriptor → Exec Queue
put_descriptor q index d = do
  assert (ltb index (length q.descriptors))
  done (record q { descriptors = set q.descriptors index d })

unfoldable pub descriptor_readonly : Queue → ℕ → ℕ → ℕ → Option ℕ → Exec Queue
unfolding chained put_descriptor
descriptor_readonly q index phys size next = put_descriptor q index (chained phys size 0 next)

unfoldable pub descriptor_writeonly : Queue → ℕ → ℕ → ℕ → Option ℕ → Exec Queue
unfolding chained put_descriptor
descriptor_writeonly q index phys size next =
    put_descriptor q index (chained phys size virtq_desc_f_write next)

-- `available.ring[at] = descriptor`
unfoldable pub set_available : Queue → ℕ → ℕ → Exec Queue
set_available q at descriptor = do
  assert (ltb at (length q.available.ring))
  done (record q { available = record q.available { ring = set q.available.ring at descriptor } })

-- `send_and_recv` up to the notification of the device; a remainder by 0 panics.
unfoldable pub submit : Queue → ℕ → Exec Queue
unfolding set_available
submit q descriptor = do
  assert (ltb 0 (length q.descriptors))
  q' ← set_available q (q.available.index % length q.descriptors) descriptor
  index ← add_u16 q'.available.index 1
  done (record q' { available = record q'.available { index = index } })
