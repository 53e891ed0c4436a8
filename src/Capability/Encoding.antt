-- ===== src/Capability/Encoding.antt =====
-- The words of certificates and the addresses of capabilities.
use deravel_os.Prelude.{ℕ, ◌+◌, ◌*◌, ◌≤◌, ◌<◌, ◌≡◌, refl, true, done, arith}
use deravel_os.Memory.{page_size, user_capabilities_start, max_processes}
use deravel_os.Capability.{
  Actor, kernel, userspace, new, certifier, local_index, capabilities_per_page, is_ptr_valid,
  granted, forwarded, unpack, granted_to, forwarded_to,
}

-- The actors that there are.
abbrev pub IsActor : Actor → Type 0
IsActor kernel = Unit
IsActor (userspace p) = (0 < p) × (p ≤ max_processes)

-- The address of a certificate that new computes is valid and tells the certifier and the index.
pub certifier-new :
    (a : Actor) (i : ℕ)
    → IsActor a
    → i < capabilities_per_page
    → (cap : ℕ) × (new a i ≡ done cap)
      × (is_ptr_valid cap ≡ true)
      × (certifier cap ≡ done a)
      × (local_index cap ≡ i)
unfolding new certifier local_index is_ptr_valid
certifier-new kernel i v h =
    (user_capabilities_start + i * 8, ground arith, ground arith, ground arith, omega arith)
certifier-new (userspace p) i v h = (
  user_capabilities_start + p * page_size + i * 8,
  ground arith,
  ground arith,
  ground arith,
  omega arith,
)

-- A granted certificate is read back.
pub unpack-granted : (a : Actor) → IsActor a → unpack (granted a) ≡ done (granted_to a)
unfolding unpack granted
unpack-granted kernel v = refl
unpack-granted (userspace p) v = ground arith

-- A certificate that forwards a valid capability to an actor is read back as that, although it
-- keeps only 32 bits of the address.
pub unpack-forwarded :
    (a : Actor) (cap : ℕ)
    → IsActor a
    → is_ptr_valid cap ≡ true
    → unpack (forwarded a cap) ≡ done (forwarded_to a cap)
unfolding unpack forwarded is_ptr_valid
unpack-forwarded kernel cap v h = ground arith
unpack-forwarded (userspace p) cap v h = ground arith
