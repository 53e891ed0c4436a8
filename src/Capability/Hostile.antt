-- ===== src/Capability/Hostile.antt =====
-- What a process can make `RawCapability::validate` of types/src/capability/raw.rs do: it writes
-- its own certificates, and it chooses the address that it claims.
use deravel_os.Prelude.{
  ℕ, zero, suc, ◌+◌, ◌*◌, ◌≤◌, ◌<◌, ◌≡◌, refl, ◌∙◌, true, done, panic, diverge, done-injective, sym,
  arith,
}
use deravel_os.Memory.{page_size, user_capabilities_start, max_processes}
use deravel_os.Capability.{
  Actor, userspace, certifier, local_index, is_ptr_valid, unpack, forwarded_to, forwarded,
  Certificates, validate_step, validate_loop, validate, capabilities_per_page, RawCapability, new,
  page_of,
}
use deravel_os.Capability.Encoding.{certifier-new, unpack-forwarded}
use deravel_os.Capability.Validate.{Says, step_of_Says, judge_forwarded}

cycle :
    (certs : Certificates) (cap : RawCapability) (a : Actor)
    → Says certs cap a (forwarded_to a cap)
    → (f : ℕ) → validate_loop f certs cap a ≡ diverge
unfolding validate_loop
cycle certs cap a s zero = refl
cycle certs cap a s (suc f) =
    rw (step_of_Says certs cap a a (forwarded_to a cap) s, judge_forwarded) (cycle certs cap a s f)

says_self :
    (certs : Certificates) (p i cap : ℕ)
    → local_index cap ≡ i
    → certs p i ≡ forwarded (userspace p) cap
    → unpack (forwarded (userspace p) cap) ≡ done (forwarded_to (userspace p) cap)
    → unpack (certs (page_of (userspace p)) (local_index cap))
      ≡ done (forwarded_to (userspace p) cap)
unfolding page_of
says_self certs p i cap at w u = rw (at, w) u

-- A certificate that a process forwards to itself, naming itself, keeps the loop of validate going
-- for every number of rounds.
pub validate-self_forwarded :
    (certs : Certificates) (p i f cap : ℕ)
    → 0 < p
    → p ≤ max_processes
    → i < capabilities_per_page
    → new (userspace p) i ≡ done cap
    → certs p i ≡ forwarded (userspace p) cap
    → validate f certs cap p ≡ diverge
unfolding validate
validate-self_forwarded certs p i f cap lo hi b e w =
    let (c, e', v, by, at) = certifier-new (userspace p) i (lo, hi) b in
    let q : c ≡ cap = done-injective (sym e' ∙ e) in
    cycle certs cap (userspace p)
      (
        rw q at by,
        says_self certs p i cap (rw q at at) w
            (unpack-forwarded (userspace p) cap (lo, hi) (rw q at v)),
      )
      f

certifier_panics :
    (cap : RawCapability)
    → is_ptr_valid cap ≡ true
    → user_capabilities_start + (max_processes + 1) * page_size ≤ cap
    → certifier cap ≡ panic
unfolding certifier is_ptr_valid
certifier_panics cap v h = ground arith

-- An address that passes the check on system call arguments but lies beyond the pages of the
-- processes makes validate panic.
pub validate_panics :
    (certs : Certificates) (cap : RawCapability) (pid f : ℕ)
    → is_ptr_valid cap ≡ true
    → user_capabilities_start + (max_processes + 1) * page_size ≤ cap
    → validate (suc f) certs cap pid ≡ panic
unfolding validate validate_loop validate_step
validate_panics certs cap pid f v h = rw (certifier_panics cap v h) refl
