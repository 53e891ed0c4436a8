-- ===== src/Kernel/Grants/Accepted.antt =====
-- Who passes validation with a certificate that was handed out by kernel/src/capability.rs or
-- kernel-api/src/capability.rs.
use deravel_os.Prelude.{
  Bool-cases, inl, inr, ℕ, suc, ◌+◌, ◌≤◌, ◌<◌, ◌≡◌, refl, lt→ltb, eq→==, ◌==◌, if◌then◌else◌, none,
  some, true, done,
}
use deravel_os.Memory.{max_processes}
use deravel_os.Capability
use deravel_os.Capability.{
  CertificateValue, Actor, kernel, userspace, RawCapability, Certificates, granted, forwarded,
  granted_to, forwarded_to, certifier, local_index, page_of, is_ptr_valid, unpack, judge, continue,
  actor_eq, answer, next, validate_step, validate_loop, validate, capabilities_per_page,
}
use deravel_os.Capability.Encoding.{certifier-new, unpack-granted, unpack-forwarded}
use deravel_os.Capability.Validate.{Says, step_of_Says}
use deravel_os.Kernel.Grants.{
  Tables, Program, store_certificate, grant_kernel_capability, get_handler, forward,
}

store_certificate_self :
    (certs : Certificates) (p i : ℕ) (v : CertificateValue) → store_certificate certs p i v p i ≡ v
store_certificate_self certs p i v = rw (eq→== p p refl, eq→== i i refl) refl

module _ (certs : Certificates) (f : ℕ) (cap : RawCapability) (pid : ℕ) where
  granted-accepted :
      (by : Actor) (g : ℕ)
      → Says certs cap by (granted_to (userspace g))
      → validate (suc f) certs cap pid ≡ done (if g == pid then some cap else none)
  unfolding validate validate_loop judge actor_eq continue
  granted-accepted by g s =
      rw (step_of_Says certs cap (userspace pid) by (granted_to (userspace g)) s)
        (elim (Bool-cases (g == pid)) [ inl e ↦ rw e refl | inr e ↦ rw e refl ])

  forwarded-accepted :
      (p q : ℕ) (inner : RawCapability)
      → Says certs cap (userspace p) (forwarded_to (userspace q) inner)
      → validate (suc f) certs cap pid ≡ (if q == pid then validate f certs inner p else done none)
  unfolding validate validate_loop judge actor_eq continue
  forwarded-accepted p q inner s =
      rw (step_of_Says certs cap (userspace pid) (userspace p) (forwarded_to (userspace q) inner) s)
        (elim (Bool-cases (q == pid)) [ inl e ↦ rw e refl | inr e ↦ rw e refl ])

module _ {ℓ} {H : Type ℓ} where
  reserved : Tables H → H → Tables H
  reserved t handler = record t {
    allocated_count = t.allocated_count + 1;
    handlers = λ i. if i == t.allocated_count then some handler else t.handlers i;
  }

  granted_tables : Tables H → ℕ → H → Tables H
  granted_tables t grantee handler = record (reserved t handler) {
    certs = store_certificate t.certs 0 t.allocated_count (granted (userspace grantee));
  }

  grant_eq :
      (t : Tables H) (grantee : ℕ) (handler : H) (cap : RawCapability)
      → t.allocated_count < capabilities_per_page
      → Capability.new kernel t.allocated_count ≡ done cap
      → local_index cap ≡ t.allocated_count
      → grant_kernel_capability t grantee handler ≡ done (granted_tables t grantee handler, cap)
  unfolding grant_kernel_capability granted_tables reserved
  grant_eq t grantee handler cap h e at =
      rw (lt→ltb t.allocated_count capabilities_per_page h, e, at) refl

  get_handler-granted :
      (t : Tables H) (grantee : ℕ) (handler : H)
      → t.allocated_count < capabilities_per_page
      → get_handler (granted_tables t grantee handler) t.allocated_count ≡ done handler
  unfolding get_handler granted_tables reserved
  get_handler-granted t grantee handler h =
      rw
        (
          lt→ltb t.allocated_count capabilities_per_page h,
          eq→== t.allocated_count t.allocated_count refl,
        )
        refl

  granted_tables-Says :
      (t : Tables H) (grantee : ℕ) (handler : H) (cap : RawCapability)
      → (0 < grantee) × (grantee ≤ max_processes)
      → certifier cap ≡ done kernel
      → local_index cap ≡ t.allocated_count
      → Says (granted_tables t grantee handler).certs cap kernel (granted_to (userspace grantee))
  unfolding granted_tables page_of
  granted_tables-Says t grantee handler cap v by at = (
    by,
    rw (at, store_certificate_self t.certs 0 t.allocated_count (granted (userspace grantee)))
        (unpack-granted (userspace grantee) v),
  )

  -- While there is a free certificate, the kernel grants a capability to a process that exists:
  -- that process alone passes validation with it, and it leads to the handler it was granted for.
  pub grant_kernel_capability-accepted :
      (t : Tables H) (grantee : ℕ) (handler : H)
      → t.allocated_count < capabilities_per_page
      → 0 < grantee
      → grantee ≤ max_processes
      → (t' : Tables H) × (cap : RawCapability) × (grant_kernel_capability t grantee handler
          ≡ done (t', cap))
        × ((f pid : ℕ)
            → validate (suc f) t'.certs cap pid ≡ done (if grantee == pid then some cap else none))
        × (get_handler t' (local_index cap) ≡ done handler)
  grant_kernel_capability-accepted t grantee handler h lo hi =
      let (cap, e, v, by, at) = certifier-new kernel t.allocated_count tt h in
      (
        granted_tables t grantee handler,
        cap,
        grant_eq t grantee handler cap h e at,
        λ f pid.
            granted-accepted (granted_tables t grantee handler).certs f cap pid kernel grantee
              (granted_tables-Says t grantee handler cap (lo, hi) by at),
        rw at (get_handler-granted t grantee handler h),
      )

issued : Program → Actor → RawCapability → Program
issued g to inner = record g {
  capabilities_allocated = g.capabilities_allocated + 1;
  certs = store_certificate g.certs g.pid g.capabilities_allocated (forwarded to inner);
}

forward_eq :
    (g : Program) (to : Actor) (inner cap : RawCapability)
    → g.capabilities_allocated < capabilities_per_page
    → Capability.new (userspace g.pid) g.capabilities_allocated ≡ done cap
    → is_ptr_valid cap ≡ true
    → forward g inner to ≡ done (issued g to inner, cap)
unfolding forward issued page_of
forward_eq g to inner cap h e v =
    rw (lt→ltb g.capabilities_allocated capabilities_per_page h, e, v) refl

issued-Says :
    (g : Program) (to : Actor) (inner cap : RawCapability)
    → unpack (forwarded to inner) ≡ done (forwarded_to to inner)
    → certifier cap ≡ done (userspace g.pid)
    → local_index cap ≡ g.capabilities_allocated
    → Says (issued g to inner).certs cap (userspace g.pid) (forwarded_to to inner)
unfolding issued page_of
issued-Says g to inner cap u by at = (
  by,
  rw (at, store_certificate_self g.certs g.pid g.capabilities_allocated (forwarded to inner)) u,
)

-- While it has a free certificate, a program forwards a valid capability to another: with what it
-- makes, the one it is forwarded to, and no other, passes validation as the program itself passes
-- with the capability forwarded.
pub forward-accepted :
    (g : Program) (inner : RawCapability) (q : ℕ)
    → 0 < g.pid
    → g.pid ≤ max_processes
    → g.capabilities_allocated < capabilities_per_page
    → 0 < q
    → q ≤ max_processes
    → is_ptr_valid inner ≡ true
    → (g' : Program) × (cap : RawCapability) × (forward g inner (userspace q) ≡ done (g', cap))
      × ((f pid : ℕ)
          → validate (suc f) g'.certs cap pid
            ≡ (if q == pid then validate f g'.certs inner g.pid else done none))
forward-accepted g inner q lo hi h lo' hi' v' =
    let (cap, e, v, by, at) = certifier-new (userspace g.pid) g.capabilities_allocated (lo, hi) h in
    (
      issued g (userspace q) inner,
      cap,
      forward_eq g (userspace q) inner cap h e v,
      λ f pid. forwarded-accepted (issued g (userspace q) inner).certs f cap pid g.pid q inner (
          issued-Says g (userspace q) inner cap (unpack-forwarded (userspace q) inner (lo', hi') v')
            by at),
    )
