-- ===== src/Kernel/Grants/Issued.antt =====
-- The certificates of a program, of kernel-api/src/capability.rs: when there is a free one.
use deravel_os.Prelude.{ℕ, suc, ◌+◌, ◌≤◌, ◌<◌, ◌≡◌, refl, lt→ltb, done, arith}
use deravel_os.Memory.{max_processes}
use deravel_os.Capability.{
  CertificateValue, Actor, userspace, RawCapability, granted, forwarded, page_of,
  capabilities_per_page,
}
use deravel_os.Capability.Encoding.{certifier-new}
use deravel_os.Kernel.Grants.{Program, store_certificate, issue, grant_unhandled, forward}

-- A program with the id of a process and `n` free certificates.
pub record CanIssue (n : ℕ) (g : Program) : Type 0 where
  pub is_user : 0 < g.pid
  pub is_process : g.pid ≤ max_processes
  pub free : g.capabilities_allocated + n ≤ capabilities_per_page

issue-CanIssue :
    (n : ℕ) (g : Program) (v : CertificateValue)
    → CanIssue (suc n) g
    → (g' : Program) × (cap : RawCapability) × (issue g v ≡ done (g', cap)) × CanIssue n g'
unfolding issue
issue-CanIssue n g v c =
    let free : g.capabilities_allocated < capabilities_per_page = omega (arith, c.free) in
    let (cap, e, valid, by, at) =
      certifier-new (userspace g.pid) g.capabilities_allocated (c.is_user, c.is_process) free in
    (
      record g {
        capabilities_allocated = g.capabilities_allocated + 1;
        certs = store_certificate g.certs (page_of (userspace g.pid)) g.capabilities_allocated v;
      },
      cap,
      rw (lt→ltb g.capabilities_allocated capabilities_per_page free, e, valid) refl,
      record { is_user = c.is_user; is_process = c.is_process; free = omega (arith, c.free) },
    )

pub forward-CanIssue :
    (n : ℕ) (g : Program) (inner : RawCapability) (to : Actor)
    → CanIssue (suc n) g
    → (g' : Program) × (cap : RawCapability) × (forward g inner to ≡ done (g', cap)) × CanIssue n g'
unfolding forward
forward-CanIssue n g inner to c = issue-CanIssue n g (forwarded to inner) c

pub grant_unhandled-CanIssue :
    (n : ℕ) (g : Program) (to : Actor)
    → CanIssue (suc n) g
    → (g' : Program) × (cap : RawCapability) × (grant_unhandled g to ≡ done (g', cap))
      × CanIssue n g'
unfolding grant_unhandled
grant_unhandled-CanIssue n g to c = issue-CanIssue n g (granted to) c
