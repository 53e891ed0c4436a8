-- ===== src/Kernel/Grants.antt =====
-- kernel/src/capability.rs and kernel-api/src/capability.rs: how certificates are handed out.
pub mod Accepted
pub mod Issued
use deravel_os.Prelude.{
  ℕ, ◌+◌, ◌/◌, ltb, ◌==◌, ◌&&◌, if◌then◌else◌, Option, none, some, Exec, done, panic, ◌>>=◌, ◌>>◌,
  assert, unwrap,
}
use deravel_os.Capability
use deravel_os.Capability.{
  Actor, kernel, userspace, ProcessId, RawCapability, Certificates, CertificateValue, granted,
  forwarded, certifier, local_index, page_of, is_ptr_valid, capabilities_per_page,
}

abbrev pub store_certificate : Certificates → ℕ → ℕ → CertificateValue → Certificates
store_certificate certs page index v p i = if p == page && i == index then v else certs p i

-- `CAPABILITY_PAGES`, `ALLOCATED_COUNT` and `HANDLERS`.
pub record Tables {ℓ} (H : Type ℓ) : Type ℓ where
  pub certs : Certificates
  pub allocated_count : ℕ
  pub handlers : ℕ → Option H

module _ {ℓ} {H : Type ℓ} where
  unfoldable pub reserve_kernel_capability : Tables H → H → Exec (Tables H × RawCapability)
  reserve_kernel_capability t handler = do
    assert (ltb t.allocated_count capabilities_per_page)
    cap ← Capability.new kernel t.allocated_count
    done (
      record t {
        allocated_count = t.allocated_count + 1;
        handlers = λ i. if i == t.allocated_count then some handler else t.handlers i;
      },
      cap,
    )

  unfoldable pub grant_kernel_capability :
      Tables H → ProcessId → H → Exec (Tables H × RawCapability)
  unfolding reserve_kernel_capability
  grant_kernel_capability t grantee handler = do
    (t', cap) ← reserve_kernel_capability t handler
    done (
      record t' {
        certs = store_certificate t'.certs 0 (local_index cap) (granted (userspace grantee));
      },
      cap,
    )

  unfoldable pub get_handler : Tables H → ℕ → Exec H
  get_handler t index = do assert (ltb index capabilities_per_page); unwrap (t.handlers index)

  unfoldable pub capability_certificate : Tables H → RawCapability → Exec CertificateValue
  unfolding page_of
  capability_certificate t cap = do
    by ← certifier cap
    done (t.certs (page_of by) (local_index cap))

-- What a program has: its id, the count of its certificates, and the certificates in memory.
pub record Program : Type 0 where
  pub pid : ProcessId
  pub capabilities_allocated : ℕ
  pub certs : Certificates

-- `allocate_certificate`, and the store into it; `from_ref` makes the capability of its address.
unfoldable issue : Program → CertificateValue → Exec (Program × RawCapability)
unfolding page_of
issue g v = do
  assert (ltb g.capabilities_allocated capabilities_per_page)
  cap ← Capability.new (userspace g.pid) g.capabilities_allocated
  assert (is_ptr_valid cap)
  done (
    record g {
      capabilities_allocated = g.capabilities_allocated + 1;
      certs = store_certificate g.certs (page_of (userspace g.pid)) g.capabilities_allocated v;
    },
    cap,
  )

unfoldable pub grant_unhandled : Program → Actor → Exec (Program × RawCapability)
unfolding issue
grant_unhandled g grantee = issue g (granted grantee)

unfoldable pub forward : Program → RawCapability → Actor → Exec (Program × RawCapability)
unfolding issue
forward g cap forwardee = issue g (forwarded forwardee cap)
