-- ===== src/Tests/Grants.antt =====
-- The theorems on handing out certificates, for kernel/src/capability.rs and
-- kernel-api/src/capability.rs.
use deravel_os.Prelude.{ℕ, suc, ◌≡◌, refl, ◌==◌, if◌then◌else◌, true, none, some, done, arith}
use deravel_os.Memory.{user_capabilities_start}
use deravel_os.Capability.{
  userspace, RawCapability, Certificates, empty, validate, local_index, is_ptr_valid,
}
use deravel_os.Kernel.Grants.{Tables, Program, grant_kernel_capability, get_handler, forward}
use deravel_os.Kernel.Grants.Accepted.{grant_kernel_capability-accepted, forward-accepted}

abbrev no_certificates : Certificates
no_certificates p i = empty

-- Handlers are numbers here.
abbrev fresh_tables : Tables ℕ
fresh_tables = record { certs = no_certificates; allocated_count = 0; handlers = λ i. none }

grant_kernel_capability-accepted_example :
    (t' : Tables ℕ) × (cap : RawCapability) × (grant_kernel_capability fresh_tables 3 77
      ≡ done (t', cap))
    × ((f pid : ℕ) → validate (suc f) t'.certs cap pid ≡ done (if 3 == pid then some cap else none))
    × (get_handler t' (local_index cap) ≡ done 77)
grant_kernel_capability-accepted_example =
    grant_kernel_capability-accepted fresh_tables 3 77 (omega arith) (omega arith) (omega arith)

abbrev program : Program
program = record { pid = 2; capabilities_allocated = 1; certs = no_certificates }

kernel_valid : is_ptr_valid user_capabilities_start ≡ true
unfolding is_ptr_valid
kernel_valid = refl

forward-accepted_example :
    (g' : Program) × (cap : RawCapability) × (forward program user_capabilities_start (userspace 3)
      ≡ done (g', cap))
    × ((f pid : ℕ)
        → validate (suc f) g'.certs cap pid
          ≡ (if 3 == pid then validate f g'.certs user_capabilities_start 2 else done none))
forward-accepted_example =
    forward-accepted program user_capabilities_start 3 (omega arith) (omega arith) (omega arith)
      (omega arith) (omega arith) kernel_valid
