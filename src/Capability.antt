-- ===== src/Capability.antt =====
-- types/src/actor.rs, types/src/process_id.rs, types/src/capability/{raw,certificate,pages}.rs:
-- capabilities are addresses of certificates, and certificates name a recipient.
pub mod Encoding
pub mod Validate
pub mod Hostile
use deravel_os.Prelude.{
  ℕ, zero, suc, ◌+◌, ◌-◌, ◌*◌, ◌/◌, ◌%◌, ◌^◌, ltb, leb, ◌==◌, if◌then◌else◌, ◌&&◌, Bool, true,
  false, Option, none, some, Exec, done, panic, diverge, ◌>>=◌, ◌>>◌, assert, unwrap, sub_usize,
}
use deravel_os.Memory.{page_size, user_capabilities_start, user_capabilities_end, max_processes}

-- A `ProcessId` is a number from 1 to `max_processes`; `new` panics on others.
abbrev pub ProcessId : Type 0
ProcessId = ℕ

unfoldable pub process_id : ℕ → Exec ProcessId
process_id id = do assert (leb id max_processes); assert (ltb 0 id); done id

pub data Actor : Type 0 where
  kernel : Actor
  userspace : ProcessId → Actor

unfoldable pub actor_eq : Actor → Actor → Bool
actor_eq kernel kernel = true
actor_eq kernel (userspace q) = false
actor_eq (userspace p) kernel = false
actor_eq (userspace p) (userspace q) = p == q

-- A `RawCapability` is the address of a certificate.
abbrev pub RawCapability : Type 0
RawCapability = ℕ

abbrev pub capabilities_per_page : ℕ
capabilities_per_page = page_size / 8

-- `get_capability_certificate_page`: the page of an actor.
unfoldable pub page_of : Actor → ℕ
page_of kernel = 0
page_of (userspace pid) = pid

unfoldable pub new : Actor → ℕ → Exec RawCapability
unfolding page_of
new certifier local_index = do
  assert (ltb local_index capabilities_per_page)
  done (user_capabilities_start + page_of certifier * page_size + local_index * 8)

unfoldable pub certifier : RawCapability → Exec Actor
unfolding process_id
certifier cap = do
  offset ← sub_usize cap user_capabilities_start
  if offset / page_size == 0
      then done kernel
      else do pid ← process_id (offset / page_size % 2 ^ 16); done (userspace pid)

unfoldable pub local_index : RawCapability → ℕ
local_index cap = cap % page_size / 8

unfoldable pub is_ptr_valid : ℕ → Bool
is_ptr_valid ptr = leb user_capabilities_start ptr && ltb ptr user_capabilities_end && ptr % 8 == 0

-- `TryFrom<*const CapabilityCertificate>`.
unfoldable pub try_from : ℕ → Option RawCapability
unfolding is_ptr_valid
try_from ptr = if is_ptr_valid ptr then some ptr else none

pub record CertificateValue : Type 0 where
  pub grantee : ℕ
  pub payload : ℕ

pub data Unpacked : Type 0 where
  granted_to : Actor → Unpacked
  forwarded_to : Actor → RawCapability → Unpacked

unfoldable pub empty : CertificateValue
empty = record { grantee = 2 ^ 32 - 1; payload = 0 }

unfoldable pub granted : Actor → CertificateValue
unfolding page_of
granted grantee = record { grantee = page_of grantee; payload = 0 }

-- `as u32` keeps the low bits of the address.
unfoldable pub forwarded : Actor → RawCapability → CertificateValue
unfolding page_of
forwarded forwardee cap = record { grantee = page_of forwardee; payload = cap % 2 ^ 32 }

recipient : ℕ → Exec Actor
unfolding process_id
recipient grantee =
    if grantee == 0
    then done kernel
    else do pid ← process_id (grantee % 2 ^ 16); done (userspace pid)

unfoldable pub unpack : CertificateValue → Exec Unpacked
unfolding recipient try_from
unpack v = do
  to ← recipient v.grantee
  if v.payload == 0
      then done (granted_to to)
      else do inner ← unwrap (try_from v.payload); done (forwarded_to to inner)

replace_in : Actor → Unpacked → CertificateValue
unfolding granted forwarded
replace_in to (granted_to _) = granted to
replace_in to (forwarded_to _ inner) = forwarded to inner

unfoldable pub replace_recipient : CertificateValue → Actor → Exec CertificateValue
unfolding unpack replace_in
replace_recipient v to = do u ← unpack v; done (replace_in to u)

-- The certificates that are in memory, by page and index.
abbrev pub Certificates : Type 0
Certificates = ℕ → ℕ → CertificateValue

-- One round of the loop of `validate`: an answer, or the next capability and claimer. The answer
-- `none` is the `CapabilityError`, which holds what was claimed.
pub data Verdict : Type 0 where
  answer : Option RawCapability → Verdict
  next : RawCapability → Actor → Verdict

unfoldable pub judge : Unpacked → RawCapability → Actor → Actor → Verdict
unfolding actor_eq
judge (granted_to grantee) cap certifier claimer =
    if actor_eq grantee claimer then answer (some cap) else answer none
judge (forwarded_to forwardee inner) cap certifier claimer =
    if actor_eq forwardee claimer then next inner certifier else answer none

unfoldable pub validate_step : Certificates → RawCapability → Actor → Exec Verdict
unfolding certifier local_index unpack judge page_of
validate_step certs cap claimer = do
  by ← certifier cap
  u ← unpack (certs (page_of by) (local_index cap))
  done (judge u cap by claimer)

unfoldable pub continue :
    (RawCapability → Actor → Exec (Option RawCapability)) → Verdict → Exec (Option RawCapability)
continue rec (answer a) = done a
continue rec (next cap claimer) = rec cap claimer

-- The source loops without a bound; the fuel bounds the rounds.
unfoldable pub validate_loop :
    ℕ → Certificates → RawCapability → Actor → Exec (Option RawCapability)
unfolding continue
validate_loop zero certs cap claimer = diverge
validate_loop (suc f) certs cap claimer = do
  v ← validate_step certs cap claimer
  continue (validate_loop f certs) v

unfoldable pub validate : ℕ → Certificates → RawCapability → ProcessId → Exec (Option RawCapability)
validate fuel certs cap claimer = validate_loop fuel certs cap (userspace claimer)
