-- ===== src/Tests/Capability.antt =====
-- The theorems on capabilities of types/src/capability, at the certificates of two processes.
use deravel_os.Prelude.{ℕ, ◌+◌, ◌*◌, ◌<◌, ◌≡◌, refl, ◌↔◌, true, done, panic, diverge, some, arith}
use deravel_os.Memory.{user_capabilities_start, page_size}
use deravel_os.Capability.{
  userspace, new, certifier, local_index, is_ptr_valid, Certificates, forwarded, unpack,
  forwarded_to, granted, validate,
}
use deravel_os.Capability.Encoding.{certifier-new, unpack-forwarded}
use deravel_os.Capability.Validate.{Chain, validate_iff}
use deravel_os.Capability.Hostile.{validate-self_forwarded, validate_panics}

-- Process 1's first certificate.
abbrev first_of_1 : ℕ
first_of_1 = user_capabilities_start + page_size

-- Every certificate grants to process 2.
abbrev all_granted : Certificates
all_granted p i = granted (userspace 2)

abbrev self_forwarded : Certificates
self_forwarded p i = forwarded (userspace 1) first_of_1

certifier-new_example :
    (cap : ℕ) × (new (userspace 3) 5 ≡ done cap)
    × (is_ptr_valid cap ≡ true)
    × (certifier cap ≡ done (userspace 3))
    × (local_index cap ≡ 5)
certifier-new_example = certifier-new (userspace 3) 5 (omega arith, omega arith) (omega arith)

first_valid : is_ptr_valid first_of_1 ≡ true
unfolding is_ptr_valid
first_valid = refl

unpack-forwarded_example :
    unpack (forwarded (userspace 2) first_of_1) ≡ done (forwarded_to (userspace 2) first_of_1)
unpack-forwarded_example =
    unpack-forwarded (userspace 2) first_of_1 (omega arith, omega arith) first_valid

validate_iff_example :
    (validate 3 all_granted first_of_1 2 ≡ done (some first_of_1))
    ↔ ((n : ℕ) × (n < 3) × Chain all_granted n first_of_1 (userspace 2) first_of_1)
validate_iff_example = validate_iff all_granted 3 first_of_1 2 first_of_1

first_new : new (userspace 1) 0 ≡ done first_of_1
unfolding new
first_new = refl

validate-self_forwarded_example : validate 100 self_forwarded first_of_1 1 ≡ diverge
validate-self_forwarded_example =
    validate-self_forwarded self_forwarded 1 0 100 first_of_1 (omega arith) (omega arith)
      (omega arith) first_new refl

abbrev far_capability : ℕ
far_capability = user_capabilities_start + 16 * page_size

far_valid : is_ptr_valid far_capability ≡ true
unfolding is_ptr_valid
far_valid = refl

validate_panics_example : validate 1 all_granted far_capability 1 ≡ panic
validate_panics_example = validate_panics all_granted far_capability 1 0 far_valid (omega arith)
