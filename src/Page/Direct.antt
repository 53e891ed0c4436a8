-- ===== src/Page/Direct.antt =====
-- kernel/src/page.rs: physical addresses and their places in the direct mapping.
use deravel_os.Prelude.{
  ℕ, ◌+◌, ◌-◌, ◌/◌, ◌%◌, ◌^◌, ◌≤◌, ◌<◌, ltb, leb, ◌==◌, if◌then◌else◌, ◌&&◌, Exec, done, panic,
  ◌>>◌, assert, ◌≡◌, arith,
}
use deravel_os.Memory.{virtual_end, physical_end, direct_mapping_start}

-- Bit 38 is copied to the bits above it. Where it is clear, the subtraction of 1 from 0 panics.
unfoldable pub sign_extend : ℕ → Exec ℕ
sign_extend addr =
    if addr / (virtual_end / 2) % 2 == 0
    then panic
    else done (2 ^ 64 - virtual_end + addr % virtual_end)

unfoldable pub sign_unextend : ℕ → ℕ
sign_unextend addr = addr % virtual_end

unfoldable pub phys_to_virt : ℕ → Exec ℕ
unfolding sign_extend
phys_to_virt phys = do assert (ltb phys physical_end); sign_extend (phys + direct_mapping_start)

unfoldable pub virt_to_phys : ℕ → Exec ℕ
unfolding sign_unextend
virt_to_phys virt = do
  assert (leb direct_mapping_start virt)
  assert (leb direct_mapping_start (sign_unextend virt) && ltb (sign_unextend virt) virtual_end)
  done (sign_unextend virt - direct_mapping_start)

-- Every physical address has a virtual one, in the upper half of the address space, and
-- virt_to_phys leads back from it.
pub virt_to_phys-phys_to_virt :
    (phys : ℕ)
    → phys < physical_end
    → (virt : ℕ) × (phys_to_virt phys ≡ done virt)
      × (2 ^ 64 - physical_end ≤ virt)
      × (virt < 2 ^ 64)
      × (virt_to_phys virt ≡ done phys)
unfolding phys_to_virt virt_to_phys
virt_to_phys-phys_to_virt phys h = (
  2 ^ 64 - virtual_end + (phys + direct_mapping_start),
  ground arith,
  omega arith,
  omega arith,
  ground arith,
)
