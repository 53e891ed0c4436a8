-- ===== src/Page/Table/Steps.antt =====
-- The arithmetic of a level of `map_impl` of kernel/src/page/table.rs, and its loop over blocks.
use deravel_os.Prelude.{
  ℕ, zero, suc, ◌+◌, ◌*◌, ◌/◌, ◌%◌, ◌-◌, ◌≤◌, ◌<◌, ◌≡◌, ◌≢◌, ap, sym, ◌∙◌, Bool, true, false, not,
  ◌&&◌, ◌==◌, leb, Exec, inl, inr, lt_cases, subst, arith,
}
use native.Mathlib.Nat.{add-mul-mod_self_right, mul-le-mul_right, div-eq_of_lt-le}
use deravel_os.Page.Entry.{PageFlags}
use deravel_os.Page.Table.{PageTable, level_page_size, each}
use deravel_os.Page.Table.Translate.{IsValid}
use deravel_os.Page.Table.Mapping.{IsFree, Mapped, Mapped-seq, Mapped-empty}

pub count_blocks : (q r z : ℕ) → 0 < z → q ≤ r → (r * z - q * z + z - 1) / z ≡ r - q
count_blocks q r z pos le =
    let d : (q + (r - q)) * z ≡ q * z + (r - q) * z = grind arith in
    let r' : (q + (r - q)) * z ≡ r * z = ap (λ x. x * z) (omega arith) in
    let e : (r - q) * z ≡ r * z - q * z = omega (arith, d, r') in
    div-eq_of_lt-le z (omega (arith, e, pos))
      (let f : (r - q + 1) * z ≡ (r - q) * z + z = grind arith in omega (arith, e, f, pos))

-- All blocks of a step have the same offset in the physical memory.
pub same_offset :
    (p virt q j z : ℕ) → virt ≤ q * z → q ≤ j → (p + (j * z - virt)) % z ≡ (p + (q * z - virt)) % z
same_offset p virt q j z le qj =
    let d : (q + (j - q)) * z ≡ q * z + (j - q) * z = grind arith in
    let j' : (q + (j - q)) * z ≡ j * z = ap (λ x. x * z) (omega arith) in
    let e : p + (q * z - virt) + (j - q) * z ≡ p + (j * z - virt) = omega (arith, d, j') in
    sym (ap (λ x. x % z) e) ∙ add-mul-mod_self_right (p + (q * z - virt)) (j - q) z

module _ (level T : ℕ) (target : ℕ → ℕ × PageFlags) where
  -- The loop over the blocks from `k` on.
  pub each-Mapped :
      (body : ℕ → PageTable → Exec PageTable) (n k v e : ℕ) (t : PageTable)
      → let z = level_page_size level in
        v ≡ k * z
        → e ≡ (k + n) * z
        → T * (512 * z) ≤ v
        → e ≤ T * (512 * z) + 512 * z
        → IsValid level t
        → IsFree level t v e
        → ((j : ℕ) (u : PageTable)
            → k ≤ j
            → j < k + n
            → IsValid level u
            → IsFree level u (j * z) (j * z + z)
            → Mapped level T (j * z) (j * z + z) target u (body (j * z) u))
        → Mapped level T v e target t (each body z v n t)
  unfolding each
  each-Mapped body zero k v e t ve ee lo hi valid free step =
      let q : e ≡ v = grind arith in rw q (Mapped-empty level T target v t valid)
  each-Mapped body (suc n) k v e t ve ee lo hi valid free step =
      let z = level_page_size level in
      let m : v + z ≡ (k + 1) * z = grind arith in
      let l : (k + 1) * z + n * z ≡ e = grind arith in
      let first =
        step k t (omega arith) (omega arith) valid
          (λ w a b. free w (omega arith) (omega (arith, m, l))) in
      let first' : Mapped level T v (v + z) target t (body v t) =
        subst (λ x. Mapped level T x (x + z) target t (body x t)) (sym ve) first in
      Mapped-seq level T target v (v + z) e t (body v t) (λ u. each body z (v + z) n u)
        (omega arith) (omega (arith, m, l)) lo hi free first'
        (λ u valid_u free_u.
          each-Mapped body n (k + 1) (v + z) e u m (ee ∙ ap (λ x. x * z) (omega arith))
            (omega arith) hi valid_u free_u (λ j u' a b. step j u' (omega arith) (omega arith)))

pub level_pages : (level : ℕ) → (m : ℕ) × (level_page_size level ≡ m * 4096)
level_pages zero = (1, omega arith)
level_pages (suc level) = let (m, e) = level_pages level in (512 * m, omega (arith, e))

pub block_pages : (level q : ℕ) → q * level_page_size level % 4096 ≡ 0
block_pages level q =
    let (m, e) = level_pages level in
    let f : q * level_page_size level ≡ q * m * 4096 = rw e (grind arith) in omega (arith, f)

pub block-le : (q r z : ℕ) → 0 < z → q * z ≤ r * z → q ≤ r
block-le q r z pos h = elim (lt_cases r q) [
  | inr le ↦ le
  | inl lt ↦
      let a : (r + 1) * z ≤ q * z = mul-le-mul_right z (omega arith) in
      let b : (r + 1) * z ≡ r * z + z = grind arith in absurd (omega (arith, a, b))
]

pub block_between : (z q r j : ℕ) → q ≤ j → j < q + (r - q) → (q * z ≤ j * z) × (j * z + z ≤ r * z)
block_between z q r j h h' =
    let a : q * z ≤ j * z = mul-le-mul_right z h in
    let b : (j + 1) * z ≤ r * z = mul-le-mul_right z (omega arith) in (a, grind (arith, b))

pub page_multiple : (level : ℕ) → level_page_size level % 4096 ≡ 0
page_multiple level = let (m, e) = level_pages level in omega (arith, e)

pub misaligned : (b : Bool) (m : ℕ) → (b && not (m == 0)) ≡ true → m ≢ 0
misaligned b m h = ground arith

pub aligned_of_test : (b a m : ℕ) → a < b → (not (leb b a) && not (m == 0)) ≡ false → m ≡ 0
aligned_of_test b a m lt h = ground arith
