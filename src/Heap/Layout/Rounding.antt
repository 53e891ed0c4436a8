-- ===== src/Heap/Layout/Rounding.antt =====
-- The two roundings of `usize` that the heap uses.
use deravel_os.Prelude.{
  ℕ, zero, suc, ◌+◌, ◌-◌, ◌*◌, ◌/◌, ◌%◌, ◌≤◌, ◌<◌, ◌≡◌, refl, done, inl, inr, arith, lt→ltb,
  lt_cases, ne→==, usize_mod, Bool-cases, ap, ◌∙◌, ◌==◌,
}
use native.Mathlib.Nat.{div-add-mod, mod-lt}
use deravel_os.Heap.Layout.{pow_above, next_power_of_two, next_multiple_of}
use deravel_os.Heap.Buddy.Invariant.{pow2}

pow_above_fits : (f p size : ℕ) → size ≤ p → pow_above (suc f) p size ≡ done p
unfolding pow_above
pow_above_fits f p size h = ground arith

pow_above_more : (f p size : ℕ) → p < size → pow_above (suc f) p size ≡ pow_above f (p + p) size
unfolding pow_above
pow_above_more f p size h = ground arith

pow_above_lem :
    (f j k size : ℕ)
    → k < j + f
    → j ≤ k
    → size ≤ pow2 k
    → (i : ℕ) × (i ≤ k) × (size ≤ pow2 i) × (pow_above f (pow2 j) size ≡ done (pow2 i))
pow_above_lem zero j k size h le s = absurd (omega arith)
pow_above_lem (suc f) j k size h le s = elim (lt_cases (pow2 j) size) [
  | inr fits ↦ (j, le, fits, pow_above_fits f (pow2 j) size fits)
  | inl more ↦
      let (i, a, b, e) =
        pow_above_lem f (suc j) k size (omega arith) (deeper j k size le more s) s in
      (i, a, b, pow_above_more f (pow2 j) size more ∙ e)
]
  where
    deeper : (j k size : ℕ) → j ≤ k → pow2 j < size → size ≤ pow2 k → suc j ≤ k
    deeper j k size le more s = elim (lt_cases j k) [
      | inl lt ↦ lt
      | inr ge ↦ let e : j ≡ k = omega arith in absurd (omega (arith, ap pow2 e))
    ]

-- A size up to 2^63 is rounded to a power of two that holds it, and to none above one that does.
pub next_power_of_two_lem :
    (k size : ℕ)
    → k < 64
    → size ≤ pow2 k
    → (i : ℕ) × (i ≤ k) × (size ≤ pow2 i) × (next_power_of_two size ≡ done (pow2 i))
unfolding next_power_of_two
next_power_of_two_lem k size h s = pow_above_lem 64 0 k size (omega arith) (omega arith) s

-- The next multiple is a multiple, at least `n`, and less than one step above it.
pub next_multiple_of_lem :
    (n a : ℕ)
    → 0 < a
    → n + a < usize_mod
    → (m : ℕ) × (next_multiple_of n a ≡ done m) × (n ≤ m) × (m < n + a) × ((q : ℕ) × (m ≡ q * a))
unfolding next_multiple_of
next_multiple_of_lem n a pos small = elim (Bool-cases (n % a == 0)) [
  | inl e ↦ (
    n,
    rw (ne→== a 0 (omega arith), e) refl,
    omega arith,
    omega arith,
    (n / a, ground (arith, div-add-mod n a)),
  )
  | inr e ↦ (
    n + (a - n % a),
    rw (ne→== a 0 (omega arith), e, lt→ltb (n + (a - n % a)) usize_mod (omega arith)) refl,
    omega arith,
    ground (arith, mod-lt n pos),
    (n / a + 1, grind (arith, div-add-mod n a)),
  )
]
