-- ===== src/Page/Table/Ranges.antt =====
-- `align_by` of kernel/src/page/table.rs.
use deravel_os.Prelude.{
  ℕ, zero, suc, ap, ◌∙◌, ◌+◌, ◌-◌, ◌*◌, ◌≤◌, ◌<◌, ltb, le→leb, le→ltb, lt→ltb, lt→leb,
  if◌then◌else◌, done, ◌≡◌, refl, ◌⊎◌, inl, inr, usize_mod, lt_cases, arith,
}
use deravel_os.Heap.Layout.Rounding.{next_multiple_of_lem}
use deravel_os.Page.Table.{align_by}

next_multiple-le : (q r a : ℕ) → q * a < r * a → q * a + a ≤ r * a
next_multiple-le q r a h = elim (lt_cases q r) [
  | inl lt ↦ grind arith
  | inr ge ↦ absurd (grind arith)
]

pub multiple-pred : (r a : ℕ) → r * a - a ≡ (r - 1) * a
multiple-pred zero a = omega arith
multiple-pred (suc r) a = grind arith

-- Whole blocks of `align` from `a` to `b`, in the range from `s` to `e`.
pub record Blocks (s e align a b : ℕ) : Type 0 where
  pub first : (q : ℕ) × (a ≡ q * align)
  pub last : (q : ℕ) × (b ≡ q * align)
  pub before : s ≤ a
  pub short_prefix : a < s + align
  pub ordered : a ≤ b
  pub after : b ≤ e
  pub short_suffix : e < b + align

last_block :
    (e align m last : ℕ)
    → 0 < align
    → m < e
    → (q : ℕ) × (m ≡ q * align)
    → e ≤ last
    → last < e + align
    → (q : ℕ) × (last ≡ q * align)
    → let b = if ltb e last then last - align else last in
      ((q : ℕ) × (b ≡ q * align)) × (m ≤ b) × (b ≤ e) × (e < b + align)
last_block e align m last pos lt (q, eq) lo hi (r, er) = elim (lt_cases e last) [
  | inl c ↦
      let far = next_multiple-le q r align (omega arith) in
      rw (lt→ltb _ _ c) (
        (
          (r - 1, ap (λ x. x - align) er ∙ multiple-pred r align),
          omega (arith, far),
          omega arith,
          omega arith,
        ))
  | inr c ↦ rw (le→ltb _ _ c) (((r, er), omega arith, omega arith, omega arith))
]

-- X
pub align_by_lem :
    (s e align : ℕ)
    → 0 < align
    → s ≤ e
    → e + align < usize_mod
    → ((align_by s e align
          ≡ done (record {
            prefix_ = record { start = s; stop = e };
            aligned = record { start = 0; stop = 0 };
            suffix = record { start = e; stop = e };
          }))
        × ((q : ℕ) × (e ≤ q * align) × (q * align < s + align)))
      ⊎ ((a b : ℕ) × (align_by s e align
            ≡ done (record {
              prefix_ = record { start = s; stop = a };
              aligned = record { start = a; stop = b };
              suffix = record { start = b; stop = e };
            }))
          × Blocks s e align a b)
unfolding align_by
align_by_lem s e align pos ord small =
    let (a, ea, lo, hi, ma) = next_multiple_of_lem s align pos (omega arith) in
    let (l, el, lo', hi', ml) = next_multiple_of_lem e align pos (omega arith) in
    elim (lt_cases a e) [
      | inr ge ↦ inl (rw (ea, le→leb _ _ ge) refl, (ma.0, omega (arith, ma.1), omega (arith, ma.1)))
      | inl lt ↦
          let (mb, c, d, f) = last_block e align a l pos lt ma lo' hi' ml in
          inr (
            a,
            (if ltb e l then l - align else l),
            rw (ea, lt→leb _ _ lt, el) refl,
            record {
              first = ma;
              last = mb;
              before = lo;
              short_prefix = hi;
              ordered = c;
              after = d;
              short_suffix = f;
            },
          )
    ]
