-- ===== src/Page/Table/Level.antt =====
-- One level of `map_impl` of kernel/src/page/table.rs, over what it calls.
use deravel_os.Prelude.{
  ℕ, ◌+◌, ◌*◌, ◌/◌, ◌%◌, ◌-◌, ◌≤◌, ◌<◌, ◌≡◌, ◌≢◌, refl, ap, sym, ◌∙◌, not, ◌&&◌, ◌==◌,
  if◌then◌else◌, leb, le→leb, lt→leb, Bool-cases, Exec, ◌>>=◌, ◌⊎◌, inl, inr, lt_cases, subst,
  usize_mod, arith,
}
use native.Mathlib.Nat.{div-eq_of_lt}
use deravel_os.Page.Entry.{PageFlags}
use deravel_os.Page.Table.{
  PageTable, level_page_size, each, unless_empty, map_leaf, map_indirect, map_level,
}
use deravel_os.Page.Table.Translate.{IsValid}
use deravel_os.Page.Table.Ranges.{align_by_lem, multiple-pred}
use deravel_os.Page.Table.Blocks.{level_page_size_pos}
use deravel_os.Page.Table.Mapping.{IsFree, Mapped, Mapped-seq, Mapped-empty, map_leaf-Mapped}
use deravel_os.Page.Table.Steps.{
  count_blocks, same_offset, block_pages, block-le, block_between, page_multiple, misaligned,
  aligned_of_test, each-Mapped,
}

-- `below` maps by way of the table below a block, where that is called for.
module _ (level T virt phys size : ℕ) (flags : PageFlags)
    (below : ℕ → ℕ → ℕ → PageTable → Exec PageTable) (lo : T * (512 * level_page_size level) ≤ virt)
    (hi : virt + size ≤ T * (512 * level_page_size level) + 512 * level_page_size level)
    (under : (k w n : ℕ) (u : PageTable)
      → k * level_page_size level ≤ w
      → w + n ≤ k * level_page_size level + level_page_size level
      → 0 < n
      → virt ≤ w
      → w + n ≤ virt + size
      → w % 4096 ≡ 0
      → n % 4096 ≡ 0
      → (n < level_page_size level) ⊎ ((phys + (w - virt)) % level_page_size level ≢ 0)
      → IsValid level u
      → IsFree level u w (w + n)
      → Mapped level T w
          (w + n)
          (λ v. (phys + (v - virt), flags))
          u
          (map_indirect u w level (below w (phys + (w - virt)) n))) where
  part-Mapped :
      (k s e : ℕ) (u : PageTable)
      → (s < e
          → (k * level_page_size level ≤ s)
            × (e ≤ k * level_page_size level + level_page_size level)
            × (e < s + level_page_size level))
      → virt ≤ s
      → s ≤ e
      → e ≤ virt + size
      → s % 4096 ≡ 0
      → e % 4096 ≡ 0
      → IsValid level u
      → IsFree level u s e
      → Mapped level T s e
          (λ v. (phys + (v - virt), flags))
          u
          (unless_empty
            (record { start = s; stop = e })
            (map_indirect u s level (below s (phys + (s - virt)) (e - s)))
            u)
  unfolding unless_empty
  part-Mapped k s e u short vs se es sp ep valid free = elim (lt_cases s e) [
    | inr ge ↦
        let q : e ≡ s = omega arith in
        rw (le→leb e s ge, q) (Mapped-empty level T (λ v. (phys + (v - virt), flags)) s u valid)
    | inl lt ↦
        let (a, b, c) = short lt in
        let q : s + (e - s) ≡ e = omega arith in
        rw (lt→leb e s lt) (
          subst
            (λ x.
              Mapped level T s x (λ v. (phys + (v - virt), flags)) u
                (map_indirect u s level (below s (phys + (s - virt)) (e - s))))
            q
            (under k s (e - s) u a (omega (arith, b)) (omega arith) vs (omega arith) sp
              (omega (arith, sp, ep)) (inl (omega (arith, c))) valid
              (λ v l h. free v l (omega arith))))
  ]

  middle-Mapped :
      (q r : ℕ) (u : PageTable)
      → let z = level_page_size level in
        q ≤ r
        → virt ≤ q * z
        → r * z ≤ virt + size
        → IsValid level u
        → IsFree level u (q * z) (r * z)
        → Mapped level T
            (q * z)
            (r * z)
            (λ v. (phys + (v - virt), flags))
            u
            (if not (leb (r * z) (q * z)) && not ((phys + (q * z - virt)) % z == 0)
              then each
                  (λ v u. map_indirect u v level (below v (phys + (v - virt)) z))
                  z
                  (q * z)
                  ((r * z - q * z + z - 1) / z)
                  u
              else each
                  (λ v u. map_leaf u v (phys + (v - virt)) flags level)
                  z
                  (q * z)
                  ((r * z - q * z + z - 1) / z)
                  u)
  middle-Mapped q r u qr vq re valid free =
      let z = level_page_size level in
      let pos = level_page_size_pos level in
      let c = count_blocks q r z pos qr in
      let d : r * z ≡ (q + (r - q)) * z = ap (λ x. x * z) (omega arith) in
      let target : ℕ → ℕ × PageFlags = λ v. (phys + (v - virt), flags) in
      let off = λ (j : ℕ) (h : q ≤ j). same_offset phys virt q j z vq h in
      elim (Bool-cases (not (leb (r * z) (q * z)) && not ((phys + (q * z - virt)) % z == 0))) [
        | inl e ↦
            let ne : (phys + (q * z - virt)) % z ≢ 0 =
              misaligned (not (leb (r * z) (q * z))) ((phys + (q * z - virt)) % z) e in
            rw (e, c)
              (each-Mapped level T target
                (λ v u'. map_indirect u' v level (below v (phys + (v - virt)) z)) (r - q) q (q * z)
                (r * z) u refl d (omega (arith, lo)) (omega (arith, hi)) valid free
                (λ j u' a b valid' free'.
                  let (f, g) = block_between z q r j a b in
                  under j (j * z) z u' (omega arith) (omega arith) pos (omega (arith, f))
                    (omega (arith, g)) (block_pages level j) (page_multiple level)
                    (inr (λ x. ne (sym (off j a) ∙ x))) valid' free'))
        | inr e ↦
            rw (e, c)
              (each-Mapped level T target (λ v u'. map_leaf u' v (phys + (v - virt)) flags level)
                (r - q) q (q * z) (r * z) u refl d (omega (arith, lo)) (omega (arith, hi)) valid
                free
                (λ j u' a b valid' free'.
                  let (f, g) = block_between z q r j a b in
                  let al : (phys + (q * z - virt)) % z ≡ 0 =
                    aligned_of_test (r * z) (q * z) ((phys + (q * z - virt)) % z)
                      (omega (arith, f, g, pos)) e in
                  map_leaf-Mapped level T target j (phys + (j * z - virt)) flags u'
                    (record { from = omega (arith, f, lo); until = omega (arith, g, hi, pos) })
                    valid' free' (off j a ∙ al) (λ v l h. ap (λ x. (x, flags)) (omega (arith, f)))))
      ]

  -- The range holds the whole blocks from `q` to `r`.
  blocks-Mapped :
      (q r : ℕ) (t : PageTable)
      → let z = level_page_size level in
        let e = virt + size in
        virt ≤ q * z
        → q * z < virt + z
        → q * z ≤ r * z
        → r * z ≤ e
        → e < r * z + z
        → virt % 4096 ≡ 0
        → size % 4096 ≡ 0
        → IsValid level t
        → IsFree level t virt e
        → Mapped level T virt e
            (λ v. (phys + (v - virt), flags))
            t
            (unless_empty
                (record { start = virt; stop = q * z })
                (map_indirect t virt level (below virt (phys + (virt - virt)) (q * z - virt)))
                t
              >>= λ t1.
                  (if not (leb (r * z) (q * z)) && not ((phys + (q * z - virt)) % z == 0)
                    then each
                        (λ v u. map_indirect u v level (below v (phys + (v - virt)) z))
                        z
                        (q * z)
                        ((r * z - q * z + z - 1) / z)
                        t1
                    else each
                        (λ v u. map_leaf u v (phys + (v - virt)) flags level)
                        z
                        (q * z)
                        ((r * z - q * z + z - 1) / z)
                        t1)
                  >>= λ t2.
                      unless_empty
                        (record { start = r * z; stop = e })
                        (map_indirect t2
                          (r * z)
                          level
                          (below (r * z) (phys + (r * z - virt)) (e - r * z)))
                        t2)
  blocks-Mapped q r t vq short qr re last vp sp valid free =
      let z = level_page_size level in
      let e = virt + size in
      let target : ℕ → ℕ × PageFlags = λ v. (phys + (v - virt), flags) in
      let m : (q - 1) * z ≡ q * z - z = sym (multiple-pred q z) in
      Mapped-seq level T target virt (q * z) e t _ _ vq (omega arith) lo hi free
        (part-Mapped (q - 1) virt (q * z) t (λ h. (omega (arith, m), omega (arith, m), short))
          (omega arith) vq (omega arith) vp (block_pages level q) valid
          (λ v l h. free v l (omega arith)))
        (λ u valid_u free_u.
          Mapped-seq level T target (q * z) (r * z) e u _ _ qr re (omega (arith, lo)) hi free_u
            (middle-Mapped q r u (block-le q r z (level_page_size_pos level) qr) vq re valid_u
              (λ v l h. free_u v l (omega arith)))
            (λ u' valid' free'.
              part-Mapped r (r * z) e u' (λ h. (omega arith, omega arith, last)) (omega arith) re
                (omega arith) (block_pages level r) (omega (arith, vp, sp)) valid' free'))

  pub map_level-Mapped :
      (t : PageTable)
      → virt % 4096 ≡ 0
      → size % 4096 ≡ 0
      → virt + size + level_page_size level < usize_mod
      → IsValid level t
      → IsFree level t virt (virt + size)
      → Mapped level T virt
          (virt + size)
          (λ v. (phys + (v - virt), flags))
          t
          (map_level below level virt phys size flags t)
  unfolding map_level
  map_level-Mapped t vp sp small valid free =
      let z = level_page_size level in
      let e = virt + size in
      let pos = level_page_size_pos level in
      let target : ℕ → ℕ × PageFlags = λ v. (phys + (v - virt), flags) in
      elim (align_by_lem virt e z pos (omega arith) small) [
        | inl (eq, (q, eq', qs)) ↦
            let m : (q - 1) * z ≡ q * z - z = sym (multiple-pred q z) in
            let none_whole : (0 - 0 + z - 1) / z ≡ 0 = div-eq_of_lt (omega (arith, pos)) in
            rw (eq, none_whole, le→leb e e (omega arith))
              (Mapped-seq level T target virt e e t _ _ (omega arith) (omega arith) lo hi free
                (part-Mapped (q - 1) virt e t
                  (λ h. (omega (arith, m, qs), omega (arith, m, eq'), omega (arith, m, eq', qs)))
                  (omega arith) (omega arith) (omega arith) vp (omega (arith, vp, sp)) valid free)
                (λ u valid_u free_u. Mapped-empty level T target e u valid_u))
        | inr (a, b, eq, k) ↦
            let (q, ea) = k.first in
            let (r, eb) = k.last in
            rw (eq, ea, eb)
              (blocks-Mapped q r t (omega (arith, ea, k.before)) (omega (arith, ea, k.short_prefix))
                (omega (arith, ea, eb, k.ordered)) (omega (arith, eb, k.after))
                (omega (arith, eb, k.short_suffix)) vp sp valid free)
      ]
