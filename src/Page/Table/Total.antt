-- ===== src/Page/Table/Total.antt =====
-- `map` of kernel/src/page/table.rs as a whole.
use deravel_os.Prelude.{
  ℕ, zero, suc, ◌+◌, ◌*◌, ◌%◌, ◌-◌, ◌≤◌, ◌<◌, ◌≡◌, ap, eq→==, lt→ltb, le→leb, none, some, done,
  panic, ◌⊎◌, inl, inr, usize_mod, arith,
}
use deravel_os.Memory.{page_size, virtual_end, physical_end}
use deravel_os.Page.Entry.{PageFlags}
use deravel_os.Page.Table.{PageTable, level_page_size, map_impl, check_range, map}
use deravel_os.Page.Table.Translate.{translate, IsValid}
use deravel_os.Page.Table.Blocks.{level_page_size_pos}
use deravel_os.Page.Table.Mapping.{IsFree, Mapped, Mapped-target}
use deravel_os.Page.Table.Indirect.{map_indirect-Mapped}
use deravel_os.Page.Table.Level.{map_level-Mapped}

pub map_impl-Mapped :
    (level T virt phys size : ℕ) (flags : PageFlags) (t : PageTable)
    → T * (512 * level_page_size level) ≤ virt
    → virt + size ≤ T * (512 * level_page_size level) + 512 * level_page_size level
    → virt % 4096 ≡ 0
    → phys % 4096 ≡ 0
    → size % 4096 ≡ 0
    → virt + size + level_page_size level < usize_mod
    → IsValid level t
    → IsFree level t virt (virt + size)
    → Mapped level T virt
        (virt + size)
        (λ v. (phys + (v - virt), flags))
        t
        (map_impl level virt phys size flags t)
unfolding map_impl
map_impl-Mapped zero T virt phys size flags t lo hi vp pp sp small valid free =
    map_level-Mapped zero T virt phys size flags (λ _ _ _ _. panic) lo hi
      (λ k w n u kw wk pos vw we wp np short valid_u free_u. elim short [
        | inl lt ↦ absurd (omega arith)
        | inr ne ↦ absurd (ne (omega arith))
      ])
      t vp sp small valid free
map_impl-Mapped (suc level) T virt phys size flags t lo hi vp pp sp small valid free =
    map_level-Mapped (suc level) T virt phys size flags (λ v p n u. map_impl level v p n flags u) lo
      hi
      (λ k w n u kw wk pos vw we wp np short valid_u free_u.
        map_indirect-Mapped level T (λ v. (phys + (v - virt), flags)) k w n u
          (map_impl level w (phys + (w - virt)) n flags)
          (record { from = omega arith; until = omega arith }) kw pos wk valid_u free_u
          (λ u' valid' free'.
            Mapped-target level k w (w + n) _ _ u' _ (λ v l h. ap (λ x. (x, flags)) (omega arith))
              (map_impl-Mapped level k w (phys + (w - virt)) n flags u' kw wk wp (omega arith) np
                (omega (arith, level_page_size_pos level)) valid' free')))
      t vp sp small valid free

-- If the range is page-aligned and within the address space, and none of it is mapped in
-- well-formed tables, then map returns well-formed tables that translate every address of the range
-- to its place in the physical range, with the flags, and every other address of the address space
-- as before.
pub map_lem :
    (t : PageTable) (virt phys size : ℕ) (flags : PageFlags)
    → IsValid 2 t
    → virt % page_size ≡ 0
    → virt < virtual_end
    → virt + size ≤ virtual_end
    → phys % page_size ≡ 0
    → phys < physical_end
    → phys + size ≤ physical_end
    → size % page_size ≡ 0
    → ((v : ℕ) → virt ≤ v → v < virt + size → translate t v ≡ none)
    → (t' : PageTable) × (map t virt phys size flags ≡ done t')
      × IsValid 2 t'
      × ((v : ℕ) → virt ≤ v → v < virt + size → translate t' v ≡ some (phys + (v - virt), flags))
      × ((v : ℕ)
          → v < virtual_end
          → (v < virt) ⊎ (virt + size ≤ v)
          → translate t' v ≡ translate t v)
unfolding map check_range
map_lem t virt phys size flags valid va vl vs pa pl ps sa free =
    let r =
      map_impl-Mapped 2 0 virt phys size flags t (omega arith) (omega arith) va pa sa (omega arith)
        valid free in
    (
      r.result,
      rw
          (
            eq→== _ _ va,
            lt→ltb _ _ vl,
            le→leb _ _ vs,
            eq→== _ _ pa,
            lt→ltb _ _ pl,
            le→leb _ _ ps,
            eq→== _ _ sa,
          )
          r.returns,
      r.valid,
      (λ v l h. r.inside v (record { from = omega arith; until = omega arith }) l h),
      (λ v h o. r.outside v (record { from = omega arith; until = omega arith }) o),
    )
