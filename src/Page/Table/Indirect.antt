-- ===== src/Page/Table/Indirect.antt =====
-- `map_indirect` of kernel/src/page/table.rs: a call on the table below an entry.
use deravel_os.Prelude.{
  ℕ, suc, ◌+◌, ◌*◌, ◌/◌, ◌%◌, ◌≤◌, ◌<◌, ◌≡◌, ◌≢◌, refl, ap, sym, ◌∙◌, true, none, some, Exec, done,
  ◌>>=◌, subst, arith, eq→==,
}
use native.Mathlib.Nat.{mod-lt}
use deravel_os.Page.Entry.{PageFlags}
use deravel_os.Page.Table.{
  Entry, invalid, indirect, leaf, PageTable, new, vpn_segment, level_page_size, store,
  entry_is_valid, map_indirect,
}
use deravel_os.Page.Table.Translate.{translate_entry, translate_from, EntryIsValid, IsValid}
use deravel_os.Page.Table.Blocks.{InBlock, div_of_block}
use deravel_os.Page.Table.Mapping.{InTable, IsFree, Mapped, store-Mapped}

valid_of_translate :
    (level : ℕ) (e : Entry) (v : ℕ) (x : ℕ × PageFlags)
    → translate_entry level e v ≡ some x
    → entry_is_valid e ≡ true
valid_of_translate level invalid v x h = cc
valid_of_translate level (leaf p f) v x h = refl
valid_of_translate level (indirect t) v x h = refl

leaf-ne-none :
    (level p : ℕ) (f : PageFlags) (v : ℕ)
    → p % level_page_size level ≡ 0
    → translate_entry level (leaf p f) v ≢ none
leaf-ne-none level p f v h = rw (eq→== (p % level_page_size level) 0 h) (λ e. cc)

-- `body` runs on the table `u` below block `k` of the level above.
module _ (level T : ℕ) (target : ℕ → ℕ × PageFlags) (k w n : ℕ) (t : PageTable)
    (body : PageTable → Exec PageTable) (iw : InTable (suc level) T w)
    (lo : k * level_page_size (suc level) ≤ w) (pos : 0 < n)
    (hi : w + n ≤ k * level_page_size (suc level) + level_page_size (suc level))
    (valid : IsValid (suc level) t) (free : IsFree (suc level) t w (w + n))
    (below : (u : PageTable)
      → IsValid level u
      → IsFree level u w (w + n)
      → Mapped level k w (w + n) target u (body u)) where
  in_block : (v : ℕ) → w ≤ v → v < w + n → InBlock (level_page_size (suc level)) k v
  in_block v l h = record { from = omega (arith, lo); until = omega (arith, hi) }

  through :
      (u : PageTable)
      → IsValid level u
      → ((v : ℕ)
          → InBlock (level_page_size (suc level)) k v
          → translate_from level u v ≡ translate_from (suc level) t v)
      → Mapped
          (suc level)
          T
          w
          (w + n)
          target
          t
          (body u >>= λ sub. done (store t (vpn_segment w (suc level)) (indirect sub)))
  unfolding vpn_segment
  through u valid_u agree =
      let r = below u valid_u (λ v l h. agree v (in_block v l h) ∙ free v l h) in
      let lt : w < w + n = omega (arith, pos) in
      let at = r.inside w (in_block w (omega arith) lt) (omega arith) lt in
      let some_entry : (i : ℕ) × (i < 512) × (entry_is_valid (r.result i) ≡ true) = (
        w / level_page_size level % 512,
        mod-lt (w / level_page_size level) {m = 512} (omega arith),
        valid_of_translate level (r.result (w / level_page_size level % 512)) w (target w) at,
      ) in
      rw (r.returns) (
        store-Mapped (suc level) T target k w w (w + n) t (indirect r.result) lo (omega arith) lt hi
          iw valid (r.valid, some_entry) (λ v i l h. r.inside v (in_block v l h) l h)
          (λ v i b o. r.outside v b o ∙ agree v b))

  same_entry :
      (v : ℕ)
      → InBlock (level_page_size (suc level)) k v
      → t (vpn_segment v (suc level)) ≡ t (vpn_segment w (suc level))
  unfolding vpn_segment
  same_entry v b =
      let z = level_page_size (suc level) in
      ap (λ q. t (q % 512))
        (div_of_block z k v b
          ∙ sym (div_of_block z k w (in_block w (omega arith) (omega (arith, pos)))))

  by_entry :
      (e : Entry)
      → t (vpn_segment w (suc level)) ≡ e
      → Mapped (suc level) T w (w + n) target t (map_indirect t w (suc level) body)
  unfolding map_indirect vpn_segment new
  by_entry invalid q =
      rw (q, map_indirect)
        (through new (λ i. tt)
          (λ v b. sym (ap (λ x. translate_entry (suc level) x v) (same_entry v b ∙ q))))
  by_entry (indirect s) q =
      rw (q, map_indirect)
        (through s (subst (λ x. EntryIsValid (suc level) x) q (valid (vpn_segment w (suc level)))).0
          (λ v b. sym (ap (λ x. translate_entry (suc level) x v) (same_entry v b ∙ q))))
  by_entry (leaf p f) q =
      let z = level_page_size (suc level) in
      let al : p % z ≡ 0 =
        subst (λ x. EntryIsValid (suc level) x) q (valid (vpn_segment w (suc level))) in
      let no : translate_entry (suc level) (leaf p f) w ≡ none =
        sym (ap (λ x. translate_entry (suc level) x w) q)
        ∙ free w (omega arith) (omega (arith, pos)) in
      absurd (leaf-ne-none (suc level) p f w al no)

  pub map_indirect-Mapped :
      Mapped (suc level) T w (w + n) target t (map_indirect t w (suc level) body)
  map_indirect-Mapped = by_entry (t (vpn_segment w (suc level))) refl
