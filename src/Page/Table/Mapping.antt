-- ===== src/Page/Table/Mapping.antt =====
-- What `map_leaf` of kernel/src/page/table.rs make of one block, and how the steps of
-- `map_impl` add up.
use deravel_os.Prelude.{
  ℕ, suc, ◌+◌, ◌*◌, ◌/◌, ◌%◌, ◌-◌, ◌≤◌, ◌<◌, ◌≡◌, refl, ap, sym, ◌∙◌, false, Bool-cases, none, some,
  Exec, done, ◌>>=◌, ◌⊎◌, inl, inr, lt_cases, arith, ◌==◌, ℕ_discrete, eq→==,
}
use deravel_os.Page.Entry.{PageFlags}
use deravel_os.Page.Table.{
  Entry, leaf, PageTable, vpn_segment, level_page_size, store, entry_is_valid, map_leaf,
}
use deravel_os.Page.Table.Translate.{translate_entry, translate_from, EntryIsValid, IsValid}
use deravel_os.Page.Table.Blocks.{
  InBlock, block_of_div, mod_of_block, level_page_size_pos, div_of_block, translate-store_in,
  translate-store_out, mapped_address,
}

abbrev pub InTable : ℕ → ℕ → ℕ → Type 0
InTable level T v = InBlock (level_page_size (suc level)) T v

-- No address of the range is mapped.
abbrev pub IsFree : ℕ → PageTable → ℕ → ℕ → Type 0
IsFree level t s e = (v : ℕ) → s ≤ v → v < e → translate_from level t v ≡ none

-- A call on table `T` of a level returns a table that maps the range from `s` to `e` by `target`, and
-- all else as `t` does.
pub record Mapped (level T s e : ℕ) (target : ℕ → ℕ × PageFlags) (t : PageTable)
    (call : Exec PageTable) : Type 0 where
  pub result : PageTable
  pub returns : call ≡ done result
  pub valid : IsValid level result
  pub inside :
      (v : ℕ) → InTable level T v → s ≤ v → v < e → translate_from level result v ≡ some (target v)
  pub outside :
      (v : ℕ)
      → InTable level T v
      → (v < s) ⊎ (e ≤ v)
      → translate_from level result v ≡ translate_from level t v

store-IsValid :
    (level : ℕ) (t : PageTable) (i : ℕ) (e : Entry)
    → IsValid level t
    → EntryIsValid level e
    → IsValid level (store t i e)
store-IsValid level t i e k h j = elim (Bool-cases (j == i)) [ inl q ↦ rw q h | inr q ↦ rw q (k j) ]

pub Mapped-target :
    (level T s e : ℕ) (f g : ℕ → ℕ × PageFlags) (t : PageTable) (call : Exec PageTable)
    → ((v : ℕ) → s ≤ v → v < e → f v ≡ g v)
    → Mapped level T s e f t call
    → Mapped level T s e g t call
Mapped-target level T s e f g t call same m = record {
  result = m.result;
  returns = m.returns;
  valid = m.valid;
  inside = λ v i l h. m.inside v i l h ∙ ap some (same v l h);
  outside = m.outside;
}

module _ (level T : ℕ) (target : ℕ → ℕ × PageFlags) where
  -- Two ranges, one after the other.
  pub Mapped-seq :
      (s m e : ℕ) (t : PageTable) (call : Exec PageTable) (rest : PageTable → Exec PageTable)
      → s ≤ m
      → m ≤ e
      → T * level_page_size (suc level) ≤ s
      → e ≤ T * level_page_size (suc level) + level_page_size (suc level)
      → IsFree level t s e
      → Mapped level T s m target t call
      → ((u : PageTable)
          → IsValid level u
          → IsFree level u m e
          → Mapped level T m e target u (rest u))
      → Mapped level T s e target t (call >>= rest)
  Mapped-seq s m e t call rest sm me lo hi free a b =
      let u = a.result in
      let free_u : IsFree level u m e = λ v l h.
        a.outside v (record { from = omega arith; until = omega arith }) (inr l)
        ∙ free v (omega arith) h in
      let c = b u a.valid free_u in
      record {
        result = c.result;
        returns = rw (a.returns) c.returns;
        valid = c.valid;
        inside = λ v i l h. elim (lt_cases v m) [
          | inl lt ↦ c.outside v i (inl lt) ∙ a.inside v i l lt
          | inr ge ↦ c.inside v i ge h
        ];
        outside = λ v i o. elim o [
          | inl lt ↦ c.outside v i (inl (omega arith)) ∙ a.outside v i (inl lt)
          | inr ge ↦ c.outside v i (inr ge) ∙ a.outside v i (inr (omega arith))
        ];
      }

  pub Mapped-empty :
      (s : ℕ) (t : PageTable) → IsValid level t → Mapped level T s s target t (done t)
  Mapped-empty s t k = record {
    result = t;
    returns = refl;
    valid = k;
    inside = λ v i l h. absurd (omega arith);
    outside = λ v i o. refl;
  }

  -- The block of `w` is replaced by an entry that maps the range by `target` and the rest of the
  -- block as before.
  pub store-Mapped :
      (k w s e : ℕ) (t : PageTable) (entry : Entry)
      → k * level_page_size level ≤ s
      → s ≤ w
      → w < e
      → e ≤ k * level_page_size level + level_page_size level
      → InTable level T w
      → IsValid level t
      → EntryIsValid level entry
      → ((v : ℕ)
          → InTable level T v
          → s ≤ v
          → v < e
          → translate_entry level entry v ≡ some (target v))
      → ((v : ℕ)
          → InTable level T v
          → InBlock (level_page_size level) k v
          → (v < s) ⊎ (e ≤ v)
          → translate_entry level entry v ≡ translate_from level t v)
      → Mapped level T s e target t (done (store t (vpn_segment w level) entry))
  store-Mapped k w s e t entry ks sw we ek bw valid h inside outside =
      let z = level_page_size level in
      let at : w / z ≡ k =
        div_of_block z k w (record { from = omega arith; until = omega arith }) in
      record {
        result = store t (vpn_segment w level) entry;
        returns = refl;
        valid = store-IsValid level t (vpn_segment w level) entry valid h;
        inside = λ v i l m.
            translate-store_in level t v w entry
              (div_of_block z k v (record { from = omega arith; until = omega arith }) ∙ sym at)
            ∙ inside v i l m;
        outside = λ v i o. elim (ℕ_discrete (v / z) (w / z)) [
          | yes q ↦
              translate-store_in level t v w entry q
              ∙ outside v i (block_of_div z k v (level_page_size_pos level) (q ∙ at)) o
          | no q ↦ translate-store_out level T t v w entry i bw q
        ];
      }

  -- An entry with no address mapped is not valid.
  free_entry :
      (k w : ℕ) (t : PageTable)
      → InTable level T w
      → InBlock (level_page_size level) k w
      → IsValid level t
      → ((v : ℕ) → InBlock (level_page_size level) k v → translate_from level t v ≡ none)
      → entry_is_valid (t (vpn_segment w level)) ≡ false
  unfolding vpn_segment
  free_entry k w t iw bw valid free =
      let z = level_page_size level in
      let i = vpn_segment w level in
      elim (Bool-cases (entry_is_valid (t i))) [
        | inr e ↦ e
        | inl e ↦
            let (v, b, ne) = mapped_address level (t i) k (valid i) e in
            let q : v / z ≡ w / z = div_of_block z k v b ∙ sym (div_of_block z k w bw) in
            absurd (ne (ap (λ x. translate_entry level (t (x % 512)) v) (sym q) ∙ free v b))
      ]

  pub map_leaf-Mapped :
      (k phys : ℕ) (flags : PageFlags) (t : PageTable)
      → let z = level_page_size level in
        InTable level T (k * z)
        → IsValid level t
        → IsFree level t (k * z) (k * z + z)
        → phys % z ≡ 0
        → ((v : ℕ) → k * z ≤ v → v < k * z + z → target v ≡ (phys + (v - k * z), flags))
        → Mapped level T (k * z) (k * z + z) target t (map_leaf t (k * z) phys flags level)
  unfolding map_leaf
  map_leaf-Mapped k phys flags t iw valid free al goal =
      let z = level_page_size level in
      let pos = level_page_size_pos level in
      let bw : InBlock z k (k * z) = record { from = omega arith; until = omega (arith, pos) } in
      rw (free_entry k (k * z) t iw bw valid (λ v b. free v b.from b.until)) (
        store-Mapped k (k * z) (k * z) (k * z + z) t (leaf phys flags) (omega arith) (omega arith)
          (omega (arith, pos)) (omega arith) iw valid al
          (λ v i l h.
            let m : v % z ≡ v - k * z = mod_of_block z k v (record { from = l; until = h }) in
            rw (eq→== (phys % z) 0 al, m, goal v l h) refl)
          (λ v i b o. elim o [
            | inl lt ↦ absurd (omega (arith, b.from))
            | inr ge ↦ absurd (omega (arith, b.until))
          ]))
