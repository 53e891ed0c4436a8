-- ===== src/Page/Table/Blocks.antt =====
-- Addresses and the entries of a table of kernel/src/page/table.rs: block `k` of a level goes from
-- `k * level_page_size level` on, and table `T` of the level holds 512 of them.
use deravel_os.Prelude.{
  ℕ, zero, suc, ◌+◌, ◌*◌, ◌/◌, ◌%◌, ◌-◌, ◌≤◌, ◌<◌, ◌≡◌, ◌≢◌, refl, ap, ◌∙◌, true, none, subst,
  eq→==, ne→==, arith,
}
use native.Mathlib.Nat.{
  div-eq_of_lt-le, div-div-eq-div-mul, mul-le-mul_right, mul_comm, div-add-mod', mod-lt,
}
use deravel_os.Page.Table.{
  Entry, invalid, indirect, leaf, PageTable, vpn_segment, level_page_size, store, entry_is_valid,
}
use deravel_os.Page.Table.Translate.{translate_entry, translate_from, EntryIsValid}

pub level_page_size_pos : (level : ℕ) → 0 < level_page_size level
level_page_size_pos zero = omega arith
level_page_size_pos (suc level) = omega (arith, level_page_size_pos level)

-- A block and the addresses in it.
pub record InBlock (z k v : ℕ) : Type 0 where
  pub from : k * z ≤ v
  pub until : v < k * z + z

pub div_of_block : (z k v : ℕ) → InBlock z k v → v / z ≡ k
div_of_block z k v b = div-eq_of_lt-le z b.from (grind (arith, b.until))

pub block_of_div : (z k v : ℕ) → 0 < z → v / z ≡ k → InBlock z k v
block_of_div z k v pos e =
    let m = div-add-mod' v z in
    let lt = mod-lt v pos in
    let m' : k * z + v % z ≡ v = subst (λ q. q * z + v % z ≡ v) e m in
    record { from = omega (arith, m'); until = omega (arith, m', lt) }

pub mod_of_block : (z k v : ℕ) → InBlock z k v → v % z ≡ v - k * z
mod_of_block z k v b =
    let m = subst (λ q. q * z + v % z ≡ v) (div_of_block z k v b) (div-add-mod' v z) in
    omega (arith, m)

pub block_in_table :
    (z T k : ℕ)
    → T * 512 ≤ k
    → k < T * 512 + 512
    → (T * (512 * z) ≤ k * z) × (k * z + z ≤ T * (512 * z) + 512 * z)
block_in_table z T k lo hi =
    let a : T * 512 * z ≤ k * z = mul-le-mul_right z lo in
    let b : (k + 1) * z ≤ (T * 512 + 512) * z = mul-le-mul_right z (omega arith) in
    (grind (arith, a), grind (arith, b))

pub table_of_block : (z T v : ℕ) → InBlock (512 * z) T v → v / z / 512 ≡ T
table_of_block z T v b =
    div-div-eq-div-mul v z 512 ∙ ap (λ m. v / m) (mul_comm z 512) ∙ div_of_block (512 * z) T v b

-- Two addresses of a table whose entries are the same lie in one block.
pub same_block :
    (z T v w : ℕ)
    → InBlock (512 * z) T v
    → InBlock (512 * z) T w
    → v / z % 512 ≡ w / z % 512
    → v / z ≡ w / z
same_block z T v w bv bw e = omega (arith, table_of_block z T v bv, table_of_block z T w bw, e)

pub translate-store_in :
    (level : ℕ) (t : PageTable) (v w : ℕ) (e : Entry)
    → v / level_page_size level ≡ w / level_page_size level
    → translate_from level (store t (vpn_segment w level) e) v ≡ translate_entry level e v
unfolding vpn_segment
translate-store_in level t v w e h =
    rw
      (eq→== (v / level_page_size level % 512) (w / level_page_size level % 512)
        (ap (λ q. q % 512) h))
      refl

pub translate-store_out :
    (level T : ℕ) (t : PageTable) (v w : ℕ) (e : Entry)
    → InBlock (level_page_size (suc level)) T v
    → InBlock (level_page_size (suc level)) T w
    → v / level_page_size level ≢ w / level_page_size level
    → translate_from level (store t (vpn_segment w level) e) v ≡ translate_from level t v
unfolding vpn_segment
translate-store_out level T t v w e bv bw h =
    rw
      (ne→== (v / level_page_size level % 512) (w / level_page_size level % 512)
        (λ q. h (same_block (level_page_size level) T v w bv bw q)))
      refl

-- A valid entry of block `k` maps an address of it.
pub mapped_address :
    (level : ℕ) (e : Entry) (k : ℕ)
    → EntryIsValid level e
    → entry_is_valid e ≡ true
    → (v : ℕ) × InBlock (level_page_size level) k v × (translate_entry level e v ≢ none)
unfolding vpn_segment
mapped_address level invalid k h d = cc
mapped_address level (leaf p f) k h d = (
  k * level_page_size level,
  record { from = omega arith; until = omega (arith, level_page_size_pos level) },
  rw (eq→== (p % level_page_size level) 0 h) (λ e. cc),
)
mapped_address zero (indirect t) k h d = absurd h
mapped_address (suc level) (indirect t) k h d =
    let z = level_page_size level in
    let (i, lt, di) = h.1 in
    let (v, b, ne) = mapped_address level (t i) (k * 512 + i) (h.0 i) di in
    let c = block_in_table z k (k * 512 + i) (omega arith) (omega (arith, lt)) in
    let j : v / z % 512 ≡ i = omega (arith, div_of_block z (k * 512 + i) v b, lt) in
    (v, record { from = omega (arith, c.0, b.from); until = omega (arith, c.1, b.until) }, rw j ne)
