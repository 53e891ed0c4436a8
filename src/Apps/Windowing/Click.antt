-- ===== src/Apps/Windowing/Click.antt =====
-- The hit test of apps/src/bin/windowing.rs.
use deravel_os.Prelude.{
  ℕ, zero, suc, ◌+◌, ◌^◌, ◌≤◌, ◌<◌, ◌≡◌, ◌≢◌, refl, ap, ◌⊎◌, inl, inr, true, false, List, [], ◌∷◌,
  Option, some, done, ltb, leb, lt_cases, lt→ltb, le→ltb, le→leb, lt→leb, ◌∙◌, arith,
}
use deravel_os.Prelude.Int.{ℤ, pos, negsuc, pos_part, neg_part, ◌+ℤ◌, ◌≤ℤ◌, ltb_ℤ}
use deravel_os.Apps.Windowing.{
  WindowData, WindowStatus, open_, closed, is_open, far_edge, within, hit, click,
}

-- A window whose edges are far from the ends of an `i32`.
pub record Fits (w : WindowData) : Type 0 where
  pub x_high : pos_part w.x ≤ 2 ^ 30
  pub x_low : neg_part w.x ≤ 2 ^ 30
  pub y_high : pos_part w.y ≤ 2 ^ 30
  pub y_low : neg_part w.y ≤ 2 ^ 30
  pub width_small : w.width < 2 ^ 30
  pub height_small : w.height < 2 ^ 30

abbrev pub AllFit : List WindowData → Type 0
AllFit [] = Unit
AllFit (w ∷ ws) = Fits w × AllFit ws

-- The window is open and the point is in it.
pub record Hits (w : WindowData) (cx cy : ℤ) : Type 0 where
  pub left : w.x ≤ℤ cx
  pub right : pos_part cx + neg_part w.x < pos_part w.x + w.width + neg_part cx
  pub top : w.y ≤ℤ cy
  pub bottom : pos_part cy + neg_part w.y < pos_part w.y + w.height + neg_part cy
  pub visible : w.status ≡ open_

pub far_edge-done :
    (a : ℤ) (size : ℕ)
    → pos_part a ≤ 2 ^ 30
    → neg_part a ≤ 2 ^ 30
    → size < 2 ^ 30
    → far_edge a size ≡ done (a +ℤ pos size)
far_edge-done a size h l s = ground arith

ltb-sum :
    (c a : ℤ) (size : ℕ)
    → ltb_ℤ c (a +ℤ pos size) ≡ ltb (pos_part c + neg_part a) (pos_part a + size + neg_part c)
ltb-sum c (pos a) size = ground arith
ltb-sum (pos c) (negsuc a) size = ground arith
ltb-sum (negsuc c) (negsuc a) size = ground arith

abbrev Inside : ℤ → ℤ → ℕ → Type 0
Inside c a size = (a ≤ℤ c) × (pos_part c + neg_part a < pos_part a + size + neg_part c)

within_lem :
    (c a : ℤ) (size : ℕ)
    → pos_part a ≤ 2 ^ 30
    → neg_part a ≤ 2 ^ 30
    → size < 2 ^ 30
    → ((within c a size ≡ done true) × Inside c a size)
      ⊎ ((within c a size ≡ done false) × (Inside c a size → ⊥))
unfolding within
within_lem c a size h l s =
    let le = leb (pos_part a + neg_part c) (pos_part c + neg_part a) in
    elim (lt_cases (pos_part c + neg_part a) (pos_part a + neg_part c)) [
      | inl lt ↦ inr (rw (lt→leb _ _ lt) refl, λ p. omega (arith, p.0))
      | inr ge ↦ elim (lt_cases (pos_part c + neg_part a) (pos_part a + size + neg_part c)) [
        | inl lt ↦ inl (
          rw (le→leb _ _ ge, far_edge-done a size h l s)
              (ap done (ltb-sum c a size ∙ lt→ltb _ _ lt)),
          (ge, lt),
        )
        | inr far ↦ inr (
          rw (le→leb _ _ ge, far_edge-done a size h l s)
              (ap done (ltb-sum c a size ∙ le→ltb _ _ far)),
          λ p. omega (arith, p.1),
        )
      ]
    ]

status_cases :
    (st : WindowStatus)
    → ((is_open st ≡ true) × (st ≡ open_)) ⊎ ((is_open st ≡ false) × (st ≢ open_))
status_cases open_ = inl (refl, refl)
status_cases closed = inr (refl, λ e. cc e)

hit_lem :
    (w : WindowData) (cx cy : ℤ)
    → Fits w
    → ((hit w cx cy ≡ done true) × Hits w cx cy) ⊎ ((hit w cx cy ≡ done false) × (Hits w cx cy → ⊥))
unfolding hit
hit_lem w cx cy f = elim (within_lem cx w.x w.width f.x_high f.x_low f.width_small) [
  | inr (e, out) ↦ inr (rw e refl, λ h. out (h.left, h.right))
  | inl (e, x_in) ↦ elim (within_lem cy w.y w.height f.y_high f.y_low f.height_small) [
    | inr (e', out) ↦ inr (rw (e, e') refl, λ h. out (h.top, h.bottom))
    | inl (e', y_in) ↦ elim (status_cases w.status) [
      | inr (e'', ne) ↦ inr (rw (e, e', e'') refl, λ h. ne h.visible)
      | inl (e'', eq) ↦ inl (
        rw (e, e', e'') refl,
        record { left = x_in.0; right = x_in.1; top = y_in.0; bottom = y_in.1; visible = eq },
      )
    ]
  ]
]

-- No window of the list is hit.
abbrev pub NoneHit : List WindowData → ℤ → ℤ → Type 0
NoneHit [] cx cy = Unit
NoneHit (w ∷ ws) cx cy = (Hits w cx cy → ⊥) × NoneHit ws cx cy

-- A window of the list that is hit, and none behind it.
abbrev pub LastHit : List WindowData → ℤ → ℤ → ℕ → Type 0
LastHit [] cx cy i = ⊥
LastHit (w ∷ ws) cx cy zero = Hits w cx cy × NoneHit ws cx cy
LastHit (w ∷ ws) cx cy (suc i) = LastHit ws cx cy i

click_from :
    (i : ℕ) (ws : List WindowData) (cx cy : ℤ) (active : Option ℕ)
    → AllFit ws
    → ((click i ws cx cy active ≡ done active) × NoneHit ws cx cy)
      ⊎ ((j : ℕ) × (click i ws cx cy active ≡ done (some (i + j))) × LastHit ws cx cy j)
unfolding click
click_from i [] cx cy active f = inl (refl, tt)
click_from i (w ∷ ws) cx cy active f = elim (hit_lem w cx cy (f.0)) [
  | inl (e, h) ↦ elim (click_from (i + 1) ws cx cy (some i) (f.1)) [
    | inl (c, none_hit) ↦
        let z : i ≡ i + 0 = omega arith in
        inr (0, rw e (c ∙ ap (λ n. done (some n)) z), (h, none_hit))
    | inr (j, c, last) ↦
        let z : i + 1 + j ≡ i + suc j = omega arith in
        inr (suc j, rw e (c ∙ ap (λ n. done (some n)) z), last)
  ]
  | inr (e, miss) ↦ elim (click_from (i + 1) ws cx cy active (f.1)) [
    | inl (c, none_hit) ↦ inl (rw e c, (miss, none_hit))
    | inr (j, c, last) ↦
        let z : i + 1 + j ≡ i + suc j = omega arith in
        inr (suc j, rw e (c ∙ ap (λ n. done (some n)) z), last)
  ]
]

-- Over windows that are far from the ends of the coordinates, a click activates the last window
-- that is open and contains the cursor, and leaves the active window as it was exactly if there is
-- none.
pub click_lem :
    (ws : List WindowData) (cx cy : ℤ) (active : Option ℕ)
    → AllFit ws
    → ((click 0 ws cx cy active ≡ done active) × NoneHit ws cx cy)
      ⊎ ((j : ℕ) × (click 0 ws cx cy active ≡ done (some j)) × LastHit ws cx cy j)
click_lem ws cx cy active f = elim (click_from 0 ws cx cy active f) [
  | inl h ↦ inl h
  | inr (j, c, last) ↦
      let z : 0 + j ≡ j = omega arith in inr (j, c ∙ ap (λ n. done (some n)) z, last)
]
