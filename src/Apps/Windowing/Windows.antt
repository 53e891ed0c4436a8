-- ===== src/Apps/Windowing/Windows.antt =====
-- Lists of windows of apps/src/bin/windowing.rs, and what a new one changes.
use deravel_os.Prelude.{
  ℕ, zero, suc, ◌/◌, ◌^◌, ◌≤◌, ◌<◌, ◌≡◌, refl, ap, sym, ◌∙◌, subst, List, [], ◌∷◌, ◌++◌, length,
  get_elem?, set, none, some, done, arith,
}
use deravel_os.Prelude.Int.{ℤ, pos, pos_part, neg_part, ◌-ℤ◌, checked_i32, as_i32, half}
use deravel_os.Capability.{Actor}
use deravel_os.Kernel.Grants.Issued.{CanIssue, grant_unhandled-CanIssue}
use deravel_os.Apps.Windowing.{WindowData, open_, Server, Output, answer_window, create_window}
use deravel_os.Apps.Windowing.Click.{Fits, AllFit}
use deravel_os.Apps.Windowing.Keep.{IsValid, as_i32_small, checked_small}

pub AllFit-get :
    (ws : List WindowData) (i : ℕ) (w : WindowData) → AllFit ws → get_elem? ws i ≡ some w → Fits w
AllFit-get [] i w h e = absurd (cc e)
AllFit-get (u ∷ ws) zero w h e = let q : u ≡ w = cc e in subst Fits q (h.0)
AllFit-get (u ∷ ws) (suc i) w h e = AllFit-get ws i w (h.1) e

pub AllFit-set :
    (ws : List WindowData) (i : ℕ) (w : WindowData) → AllFit ws → Fits w → AllFit (set ws i w)
AllFit-set [] i w h f = tt
AllFit-set (u ∷ ws) zero w h f = (f, h.1)
AllFit-set (u ∷ ws) (suc i) w h f = (h.0, AllFit-set ws i w (h.1) f)

pub AllFit-snoc :
    (ws : List WindowData) (w : WindowData) → AllFit ws → Fits w → AllFit (ws ++ w ∷ [])
AllFit-snoc [] w h f = (f, tt)
AllFit-snoc (u ∷ ws) w h f = (h.0, AllFit-snoc ws w (h.1) f)

pub get-set :
    (ws : List WindowData) (i : ℕ) (w v : WindowData)
    → get_elem? ws i ≡ some w
    → get_elem? (set ws i v) i ≡ some v
get-set [] i w v e = absurd (cc e)
get-set (u ∷ ws) zero w v e = refl
get-set (u ∷ ws) (suc i) w v e = get-set ws i w v e

pub get-snoc :
    (ws : List WindowData) (w : WindowData) → get_elem? (ws ++ w ∷ []) (length ws) ≡ some w
get-snoc [] w = refl
get-snoc (u ∷ ws) w = get-snoc ws w

parts : (n h : ℕ) → (pos_part (pos n -ℤ pos h) ≤ n) × (neg_part (pos n -ℤ pos h) ≤ h)
parts n h = ground arith

half_small : (w : ℕ) → w < 2 ^ 30 → half (as_i32 w) ≡ pos (w / 2)
half_small w h =
    let e : half (pos w) ≡ pos (w / 2) = ground arith in ap half (as_i32_small w (omega arith)) ∙ e

difference :
    (n w : ℕ)
    → n < 2 ^ 30
    → w < 2 ^ 30
    → (x : ℤ) × (checked_i32 (pos n -ℤ half (as_i32 w)) ≡ done x)
      × (pos_part x ≤ 2 ^ 30)
      × (neg_part x ≤ 2 ^ 30)
difference n w hn hw =
    let x = pos n -ℤ pos (w / 2) in
    let b : (pos_part x ≤ n) × (neg_part x ≤ w / 2) = parts n (w / 2) in
    (
      x,
      subst (λ h. checked_i32 (pos n -ℤ h) ≡ done x) (sym (half_small w hw))
          (checked_small x (omega (arith, b.0)) (omega (arith, b.1))),
      omega (arith, b.0),
      omega (arith, b.1),
    )

-- A new window of less than 2^30 pixels either way becomes the active one, behind all others, if a
-- certificate is free.
pub create_window-IsValid :
    (sender : Actor) (s : Server) (width height : ℕ)
    → IsValid s
    → CanIssue 1 s.program
    → width < 2 ^ 30
    → height < 2 ^ 30
    → (t : Server) × (out : List Output) × (create_window sender s width height ≡ done (t, out))
      × IsValid t
      × (t.active_window ≡ some (length s.windows))
unfolding create_window
create_window-IsValid sender s width height v free hw hh =
    let (n, ex, ln) = v.x_within in
    let (m, ey, lm) = v.y_within in
    let (x, cx, px, nx) = difference n width (omega (arith, v.width_small)) hw in
    let (y, cy, py, ny) = difference m height (omega (arith, v.height_small)) hh in
    let (g, cap, eg, _) = grant_unhandled-CanIssue 0 s.program sender free in
    let fx = ap (λ c. checked_i32 (c -ℤ half (as_i32 width))) ex ∙ cx in
    let fy = ap (λ c. checked_i32 (c -ℤ half (as_i32 height))) ey ∙ cy in
    let w : WindowData = record {
      x = x;
      y = y;
      width = width;
      height = height;
      status = open_;
      event_ring = none;
    } in
    let f : Fits w = record {
      x_high = px;
      x_low = nx;
      y_high = py;
      y_low = ny;
      width_small = hw;
      height_small = hh;
    } in
    (
      record s {
        windows = s.windows ++ w ∷ [];
        active_window = some (length s.windows);
        program = g;
      },
      answer_window cap ∷ [],
      rw (fx, fy, eg) refl,
      record {
        width_small = v.width_small;
        height_small = v.height_small;
        screen = v.screen;
        x_within = v.x_within;
        y_within = v.y_within;
        fit = AllFit-snoc s.windows w v.fit f;
        active = (w, get-snoc s.windows w, refl);
      },
      refl,
    )
