-- ===== src/Apps/Windowing/Keep.antt =====
-- What the handlers of apps/src/bin/windowing.rs keep.
use deravel_os.Prelude.{
  ℕ, zero, suc, ◌+◌, ◌-◌, ◌*◌, ◌/◌, ◌^◌, ◌≤◌, ◌<◌, ◌≡◌, refl, ap, sym, subst, inl, inr, List, [],
  ◌∷◌, get_elem?, Option, none, some, done, lt_cases, le→leb, lt→ltb, arith,
}
use deravel_os.Prelude.Int.{ℤ, pos, negsuc, pos_part, neg_part, ◌+ℤ◌, checked_i32, as_i32}
use native.Mathlib.Nat.{div-le_of_le-mul, mul-le-mul_right}
use deravel_os.Framebuffer.{Framebuffer}
use deravel_os.Framebuffer.Pixels.{IsFull}
use deravel_os.Input.{InputAbsinfo}
use deravel_os.Apps.Windowing.{WindowData, open_, Server, clamp, from_abs}
use deravel_os.Apps.Windowing.Click.{AllFit, LastHit}

-- A coordinate from 0 to the limit, which itself is allowed.
abbrev pub IsUpTo : ℤ → ℕ → Type 0
IsUpTo a limit = (n : ℕ) × (a ≡ pos n) × (n ≤ limit)

-- The active window is there, and open.
abbrev pub ActiveIsOpen : Option ℕ → List WindowData → Type 0
ActiveIsOpen none ws = Unit
ActiveIsOpen (some i) ws = (w : WindowData) × (get_elem? ws i ≡ some w) × (w.status ≡ open_)

-- The framebuffer of the display has its size, which is not empty, and a pixel for each place.
pub record IsScreen (f : Framebuffer) (width height : ℕ) : Type 0 where
  pub columns : 0 < width
  pub wide : f.width ≡ width
  pub high : f.height ≡ height
  pub full : IsFull f

pub record IsValid (s : Server) : Type 0 where
  pub width_small : s.display_width < 2 ^ 30
  pub height_small : s.display_height < 2 ^ 30
  pub x_within : IsUpTo s.cursor_x s.display_width
  pub y_within : IsUpTo s.cursor_y s.display_height
  pub fit : AllFit s.windows
  pub screen : IsScreen s.display_framebuffer s.display_width s.display_height
  pub active : ActiveIsOpen s.active_window s.windows

pub as_i32_small : (n : ℕ) → n < 2 ^ 31 → as_i32 n ≡ pos n
as_i32_small n h = ground arith

pub clamp-IsUpTo : (a : ℤ) (limit : ℕ) → limit < 2 ^ 30 → IsUpTo (clamp a limit) limit
clamp-IsUpTo (pos n) limit h = elim (lt_cases n limit) [
  | inl lt ↦ (n, rw (as_i32_small limit (omega arith)) (ground arith), omega arith)
  | inr ge ↦ (limit, rw (as_i32_small limit (omega arith)) (ground arith), omega arith)
]
clamp-IsUpTo (negsuc n) limit h =
    (0, rw (as_i32_small limit (omega arith)) (ground arith), omega arith)

pub from_abs-IsUpTo :
    (value : ℕ) (info : InputAbsinfo) (res : ℕ)
    → info.min ≤ value
    → value ≤ info.max
    → info.min < info.max
    → res < 2 ^ 30
    → (a : ℤ) × (from_abs value info res ≡ done a) × IsUpTo a res
unfolding from_abs
from_abs-IsUpTo value info res lo hi lt small =
    let r = info.max - info.min in
    let m : (value - info.min) * res ≤ r * res = mul-le-mul_right res (omega arith) in
    let le : (value - info.min) * res / r ≤ res = div-le_of_le-mul r m in
    (
      pos ((value - info.min) * res / r),
      rw
          (
            le→leb info.min value lo,
            le→leb info.min info.max (omega arith),
            lt→ltb 0 r (omega arith),
          )
          (ap done (as_i32_small ((value - info.min) * res / r) (omega (arith, le)))),
      ((value - info.min) * res / r, refl, le),
    )

pub checked_small : (a : ℤ) → pos_part a < 2 ^ 31 → neg_part a ≤ 2 ^ 31 → checked_i32 a ≡ done a
checked_small a h l = rw (lt→ltb (pos_part a) (2 ^ 31) h, le→leb (neg_part a) (2 ^ 31) l) refl

pub sum_parts :
    (n : ℕ) (d : ℤ)
    → (pos_part (pos n +ℤ d) ≤ n + pos_part d) × (neg_part (pos n +ℤ d) ≤ neg_part d)
sum_parts n d = ground arith

pub moved :
    (a : ℤ) (limit : ℕ) (d : ℤ)
    → IsUpTo a limit
    → limit < 2 ^ 30
    → pos_part d ≤ 2 ^ 30
    → neg_part d ≤ 2 ^ 30
    → checked_i32 (a +ℤ d) ≡ done (a +ℤ d)
moved a limit d (n, e, le) small h l =
    subst (λ x. checked_i32 (x +ℤ d) ≡ done (x +ℤ d)) (sym e)
      (checked_small (pos n +ℤ d) (omega (arith, sum_parts n d)) (omega (arith, sum_parts n d)))

pub LastHit-open :
    (ws : List WindowData) (cx cy : ℤ) (j : ℕ) → LastHit ws cx cy j → ActiveIsOpen (some j) ws
LastHit-open [] cx cy j h = absurd h
LastHit-open (w ∷ ws) cx cy zero h = (w, refl, h.0.visible)
LastHit-open (w ∷ ws) cx cy (suc j) h = LastHit-open ws cx cy j h
