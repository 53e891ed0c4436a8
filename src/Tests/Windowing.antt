-- ===== src/Tests/Windowing.antt =====
-- The theorems on apps/src/bin/windowing.rs, with two windows that overlap.
use deravel_os.Prelude.{
  ℕ, ◌≡◌, ◌⊎◌, refl, sym, subst, get_elem?, replicate, List, [], ◌∷◌, none, some, done, arith,
}
use deravel_os.Prelude.Int.{pos, negsuc}
use deravel_os.Memory.{user_capabilities_start}
use deravel_os.Capability.{RawCapability, granted, userspace}
use deravel_os.RingBuffer.{RingBuffer, push}
use deravel_os.Input.{InputEvent, ev_rel, ev_key}
use deravel_os.Apps.Windowing.{
  WindowData, open_, alt, Server, Output, click, observe_mouse, observe_keyboard,
}
use deravel_os.Apps.Windowing.Click.{AllFit, NoneHit, LastHit, click_lem}
use deravel_os.Apps.Windowing.Keep.{IsValid}
use deravel_os.Apps.Windowing.Mouse.{MouseFits, observe_mouse-IsValid}
use deravel_os.Apps.Windowing.Keyboard.{HasRoom, observe_keyboard-IsValid}

abbrev free_ring : RingBuffer InputEvent
free_ring = record { read = 0; written = 0; slots = record { type_ = 0; code = 0; value = 0 } ∷ [] }

abbrev back : WindowData
back = record {
  x = negsuc 9;
  y = pos 0;
  width = 100;
  height = 100;
  status = open_;
  event_ring = some free_ring;
}

abbrev front : WindowData
front = record {
  x = pos 40;
  y = pos 40;
  width = 100;
  height = 100;
  status = open_;
  event_ring = none;
}

abbrev kernel_certificate : RawCapability
kernel_certificate = user_capabilities_start

abbrev desk : Server
desk = record {
  display_width = 4;
  display_height = 3;
  display_framebuffer = record { ptr = replicate 12 0; width = 4; height = 3 };
  windows = back ∷ front ∷ [];
  active_window = some 0;
  cursor_x = pos 2;
  cursor_y = pos 1;
  global_shortcut = alt;
  abs_x_info = record { min = 0; max = 32767 };
  abs_y_info = record { min = 0; max = 32767 };
  fs = kernel_certificate;
  image_viewer = kernel_certificate;
  net = kernel_certificate;
  shutdown = kernel_certificate;
  program = record { pid = 3; capabilities_allocated = 1; certs = λ _ _. granted (userspace 3) };
}

both_fit : AllFit (back ∷ front ∷ [])
both_fit = (
  record {
    x_high = omega arith;
    x_low = omega arith;
    y_high = omega arith;
    y_low = omega arith;
    width_small = omega arith;
    height_small = omega arith;
  },
  (
    record {
      x_high = omega arith;
      x_low = omega arith;
      y_high = omega arith;
      y_low = omega arith;
      width_small = omega arith;
      height_small = omega arith;
    },
    tt,
  ),
)

desk-IsValid : IsValid desk
desk-IsValid = record {
  width_small = omega arith;
  height_small = omega arith;
  x_within = (2, refl, omega arith);
  y_within = (1, refl, omega arith);
  fit = both_fit;
  screen = record { columns = omega arith; wide = refl; high = refl; full = refl };
  active = (back, refl, refl);
}

click_lem_example :
    ((click 0 (back ∷ front ∷ []) (pos 50) (pos 60) (some 0) ≡ done (some 0))
      × NoneHit (back ∷ front ∷ []) (pos 50) (pos 60))
    ⊎ ((j : ℕ) × (click 0 (back ∷ front ∷ []) (pos 50) (pos 60) (some 0) ≡ done (some j))
        × LastHit (back ∷ front ∷ []) (pos 50) (pos 60) j)
click_lem_example = click_lem (back ∷ front ∷ []) (pos 50) (pos 60) (some 0) both_fit

-- 100 to the left, beyond the edge.
abbrev to_the_left : InputEvent
to_the_left = record { type_ = ev_rel; code = 0; value = 0xFFFF_FF9C }

to_the_left_fits : MouseFits desk to_the_left
to_the_left_fits = record {
  moves = λ e. (omega arith, omega arith);
  place_x = λ e. absurd (omega arith);
  place_y = λ e. absurd (omega arith);
}

observe_mouse-IsValid_example :
    (t : Server) × (out : List Output) × (observe_mouse desk to_the_left ≡ done (t, out))
    × IsValid t
    × (t.windows ≡ desk.windows)
observe_mouse-IsValid_example = observe_mouse-IsValid desk desk-IsValid to_the_left to_the_left_fits

-- The key Q, which closes the window.
abbrev press_q : InputEvent
press_q = record { type_ = ev_key; code = 16; value = 1 }

abbrev pushed : RingBuffer InputEvent
pushed = record { read = 0; written = 1; slots = press_q ∷ [] }

desk_room : HasRoom desk press_q
unfolding push
desk_room i w ring a g r =
    let e : 0 ≡ i = cc a in
    let g' : some back ≡ some w = subst (λ k. get_elem? desk.windows k ≡ some w) (sym e) g in
    let q : back ≡ w = cc g' in
    let r' : some free_ring ≡ some ring = subst (λ u. u.event_ring ≡ some ring) (sym q) r in
    let z : free_ring ≡ ring = cc r' in
    subst (λ b. (ring' : RingBuffer InputEvent) × (push b press_q ≡ done ring')) z (pushed, refl)

observe_keyboard-IsValid_example :
    (t : Server) × (out : List Output) × (observe_keyboard kernel_certificate desk press_q
      ≡ done (t, out))
    × IsValid t
observe_keyboard-IsValid_example =
    observe_keyboard-IsValid kernel_certificate desk press_q desk-IsValid desk_room
      (λ e. absurd (omega arith))
