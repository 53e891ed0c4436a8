-- ===== src/Apps/Windowing.antt =====
-- apps/src/bin/windowing.rs: the windows, the cursor and the shortcuts. The calls of other processes,
-- and the copying of windows to the display, are recorded as outputs.
pub mod Click
pub mod Keep
pub mod Keyboard
pub mod Mouse
pub mod Windows
use deravel_os.Prelude.{
  ℕ, zero, suc, ◌+◌, ◌-◌, ◌*◌, ◌/◌, ◌^◌, ◌==◌, if◌then◌else◌, ◌&&◌, Bool, true, false, List, [],
  ◌∷◌, ◌++◌, length, get_elem?, set, Option, none, some, Exec, done, panic, ◌>>=◌, unwrap, ltb, leb,
  sub_usize, div_checked,
}
use deravel_os.Prelude.Int.{
  ℤ, pos, negsuc, ◌+ℤ◌, ◌-ℤ◌, leb_ℤ, ltb_ℤ, max_ℤ, min_ℤ, half, checked_i32, as_i32, as_u32,
}
use deravel_os.Input.{
  InputEvent, InputAbsinfo, ev_syn, ev_key, ev_rel, ev_abs, key_esc, key_q, key_t, key_leftalt,
  btn_left,
}
use deravel_os.Capability.{Actor, RawCapability, kernel}
use deravel_os.Kernel.Grants.{Program, grant_unhandled, forward}
use deravel_os.Framebuffer.{Framebuffer, bgra, fill_rect}
use deravel_os.RingBuffer
use deravel_os.RingBuffer.{RingBuffer}

-- The size of an `InputEvent`.
abbrev event_size : ℕ
event_size = 8

pub data Shortcut : Type 0 where
  not_started : Shortcut
  alt : Shortcut

pub data WindowStatus : Type 0 where
  open_ : WindowStatus
  closed : WindowStatus

-- The framebuffer of a window and its memory are left out.
pub record WindowData : Type 0 where
  pub x : ℤ
  pub y : ℤ
  pub width : ℕ
  pub height : ℕ
  pub status : WindowStatus
  pub event_ring : Option (RingBuffer InputEvent)

-- The capabilities that are only called are left out.
pub record Server : Type 0 where
  pub display_width : ℕ
  pub display_height : ℕ
  pub display_framebuffer : Framebuffer
  pub windows : List WindowData
  pub active_window : Option ℕ
  pub cursor_x : ℤ
  pub cursor_y : ℤ
  pub global_shortcut : Shortcut
  pub abs_x_info : InputAbsinfo
  pub abs_y_info : InputAbsinfo
  pub fs : RawCapability
  pub image_viewer : RawCapability
  pub net : RawCapability
  pub shutdown : RawCapability
  pub program : Program

pub data Output : Type 0 where
  copy_window : ℕ → Output
  draw_display : Output
  update_cursor : ℕ → ℕ → Output
  answer_window : RawCapability → Output
  answer_ring : RawCapability → ℕ → Output
  shut_down : Output
  spawn_terminal : RawCapability → Output
  spawn_shell :
      RawCapability
      → RawCapability
      → RawCapability
      → RawCapability
      → RawCapability
      → RawCapability
      → Output

abbrev pub Handled : Type 0
Handled = Exec (Server × List Output)

abbrev pub is_open : WindowStatus → Bool
is_open open_ = true
is_open closed = false

-- `window.x + window.width as i32`, for either direction.
abbrev pub far_edge : ℤ → ℕ → Exec ℤ
far_edge from size = checked_i32 (from +ℤ as_i32 size)

-- A new window is in the middle of the cursor, and active; whoever asked for it is granted a
-- capability of it. The memory of its framebuffer is left out, as are the handlers that are kept for
-- granted capabilities.
unfoldable pub create_window : Actor → Server → ℕ → ℕ → Handled
create_window sender s width height = do
  x ← checked_i32 (s.cursor_x -ℤ half (as_i32 width))
  y ← checked_i32 (s.cursor_y -ℤ half (as_i32 height))
  (program, cap) ← grant_unhandled s.program sender
  let w : WindowData = record {
    x = x;
    y = y;
    width = width;
    height = height;
    status = open_;
    event_ring = none;
  }
  done (
    record s {
      windows = s.windows ++ w ∷ [];
      active_window = some (length s.windows);
      program = program;
    },
    answer_window cap ∷ [],
  )

draw_window : Server → ℕ → Exec (List Output)
draw_window s window_id = do
  w ← unwrap (get_elem? s.windows window_id)
  done (copy_window window_id ∷ [])

-- The window, and the active one above it.
unfoldable pub draw : Server → ℕ → Handled
unfolding draw_window
draw s window_id = do
  first ← draw_window s window_id
  above ← elim s.active_window [
    | none ↦ done []
    | some active ↦ if active == window_id then done [] else draw_window s active
  ]
  done (s, first ++ above ++ draw_display ∷ [])

-- `ring` is the new ring, in the shared memory that `memory` stands for and that is forwarded to the
-- window's owner.
unfoldable pub events : Actor → Server → ℕ → RingBuffer InputEvent → RawCapability → Handled
events sender s window_id ring memory = do
  w ← unwrap (get_elem? s.windows window_id)
  (program, cap) ← forward s.program memory sender
  done (
    record s {
      windows = set s.windows window_id (record w { event_ring = some ring });
      program = program;
    },
    answer_ring cap (length ring.slots * event_size) ∷ [],
  )

-- `.max(0).min(limit as i32)`
abbrev pub clamp : ℤ → ℕ → ℤ
clamp a limit = min_ℤ (max_ℤ a (pos 0)) (as_i32 limit)

-- `as usize`
abbrev pub as_usize : ℤ → ℕ
as_usize (pos n) = n
as_usize (negsuc n) = 2 ^ 64 - 1 - n

-- The part of the display that a window covers is painted over, from `x` and `y` to `right` and
-- `bottom`.
unfoldable pub erase : Server → ℤ → ℤ → ℤ → ℤ → Exec Framebuffer
erase s x y right bottom =
    fill_rect s.display_framebuffer (as_usize (clamp x s.display_width))
      (as_usize (clamp y s.display_height)) (as_usize (clamp right s.display_width))
      (as_usize (clamp bottom s.display_height)) (bgra 191 215 234 255)

unfoldable pub close_active : Server → Handled
close_active s = elim s.active_window [
  | none ↦ done (s, [])
  | some window_id ↦ do
    w ← unwrap (get_elem? s.windows window_id)
    right ← far_edge w.x w.width
    bottom ← far_edge w.y w.height
    framebuffer ← erase s w.x w.y right bottom
    done (
      record s {
        display_framebuffer = framebuffer;
        windows = set s.windows window_id (record w { status = closed });
        active_window = none;
      },
      draw_display ∷ [],
    )
]

-- A terminal and a shell are spawned; `terminal` is what the spawner of terminals answers. Every
-- capability that is handed over takes a certificate; the handlers that are kept for granted ones
-- are left out.
unfoldable pub open_shell : RawCapability → Server → Handled
open_shell terminal s = do
  (p1, keys) ← grant_unhandled s.program kernel
  (p2, term) ← forward p1 terminal kernel
  (p3, fs) ← forward p2 s.fs kernel
  (p4, image_viewer) ← forward p3 s.image_viewer kernel
  (p5, windowing) ← grant_unhandled p4 kernel
  (p6, net) ← forward p5 s.net kernel
  (p7, shutdown) ← forward p6 s.shutdown kernel
  done (
    record s { program = p7; active_window = none; global_shortcut = not_started },
    spawn_terminal keys ∷ spawn_shell term fs image_viewer windowing net shutdown ∷ [],
  )

-- The key events that the shortcuts react to.
unfoldable pub shortcut : RawCapability → Shortcut → ℕ → ℕ → Server → Handled
shortcut terminal not_started code value s =
    if code == key_leftalt && value == 1
    then done (record s { global_shortcut = alt }, [])
    else done (s, [])
shortcut terminal alt code value s =
    if code == key_esc && value == 1
    then done (s, shut_down ∷ [])
    else if code == key_t && value == 1
    then open_shell terminal s
    else if code == key_q && value == 1
    then close_active s
    else if code == key_leftalt && value == 0
    then done (record s { global_shortcut = not_started }, [])
    else if value == 1
    then done (record s { global_shortcut = not_started }, [])
    else done (s, [])

unfoldable pub deliver_to : Option ℕ → Server → InputEvent → Exec Server
deliver_to none s event = done s
deliver_to (some window_id) s event = do
  w ← unwrap (get_elem? s.windows window_id)
  elim w.event_ring [
    | none ↦ done s
    | some ring ↦ do
      ring' ← RingBuffer.push ring event
      done (record s { windows = set s.windows window_id (record w { event_ring = some ring' }) })
  ]

-- The active window gets every event, those of shortcuts too.
unfoldable pub deliver : Server → InputEvent → Exec Server
unfolding deliver_to
deliver s event = deliver_to s.active_window s event

unfoldable pub observe_keyboard : RawCapability → Server → InputEvent → Handled
unfolding shortcut deliver
observe_keyboard terminal s event = do
  r ←
      if event.type_ == ev_key
      then shortcut terminal s.global_shortcut event.code event.value s
      else done (s, [])
  s' ← deliver r.0 event
  done (s', r.1)

-- `c >= from && c < from + size as i32`
unfoldable pub within : ℤ → ℤ → ℕ → Exec Bool
within c from size =
    if leb_ℤ from c then (do far ← far_edge from size; done (ltb_ℤ c far)) else done false

-- The comparisons of the hit test, from left to right.
unfoldable pub hit : WindowData → ℤ → ℤ → Exec Bool
unfolding within
hit w cx cy = do
  column ← within cx w.x w.width
  if column then (do row ← within cy w.y w.height; done (row && is_open w.status)) else done false

-- The loop over the windows from the `i`-th on.
unfoldable pub click : ℕ → List WindowData → ℤ → ℤ → Option ℕ → Exec (Option ℕ)
unfolding hit
click i [] cx cy active = done active
click i (w ∷ ws) cx cy active = do
  inside ← hit w cx cy
  click (i + 1) ws cx cy (if inside then some i else active)

unfoldable pub from_abs : ℕ → InputAbsinfo → ℕ → Exec ℤ
from_abs value info res = do
  offset ← sub_usize value info.min
  range ← sub_usize info.max info.min
  place ← div_checked (offset * res) range
  done (as_i32 place)

unfoldable pub observe_mouse : Server → InputEvent → Handled
unfolding click from_abs
observe_mouse s event =
    if event.type_ == ev_key
    then if event.code == btn_left && event.value == 1
      then (do
        active ← click 0 s.windows s.cursor_x s.cursor_y s.active_window
        done (record s { active_window = active }, []))
      else done (s, [])
    else if event.type_ == ev_rel
    then if event.code == 0
      then (do
        x ← checked_i32 (s.cursor_x +ℤ as_i32 event.value)
        done (record s { cursor_x = clamp x s.display_width }, []))
      else if event.code == 1
      then (do
        y ← checked_i32 (s.cursor_y +ℤ as_i32 event.value)
        done (record s { cursor_y = clamp y s.display_height }, []))
      else done (s, [])
    else if event.type_ == ev_abs
    then if event.code == 0
      then (do
        x ← from_abs event.value s.abs_x_info s.display_width
        done (record s { cursor_x = x }, []))
      else if event.code == 1
      then (do
        y ← from_abs event.value s.abs_y_info s.display_height
        done (record s { cursor_y = y }, []))
      else done (s, [])
    else if event.type_ == ev_syn
    then done (s, update_cursor (as_u32 s.cursor_x) (as_u32 s.cursor_y) ∷ [])
    else done (s, [])
