-- ===== src/Apps/Windowing/Keyboard.antt =====
-- What a key does in apps/src/bin/windowing.rs.
use deravel_os.Prelude.{
  ℕ, ◌==◌, ==_iff, ◌^◌, ◌≤◌, ◌<◌, arith, ◌≡◌, refl, ap, sym, ◌∙◌, subst, ◌⊎◌, inl, inr,
  if◌then◌else◌, ◌&&◌, Bool, true, false, List, [], ◌∷◌, get_elem?, set, Option, none, some, done,
  Option-cases,
}
use deravel_os.Prelude.Int.{ℤ, pos, negsuc, ◌+ℤ◌}
use deravel_os.Capability.{RawCapability, kernel}
use deravel_os.Kernel.Grants.{Program}
use deravel_os.Kernel.Grants.Issued.{CanIssue, forward-CanIssue, grant_unhandled-CanIssue}
use deravel_os.Framebuffer.{Framebuffer, bgra}
use deravel_os.Framebuffer.Rects.{fill_rect_lem}
use deravel_os.RingBuffer
use deravel_os.RingBuffer.{RingBuffer}
use deravel_os.Input.{InputEvent, key_esc, key_q, key_t, key_leftalt, ev_key}
use deravel_os.Apps.Windowing.{
  WindowData, closed, Shortcut, not_started, alt, Server, Output, Handled, clamp, as_usize,
  draw_display, shut_down, spawn_terminal, spawn_shell, erase, open_shell, close_active, shortcut,
  deliver_to, observe_keyboard,
}
use deravel_os.Apps.Windowing.Click.{Fits, AllFit, far_edge-done}
use deravel_os.Apps.Windowing.Keep.{ActiveIsOpen, IsScreen, IsValid, as_i32_small, clamp-IsUpTo}
use deravel_os.Apps.Windowing.Windows.{AllFit-get, AllFit-set, get-set}

-- What a shortcut does to the active window: nothing, or there is none afterwards.
abbrev Steers : Server → Handled → Type 0
Steers s call =
    (t : Server) × (out : List Output) × (call ≡ done (t, out))
    × IsValid t
    × (((t.windows ≡ s.windows) × (t.active_window ≡ s.active_window)) ⊎ (t.active_window ≡ none))

-- The ring of the active window, if it has one, takes the event.
abbrev pub HasRoom : Server → InputEvent → Type 0
HasRoom s e =
    (i : ℕ) (w : WindowData) (ring : RingBuffer InputEvent)
    → s.active_window ≡ some i
    → get_elem? s.windows i ≡ some w
    → w.event_ring ≡ some ring
    → (ring' : RingBuffer InputEvent) × (RingBuffer.push ring e ≡ done ring')

clamp_le : (a : ℤ) (limit : ℕ) → limit < 2 ^ 30 → as_usize (clamp a limit) ≤ limit
clamp_le a limit small = let (n, e, le) = clamp-IsUpTo a limit small in rw e le

clamp_mono :
    (a : ℤ) (w limit : ℕ)
    → limit < 2 ^ 30
    → as_usize (clamp a limit) ≤ as_usize (clamp (a +ℤ pos w) limit)
clamp_mono (pos n) w limit small = rw (as_i32_small limit (omega (arith, small))) (ground arith)
clamp_mono (negsuc n) w limit small =
    let zero_low : as_usize (clamp (negsuc n) limit) ≡ 0 =
      rw (as_i32_small limit (omega (arith, small))) (ground arith) in
    rw zero_low (omega arith)

both_true : (a b : Bool) → (a && b) ≡ true → a ≡ true
both_true true b h = refl
both_true false b h = cc h

module _ (s : Server) (v : IsValid s) where
  with_shortcut : (c : Shortcut) → IsValid (record s { global_shortcut = c })
  with_shortcut c = record {
    width_small = v.width_small;
    height_small = v.height_small;
    screen = v.screen;
    x_within = v.x_within;
    y_within = v.y_within;
    fit = v.fit;
    active = v.active;
  }

  deactivated :
      (ws : List WindowData) (c : Shortcut) (f : Framebuffer) (g : Program)
      → AllFit ws
      → IsScreen f s.display_width s.display_height
      → IsValid (record s {
        windows = ws;
        active_window = none;
        global_shortcut = c;
        display_framebuffer = f;
        program = g;
      })
  deactivated ws c f g h sc = record {
    width_small = v.width_small;
    height_small = v.height_small;
    x_within = v.x_within;
    y_within = v.y_within;
    fit = h;
    screen = sc;
    active = tt;
  }

  stay : (out : List Output) → Steers s (done (s, out))
  stay out = (s, out, refl, v, inl (refl, refl))

  become : (c : Shortcut) → Steers s (done (record s { global_shortcut = c }, []))
  become c = (record s { global_shortcut = c }, [], refl, with_shortcut c, inl (refl, refl))

  erased :
      (w : WindowData)
      → (f : Framebuffer) × (erase s w.x w.y (w.x +ℤ pos w.width) (w.y +ℤ pos w.height) ≡ done f)
        × IsScreen f s.display_width s.display_height
  unfolding erase
  erased w =
      let c = v.screen in
      let (x, _, hx) = clamp-IsUpTo (w.x +ℤ pos w.width) s.display_width v.width_small in
      let fb = s.display_framebuffer in
      let (ptr, e, l) =
        fill_rect_lem fb (as_usize (clamp w.x s.display_width))
          (as_usize (clamp w.y s.display_height))
          (as_usize (clamp (w.x +ℤ pos w.width) s.display_width))
          (as_usize (clamp (w.y +ℤ pos w.height) s.display_height)) (bgra 191 215 234 255) c.full
          (rw c.wide c.columns) (clamp_mono w.x w.width s.display_width v.width_small)
          (rw c.wide (clamp_le (w.x +ℤ pos w.width) s.display_width v.width_small))
          (clamp_mono w.y w.height s.display_height v.height_small)
          (rw c.high (clamp_le (w.y +ℤ pos w.height) s.display_height v.height_small)) in
      (
        record fb { ptr = ptr },
        e,
        record { columns = c.columns; wide = c.wide; high = c.high; full = l },
      )

  closing :
      (a : Option ℕ) → s.active_window ≡ a → ActiveIsOpen a s.windows → Steers s (close_active s)
  unfolding close_active
  closing none e h = rw (e, close_active) (s, [], refl, v, inr e)
  closing (some i) e h =
      let (w, g, o) = h in
      let f = AllFit-get s.windows i w v.fit g in
      let r = far_edge-done w.x w.width f.x_high f.x_low f.width_small in
      let b = far_edge-done w.y w.height f.y_high f.y_low f.height_small in
      let (fb, p, sc) = erased w in
      let w' : WindowData = record w { status = closed } in
      (
        record s { display_framebuffer = fb; windows = set s.windows i w'; active_window = none },
        draw_display ∷ [],
        rw (e, g, r, b, p, close_active) refl,
        deactivated (set s.windows i w') s.global_shortcut fb s.program
            (AllFit-set s.windows i w' v.fit (record {
              x_high = f.x_high;
              x_low = f.x_low;
              y_high = f.y_high;
              y_low = f.y_low;
              width_small = f.width_small;
              height_small = f.height_small;
            }))
            sc,
        inr refl,
      )

  opening : (terminal : RawCapability) → CanIssue 7 s.program → Steers s (open_shell terminal s)
  unfolding open_shell
  opening terminal c =
      let (p1, keys, e1, c1) = grant_unhandled-CanIssue 6 s.program kernel c in
      let (p2, term, e2, c2) = forward-CanIssue 5 p1 terminal kernel c1 in
      let (p3, fs, e3, c3) = forward-CanIssue 4 p2 s.fs kernel c2 in
      let (p4, viewer, e4, c4) = forward-CanIssue 3 p3 s.image_viewer kernel c3 in
      let (p5, windowing, e5, c5) = grant_unhandled-CanIssue 2 p4 kernel c4 in
      let (p6, net, e6, c6) = forward-CanIssue 1 p5 s.net kernel c5 in
      let (p7, off, e7, c7) = forward-CanIssue 0 p6 s.shutdown kernel c6 in
      (
        record s { program = p7; active_window = none; global_shortcut = not_started },
        spawn_terminal keys ∷ spawn_shell term fs viewer windowing net off ∷ [],
        rw (e1, e2, e3, e4, e5, e6, e7) refl,
        deactivated s.windows not_started s.display_framebuffer p7 v.fit v.screen,
        inr refl,
      )

  either-Steers :
      (test : Bool) (call : Handled) (rest : Handled)
      → (test ≡ true → Steers s call)
      → Steers s rest
      → Steers s (if test then call else rest)
  either-Steers true call rest a b = a refl
  either-Steers false call rest a b = b

  shortcut-Steers :
      (terminal : RawCapability) (c : Shortcut) (code value : ℕ)
      → (code ≡ key_t → CanIssue 7 s.program)
      → Steers s (shortcut terminal c code value s)
  unfolding shortcut
  shortcut-Steers terminal not_started code value free =
      either-Steers (code == key_leftalt && value == 1) _ _ (λ _. become alt) (stay [])
  shortcut-Steers terminal alt code value free =
      either-Steers (code == key_esc && value == 1) _ _ (λ _. stay (shut_down ∷ []))
        (either-Steers (code == key_t && value == 1) _ _
          (λ h. opening terminal (free ((==_iff code key_t).0 (both_true _ _ h))))
          (either-Steers (code == key_q && value == 1) _ _
            (λ _. closing s.active_window refl v.active)
            (either-Steers (code == key_leftalt && value == 0) _ _ (λ _. become not_started)
              (either-Steers (value == 1) _ _ (λ _. become not_started) (stay [])))))

  delivered :
      (e : InputEvent) (a : Option ℕ)
      → HasRoom s e
      → s.active_window ≡ a
      → ActiveIsOpen a s.windows
      → (t : Server) × (deliver_to a s e ≡ done t) × IsValid t
  unfolding deliver_to
  delivered e none room q h = (s, refl, v)
  delivered e (some i) room q h =
      let (w, g, o) = h in
      elim (Option-cases w.event_ring) [
        | inl n ↦ (s, rw (g, n) refl, v)
        | inr (ring, r) ↦
            let (ring', p) = room i w ring q g r in
            let f = AllFit-get s.windows i w v.fit g in
            let w' : WindowData = record w { event_ring = some ring' } in
            let f' : Fits w' = record {
              x_high = f.x_high;
              x_low = f.x_low;
              y_high = f.y_high;
              y_low = f.y_low;
              width_small = f.width_small;
              height_small = f.height_small;
            } in
            (
              record s { windows = set s.windows i w' },
              rw (g, r, p) refl,
              record {
                width_small = v.width_small;
                height_small = v.height_small;
                screen = v.screen;
                x_within = v.x_within;
                y_within = v.y_within;
                fit = AllFit-set s.windows i w' v.fit f';
                active =
                    subst (λ a. ActiveIsOpen a (set s.windows i w')) (sym q)
                      (w', get-set s.windows i w w' g, o);
              },
            )
      ]

-- A shortcut leaves the room, or takes the window away that would need it.
HasRoom-Steers :
    (s t : Server) (e : InputEvent)
    → HasRoom s e
    → ((t.windows ≡ s.windows) × (t.active_window ≡ s.active_window)) ⊎ (t.active_window ≡ none)
    → HasRoom t e
HasRoom-Steers s t e room (inl (ws, a)) i w ring q g r =
    room i w ring (sym a ∙ q) (ap (λ l. get_elem? l i) (sym ws) ∙ g) r
HasRoom-Steers s t e room (inr n) i w ring q g r = absurd (cc (sym n ∙ q))

-- In a valid windowing server, an event of the keyboard is handled without a panic, the shortcuts
-- that close a window and open a shell included, if the ring of the active window takes it and,
-- should the key be T, the server is a process with seven free certificates; it leaves a valid
-- server: the coordinates of the cursor are from 0 to the width and the height of the display, both
-- included, the framebuffer has the display's size, and the active window is one that is open.
pub observe_keyboard-IsValid :
    (terminal : RawCapability) (s : Server) (e : InputEvent)
    → IsValid s
    → HasRoom s e
    → (e.code ≡ key_t → CanIssue 7 s.program)
    → (t : Server) × (out : List Output) × (observe_keyboard terminal s e ≡ done (t, out))
      × IsValid t
unfolding observe_keyboard
observe_keyboard-IsValid terminal s e v room free =
    let (u, out, c, k, st) =
      either-Steers s v (e.type_ == ev_key) _ _
        (λ _. shortcut-Steers s v terminal s.global_shortcut e.code e.value free) (stay s v []) in
    let (t, d, k') = delivered u k e u.active_window (HasRoom-Steers s u e room st) refl k.active in
    (t, out, rw (c, d) refl, k')
