-- ===== src/Apps/Windowing/Mouse.antt =====
-- What an event of the mouse does in apps/src/bin/windowing.rs.
use deravel_os.Prelude.{
  ℕ, ◌^◌, ◌≤◌, ◌<◌, ◌==◌, ◌≡◌, refl, ap, inl, inr, if◌then◌else◌, ◌&&◌, Bool, true, false, List, [],
  Option, some, done, ◌>>=◌, Bool-cases, ==_iff,
}
use deravel_os.Prelude.Int.{ℤ, pos_part, neg_part, ◌+ℤ◌, checked_i32, as_i32}
use deravel_os.Input.{InputEvent, ev_key, ev_rel, ev_abs, ev_syn, btn_left}
use deravel_os.Apps.Windowing.{Server, Output, Handled, clamp, click, from_abs, observe_mouse}
use deravel_os.Apps.Windowing.Click.{click_lem}
use deravel_os.Apps.Windowing.Keep.{
  IsUpTo, ActiveIsOpen, IsValid, clamp-IsUpTo, from_abs-IsUpTo, moved, LastHit-open,
}

-- What is expected of an event of the mouse: movements of less than 2^30, and positions in the
-- range that the device has told.
pub record MouseFits (s : Server) (e : InputEvent) : Type 0 where
  pub moves :
      e.type_ ≡ ev_rel → (pos_part (as_i32 e.value) ≤ 2 ^ 30) × (neg_part (as_i32 e.value) ≤ 2 ^ 30)
  pub place_x :
      e.type_ ≡ ev_abs
      → e.code ≡ 0
      → (s.abs_x_info.min ≤ e.value)
        × (e.value ≤ s.abs_x_info.max)
        × (s.abs_x_info.min < s.abs_x_info.max)
  pub place_y :
      e.type_ ≡ ev_abs
      → e.code ≡ 1
      → (s.abs_y_info.min ≤ e.value)
        × (e.value ≤ s.abs_y_info.max)
        × (s.abs_y_info.min < s.abs_y_info.max)

-- A handler returns, in a valid state that has the same windows.
abbrev pub Keeps : Server → Handled → Type 0
Keeps s call =
    (t : Server) × (out : List Output) × (call ≡ done (t, out))
    × IsValid t
    × (t.windows ≡ s.windows)

at_x :
    (s : Server) (a : ℤ)
    → IsValid s
    → IsUpTo a s.display_width
    → IsValid (record s { cursor_x = a })
at_x s a v h = record {
  width_small = v.width_small;
  height_small = v.height_small;
  screen = v.screen;
  x_within = h;
  y_within = v.y_within;
  fit = v.fit;
  active = v.active;
}

at_y :
    (s : Server) (a : ℤ)
    → IsValid s
    → IsUpTo a s.display_height
    → IsValid (record s { cursor_y = a })
at_y s a v h = record {
  width_small = v.width_small;
  height_small = v.height_small;
  screen = v.screen;
  x_within = v.x_within;
  y_within = h;
  fit = v.fit;
  active = v.active;
}

activated :
    (s : Server) (a : Option ℕ)
    → IsValid s
    → ActiveIsOpen a s.windows
    → IsValid (record s { active_window = a })
activated s a v h = record {
  width_small = v.width_small;
  height_small = v.height_small;
  screen = v.screen;
  x_within = v.x_within;
  y_within = v.y_within;
  fit = v.fit;
  active = h;
}

module _ (s : Server) (v : IsValid s) where
  click-Keeps : Keeps s (do
    active ← click 0 s.windows s.cursor_x s.cursor_y s.active_window
    done (record s { active_window = active }, []))
  click-Keeps = elim (click_lem s.windows s.cursor_x s.cursor_y s.active_window v.fit) [
    | inl (e, miss) ↦ (
      record s { active_window = s.active_window },
      [],
      rw e refl,
      activated s s.active_window v v.active,
      refl,
    )
    | inr (j, e, h) ↦ (
      record s { active_window = some j },
      [],
      rw e refl,
      activated s (some j) v (LastHit-open s.windows s.cursor_x s.cursor_y j h),
      refl,
    )
  ]

  rel_x-Keeps :
      (value : ℕ)
      → (pos_part (as_i32 value) ≤ 2 ^ 30) × (neg_part (as_i32 value) ≤ 2 ^ 30)
      → Keeps s (do
        x ← checked_i32 (s.cursor_x +ℤ as_i32 value)
        done (record s { cursor_x = clamp x s.display_width }, []))
  rel_x-Keeps value h =
      let m =
        moved s.cursor_x s.display_width (as_i32 value) v.x_within v.width_small (h.0) (h.1) in
      let x = s.cursor_x +ℤ as_i32 value in
      (
        record s { cursor_x = clamp x s.display_width },
        [],
        ap (λ c. c >>= λ y. done (record s { cursor_x = clamp y s.display_width }, [])) m,
        at_x s (clamp x s.display_width) v (clamp-IsUpTo x s.display_width v.width_small),
        refl,
      )

  rel_y-Keeps :
      (value : ℕ)
      → (pos_part (as_i32 value) ≤ 2 ^ 30) × (neg_part (as_i32 value) ≤ 2 ^ 30)
      → Keeps s (do
        y ← checked_i32 (s.cursor_y +ℤ as_i32 value)
        done (record s { cursor_y = clamp y s.display_height }, []))
  rel_y-Keeps value h =
      let m =
        moved s.cursor_y s.display_height (as_i32 value) v.y_within v.height_small (h.0) (h.1) in
      let y = s.cursor_y +ℤ as_i32 value in
      (
        record s { cursor_y = clamp y s.display_height },
        [],
        ap (λ c. c >>= λ x. done (record s { cursor_y = clamp x s.display_height }, [])) m,
        at_y s (clamp y s.display_height) v (clamp-IsUpTo y s.display_height v.height_small),
        refl,
      )

  abs_x-Keeps :
      (value : ℕ)
      → (s.abs_x_info.min ≤ value)
        × (value ≤ s.abs_x_info.max)
        × (s.abs_x_info.min < s.abs_x_info.max)
      → Keeps s
          (do x ← from_abs value s.abs_x_info s.display_width; done (record s { cursor_x = x }, []))
  abs_x-Keeps value h =
      let (x, e, w) =
        from_abs-IsUpTo value s.abs_x_info s.display_width (h.0) (h.1) (h.2) v.width_small in
      (record s { cursor_x = x }, [], rw e refl, at_x s x v w, refl)

  abs_y-Keeps :
      (value : ℕ)
      → (s.abs_y_info.min ≤ value)
        × (value ≤ s.abs_y_info.max)
        × (s.abs_y_info.min < s.abs_y_info.max)
      → Keeps s (do
        y ← from_abs value s.abs_y_info s.display_height
        done (record s { cursor_y = y }, []))
  abs_y-Keeps value h =
      let (y, e, w) =
        from_abs-IsUpTo value s.abs_y_info s.display_height (h.0) (h.1) (h.2) v.height_small in
      (record s { cursor_y = y }, [], rw e refl, at_y s y v w, refl)

  -- A call under a test, or the same state.
  either-Keeps :
      (test : Bool) (call : Handled) (rest : Handled)
      → (test ≡ true → Keeps s call)
      → (test ≡ false → Keeps s rest)
      → Keeps s (if test then call else rest)
  either-Keeps test call rest a b = elim (Bool-cases test) [
    | inl e ↦ rw e (a e)
    | inr e ↦ rw e (b e)
  ]

  same-Keeps : (out : List Output) → Keeps s (done (s, out))
  same-Keeps out = (s, out, refl, v, refl)

  -- In a valid windowing server, an event of the mouse that moves by at most 2^30 or tells a place
  -- in the range of the device makes no arithmetic overflow and no division fail, leaves the
  -- windows as they were, and leaves a valid server: the coordinates of the cursor are from 0 to
  -- the width and the height of the display, which are allowed although they are one behind the
  -- last column and row, and the active window is one that is open.
  pub observe_mouse-IsValid :
      (e : InputEvent)
      → MouseFits s e
      → (t : Server) × (out : List Output) × (observe_mouse s e ≡ done (t, out))
        × IsValid t
        × (t.windows ≡ s.windows)
  unfolding observe_mouse
  observe_mouse-IsValid e fits =
      either-Keeps (e.type_ == ev_key) _ _
        (λ k.
          either-Keeps (e.code == btn_left && e.value == 1) _ _ (λ c. click-Keeps)
            (λ c. same-Keeps []))
        (λ k.
          either-Keeps (e.type_ == ev_rel) _ _
            (λ r.
              either-Keeps (e.code == 0) _ _
                (λ c. rel_x-Keeps e.value (fits.moves ((==_iff e.type_ ev_rel).0 r)))
                (λ c.
                  either-Keeps (e.code == 1) _ _
                    (λ c'. rel_y-Keeps e.value (fits.moves ((==_iff e.type_ ev_rel).0 r)))
                    (λ c'. same-Keeps [])))
            (λ r.
              either-Keeps (e.type_ == ev_abs) _ _
                (λ a.
                  either-Keeps (e.code == 0) _ _
                    (λ c.
                      abs_x-Keeps e.value
                        (fits.place_x ((==_iff e.type_ ev_abs).0 a) ((==_iff e.code 0).0 c)))
                    (λ c.
                      either-Keeps (e.code == 1) _ _
                        (λ c'.
                          abs_y-Keeps e.value
                            (fits.place_y ((==_iff e.type_ ev_abs).0 a) ((==_iff e.code 1).0 c')))
                        (λ c'. same-Keeps [])))
                (λ a.
                  either-Keeps (e.type_ == ev_syn) _ _ (λ y. same-Keeps _) (λ y. same-Keeps []))))
