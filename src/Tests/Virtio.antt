-- ===== src/Tests/Virtio.antt =====
-- The theorem on kernel/src/virtio/input.rs, at an interrupt with two events.
use deravel_os.Prelude.{
  ℕ, zero, suc, List, [], ◌∷◌, map, some, ap, ◌∙◌, subst, get_elem?, lt_cases, inl, inr, ◌+◌, ◌-◌,
  ◌^◌, ◌≤◌, ◌<◌, ◌≡◌, ◌⊎◌, refl, ◌++◌, replicate, done, panic, arith,
}
use deravel_os.Input.{InputEvent}
use deravel_os.RingBuffer.Refine.{contents, IsValid}
use deravel_os.Virtio.{new_queue, UsedElement}
use deravel_os.Virtio.Input.{queue_size, VirtioInput, handle}
use deravel_os.Virtio.Input.Handled.{used_events, InOrder, IsArmed, handle_lem}

abbrev count_up : ℕ → ℕ → List ℕ
count_up at zero = []
count_up at (suc n) = at ∷ count_up (at + 1) n

abbrev released : InputEvent
released = record { type_ = 1; code = 16; value = 0 }

abbrev pressed : InputEvent
pressed = record { type_ = 1; code = 16; value = 1 }

-- The device has used the buffers 6 and 7.
abbrev used_ring : List UsedElement
used_ring = map (λ i. record { id = i; len = 8 }) (count_up 0 64)

abbrev keyboard : VirtioInput
keyboard = record {
  ring = record { read = 5; written = 6; slots = replicate 4 released };
  eventq = record (new_queue 64) {
    available = record { index = 70; ring = count_up 0 64 };
    used = record { index = 8; ring = used_ring };
  };
  buffers = replicate 7 released ++ pressed ∷ replicate 56 released;
}

keyboard-IsValid : IsValid keyboard.ring
keyboard-IsValid = record {
  nonempty = omega arith;
  ordered = omega arith;
  bounded = omega arith;
  small = omega arith;
}

get-count_up : (n at i : ℕ) → i < n → get_elem? (count_up at n) i ≡ some (at + i)
get-count_up zero at i h = absurd (omega (arith, h))
get-count_up (suc n) at zero h = ap some (omega arith)
get-count_up (suc n) at (suc i) h =
    get-count_up n (at + 1) i (omega (arith, h)) ∙ ap some (omega arith)

keyboard-IsArmed : IsArmed keyboard.eventq
keyboard-IsArmed i h = get-count_up 64 0 i h ∙ ap some (omega arith)

keyboard-InOrder : (k : ℕ) → 6 ≤ k → k < 8 → InOrder keyboard.eventq k
keyboard-InOrder k lo hi = elim (lt_cases k 7) [
  | inl lt ↦
      let same : 6 ≡ k = omega (arith, lo, lt) in
      subst (InOrder keyboard.eventq) same (record { id = 6; len = 8 }, refl, refl)
  | inr ge ↦
      let same : 7 ≡ k = omega (arith, ge, hi) in
      subst (InOrder keyboard.eventq) same (record { id = 7; len = 8 }, refl, refl)
]

handle_lem_example :
    ((8 < 2 ^ 16 - 64)
      × ((v' : VirtioInput) × (handle keyboard ≡ done v')
          × (contents v'.ring
              ≡ contents keyboard.ring ++ used_events keyboard.buffers used_ring 6 (8 - 6))
          × IsValid v'.ring
          × (v'.eventq.available.index ≡ 8 + queue_size)))
    ⊎ ((2 ^ 16 - 64 ≤ 8) × (handle keyboard ≡ panic))
handle_lem_example =
    handle_lem 6 keyboard refl keyboard-IsValid (omega arith) (omega arith) (omega arith)
      keyboard-IsArmed keyboard-InOrder
