-- ===== src/Virtio/Input/Handled.antt =====
-- What an interrupt of an input device does, in kernel/src/virtio/input.rs.
use deravel_os.Prelude.{
  ℕ, zero, suc, ◌+◌, ◌-◌, ◌%◌, ◌^◌, ◌≤◌, ◌<◌, ◌≡◌, refl, ap, sym, ◌≢◌, ◌∙◌, set, length-set,
  get_elem?-set_self, get_elem?-set_ne, Bool-cases, ◌==◌, ==_iff, ◌⊎◌, inl, inr, lt_cases, lt→ltb,
  le→ltb, le→leb, List, [], ◌∷◌, ◌++◌, none, length, get_elem?, get_elem?_of_lt, Option, some, done,
  panic, arith,
}
use native.Mathlib.Nat.{mod-lt}
use deravel_os.RingBuffer.{RingBuffer}
use deravel_os.RingBuffer.Refine.{contents, IsValid, push_lem}
use deravel_os.Input.{InputEvent}
use deravel_os.Virtio.Input.{event_size, queue_size, VirtioInput, arm_from, arm, push_used, handle}
use deravel_os.Virtio.{UsedElement, Queue, Descriptor, virtq_desc_f_write}

-- The event of an element of the used ring: what the buffer holds whose index the element tells.
abbrev event_of : List InputEvent → Option UsedElement → Option InputEvent
event_of buffers none = none
event_of buffers (some used) = get_elem? buffers used.id

-- The events of `count` elements of the used ring from the `at`-th on, oldest first.
abbrev pub used_events : List InputEvent → List UsedElement → ℕ → ℕ → List (Option InputEvent)
used_events buffers used at zero = []
used_events buffers used at (suc count) =
    event_of buffers (get_elem? used (at % queue_size)) ∷ used_events buffers used (at + 1) count

-- The `k`-th buffer that the device uses is the `k`-th that it was offered.
abbrev pub InOrder : Queue → ℕ → Type 0
InOrder q k =
    (used : UsedElement) × (get_elem? q.used.ring (k % queue_size) ≡ some used)
    × (get_elem? q.available.ring (k % queue_size) ≡ some used.id)

-- Every place of the available ring offers the buffer of its index.
abbrev pub IsArmed : Queue → Type 0
IsArmed q = (i : ℕ) → i < queue_size → get_elem? q.available.ring i ≡ some i

-- The events that the loop of `handle` takes.
abbrev looped_events : List InputEvent → ℕ → ℕ → List (Option InputEvent)
looped_events buffers at zero = []
looped_events buffers at (suc count) =
    get_elem? buffers (at % queue_size) ∷ looped_events buffers (at + 1) count

append_one {ℓ} :
    {A : Type ℓ} (xs : List A) (y : A) (ys : List A) → (xs ++ y ∷ []) ++ ys ≡ xs ++ y ∷ ys
append_one [] y ys = refl
append_one (x ∷ xs) y ys = ap (λ l. x ∷ l) (append_one xs y ys)

append-nil {ℓ} : {A : Type ℓ} (xs : List A) → xs ≡ xs ++ []
append-nil [] = refl
append-nil (x ∷ xs) = ap (λ l. x ∷ l) (append-nil xs)

pushed-IsValid :
    (r r' : RingBuffer InputEvent)
    → IsValid r
    → r.written < r.read + length r.slots
    → length r'.slots ≡ length r.slots
    → r'.read ≡ r.read
    → r'.written ≡ r.written + 1
    → IsValid r'
pushed-IsValid r r' v lt l rd wr = record {
  nonempty = omega (arith, v.nonempty);
  ordered = omega (arith, v.ordered);
  bounded = omega arith;
  small = omega (arith, v.small);
}

push_used_lem :
    (buffers : List InputEvent) (count at : ℕ) (r : RingBuffer InputEvent)
    → length buffers ≡ queue_size
    → IsValid r
    → r.written + count ≤ r.read + length r.slots
    → (r' : RingBuffer InputEvent) × (push_used buffers at count r ≡ done r')
      × (contents r' ≡ contents r ++ looped_events buffers at count)
      × IsValid r'
unfolding push_used
push_used_lem buffers zero at r len v room = (r, refl, append-nil (contents r), v)
push_used_lem buffers (suc count) at r len v room =
    let (e, g) =
      get_elem?_of_lt buffers (at % queue_size) (omega (arith, mod-lt at {m = 64} (omega arith))) in
    elim (push_lem r e v) [
      | inr (full, p) ↦ absurd (omega arith)
      | inl (lt, (r1, p, c, l, rd, wr)) ↦
          let v1 = pushed-IsValid r r1 v lt l rd wr in
          let (r', p', c', v') = push_used_lem buffers count (at + 1) r1 len v1 (omega arith) in
          (
            r',
            rw (g, p) p',
            rw g (
                c'
                ∙ ap (λ l. l ++ looped_events buffers (at + 1) count) c
                ∙ append_one (contents r) (some e) (looped_events buffers (at + 1) count)),
            v',
          )
    ]

looped_used :
    (buffers : List InputEvent) (q : Queue) (count at : ℕ)
    → IsArmed q
    → ((k : ℕ) → at ≤ k → k < at + count → InOrder q k)
    → looped_events buffers at count ≡ used_events buffers q.used.ring at count
looped_used buffers q zero at armed ord = refl
looped_used buffers q (suc count) at armed ord =
    let (u, e, f) = ord at (omega arith) (omega arith) in
    let g = armed (at % queue_size) (mod-lt at {m = 64} (omega arith)) in
    let same : u.id ≡ at % queue_size = cc (f, g) in
    let rest =
      looped_used buffers q count (at + 1) armed
        (λ k lo hi. ord k (omega (arith, lo)) (omega (arith, hi))) in
    let first : get_elem? buffers (at % queue_size) ≡ get_elem? buffers u.id =
      ap (λ i. get_elem? buffers i) (sym same) in
    let head : get_elem? buffers (at % queue_size)
        ≡ event_of buffers (get_elem? q.used.ring (at % queue_size)) =
      first ∙ ap (event_of buffers) (sym e) in
    ap (λ x. x ∷ looped_events buffers (at + 1) count) head
    ∙ ap (λ l. event_of buffers (get_elem? q.used.ring (at % queue_size)) ∷ l) rest

-- If the ring has room for what the device has used since the last interrupt, the index of the used
-- ring is not behind the one of then, every place of the available ring offers the buffer of its
-- index, and the device uses buffers in the order in which they were offered, then an interrupt of
-- an input device appends to the ring, oldest first, the events of exactly the buffers that the new
-- elements of the used ring name, and gives as many buffers back; but if the index of the used ring
-- is 2^16 - 64 or more, it panics.
pub handle_lem :
    (used_start : ℕ) (v : VirtioInput)
    → length v.buffers ≡ queue_size
    → IsValid v.ring
    → v.eventq.available.index ≡ used_start + queue_size
    → used_start ≤ v.eventq.used.index
    → v.ring.written + (v.eventq.used.index - used_start) ≤ v.ring.read + length v.ring.slots
    → IsArmed v.eventq
    → ((k : ℕ) → used_start ≤ k → k < v.eventq.used.index → InOrder v.eventq k)
    → ((v.eventq.used.index < 2 ^ 16 - 64)
        × ((v' : VirtioInput) × (handle v ≡ done v')
            × (contents v'.ring
                ≡ contents v.ring
                  ++ used_events v.buffers v.eventq.used.ring used_start
                      (v.eventq.used.index - used_start))
            × IsValid v'.ring
            × (v'.eventq.available.index ≡ v.eventq.used.index + queue_size)))
      ⊎ ((2 ^ 16 - 64 ≤ v.eventq.used.index) × (handle v ≡ panic))
unfolding handle
handle_lem used_start v len valid idx le room armed ord =
    let used_end = v.eventq.used.index in
    let s : v.eventq.available.index - queue_size ≡ used_start = omega arith in
    let (r, p, c, k) =
      push_used_lem v.buffers (used_end - used_start) used_start v.ring len valid room in
    let same =
      looped_used v.buffers v.eventq (used_end - used_start) used_start armed
        (λ j lo hi. ord j lo (omega (arith, hi, le))) in
    elim (lt_cases (used_end + queue_size) (2 ^ 16)) [
      | inl lt ↦ inl (
        omega (arith, lt),
        (
          record v {
            ring = r;
            eventq = record v.eventq {
              available = record v.eventq.available { index = used_end + queue_size };
            };
          },
          rw
              (
                le→leb queue_size v.eventq.available.index (omega arith),
                s,
                p,
                lt→ltb (used_end + queue_size) (2 ^ 16) lt,
              )
              refl,
          c ∙ ap (λ l. contents v.ring ++ l) same,
          k,
          refl,
        ),
      )
      | inr ge ↦ inr (
        omega (arith, ge),
        rw
            (
              le→leb queue_size v.eventq.available.index (omega arith),
              s,
              p,
              le→ltb (used_end + queue_size) (2 ^ 16) ge,
            )
            refl,
      )
    ]

-- The loop that arms the queue, on what it has done before the `i`-th round.
arm_from_lem :
    (phys : ℕ → ℕ) (i n : ℕ) (q : Queue)
    → i + n ≡ queue_size
    → length q.descriptors ≡ queue_size
    → length q.available.ring ≡ queue_size
    → ((j : ℕ) → j < i → get_elem? q.available.ring j ≡ some j)
    → (q' : Queue) × (arm_from phys i n q ≡ done q') × IsArmed q'
unfolding arm_from
arm_from_lem phys i zero q total ld la before = (q, refl, λ j lt. before j (omega (arith, total)))
arm_from_lem phys i (suc n) q total ld la before =
    let lt : i < queue_size = omega (arith, total) in
    let ring' = set q.available.ring i i in
    let d : Descriptor = record {
      address = phys i;
      length = event_size;
      flags = virtq_desc_f_write;
      next = 0;
    } in
    let q1 : Queue = record q {
      descriptors = set q.descriptors i d;
      available = record q.available { ring = ring' };
    } in
    let (q', e, armed) =
      arm_from_lem phys (i + 1) n q1 (omega (arith, total)) (length-set q.descriptors i d ∙ ld)
        (length-set q.available.ring i i ∙ la)
        (λ j l. elim (Bool-cases (j == i)) [
          | inl c ↦
              let same : j ≡ i = (==_iff j i).0 c in
              rw same (get_elem?-set_self q.available.ring i i (omega (arith, la, lt)))
          | inr c ↦
              let ne : j ≢ i = λ s. let t = (==_iff j i).1 s in cc (c, t) in
              get_elem?-set_ne q.available.ring i j i (λ s. ne (sym s))
              ∙ before j (omega (arith, l, ne))
        ]) in
    (
      q',
      rw
          (
            lt→ltb i (length q.descriptors) (omega (arith, lt, ld)),
            lt→ltb i (length q.available.ring) (omega (arith, lt, la)),
          )
          e,
      armed,
    )

-- A queue of 64 that is armed has every place of the available ring offer the buffer of its index.
arm-IsArmed :
    (phys : ℕ → ℕ) (q : Queue)
    → length q.descriptors ≡ queue_size
    → length q.available.ring ≡ queue_size
    → (q' : Queue) × (arm phys q ≡ done q') × IsArmed q'
unfolding arm
arm-IsArmed phys q ld la =
    let (q', e, armed) =
      arm_from_lem phys 0 queue_size q refl ld la (λ j l. absurd (omega (arith, l))) in
    (record q' { available = record q'.available { index = queue_size } }, rw e refl, armed)
