-- ===== src/Kernel/Schedule/Rounds.antt =====
-- `schedule_userspace` of kernel/src/process.rs: how many rounds it takes.
use deravel_os.Prelude.{
  ℕ, zero, suc, ◌+◌, ◌%◌, ◌<◌, ◌≤◌, ◌≡◌, ◌≢◌, refl, ◌∙◌, subst, inl, inr, ◌==◌, ==_iff, Bool-cases,
  Bool, true, false, Option, none, some, done, done-injective, >>=-eq-done, arith, if◌then◌else◌,
}
use deravel_os.Capability.{Actor, kernel, userspace}
use deravel_os.Kernel.Process.{
  Kernel, Process, finished, put, update, get_process_beside, process_count,
}
use deravel_os.Kernel.Schedule.{
  waits_for, can_run, is_finished, is_gone, inspect_from, inspect_can_progress, scan_slot, scan,
}

-- A process that is left of another: it has its id, and if it can run it is the same.
pub record Remains (p q : Process) : Type 0 where
  pub id : q.id ≡ p.id
  pub same : can_run q.state ≡ true → q ≡ p

-- Every process of the second kernel remains of the one in its slot in the first.
abbrev pub Shrinks : Kernel → Kernel → Type 0
Shrinks k k' =
    (j : ℕ) (q : Process)
    → k'.processes j ≡ some q
    → (p : Process) × (k.processes j ≡ some p) × Remains p q

pub self-Remains : (p : Process) → Remains p p
self-Remains p = record { id = refl; same = λ h. refl }

pub set-Shrinks :
    (k : Kernel) (i : ℕ) (v : Option Process)
    → ((q : Process) → v ≡ some q → (p : Process) × (k.processes i ≡ some p) × Remains p q)
    → Shrinks k (record k { processes = update k.processes i v })
set-Shrinks k i v h j q e = elim (Bool-cases (j == i)) [
  | inl c ↦
      let same : j ≡ i = (==_iff j i).0 c in let e' : v ≡ some q = rw c at e in rw same (h q e')
  | inr c ↦ let e' : k.processes j ≡ some q = rw c at e in (q, e', self-Remains q)
]

inspect_from-Remains :
    (k : Kernel) (i : ℕ) (p q : Process) (w : Option Actor)
    → inspect_from k i p w ≡ done q
    → Remains p q
unfolding inspect_from
inspect_from-Remains k i p q none h =
    let e = done-injective h in subst (Remains p) e (self-Remains p)
inspect_from-Remains k i p q (some kernel) h =
    let e = done-injective h in subst (Remains p) e (self-Remains p)
inspect_from-Remains k i p q (some (userspace from)) h =
    let (slot, _, h1) = >>=-eq-done (get_process_beside k i from) _ h in
    elim (Bool-cases (is_gone slot)) [
      | inl c ↦
          let h2 : done (record p { state = finished }) ≡ done q = rw c at h1 in
          let e = done-injective h2 in subst (Remains p) e (record { id = refl; same = λ f. cc f })
      | inr c ↦
          let h2 : done p ≡ done q = rw c at h1 in
          let e = done-injective h2 in subst (Remains p) e (self-Remains p)
    ]

scan_slot-Shrinks :
    (k : Kernel) (i : ℕ) (slot : Option Process) (r : Kernel × Bool)
    → k.processes i ≡ slot
    → scan_slot k i slot ≡ done r
    → Shrinks k r.0
unfolding scan_slot inspect_can_progress
scan_slot-Shrinks k i none r e h =
    let f = done-injective h in subst (λ x. Shrinks k x.0) f (λ j q g. (q, g, self-Remains q))
scan_slot-Shrinks k i (some p) r e h =
    let (q, g, h1) = >>=-eq-done (inspect_can_progress k i p) _ h in
    let left = inspect_from-Remains k i p q (waits_for p.state) g in
    let kept : Shrinks k (put k i q) =
      set-Shrinks k i (some q) (λ x f. let same : q ≡ x = cc f in (p, e, rw same at left)) in
    elim (Bool-cases (can_run q.state)) [
      | inl c ↦ let f = done-injective (rw c at h1) in subst (λ x. Shrinks k x.0) f kept
      | inr c ↦ elim (Bool-cases (is_finished q.state)) [
        | inl d ↦
            let f = done-injective (rw (c, d) at h1) in
            subst (λ x. Shrinks k x.0) f (set-Shrinks k i none (λ x g. cc g))
        | inr d ↦ let f = done-injective (rw (c, d) at h1) in subst (λ x. Shrinks k x.0) f kept
      ]
    ]

pub trans-Shrinks : (k k1 k2 : Kernel) → Shrinks k k1 → Shrinks k1 k2 → Shrinks k k2
trans-Shrinks k k1 k2 s t j r e =
    let (q, f, a) = t j r e in
    let (p, g, b) = s j q f in
    (
      p,
      g,
      record {
        id = a.id ∙ b.id;
        same = λ h. a.same h ∙ b.same (subst (λ x. can_run x.state ≡ true) (a.same h) h);
      },
    )

pub scan-Shrinks :
    (rounds : ℕ) (k : Kernel) (start : ℕ) (r : Kernel × Option ℕ)
    → scan rounds k start ≡ done r
    → Shrinks k r.0
unfolding scan
scan-Shrinks zero k start r h =
    let f = done-injective h in subst (λ x. Shrinks k x.0) f (λ j q g. (q, g, self-Remains q))
scan-Shrinks (suc rounds) k start r h =
    let i = start % process_count in
    let ((k1, found), e, h1) = >>=-eq-done (scan_slot k i (k.processes i)) _ h in
    let one = scan_slot-Shrinks k i (k.processes i) (k1, found) refl e in
    elim (Bool-cases found) [
      | inl c ↦
          let h2 : done (k1, some i) ≡ done r = rw c at h1 in
          let f = done-injective h2 in subst (λ x. Shrinks k x.0) f one
      | inr c ↦
          let h2 : scan rounds k1 (start + 1) ≡ done r = rw c at h1 in
          trans-Shrinks k k1 r.0 one (scan-Shrinks rounds k1 (start + 1) r h2)
    ]

abbrev pub runs_in : Option Process → Bool
runs_in none = false
runs_in (some p) = can_run p.state

-- How many of the slots below `n` hold a process that can run.
unfoldable pub count : ℕ → (ℕ → Option Process) → ℕ
count zero f = 0
count (suc n) f = (if runs_in (f n) then 1 else 0) + count n f

below_last : (i n : ℕ) → i == n ≡ false → i < suc n → i < n
below_last i n e lt =
    let ne : i ≢ n = λ s. let t = (==_iff i n).1 s in cc (e, t) in omega (arith, ne)

module _ (f g : ℕ → Option Process)
    (h : (j : ℕ) → runs_in (g j) ≡ true → runs_in (f j) ≡ true) where
  pub count-le : (n : ℕ) → count n g ≤ count n f
  unfolding count
  count-le zero = omega arith
  count-le (suc n) =
      let below = count-le n in
      elim (Bool-cases (runs_in (g n))) [
        | inl c ↦ rw (c, h n c) (omega (arith, below))
        | inr c ↦ elim (Bool-cases (runs_in (f n))) [
          | inl d ↦ rw (c, d) (omega (arith, below))
          | inr d ↦ rw (c, d) (omega (arith, below))
        ]
      ]

  pub count-lt :
      (n i : ℕ) → i < n → runs_in (f i) ≡ true → runs_in (g i) ≡ false → count n g < count n f
  unfolding count
  count-lt zero i lt a b = absurd (omega arith)
  count-lt (suc n) i lt a b = elim (Bool-cases (i == n)) [
    | inl e ↦
        let same : i ≡ n = (==_iff i n).0 e in
        let a' : runs_in (f n) ≡ true = rw same at a in
        let b' : runs_in (g n) ≡ false = rw same at b in
        let below = count-le n in rw (a', b') (omega (arith, below))
    | inr e ↦
        let less : i < n = below_last i n e lt in
        let below = count-lt n i less a b in
        elim (Bool-cases (runs_in (g n))) [
          | inl c ↦ rw (c, h n c) (omega (arith, below))
          | inr c ↦ elim (Bool-cases (runs_in (f n))) [
            | inl d ↦ rw (c, d) (omega (arith, below))
            | inr d ↦ rw (c, d) (omega (arith, below))
          ]
        ]
  ]
