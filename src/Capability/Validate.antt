-- ===== src/Capability/Validate.antt =====
-- `RawCapability::validate` of types/src/capability/raw.rs and chains of certificates.
use deravel_os.Prelude.{
  ℕ, zero, suc, ◌<◌, ◌≡◌, refl, sym, ◌∙◌, true, some, done, arith, inl, inr, Bool-cases,
  >>=-eq-done, done-injective, ◌↔◌, ==_iff, ap,
}
use deravel_os.Capability.{
  Actor, kernel, userspace, certifier, local_index, page_of, unpack, Unpacked, granted_to,
  forwarded_to, Certificates, actor_eq, judge, validate_step, validate_loop, validate, continue,
  Verdict, answer, next, RawCapability,
}

pub actor_eq_iff : (a b : Actor) → (actor_eq a b ≡ true) ↔ (a ≡ b)
unfolding actor_eq
actor_eq_iff kernel kernel = (λ h. refl, λ h. refl)
actor_eq_iff kernel (userspace q) = (λ h. cc h, λ h. cc h)
actor_eq_iff (userspace p) kernel = (λ h. cc h, λ h. cc h)
actor_eq_iff (userspace p) (userspace q) =
    (λ h. ap userspace ((==_iff p q).0 h), λ h. (==_iff p q).1 (cc h))

-- What the certificate of a capability says, and whose page it is on.
abbrev pub Says : Certificates → RawCapability → Actor → Unpacked → Type 0
Says certs cap by u =
    (certifier cap ≡ done by) × (unpack (certs (page_of by) (local_index cap)) ≡ done u)

-- `root` was granted, and forwarded `n` times up to `cap` and `claimer`, each time by the
-- recipient of the certificate before.
abbrev pub Chain : Certificates → ℕ → RawCapability → Actor → RawCapability → Type 0
Chain certs zero cap claimer root =
    (by : Actor) × Says certs cap by (granted_to claimer) × (cap ≡ root)
Chain certs (suc n) cap claimer root =
    (by : Actor) × (inner : RawCapability) × Says certs cap by (forwarded_to claimer inner)
    × Chain certs n inner by root

judge_root :
    (u : Unpacked) (cap : RawCapability) (by claimer : Actor) (root : RawCapability)
    → judge u cap by claimer ≡ answer (some root)
    → (u ≡ granted_to claimer) × (cap ≡ root)
unfolding judge
judge_root (granted_to g) cap by claimer root h = elim (Bool-cases (actor_eq g claimer)) [
  | inl e ↦ (ap granted_to ((actor_eq_iff g claimer).0 e), cc (rw e at h))
  | inr e ↦ cc (rw e at h)
]
judge_root (forwarded_to g inner) cap by claimer root h = elim (Bool-cases (actor_eq g claimer)) [
  | inl e ↦ cc (rw e at h)
  | inr e ↦ cc (rw e at h)
]

judge_next :
    (u : Unpacked) (cap : RawCapability) (by claimer : Actor) (inner : RawCapability) (to : Actor)
    → judge u cap by claimer ≡ next inner to
    → (u ≡ forwarded_to claimer inner) × (to ≡ by)
unfolding judge
judge_next (granted_to g) cap by claimer inner to h = elim (Bool-cases (actor_eq g claimer)) [
  | inl e ↦ cc (rw e at h)
  | inr e ↦ cc (rw e at h)
]
judge_next (forwarded_to g i) cap by claimer inner to h = elim (Bool-cases (actor_eq g claimer)) [
  | inl e ↦ let h' = rw e at h in let eg = (actor_eq_iff g claimer).0 e in (cc (eg, h'), cc h')
  | inr e ↦ cc (rw e at h)
]

judge_granted :
    (cap : RawCapability) (by claimer : Actor)
    → judge (granted_to claimer) cap by claimer ≡ answer (some cap)
unfolding judge
judge_granted cap by claimer = rw ((actor_eq_iff claimer claimer).1 refl) refl

pub judge_forwarded :
    (cap inner : RawCapability) (by claimer : Actor)
    → judge (forwarded_to claimer inner) cap by claimer ≡ next inner by
unfolding judge
judge_forwarded cap inner by claimer = rw ((actor_eq_iff claimer claimer).1 refl) refl

module _ (certs : Certificates) where
  pub step_of_Says :
      (cap : RawCapability) (claimer by : Actor) (u : Unpacked)
      → Says certs cap by u
      → validate_step certs cap claimer ≡ done (judge u cap by claimer)
  unfolding validate_step
  step_of_Says cap claimer by u (a, b) = rw (a, b) refl

  Says-of_step :
      (cap : RawCapability) (claimer : Actor) (v : Verdict)
      → validate_step certs cap claimer ≡ done v
      → (by : Actor) × (u : Unpacked) × Says certs cap by u × (judge u cap by claimer ≡ v)
  unfolding validate_step
  Says-of_step cap claimer v h =
      let (by, e, h') = >>=-eq-done (certifier cap) _ h in
      let (u, e', h'') = >>=-eq-done (unpack (certs (page_of by) (local_index cap))) _ h' in
      (by, u, (e, e'), done-injective h'')

  follow :
      (f : ℕ) (cap : RawCapability) (claimer : Actor) (root : RawCapability) (v : Verdict)
      → ((cap' : RawCapability) (claimer' : Actor) (root' : RawCapability)
          → validate_loop f certs cap' claimer' ≡ done (some root')
          → (n : ℕ) × (n < f) × Chain certs n cap' claimer' root')
      → validate_step certs cap claimer ≡ done v
      → continue (validate_loop f certs) v ≡ done (some root)
      → (n : ℕ) × (n < suc f) × Chain certs n cap claimer root
  unfolding continue
  follow f cap claimer root (answer a) ih e h =
      let (by, u, says, j) = Says-of_step cap claimer (answer a) e in
      let (eu, er) = judge_root u cap by claimer root (j ∙ ap answer (done-injective h)) in
      (0, omega arith, (by, (says.0, says.1 ∙ ap done eu), er))
  follow f cap claimer root (next inner to) ih e h =
      let (by, u, says, j) = Says-of_step cap claimer (next inner to) e in
      let (eu, et) = judge_next u cap by claimer inner to j in
      let (n, lt, c) = ih inner to root h in
      (suc n, omega arith, (by, inner, (says.0, says.1 ∙ ap done eu), rw (sym et) c))

  -- With fuel for its length, a chain is followed to its root.
  pub validate_loop-Chain :
      (n f : ℕ) (cap : RawCapability) (claimer : Actor) (root : RawCapability)
      → n < f
      → Chain certs n cap claimer root
      → validate_loop f certs cap claimer ≡ done (some root)
  unfolding validate_loop
  validate_loop-Chain n zero cap claimer root h c = absurd (omega arith)
  validate_loop-Chain zero (suc f) cap claimer root h (by, says, e) =
      rw (step_of_Says cap claimer by (granted_to claimer) says, judge_granted, e) refl
  validate_loop-Chain (suc n) (suc f) cap claimer root h (by, inner, says, c) =
      rw (step_of_Says cap claimer by (forwarded_to claimer inner) says, judge_forwarded)
        (validate_loop-Chain n f inner by root (omega arith) c)

  -- What is accepted has a chain.
  pub Chain-validate_loop :
      (f : ℕ) (cap : RawCapability) (claimer : Actor) (root : RawCapability)
      → validate_loop f certs cap claimer ≡ done (some root)
      → (n : ℕ) × (n < f) × Chain certs n cap claimer root
  unfolding validate_loop
  Chain-validate_loop zero cap claimer root h = cc h
  Chain-validate_loop (suc f) cap claimer root h =
      let (v, e, h') = >>=-eq-done (validate_step certs cap claimer) _ h in
      follow f cap claimer root v (Chain-validate_loop f) e h'

-- validate, given fuel for f rounds, accepts a claim with a root exactly when fewer than f
-- forwardings, each addressed to the one who forwarded next and the last to the claimer, lead from
-- a certificate granted by its certifier to the claimed one.
pub validate_iff :
    (certs : Certificates) (f : ℕ) (cap : RawCapability) (pid : ℕ) (root : RawCapability)
    → (validate f certs cap pid ≡ done (some root))
      ↔ ((n : ℕ) × (n < f) × Chain certs n cap (userspace pid) root)
unfolding validate
validate_iff certs f cap pid root = (
  Chain-validate_loop certs f cap (userspace pid) root,
  λ c. validate_loop-Chain certs c.0 f cap (userspace pid) root c.1 c.2,
)
