-- ===== src/Codegen/Types/Fixed.antt =====
-- `fix_types` of codegen/src/lib.rs.
use deravel_os.Prelude.{
  ◌≡◌, ◌==◌, ==_iff, eq→==, [], ◌∷◌, refl, ◌⊎◌, inl, inr, ◌&&◌, ◌||◌, Bool, true, false, Bool-cases,
  List, Exec, done, panic, ◌>>=◌,
}
use deravel_os.Codegen.{
  DrvliType, DrvliTypes, array, bytes, const_array, const_ptr, i8, i16, i32, i64, isize, never,
  option, process_id, process_spawner, ptr, shared_memory, struct, text, tuple, typed_capability,
  u8, u16, u32, u64, unknown, untyped_capability, untyped_pointer, usize, nil, cons,
}
use deravel_os.Codegen.Strings.{Text, text_eq}
use deravel_os.Codegen.Types.{names_contain, fix_type, fix_each}

-- Every name in a type is a structure's or an interface's.
unfoldable mutual
  pub known : List Text → List Text → DrvliType → Bool
  known interfaces structs (array t) = known interfaces structs t
  known interfaces structs (const_array t) = known interfaces structs t
  known interfaces structs (const_ptr t) = known interfaces structs t
  known interfaces structs (option t) = known interfaces structs t
  known interfaces structs (ptr t) = known interfaces structs t
  known interfaces structs (tuple ts) = known_each interfaces structs ts
  known interfaces structs (unknown name) =
      names_contain structs name || names_contain interfaces name
  known interfaces structs t = true

  pub known_each : List Text → List Text → DrvliTypes → Bool
  known_each interfaces structs nil = true
  known_each interfaces structs (cons t ts) =
      known interfaces structs t && known_each interfaces structs ts

-- No name in a type is left open.
unfoldable mutual
  pub resolved : DrvliType → Bool
  resolved (array t) = resolved t
  resolved (const_array t) = resolved t
  resolved (const_ptr t) = resolved t
  resolved (option t) = resolved t
  resolved (ptr t) = resolved t
  resolved (tuple ts) = resolved_each ts
  resolved (unknown name) = false
  resolved t = true

  pub resolved_each : DrvliTypes → Bool
  resolved_each nil = true
  resolved_each (cons t ts) = resolved t && resolved_each ts

-- A name is one of those declared.
abbrev pub IsIn : Text → List Text → Type 0
IsIn name [] = ⊥
IsIn name (n ∷ ns) = (n ≡ name) ⊎ IsIn name ns

-- What a type means: a name that is a structure's is the structure, any other that is an interface's
-- is a capability of it, and all else stays.
unfoldable mutual
  pub Means : List Text → List Text → DrvliType → DrvliType → Type 0
  Means interfaces structs (array t) u =
      (v : DrvliType) × (u ≡ array v) × Means interfaces structs t v
  Means interfaces structs (const_array t) u =
      (v : DrvliType) × (u ≡ const_array v) × Means interfaces structs t v
  Means interfaces structs (const_ptr t) u =
      (v : DrvliType) × (u ≡ const_ptr v) × Means interfaces structs t v
  Means interfaces structs (option t) u =
      (v : DrvliType) × (u ≡ option v) × Means interfaces structs t v
  Means interfaces structs (ptr t) u = (v : DrvliType) × (u ≡ ptr v) × Means interfaces structs t v
  Means interfaces structs (tuple ts) u =
      (vs : DrvliTypes) × (u ≡ tuple vs) × MeanEach interfaces structs ts vs
  Means interfaces structs (unknown name) u =
      (IsIn name structs × (u ≡ struct name))
      ⊎ ((¬ IsIn name structs) × IsIn name interfaces × (u ≡ typed_capability name))
  Means interfaces structs t u = u ≡ t

  pub MeanEach : List Text → List Text → DrvliTypes → DrvliTypes → Type 0
  MeanEach interfaces structs nil us = us ≡ nil
  MeanEach interfaces structs (cons t ts) us =
      (v : DrvliType) × (vs : DrvliTypes) × (us ≡ cons v vs)
      × Means interfaces structs t v
      × MeanEach interfaces structs ts vs

text_eq-true : (a b : Text) → text_eq a b ≡ true → a ≡ b
text_eq-true [] [] h = refl
text_eq-true [] (y ∷ b) h = cc h
text_eq-true (x ∷ a) [] h = cc h
text_eq-true (x ∷ a) (y ∷ b) h = elim (Bool-cases (x == y)) [
  | inl e ↦
      let h' : text_eq a b ≡ true = rw e at h in
      let q = text_eq-true a b h' in let r = (==_iff x y).0 e in cc (q, r)
  | inr e ↦ let h' : false ≡ true = rw e at h in cc h'
]

text_eq_self : (a : Text) → text_eq a a ≡ true
text_eq_self [] = refl
text_eq_self (x ∷ a) = rw (eq→== x x refl) (text_eq_self a)

names_contain-IsIn : (ns : List Text) (name : Text) → names_contain ns name ≡ true → IsIn name ns
names_contain-IsIn [] name h = cc h
names_contain-IsIn (n ∷ ns) name h = elim (Bool-cases (text_eq n name)) [
  | inl e ↦ inl (text_eq-true n name e)
  | inr e ↦ let h' : names_contain ns name ≡ true = rw e at h in inr (names_contain-IsIn ns name h')
]

IsIn-names_contain : (ns : List Text) (name : Text) → IsIn name ns → names_contain ns name ≡ true
IsIn-names_contain (n ∷ ns) name (inl e) = rw (e, text_eq_self name) refl
IsIn-names_contain (n ∷ ns) name (inr i) = elim (Bool-cases (text_eq n name)) [
  | inl e ↦ rw e refl
  | inr e ↦ rw e (IsIn-names_contain ns name i)
]
IsIn-names_contain [] name h = absurd h

-- A call returns what `P` holds of, or it panics.
abbrev pub Decides : {A : Type 0} → Bool → Exec A → (A → Type 0) → Type 0
Decides {A} test call P =
    ((test ≡ true) × ((a : A) × (call ≡ done a) × P a)) ⊎ ((test ≡ false) × (call ≡ panic))

Decides-map :
    {A B : Type 0} {P : A → Type 0} {Q : B → Type 0} (test : Bool) (call : Exec A) (f : A → B)
    → ((a : A) → P a → Q (f a))
    → Decides test call P
    → Decides test (call >>= λ a. done (f a)) Q
Decides-map test call f keep (inl (e, (a, c, p))) = inl (e, (f a, rw c refl, keep a p))
Decides-map test call f keep (inr (e, c)) = inr (e, rw c refl)

module _ (interfaces structs : List Text) where
  -- What is left is what the type means, and is not changed again.
  abbrev pub IsFixed : DrvliType → DrvliType → Type 0
  IsFixed t u =
      (resolved u ≡ true) × (fix_type interfaces structs u ≡ done u) × Means interfaces structs t u

  abbrev AreFixed : DrvliTypes → DrvliTypes → Type 0
  AreFixed ts us =
      (resolved_each us ≡ true)
      × (fix_each interfaces structs us ≡ done us)
      × MeanEach interfaces structs ts us

  fix_name :
      (name : Text)
      → Decides
          (known interfaces structs (unknown name))
          (fix_type interfaces structs (unknown name))
          (IsFixed (unknown name))
  unfolding known resolved fix_type Means
  fix_name name = elim (Bool-cases (names_contain structs name)) [
    | inl s ↦
        rw (s, fix_type)
          (inl (
            refl,
            (struct name, refl, (refl, refl, inl (names_contain-IsIn structs name s, refl))),
          ))
    | inr s ↦ elim (Bool-cases (names_contain interfaces name)) [
      | inl i ↦
          rw (s, i, fix_type)
            (inl (
              refl,
              (
                typed_capability name,
                refl,
                (
                  refl,
                  refl,
                  inr (
                    (λ h. let c = IsIn-names_contain structs name h in cc (s, c)),
                    names_contain-IsIn interfaces name i,
                    refl,
                  ),
                ),
              ),
            ))
      | inr i ↦ rw (s, i, fix_type) (inr (refl, refl))
    ]
  ]

  pair-Decides :
      (t : DrvliType) (ts : DrvliTypes) (test tests : Bool) (call : Exec DrvliType)
      (calls : Exec DrvliTypes)
      → Decides test call (IsFixed t)
      → Decides tests calls (AreFixed ts)
      → Decides
          (test && tests)
          (call >>= λ u. calls >>= λ us. done (cons u us))
          (AreFixed (cons t ts))
  unfolding resolved fix_type Means
  pair-Decides t ts test tests call calls (inr (e, c)) d = inr (rw e refl, rw c refl)
  pair-Decides t ts test tests call calls (inl (e, (u, c, p))) (inr (e', c')) =
      inr (rw (e, e') refl, rw (c, c') refl)
  pair-Decides t ts test tests call calls (inl (e, (u, c, p))) (inl (e', (us, c', p'))) = inl (
    rw (e, e') refl,
    (
      cons u us,
      rw (c, c') refl,
      (rw (p.0, p'.0) refl, rw (p.1, p'.1) refl, (u, us, refl, p.2, p'.2)),
    ),
  )

  mutual
    unfolding known resolved fix_type Means

    fix_type-Decides :
        (t : DrvliType)
        → Decides (known interfaces structs t) (fix_type interfaces structs t) (IsFixed t)
    fix_type-Decides (array t) =
        Decides-map _ _ array (λ a p. (p.0, rw (p.1) refl, (a, refl, p.2))) (fix_type-Decides t)
    fix_type-Decides (const_array t) =
        Decides-map _ _ const_array (λ a p. (p.0, rw (p.1) refl, (a, refl, p.2)))
          (fix_type-Decides t)
    fix_type-Decides (const_ptr t) =
        Decides-map _ _ const_ptr (λ a p. (p.0, rw (p.1) refl, (a, refl, p.2))) (fix_type-Decides t)
    fix_type-Decides (option t) =
        Decides-map _ _ option (λ a p. (p.0, rw (p.1) refl, (a, refl, p.2))) (fix_type-Decides t)
    fix_type-Decides (ptr t) =
        Decides-map _ _ ptr (λ a p. (p.0, rw (p.1) refl, (a, refl, p.2))) (fix_type-Decides t)
    fix_type-Decides (tuple ts) =
        Decides-map _ _ tuple (λ a p. (p.0, rw (p.1) refl, (a, refl, p.2))) (fix_each-Decides ts)
    fix_type-Decides (unknown name) = fix_name name
    fix_type-Decides bytes = inl (refl, (bytes, refl, (refl, refl, refl)))
    fix_type-Decides i8 = inl (refl, (i8, refl, (refl, refl, refl)))
    fix_type-Decides i16 = inl (refl, (i16, refl, (refl, refl, refl)))
    fix_type-Decides i32 = inl (refl, (i32, refl, (refl, refl, refl)))
    fix_type-Decides i64 = inl (refl, (i64, refl, (refl, refl, refl)))
    fix_type-Decides isize = inl (refl, (isize, refl, (refl, refl, refl)))
    fix_type-Decides never = inl (refl, (never, refl, (refl, refl, refl)))
    fix_type-Decides process_id = inl (refl, (process_id, refl, (refl, refl, refl)))
    fix_type-Decides (process_spawner name) =
        inl (refl, (process_spawner name, refl, (refl, refl, refl)))
    fix_type-Decides shared_memory = inl (refl, (shared_memory, refl, (refl, refl, refl)))
    fix_type-Decides (struct name) = inl (refl, (struct name, refl, (refl, refl, refl)))
    fix_type-Decides text = inl (refl, (text, refl, (refl, refl, refl)))
    fix_type-Decides (typed_capability name) =
        inl (refl, (typed_capability name, refl, (refl, refl, refl)))
    fix_type-Decides u8 = inl (refl, (u8, refl, (refl, refl, refl)))
    fix_type-Decides u16 = inl (refl, (u16, refl, (refl, refl, refl)))
    fix_type-Decides u32 = inl (refl, (u32, refl, (refl, refl, refl)))
    fix_type-Decides u64 = inl (refl, (u64, refl, (refl, refl, refl)))
    fix_type-Decides untyped_capability = inl (refl, (untyped_capability, refl, (refl, refl, refl)))
    fix_type-Decides untyped_pointer = inl (refl, (untyped_pointer, refl, (refl, refl, refl)))
    fix_type-Decides usize = inl (refl, (usize, refl, (refl, refl, refl)))

    fix_each-Decides :
        (ts : DrvliTypes)
        → Decides (known_each interfaces structs ts) (fix_each interfaces structs ts) (AreFixed ts)
    fix_each-Decides nil = inl (refl, (nil, refl, (refl, refl, refl)))
    fix_each-Decides (cons t ts) =
        pair-Decides t ts _ _ _ _ (fix_type-Decides t) (fix_each-Decides ts)
