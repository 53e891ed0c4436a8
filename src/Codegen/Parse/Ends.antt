-- ===== src/Codegen/Parse/Ends.antt =====
-- When `parse_type` of codegen/src/parse.rs ends.
use deravel_os.Prelude.{
  ℕ, zero, suc, ◌+◌, ◌≤◌, ◌<◌, ◌==◌, ◌||◌, ◌≡◌, refl, ap, sym, ◌∙◌, Bool, true, false, Bool-cases,
  Option-cases, List, [], ◌∷◌, length, none, some, Exec, done, diverge, ◌>>=◌, ◌⊎◌, inl, inr, arith,
}
use deravel_os.Codegen.{
  DrvliType, array, const_array, const_ptr, option, process_spawner, ptr, tuple, nil, cons,
}
use deravel_os.Codegen.Strings.{Text, codes, contains, split_commas, strip_prefix}
use deravel_os.Codegen.Parse.{word_type, parse_types, prefixed_type, parse_type_within, parse_type}
use deravel_os.Codegen.Parse.Commas.{
  spaced, All, Any, split_commas-lt, split_commas_apart, split_commas_unspaced,
}

abbrev Returns {ℓ} : {A : Type ℓ} → Exec A → Type ℓ
Returns {A} call = (a : A) × (call ≡ done a)

pub or_right : (a b : Bool) → (a || b) ≡ false → b ≡ false
or_right a b h = ground arith

pub or_left : (a b : Bool) → (a || b) ≡ false → a ≡ false
or_left a b h = ground arith

-- A text without commas has none behind a prefix either.
strip_prefix-shorter :
    (p s rest : Text)
    → strip_prefix p s ≡ some rest
    → contains b',' s ≡ false
    → (length rest + length p ≡ length s) × (contains b',' rest ≡ false)
strip_prefix-shorter [] s rest e h =
    let q : s ≡ rest = cc e in (omega (arith, ap length q), sym (ap (contains b',') q) ∙ h)
strip_prefix-shorter (q ∷ ps) [] rest e h = absurd (cc e)
strip_prefix-shorter (q ∷ ps) (c ∷ s) rest e h = elim (Bool-cases (q == c)) [
  | inl y ↦
      let e' : strip_prefix ps s ≡ some rest = rw y at e in
      let (l, k) = strip_prefix-shorter ps s rest e' (or_right (c == b',') (contains b',' s) h) in
      (omega (arith, l), k)
  | inr n ↦ let e' : none ≡ some rest = rw n at e in absurd (cc e')
]

bind-Returns {ℓ κ} :
    {A : Type ℓ} {B : Type κ} (m : Exec A) (f : A → B) → Returns m → Returns (m >>= λ a. done (f a))
bind-Returns m f (a, e) = (f a, rw e refl)

-- A call for a prefix, with the other cases as `rest`.
after_prefix :
    (p s : Text) (parse : Text → Exec DrvliType) (f : DrvliType → DrvliType) (rest : Exec DrvliType)
    → 0 < length p
    → contains b',' s ≡ false
    → ((t : Text) → length t < length s → contains b',' t ≡ false → Returns (parse t))
    → Returns rest
    → Returns
        (elim (strip_prefix p s) [ some inner ↦ parse inner >>= λ t. done (f t) | none ↦ rest ])
after_prefix p s parse f rest pos h call other = elim (Option-cases (strip_prefix p s)) [
  | inl e ↦ rw e other
  | inr (inner, e) ↦
      let (l, k) = strip_prefix-shorter p s inner e h in
      rw e (bind-Returns (parse inner) f (call inner (omega (arith, l)) k))
]

spawner_prefix :
    (p s : Text) (f : Text → DrvliType) (rest : Exec DrvliType)
    → Returns rest
    → Returns (elim (strip_prefix p s) [ some name ↦ done (f name) | none ↦ rest ])
spawner_prefix p s f rest other = elim (Option-cases (strip_prefix p s)) [
  | inl e ↦ rw e other
  | inr (name, e) ↦ rw e (f name, refl)
]

prefixed_type-Returns :
    (parse : Text → Exec DrvliType) (s : Text)
    → contains b',' s ≡ false
    → ((t : Text) → length t < length s → contains b',' t ≡ false → Returns (parse t))
    → Returns (prefixed_type parse s)
prefixed_type-Returns parse s h call =
    after_prefix (codes "array ") s parse array _ (omega arith) h call (
      after_prefix (codes "const_array ") s parse const_array _ (omega arith) h call (
        after_prefix (codes "const_ptr ") s parse const_ptr _ (omega arith) h call (
          after_prefix (codes "option ") s parse option _ (omega arith) h call (
            spawner_prefix (codes "process_spawner ") s process_spawner _ (
              after_prefix (codes "ptr ") s parse ptr _ (omega arith) h call
                (word_type s, refl))))))

parse_types-Returns :
    (parse : Text → Exec DrvliType) (ps : List Text)
    → All (λ p. Returns (parse p)) ps
    → Returns (parse_types parse ps)
parse_types-Returns parse [] h = (nil, refl)
parse_types-Returns parse (p ∷ ps) h =
    let (t, e) = h.0 in
    let (ts, es) = parse_types-Returns parse ps (h.1) in (cons t ts, rw (e, es) refl)

unspaced_free : (s : Text) → contains b',' s ≡ false → spaced s ≡ true
unfolding spaced
unspaced_free [] h = refl
unspaced_free (c ∷ []) h = ground arith
unspaced_free (c ∷ d ∷ s) h =
    let k = unspaced_free (d ∷ s) (or_right (c == b',') (contains b',' (d ∷ s)) h) in
    let n : (c == b',') ≡ false = or_left (c == b',') (contains b',' (d ∷ s)) h in rw (n, k) refl

All-Returns :
    (depth n : ℕ) (ps : List Text)
    → n ≤ depth + 1
    → ((p : Text)
        → length p < depth
        → contains b',' p ≡ false
        → Returns (parse_type_within depth p))
    → All (λ p. length p + 2 ≤ n) ps
    → All (λ p. contains b',' p ≡ false) ps
    → All (λ p. Returns (parse_type_within depth p)) ps
All-Returns depth n [] le call h k = tt
All-Returns depth n (p ∷ ps) le call h k =
    (call p (omega (arith, h.0)) (k.0), All-Returns depth n ps le call (h.1) (k.1))

-- A depth beyond the length of a text is enough.
pub enough_depth :
    (depth : ℕ) (s : Text)
    → length s < depth
    → spaced s ≡ true
    → (t : DrvliType) × (parse_type_within depth s ≡ done t)
unfolding parse_type_within
enough_depth zero s lt k = absurd (omega arith)
enough_depth (suc depth) s lt k = elim (Bool-cases (contains b',' s)) [
  | inl c ↦
      rw (c, parse_type_within)
        (bind-Returns (parse_types (parse_type_within depth) (split_commas s)) tuple (
          parse_types-Returns (parse_type_within depth) (split_commas s) (
            All-Returns depth (length s) (split_commas s) (omega arith)
              (λ p l n. enough_depth depth p l (unspaced_free p n)) (split_commas-lt s c k)
              (split_commas_apart s k))))
  | inr c ↦
      rw (c, parse_type_within)
        (prefixed_type-Returns (parse_type_within depth) s c
          (λ t l n. enough_depth depth t (omega arith) (unspaced_free t n)))
]

-- A call ends in a value or never.
abbrev Total : {A : Type 0} → Exec A → Type 0
Total call = Returns call ⊎ (call ≡ diverge)

bind-Total : {A B : Type 0} (m : Exec A) (f : A → B) → Total m → Total (m >>= λ a. done (f a))
bind-Total m f (inl (a, e)) = inl (f a, rw e refl)
bind-Total m f (inr e) = inr (rw e refl)

prefix-Total :
    (p s : Text) (parse : Text → Exec DrvliType) (f : DrvliType → DrvliType) (rest : Exec DrvliType)
    → ((t : Text) → Total (parse t))
    → Total rest
    → Total (elim (strip_prefix p s) [ some inner ↦ parse inner >>= λ t. done (f t) | none ↦ rest ])
prefix-Total p s parse f rest call other = elim (Option-cases (strip_prefix p s)) [
  | inl e ↦ rw e other
  | inr (inner, e) ↦ rw e (bind-Total (parse inner) f (call inner))
]

spawner-Total :
    (p s : Text) (f : Text → DrvliType) (rest : Exec DrvliType)
    → Total rest
    → Total (elim (strip_prefix p s) [ some name ↦ done (f name) | none ↦ rest ])
spawner-Total p s f rest other = elim (Option-cases (strip_prefix p s)) [
  | inl e ↦ rw e other
  | inr (name, e) ↦ rw e (inl (f name, refl))
]

prefixed_type-Total :
    (parse : Text → Exec DrvliType) (s : Text)
    → ((t : Text) → Total (parse t))
    → Total (prefixed_type parse s)
prefixed_type-Total parse s call = prefix-Total (codes "array ") s parse array _ call (
    prefix-Total (codes "const_array ") s parse const_array _ call (
      prefix-Total (codes "const_ptr ") s parse const_ptr _ call (
        prefix-Total (codes "option ") s parse option _ call (
          spawner-Total (codes "process_spawner ") s process_spawner _
            (prefix-Total (codes "ptr ") s parse ptr _ call (inl (word_type s, refl)))))))

parse_types-Total :
    (parse : Text → Exec DrvliType) (ps : List Text)
    → ((t : Text) → Total (parse t))
    → Total (parse_types parse ps)
parse_types-Total parse [] call = inl (nil, refl)
parse_types-Total parse (p ∷ ps) call = elim (call p) [
  | inr e ↦ inr (rw e refl)
  | inl (t, e) ↦ rw e (bind-Total (parse_types parse ps) (cons t) (parse_types-Total parse ps call))
]

-- No text makes the parser of types panic.
pub parse_type_within-Total : (depth : ℕ) (s : Text) → Total (parse_type_within depth s)
unfolding parse_type_within
parse_type_within-Total zero s = inr refl
parse_type_within-Total (suc depth) s = elim (Bool-cases (contains b',' s)) [
  | inl c ↦
      rw (c, parse_type_within)
        (bind-Total (parse_types (parse_type_within depth) (split_commas s)) tuple (
          parse_types-Total (parse_type_within depth) (split_commas s)
            (parse_type_within-Total depth)))
  | inr c ↦
      rw (c, parse_type_within)
        (prefixed_type-Total (parse_type_within depth) s (parse_type_within-Total depth))
]

-- One part that diverges is enough, since none panics.
parse_types-diverge :
    (parse : Text → Exec DrvliType) (ps : List Text)
    → ((t : Text) → Total (parse t))
    → ((t : Text) → spaced t ≡ false → parse t ≡ diverge)
    → Any (λ p. spaced p ≡ false) ps
    → parse_types parse ps ≡ diverge
parse_types-diverge parse [] total bad h = absurd h
parse_types-diverge parse (p ∷ ps) total bad (inl h) = rw (bad p h) refl
parse_types-diverge parse (p ∷ ps) total bad (inr h) = elim (total p) [
  | inr e ↦ rw e refl
  | inl (t, e) ↦ rw (e, parse_types-diverge parse ps total bad h) refl
]

no_depth : (depth : ℕ) (s : Text) → spaced s ≡ false → parse_type_within depth s ≡ diverge
unfolding parse_type_within
no_depth zero s k = refl
no_depth (suc depth) s k = elim (Bool-cases (contains b',' s)) [
  | inr c ↦ absurd (cc (unspaced_free s c))
  | inl c ↦
      rw
        (
          c,
          parse_type_within,
          parse_types-diverge (parse_type_within depth) (split_commas s)
              (parse_type_within-Total depth) (no_depth depth) (split_commas_unspaced s k),
        )
        refl
]

-- Parse_type returns on exactly the texts in which every comma is followed by a space, and on any
-- other text it recurses without end, whatever depth is allowed.
pub parse_type_lem :
    (s : Text)
    → ((spaced s ≡ true) × ((t : DrvliType) × (parse_type s ≡ done t)))
      ⊎ ((spaced s ≡ false) × ((depth : ℕ) → parse_type_within depth s ≡ diverge))
unfolding parse_type
parse_type_lem s = elim (Bool-cases (spaced s)) [
  | inl k ↦ inl (k, enough_depth (suc (length s)) s (omega arith) k)
  | inr k ↦ inr (k, λ depth. no_depth depth s k)
]
