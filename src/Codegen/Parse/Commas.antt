-- ===== src/Codegen/Parse/Commas.antt =====
-- `split(", ")` of `str`, as codegen/src/parse.rs uses it.
use deravel_os.Prelude.{
  ℕ, ◌+◌, ◌≤◌, ◌==◌, ◌≡◌, refl, sym, if◌then◌else◌, not, ◌&&◌, Bool, true, false, Bool-cases,
  ==_iff, subst, List, [], ◌∷◌, length, ◌⊎◌, inl, inr, arith,
}
use deravel_os.Codegen.Strings.{Text, contains, push_first, split_commas}

-- Every comma is followed by a space.
unfoldable pub spaced : Text → Bool
spaced [] = true
spaced (c ∷ []) = not (c == b',')
spaced (c ∷ d ∷ s) =
    let after = spaced s in
    let rest = spaced (d ∷ s) in if c == b',' && d == b' ' then after else not (c == b',') && rest

abbrev pub All {ℓ} : (Text → Type ℓ) → List Text → Type ℓ
All P [] = Unit
All P (p ∷ ps) = P p × All P ps

abbrev pub Any : (Text → Type 0) → List Text → Type 0
Any P [] = ⊥
Any P (p ∷ ps) = P p ⊎ Any P ps

All-map {ℓ κ} :
    {P : Text → Type ℓ} {Q : Text → Type κ} (ps : List Text)
    → ((p : Text) → P p → Q p)
    → All P ps
    → All Q ps
All-map [] f h = tt
All-map (p ∷ ps) f h = (f p (h.0), All-map ps f (h.1))

All-push_first {ℓ κ} :
    {P : Text → Type ℓ} {Q : Text → Type κ} (c : ℕ) (ps : List Text)
    → Q (c ∷ [])
    → ((p : Text) → P p → Q (c ∷ p))
    → ((p : Text) → P p → Q p)
    → All P ps
    → All Q (push_first c ps)
All-push_first c [] one f g h = (one, tt)
All-push_first c (p ∷ ps) one f g h = (f p (h.0), All-map ps g (h.1))

pub split_commas-le : (s : Text) → All (λ p. length p ≤ length s) (split_commas s)
split_commas-le [] = (omega arith, tt)
split_commas-le (c ∷ []) = (omega arith, tt)
split_commas-le (c ∷ d ∷ s) = elim (Bool-cases (c == b',' && d == b' ')) [
  | inl e ↦ rw e (omega arith, All-map (split_commas s) (λ p h. omega arith) (split_commas-le s))
  | inr e ↦ rw e (
      All-push_first c (split_commas (d ∷ s)) (omega arith) (λ p h. omega arith)
        (λ p h. omega arith) (split_commas-le (d ∷ s)))
]

-- A text that starts neither with a comma nor with one that is not followed by a space.
not-comma :
    (c d : ℕ) (r : Bool)
    → (c == b',' && d == b' ') ≡ false
    → (not (c == b',') && r) ≡ true
    → ((c == b',') ≡ false) × (r ≡ true)
not-comma c d r e k = ground arith

spaced-tail :
    (c d : ℕ) (s : Text)
    → (c == b',' && d == b' ') ≡ false
    → spaced (c ∷ d ∷ s) ≡ true
    → ((c == b',') ≡ false) × (spaced (d ∷ s) ≡ true)
unfolding spaced
spaced-tail c d s e k = not-comma c d (spaced (d ∷ s)) e (rw e at k)

not_lone : (c : ℕ) → contains b',' (c ∷ []) ≡ true → not (c == b',') ≡ true → ⊥
not_lone c h k = ground arith

two-le : (s : Text) → contains b',' s ≡ true → spaced s ≡ true → 2 ≤ length s
unfolding spaced
two-le [] h k = absurd (cc h)
two-le (c ∷ []) h k = absurd (not_lone c h k)
two-le (c ∷ d ∷ s) h k = omega arith

-- If there is a comma and all of them are spaced, the parts are shorter.
pub split_commas-lt :
    (s : Text)
    → contains b',' s ≡ true
    → spaced s ≡ true
    → All (λ p. length p + 2 ≤ length s) (split_commas s)
split_commas-lt [] h k = absurd (cc h)
split_commas-lt (c ∷ []) h k = absurd (omega (arith, two-le (c ∷ []) h k))
split_commas-lt (c ∷ d ∷ s) h k = elim (Bool-cases (c == b',' && d == b' ')) [
  | inl e ↦ rw e (omega arith, All-map (split_commas s) (λ p h'. omega arith) (split_commas-le s))
  | inr e ↦
      let (ne, k') = spaced-tail c d s e k in
      let h' : contains b',' (d ∷ s) ≡ true = rw ne at h in
      rw e (
        All-push_first c (split_commas (d ∷ s)) (omega (arith, two-le (d ∷ s) h' k'))
          (λ p h'. omega arith) (λ p h'. omega arith) (split_commas-lt (d ∷ s) h' k'))
]

lone : (c : ℕ) → not (c == b',') ≡ true → contains b',' (c ∷ []) ≡ false
lone c k = ground arith

pub split_commas_apart :
    (s : Text) → spaced s ≡ true → All (λ p. contains b',' p ≡ false) (split_commas s)
unfolding spaced
split_commas_apart [] k = (refl, tt)
split_commas_apart (c ∷ []) k = (lone c k, tt)
split_commas_apart (c ∷ d ∷ s) k = elim (Bool-cases (c == b',' && d == b' ')) [
  | inl e ↦ let k' : spaced s ≡ true = rw e at k in rw e (refl, split_commas_apart s k')
  | inr e ↦
      let (ne, k') = spaced-tail c d s e k in
      let push : (p : Text) → contains b',' p ≡ false → contains b',' (c ∷ p) ≡ false =
        λ p h. rw (ne, h) refl in
      rw e (
        All-push_first c (split_commas (d ∷ s)) (push [] refl) push (λ p h. h)
          (split_commas_apart (d ∷ s) k'))
]

Any-push_first :
    (P : Text → Type 0) (c : ℕ) (ps : List Text)
    → ((p : Text) → P p → P (c ∷ p))
    → Any P ps
    → Any P (push_first c ps)
Any-push_first P c [] f h = absurd h
Any-push_first P c (p ∷ ps) f (inl h) = inl (f p h)
Any-push_first P c (p ∷ ps) f (inr h) = inr h

unspaced-cons : (c : ℕ) (p : Text) → (c == b',') ≡ false → spaced p ≡ false → spaced (c ∷ p) ≡ false
unfolding spaced
unspaced-cons c [] ne h = absurd (cc h)
unspaced-cons c (d ∷ p) ne h = rw (ne, h) refl

unspaced_pair :
    (d : ℕ) (ps : List Text)
    → (d == b' ') ≡ false
    → Any (λ p. spaced p ≡ false) (push_first b',' (push_first d ps))
unfolding spaced
unspaced_pair d [] ne = inl (rw ne refl)
unspaced_pair d (p ∷ ps) ne = inl (rw ne refl)

second_ne : (c d : ℕ) → (c == b',' && d == b' ') ≡ false → (c == b',') ≡ true → (d == b' ') ≡ false
second_ne c d e q = ground arith

-- The first part of a text is empty or starts as the text does.
unspaced_first :
    (d : ℕ) (s : Text)
    → (d == b' ') ≡ false
    → Any (λ p. spaced p ≡ false) (push_first b',' (split_commas (d ∷ s)))
unfolding spaced
unspaced_first d [] ne = inl (rw ne refl)
unspaced_first d (e ∷ s) ne = elim (Bool-cases (d == b',' && e == b' ')) [
  | inl q ↦ rw q (inl refl)
  | inr q ↦ rw q (unspaced_pair d (split_commas (e ∷ s)) ne)
]

-- A comma without a space stays in some part.
pub split_commas_unspaced :
    (s : Text) → spaced s ≡ false → Any (λ p. spaced p ≡ false) (split_commas s)
unfolding spaced
split_commas_unspaced [] k = absurd (cc k)
split_commas_unspaced (c ∷ []) k = inl k
split_commas_unspaced (c ∷ d ∷ s) k = elim (Bool-cases (c == b',' && d == b' ')) [
  | inl e ↦ let k' : spaced s ≡ false = rw e at k in rw e (inr (split_commas_unspaced s k'))
  | inr e ↦ elim (Bool-cases (c == b',')) [
    | inl q ↦ rw e (
        subst (λ x. Any (λ p. spaced p ≡ false) (push_first x (split_commas (d ∷ s))))
          (sym ((==_iff c b',').0 q)) (unspaced_first d s (second_ne c d e q)))
    | inr q ↦
        let k' : spaced (d ∷ s) ≡ false = rw (e, q) at k in
        rw e (
          Any-push_first (λ p. spaced p ≡ false) c (split_commas (d ∷ s))
            (λ p h. unspaced-cons c p q h) (split_commas_unspaced (d ∷ s) k'))
  ]
]
