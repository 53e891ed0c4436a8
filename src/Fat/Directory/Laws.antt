-- ===== src/Fat/Directory/Laws.antt =====
-- What filesystems/fat/src/directory.rs makes of names.
use deravel_os.Prelude.{
  ℕ, zero, suc, ◌≡◌, refl, ap, ap₂, ◌∙◌, sym, inl, inr, Bool-cases, false, List, [], ◌∷◌, length,
  get_elem?, drop, take, map, Option, none, some, Exec, done, arith, >>=-eq-done, done-injective,
  ◌>>=◌, unwrap, ◌==◌,
}
use deravel_os.Fat.Directory.{
  copy_long, postprocess_units, from_utf16, DirectoryEntry, is_long, next_entry, try_as_first_long,
  with_long, upper_part, to_short_name, to_ascii_uppercase, split_at_dot, upper_cons,
}

upper_idem : (c : ℕ) → to_ascii_uppercase (to_ascii_uppercase c) ≡ to_ascii_uppercase c
unfolding to_ascii_uppercase
upper_idem c = ground arith

upper_part-upper : (s : List ℕ) → upper_part (map to_ascii_uppercase s) ≡ upper_part s
unfolding upper_part
upper_part-upper [] = refl
upper_part-upper (c ∷ rest) = ap₂ upper_cons (upper_idem c) (upper_part-upper rest)

length-map_upper : (s : List ℕ) → length (map to_ascii_uppercase s) ≡ length s
length-map_upper [] = refl
length-map_upper (c ∷ rest) = ap suc (length-map_upper rest)

dot_upper : (c : ℕ) → (to_ascii_uppercase c == 0x2E) ≡ (c == 0x2E)
unfolding to_ascii_uppercase
dot_upper c = ground arith

split_at_dot-upper :
    (s : List ℕ)
    → split_at_dot (map to_ascii_uppercase s)
      ≡ (map to_ascii_uppercase (split_at_dot s).0, map to_ascii_uppercase (split_at_dot s).1)
unfolding split_at_dot
split_at_dot-upper [] = refl
split_at_dot-upper (c ∷ rest) = elim (Bool-cases (c == 0x2E)) [
  | inl e ↦ rw (dot_upper c, e) refl
  | inr e ↦ rw (dot_upper c, e, split_at_dot-upper rest) refl
]

-- The short name of a string does not depend on the case of its letters.
pub to_short_name-upper : (s : List ℕ) → to_short_name (map to_ascii_uppercase s) ≡ to_short_name s
unfolding to_short_name
to_short_name-upper s =
    rw
      (
        split_at_dot-upper s,
        length-map_upper (split_at_dot s).0,
        length-map_upper (split_at_dot s).1,
        upper_part-upper (split_at_dot s).0,
        upper_part-upper (split_at_dot s).1,
      )
      refl

unwrap-eq-done : {A : Type 0} (o : Option A) {x : A} → unwrap o ≡ done x → o ≡ some x
unwrap-eq-done none h = cc h
unwrap-eq-done (some y) h = ap some (done-injective h)

-- The head of what is left is the entry at the position dropped to.
drop-get_elem? :
    {A : Type 0} (n : ℕ) (xs : List A) {x : A}
    → get_elem? xs n ≡ some x
    → (rest : List A) × (drop n xs ≡ x ∷ rest)
drop-get_elem? zero [] h = cc h
drop-get_elem? zero (y ∷ ys) h = (ys, cc h)
drop-get_elem? (suc n) [] h = cc h
drop-get_elem? (suc n) (y ∷ ys) h = drop-get_elem? n ys h

next_short :
    (short : DirectoryEntry) (rest : List DirectoryEntry)
    → is_long short ≡ false
    → next_entry (short ∷ rest) ≡ done ((short, none), rest)
unfolding next_entry try_as_first_long
next_short short rest h = rw h refl

left_of_with_long :
    (entries left : List DirectoryEntry) (short short' : DirectoryEntry) (n : ℕ) (name : List ℕ)
    → with_long entries short' n ≡ done ((short, some name), left)
    → (short' ≡ short) × (drop n entries ≡ left)
unfolding with_long
left_of_with_long entries left short short' n name h =
    let (units, _, h1) = >>=-eq-done (copy_long (take n entries) _) _ h in
    let (kept, _, h2) = >>=-eq-done (postprocess_units units) _ h1 in
    let (decoded, _, h3) = >>=-eq-done (unwrap (from_utf16 kept)) _ h2 in
    let e = done-injective h3 in (ap (λ x. x.0.0) e, ap (λ x. x.1) e)

-- What is left behind an item, by what its first entry says.
left_of_item :
    (entries left : List DirectoryEntry) (e short : DirectoryEntry) (name : List ℕ)
    (long : Option ℕ)
    → elim long as (λ _. Exec ((DirectoryEntry × Option (List ℕ)) × List DirectoryEntry)) [
      | none ↦ done ((e, none), drop 1 entries)
      | some n ↦ unwrap (get_elem? entries n) >>= (λ s. with_long entries s n)
    ]
      ≡ done ((short, some name), left)
    → (rest : List DirectoryEntry) × (left ≡ short ∷ rest)
left_of_item entries left e short name none h =
    let same : none ≡ some name = ap (λ x. x.0.1) (done-injective h) in cc same
left_of_item entries left e short name (some n) h =
    let (short', found, h1) = >>=-eq-done (unwrap (get_elem? entries n)) _ h in
    let (same, dropped) = left_of_with_long entries left short short' n name h1 in
    let (rest, starts) = drop-get_elem? n entries (unwrap-eq-done _ found) in
    (rest, sym dropped ∙ starts ∙ ap (λ x. x ∷ rest) same)

left_starts :
    (entries left : List DirectoryEntry) (short : DirectoryEntry) (name : List ℕ)
    → next_entry entries ≡ done ((short, some name), left)
    → (rest : List DirectoryEntry) × (left ≡ short ∷ rest)
unfolding next_entry
left_starts [] left short name h = cc h
left_starts (e ∷ tail) left short name h =
    let (long, _, h1) = >>=-eq-done (try_as_first_long e) _ h in
    left_of_item (e ∷ tail) left e short name long h1

-- A short entry that has a long name is yielded twice: once with the name, and next without it.
pub next_entry-repeats :
    (entries left : List DirectoryEntry) (short : DirectoryEntry) (name : List ℕ)
    → next_entry entries ≡ done ((short, some name), left)
    → is_long short ≡ false
    → (rest : List DirectoryEntry) × (left ≡ short ∷ rest)
      × (next_entry left ≡ done ((short, none), rest))
next_entry-repeats entries left short name h not_long =
    let (rest, e) = left_starts entries left short name h in
    (rest, e, rw e (next_short short rest not_long))
