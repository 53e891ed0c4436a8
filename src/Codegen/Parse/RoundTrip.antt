-- ===== src/Codegen/Parse/RoundTrip.antt =====
-- codegen/src/parse.rs on printed declarations.
use deravel_os.Prelude.{
  ℕ, zero, suc, ◌<◌, ◌==◌, ◌≡◌, refl, ap, ◌∙◌, Bool, true, false, ◌||◌, Bool-cases, inl, inr,
  ==_iff, eq→==, List, [], ◌∷◌, ◌++◌, length, Option, none, some, done, arith,
}
use deravel_os.Codegen.{
  DrvliType, array, bytes, const_array, const_ptr, i8, i16, i32, i64, isize, never, option,
  process_id, process_spawner, ptr, shared_memory, struct, text, tuple, typed_capability, u8, u16,
  u32, u64, unknown, untyped_capability, untyped_pointer, usize, Named,
}
use deravel_os.Codegen.Strings.{
  Text, codes, contains, is_empty, strip_prefix, split_once, split_commas,
}
use deravel_os.Codegen.Parse.{
  prefixed_type, parse_type_within, parse_type, parse_named, parse_each, parse_args, parse_return,
  parse_method, parse_syscall,
}
use deravel_os.Codegen.Parse.Printing.{
  print, IsName, IsPlain, print_named, join, print_each, print_return, print_function, IsPlainNamed,
  AllPlain, IsPlainReturn,
}
use deravel_os.Codegen.Parse.Ends.{or_left, or_right}

contains-append :
    (c : ℕ) (s t : Text) → contains c s ≡ false → contains c t ≡ false → contains c (s ++ t) ≡ false
contains-append c [] t h k = k
contains-append c (d ∷ s) t h k =
    rw
      (
        or_left (d == c) (contains c s) h,
        contains-append c s t (or_right (d == c) (contains c s) h) k,
      )
      refl

-- A type has neither a comma nor a closing parenthesis.
print-IsName : (t : DrvliType) → IsPlain t → IsName (print t)
print-IsName (array t) h = print-IsName t h
print-IsName (const_array t) h = print-IsName t h
print-IsName (const_ptr t) h = print-IsName t h
print-IsName (option t) h = print-IsName t h
print-IsName (process_spawner name) h = h
print-IsName (ptr t) h = print-IsName t h
print-IsName (struct name) h = absurd h
print-IsName (tuple ts) h = absurd h
print-IsName (typed_capability name) h = absurd h
print-IsName (unknown name) h = h.0
print-IsName bytes h = (refl, refl)
print-IsName i8 h = (refl, refl)
print-IsName i16 h = (refl, refl)
print-IsName i32 h = (refl, refl)
print-IsName i64 h = (refl, refl)
print-IsName isize h = (refl, refl)
print-IsName never h = (refl, refl)
print-IsName process_id h = (refl, refl)
print-IsName shared_memory h = (refl, refl)
print-IsName text h = (refl, refl)
print-IsName u8 h = (refl, refl)
print-IsName u16 h = (refl, refl)
print-IsName u32 h = (refl, refl)
print-IsName u64 h = (refl, refl)
print-IsName untyped_capability h = (refl, refl)
print-IsName untyped_pointer h = (refl, refl)
print-IsName usize h = (refl, refl)

or_skip : (a b r : Bool) → a ≡ b → b ≡ false → (a || r) ≡ true → r ≡ true
or_skip a b r e n h = ground arith

-- A prefix with a space in it begins no word.
strip_prefix_word :
    (p s : Text) → contains b' ' p ≡ true → contains b' ' s ≡ false → strip_prefix p s ≡ none
strip_prefix_word [] s h k = absurd (cc h)
strip_prefix_word (q ∷ p) [] h k = refl
strip_prefix_word (q ∷ p) (c ∷ s) h k = elim (Bool-cases (q == c)) [
  | inr n ↦ rw n refl
  | inl y ↦ rw y (
      strip_prefix_word p s
        (or_skip (q == b' ') (c == b' ') (contains b' ' p) (ap (λ x. x == b' ') ((==_iff q c).0 y))
          (or_left (c == b' ') (contains b' ' s) k) h)
        (or_right (c == b' ') (contains b' ' s) k))
]

-- The parser within a depth beyond the text's length.
parse-print :
    (depth : ℕ) (t : DrvliType)
    → IsPlain t
    → length (print t) < depth
    → parse_type_within depth (print t) ≡ done t
unfolding parse_type_within
parse-print zero t h lt = absurd (omega arith)
parse-print (suc depth) (array t) h lt =
    rw ((print-IsName t h).0, parse-print depth t h (omega arith)) refl
parse-print (suc depth) (const_array t) h lt =
    rw ((print-IsName t h).0, parse-print depth t h (omega arith)) refl
parse-print (suc depth) (const_ptr t) h lt =
    rw ((print-IsName t h).0, parse-print depth t h (omega arith)) refl
parse-print (suc depth) (option t) h lt =
    rw ((print-IsName t h).0, parse-print depth t h (omega arith)) refl
parse-print (suc depth) (ptr t) h lt =
    rw ((print-IsName t h).0, parse-print depth t h (omega arith)) refl
parse-print (suc depth) (unknown name) h lt =
    let w = λ (p : Text) (k : contains b' ' p ≡ true). strip_prefix_word p name k (h.1) in
    rw
      (
        (h.0).0,
        parse_type_within,
        prefixed_type,
        w (codes "array ") refl,
        w (codes "const_array ") refl,
        w (codes "const_ptr ") refl,
        w (codes "option ") refl,
        w (codes "process_spawner ") refl,
        w (codes "ptr ") refl,
        h.2,
      )
      refl
parse-print (suc depth) (process_spawner name) h lt = rw (h.0) refl
parse-print (suc depth) (struct name) h lt = absurd h
parse-print (suc depth) (tuple ts) h lt = absurd h
parse-print (suc depth) (typed_capability name) h lt = absurd h
parse-print (suc depth) bytes h lt = refl
parse-print (suc depth) i8 h lt = refl
parse-print (suc depth) i16 h lt = refl
parse-print (suc depth) i32 h lt = refl
parse-print (suc depth) i64 h lt = refl
parse-print (suc depth) isize h lt = refl
parse-print (suc depth) never h lt = refl
parse-print (suc depth) process_id h lt = refl
parse-print (suc depth) shared_memory h lt = refl
parse-print (suc depth) text h lt = refl
parse-print (suc depth) u8 h lt = refl
parse-print (suc depth) u16 h lt = refl
parse-print (suc depth) u32 h lt = refl
parse-print (suc depth) u64 h lt = refl
parse-print (suc depth) untyped_capability h lt = refl
parse-print (suc depth) untyped_pointer h lt = refl
parse-print (suc depth) usize h lt = refl

parse_type-print : (t : DrvliType) → IsPlain t → parse_type (print t) ≡ done t
unfolding parse_type
parse_type-print t h = parse-print (suc (length (print t))) t h (omega arith)

split_once-append :
    (c : ℕ) (p rest : Text) → contains c p ≡ false → split_once c (p ++ c ∷ rest) ≡ some (p, rest)
split_once-append c [] rest h = rw (eq→== c c refl) refl
split_once-append c (d ∷ p) rest h =
    rw
      (
        or_left (d == c) (contains c p) h,
        split_once-append c p rest (or_right (d == c) (contains c p) h),
      )
      refl

split_commas_last : (p : Text) → contains b',' p ≡ false → split_commas p ≡ p ∷ []
split_commas_last [] h = refl
split_commas_last (c ∷ []) h = refl
split_commas_last (c ∷ d ∷ p) h =
    rw
      (
        or_left (c == b',') (contains b',' (d ∷ p)) h,
        split_commas_last (d ∷ p) (or_right (c == b',') (contains b',' (d ∷ p)) h),
      )
      refl

split_commas_first :
    (p rest : Text)
    → contains b',' p ≡ false
    → split_commas (p ++ b',' ∷ b' ' ∷ rest) ≡ p ∷ split_commas rest
split_commas_first [] rest h = refl
split_commas_first (c ∷ []) rest h = rw (or_left (c == b',') false h) refl
split_commas_first (c ∷ d ∷ p) rest h =
    rw
      (
        or_left (c == b',') (contains b',' (d ∷ p)) h,
        split_commas_first (d ∷ p) rest (or_right (c == b',') (contains b',' (d ∷ p)) h),
      )
      refl

print_named-IsName : (a : Named) → IsPlainNamed a → IsName (print_named a)
print_named-IsName (name, t) h =
    let k = print-IsName t (h.2) in
    (
      contains-append b',' name (b' ' ∷ print t) ((h.0).0) (k.0),
      contains-append b')' name (b' ' ∷ print t) ((h.0).1) (k.1),
    )

parse_named-print : (a : Named) → IsPlainNamed a → parse_named (print_named a) ≡ done a
unfolding parse_named
parse_named-print (name, t) h =
    rw (split_once-append b' ' name (print t) (h.1), parse_type-print t (h.2)) refl

not_empty : (name rest : Text) (c : ℕ) → is_empty (name ++ c ∷ rest) ≡ false
not_empty [] rest c = refl
not_empty (d ∷ name) rest c = refl

parse_each-print : (args : List Named) → AllPlain args → parse_each (print_each args) ≡ done args
unfolding parse_each
parse_each-print [] h = refl
parse_each-print ((name, t) ∷ rest) h =
    rw
      (
        not_empty name (print t) b' ',
        parse_named-print (name, t) (h.0),
        parse_each-print rest (h.1),
      )
      refl

split_commas-join :
    (a : Named) (rest : List Named)
    → AllPlain (a ∷ rest)
    → split_commas (join (print_each (a ∷ rest))) ≡ print_each (a ∷ rest)
split_commas-join a [] h = split_commas_last (print_named a) ((print_named-IsName a (h.0)).0)
split_commas-join a (b ∷ rest) h =
    split_commas_first (print_named a) (join (print_each (b ∷ rest)))
      ((print_named-IsName a (h.0)).0)
    ∙ ap (λ ps. print_named a ∷ ps) (split_commas-join b rest (h.1))

parse_args-print :
    (args : List Named) → AllPlain args → parse_args (join (print_each args)) ≡ done args
unfolding parse_args
parse_args-print [] h = refl
parse_args-print (a ∷ rest) h = rw (split_commas-join a rest h) (parse_each-print (a ∷ rest) h)

join-closed : (args : List Named) → AllPlain args → contains b')' (join (print_each args)) ≡ false
join-closed [] h = refl
join-closed (a ∷ []) h = (print_named-IsName a (h.0)).1
join-closed (a ∷ b ∷ rest) h =
    contains-append b')' (print_named a) (b',' ∷ b' ' ∷ join (print_each (b ∷ rest)))
      ((print_named-IsName a (h.0)).1) (join-closed (b ∷ rest) (h.1))

parse_return-print :
    (r : Option DrvliType) → IsPlainReturn r → parse_return (print_return r) ≡ done r
unfolding parse_return
parse_return-print none h = refl
parse_return-print (some t) h = rw (parse_type-print t h) refl

-- A system call and a method printed as `name(argument type, argument type) type` are read back as
-- they were, if the name has no opening parenthesis, the names of arguments are single words
-- without commas and closing parentheses, and the types have no tuples and end in keywords or in
-- such words.
pub parse_function-print :
    (name : Text) (args : List Named) (return_type : Option DrvliType)
    → contains b'(' name ≡ false
    → AllPlain args
    → IsPlainReturn return_type
    → (parse_syscall (print_function name args return_type)
        ≡ done (record { name = name; args = args; return_type = return_type }))
      × (parse_method (print_function name args return_type)
          ≡ done (record { name = name; args = args; return_type = return_type }))
unfolding parse_syscall parse_method
parse_function-print name args r n a h =
    let head = split_once-append b'(' name (join (print_each args) ++ b')' ∷ print_return r) n in
    let tail =
      split_once-append b')' (join (print_each args)) (print_return r) (join-closed args a) in
    (
      rw (head, tail, parse_args-print args a, parse_return-print r h) refl,
      rw (head, tail, parse_args-print args a, parse_return-print r h) refl,
    )
