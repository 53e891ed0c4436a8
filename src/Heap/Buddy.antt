-- ===== src/Heap/Buddy.antt =====
-- `Node` of kernel/src/heap/buddy.rs.
pub mod Invariant
pub mod Alloc
pub mod Total
pub mod Dealloc
pub mod Release
pub mod Largest
pub mod Fresh
use deravel_os.Prelude.{
  ℕ, zero, suc, ◌+◌, ◌-◌, ◌/◌, min, max, ltb, ◌==◌, if◌then◌else◌, Bool, ◌&&◌, ◌||◌, Option, none,
  some, Exec, done, panic, diverge, ◌>>=◌, ◌>>◌, assert, leb,
}

-- A node without children, and one with the box of two. The numbers are `max_available` and
-- `allocated`.
pub data Node : Type 0 where
  bare : ℕ → ℕ → Node
  split : ℕ → ℕ → Node → Node → Node

abbrev pub max_available : Node → ℕ
max_available (bare m a) = m
max_available (split m a l r) = m

abbrev pub allocated : Node → ℕ
allocated (bare m a) = a
allocated (split m a l r) = a

abbrev set_state : Node → ℕ → ℕ → Node
set_state (bare _ _) m a = bare m a
set_state (split _ _ l r) m a = split m a l r

-- What `update` stores in a node with these children.
unfoldable pub combine : ℕ → ℕ → ℕ → ℕ
combine l r n = if l == n / 2 && r == n / 2 then n else max l r

abbrev pub update : Node → ℕ → Node
update (bare m a) n = bare m a
update (split m a l r) n = split (combine (max_available l) (max_available r) n) a l r

-- The children, made where there are none.
abbrev pub get_children : Node → ℕ → Node × Node
get_children (bare m a) n = (bare (n / 2) 0, bare (n / 2) 0)
get_children (split m a l r) n = (l, r)

-- Fuel bounds the depth, `node_size` halves at each level.
new_step : (ℕ → ℕ → Exec Node) → ℕ → ℕ → Exec Node
new_step rec size n =
    if size == 0 then done (bare 0 0) else if size == n then done (bare n 0) else do
      assert (ltb size n)
      l ← rec (min (n / 2) size) (n / 2)
      r ← rec (size - n / 2) (n / 2)
      done (update (split 0 0 l r) n)

unfoldable pub new : ℕ → ℕ → ℕ → Exec Node
unfolding new_step
new zero size n = diverge
new (suc f) size n = new_step (new f) size n

-- The half that an allocation goes to: the tighter one of those that fit it.
abbrev pub goes_left : ℕ → ℕ → ℕ → Bool
goes_left req l r = leb req l && leb l r || ltb r req

-- `Node::alloc`. The option is the `Result`, `none` for `AllocError`; the node is what the call
-- leaves behind.
alloc_left : ℕ → Node → Node → Exec (Node × Option ℕ) → Exec (Node × Option ℕ)
alloc_left n t r call = do
  (l', res) ← call
  elim res [
    | none ↦ done (split (max_available t) (allocated t) l' r, none)
    | some p ↦ done (update (split (max_available t) (allocated t) l' r) n, some p)
  ]

alloc_right : ℕ → Node → Node → Exec (Node × Option ℕ) → Exec (Node × Option ℕ)
alloc_right n t l call = do
  (r', res) ← call
  elim res [
    | none ↦ done (split (max_available t) (allocated t) l r', none)
    | some p ↦ done (update (split (max_available t) (allocated t) l r') n, some (p + n / 2))
  ]

alloc_step : (ℕ → ℕ → Node → Exec (Node × Option ℕ)) → ℕ → ℕ → Node → Exec (Node × Option ℕ)
unfolding alloc_left alloc_right
alloc_step rec req n t =
    if ltb (max_available t) req
    then done (t, none)
    else if ltb (n / 2) req
    then (do assert (max_available t == n); done (set_state t 0 req, some 0))
    else let (l, r) = get_children t n in
      if goes_left req (max_available l) (max_available r)
      then (do assert (leb req (max_available l)); alloc_left n t r (rec req (n / 2) l))
      else do assert (leb req (max_available r)); alloc_right n t l (rec req (n / 2) r)

unfoldable pub alloc : ℕ → ℕ → ℕ → Node → Exec (Node × Option ℕ)
unfolding alloc_step
alloc zero req n t = diverge
alloc (suc f) req n t = alloc_step (alloc f) req n t

-- `Node::dealloc` walks the tree that is there.
unfoldable pub dealloc : ℕ → ℕ → ℕ → Node → Exec Node
dealloc ptr req n (bare m a) =
    if ptr == 0 && ltb (n / 2) req
    then (do assert (m == 0); assert (a == req); done (bare n 0))
    else panic
dealloc ptr req n (split m a l r) =
    let left : Exec Node = dealloc ptr req (n / 2) l in
    let right : Exec Node = dealloc (ptr - n / 2) req (n / 2) r in
    if ptr == 0 && ltb (n / 2) req
    then (do assert (m == 0); assert (a == req); done (split n 0 l r))
    else if ltb ptr (n / 2)
    then (do l' ← left; done (update (split m a l' r) n))
    else do r' ← right; done (update (split m a l r') n)

-- `Node::reserve_range`, on the range from `s` to `e`.
reserve_step : (ℕ → ℕ → ℕ → Node → Exec Node) → ℕ → ℕ → ℕ → Node → Exec Node
reserve_step rec s e n t =
    if s == 0 && e == n
    then (do assert (max_available t == n); done (set_state t 0 (allocated t)))
    else let (l, r) = get_children t n in
      (do
        l' ← if ltb s (n / 2) then rec s (min e (n / 2)) (n / 2) l else done l
        r' ← if ltb (n / 2) e then rec (max s (n / 2) - n / 2) (e - n / 2) (n / 2) r else done r
        done (update (split (max_available t) (allocated t) l' r') n))

unfoldable pub reserve_range : ℕ → ℕ → ℕ → ℕ → Node → Exec Node
unfolding reserve_step
reserve_range zero s e n t = diverge
reserve_range (suc f) s e n t = reserve_step (reserve_range f) s e n t

-- `HeapStats` of kernel/src/heap/stats.rs, and `Node::stats`.
pub record HeapStats : Type 0 where
  pub alloc : ℕ
  pub free : ℕ

unfoldable pub stats : Node → HeapStats
stats (bare m a) = if a == 0 then record { alloc = 0; free = m } else record { alloc = a; free = 0 }
stats (split m a l r) =
    if a == 0
    then record {
      alloc = HeapStats.alloc (stats l) + HeapStats.alloc (stats r);
      free = (stats l).free + (stats r).free;
    }
    else record { alloc = a; free = 0 }
