-- ===== src/Prelude/Effects.antt =====
-- How a call ends: with a value, in a panic, or without an end (fuel of a modelled loop used up).
-- A Rust `Result` or `Option` that the code returns is a value, so that the state an error
-- leaves behind is kept.
use Prim.Native.Nat.{ℕ, ◌+◌, ◌-◌, ◌*◌, ◌/◌, ◌^◌}
use mathlib.Core.Path.{◌≡◌, refl}
use mathlib.Core.Bool.{Bool, true, false}
use mathlib.Core.Option.{Option, none, some}
use deravel_os.Prelude.Tests.{ltb, leb, if◌then◌else◌}

pub data Exec {ℓ} (A : Type ℓ) : Type ℓ where
  done : A → Exec A
  panic : Exec A
  diverge : Exec A

infixl 5 ◌>>=◌ ◌>>◌
abbrev pub ◌>>=◌ {ℓ κ} : {A : Type ℓ} {B : Type κ} → Exec A → (A → Exec B) → Exec B
done a >>= f = f a
panic >>= f = panic
diverge >>= f = diverge

abbrev pub ◌>>◌ {ℓ} : {B : Type ℓ} → Exec (Unit {0}) → Exec B → Exec B
m >> k = m >>= λ _. k

-- `assert!`, and the conditions under which an operation of the language panics.
abbrev pub assert : Bool → Exec (Unit {0})
assert true = done tt
assert false = panic

-- `unwrap` and `expect`.
abbrev pub unwrap {ℓ} : {A : Type ℓ} → Option A → Exec A
unwrap none = panic
unwrap (some a) = done a

-- `usize` and `u64` arithmetic of a debug build, which panics on overflow.
abbrev pub usize_mod : ℕ
usize_mod = 2 ^ 64

abbrev pub add_usize : ℕ → ℕ → Exec ℕ
add_usize a b = if ltb (a + b) usize_mod then done (a + b) else panic

abbrev pub sub_usize : ℕ → ℕ → Exec ℕ
sub_usize a b = if leb b a then done (a - b) else panic

abbrev pub mul_usize : ℕ → ℕ → Exec ℕ
mul_usize a b = if ltb (a * b) usize_mod then done (a * b) else panic

-- Inversion of a bind that ends with a value.
pub >>=-eq-done {ℓ κ} :
    {A : Type ℓ} {B : Type κ} (m : Exec A) (f : A → Exec B) {b : B}
    → (m >>= f) ≡ done b
    → (a : A) × (m ≡ done a) × (f a ≡ done b)
>>=-eq-done (done a) f h = (a, refl, h)
>>=-eq-done panic f h = cc
>>=-eq-done diverge f h = cc

pub done-injective {ℓ} : {A : Type ℓ} {a b : A} → done a ≡ done b → a ≡ b
done-injective h = cc h

-- `u32` arithmetic of a debug build.
abbrev pub u32_mod : ℕ
u32_mod = 2 ^ 32

abbrev pub add_u32 : ℕ → ℕ → Exec ℕ
add_u32 a b = if ltb (a + b) u32_mod then done (a + b) else panic

abbrev pub mul_u32 : ℕ → ℕ → Exec ℕ
mul_u32 a b = if ltb (a * b) u32_mod then done (a * b) else panic

-- Division, which panics at 0.
abbrev pub div_checked : ℕ → ℕ → Exec ℕ
div_checked a b = if ltb 0 b then done (a / b) else panic
