-- ===== src/Prelude/Run.antt =====
-- The outcome of a Rust function: a value, an `Err`, or a panic.
use mathlib.Core.Path.{◌≡◌, refl}
use mathlib.Core.Option.{Option, none, some}
use mathlib.Core.Bool.{Bool, true, false}

pub data Run {ℓ} (A : Type ℓ) : Type ℓ where
  done : A → Run A
  fail : Run A
  panic : Run A

infixl 5 ◌>>=◌ ◌>>◌
abbrev pub ◌>>=◌ {ℓ κ} : {A : Type ℓ} {B : Type κ} → Run A → (A → Run B) → Run B
done a >>= f = f a
fail >>= f = fail
panic >>= f = panic

-- The same by name, where another `>>=` is in use.
abbrev pub and_then {ℓ κ} : {A : Type ℓ} {B : Type κ} → Run A → (A → Run B) → Run B
and_then m f = m >>= f

abbrev pub ◌>>◌ {ℓ} : {B : Type ℓ} → Run (Unit {0}) → Run B → Run B
m >> k = m >>= λ _. k

-- `opt.unwrap()`, `assert!(b)` and `ensure!(b)`.
abbrev pub unwrap {ℓ} : {A : Type ℓ} → Option A → Run A
unwrap none = panic
unwrap (some a) = done a

abbrev pub assert : Bool → Run (Unit {0})
assert true = done tt
assert false = panic

abbrev pub ensure : Bool → Run (Unit {0})
ensure true = done tt
ensure false = fail

-- `opt.ok_or(..)?`
abbrev pub ok_or {ℓ} : {A : Type ℓ} → Option A → Run A
ok_or none = fail
ok_or (some a) = done a

pub done_injective {ℓ} : {A : Type ℓ} (a b : A) → done a ≡ done b → b ≡ a
done_injective a b h = cc

pub >>=-eq-done {ℓ κ} :
    {A : Type ℓ} {B : Type κ} (m : Run A) (f : A → Run B) {b : B}
    → (m >>= f) ≡ done b
    → (a : A) × (m ≡ done a) × (f a ≡ done b)
>>=-eq-done (done a) f h = (a, refl, h)
>>=-eq-done fail f h = cc
>>=-eq-done panic f h = cc
