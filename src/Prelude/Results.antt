-- ===== src/Prelude/Results.antt =====
-- What a call of the library returns: a value, a `ParquetError` of errors.rs, or a panic (a failed
-- `assert!`, an index out of range). The text of an error message is left out. `running` is the result
-- of no call of the code: the fuel of a loop or a recursion is used up, and it has not ended.
use mathlib.Core.Path.{◌≡◌, refl, ap, ◌∙◌}
use mathlib.Core.Bool.{Bool, true, false}
use mathlib.Core.Option.{Option, none, some}

-- The variants of `ParquetError`.
pub data ParquetError : Type 0 where
  general nyi eof : ParquetError

pub data Outcome {ℓ} (A : Type ℓ) : Type ℓ where
  running panic : Outcome A
  err : ParquetError → Outcome A
  ok : A → Outcome A

-- `assert!(test)`
abbrev pub assert : Bool → Outcome (Unit {0})
assert false = panic
assert true = ok tt

-- A read out of range, `unwrap` and `expect` of `None`.
abbrev pub unwrap {ℓ} : {A : Type ℓ} → Option A → Outcome A
unwrap none = panic
unwrap (some value) = ok value

-- What follows is run after a success only.
infixl 5 ◌>>=◌
abbrev pub ◌>>=◌ {ℓ ℓ'} : {A : Type ℓ} → {B : Type ℓ'} → Outcome A → (A → Outcome B) → Outcome B
running >>= next = running
panic >>= next = panic
err error >>= next = err error
ok value >>= next = next value

infixl 5 ◌>>◌
abbrev pub ◌>>◌ {ℓ} : {A : Type ℓ} → Outcome (Unit {0}) → Outcome A → Outcome A
running >> next = running
panic >> next = panic
err error >> next = err error
ok checked >> next = next

-- `if test { return Err(general_err!(...)) }`
abbrev pub reject : Bool → Outcome (Unit {0})
reject true = err general
reject false = ok tt

-- A chain of calls returns a value if each of its calls does.
pub bind_ok {ℓ ℓ'} :
    {A : Type ℓ}
    → {B : Type ℓ'} (o : Outcome A) (next : A → Outcome B) → {b : B} → (o >>= next) ≡ ok b
    → (a : A) × (o ≡ ok a) × (next a ≡ ok b)
bind_ok running next h = cc h
bind_ok panic next h = cc h
bind_ok (err e) next h = cc h
bind_ok (ok a) next h = (a, refl, h)

-- What follows a call may use that the call succeeded.
pub bind_congr {ℓ ℓ'} :
    {A : Type ℓ}
    → {B : Type ℓ'} (o : Outcome A) (f g : A → Outcome B) → ((a : A) → o ≡ ok a → f a ≡ g a)
    → (o >>= f) ≡ (o >>= g)
bind_congr running f g h = refl
bind_congr panic f g h = refl
bind_congr (err e) f g h = refl
bind_congr (ok a) f g h = h a refl

pub then_ok {ℓ} :
    {A : Type ℓ} (checked : Outcome (Unit {0})) (next : Outcome A)
    → {a : A} → (checked >> next) ≡ ok a
    → next ≡ ok a
then_ok running next h = cc h
then_ok panic next h = cc h
then_ok (err e) next h = cc h
then_ok (ok u) next h = h

-- A call that is known to return a value goes on with it.
pub bind_to {ℓ ℓ'} :
    {A : Type ℓ}
    → {B : Type ℓ'} (o : Outcome A) (a : A) (next : A → Outcome B) {b : Outcome B} → o ≡ ok a
    → next a ≡ b
    → (o >>= next) ≡ b
bind_to o a next e h = ap (λ x. x >>= next) e ∙ h

-- The call comes to an end: by a value, an error or a panic.
abbrev pub Ends {ℓ} : {A : Type ℓ} → Outcome A → Type 0
Ends running = ⊥
Ends panic = Unit
Ends (err error) = Unit
Ends (ok value) = Unit

pub bind-Ends {ℓ ℓ'} :
    {A : Type ℓ}
    → {B : Type ℓ'} (o : Outcome A) (next : A → Outcome B) → Ends o
    → ((a : A) → o ≡ ok a → Ends (next a))
    → Ends (o >>= next)
bind-Ends running next h k = h
bind-Ends panic next h k = tt
bind-Ends (err e) next h k = tt
bind-Ends (ok a) next h k = k a refl

pub then-Ends {ℓ} :
    {A : Type ℓ} (checked : Outcome (Unit {0})) (next : Outcome A)
    → Ends checked
    → Ends next
    → Ends (checked >> next)
then-Ends running next h k = h
then-Ends panic next h k = tt
then-Ends (err e) next h k = tt
then-Ends (ok u) next h k = k

pub reject-Ends : (test : Bool) → Ends (reject test)
reject-Ends true = tt
reject-Ends false = tt

pub unwrap-Ends {ℓ} : {A : Type ℓ} (o : Option A) → Ends (unwrap o)
unwrap-Ends none = tt
unwrap-Ends (some a) = tt

-- A call that ends is not one that is still running.
pub Ends-running {ℓ} : {A : Type ℓ} (o : Outcome A) → Ends o → ¬ (o ≡ running)
Ends-running running h e = h
Ends-running panic h e = cc e
Ends-running (err error) h e = cc e
Ends-running (ok value) h e = cc e
