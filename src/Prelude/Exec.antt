-- ===== src/Prelude/Exec.antt =====
-- Methods that change an object and may raise. What was written before a raise stays written, so
-- the state comes back beside the error too. Of an exception its class is kept, not its message;
-- Pydantic's ValidationError is a ValueError.
use mathlib.Core.Path.{◌≡◌, refl}
use mathlib.Core.Logic.{◌⊎◌, inl, inr}

pub data Error : Type 0 where
  value_error key_error runtime_error assertion_error : Error

pub data Result {ℓ} (A : Type ℓ) : Type ℓ where
  ok : A → Result A
  err : Error → Result A

abbrev pub Exec {ℓ} : Type ℓ → Type ℓ → Type ℓ
Exec S A = S → Result A × S

infixl 5 ◌>>=◌
-- a chain of computations that may raise and change no state
abbrev pub ◌>>=◌ {κ μ} : {S : Type κ} {T : Type μ} → Result S → (S → Result T) → Result T
ok value >>= next = next value
err error >>= next = err error

-- the rest of a method after a call that returned a state
abbrev pub after {ℓ} : {S A B : Type ℓ} → Result A × S → (A → Exec S B) → Result B × S
after (ok a, s) f = f a s
after (err e, s) f = (err e, s)

-- the rest of a method after a pure computation that may raise
abbrev pub check {ℓ} : {S A B : Type ℓ} → Result A → (A → Exec S B) → Exec S B
check (ok a) f s = f a s
check (err e) f s = (err e, s)

pub Result-cases {ℓ} :
    {A : Type ℓ} (r : Result A) → ((a : A) × (r ≡ ok a)) ⊎ ((e : Error) × (r ≡ err e))
Result-cases (ok a) = inl (a, refl)
Result-cases (err e) = inr (e, refl)

-- Inversion of a chain that returned.
pub bind-eq-ok {κ μ} :
    {S : Type κ} {T : Type μ} (first : Result S) (next : S → Result T) {out : T}
    → (first >>= next) ≡ ok out
    → (value : S) × (first ≡ ok value) × (next value ≡ ok out)
bind-eq-ok (ok value) next h = (value, refl, h)
bind-eq-ok (err error) next h = cc

pub bind_assoc {ℓ} :
    {A B C : Type ℓ} (m : Result A) (f : A → Result B) (g : B → Result C)
    → ((m >>= f) >>= g) ≡ (m >>= λ a. f a >>= g)
bind_assoc (ok a) f g = refl
bind_assoc (err e) f g = refl

-- A method goes on after a call that returned.
pub after-ok {ℓ} :
    {S A B : Type ℓ} (x : Result A × S) (a : A) (f : A → Exec S B)
    → x.0 ≡ ok a
    → after x f ≡ f a x.1
after-ok (ok b, s) a f e = cc (e)
after-ok (err e, s) a f h = cc

-- A last step that only changes what is returned leaves the state.
pub after-state {ℓ} :
    {S A B : Type ℓ} (x : Result A × S) (f : A → B) → (after x (λ a t. (ok (f a), t))).1 ≡ x.1
after-state (ok a, t) f = refl
after-state (err e, t) f = refl

-- Inversion of a call and the rest of its method.
pub after-eq-ok {ℓ} :
    {S A B : Type ℓ} (x : Result A × S) (f : A → Exec S B) (out : B) (d : S)
    → after x f ≡ (ok out, d)
    → (a : A) × (c : S) × (x ≡ (ok a, c)) × (f a c ≡ (ok out, d))
after-eq-ok (ok a, c) f out d h = (a, c, refl, h)
after-eq-ok (err e, c) f out d h = cc
