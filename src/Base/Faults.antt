-- ===== src/Base/Faults.antt =====
-- Results of code that may fault: read or write outside an allocation, or loop for ever.
use mathlib.Core.Path.{◌≡◌, refl, ap}

-- `out_of_fuel` says that a loop has made more rounds than it was given, `blocked` that a call waits
-- for what never comes.
pub data Fault : Type 0 where
  out_of_bounds out_of_fuel blocked : Fault

pub data Outcome {ℓ} (A : Type ℓ) : Type ℓ where
  ok : A → Outcome A
  err : Fault → Outcome A

infixl 5 ◌>>=◌
abbrev pub ◌>>=◌ {ℓ κ} : {A : Type ℓ} {B : Type κ} → Outcome A → (A → Outcome B) → Outcome B
ok result >>= next = next result
err fault >>= next = err fault

value_or {ℓ} : {A : Type ℓ} → A → Outcome A → A
value_or a (ok b) = b
value_or a (err e) = a

pub ok-injective {ℓ} : {A : Type ℓ} {a b : A} → ok a ≡ ok b → a ≡ b
unfolding value_or
ok-injective {a} h = ap (value_or a) h

-- What a computation goes on with counts only where it has a result.
pub bind-ok {ℓ κ} :
    {A : Type ℓ} {B : Type κ} (x : Outcome A) {f g : A → Outcome B}
    → ((a : A) → x ≡ ok a → f a ≡ g a)
    → (x >>= f) ≡ (x >>= g)
bind-ok (ok a) same = same a refl
bind-ok (err e) same = refl

pub bind_assoc {ℓ κ μ} :
    {A : Type ℓ} {B : Type κ} {C : Type μ} (x : Outcome A) (f : A → Outcome B) (g : B → Outcome C)
    → ((x >>= f) >>= g) ≡ (x >>= λ a. f a >>= g)
bind_assoc (ok a) f g = refl
bind_assoc (err e) f g = refl

-- The property holds of the result, if there is one.
abbrev pub Gives {ℓ} : {A : Type ℓ} → (A → Type 0) → Outcome A → Type 0
Gives P (ok a) = P a
Gives P (err e) = Unit

pub Gives-bind {ℓ κ} :
    {A : Type ℓ} {B : Type κ} (P : B → Type 0) (x : Outcome A) (f : A → Outcome B)
    → ((a : A) → Gives P (f a))
    → Gives P (x >>= f)
Gives-bind P (ok a) f h = h a
Gives-bind P (err e) f h = tt

pub Gives-then {ℓ κ} :
    {A : Type ℓ} {B : Type κ} (P : A → Type 0) (Q : B → Type 0) (x : Outcome A) (f : A → Outcome B)
    → Gives P x
    → ((a : A) → P a → Gives Q (f a))
    → Gives Q (x >>= f)
Gives-then P Q (ok a) f h next = next a h
Gives-then P Q (err e) f h next = tt

-- There is a result, and the property holds of it.
abbrev pub Succeeds {ℓ} : {A : Type ℓ} → (A → Type 0) → Outcome A → Type 0
Succeeds P (ok a) = P a
Succeeds P (err e) = ⊥

pub Succeeds-bind {ℓ κ} :
    {A : Type ℓ} {B : Type κ} (P : A → Type 0) (Q : B → Type 0) (x : Outcome A) (f : A → Outcome B)
    → Succeeds P x
    → ((a : A) → P a → Succeeds Q (f a))
    → Succeeds Q (x >>= f)
Succeeds-bind P Q (ok a) f h next = next a h
Succeeds-bind P Q (err e) f h next = h

pub Succeeds-weaken {ℓ} :
    {A : Type ℓ} (P Q : A → Type 0) (x : Outcome A)
    → Succeeds P x
    → ((a : A) → P a → Q a)
    → Succeeds Q x
Succeeds-weaken P Q (ok a) h next = next a h
Succeeds-weaken P Q (err e) h next = h

pub Succeeds-ok {ℓ} :
    {A : Type ℓ} (P : A → Type 0) (x : Outcome A) → Succeeds P x → (a : A) × (x ≡ ok a) × P a
Succeeds-ok P (ok a) h = (a, refl, h)
Succeeds-ok P (err e) h = absurd h

pub Succeeds-of-Gives {ℓ} :
    {A : Type ℓ} (P Q : A → Type 0) (o : Outcome A) → Succeeds P o → Gives Q o → Succeeds Q o
Succeeds-of-Gives P Q (ok a) h g = g
Succeeds-of-Gives P Q (err e) h g = h

-- There is a result with the property, or the call waits for ever and there is a reason for it; there
-- is no other fault.
abbrev pub Settles {ℓ} : {A : Type ℓ} → (A → Type 0) → Type 0 → Outcome A → Type 0
Settles P W (ok a) = P a
Settles P W (err out_of_bounds) = ⊥
Settles P W (err out_of_fuel) = ⊥
Settles P W (err blocked) = W

pub Settles-of-Succeeds {ℓ} :
    {A : Type ℓ} (P : A → Type 0) (W : Type 0) (o : Outcome A) → Succeeds P o → Settles P W o
Settles-of-Succeeds P W (ok a) h = h
Settles-of-Succeeds P W (err e) h = absurd h

pub Succeeds-and-Gives {ℓ} :
    {A : Type ℓ} (P Q : A → Type 0) (o : Outcome A)
    → Succeeds P o
    → Gives Q o
    → Succeeds (λ a. P a × Q a) o
Succeeds-and-Gives P Q (ok a) h g = (h, g)
Succeeds-and-Gives P Q (err e) h g = h
