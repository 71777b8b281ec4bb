-- ===== src/Prelude/Results.antt =====
-- `Result`, `io::Error` by its kind, and `?` as a bind. Message texts are not modelled.
use mathlib.Core.Path.{◌≡◌, refl, subst}
use mathlib.Core.Bool.{Bool, true, false}
use mathlib.Core.Option.{Option, none, some}
use mathlib.Core.Logic.{◌⊎◌, inl, inr}

-- The kinds of `io::ErrorKind` that the source makes or tells apart. `out_of_fuel` is none of them:
-- it says that a bound of this model on the rounds of a loop was too small.
pub data ErrorKind : Type 0 where
  unexpected_eof invalid_data invalid_input unsupported not_found out_of_memory other out_of_fuel :
      ErrorKind

pub data Result {ℓ} (E : Type 0) (A : Type ℓ) : Type ℓ where
  ok : A → Result E A
  err : E → Result E A

-- `io::Result<A>`.
abbrev pub IoResult {ℓ} : Type ℓ → Type ℓ
IoResult A = Result ErrorKind A

infixl 5 ◌>>=◌ ◌>>◌
abbrev pub ◌>>=◌ {ℓ κ} :
    {E : Type 0} {A : Type ℓ} {B : Type κ} → Result E A → (A → Result E B) → Result E B
ok a >>= f = f a
err e >>= f = err e

abbrev pub ◌>>◌ {ℓ} : {E : Type 0} {B : Type ℓ} → Result E (Unit {0}) → Result E B → Result E B
m >> k = m >>= λ _. k

-- `ok_or`.
abbrev pub ok_or {ℓ} : {E : Type 0} {A : Type ℓ} → Option A → E → Result E A
ok_or none e = err e
ok_or (some a) e = ok a

abbrev pub map_err {ℓ} : {E F : Type 0} {A : Type ℓ} → Result E A → (E → F) → Result F A
map_err (ok a) f = ok a
map_err (err e) f = err (f e)

-- `if !test { return Err(e) }`.
abbrev pub guard : {E : Type 0} → Bool → E → Result E (Unit {0})
guard true e = ok tt
guard false e = err e

pub err_ne_ok {ℓ} :
    {E : Type 0} {A : Type ℓ} {e : E} {a : A} → ◌≡◌ {A = Result E A} (err e) (ok a) → ⊥
err_ne_ok h = cc

-- What a chain of steps returns comes from its first step.
pub >>=_ok {ℓ κ μ} :
    {E : Type 0} {A : Type ℓ} {B : Type κ} {C : Type μ} (m : Result E A) (f : A → Result E B)
    {b : B}
    → (m >>= f) ≡ ok b
    → ((a : A) → m ≡ ok a → f a ≡ ok b → C)
    → C
>>=_ok (ok a) f h k = k a refl h
>>=_ok (err e) f h k = absurd (err_ne_ok h)

pub ok-injective {ℓ} :
    {E : Type 0} {A : Type ℓ} {a b : A} → ◌≡◌ {A = Result E A} (ok a) (ok b) → a ≡ b
ok-injective h = cc

pub >>=_assoc {ℓ κ μ} :
    {E : Type 0} {A : Type ℓ} {B : Type κ} {C : Type μ} (m : Result E A) (f : A → Result E B)
    (g : B → Result E C)
    → ((m >>= f) >>= g) ≡ (m >>= λ a. f a >>= g)
>>=_assoc (ok a) f g = refl
>>=_assoc (err e) f g = refl

pub Result-cases {ℓ} :
    {E : Type 0} {A : Type ℓ} (r : Result E A) → ((a : A) × (r ≡ ok a)) ⊎ ((e : E) × (r ≡ err e))
Result-cases (ok a) = inl (a, refl)
Result-cases (err e) = inr (e, refl)

pub guard-eq-ok : {E : Type 0} (b : Bool) (e : E) {u : Unit {0}} → guard b e ≡ ok u → b ≡ true
guard-eq-ok true e h = refl
guard-eq-ok false e h = cc

pub map_err-eq-ok {ℓ} :
    {E F : Type 0} {A : Type ℓ} (r : Result E A) (f : E → F) {a : A} → map_err r f ≡ ok a → r ≡ ok a
map_err-eq-ok (ok a) f h = cc
map_err-eq-ok (err e) f h = cc

pub ok_or-eq-ok {ℓ} :
    {E : Type 0} {A : Type ℓ} (o : Option A) (e : E) {a : A} → ok_or o e ≡ ok a → o ≡ some a
ok_or-eq-ok none e h = cc
ok_or-eq-ok (some a) e h = cc

-- Any error but the one that is none of the source's.
abbrev pub IsError : ErrorKind → Type 0
IsError ErrorKind.out_of_fuel = ⊥
IsError _ = Unit

-- Every value that a computation returns satisfies `P`, and it never runs out of this model's fuel.
abbrev pub EnsuresAt : {A : Type 0} → (A → Type 0) → IoResult A → Type 0
EnsuresAt P (ok a) = P a
EnsuresAt P (err e) = IsError e

pub record Ensures {A : Type 0} (P : A → Type 0) (r : IoResult A) : Type 0 where
  pub at : EnsuresAt P r

pub Ensures-ok : {A : Type 0} {P : A → Type 0} {a : A} → P a → Ensures P (ok a)
Ensures-ok p = record { at = p }

pub Ensures-bind :
    {A B : Type 0} {P : A → Type 0} {Q : B → Type 0} (m : IoResult A) (f : A → IoResult B)
    → Ensures P m
    → ((a : A) → P a → Ensures Q (f a))
    → Ensures Q (m >>= f)
Ensures-bind (ok a) f h k = k a h.at
Ensures-bind (err e) f h k = record { at = h.at }

pub Ensures-guard :
    {B : Type 0} {Q : B → Type 0} (b : Bool) (e : ErrorKind) (f : Unit {0} → IoResult B)
    → IsError e
    → (b ≡ true → Ensures Q (f tt))
    → Ensures Q (guard b e >>= f)
Ensures-guard true e f h k = k refl
Ensures-guard false e f h k = record { at = h }

-- A step that is known to return.
pub Ensures-step :
    {A B : Type 0} {Q : B → Type 0} (m : IoResult A) (f : A → IoResult B) {a : A}
    → m ≡ ok a
    → Ensures Q (f a)
    → Ensures Q (m >>= f)
Ensures-step m f e q = rw e q

pub Ensures-map :
    {A : Type 0} {P Q : A → Type 0} (r : IoResult A)
    → ((a : A) → P a → Q a)
    → Ensures P r
    → Ensures Q r
Ensures-map (ok a) f h = record { at = f a h.at }
Ensures-map (err e) f h = record { at = h.at }

pub err-injective {ℓ} :
    {E : Type 0} {A : Type ℓ} {a b : E} → ◌≡◌ {A = Result E A} (err a) (err b) → a ≡ b
err-injective h = cc

pub Ensures-eq-ok :
    {A : Type 0} {P : A → Type 0} (r : IoResult A) {a : A} → Ensures P r → r ≡ ok a → P a
Ensures-eq-ok {P = P} (ok a) h e = subst P (ok-injective e) h.at
Ensures-eq-ok (err x) h e = cc

pub Ensures-eq-err :
    {A : Type 0} {P : A → Type 0} (r : IoResult A) {x : ErrorKind}
    → Ensures P r
    → r ≡ err x
    → IsError x
Ensures-eq-err (ok a) h e = cc
Ensures-eq-err (err x) h e = subst IsError (err-injective e) h.at

-- A computation returns a value, and that value satisfies `P`.
abbrev pub SucceedsAt : {A : Type 0} → (A → Type 0) → IoResult A → Type 0
SucceedsAt P (ok a) = P a
SucceedsAt P (err e) = ⊥

pub record Succeeds {A : Type 0} (P : A → Type 0) (r : IoResult A) : Type 0 where
  pub at : SucceedsAt P r

pub Succeeds-ok : {A : Type 0} {P : A → Type 0} {a : A} → P a → Succeeds P (ok a)
Succeeds-ok p = record { at = p }

pub Succeeds-bind :
    {A B : Type 0} {P : A → Type 0} {Q : B → Type 0} (m : IoResult A) (f : A → IoResult B)
    → Succeeds P m
    → ((a : A) → P a → Succeeds Q (f a))
    → Succeeds Q (m >>= f)
Succeeds-bind (ok a) f h k = k a h.at
Succeeds-bind (err e) f h k = absurd h.at

pub Succeeds-step :
    {A B : Type 0} {Q : B → Type 0} (m : IoResult A) (f : A → IoResult B) {a : A}
    → m ≡ ok a
    → Succeeds Q (f a)
    → Succeeds Q (m >>= f)
Succeeds-step m f e q = rw e q

pub Succeeds-Ensures :
    {A : Type 0} {P Q : A → Type 0} (r : IoResult A) → Succeeds Q r → Ensures P r → Succeeds P r
Succeeds-Ensures (ok a) s h = record { at = h.at }
Succeeds-Ensures (err e) s h = absurd s.at

pub Succeeds-map :
    {A : Type 0} {P Q : A → Type 0} (r : IoResult A)
    → ((a : A) → P a → Q a)
    → Succeeds P r
    → Succeeds Q r
Succeeds-map (ok a) f h = record { at = f a h.at }
Succeeds-map (err e) f h = absurd h.at
