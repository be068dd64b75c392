-- ===== src/Base/Raise.antt =====
-- A computation that returns a value or raises an exception.
use mathlib.Core.Path.{◌≡◌, refl, ap}
use mathlib.Core.Logic.{◌⊎◌, inl, inr}
use mathlib.Core.Bool.{Bool, true, false}
use mathlib.Core.Option.{Option, none, some}

pub data Result (E A : Type 0) : Type 0 where
  ok : A → Result E A
  err : E → Result E A

infixl 5 ◌>>=◌ ◌>>◌
-- `try: m except e: h(e)`
abbrev pub catch : {E F A : Type 0} → Result E A → (E → Result F A) → Result F A
catch (ok a) h = ok a
catch (err e) h = h e

-- What follows a statement that raised is not run.
abbrev pub ◌>>=◌ : {E A B : Type 0} → Result E A → (A → Result E B) → Result E B
(err exception) >>= rest = err exception
(ok value) >>= rest = rest value

-- What a sequence that returns has run through.
pub >>=-eq-ok :
    {E A B : Type 0} (action : Result E A) (rest : A → Result E B) {result : B}
    → (action >>= rest) ≡ ok result
    → (value : A) × (action ≡ ok value) × (rest value ≡ ok result)
>>=-eq-ok (err exception) rest returned = cc
>>=-eq-ok (ok value) rest returned = (value, refl, returned)

abbrev pub ◌>>◌ : {E B : Type 0} → Result E (Unit {0}) → Result E B → Result E B
check >> rest = check >>= λ passed. rest

pub ok-injective : {E A : Type 0} {a b : A} → Path (Result E A) (ok a) (ok b) → a ≡ b
ok-injective {E} {A} {a} h = ap (λ (r : Result E A). elim r [ ok b ↦ b | err e ↦ a ]) h

-- `if x is None: raise e`
abbrev pub require : {E A : Type 0} → E → Option A → Result E A
require e (some a) = ok a
require e none = err e

-- `if not b: raise e`
abbrev pub ensure : {E : Type 0} → Bool → E → Result E (Unit {0})
ensure false e = err e
ensure true e = ok tt

pub require-ok : {E A : Type 0} (e : E) (o : Option A) {a : A} → require e o ≡ ok a → o ≡ some a
require-ok e (some b) h = ap some (ok-injective h)
require-ok e none h = cc

pub ensure-ok : {E : Type 0} (b : Bool) (e : E) {u : Unit {0}} → ensure b e ≡ ok u → b ≡ true
ensure-ok true e h = refl
ensure-ok false e h = cc

pub Result-cases :
    {E A : Type 0} (r : Result E A) → ((a : A) × (r ≡ ok a)) ⊎ ((e : E) × (r ≡ err e))
Result-cases (ok a) = inl (a, refl)
Result-cases (err e) = inr (e, refl)

abbrev pub returns : {E A : Type 0} → Result E A → Bool
returns (ok a) = true
returns (err e) = false

pub returns-ok : {E A : Type 0} (r : Result E A) → returns r ≡ true → (a : A) × (r ≡ ok a)
returns-ok (ok a) h = (a, refl)
returns-ok (err e) h = cc
