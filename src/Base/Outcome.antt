-- ===== src/Base/Outcome.antt =====
-- A call that returns a value or raises an error.
use mathlib.Core.Path.{◌≡◌, refl}
use mathlib.Core.Logic.{◌⊎◌, inl, inr}
use mathlib.Core.Bool.{Bool, true, false}

pub data Outcome {ℓ} (E : Type 0) (A : Type ℓ) : Type ℓ where
  raise : E → Outcome E A
  ok : A → Outcome E A

-- `if c: raise e`
abbrev pub raise_if : {E : Type 0} → Bool → E → Outcome E (Unit {0})
raise_if false code = ok tt
raise_if true code = raise code

-- The rest of a body runs on the value of a call, unless that call has raised.
infixl 5 ◌>>=◌ ◌>>◌
abbrev pub ◌>>=◌ {ℓ κ} :
    {E : Type 0} {A : Type ℓ} {B : Type κ} → Outcome E A → (A → Outcome E B) → Outcome E B
raise code >>= rest = raise code
ok value >>= rest = rest value

-- A statement that returns nothing, and what follows it.
abbrev pub ◌>>◌ {ℓ} : {E : Type 0} {A : Type ℓ} → Outcome E (Unit {0}) → Outcome E A → Outcome E A
check >> rest = check >>= λ done. rest

-- A sequence that returns has passed its check.
pub >>_ok {ℓ} :
    {E : Type 0} {A : Type ℓ} (check : Outcome E (Unit {0})) (rest : Outcome E A) {a : A}
    → (check >> rest) ≡ ok a
    → (check ≡ ok tt) × (rest ≡ ok a)
>>_ok (raise code) rest h = cc
>>_ok (ok tt) rest h = (refl, h)

pub Outcome-cases {ℓ} :
    {E : Type 0} {A : Type ℓ} (m : Outcome E A) → ((a : A) × (m ≡ ok a)) ⊎ ((e : E) × (m ≡ raise e))
Outcome-cases (raise e) = inr (e, refl)
Outcome-cases (ok a) = inl (a, refl)

-- A body that returns has had a value from its call.
pub >>=-eq-ok {ℓ κ} :
    {E : Type 0} {A : Type ℓ} {B : Type κ} (call : Outcome E A) (rest : A → Outcome E B) {b : B}
    → (call >>= rest) ≡ ok b
    → (a : A) × (call ≡ ok a) × (rest a ≡ ok b)
>>=-eq-ok (raise code) rest h = cc
>>=-eq-ok (ok value) rest h = (value, refl, h)

pub raise_if_ok : {E : Type 0} (b : Bool) (e : E) → raise_if b e ≡ ok tt → b ≡ false
raise_if_ok true e h = cc
raise_if_ok false e h = refl

pub raise_if-false : {E : Type 0} {b : Bool} (e : E) → b ≡ false → raise_if b e ≡ ok tt
raise_if-false e h = rw h refl

-- One check of a sequence has passed.
pub passed :
    {E : Type 0} (m : Outcome E (Unit {0})) (b : Bool) (e : E)
    → (m >> raise_if b e) ≡ ok tt
    → (m ≡ ok tt) × (b ≡ false)
passed m b e h = let (first, last) = >>_ok m (raise_if b e) h in (first, raise_if_ok b e last)

pub then_passes :
    {E : Type 0} {m : Outcome E (Unit {0})} {b : Bool} (e : E)
    → m ≡ ok tt
    → b ≡ false
    → (m >> raise_if b e) ≡ ok tt
then_passes e h k = rw (h, k) refl

pub ok_inj {ℓ} : {E : Type 0} {A : Type ℓ} {a b : A} → ◌≡◌ {A = Outcome E A} (ok a) (ok b) → a ≡ b
ok_inj h = cc
