-- ===== src/Common/Result.antt =====
-- `Result<A, E>` with `?` as the bind of a `do` block, and `map_err`.
use mathlib.Core.Path.{◌≡◌, refl, ap, subst}
use mathlib.Core.Logic.{◌↔◌, ◌⊎◌, inl, inr}
use mathlib.Core.Option.{Option, none, some, some-injective}
use mathlib.Core.Bool.{Bool, true, false, not}
use odp_platform_common.Common.{if◌then◌else◌}

pub data Result {ℓ κ} (A : Type ℓ) (E : Type κ) : Type (ℓ ⊔ κ) where
  ok : A → Result A E
  err : E → Result A E

module _ {ℓ κ μ} {A : Type ℓ} {B : Type κ} {E : Type μ} where
  infixl 5 ◌>>=◌
  abbrev pub ◌>>=◌ : Result A E → (A → Result B E) → Result B E
  err e >>= next = err e
  ok a >>= next = next a

  abbrev pub map_ok : (A → B) → Result A E → Result B E
  map_ok f (ok a) = ok (f a)
  map_ok f (err e) = err e

  -- Inversion of a successful bind.
  pub >>=-eq-ok :
      (r : Result A E) (next : A → Result B E) {b : B}
      → (r >>= next) ≡ ok b
      → (a : A) × (r ≡ ok a) × (next a ≡ ok b)
  >>=-eq-ok (err e) next h = cc
  >>=-eq-ok (ok a) next h = (a, refl, h)

  pub >>=-ok : (m : Result A E) (f : A → Result B E) {a : A} → m ≡ ok a → (m >>= f) ≡ f a
  >>=-ok m f h = ap (λ r. r >>= f) h

module _ {κ μ} {B : Type κ} {E : Type μ} where
  infixl 5 ◌>>◌
  abbrev pub ◌>>◌ : Result (Unit {0}) E → Result B E → Result B E
  m >> k = m >>= λ _. k

module _ {ℓ κ μ} {A : Type ℓ} {E : Type κ} {E' : Type μ} where
  abbrev pub map_err : (E → E') → Result A E → Result A E'
  map_err f (ok a) = ok a
  map_err f (err e) = err (f e)

module _ {ℓ κ} {A : Type ℓ} {E : Type κ} where
  pub ok-injective : {a b : A} → ◌≡◌ {A = Result A E} (ok a) (ok b) → a ≡ b
  ok-injective h = cc

  -- `o.ok_or_else(…)`.
  abbrev pub ok_or : Option A → E → Result A E
  ok_or none e = err e
  ok_or (some a) e = ok a

  abbrev pub is_ok : Result A E → Bool
  is_ok (ok a) = true
  is_ok (err e) = false

  abbrev pub is_err : Result A E → Bool
  is_err (ok a) = false
  is_err (err e) = true

-- Behind a test that refuses.
pub check-ok :
    {A E : Type 0} (b : Bool) (e : E) (r : Result A E) {a : A}
    → (if not b then err e else r) ≡ ok a
    → (b ≡ true) × (r ≡ ok a)
check-ok true e r h = (refl, h)
check-ok false e r h = cc

pub ok_or_iff : {A E : Type 0} (o : Option A) (e : E) (a : A) → (ok_or o e ≡ ok a) ↔ (o ≡ some a)
ok_or_iff none e a = (λ h. cc, λ h. cc)
ok_or_iff (some b) e a = (λ h. ap some (ok-injective h), λ h. ap ok (some-injective _ _ h))

pub refuse-ok :
    {A E : Type 0} (b : Bool) (e : E) (r : Result A E) {a : A}
    → (if b then err e else r) ≡ ok a
    → (b ≡ false) × (r ≡ ok a)
refuse-ok false e r h = (refl, h)
refuse-ok true e r h = cc

-- What a computation returns, if it returns a value, satisfies `Q`.
pub data Returns {ℓ κ μ} {A : Type ℓ} {E : Type κ} (Q : A → Type μ)
    : Result A E → Type (ℓ ⊔ κ ⊔ μ) where
  returned : {a : A} → Q a → Returns Q (ok a)
  refused : {e : E} → Returns Q (err e)

module _ {ℓ κ μ} {A : Type ℓ} {E : Type κ} {Q : A → Type μ} where
  pub Returns-if :
      (b : Bool) {x y : Result A E}
      → (b ≡ true → Returns Q x)
      → (b ≡ false → Returns Q y)
      → Returns Q (if b then x else y)
  Returns-if true h k = h refl
  Returns-if false h k = k refl

  pub Returns-ok : (r : Result A E) {a : A} → r ≡ ok a → Returns Q r → Q a
  Returns-ok r e (returned h) = subst Q (ok-injective e) h
  Returns-ok r e refused = cc

  pub Returns-of : (r : Result A E) → ((a : A) → r ≡ ok a → Q a) → Returns Q r
  Returns-of (ok a) h = returned (h a refl)
  Returns-of (err e) h = refused

  pub Returns->>= {ν} :
      {B : Type ν} (m : Result B E) {f : B → Result A E}
      → ((b : B) → m ≡ ok b → Returns Q (f b))
      → Returns Q (m >>= f)
  Returns->>= (ok b) h = h b refl
  Returns->>= (err e) h = refused

module _ {ℓ κ μ ν} {A : Type ℓ} {E : Type κ} {Q : A → Type μ} {R : A → Type ν} where
  pub Returns-mono : (r : Result A E) → Returns Q r → ((a : A) → Q a → R a) → Returns R r
  Returns-mono r (returned {a} h) f = returned (f a h)
  Returns-mono r refused f = refused

pub ruleset returns = (Returns-if, Returns->>=, returned, refused)

pub Result-cases :
    {A E : Type 0} (r : Result A E) → ((a : A) × (r ≡ ok a)) ⊎ ((e : E) × (r ≡ err e))
Result-cases (ok a) = inl (a, refl)
Result-cases (err e) = inr (e, refl)
