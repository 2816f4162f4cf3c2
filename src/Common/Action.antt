-- ===== src/Common/Action.antt =====
-- Fallible code that changes a state: the state it leaves, and its result.
use mathlib.Core.Path.{◌≡◌, refl, ap, subst}
use odp_platform_common.Common.Result.{Result, ok, err, ok-injective}

abbrev pub Action : Type 0 → Type 0 → Type 0 → Type 0
Action S E A = S → S × Result A E

module _ {S E A B : Type 0} where
  abbrev pub continue_with : S × Result A E → (A → Action S E B) → S × Result B E
  continue_with (s, ok a) f = f a s
  continue_with (s, err e) f = (s, err e)

  pub continue_with-ok :
      (r : S × Result A E) (f : A → Action S E B) {s : S} {a : A}
      → r ≡ (s, ok a)
      → continue_with r f ≡ f a s
  continue_with-ok r f e = ap (λ q. continue_with q f) e

  infixl 5 ◌>>=◌
  abbrev pub ◌>>=◌ : Action S E A → (A → Action S E B) → Action S E B
  ◌>>=◌ m f s = continue_with (m s) f

  infixl 5 ◌>>◌
  abbrev pub ◌>>◌ : Action S E A → Action S E B → Action S E B
  ◌>>◌ m k s = continue_with (m s) (λ _. k)

module _ {S E A : Type 0} where
  -- Code that leaves the state alone.
  abbrev pub lift : Result A E → Action S E A
  lift r s = (s, r)

-- What an action returns, if it returns a value, satisfies `Q` with the state it leaves.
pub data Ends {S E A : Type 0} (Q : S → A → Type 0) : S × Result A E → Type 0 where
  ended : {s : S} {a : A} → Q s a → Ends Q (s, ok a)
  failed : {s : S} {e : E} → Ends Q (s, err e)

module _ {S E A : Type 0} {Q : S → A → Type 0} where
  pub Ends-ok : (r : S × Result A E) {s' : S} {a' : A} → r ≡ (s', ok a') → Ends Q r → Q s' a'
  Ends-ok r {s'} {a'} h (ended {s} {a} q) =
      let state = ap (λ p. p.0) h in
      let value = ok-injective (ap (λ p. p.1) h) in subst (λ t. Q t a') state (subst (Q s) value q)
  Ends-ok r h failed = cc

  pub Ends-of : (r : S × Result A E) → ((s : S) (a : A) → r ≡ (s, ok a) → Q s a) → Ends Q r
  Ends-of (s, ok a) h = ended (h s a refl)
  Ends-of (s, err e) h = failed

  pub Ends-mono :
      {R : S → A → Type 0} (r : S × Result A E)
      → Ends Q r
      → ((s : S) (a : A) → Q s a → R s a)
      → Ends R r
  Ends-mono r (ended {s} {a} q) f = ended (f s a q)
  Ends-mono r failed f = failed

  pub Ends-bind :
      {B : Type 0} (r : S × Result B E) (f : B → Action S E A)
      → ((s : S) (b : B) → r ≡ (s, ok b) → Ends Q (f b s))
      → Ends Q (continue_with r f)
  Ends-bind (s, ok b) f h = h s b refl
  Ends-bind (s, err e) f h = failed
