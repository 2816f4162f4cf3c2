-- ===== src/Common/Search.antt =====
-- Tests for an element of a list, and what they find.
use Prim.Native.Nat.{ℕ}
use mathlib.Core.Path.{◌≡◌, refl, subst}
use mathlib.Core.Logic.{◌↔◌, inl, inr}
use mathlib.Core.Bool.{Bool, true, false, ◌||◌}
use mathlib.Core.Option.{Option, some}
use mathlib.Core.List.{List, [], ◌∷◌, Memᴰ, filter_map, filter_map-cons-none, filter_map-cons-some}
use odp_platform_common.Common.Tests.{◌==◌, ==_iff, Bool-cases, Option-cases}

module _ {ℓ} {A : Type ℓ} where
  abbrev pub any : List A → (A → Bool) → Bool
  any [] p = false
  any (x ∷ xs) p = p x || any xs p

  pub any_of : (p : A → Bool) (xs : List A) {x : A} → Memᴰ x xs → p x ≡ true → any xs p ≡ true
  any_of p [] m h = elim m [ ]
  any_of p (y ∷ xs) (Memᴰ.head e) h = let here : p y ≡ true = rw (← e) h in rw here
  any_of p (y ∷ xs) (Memᴰ.tail m) h = elim (Bool-cases (p y)) [
    | inl here ↦ rw here
    | inr other ↦ rw other (any_of p xs m h)
  ]

  pub any_found :
      (p : A → Bool) (xs : List A) → any xs p ≡ true → (x : A) × Memᴰ x xs × (p x ≡ true)
  any_found p [] h = cc
  any_found p (y ∷ xs) h = elim (Bool-cases (p y)) [
    | inl here ↦ (y, Memᴰ.head refl, here)
    | inr other ↦
        let rest : any xs p ≡ true = rw other at h in
        let (x, m, e) = any_found p xs rest in (x, Memᴰ.tail m, e)
  ]

  -- A test of the elements holds of one of them.
  pub any_iff :
      (p : A → Bool) (xs : List A) → (any xs p ≡ true) ↔ ((x : A) × Memᴰ x xs × (p x ≡ true))
  any_iff p xs = (any_found p xs, λ f. any_of p xs f.1 f.2)

abbrev pub contains : List ℕ → ℕ → Bool
contains xs n = any xs (λ x. x == n)

pub contains_iff : (n : ℕ) (xs : List ℕ) → (contains xs n ≡ true) ↔ Memᴰ n xs
contains_iff n xs = (
  λ h. let (x, m, e) = any_found (λ x. x == n) xs h in subst (λ t. Memᴰ t xs) ((==_iff x n).0 e) m,
  λ m. any_of (λ x. x == n) xs m ((==_iff n n).1 refl),
)

module _ {ℓ κ} {A : Type ℓ} {B : Type κ} where
  pub filter_map_of :
      (f : A → Option B) (xs : List A) {a : A} {b : B}
      → Memᴰ a xs
      → f a ≡ some b
      → Memᴰ b (filter_map f xs)
  unfolding filter_map
  filter_map_of f [] m h = elim m [ ]
  filter_map_of f (x ∷ xs) (Memᴰ.head e) h =
      let here : f x ≡ some _ = rw (← e) h in rw (filter_map-cons-some f x xs here) (Memᴰ.head refl)
  filter_map_of f (x ∷ xs) {b = b} (Memᴰ.tail m) h = elim (Option-cases (f x)) [
    | inl e ↦ rw (filter_map-cons-none f x xs e) (filter_map_of f xs m h)
    | inr (c, e) ↦ rw (filter_map-cons-some f x xs e) (Memᴰ.tail (filter_map_of f xs m h))
  ]

  pub filter_map_found :
      (f : A → Option B) (xs : List A) {b : B}
      → Memᴰ b (filter_map f xs)
      → (a : A) × Memᴰ a xs × (f a ≡ some b)
  unfolding filter_map
  filter_map_found f [] m = elim m [ ]
  filter_map_found f (x ∷ xs) {b} m = elim (Option-cases (f x)) [
    | inl e ↦
        let m' : Memᴰ b (filter_map f xs) = subst (Memᴰ b) (filter_map-cons-none f x xs e) m in
        let (a, inside, h) = filter_map_found f xs m' in (a, Memᴰ.tail inside, h)
    | inr (c, e) ↦
        let m' : Memᴰ b (c ∷ filter_map f xs) = subst (Memᴰ b) (filter_map-cons-some f x xs e) m in
        elim m' [
          | Memᴰ.head same ↦ (x, Memᴰ.head refl, rw same e)
          | Memᴰ.tail rest ↦
              let (a, inside, h) = filter_map_found f xs rest in (a, Memᴰ.tail inside, h)
        ]
  ]
