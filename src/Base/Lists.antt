-- ===== src/Base/Lists.antt =====
-- Lists over the native numbers: length, predicates by recursion, Boolean filters and searches.
use Prim.Native.Nat.{ℕ, zero, suc, ◌+◌}
use mathlib.Core.Path.{◌≡◌, refl}
use mathlib.Core.Logic.{inl, inr}
use mathlib.Core.Bool.{Bool, true, false, ◌&&◌, ◌||◌}
use mathlib.Core.Option.{Option, none, some}
use mathlib.Core.List.{List, [], ◌∷◌, ◌++◌}
use native.Mathlib.Omega.{arith}
use kalshi_copilot.Base.Tests.{or_else, Bool-cases, if◌then◌else◌}

module _ {ℓ} {A : Type ℓ} where
  abbrev pub length : List A → ℕ
  length [] = 0
  length (x ∷ xs) = suc (length xs)

  -- `[x for x in xs if p(x)]`
  abbrev pub select : (A → Bool) → List A → List A
  select p [] = []
  select p (x ∷ xs) = if p x then x ∷ select p xs else select p xs

  abbrev pub any : (A → Bool) → List A → Bool
  any p [] = false
  any p (x ∷ xs) = p x || any p xs

  abbrev pub all : (A → Bool) → List A → Bool
  all p [] = true
  all p (x ∷ xs) = p x && all p xs

  abbrev pub find : (A → Bool) → List A → Option A
  find p [] = none
  find p (x ∷ xs) = if p x then some x else find p xs

  -- The last entry that passes: the first of the list read backwards.
  abbrev pub find_last : (A → Bool) → List A → Option A
  find_last p [] = none
  find_last p (x ∷ xs) = elim (find_last p xs) [
    | some y ↦ some y
    | none ↦ if p x then some x else none
  ]

  abbrev pub count_if : (A → Bool) → List A → ℕ
  count_if p [] = 0
  count_if p (x ∷ xs) = let rest = count_if p xs in if p x then suc rest else rest

  abbrev pub is_nil : List A → Bool
  is_nil [] = true
  is_nil (x ∷ xs) = false

  abbrev pub take : ℕ → List A → List A
  take zero xs = []
  take (suc n) [] = []
  take (suc n) (x ∷ xs) = x ∷ take n xs

  -- Change the first entry that passes, or add a changed new one at the end.
  abbrev pub upsert : (A → Bool) → (A → A) → A → List A → List A
  upsert p f new [] = f new ∷ []
  upsert p f new (x ∷ xs) = if p x then f x ∷ xs else x ∷ upsert p f new xs

  abbrev pub All {κ} : (A → Type κ) → List A → Type κ
  All P [] = Unit
  All P (x ∷ xs) = P x × All P xs

  pub length-append : (xs ys : List A) → length (xs ++ ys) ≡ length xs + length ys
  length-append [] ys = omega arith
  length-append (x ∷ xs) ys = omega (arith, length-append xs ys)

  pub All-append {κ} : (P : A → Type κ) (xs ys : List A) → All P xs → All P ys → All P (xs ++ ys)
  All-append P [] ys h k = k
  All-append P (x ∷ xs) ys h k = (h.0, All-append P xs ys h.1 k)

  pub All-map {κ μ} :
      {P : A → Type κ} {Q : A → Type μ} (f : (x : A) → P x → Q x) (xs : List A)
      → All P xs
      → All Q xs
  All-map f [] h = tt
  All-map f (x ∷ xs) h = (f x h.0, All-map f xs h.1)

module _ {ℓ} {A : Type ℓ} (p : A → Bool) (f : A → A) (new : A) where
  -- The entry that was changed is the one that is found.
  pub find-upsert :
      ((x : A) → p x ≡ true → p (f x) ≡ true)
      → p new ≡ true
      → (xs : List A) → find p (upsert p f new xs) ≡ some (f (or_else (find p xs) new))
  find-upsert keeps start [] = rw (keeps new start) refl
  find-upsert keeps start (x ∷ xs) = elim (Bool-cases (p x)) [
    | inl here ↦ rw (here, keeps x here) refl
    | inr later ↦ rw later (rw later (find-upsert keeps start xs))
  ]

  -- A search that the change does not touch finds what it did.
  pub find-upsert_other :
      (q : A → Bool)
      → ((x : A) → p x ≡ true → q x ≡ false)
      → ((x : A) → p x ≡ true → q (f x) ≡ false)
      → p new ≡ true
      → (xs : List A) → find q (upsert p f new xs) ≡ find q xs
  find-upsert_other q apart after start [] = rw (after new start) refl
  find-upsert_other q apart after start (x ∷ xs) = elim (Bool-cases (p x)) [
    | inl here ↦ rw (here, after x here, apart x here) refl
    | inr later ↦ elim (Bool-cases (q x)) [
      | inl found ↦ rw (later, found) refl
      | inr past ↦ rw (later, past, find-upsert_other q apart after start xs) refl
    ]
  ]
