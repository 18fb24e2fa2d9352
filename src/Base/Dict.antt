-- ===== src/Base/Dict.antt =====
-- Dicts as association lists in insertion order, with the equality of the keys as an argument.
use mathlib.Core.Path.{◌≡◌, refl}
use mathlib.Core.Logic.{inl, inr}
use mathlib.Core.Bool.{Bool, true, false}
use mathlib.Core.Option.{Option, none, some}
use mathlib.Core.List.{List, [], ◌∷◌}
use native.Mathlib.Omega.{arith}
use kalshi_copilot.Base.Tests.{Bool-cases, if◌then◌else◌}

-- The two facts about an equality test that the laws below use.
pub record IsEquality {ℓ} {K : Type ℓ} (eq : K → K → Bool) : Type ℓ where
  pub sound : (j k : K) → eq j k ≡ true → j ≡ k
  pub reflexive : (k : K) → eq k k ≡ true

module _ {ℓ κ} {K : Type ℓ} {V : Type κ} (eq : K → K → Bool) where
  -- `d.get(k)`
  abbrev pub look_up : K → List (K × V) → Option V
  look_up k [] = none
  look_up k ((j, v) ∷ d) = if eq k j then some v else look_up k d

  -- `d[k] = v`
  abbrev pub assign : K → V → List (K × V) → List (K × V)
  assign k v [] = (k, v) ∷ []
  assign k v ((j, w) ∷ d) = if eq k j then (j, v) ∷ d else (j, w) ∷ assign k v d

  -- `for k in d: d[k] = f(d[k])`
  abbrev pub on_values : (V → V) → List (K × V) → List (K × V)
  on_values f [] = []
  on_values f ((j, w) ∷ d) = (j, f w) ∷ on_values f d

  pub look_up-on_values :
      (f : V → V) (i : K) (d : List (K × V))
      → look_up i (on_values f d) ≡ elim (look_up i d) [ none ↦ none | some v ↦ some (f v) ]
  look_up-on_values f i [] = refl
  look_up-on_values f i ((j, w) ∷ d) = elim (Bool-cases (eq i j)) [
    | inl here ↦ rw here refl
    | inr later ↦ rw later (look_up-on_values f i d)
  ]

-- A key that is one of two different keys is not the other.
apart_key {ℓ} :
    {K : Type ℓ} (eq : K → K → Bool) (is_eq : IsEquality eq) (i j k : K)
    → eq k j ≡ false
    → eq i j ≡ true
    → eq i k ≡ false
apart_key eq is_eq i j k differ same = elim (Bool-cases (eq i k)) [
  | inl h ↦ let clash : eq k j ≡ true = rw (is_eq.sound i k h) at same in cc
  | inr h ↦ h
]

module _ {ℓ κ} {K : Type ℓ} {V : Type κ} (eq : K → K → Bool) (is_eq : IsEquality eq) where
  pub look_up-assign :
      (i k : K) (v : V) (d : List (K × V))
      → look_up eq i (assign eq k v d) ≡ (if eq i k then some v else look_up eq i d)
  look_up-assign i k v [] = refl
  look_up-assign i k v ((j, w) ∷ d) = elim (Bool-cases (eq k j)) [
    | inl here ↦ rw (here, is_eq.sound k j here) (ground arith)
    | inr later ↦ rw later (elim (Bool-cases (eq i j)) [
      | inl found ↦ rw (found, apart_key eq is_eq i j k later found) refl
      | inr past ↦ rw past (look_up-assign i k v d)
    ])
  ]
