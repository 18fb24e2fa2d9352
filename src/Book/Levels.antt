-- ===== src/Book/Levels.antt =====
-- The dict of price levels of orderbook.py: lookups after a change, and the invariant that every
-- level has a positive size and no price is listed twice.
use kalshi_copilot.Base.{
  ◌≡◌, refl, inl, inr, true, none, some, List, [], ◌∷◌, arith, Bool-cases, if◌then◌else◌,
}
use kalshi_copilot.Base.Int.{ℤ, pos, ◌<ℤ◌, ltb_ℤ, leb_ℤ, eqb_ℤ, eq_of_parts}
use kalshi_copilot.Base.Outcome.{ok}
use kalshi_copilot.Book.{
  asked_size, Levels, get, put, remove, change_level, WireLevel, too_short, level, malformed,
  parse_levels_from,
}

-- Every level has a positive size, and no price is listed twice.
abbrev pub AreValid : Levels → Type 0
AreValid [] = Unit
AreValid ((p, s) ∷ d) = (pos 0 <ℤ s) × (get p d ≡ none) × AreValid d

pub eqb_ℤ_sound : (a b : ℤ) → eqb_ℤ a b ≡ true → a ≡ b
eqb_ℤ_sound a b h = eq_of_parts a b (ground arith)

pub eqb_ℤ_refl : (a : ℤ) → eqb_ℤ a a ≡ true
eqb_ℤ_refl a = ground arith

eqb_ℤ_swap : (a b : ℤ) → eqb_ℤ a b ≡ eqb_ℤ b a
eqb_ℤ_swap a b = ground arith

pub get-put : (q p s : ℤ) (d : Levels) → get q (put p s d) ≡ (if eqb_ℤ q p then some s else get q d)
get-put q p s [] = refl
get-put q p s ((r, t) ∷ d) =
    ground (arith, get-put q p s d, eqb_ℤ_sound q p, eqb_ℤ_sound p r, eqb_ℤ_sound q r, eqb_ℤ_refl q)

pub get-remove :
    (q p : ℤ) (d : Levels) → AreValid d → get q (remove p d) ≡ (if eqb_ℤ q p then none else get q d)
get-remove q p [] v = ground arith
get-remove q p ((r, t) ∷ d) v =
    ground
      (arith, get-remove q p d v.2, eqb_ℤ_sound q p, eqb_ℤ_sound p r, eqb_ℤ_sound q r, eqb_ℤ_refl q)

pub put-AreValid : (p s : ℤ) (d : Levels) → pos 0 <ℤ s → AreValid d → AreValid (put p s d)
put-AreValid p s [] h v = (h, refl, tt)
put-AreValid p s ((r, t) ∷ d) h v =
    ground (arith, put-AreValid p s d h v.2, get-put r p s d, eqb_ℤ_swap p r)

pub remove-AreValid : (p : ℤ) (d : Levels) → AreValid d → AreValid (remove p d)
remove-AreValid p [] v = tt
remove-AreValid p ((r, t) ∷ d) v =
    ground (arith, remove-AreValid p d v.2, get-remove r p d v.2, eqb_ℤ_swap p r)

pub change_level-AreValid : (p c : ℤ) (d : Levels) → AreValid d → AreValid (change_level p c d)
unfolding change_level
change_level-AreValid p c d v =
    let new_size = asked_size (get p d) c in
    elim (Bool-cases (leb_ℤ new_size (pos 0))) [
      | inl gone ↦ rw gone (remove-AreValid p d v)
      | inr kept ↦ rw kept (put-AreValid p new_size d (ground arith) v)
    ]

pub get-change_level :
    (q p c : ℤ) (d : Levels)
    → AreValid d
    → get q (change_level p c d) ≡ (
        if eqb_ℤ q p
        then (if leb_ℤ (asked_size (get p d) c) (pos 0)
            then none
            else some (asked_size (get p d) c))
        else get q d)
unfolding change_level
get-change_level q p c d v =
    let n = asked_size (get p d) c in
    elim (Bool-cases (leb_ℤ n (pos 0))) [
      | inl gone ↦ rw gone (get-remove q p d v)
      | inr kept ↦ rw kept (get-put q p n d)
    ]

pub parse_levels_from-AreValid :
    (levels : Levels) (raw : List WireLevel) {d : Levels}
    → AreValid levels
    → parse_levels_from levels raw ≡ ok d
    → AreValid d
unfolding parse_levels_from
parse_levels_from-AreValid levels [] {d} v h = let e : levels ≡ d = cc in rw e at v
parse_levels_from-AreValid levels (too_short ∷ rest) v h =
    parse_levels_from-AreValid levels rest v h
parse_levels_from-AreValid levels (malformed ∷ rest) v h = cc
parse_levels_from-AreValid levels (level p s ∷ rest) v h =
    parse_levels_from-AreValid (if ltb_ℤ (pos 0) s then put p s levels else levels) rest
      (ground (arith, put-AreValid p s levels)) h
