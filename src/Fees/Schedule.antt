-- ===== src/Fees/Schedule.antt =====
-- The fee schedule of fees.py: which multiplier a series gets, and when a default is refused.
use mathlib.Core.List.{Memᴰ}
use kalshi_copilot.Base.{
  ℕ, ◌≤◌, ◌<◌, ◌≡◌, refl, ◌⊎◌, inl, inr, true, false, Option, none, some, List, [], ◌∷◌, arith,
  or_else, if◌then◌else◌, Bool-cases, is_nil, leb, All, Option-cases, ◌∙◌, ap,
}
use kalshi_copilot.Base.Text.{Text, text_eq, text_eq_sound, text_eq_refl, strip, upper}
use kalshi_copilot.Base.Outcome.{Outcome, ok, raise, >>=-eq-ok}
use kalshi_copilot.Fees.{
  FeeError, unknown_series, Multipliers, FeeSchedule, SeriesEntry, mapping, not_a_mapping, put,
  lookup, read_series, RawSchedule, from_dict, max_taker, max_maker, Need, taker_side, maker_side,
  both_sides, series_key, multipliers, default_taker_is_safe, default_maker_is_safe, is_unsafe,
}

-- What the code reads from one entry of the file.
abbrev entry_multipliers : Text × SeriesEntry → Option Multipliers
entry_multipliers (name, mapping maker taker) =
    some (record { maker = or_else maker 0; taker = or_else taker 10000 })
entry_multipliers (name, not_a_mapping) = none

-- The entry that decides a key: the last one whose name normalises to it.
abbrev pub deciding_entry :
    Text → List (Text × SeriesEntry) → Option Multipliers → Option Multipliers
deciding_entry k [] before = before
deciding_entry k (e ∷ rest) before =
    deciding_entry k rest (if text_eq k (upper (strip e.0)) then entry_multipliers e else before)

text_eq_trans : (j k i : Text) → text_eq j k ≡ true → text_eq k i ≡ text_eq j i
text_eq_trans j k i h = let e = text_eq_sound j k h in cc

lookup-put :
    (j k : Text) (v : Multipliers) (t : List (Text × Multipliers))
    → lookup j (put k v t) ≡ (if text_eq j k then some v else lookup j t)
lookup-put j k v [] = refl
lookup-put j k v ((i, w) ∷ t) = ground (
  arith,
  lookup-put j k v t,
  text_eq_sound j k,
  text_eq_sound k i,
  text_eq_sound j i,
  text_eq_refl j,
)

lookup-read_series :
    (k : Text) (entries : List (Text × SeriesEntry)) (t : List (Text × Multipliers))
    {table : List (Text × Multipliers)}
    → read_series entries t ≡ ok table
    → lookup k table ≡ deciding_entry k entries (lookup k t)
unfolding read_series
lookup-read_series k [] t h = cc
lookup-read_series k ((name, mapping maker taker) ∷ rest) t h =
    let m : Multipliers = record { maker = or_else maker 0; taker = or_else taker 10000 } in
    let key = upper (strip name) in
    lookup-read_series k rest (put key m t) h ∙ ap (deciding_entry k rest) (lookup-put k key m t)
lookup-read_series k ((name, not_a_mapping) ∷ rest) t h = cc

-- A table that loads maps each key to the last entry of the file whose name normalises to it, and
-- maps no other key.
pub lookup-from_dict :
    (k : Text) (raw : RawSchedule) {s : FeeSchedule}
    → from_dict raw ≡ ok s
    → lookup k s.series ≡ deciding_entry k raw.series none
unfolding from_dict
lookup-from_dict k raw {s} h =
    let (table, e, f) = >>=-eq-ok (read_series raw.series []) _ h in
    let same : s.series ≡ table = ground arith in rw same (lookup-read_series k raw.series [] e)

-- A listed multiplier, by name.
abbrev pub taker_of : Multipliers → ℕ
taker_of m = m.taker

abbrev pub maker_of : Multipliers → ℕ
maker_of m = m.maker

abbrev pub AllAtMost : (Multipliers → ℕ) → ℕ → List (Text × Multipliers) → Type 0
AllAtMost f d t = All (λ e. f e.1 ≤ d) t

-- Some listed series has a multiplier above `d`.
abbrev pub SomeAbove : (Multipliers → ℕ) → ℕ → List (Text × Multipliers) → Type 0
SomeAbove f d t = (e : Text × Multipliers) × Memᴰ e t × (d < f e.1)

max_taker-le : (d : ℕ) (t : List (Text × Multipliers)) → max_taker t ≤ d → AllAtMost taker_of d t
max_taker-le d [] h = tt
max_taker-le d ((k, m) ∷ t) h = (omega arith, max_taker-le d t (omega arith))

max_maker-le : (d : ℕ) (t : List (Text × Multipliers)) → max_maker t ≤ d → AllAtMost maker_of d t
max_maker-le d [] h = tt
max_maker-le d ((k, m) ∷ t) h = (omega arith, max_maker-le d t (omega arith))

max_taker-above : (d : ℕ) (t : List (Text × Multipliers)) → d < max_taker t → SomeAbove taker_of d t
max_taker-above d [] h = absurd (omega arith)
max_taker-above d ((k, m) ∷ t) h = elim (Bool-cases (leb m.taker d)) [
  | inl small ↦
      let (e, member, above) = max_taker-above d t (ground arith) in (e, Memᴰ.tail member, above)
  | inr big ↦ ((k, m), Memᴰ.head refl, ground arith)
]

max_maker-above : (d : ℕ) (t : List (Text × Multipliers)) → d < max_maker t → SomeAbove maker_of d t
max_maker-above d [] h = absurd (omega arith)
max_maker-above d ((k, m) ∷ t) h = elim (Bool-cases (leb m.maker d)) [
  | inl small ↦
      let (e, member, above) = max_maker-above d t (ground arith) in (e, Memᴰ.tail member, above)
  | inr big ↦ ((k, m), Memᴰ.head refl, ground arith)
]

-- The default of the side that is priced covers every listed series.
abbrev pub Covered : FeeSchedule → Need → Type 0
Covered s taker_side = AllAtMost taker_of s.default_taker_multiplier s.series
Covered s maker_side = AllAtMost maker_of s.default_maker_multiplier s.series
Covered s both_sides =
    AllAtMost taker_of s.default_taker_multiplier s.series
    × AllAtMost maker_of s.default_maker_multiplier s.series

-- Some listed series is dearer than the default of a side that is priced.
abbrev pub Exceeded : FeeSchedule → Need → Type 0
Exceeded s taker_side = SomeAbove taker_of s.default_taker_multiplier s.series
Exceeded s maker_side = SomeAbove maker_of s.default_maker_multiplier s.series
Exceeded s both_sides =
    SomeAbove taker_of s.default_taker_multiplier s.series
    ⊎ SomeAbove maker_of s.default_maker_multiplier s.series

taker_safe : (s : FeeSchedule) → default_taker_is_safe s ≡ true → Covered s taker_side
taker_safe s h = max_taker-le _ s.series (safe_bound s.series h)
  where
    safe_bound :
        (t : List (Text × Multipliers))
        → (if is_nil t then true else leb (max_taker t) s.default_taker_multiplier) ≡ true
        → max_taker t ≤ s.default_taker_multiplier
    safe_bound [] e = omega arith
    safe_bound (x ∷ t) e = ground arith

maker_safe : (s : FeeSchedule) → default_maker_is_safe s ≡ true → Covered s maker_side
maker_safe s h = max_maker-le _ s.series (safe_bound s.series h)
  where
    safe_bound :
        (t : List (Text × Multipliers))
        → (if is_nil t then true else leb (max_maker t) s.default_maker_multiplier) ≡ true
        → max_maker t ≤ s.default_maker_multiplier
    safe_bound [] e = omega arith
    safe_bound (x ∷ t) e = ground arith

taker_unsafe : (s : FeeSchedule) → default_taker_is_safe s ≡ false → Exceeded s taker_side
taker_unsafe s h = max_taker-above _ s.series (unsafe_bound s.series h)
  where
    unsafe_bound :
        (t : List (Text × Multipliers))
        → (if is_nil t then true else leb (max_taker t) s.default_taker_multiplier) ≡ false
        → s.default_taker_multiplier < max_taker t
    unsafe_bound [] e = cc
    unsafe_bound (x ∷ t) e = ground arith

maker_unsafe : (s : FeeSchedule) → default_maker_is_safe s ≡ false → Exceeded s maker_side
maker_unsafe s h = max_maker-above _ s.series (unsafe_bound s.series h)
  where
    unsafe_bound :
        (t : List (Text × Multipliers))
        → (if is_nil t then true else leb (max_maker t) s.default_maker_multiplier) ≡ false
        → s.default_maker_multiplier < max_maker t
    unsafe_bound [] e = cc
    unsafe_bound (x ∷ t) e = ground arith

is_unsafe-false : (s : FeeSchedule) (need : Need) → is_unsafe s need ≡ false → Covered s need
is_unsafe-false s taker_side h = taker_safe s (ground arith)
is_unsafe-false s maker_side h = maker_safe s (ground arith)
is_unsafe-false s both_sides h = (taker_safe s (ground arith), maker_safe s (ground arith))

is_unsafe-true : (s : FeeSchedule) (need : Need) → is_unsafe s need ≡ true → Exceeded s need
is_unsafe-true s taker_side h = taker_unsafe s (ground arith)
is_unsafe-true s maker_side h = maker_unsafe s (ground arith)
is_unsafe-true s both_sides h = elim (Bool-cases (default_taker_is_safe s)) [
  | inl safe ↦ inr (maker_unsafe s (ground arith))
  | inr unsafe ↦ inl (taker_unsafe s unsafe)
]

-- What a lookup of multipliers has shown, by its outcome.
abbrev pub Quoted : FeeSchedule → Option Text → Need → Outcome FeeError Multipliers → Type 0
Quoted s series need (ok m) =
    (lookup (series_key series) s.series ≡ some m)
    ⊎ ((lookup (series_key series) s.series ≡ none)
        × (m ≡ record { maker = s.default_maker_multiplier; taker = s.default_taker_multiplier })
        × Covered s need)
Quoted s series need (raise e) =
    (lookup (series_key series) s.series ≡ none) × (e ≡ unknown_series series) × Exceeded s need

module _ (s : FeeSchedule) (series : Option Text) (need : Need) where
  multipliers_listed :
      (m : Multipliers)
      → lookup (series_key series) s.series ≡ some m
      → multipliers s series need ≡ ok m
  unfolding multipliers
  multipliers_listed m e = ground arith

  multipliers_refused :
      lookup (series_key series) s.series ≡ none
      → is_unsafe s need ≡ true
      → multipliers s series need ≡ raise (unknown_series series)
  unfolding multipliers
  multipliers_refused e unsafe = ground arith

  multipliers_default :
      lookup (series_key series) s.series ≡ none
      → is_unsafe s need ≡ false
      → multipliers s series need
        ≡ ok (record { maker = s.default_maker_multiplier; taker = s.default_taker_multiplier })
  unfolding multipliers
  multipliers_default e safe = ground arith

-- A series gets its listed multipliers. An unlisted one gets the defaults only where no listed
-- multiplier of the side that is priced is above the default, and is refused only where one is.
pub multipliers-Quoted :
    (s : FeeSchedule) (series : Option Text) (need : Need)
    → Quoted s series need (multipliers s series need)
multipliers-Quoted s series need = elim (Option-cases (lookup (series_key series) s.series)) [
  | inr (m, e) ↦ rw (multipliers_listed s series need m e) (inl e)
  | inl e ↦ elim (Bool-cases (is_unsafe s need)) [
    | inl unsafe ↦
        rw (multipliers_refused s series need e unsafe) (e, refl, is_unsafe-true s need unsafe)
    | inr safe ↦
        rw (multipliers_default s series need e safe) (inr (e, refl, is_unsafe-false s need safe))
  ]
]
