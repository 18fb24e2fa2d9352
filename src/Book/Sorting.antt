-- ===== src/Book/Sorting.antt =====
-- The levels of orderbook.py in order: the sizes after sorting, and the first level.
use kalshi_copilot.Base.{
  ℕ, ◌+◌, ◌≡◌, refl, inl, inr, [], ◌∷◌, arith, All-map, Bool-cases, All, map, ap, ◌∙◌,
}
use kalshi_copilot.Base.Int.{ℤ, pos, pos_part, ◌≤ℤ◌, ◌<ℤ◌, leb_ℤ}
use kalshi_copilot.Book.Levels.{AreValid}
use kalshi_copilot.Book.{Levels, insert_desc, sort_desc, as_offer}

-- Every size is a positive number.
abbrev pub Positive : Levels → Type 0
Positive d = All (λ e. pos 0 <ℤ e.1) d

-- The size on offer, over all levels.
abbrev pub depth : Levels → ℕ
depth [] = 0
depth ((p, s) ∷ d) = pos_part s + depth d

-- The highest price first.
abbrev pub IsDesc : Levels → Type 0
IsDesc [] = Unit
IsDesc (x ∷ xs) = All (λ e. e.0 ≤ℤ x.0) xs × IsDesc xs

All-insert_desc :
    (P : ℤ × ℤ → Type 0) (e : ℤ × ℤ) (d : Levels) → P e → All P d → All P (insert_desc e d)
All-insert_desc P e [] p h = (p, h)
All-insert_desc P e (x ∷ d) p h = elim (Bool-cases (leb_ℤ x.0 e.0)) [
  | inl front ↦ rw front (p, h)
  | inr behind ↦ rw behind (h.0, All-insert_desc P e d p h.1)
]

insert_desc-IsDesc : (e : ℤ × ℤ) (d : Levels) → IsDesc d → IsDesc (insert_desc e d)
insert_desc-IsDesc e [] h = (tt, tt)
insert_desc-IsDesc e (x ∷ d) h = elim (Bool-cases (leb_ℤ x.0 e.0)) [
  | inl front ↦
      let top : x.0 ≤ℤ e.0 = ground arith in
      rw front ((top, All-map (λ y b. omega (arith, b, top)) d h.0), h)
  | inr behind ↦
      let top : e.0 ≤ℤ x.0 = ground arith in
      rw behind (All-insert_desc (λ y. y.0 ≤ℤ x.0) e d top h.0, insert_desc-IsDesc e d h.1)
]

pub All-sort_desc : (P : ℤ × ℤ → Type 0) (d : Levels) → All P d → All P (sort_desc d)
unfolding sort_desc
All-sort_desc P [] h = h
All-sort_desc P (e ∷ d) h = All-insert_desc P e (sort_desc d) h.0 (All-sort_desc P d h.1)

pub sort_desc-IsDesc : (d : Levels) → IsDesc (sort_desc d)
unfolding sort_desc
sort_desc-IsDesc [] = tt
sort_desc-IsDesc (e ∷ d) = insert_desc-IsDesc e (sort_desc d) (sort_desc-IsDesc d)

depth-insert_desc : (e : ℤ × ℤ) (d : Levels) → depth (insert_desc e d) ≡ depth (e ∷ d)
depth-insert_desc e [] = refl
depth-insert_desc e (x ∷ d) = elim (Bool-cases (leb_ℤ x.0 e.0)) [
  | inl front ↦ rw front
  | inr behind ↦ rw behind (omega (arith, depth-insert_desc e d))
]

pub depth-sort_desc : (d : Levels) → depth (sort_desc d) ≡ depth d
unfolding sort_desc
depth-sort_desc [] = refl
depth-sort_desc (e ∷ d) =
    depth-insert_desc e (sort_desc d) ∙ ap (λ (t : ℕ). pos_part e.1 + t) (depth-sort_desc d)

pub Positive-of_AreValid : (d : Levels) → AreValid d → Positive d
Positive-of_AreValid [] v = tt
Positive-of_AreValid ((p, s) ∷ d) v = (v.0, Positive-of_AreValid d v.2)

pub Positive-as_offer : (d : Levels) → Positive d → Positive (map as_offer d)
Positive-as_offer [] h = tt
Positive-as_offer (e ∷ d) h = (h.0, Positive-as_offer d h.1)

pub depth-as_offer : (d : Levels) → depth (map as_offer d) ≡ depth d
depth-as_offer [] = refl
depth-as_offer (e ∷ d) = omega (arith, depth-as_offer d)
