-- ===== src/Arbitrage/Order.antt =====
-- The levels that a leg of set_arbitrage.py is walked through: one side of its book, the best first.
use mathlib.Core.List.{Permᴰ}
use mathlib.Core.List.Permᴰ.{refl as Permᴰ_refl}
use kalshi_copilot.Base.{refl, inl, inr, [], ◌∷◌, arith, All, All-map, Bool-cases, map}
use kalshi_copilot.Base.Int.{ℤ, ◌-ℤ◌, ◌≤ℤ◌, leb_ℤ}
use kalshi_copilot.Domain.{one}
use kalshi_copilot.Book.{Levels, insert_desc, sort_desc}
use kalshi_copilot.Book.Sorting.{IsDesc, sort_desc-IsDesc}
use kalshi_copilot.Arbitrage.{
  SetDirection, sell_set, buy_set, LegBook, insert_offer, sort_offers, executable,
}

-- The lowest price first.
abbrev pub IsAsc : Levels → Type 0
IsAsc [] = Unit
IsAsc (x ∷ xs) = All (λ e. x.0 ≤ℤ e.0) xs × IsAsc xs

-- A seller meets the bids for YES, and a buyer what is left of a dollar from the bids for NO.
abbrev pub met_by : SetDirection → LegBook → Levels
met_by sell_set book = book.yes
met_by buy_set book = map (λ (l : ℤ × ℤ). (one -ℤ l.0, l.1)) book.no

abbrev pub BestFirst : SetDirection → Levels → Type 0
BestFirst sell_set levels = IsDesc levels
BestFirst buy_set levels = IsAsc levels

insert_desc-Permᴰ : (e : ℤ × ℤ) (d : Levels) → Permᴰ (insert_desc e d) (e ∷ d)
insert_desc-Permᴰ e [] = Permᴰ_refl (e ∷ [])
insert_desc-Permᴰ e (x ∷ d) = elim (Bool-cases (leb_ℤ x.0 e.0)) [
  | inl front ↦ rw front (Permᴰ_refl (e ∷ x ∷ d))
  | inr behind ↦
      rw behind (Permᴰ.trans (Permᴰ.cons refl (insert_desc-Permᴰ e d)) (Permᴰ.swap refl refl))
]

sort_desc-Permᴰ : (d : Levels) → Permᴰ (sort_desc d) d
unfolding sort_desc
sort_desc-Permᴰ [] = Permᴰ.nil
sort_desc-Permᴰ (e ∷ d) =
    Permᴰ.trans (insert_desc-Permᴰ e (sort_desc d)) (Permᴰ.cons refl (sort_desc-Permᴰ d))

insert_offer-Permᴰ : (e : ℤ × ℤ) (d : Levels) → Permᴰ (insert_offer e d) (e ∷ d)
insert_offer-Permᴰ e [] = Permᴰ_refl (e ∷ [])
insert_offer-Permᴰ e (x ∷ d) = elim (Bool-cases (leb_ℤ e.0 x.0)) [
  | inl front ↦ rw front (Permᴰ_refl (e ∷ x ∷ d))
  | inr behind ↦
      rw behind (Permᴰ.trans (Permᴰ.cons refl (insert_offer-Permᴰ e d)) (Permᴰ.swap refl refl))
]

sort_offers-Permᴰ : (d : Levels) → Permᴰ (sort_offers d) d
unfolding sort_offers
sort_offers-Permᴰ [] = Permᴰ.nil
sort_offers-Permᴰ (e ∷ d) =
    Permᴰ.trans (insert_offer-Permᴰ e (sort_offers d)) (Permᴰ.cons refl (sort_offers-Permᴰ d))

All-insert_offer :
    (P : ℤ × ℤ → Type 0) (e : ℤ × ℤ) (d : Levels) → P e → All P d → All P (insert_offer e d)
All-insert_offer P e [] p h = (p, h)
All-insert_offer P e (x ∷ d) p h = elim (Bool-cases (leb_ℤ e.0 x.0)) [
  | inl front ↦ rw front (p, h)
  | inr behind ↦ rw behind (h.0, All-insert_offer P e d p h.1)
]

insert_offer-IsAsc : (e : ℤ × ℤ) (d : Levels) → IsAsc d → IsAsc (insert_offer e d)
insert_offer-IsAsc e [] h = (tt, tt)
insert_offer-IsAsc e (x ∷ d) h = elim (Bool-cases (leb_ℤ e.0 x.0)) [
  | inl front ↦
      let low : e.0 ≤ℤ x.0 = ground arith in
      rw front ((low, All-map (λ y b. omega (arith, b, low)) d h.0), h)
  | inr behind ↦
      let low : x.0 ≤ℤ e.0 = ground arith in
      rw behind (All-insert_offer (λ y. x.0 ≤ℤ y.0) e d low h.0, insert_offer-IsAsc e d h.1)
]

sort_offers-IsAsc : (d : Levels) → IsAsc (sort_offers d)
unfolding sort_offers
sort_offers-IsAsc [] = tt
sort_offers-IsAsc (e ∷ d) = insert_offer-IsAsc e (sort_offers d) (sort_offers-IsAsc d)

pub executable-Permᴰ :
    (d : SetDirection) (book : LegBook) → Permᴰ (executable d book) (met_by d book)
executable-Permᴰ sell_set book = sort_desc-Permᴰ book.yes
executable-Permᴰ buy_set book = sort_offers-Permᴰ (met_by buy_set book)

pub executable-BestFirst : (d : SetDirection) (book : LegBook) → BestFirst d (executable d book)
executable-BestFirst sell_set book = sort_desc-IsDesc book.yes
executable-BestFirst buy_set book = sort_offers-IsAsc (met_by buy_set book)
