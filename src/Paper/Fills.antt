-- ===== src/Paper/Fills.antt =====
-- What paper.py fills: prices and sizes of the fills, and the levels against those of the book.
use mathlib.Core.Path.{subst}
use kalshi_copilot.Base.{
  sym, ◌∙◌, ℕ, ◌≡◌, inl, inr, Bool, true, false, ◌&&◌, List, [], ◌∷◌, arith, Bool-cases, All,
}
use kalshi_copilot.Base.Int.{ℤ, pos, ◌+ℤ◌, ◌-ℤ◌, ◌<ℤ◌, ◌≤ℤ◌, ltb_ℤ, leb_ℤ, min_ℤ, int_laws}
use kalshi_copilot.Base.Outcome.{Outcome, ok, ◌>>=◌, >>=-eq-ok}
use kalshi_copilot.Domain.{Side, Action, is_buy, one}
use kalshi_copilot.Book.{Levels, WireLevel, too_short, level, malformed}
use kalshi_copilot.Book.Sorting.{Positive, All-sort_desc}
use kalshi_copilot.Paper.{
  PaperBook, PaperError, SimulatedFill, FeeOf, effective, beyond, fill_levels, levels_for,
  simulate_fills, read_levels, quoted, insert_asc, sort_asc, best_first, source,
}

-- Within the limit of the order: not above it on a buy, not below it on a sell.
abbrev pub WithinLimit : Bool → ℤ → ℤ → Type 0
WithinLimit true limit p = p ≤ℤ limit
WithinLimit false limit p = limit ≤ℤ p

-- One fill of an order: a tradeable price within the limit, a positive size, and the fee of exactly
-- that price and size.
pub record IsFill (fee : FeeOf) (buying : Bool) (limit : ℤ) (f : SimulatedFill) : Type 0 where
  pub above_zero : pos 0 <ℤ f.price
  pub below_one : f.price <ℤ one
  pub within : WithinLimit buying limit f.price
  pub some_size : pos 0 <ℤ f.contracts
  pub own_fee : fee f.price f.contracts ≡ ok f.fee_cents

-- The contracts of all fills.
abbrev pub total : List SimulatedFill → ℤ
total [] = pos 0
total (f ∷ fs) = f.contracts +ℤ total fs

left_nonneg : (s m : ℤ) → pos 0 ≤ℤ m -ℤ min_ℤ s m
left_nonneg s m = elim (Bool-cases (leb_ℤ s m)) [
  | inl b ↦ let le : s ≤ℤ m = ground arith in rw b (omega (int_laws, le))
  | inr b ↦ rw b (omega int_laws)
]

module _ (fee : FeeOf) (buying : Bool) (limit slip : ℤ) where
  -- The four ways of one round of the loop.
  level_skipped :
      (price size : ℤ) (rest : Levels) (remaining : ℤ)
      → leb_ℤ remaining (pos 0) ≡ false
      → (ltb_ℤ (pos 0) (effective buying slip price) && ltb_ℤ (effective buying slip price) one)
        ≡ false
      → fill_levels fee buying limit slip ((price, size) ∷ rest) remaining
        ≡ fill_levels fee buying limit slip rest remaining
  unfolding fill_levels
  level_skipped price size rest remaining more out = rw (more, out)

  level_done :
      (price size : ℤ) (rest : Levels) (remaining : ℤ)
      → leb_ℤ remaining (pos 0) ≡ true
      → fill_levels fee buying limit slip ((price, size) ∷ rest) remaining ≡ ok []
  unfolding fill_levels
  level_done price size rest remaining none_left = rw none_left

  level_beyond :
      (price size : ℤ) (rest : Levels) (remaining : ℤ)
      → leb_ℤ remaining (pos 0) ≡ false
      → (ltb_ℤ (pos 0) (effective buying slip price) && ltb_ℤ (effective buying slip price) one)
        ≡ true
      → beyond buying limit (effective buying slip price) ≡ true
      → fill_levels fee buying limit slip ((price, size) ∷ rest) remaining ≡ ok []
  unfolding fill_levels
  level_beyond price size rest remaining more tradeable past = rw (more, tradeable, past)

  level_taken :
      (price size : ℤ) (rest : Levels) (remaining : ℤ)
      → leb_ℤ remaining (pos 0) ≡ false
      → (ltb_ℤ (pos 0) (effective buying slip price) && ltb_ℤ (effective buying slip price) one)
        ≡ true
      → beyond buying limit (effective buying slip price) ≡ false
      → fill_levels fee buying limit slip ((price, size) ∷ rest) remaining ≡ (
          fee (effective buying slip price) (min_ℤ size remaining) >>= λ cents.
          fill_levels fee buying limit slip rest (remaining -ℤ min_ℤ size remaining) >>= λ fills.
          ok (
            record {
              price = effective buying slip price;
              contracts = min_ℤ size remaining;
              fee_cents = cents;
            }
            ∷ fills))
  unfolding fill_levels
  level_taken price size rest remaining more tradeable inside = rw (more, tradeable, inside)

  -- What holds of the fills of an order for `remaining` contracts.
  abbrev AreFills : ℤ → List SimulatedFill → Type 0
  AreFills remaining fs = All (IsFill fee buying limit) fs × (total fs ≤ℤ remaining)

  nothing_filled :
      (remaining : ℤ) {fs : List SimulatedFill}
      → pos 0 ≤ℤ remaining
      → ◌≡◌ {A = Outcome PaperError (List SimulatedFill)} (ok []) (ok fs)
      → AreFills remaining fs
  nothing_filled remaining {fs} r e =
      let empty : [] ≡ fs = cc in subst (AreFills remaining) empty (tt, omega arith)

  within_of_inside : (p : ℤ) → beyond buying limit p ≡ false → WithinLimit buying limit p
  within_of_inside p h = elim (Bool-cases buying) [
    | inl b ↦ rw b (ground arith)
    | inr b ↦ rw b (ground arith)
  ]

  one_more :
      (p take remaining : ℤ) (cents : ℕ) (rest fs : List SimulatedFill)
      → (pos 0 <ℤ p) × (p <ℤ one)
      → WithinLimit buying limit p
      → pos 0 <ℤ take
      → fee p take ≡ ok cents
      → AreFills (remaining -ℤ take) rest
      → record { price = p; contracts = take; fee_cents = cents } ∷ rest ≡ fs
      → AreFills remaining fs
  one_more p take remaining cents rest fs range within some_size own a e =
      subst (AreFills remaining) e (
        (
          record {
            above_zero = range.0;
            below_one = range.1;
            within = within;
            some_size = some_size;
            own_fee = own;
          },
          a.0,
        ),
        omega (int_laws, a.1),
      )

  fill_levels-AreFills :
      (levels : Levels) (remaining : ℤ) {fs : List SimulatedFill}
      → Positive levels
      → pos 0 ≤ℤ remaining
      → fill_levels fee buying limit slip levels remaining ≡ ok fs
      → AreFills remaining fs
  fill_levels-AreFills [] remaining h r e = nothing_filled remaining r (unfold fill_levels in e)
  fill_levels-AreFills ((price, size) ∷ rest) remaining {fs} h r e =
      let p = effective buying slip price in
      let take = min_ℤ size remaining in
      let skipped = λ (k : fill_levels fee buying limit slip rest remaining ≡ ok fs).
        fill_levels-AreFills rest remaining h.1 r k in
      let after =
        λ (gs : List SimulatedFill) (l : pos 0 ≤ℤ remaining -ℤ take)
            (k : fill_levels fee buying limit slip rest (remaining -ℤ take) ≡ ok gs).
          fill_levels-AreFills rest (remaining -ℤ take) h.1 l k in
      elim (Bool-cases (leb_ℤ remaining (pos 0))) [
        | inl none_left ↦
            nothing_filled remaining r (sym (level_done price size rest remaining none_left) ∙ e)
        | inr more ↦ elim (Bool-cases (ltb_ℤ (pos 0) p && ltb_ℤ p one)) [
          | inr out ↦ skipped (sym (level_skipped price size rest remaining more out) ∙ e)
          | inl tradeable ↦ elim (Bool-cases (beyond buying limit p)) [
            | inl past ↦
                nothing_filled remaining r
                  (sym (level_beyond price size rest remaining more tradeable past) ∙ e)
            | inr inside ↦
                let taken = sym (level_taken price size rest remaining more tradeable inside) ∙ e in
                let (cents, own, e₁) = >>=-eq-ok (fee p take) _ taken in
                let (gs, rest_ok, e₂) = >>=-eq-ok _ _ e₁ in
                one_more p take remaining cents gs fs (ground arith) (within_of_inside p inside)
                  (ground arith) own (after gs (left_nonneg size remaining) rest_ok) (some_list e₂)
          ]
        ]
      ]
    where
      some_list :
          {xs ys : List SimulatedFill}
          → ◌≡◌ {A = Outcome PaperError (List SimulatedFill)} (ok xs) (ok ys)
          → xs ≡ ys
      some_list k = cc

read_levels-Positive :
    (invert : Bool) (raw : List WireLevel) {d : Levels} → read_levels invert raw ≡ ok d → Positive d
unfolding read_levels
read_levels-Positive invert [] {d} e = let empty : [] ≡ d = cc in subst Positive empty tt
read_levels-Positive invert (too_short ∷ rest) e = read_levels-Positive invert rest e
read_levels-Positive invert (malformed ∷ rest) e = cc
read_levels-Positive invert (level price size ∷ rest) {d} e =
    let (d', e₁, e₂) = >>=-eq-ok (read_levels invert rest) _ e in
    let ih = read_levels-Positive invert rest e₁ in
    elim (Bool-cases (leb_ℤ size (pos 0))) [
      | inl none_left ↦ let same : d' ≡ d = ground arith in subst Positive same ih
      | inr kept ↦
          let same : (quoted invert price, size) ∷ d' ≡ d = ground arith in
          subst Positive same (ground arith, ih)
    ]

All-insert_asc :
    (P : ℤ × ℤ → Type 0) (e : ℤ × ℤ) (d : Levels) → P e → All P d → All P (insert_asc e d)
All-insert_asc P e [] p h = (p, h)
All-insert_asc P e (x ∷ d) p h = elim (Bool-cases (leb_ℤ e.0 x.0)) [
  | inl front ↦ rw front (p, h)
  | inr behind ↦ rw behind (h.0, All-insert_asc P e d p h.1)
]

All-sort_asc : (P : ℤ × ℤ → Type 0) (d : Levels) → All P d → All P (sort_asc d)
unfolding sort_asc
All-sort_asc P [] h = h
All-sort_asc P (e ∷ d) h = All-insert_asc P e (sort_asc d) h.0 (All-sort_asc P d h.1)

best_first-Positive : (b : Bool) (d : Levels) → Positive d → Positive (best_first b d)
best_first-Positive true d h = All-sort_asc _ d h
best_first-Positive false d h = All-sort_desc _ d h

levels_for-Positive :
    (book : PaperBook) (side : Side) (action : Action) {d : Levels}
    → levels_for book side action ≡ ok d
    → Positive d
unfolding levels_for
levels_for-Positive book side action {d} e =
    let (d', e₁, e₂) = >>=-eq-ok (read_levels (is_buy action) (source book side action)) _ e in
    let same : best_first (is_buy action) d' ≡ d = cc in
    subst Positive same (best_first-Positive (is_buy action) d' (read_levels-Positive _ _ e₁))

-- Every fill of a simulated order has a price strictly between 0 and 1 dollar that is within the
-- order's limit, a positive size, and the fee of that price and size; together the fills are for
-- no more contracts than the order.
pub simulate_fills-AreFills :
    (fee : FeeOf) (book : PaperBook) (side : Side) (action : Action) (limit contracts slip : ℤ)
    {fs : List SimulatedFill}
    → pos 0 ≤ℤ contracts
    → simulate_fills fee book side action limit contracts slip ≡ ok fs
    → All (IsFill fee (is_buy action) limit) fs × (total fs ≤ℤ contracts)
unfolding simulate_fills
simulate_fills-AreFills fee book side action limit contracts slip h e =
    let (d, e₁, e₂) = >>=-eq-ok (levels_for book side action) _ e in
    fill_levels-AreFills fee (is_buy action) limit slip d contracts
      (levels_for-Positive book side action e₁) h e₂
