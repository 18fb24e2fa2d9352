-- ===== src/Book/Cost.antt =====
-- `executable_cost` of orderbook.py: how much is filled, and its price against the best level.
use mathlib.Core.Path.{subst}
use kalshi_copilot.Base.{
  ℕ, zero, suc, ◌+◌, ◌-◌, ◌<◌, ◌≡◌, refl, false, some, [], ◌∷◌, arith, min, All, map, ap, ◌∙◌,
}
use kalshi_copilot.Base.Int.{
  ℤ, pos, negsuc, ◌+ℤ◌, ◌-ℤ◌, ◌*ℤ◌, pos-*ℤ, scale, scale-add, scale_mono, ◌≤ℤ◌, min_ℤ, leb_ℤ,
  int_laws,
}
use kalshi_copilot.Base.Outcome.{ok}
use kalshi_copilot.Domain.{Side, yes_side, no_side, one}
use kalshi_copilot.Fees.{Ratio}
use kalshi_copilot.Book.Changes.{IsValid}
use kalshi_copilot.Book.{
  Levels, OrderBook, walk, executable_cost, cost_levels, sort_desc, as_offer, yes_asks, no_bids,
}
use kalshi_copilot.Book.Sorting.{
  Positive, depth, IsDesc, All-sort_desc, sort_desc-IsDesc, depth-sort_desc, Positive-of_AreValid,
  Positive-as_offer, depth-as_offer,
}

take_is : (k n : ℕ) → min_ℤ (pos k) (pos n) ≡ pos (min k n)
take_is k n = ground arith

left_over : (k n : ℕ) → pos n -ℤ pos (min k n) ≡ pos (n - min k n)
left_over k n = omega int_laws

summed : (f k : ℕ) → pos f +ℤ pos k ≡ pos (f + k)
summed f k = omega int_laws

not_zero : (n : ℕ) → leb_ℤ (pos (suc n)) (pos 0) ≡ false
not_zero n = ground arith

walk_nil : (r c f : ℤ) → walk [] r c f ≡ (c, f)
unfolding walk
walk_nil r c f = refl

walk_done : (d : Levels) (c f : ℤ) → walk d (pos 0) c f ≡ (c, f)
unfolding walk
walk_done [] c f = refl
walk_done ((p, s) ∷ d) c f = refl

walk_level :
    (p : ℤ) (k : ℕ) (d : Levels) (n : ℕ) (c : ℤ) (f : ℕ)
    → walk ((p, pos k) ∷ d) (pos (suc n)) c (pos f)
      ≡ walk d
          (pos (suc n - min k (suc n)))
          (c +ℤ pos (min k (suc n)) *ℤ p)
          (pos (f + min k (suc n)))
unfolding walk
walk_level p k d n c f =
    rw (take_is k (suc n), left_over k (suc n), summed f (min k (suc n)), not_zero n)

walk_filled :
    (d : Levels) (n : ℕ) (c : ℤ) (f : ℕ)
    → Positive d
    → (walk d (pos n) c (pos f)).1 ≡ pos (f + min n (depth d))
walk_filled d zero c f h = rw (walk_done d c (pos f)) (ap pos (omega arith))
walk_filled [] (suc n) c f h = unfold walk in ap pos (omega arith)
walk_filled ((p, pos k) ∷ d) (suc n) c f h =
    rw (walk_level p k d n c f) (walk_filled d _ _ _ h.1 ∙ ap pos (omega arith))
walk_filled ((p, negsuc k) ∷ d) (suc n) c f h = absurd (omega arith)

walk_step_below :
    (t r : ℕ) (lo p c w : ℤ)
    → lo ≤ℤ p
    → (c +ℤ pos t *ℤ p) +ℤ scale r lo ≤ℤ w
    → c +ℤ scale (t + r) lo ≤ℤ w
walk_step_below t r lo p c w b h =
    let below = scale_mono t lo p b in
    let h' = rw (pos-*ℤ t p) at h in rw (scale-add t r lo) (omega (int_laws, below, h'))

walk_step_above :
    (t r : ℕ) (hi p c w : ℤ)
    → p ≤ℤ hi
    → w ≤ℤ (c +ℤ pos t *ℤ p) +ℤ scale r hi
    → w ≤ℤ c +ℤ scale (t + r) hi
walk_step_above t r hi p c w b h =
    let above = scale_mono t p hi b in
    let h' = rw (pos-*ℤ t p) at h in rw (scale-add t r hi) (omega (int_laws, above, h'))

-- The lowest price that the walk can meet bounds its cost from below.
walk_cost_below :
    (d : Levels) (lo : ℤ) (n : ℕ) (c : ℤ) (f : ℕ)
    → Positive d
    → All (λ e. lo ≤ℤ e.0) d
    → c +ℤ scale (min n (depth d)) lo ≤ℤ (walk d (pos n) c (pos f)).0
walk_cost_below d lo zero c f h b =
    let nothing : min 0 (depth d) ≡ 0 = omega arith in
    rw (walk_done d c (pos f), nothing) (omega int_laws)
walk_cost_below [] lo (suc n) c f h b =
    let nothing : min (suc n) 0 ≡ 0 = omega arith in
    rw (walk_nil (pos (suc n)) c (pos f), nothing) (omega int_laws)
walk_cost_below ((p, pos k) ∷ d) lo (suc n) c f h b =
    let t = min k (suc n) in
    let rest = suc n - t in
    let ih = walk_cost_below d lo rest (c +ℤ pos t *ℤ p) (f + t) h.1 b.1 in
    let parts : min (suc n) (k + depth d) ≡ t + min rest (depth d) = omega arith in
    rw (walk_level p k d n c f, parts) (walk_step_below t (min rest (depth d)) lo p c _ b.0 ih)
walk_cost_below ((p, negsuc k) ∷ d) lo (suc n) c f h b = absurd (omega arith)

-- The highest price bounds it from above.
walk_cost_above :
    (d : Levels) (hi : ℤ) (n : ℕ) (c : ℤ) (f : ℕ)
    → Positive d
    → All (λ e. e.0 ≤ℤ hi) d
    → (walk d (pos n) c (pos f)).0 ≤ℤ c +ℤ scale (min n (depth d)) hi
walk_cost_above d hi zero c f h b =
    let nothing : min 0 (depth d) ≡ 0 = omega arith in
    rw (walk_done d c (pos f), nothing) (omega int_laws)
walk_cost_above [] hi (suc n) c f h b =
    let nothing : min (suc n) 0 ≡ 0 = omega arith in
    rw (walk_nil (pos (suc n)) c (pos f), nothing) (omega int_laws)
walk_cost_above ((p, pos k) ∷ d) hi (suc n) c f h b =
    let t = min k (suc n) in
    let rest = suc n - t in
    let ih = walk_cost_above d hi rest (c +ℤ pos t *ℤ p) (f + t) h.1 b.1 in
    let parts : min (suc n) (k + depth d) ≡ t + min rest (depth d) = omega arith in
    rw (walk_level p k d n c f, parts) (walk_step_above t (min rest (depth d)) hi p c _ b.0 ih)
walk_cost_above ((p, negsuc k) ∷ d) hi (suc n) c f h b = absurd (omega arith)

offers_above :
    (p : ℤ) (d : Levels) → All (λ e. e.0 ≤ℤ p) d → All (λ e. one -ℤ p ≤ℤ e.0) (map as_offer d)
offers_above p [] h = tt
offers_above p (e ∷ d) h = (omega (int_laws, h.0), offers_above p d h.1)

-- The levels that are walked on a side, best first: both come from the NO bids.
abbrev pub walked : Side → OrderBook → Levels
walked yes_side b = map as_offer (sort_desc b.no_levels)
walked no_side b = sort_desc b.no_levels

walked-Positive : (s : Side) (b : OrderBook) → IsValid b → Positive (walked s b)
walked-Positive yes_side b v =
    Positive-as_offer _ (All-sort_desc _ b.no_levels (Positive-of_AreValid _ v.no_valid))
walked-Positive no_side b v = All-sort_desc _ b.no_levels (Positive-of_AreValid _ v.no_valid)

depth-walked : (s : Side) (b : OrderBook) → depth (walked s b) ≡ depth b.no_levels
depth-walked yes_side b = depth-as_offer _ ∙ depth-sort_desc b.no_levels
depth-walked no_side b = depth-sort_desc b.no_levels

pub cost_levels-fresh :
    (s : Side) (b : OrderBook) → b.stale ≡ false → cost_levels b s ≡ ok (walked s b)
unfolding yes_asks no_bids
cost_levels-fresh yes_side b fresh = ground arith
cost_levels-fresh no_side b fresh = ground arith

executable_cost_value :
    (s : Side) (b : OrderBook) (n k : ℕ) (cost : ℤ)
    → b.stale ≡ false
    → walk (walked s b) (pos n) (pos 0) (pos 0) ≡ (cost, pos (suc k))
    → executable_cost b s (pos n)
      ≡ ok (some (record { numerator = cost; denominator = suc k }, pos (suc k)))
unfolding executable_cost
executable_cost_value s b n k cost fresh w =
    rw (cost_levels-fresh s b fresh) (rw (w, not_zero k) refl)

-- The average is no better than the best level: not below the lowest offer when YES is bought, not
-- above the highest bid on the NO side.
abbrev pub NoBetter : Side → ℤ → Ratio → Type 0
NoBetter yes_side best r = scale r.denominator best ≤ℤ r.numerator
NoBetter no_side best r = r.numerator ≤ℤ scale r.denominator best

first_offer_lowest :
    (d : Levels) {best : ℤ × ℤ} {rest : Levels}
    → IsDesc d
    → map as_offer d ≡ best ∷ rest
    → All (λ e. best.0 ≤ℤ e.0) (map as_offer d)
first_offer_lowest [] h e = cc
first_offer_lowest (x ∷ d) {best} h e =
    let head : as_offer x ≡ best = cc in
    subst (λ y. All (λ e. y.0 ≤ℤ e.0) (map as_offer (x ∷ d))) head
      (omega arith, offers_above x.0 d h.0)

first_bid_highest :
    (d : Levels) {best : ℤ × ℤ} {rest : Levels}
    → IsDesc d
    → d ≡ best ∷ rest
    → All (λ e. e.0 ≤ℤ best.0) d
first_bid_highest [] h e = cc
first_bid_highest (x ∷ d) {best} h e =
    let head : x ≡ best = cc in subst (λ y. All (λ e. e.0 ≤ℤ y.0) (x ∷ d)) head (omega arith, h.0)

walked_cost :
    (s : Side) (best : ℤ × ℤ) (rest : Levels) (b : OrderBook) (n : ℕ)
    → IsValid b
    → walked s b ≡ best ∷ rest
    → NoBetter s best.0 (record {
      numerator = (walk (walked s b) (pos n) (pos 0) (pos 0)).0;
      denominator = min n (depth b.no_levels);
    })
walked_cost yes_side best rest b n v e =
    let bound =
      walk_cost_below (walked yes_side b) best.0 n (pos 0) 0 (walked-Positive yes_side b v)
        (first_offer_lowest (sort_desc b.no_levels) (sort_desc-IsDesc b.no_levels) e) in
    let h = rw (depth-walked yes_side b) at bound in omega (int_laws, h)
walked_cost no_side best rest b n v e =
    let bound =
      walk_cost_above (walked no_side b) best.0 n (pos 0) 0 (walked-Positive no_side b v)
        (first_bid_highest (sort_desc b.no_levels) (sort_desc-IsDesc b.no_levels) e) in
    let h = rw (depth-walked no_side b) at bound in omega (int_laws, h)

Σ_pair : {w : ℤ × ℤ} {f : ℤ} → w.1 ≡ f → w ≡ (w.0, f)
Σ_pair h = cc

pred_of_pos : (m : ℕ) → 0 < m → (k : ℕ) × (m ≡ suc k)
pred_of_pos zero h = elim h [ ]
pred_of_pos (suc k) h = (k, refl)

-- On a valid book that is not stale, with levels to walk, the cost of a positive number of
-- contracts is quoted for exactly the smaller of that number and the depth of the NO bids, and the
-- average is no better than the best level that is walked.
pub executable_cost_bounds :
    (s : Side) (best : ℤ × ℤ) (rest : Levels) (b : OrderBook) (n : ℕ)
    → IsValid b
    → b.stale ≡ false
    → walked s b ≡ best ∷ rest
    → 0 < min n (depth b.no_levels)
    → (r : Ratio) × (executable_cost b s (pos n) ≡ ok (some (r, pos (min n (depth b.no_levels)))))
      × (r.denominator ≡ min n (depth b.no_levels))
      × NoBetter s best.0 r
executable_cost_bounds s best rest b n v fresh e h =
    let cost = (walk (walked s b) (pos n) (pos 0) (pos 0)).0 in
    let (k, is_suc) = pred_of_pos (min n (depth b.no_levels)) h in
    let filled : (walk (walked s b) (pos n) (pos 0) (pos 0)).1 ≡ pos (suc k) =
      walk_filled (walked s b) n (pos 0) 0 (walked-Positive s b v)
      ∙ ap pos (omega (arith, depth-walked s b, is_suc)) in
    (
      record { numerator = cost; denominator = min n (depth b.no_levels) },
      rw is_suc (executable_cost_value s b n k cost fresh (Σ_pair filled)),
      refl,
      walked_cost s best rest b n v e,
    )
