-- ===== src/Positions/Conservation.antt =====
-- The cost basis under every fill of positions.py.
use kalshi_copilot.Base.{ℕ, zero, suc, ◌+◌, ◌≡◌, refl, ◌⊎◌, inl, inr, false, arith}
use kalshi_copilot.Base.Int.{ℤ, pos, negsuc, ◌+ℤ◌, negate, eqb_ℤ, int_laws}
use kalshi_copilot.Fees.{Ratio}
use kalshi_copilot.Positions.{realized_from_fill}
use kalshi_copilot.Positions.Basis.{
  Balanced, long_grows, short_grows, flat_opens_short, unchanged, long_reduced, long_crossed,
  long_closed, short_reduced, short_crossed, short_closed,
}
use kalshi_copilot.Positions.Branches.{
  fill_long_reduced, fill_long_closed, fill_long_crossed, fill_short_reduced, fill_short_closed,
  fill_short_crossed, fill_zero, fill_long_grows, fill_short_grows, fill_flat_opens_short,
}

compare_sizes : (m k : ℕ) → ((j : ℕ) × (m ≡ k + suc j)) ⊎ (m ≡ k) ⊎ ((j : ℕ) × (k ≡ m + suc j))
compare_sizes zero zero = inr (inl refl)
compare_sizes zero (suc k) = inr (inr (k, omega arith))
compare_sizes (suc m) zero = inl (m, omega arith)
compare_sizes (suc m) (suc k) = elim (compare_sizes m k) [
  | inl (j, e) ↦ inl (j, omega arith)
  | inr (inl e) ↦ inr (inl (omega arith))
  | inr (inr (j, e)) ↦ inr (inr (j, omega arith))
]

-- `negsuc k` as the negative of a size.
negated : (k : ℕ) → negsuc k ≡ negate (pos (suc k))
unfolding negate
negated k = ground arith

module _ (avg : Ratio) (fill : ℤ) where
  long_against :
      (m k : ℕ)
      → Balanced
          (pos (suc m))
          avg
          (negsuc k)
          fill
          (realized_from_fill (pos (suc m)) avg (negsuc k) fill)
  long_against m k = elim (compare_sizes (suc m) (suc k)) [
    | inl (j, e) ↦
        rw (fill_long_reduced avg fill m k j e, negated k)
          (long_reduced (suc m) (suc k) (suc j) avg fill e)
    | inr (inl e) ↦
        let same : k ≡ m = omega arith in
        rw same (rw (fill_long_closed avg fill m, negated m) (long_closed (suc m) avg fill))
    | inr (inr (j, e)) ↦
        rw (fill_long_crossed avg fill m k j e, negated k, negated j)
          (long_crossed (suc m) (suc k) (suc j) avg fill e)
  ]

  short_against :
      (m k : ℕ)
      → Balanced
          (negsuc m)
          avg
          (pos (suc k))
          fill
          (realized_from_fill (negsuc m) avg (pos (suc k)) fill)
  short_against m k = elim (compare_sizes (suc m) (suc k)) [
    | inl (j, e) ↦
        rw (fill_short_reduced avg fill m k j e, negated m, negated j)
          (short_reduced (suc m) (suc k) (suc j) avg fill e)
    | inr (inl e) ↦
        let same : k ≡ m = omega arith in
        rw same (rw (fill_short_closed avg fill m, negated m) (short_closed (suc m) avg fill))
    | inr (inr (j, e)) ↦
        rw (fill_short_crossed avg fill m k j e, negated m)
          (short_crossed (suc m) (suc k) (suc j) avg fill e)
  ]

net_of_fill :
    (net : ℤ) (avg : Ratio) (delta fill : ℤ)
    → eqb_ℤ delta (pos 0) ≡ false
    → (realized_from_fill net avg delta fill).net_contracts ≡ net +ℤ delta
unfolding realized_from_fill
net_of_fill net avg delta fill h = ground arith

not_zero : (k : ℕ) → (eqb_ℤ (pos (suc k)) (pos 0) ≡ false) × (eqb_ℤ (negsuc k) (pos 0) ≡ false)
not_zero k = (ground arith, ground arith)

-- Whatever the position and the fill, long, short, reducing, closing or crossing through zero: the
-- contracts move by the size of the fill, and the cost of the new position is the old cost plus
-- what the fill paid plus the profit that was realised, exactly.
pub realized_from_fill-Balanced :
    (net : ℤ) (avg : Ratio) (delta fill : ℤ)
    → ((realized_from_fill net avg delta fill).net_contracts ≡ net +ℤ delta)
      × Balanced net avg delta fill (realized_from_fill net avg delta fill)
realized_from_fill-Balanced net avg (pos zero) fill =
    rw (fill_zero avg fill net) (omega int_laws, unchanged net avg fill)
realized_from_fill-Balanced (pos m) avg (pos (suc k)) fill =
    rw (fill_long_grows avg fill m k) (omega int_laws, long_grows m (suc k) avg fill)
realized_from_fill-Balanced (negsuc m) avg (negsuc k) fill =
    rw (fill_short_grows avg fill m k) (omega int_laws, short_grows m k avg fill)
realized_from_fill-Balanced (pos zero) avg (negsuc k) fill =
    rw (fill_flat_opens_short avg fill k) (omega int_laws, flat_opens_short k avg fill)
realized_from_fill-Balanced (pos (suc m)) avg (negsuc k) fill =
    (net_of_fill (pos (suc m)) avg (negsuc k) fill (not_zero k).1, long_against avg fill m k)
realized_from_fill-Balanced (negsuc m) avg (pos (suc k)) fill =
    (net_of_fill (negsuc m) avg (pos (suc k)) fill (not_zero k).0, short_against avg fill m k)
