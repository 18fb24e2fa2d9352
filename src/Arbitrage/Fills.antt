-- ===== src/Arbitrage/Fills.antt =====
-- The walk of set_arbitrage.py fills the whole size or nothing.
use kalshi_copilot.Base.{
  ℕ, ◌+◌, ◌≤◌, ◌≡◌, ◌∙◌, inl, inr, false, Option, none, some, [], ◌∷◌, leb→le, ltb, sym, Bool-cases,
  arith,
}
use kalshi_copilot.Base.Int.{
  ℤ, pos, pos_part, neg_part, ◌-ℤ◌, ltb_ℤ, leb_ℤ, ◌≤ℤ◌, min_ℤ, int_laws, eq_of_parts,
}
use kalshi_copilot.Book.{Levels}
use kalshi_copilot.Pricing.{inside}
use kalshi_copilot.Arbitrage.{SetDirection, effective_price, consume, walk_set}

left_after : (size remaining : ℤ) → pos 0 ≤ℤ remaining → pos 0 ≤ℤ remaining -ℤ min_ℤ size remaining
left_after size remaining h = elim (Bool-cases (leb_ℤ size remaining)) [
  | inl fits ↦ let le = leb→le _ _ fits in rw fits (omega int_laws)
  | inr over ↦ rw over (omega int_laws)
]

consume_remaining :
    (d : SetDirection) (slip : ℤ) (levels : Levels) (remaining cost : ℤ) (consumed : Levels)
    → pos 0 ≤ℤ remaining
    → pos 0 ≤ℤ (consume d slip levels remaining cost consumed).1
unfolding consume
consume_remaining d slip [] remaining cost consumed h = h
consume_remaining d slip ((price, size) ∷ rest) remaining cost consumed h =
    elim (Bool-cases (leb_ℤ remaining (pos 0))) [
      | inl done ↦ rw done h
      | inr more ↦ elim (Bool-cases (inside (effective_price d slip price))) [
        | inl inner ↦
            rw (more, inner) (consume_remaining d slip rest _ _ _ (left_after size remaining h))
        | inr outer ↦ rw (more, outer) (consume_remaining d slip rest remaining cost consumed h)
      ]
    ]

pub walk_set-filled :
    (d : SetDirection) (slip : ℤ) (levels : Levels) (qty cost filled : ℤ) (consumed : Levels)
    → pos 0 ≤ℤ qty
    → walk_set d slip levels qty ≡ some (cost, filled, consumed)
    → filled ≡ qty
unfolding walk_set
walk_set-filled d slip levels qty cost filled consumed h walked =
    let left = (consume d slip levels qty (pos 0) []).1 in
    let some_left : pos 0 ≤ℤ left = consume_remaining d slip levels qty (pos 0) [] h in
    elim (Bool-cases (ltb_ℤ (pos 0) left)) [
      | inl short ↦
          let clash : ◌≡◌ {A = Option (ℤ × ℤ × Levels)} none (some (cost, filled, consumed)) =
            rw short at walked in
          cc
      | inr all ↦
          let same = rw all at walked in
          let own : qty -ℤ left ≡ filled = cc in
          let nothing = at_most (pos_part (pos 0) + neg_part left) _ all in
          sym own ∙ eq_of_parts (qty -ℤ left) qty (omega int_laws)
    ]
  where
    at_most : (a b : ℕ) → ltb a b ≡ false → b ≤ a
    at_most a b h = ground arith
