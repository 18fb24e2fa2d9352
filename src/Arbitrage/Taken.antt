-- ===== src/Arbitrage/Taken.antt =====
-- What the walk of set_arbitrage.py takes from the levels of a leg, described level by level.
use kalshi_copilot.Base.{
  ◌≡◌, refl, ap, ◌∙◌, ◌⊎◌, inl, inr, true, false, [], ◌∷◌, ◌++◌, Bool-cases, arith,
}
use kalshi_copilot.Base.Int.{
  ℤ, pos, ◌+ℤ◌, ◌-ℤ◌, ◌*ℤ◌, ◌≤ℤ◌, ◌<ℤ◌, leb_ℤ, min_ℤ, int_laws, eq_of_parts, +ℤ_assoc,
}
use kalshi_copilot.Book.{Levels}
use kalshi_copilot.Pricing.{inside}
use kalshi_copilot.Arbitrage.{SetDirection, sell_set, buy_set, effective_price, consume}

-- The price that is counted on: less by the slippage for a seller, more by it for a buyer.
abbrev pub worse_by : ℤ → SetDirection → ℤ → ℤ
worse_by slip sell_set price = price -ℤ slip
worse_by slip buy_set price = price +ℤ slip

-- The parts, each a price and an amount, that are taken from levels in their order. A level whose price
-- is then outside of a dollar is passed over; of another at most its size is taken, something where it
-- has a size, and the whole of it where a later level is touched.
pub data Taken (d : SetDirection) (slip : ℤ) : Levels → Levels → Type 0 where
  enough : (levels : Levels) → Taken d slip levels []
  pass_over :
      (price size : ℤ) (rest parts : Levels)
      → inside (worse_by slip d price) ≡ false
      → Taken d slip rest parts
      → Taken d slip ((price, size) ∷ rest) parts
  take_part :
      (price size amount : ℤ) (rest parts : Levels)
      → inside (worse_by slip d price) ≡ true
      → amount ≤ℤ size
      → (pos 0 <ℤ size → pos 0 <ℤ amount)
      → (parts ≡ []) ⊎ (amount ≡ size)
      → Taken d slip rest parts
      → Taken d slip ((price, size) ∷ rest) ((worse_by slip d price, amount) ∷ parts)

-- What some parts come to: their contracts, and their price times their contracts.
abbrev pub contracts_in : Levels → ℤ
contracts_in [] = pos 0
contracts_in ((price, amount) ∷ rest) = amount +ℤ contracts_in rest

abbrev pub worth : Levels → ℤ
worth [] = pos 0
worth ((price, amount) ∷ rest) = amount *ℤ price +ℤ worth rest

-- The walk from some state takes parts that account for the state it ends in.
abbrev pub Walked : SetDirection → ℤ → Levels → ℤ → ℤ → Levels → ℤ × ℤ × Levels → Type 0
Walked d slip levels remaining cost consumed (cost', left, consumed') =
    (parts : Levels) × Taken d slip levels parts
    × (consumed' ≡ consumed ++ parts)
    × (cost' ≡ cost +ℤ worth parts)
    × (remaining ≡ left +ℤ contracts_in parts)

moved : (r a x c : ℤ) → r -ℤ a ≡ x +ℤ c → r ≡ x +ℤ (a +ℤ c)
moved r a x c h =
    let split : r ≡ (r -ℤ a) +ℤ a = eq_of_parts _ _ (omega int_laws) in
    let joined : (x +ℤ c) +ℤ a ≡ x +ℤ (a +ℤ c) = eq_of_parts _ _ (omega int_laws) in
    split ∙ ap (λ z. z +ℤ a) h ∙ joined

spent : (r : ℤ) → leb_ℤ (r -ℤ r) (pos 0) ≡ true
spent r = let nothing : r -ℤ r ≡ pos 0 = eq_of_parts _ _ (omega int_laws) in rw nothing refl

-- What remains, where it is less than a level has.
smaller : (r size : ℤ) → leb_ℤ size r ≡ false → r ≤ℤ size
smaller r size h = ground arith

some_left : (r : ℤ) → leb_ℤ r (pos 0) ≡ false → pos 0 <ℤ r
some_left r h = ground arith

at_most : (size : ℤ) → size ≤ℤ size
at_most size = omega arith

module _ (d : SetDirection) (slip : ℤ) where
  append_nil : (ls : Levels) → ls ≡ ls ++ []
  append_nil [] = refl
  append_nil (l ∷ ls) = ap (λ (k : Levels). l ∷ k) (append_nil ls)

  append_one : (l : ℤ × ℤ) (ls ks : Levels) → (ls ++ l ∷ []) ++ ks ≡ ls ++ l ∷ ks
  append_one l [] ks = refl
  append_one l (k ∷ ls) ks = ap (λ (m : Levels). k ∷ m) (append_one l ls ks)

  nothing_taken :
      (levels : Levels) (remaining cost : ℤ) (consumed : Levels)
      → (w : Walked d slip levels remaining cost consumed (cost, remaining, consumed)) × (w.0 ≡ [])
  nothing_taken levels remaining cost consumed = (
    (
      [],
      enough levels,
      append_nil consumed,
      eq_of_parts _ _ (omega int_laws),
      eq_of_parts _ _ (omega int_laws),
    ),
    refl,
  )

  passed_over :
      (price size : ℤ) (rest : Levels) (remaining cost : ℤ) (consumed : Levels)
      (end : ℤ × ℤ × Levels)
      → inside (worse_by slip d price) ≡ false
      → Walked d slip rest remaining cost consumed end
      → Walked d slip ((price, size) ∷ rest) remaining cost consumed end
  passed_over price size rest remaining cost consumed end outer
        (parts, taken, on_list, on_cost, on_size) =
      (parts, pass_over price size rest parts outer taken, on_list, on_cost, on_size)

  taken_part :
      (price size amount : ℤ) (rest : Levels) (remaining cost : ℤ) (consumed : Levels)
      (end : ℤ × ℤ × Levels)
      → inside (worse_by slip d price) ≡ true
      → amount ≤ℤ size
      → (pos 0 <ℤ size → pos 0 <ℤ amount)
      → (w : Walked d slip rest
          (remaining -ℤ amount)
          (cost +ℤ amount *ℤ worse_by slip d price)
          (consumed ++ (worse_by slip d price, amount) ∷ [])
          end)
      → (w.0 ≡ []) ⊎ (amount ≡ size)
      → Walked d slip ((price, size) ∷ rest) remaining cost consumed end
  taken_part price size amount rest remaining cost consumed end inner most some_of
        (parts, taken, on_list, on_cost, on_size) last =
      (
        (worse_by slip d price, amount) ∷ parts,
        take_part price size amount rest parts inner most some_of last taken,
        on_list ∙ append_one (worse_by slip d price, amount) consumed parts,
        on_cost ∙ +ℤ_assoc cost _ _,
        moved remaining amount end.1 (contracts_in parts) on_size,
      )

  consume_done :
      (levels : Levels) (remaining cost : ℤ) (consumed : Levels)
      → leb_ℤ remaining (pos 0) ≡ true
      → consume d slip levels remaining cost consumed ≡ (cost, remaining, consumed)
  unfolding consume
  consume_done [] remaining cost consumed done = refl
  consume_done ((price, size) ∷ rest) remaining cost consumed done = rw done refl

  same_price : (price : ℤ) → effective_price d slip price ≡ worse_by slip d price
  same_price price = by_direction d
    where
      by_direction : (e : SetDirection) → effective_price e slip price ≡ worse_by slip e price
      by_direction sell_set = refl
      by_direction buy_set = refl

  -- The part that is taken of a level: all of it, or what remains, which ends the walk.
  step_taken :
      (price size : ℤ) (rest : Levels) (remaining cost : ℤ) (consumed : Levels)
      → leb_ℤ remaining (pos 0) ≡ false
      → inside (worse_by slip d price) ≡ true
      → ((left spent : ℤ) (so_far : Levels)
          → Walked d slip rest left spent so_far (consume d slip rest left spent so_far))
      → Walked d slip ((price, size) ∷ rest) remaining cost consumed (
          consume d slip rest
            (remaining -ℤ min_ℤ size remaining)
            (cost +ℤ min_ℤ size remaining *ℤ worse_by slip d price)
            (consumed ++ (worse_by slip d price, min_ℤ size remaining) ∷ []))
  step_taken price size rest remaining cost consumed more inner onward =
      elim (Bool-cases (leb_ℤ size remaining)) [
        | inl whole_level ↦ rw whole_level (
            taken_part price size size rest remaining cost consumed _ inner (at_most size) (λ h. h)
              (onward _ _ _) (inr refl))
        | inr rest_of_it ↦ rw rest_of_it (
            rw
              (consume_done rest (remaining -ℤ remaining)
                (cost +ℤ remaining *ℤ worse_by slip d price)
                (consumed ++ (worse_by slip d price, remaining) ∷ []) (spent remaining))
              (taken_part price size remaining rest remaining cost consumed _ inner
                (smaller remaining size rest_of_it) (λ h. some_left remaining more)
                (nothing_taken rest _ _ _).0 (inl (nothing_taken rest _ _ _).1)))
      ]

  pub consume-Walked :
      (levels : Levels) (remaining cost : ℤ) (consumed : Levels)
      → Walked d slip levels remaining cost consumed (consume d slip levels remaining cost consumed)
  unfolding consume
  consume-Walked [] remaining cost consumed = (nothing_taken [] remaining cost consumed).0
  consume-Walked ((price, size) ∷ rest) remaining cost consumed =
      elim (Bool-cases (leb_ℤ remaining (pos 0))) [
        | inl done ↦ rw done (nothing_taken ((price, size) ∷ rest) remaining cost consumed).0
        | inr more ↦ elim (Bool-cases (inside (worse_by slip d price))) [
          | inl inner ↦
              rw (same_price price, more, inner)
                (step_taken price size rest remaining cost consumed more inner
                  (λ left spent so_far. consume-Walked rest left spent so_far))
          | inr outer ↦
              rw (same_price price, more, outer)
                (passed_over price size rest remaining cost consumed _ outer
                  (consume-Walked rest remaining cost consumed))
        ]
      ]
