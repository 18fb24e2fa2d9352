-- ===== src/Settlements/Passes.antt =====
-- The local pass of settlements.py over the markets, run again.
use mathlib.Core.Path.{subst}
use kalshi_copilot.Base.{
  ℕ, ◌≡◌, refl, sym, ◌∙◌, ap, ◌⊎◌, inl, inr, true, false, Option, none, some, List, [], ◌∷◌, arith,
  find, or_else, Bool-cases, All, Option-cases,
}
use kalshi_copilot.Base.Int.{ℤ, pos, eqb_ℤ}
use kalshi_copilot.Base.Text.{Text}
use kalshi_copilot.Base.Outcome.{ok, raise, Outcome-cases}
use kalshi_copilot.Interlocks.{ExecutionRoute, simulated}
use kalshi_copilot.Ledger.{Position, Settlement, Books, is_position, new_position}
use kalshi_copilot.Settlements.Once.{
  either, apply_settlement_spent, apply_settlement-is_spent, apply_settlement-keeps_spent,
}
use kalshi_copilot.Settlements.{
  SettleError, absent, settled_yes_value, Payout, is_spent, apply_settlement, counted, Market,
  settle_markets, is_open, open_markets, sync_local_settlements,
}

-- The market has nothing to apply: its result has no price, or it is spent.
abbrev Handled : ExecutionRoute → Books → Market → Type 0
Handled route b m =
    (settled_yes_value m.result absent m.settlement_value ≡ ok none)
    ⊎ (is_spent m.ticker route b ≡ true)

absent_is_priced :
    (r : Option Text) (v : Option ℤ) (e : SettleError) → ¬ (settled_yes_value r absent v ≡ raise e)
unfolding settled_yes_value
absent_is_priced r none e h = ground arith
absent_is_priced r (some z) e h = ground arith

settled_absent :
    (r : Option Text) (v : Option ℤ) → (o : Option ℤ) × (settled_yes_value r absent v ≡ ok o)
settled_absent r v = elim (Outcome-cases (settled_yes_value r absent v)) [
  | inl found ↦ found
  | inr (e, refused) ↦ absurd (absent_is_priced r v e refused)
]

module _ (route : ExecutionRoute) (now : ℕ) where
  abbrev payout_of : Market → ℤ → Payout
  payout_of m v = record {
    ticker = m.ticker;
    payout_yes = v;
    fee_cents = pos 0;
    settled_at = m.settlement_ts;
  }

  market_unpriced :
      (m : Market) (rest : List Market) (n : ℕ) (b : Books)
      → settled_yes_value m.result absent m.settlement_value ≡ ok none
      → settle_markets (m ∷ rest) route now (n, b) ≡ settle_markets rest route now (n, b)
  unfolding settle_markets
  market_unpriced m rest n b h = rw h refl

  market_priced :
      (m : Market) (rest : List Market) (n : ℕ) (b : Books) (v : ℤ)
      → settled_yes_value m.result absent m.settlement_value ≡ ok (some v)
      → settle_markets (m ∷ rest) route now (n, b)
        ≡ settle_markets rest route now (
          counted (apply_settlement (payout_of m v) route now b).0 n,
          (apply_settlement (payout_of m v) route now b).1,
        )
  unfolding settle_markets
  market_priced m rest n b v h = rw h refl

  no_markets :
      (n : ℕ) (b : Books) {n' : ℕ} {b' : Books}
      → settle_markets [] route now (n, b) ≡ ok (n', b')
      → b ≡ b'
  unfolding settle_markets
  no_markets n b h = cc

  settle_markets-keeps_spent :
      (ms : List Market) (n : ℕ) (b : Books) {n' : ℕ} {b' : Books} (t : Text) (r : ExecutionRoute)
      → settle_markets ms route now (n, b) ≡ ok (n', b')
      → is_spent t r b ≡ true
      → is_spent t r b' ≡ true
  settle_markets-keeps_spent [] n b {n'} {b'} t r h k =
      subst (λ (c : Books). is_spent t r c ≡ true) (no_markets n b h) k
  settle_markets-keeps_spent (m ∷ rest) n b t r h k =
      let (o, priced) = settled_absent m.result m.settlement_value in
      elim (Option-cases o) [
        | inl unpriced ↦
            let none_is : settled_yes_value m.result absent m.settlement_value ≡ ok none =
              priced ∙ ap ok unpriced in
            settle_markets-keeps_spent rest n b t r (sym (market_unpriced m rest n b none_is) ∙ h) k
        | inr (v, some_is) ↦
            let value : settled_yes_value m.result absent m.settlement_value ≡ ok (some v) =
              priced ∙ ap ok some_is in
            settle_markets-keeps_spent rest _ _ t r (sym (market_priced m rest n b v value) ∙ h)
              (apply_settlement-keeps_spent (payout_of m v) route now b t r k)
      ]

  -- A pass leaves every market that it has read with nothing to apply.
  settle_markets-Handled :
      (ms : List Market) (n : ℕ) (b : Books) {n' : ℕ} {b' : Books}
      → settle_markets ms route now (n, b) ≡ ok (n', b')
      → All (Handled route b') ms
  settle_markets-Handled [] n b h = tt
  settle_markets-Handled (m ∷ rest) n b h =
      let (o, priced) = settled_absent m.result m.settlement_value in
      elim (Option-cases o) [
        | inl unpriced ↦
            let none_is : settled_yes_value m.result absent m.settlement_value ≡ ok none =
              priced ∙ ap ok unpriced in
            (
              inl none_is,
              settle_markets-Handled rest n b (sym (market_unpriced m rest n b none_is) ∙ h),
            )
        | inr (v, some_is) ↦
            let value : settled_yes_value m.result absent m.settlement_value ≡ ok (some v) =
              priced ∙ ap ok some_is in
            let after = sym (market_priced m rest n b v value) ∙ h in
            (
              inr (
                  settle_markets-keeps_spent rest _ _ m.ticker route after
                    (apply_settlement-is_spent (payout_of m v) route now b)),
              settle_markets-Handled rest _ _ after,
            )
      ]

  -- A pass over markets with nothing to apply changes nothing.
  settle_markets_idle :
      (ms : List Market) (n : ℕ) (b : Books)
      → All (Handled route b) ms
      → settle_markets ms route now (n, b) ≡ ok (n, b)
  settle_markets_idle [] n b h = unfold settle_markets in refl
  settle_markets_idle (m ∷ rest) n b (inl unpriced, h) =
      market_unpriced m rest n b unpriced ∙ settle_markets_idle rest n b h
  settle_markets_idle (m ∷ rest) n b (inr spent, h) =
      let (o, priced) = settled_absent m.result m.settlement_value in
      elim (Option-cases o) [
        | inl unpriced ↦
            market_unpriced m rest n b (priced ∙ ap ok unpriced) ∙ settle_markets_idle rest n b h
        | inr (v, some_is) ↦
            market_priced m rest n b v (priced ∙ ap ok some_is)
            ∙ ap
                (λ (done : Option Settlement × Books).
                  settle_markets rest route now (counted done.0 n, done.1))
                (apply_settlement_spent (payout_of m v) route now b spent)
            ∙ settle_markets_idle rest n b h
      ]

-- A market of which no simulated row holds contracts has nothing to settle.
closed-is_spent :
    (b : Books) (t : Text) → is_open b.positions t ≡ false → is_spent t simulated b ≡ true
closed-is_spent b t h = either _ (flat b.positions h)
  where
    flat :
        (ps : List Position)
        → is_open ps t ≡ false
        → eqb_ℤ
            (or_else (find (is_position t simulated) ps) (new_position t simulated)).net_contracts
            (pos 0)
          ≡ true
    flat [] h = ground arith
    flat (p ∷ ps) h = elim (Bool-cases (is_position t simulated p)) [
      | inl here ↦ rw here (ground arith)
      | inr later ↦ rw later (flat ps (ground arith))
    ]

open_markets-Handled :
    (ps : List Position) (b : Books) (ms : List Market)
    → All (Handled simulated b) (open_markets ps ms)
    → ((m : Market) → is_open ps m.ticker ≡ false → is_spent m.ticker simulated b ≡ true)
    → All (Handled simulated b) ms
open_markets-Handled ps b [] h k = tt
open_markets-Handled ps b (m ∷ ms) h k = elim (Bool-cases (is_open ps m.ticker)) [
  | inl held ↦
      let both : All (Handled simulated b) (m ∷ open_markets ps ms) = rw held at h in
      (both.0, open_markets-Handled ps b ms both.1 k)
  | inr closed ↦
      let rest : All (Handled simulated b) (open_markets ps ms) = rw closed at h in
      (inr (k m closed), open_markets-Handled ps b ms rest k)
]

Handled-open_markets :
    (ps : List Position) (b : Books) (ms : List Market)
    → All (Handled simulated b) ms
    → All (Handled simulated b) (open_markets ps ms)
Handled-open_markets ps b [] h = tt
Handled-open_markets ps b (m ∷ ms) h = elim (Bool-cases (is_open ps m.ticker)) [
  | inl held ↦ rw held (h.0, Handled-open_markets ps b ms h.1)
  | inr closed ↦ rw closed (Handled-open_markets ps b ms h.1)
]

-- A pass of the local settlements over the same markets as an earlier one, with nothing traded in
-- between, applies nothing and changes nothing.
pub sync_local_settlements_twice :
    (ms : List Market) (now later : ℕ) (b : Books) {n : ℕ} {b' : Books}
    → sync_local_settlements ms now b ≡ ok (n, b')
    → sync_local_settlements ms later b' ≡ ok (0, b')
unfolding sync_local_settlements
sync_local_settlements_twice ms now later b {n} {b'} h =
    let considered = open_markets b.positions ms in
    let handled = settle_markets-Handled simulated now considered 0 b h in
    let every = open_markets-Handled b.positions b' ms handled (λ m closed.
      settle_markets-keeps_spent simulated now considered 0 b m.ticker simulated h
        (closed-is_spent b m.ticker closed)) in
    settle_markets_idle simulated later (open_markets b'.positions ms) 0 b'
      (Handled-open_markets b'.positions b' ms every)
