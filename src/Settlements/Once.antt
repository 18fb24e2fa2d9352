-- ===== src/Settlements/Once.antt =====
-- The books of settlements.py after a settlement that is applied again.
use mathlib.Core.Path.{subst}
use kalshi_copilot.Base.{
  ℕ, ◌≡◌, refl, sym, ap, ◌∙◌, List, [], ◌∷◌, inl, inr, Bool, true, false, ◌&&◌, ◌||◌, Option, none,
  some, arith, any, or_else, Bool-cases, find-upsert_other,
}
use kalshi_copilot.Base.Int.{pos, eqb_ℤ}
use kalshi_copilot.Base.Text.{Text, text_eq, text_eq_sound, text_eq_refl}
use kalshi_copilot.Base.Outcome.{Outcome, ok, raise, Outcome-cases}
use kalshi_copilot.Domain.{ValueError}
use kalshi_copilot.Direction.{signed_contracts}
use kalshi_copilot.Interlocks.{ExecutionRoute, same_route}
use kalshi_copilot.Ledger.{
  Position, Fill, Settlement, Books, is_position, new_position, position_of, apply_fill,
}
use kalshi_copilot.Ledger.Net.{apart, own_row}
use kalshi_copilot.Settlements.{
  realized_from_settlement, is_settled, Payout, closed_out, settle, is_spent, apply_settlement,
}

pub either : (a : Bool) {b : Bool} → b ≡ true → (a || b) ≡ true
either a h = rw h (ground arith)

module _ (m : Payout) (route : ExecutionRoute) (now : ℕ) (b : Books) where
  pub apply_settlement_spent :
      is_spent m.ticker route b ≡ true → apply_settlement m route now b ≡ (none, b)
  unfolding apply_settlement
  apply_settlement_spent h = rw h refl

  apply_settlement_open :
      is_spent m.ticker route b ≡ false
      → apply_settlement m route now b ≡ (some (settle m route now b).0, (settle m route now b).1)
  unfolding apply_settlement
  apply_settlement_open h = rw h refl

  -- A settlement that is written is on record.
  settle-is_spent : is_spent m.ticker route (settle m route now b).1 ≡ true
  unfolding settle
  settle-is_spent = rw (text_eq_refl m.ticker) (ground arith)

  settle-other_position :
      (t : Text) (r : ExecutionRoute)
      → (text_eq m.ticker t && same_route route r) ≡ false
      → position_of t r (settle m route now b).1 ≡ position_of t r b
  unfolding settle
  settle-other_position t r k =
      let p = position_of m.ticker route b in
      let realized = realized_from_settlement p.net_contracts p.avg_price m.payout_yes in
      ap (λ (o : Option Position). or_else o (new_position t r))
        (find-upsert_other (is_position m.ticker route) (closed_out realized m.fee_cents)
          (new_position m.ticker route) (is_position t r)
          (λ x own. apart m.ticker t route r x k own) (λ x own. apart m.ticker t route r x k own)
          (own_row m.ticker route) b.positions)

  settle-records :
      (t : Text) (r : ExecutionRoute)
      → any (is_settled t r) b.settled ≡ true
      → any (is_settled t r) (settle m route now b).1.settled ≡ true
  unfolding settle
  settle-records t r h = rw h (ground arith)

  -- A settlement keeps every market that is spent so.
  settle-keeps_spent :
      (t : Text) (r : ExecutionRoute)
      → is_spent t r b ≡ true
      → is_spent t r (settle m route now b).1 ≡ true
  settle-keeps_spent t r h = elim (Bool-cases (text_eq m.ticker t && same_route route r)) [
    | inl same ↦
        let ticker : m.ticker ≡ t = text_eq_sound m.ticker t (ground arith) in
        let q : route ≡ r = ground arith in
        subst (λ (u : Text). is_spent u r (settle m route now b).1 ≡ true) ticker
          (subst (λ (v : ExecutionRoute). is_spent m.ticker v (settle m route now b).1 ≡ true) q
            settle-is_spent)
    | inr differs ↦ elim (Bool-cases (any (is_settled t r) b.settled)) [
      | inl done ↦ rw (settle-records t r done) refl
      | inr not_done ↦
          let flat : eqb_ℤ (position_of t r b).net_contracts (pos 0) ≡ true = rw not_done at h in
          rw (settle-other_position t r differs) (either _ flat)
    ]
  ]

  pub apply_settlement-is_spent : is_spent m.ticker route (apply_settlement m route now b).1 ≡ true
  apply_settlement-is_spent = elim (Bool-cases (is_spent m.ticker route b)) [
    | inl spent ↦ rw (apply_settlement_spent spent) spent
    | inr held ↦ rw (apply_settlement_open held) settle-is_spent
  ]

  pub apply_settlement-keeps_spent :
      (t : Text) (r : ExecutionRoute)
      → is_spent t r b ≡ true
      → is_spent t r (apply_settlement m route now b).1 ≡ true
  apply_settlement-keeps_spent t r h = elim (Bool-cases (is_spent m.ticker route b)) [
    | inl spent ↦ rw (apply_settlement_spent spent) h
    | inr held ↦ rw (apply_settlement_open held) (settle-keeps_spent t r h)
  ]

-- What is entered in the books: a fill, or a settlement at a time.
pub data Entry : Type 0 where
  filled : Fill → ExecutionRoute → Entry
  paid : Payout → ExecutionRoute → ℕ → Entry

-- A fill that names no action leaves the books as they are.
abbrev pub after_fill : Books → Outcome ValueError (Fill × Books) → Books
after_fill b (raise e) = b
after_fill b (ok (fill, c)) = c

abbrev pub entered : Books → List Entry → Books
entered b [] = b
entered b (filled fill route ∷ es) = entered (after_fill b (apply_fill fill route b)) es
entered b (paid m route now ∷ es) = entered (apply_settlement m route now b).1 es

module _ (t : Text) (r : ExecutionRoute) where
  after_fill-records :
      (fill : Fill) (route : ExecutionRoute) (b : Books)
      → any (is_settled t r) b.settled ≡ true
      → any (is_settled t r) (after_fill b (apply_fill fill route b)).settled ≡ true
  unfolding apply_fill
  after_fill-records fill route b h =
      elim (Outcome-cases (signed_contracts fill.side fill.action fill.contracts)) [
        | inl (delta, named) ↦ rw named h
        | inr (e, unnamed) ↦ rw unnamed h
      ]

  apply_settlement-keeps_record :
      (m : Payout) (route : ExecutionRoute) (now : ℕ) (b : Books)
      → any (is_settled t r) b.settled ≡ true
      → any (is_settled t r) (apply_settlement m route now b).1.settled ≡ true
  apply_settlement-keeps_record m route now b h = elim (Bool-cases (is_spent m.ticker route b)) [
    | inl spent ↦ rw (apply_settlement_spent m route now b spent) h
    | inr held ↦ rw (apply_settlement_open m route now b held) (settle-records m route now b t r h)
  ]

  entered-records :
      (es : List Entry) (b : Books)
      → any (is_settled t r) b.settled ≡ true
      → any (is_settled t r) (entered b es).settled ≡ true
  entered-records [] b h = h
  entered-records (filled fill route ∷ es) b h =
      entered-records es _ (after_fill-records fill route b h)
  entered-records (paid m route now ∷ es) b h =
      entered-records es _ (apply_settlement-keeps_record m route now b h)

-- A settlement that is written is a row of the settlements.
apply_settlement-records :
    (m : Payout) (route : ExecutionRoute) (now : ℕ) (b c : Books) (row : Settlement)
    → apply_settlement m route now b ≡ (some row, c)
    → any (is_settled m.ticker route) c.settled ≡ true
unfolding settle
apply_settlement-records m route now b c row h = elim (Bool-cases (is_spent m.ticker route b)) [
  | inl spent ↦
      let clash : ◌≡◌ {A = Option Settlement} none (some row) =
        ap (λ (x : Option Settlement × Books). x.0)
          (sym (apply_settlement_spent m route now b spent) ∙ h) in
      cc
  | inr held ↦
      subst (λ (d : Books). any (is_settled m.ticker route) d.settled ≡ true)
        (ap (λ (x : Option Settlement × Books). x.1)
          (sym (apply_settlement_open m route now b held) ∙ h))
        (rw (text_eq_refl m.ticker) (ground arith))
]

-- Once a settlement of a market on a route has been written, another for the same market and route,
-- whatever it pays and whatever fills and settlements of this or any market have been entered in
-- between, writes nothing, even where a fill has opened the position again.
pub apply_settlement_once :
    (m n : Payout) (route : ExecutionRoute) (now later : ℕ) (b c : Books) (es : List Entry)
    {row : Settlement}
    → apply_settlement m route now b ≡ (some row, c)
    → n.ticker ≡ m.ticker
    → apply_settlement n route later (entered c es) ≡ (none, entered c es)
apply_settlement_once m n route now later b c es {row} written e =
    let on_record =
      entered-records m.ticker route es c (apply_settlement-records m route now b c row written) in
    apply_settlement_spent n route later (entered c es) (rw e (rw on_record refl))
