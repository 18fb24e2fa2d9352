-- ===== src/Ledger/Net.antt =====
-- What positions.py keeps for a market on a route through any sequence of fills.
use mathlib.Core.Path.{subst}
use kalshi_copilot.Base.{
  ◌≡◌, refl, sym, ◌∙◌, ap, inl, inr, Bool, true, false, ◌&&◌, Option, List, [], ◌∷◌, arith,
  if◌then◌else◌, find, or_else, upsert, Bool-cases, find-upsert, find-upsert_other,
}
use kalshi_copilot.Base.Int.{ℤ, pos, ◌+ℤ◌, int_laws, +ℤ_assoc}
use kalshi_copilot.Base.Text.{Text, text_eq, text_eq_sound, text_eq_refl}
use kalshi_copilot.Base.Outcome.{Outcome, ok, raise, ◌>>=◌, >>=-eq-ok}
use kalshi_copilot.Domain.{ValueError}
use kalshi_copilot.Direction.{signed_contracts, to_yes_price}
use kalshi_copilot.Positions.{realized_from_fill}
use kalshi_copilot.Positions.Conservation.{realized_from_fill-Balanced}
use kalshi_copilot.Interlocks.{ExecutionRoute, same_route}
use kalshi_copilot.Ledger.{
  Position, Fill, Books, is_position, new_position, position_of, folded, apply_fill,
}

-- Fills on routes, one after the other.
abbrev pub apply_fills : List (Fill × ExecutionRoute) → Books → Outcome ValueError Books
apply_fills [] b = ok b
apply_fills ((f, r) ∷ rest) b = apply_fill f r b >>= λ done. apply_fills rest done.1

-- Whether a fill is of this market on this route.
abbrev pub concerns : Text → ExecutionRoute → Fill × ExecutionRoute → Bool
concerns ticker route e = text_eq e.0.ticker ticker && same_route e.1 route

-- The signed contracts of the fills of a market on a route, summed.
abbrev pub net_of_fills :
    Text → ExecutionRoute → List (Fill × ExecutionRoute) → Outcome ValueError ℤ
net_of_fills ticker route [] = ok (pos 0)
net_of_fills ticker route (e ∷ rest) = net_of_fills ticker route rest >>= λ net.
    if concerns ticker route e
    then (signed_contracts e.0.side e.0.action e.0.contracts >>= λ delta. ok (delta +ℤ net))
    else ok net

pub own_row : (t : Text) (r : ExecutionRoute) → is_position t r (new_position t r) ≡ true
own_row t r = rw (text_eq_refl t) (ground arith)

-- Two keys that are not the same share no row.
pub apart :
    (t u : Text) (r q : ExecutionRoute) (p : Position)
    → (text_eq t u && same_route r q) ≡ false
    → is_position t r p ≡ true
    → is_position u q p ≡ false
apart t u r q p h k =
    ground (arith, text_eq_sound t p.ticker, text_eq_sound u p.ticker, text_eq_refl p.ticker)

module _ (f : Fill) (q : ExecutionRoute) (b : Books) where
  -- What a fill that is accepted does to the positions.
  apply_fill_positions :
      {f' : Fill} {b' : Books}
      → apply_fill f q b ≡ ok (f', b')
      → (d : ℤ) × (signed_contracts f.side f.action f.contracts ≡ ok d)
        × (b'.positions
            ≡ upsert
                (is_position f.ticker q)
                (folded
                  (realized_from_fill
                    (position_of f.ticker q b).net_contracts
                    (position_of f.ticker q b).avg_price
                    d
                    (to_yes_price f.side f.price))
                  f.fee_cents)
                (new_position f.ticker q)
                b.positions)
  unfolding apply_fill
  apply_fill_positions h =
      let (d, signed, rest) = >>=-eq-ok (signed_contracts f.side f.action f.contracts) _ h in
      (d, signed, sym (ap positions_of rest))
    where
      positions_of : Outcome ValueError (Fill × Books) → List Position
      positions_of (ok (g, c)) = c.positions
      positions_of (raise e) = []

  -- The position of the fill's own market moves by the signed size of the fill.
  own_position :
      {f' : Fill} {b' : Books}
      → apply_fill f q b ≡ ok (f', b')
      → (d : ℤ) × (signed_contracts f.side f.action f.contracts ≡ ok d)
        × ((position_of f.ticker q b').net_contracts
            ≡ (position_of f.ticker q b).net_contracts +ℤ d)
  own_position {f'} {b'} h =
      let (d, signed, e) = apply_fill_positions h in
      let p = position_of f.ticker q b in
      let r = realized_from_fill p.net_contracts p.avg_price d (to_yes_price f.side f.price) in
      let found =
        find-upsert (is_position f.ticker q) (folded r f.fee_cents) (new_position f.ticker q)
          (λ x k. k) (own_row f.ticker q) b.positions in
      (
        d,
        signed,
        ap
              (λ (ps : List Position).
                (or_else (find (is_position f.ticker q) ps)
                  (new_position f.ticker q)).net_contracts)
              e
            ∙ ap (λ (o : Option Position). (or_else o (new_position f.ticker q)).net_contracts)
                found
            ∙ (realized_from_fill-Balanced p.net_contracts p.avg_price d
                (to_yes_price f.side f.price)).0,
      )

  -- Every other market, and the same market on another route, keeps its position.
  other_position :
      (t : Text) (r : ExecutionRoute) {f' : Fill} {b' : Books}
      → apply_fill f q b ≡ ok (f', b')
      → (text_eq f.ticker t && same_route q r) ≡ false
      → position_of t r b' ≡ position_of t r b
  other_position t r {f'} {b'} h k =
      let (d, signed, e) = apply_fill_positions h in
      let p = position_of f.ticker q b in
      let r' = realized_from_fill p.net_contracts p.avg_price d (to_yes_price f.side f.price) in
      ap (λ (ps : List Position). or_else (find (is_position t r) ps) (new_position t r)) e
      ∙ ap (λ (o : Option Position). or_else o (new_position t r))
          (find-upsert_other (is_position f.ticker q) (folded r' f.fee_cents)
            (new_position f.ticker q) (is_position t r) (λ x own. apart f.ticker t q r x k own)
            (λ x own. apart f.ticker t q r x k own) (own_row f.ticker q) b.positions)

  -- One fill on the position of any market and route.
  one_fill :
      (t : Text) (r : ExecutionRoute) {f' : Fill} {b' : Books}
      → apply_fill f q b ≡ ok (f', b')
      → (d : ℤ) × (signed_contracts f.side f.action f.contracts ≡ ok d)
        × ((position_of t r b').net_contracts ≡ (
            if concerns t r (f, q)
            then (position_of t r b).net_contracts +ℤ d
            else (position_of t r b).net_contracts))
  one_fill t r {f'} {b'} h =
      let (d, signed, own) = own_position h in
      elim (Bool-cases (text_eq f.ticker t && same_route q r)) [
        | inl same ↦
            let ticker : f.ticker ≡ t = text_eq_sound f.ticker t (ground arith) in
            let route : q ≡ r = ground arith in
            (
              d,
              signed,
              rw same (
                  subst
                    (λ (u : Text).
                      (position_of u r b').net_contracts ≡ (position_of u r b).net_contracts +ℤ d)
                    ticker
                    (subst
                      (λ (v : ExecutionRoute).
                        (position_of f.ticker v b').net_contracts
                        ≡ (position_of f.ticker v b).net_contracts +ℤ d)
                      route own)),
            )
        | inr differs ↦ (
          d,
          signed,
          rw differs (ap (λ (p : Position). p.net_contracts) (other_position t r h differs)),
        )
      ]

net_step :
    (c : Bool) (m n d : ℤ) (s : Outcome ValueError ℤ)
    → s ≡ ok d
    → (k : ℤ) × ((if c then (s >>= λ e. ok (e +ℤ n)) else ok n) ≡ ok k)
      × ((if c then m +ℤ d else m) +ℤ n ≡ m +ℤ k)
net_step true m n d s h = (d +ℤ n, rw h refl, +ℤ_assoc m d n)
net_step false m n d s h = (n, refl, refl)

-- Through any sequence of fills on any routes, the contracts held in a market on a route are what
-- was held before plus the signed sum of exactly the fills of that market on that route.
pub apply_fills-net_of_fills :
    (t : Text) (r : ExecutionRoute) (es : List (Fill × ExecutionRoute)) (b : Books) {b' : Books}
    → apply_fills es b ≡ ok b'
    → (n : ℤ) × (net_of_fills t r es ≡ ok n)
      × ((position_of t r b').net_contracts ≡ (position_of t r b).net_contracts +ℤ n)
apply_fills-net_of_fills t r [] b {b'} h =
    let same : b ≡ b' = cc in (pos 0, refl, rw same (omega int_laws))
apply_fills-net_of_fills t r ((f, q) ∷ rest) b {b'} h =
    let (done, first, then_rest) = >>=-eq-ok (apply_fill f q b) _ h in
    let (n, summed, total) = apply_fills-net_of_fills t r rest done.1 then_rest in
    let (d, signed, one) = one_fill f q b t r first in
    let (k, all, joined) =
      net_step (concerns t r (f, q)) (position_of t r b).net_contracts n d
        (signed_contracts f.side f.action f.contracts) signed in
    (k, rw summed all, total ∙ ap (λ (m : ℤ). m +ℤ n) one ∙ joined)
