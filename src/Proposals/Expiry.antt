-- ===== src/Proposals/Expiry.antt =====
-- What expire_stale of proposals.py leaves in the queue, and what it does when it runs again.
use kalshi_copilot.Base.{
  ℕ, ◌+◌, ◌≡◌, refl, ap, inl, inr, ◌≤◌, Bool, true, false, ◌&&◌, Option, none, some, List, [], ◌∷◌,
  map, count_if, length, All, Bool-cases, arith,
}
use kalshi_copilot.Domain.{is_pending}
use kalshi_copilot.Interlocks.{ProposedTrade}
use kalshi_copilot.Store.{AuditLog, Store}
use kalshi_copilot.Proposals.Queue.{pending_count}
use kalshi_copilot.Proposals.Decisions.{elapsed, is_stale, expire_row, log_expired, expire_stale}

-- A row that has expired by some time had not expired before it.
elapsed_earlier :
    (t : Option ℕ) (now earlier : ℕ)
    → earlier ≤ now
    → elapsed t now ≡ false
    → elapsed t earlier ≡ false
elapsed_earlier none now earlier le h = refl
elapsed_earlier (some t) now earlier le h = ground arith

not_stale_after :
    (now earlier : ℕ) (p : ProposedTrade)
    → earlier ≤ now
    → is_stale earlier (expire_row now p) ≡ false
not_stale_after now earlier p le = elim (Bool-cases (is_stale now p)) [
  | inl stale ↦ rw stale refl
  | inr fresh ↦ rw fresh (
      stays (is_pending p.status) (elapsed p.expires_at now) (elapsed p.expires_at earlier) fresh
        (elapsed_earlier p.expires_at now earlier le))
]
  where
    stays : (a b c : Bool) → (a && b) ≡ false → (b ≡ false → c ≡ false) → (a && c) ≡ false
    stays true true c h k = cc
    stays true false c h k = k refl
    stays false b c h k = refl

none_stale :
    (now earlier : ℕ) (ps : List ProposedTrade)
    → earlier ≤ now
    → All (λ (p : ProposedTrade). is_stale earlier p ≡ false) (map (expire_row now) ps)
none_stale now earlier [] le = tt
none_stale now earlier (p ∷ ps) le =
    (not_stale_after now earlier p le, none_stale now earlier ps le)

-- Where no row is stale nothing happens.
module _ (now : ℕ) where
  expire_none :
      (ps : List ProposedTrade)
      → All (λ (p : ProposedTrade). is_stale now p ≡ false) ps
      → map (expire_row now) ps ≡ ps
  expire_none [] h = refl
  expire_none (p ∷ ps) (fresh, h) =
      rw fresh (ap (λ (qs : List ProposedTrade). p ∷ qs) (expire_none ps h))

  log_none :
      (ps : List ProposedTrade) (log : List AuditLog)
      → All (λ (p : ProposedTrade). is_stale now p ≡ false) ps
      → log_expired now ps log ≡ log
  unfolding log_expired
  log_none [] log h = refl
  log_none (p ∷ ps) log (fresh, h) = rw fresh (log_none ps log h)

  count_none :
      (ps : List ProposedTrade)
      → All (λ (p : ProposedTrade). is_stale now p ≡ false) ps
      → count_if (is_stale now) ps ≡ 0
  count_none [] h = refl
  count_none (p ∷ ps) (fresh, h) = rw fresh (count_none ps h)

  -- Each row that expires leaves the queue, and a row of the audit log.
  log_count :
      (ps : List ProposedTrade) (log : List AuditLog)
      → length (log_expired now ps log) ≡ length log + count_if (is_stale now) ps
  unfolding log_expired
  log_count [] log = omega arith
  log_count (p ∷ ps) log = elim (Bool-cases (is_stale now p)) [
    | inl stale ↦ rw stale (omega (arith, log_count ps _))
    | inr fresh ↦ rw fresh (log_count ps log)
  ]

  queue_count :
      (ps : List ProposedTrade)
      → pending_count (map (expire_row now) ps) + count_if (is_stale now) ps ≡ pending_count ps
  queue_count [] = refl
  queue_count (p ∷ ps) = elim (Bool-cases (is_stale now p)) [
    | inl stale ↦
        let pending : is_pending p.status ≡ true = first (is_pending p.status) _ stale in
        rw stale (rw pending (omega (arith, queue_count ps)))
    | inr fresh ↦ rw fresh (ground (arith, queue_count ps))
  ]
    where
      first : (a b : Bool) → (a && b) ≡ true → a ≡ true
      first a b h = ground arith

-- A pass of the expiry takes every proposal out of the queue whose time has come: afterwards no
-- pending row has an expiry at or before the time of the pass, the queue is shorter by the number
-- that it returns, the audit log longer by the same number, and another pass at the same time or an
-- earlier one changes no table and returns zero.
pub expire_stale_settles :
    (now earlier : ℕ) (s : Store)
    → earlier ≤ now
    → let (t, expired) = expire_stale now s in
      All (λ (p : ProposedTrade). is_stale now p ≡ false) t.proposals
      × (pending_count t.proposals + expired ≡ pending_count s.proposals)
      × (length t.audit_log ≡ length s.audit_log + expired)
      × (expire_stale earlier t ≡ (t, 0))
unfolding expire_stale
expire_stale_settles now earlier s le =
    let rows = map (expire_row now) s.proposals in
    let fresh = none_stale now earlier s.proposals le in
    (
      none_stale now now s.proposals (omega arith),
      queue_count now s.proposals,
      log_count now s.proposals s.audit_log,
      rw (expire_none earlier rows fresh) (
          rw (log_none earlier rows (log_expired now s.proposals s.audit_log) fresh)
            (rw (count_none earlier rows fresh) refl)),
    )
