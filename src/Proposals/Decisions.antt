-- ===== src/Proposals/Decisions.antt =====
-- expire_stale and reject of proposals.py.
use kalshi_copilot.Base.{
  ℕ, Bool, false, ◌&&◌, Option, none, some, List, [], ◌∷◌, map, if◌then◌else◌, count_if, leb,
  is_nil,
}
use kalshi_copilot.Base.Text.{Text}
use kalshi_copilot.Base.Outcome.{Outcome, ok, raise}
use kalshi_copilot.Domain.{ProposalStatus, is_pending}
use kalshi_copilot.Interlocks.{
  Actor, system_actor, DecisionReason, ttl_elapsed, rejected_by_operator, rejected_for,
  ProposedTrade,
}
use kalshi_copilot.Store.{AuditLog, proposal_expired, proposal_rejected, Store}
use kalshi_copilot.Executor.Legs.{row}
use kalshi_copilot.Executor.Approval.{locked, saved}
use kalshi_copilot.Proposals.{ProposalError, not_pending}

-- `expires_at IS NOT NULL AND expires_at <= now`
abbrev pub elapsed : Option ℕ → ℕ → Bool
elapsed none now = false
elapsed (some t) now = leb t now

abbrev pub is_stale : ℕ → ProposedTrade → Bool
is_stale now p = is_pending p.status && elapsed p.expires_at now

abbrev pub expired_row : ℕ → ProposedTrade → ProposedTrade
expired_row now p = record p {
  status = ProposalStatus.expired;
  decided_at = some now;
  decision_reason = some ttl_elapsed;
}

-- The conditional UPDATE on one row.
abbrev pub expire_row : ℕ → ProposedTrade → ProposedTrade
expire_row now p = if is_stale now p then expired_row now p else p

-- A row of the audit log for each row that the UPDATE returned.
unfoldable pub log_expired : ℕ → List ProposedTrade → List AuditLog → List AuditLog
log_expired now [] log = log
log_expired now (p ∷ rest) log =
    log_expired now rest
      (if is_stale now p then row now p.ticker system_actor (proposal_expired p.id) ∷ log else log)

-- The number of rows that have expired stands beside the tables.
unfoldable pub expire_stale : ℕ → Store → Store × ℕ
expire_stale now s = (
  record s {
    proposals = map (expire_row now) s.proposals;
    audit_log = log_expired now s.proposals s.audit_log;
  },
  count_if (is_stale now) s.proposals,
)

-- `reason or "rejected by operator"`
abbrev pub reason_or_default : Option Text → DecisionReason
reason_or_default none = rejected_by_operator
reason_or_default (some text) = if is_nil text then rejected_by_operator else rejected_for text

abbrev pub rejected_row : Option Text → ℕ → ProposedTrade → ProposedTrade
rejected_row reason now p = record p {
  status = ProposalStatus.rejected;
  decided_at = some now;
  decision_reason = some (reason_or_default reason);
}

abbrev pub reject_row :
    Store → ProposedTrade → Option Text → Actor → ℕ → Store × Outcome ProposalError ProposedTrade
reject_row s p reason actor now =
    if is_pending p.status
    then (
      record (saved (rejected_row reason now p) s) {
        audit_log = row now p.ticker actor (proposal_rejected p.id) ∷ s.audit_log;
      },
      ok (rejected_row reason now p),
    )
    else (s, raise not_pending)

unfoldable pub reject :
    Store → ProposedTrade → Option Text → Actor → ℕ → Store × Outcome ProposalError ProposedTrade
reject s proposal reason actor now = reject_row s (locked s proposal) reason actor now
