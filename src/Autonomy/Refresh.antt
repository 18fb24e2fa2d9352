-- ===== src/Autonomy/Refresh.antt =====
-- The evidence that the worker keeps, its refresh, and the clearing of the latch, of autonomy.py.
-- What the report card and the coverage answer is an argument, an exception of either included.
use kalshi_copilot.Base.{ℕ, zero, suc, Bool, Option, none, some, List, if◌then◌else◌}
use kalshi_copilot.Base.Outcome.{Outcome, ok, raise, ◌>>=◌}
use kalshi_copilot.Autonomy.{DetectorReport, Evidence, Latch}

-- An exception of the database, or of Redis.
pub data BackendError : Type 0 where
  unavailable : BackendError

-- `evidence.min_trades or report_card_min_trades`, the two settings of the floor on a sample.
pub record Floors : Type 0 where
  pub evidence_min_trades : ℕ
  pub report_card_min_trades : ℕ

abbrev pub min_trades_of : Floors → ℕ
min_trades_of f = elim f.evidence_min_trades [ zero ↦ f.report_card_min_trades | suc n ↦ suc n ]

-- `refresh_evidence`: the new snapshot, from the reports for a floor and the coverage.
unfoldable pub refresh_evidence :
    Floors
    → (ℕ → Outcome BackendError (List DetectorReport))
    → Outcome BackendError Bool
    → ℕ
    → Outcome BackendError Evidence
refresh_evidence floors detector_reports coverage_usable now =
    detector_reports (min_trades_of floors) >>= λ reports. coverage_usable >>= λ usable.
    ok (record {
      computed_at = now;
      min_trades = min_trades_of floors;
      coverage_usable = usable;
      reports = reports;
    })

-- `install_evidence`, in the cache of the process; a failure leaves the snapshot in place to age out.
abbrev pub installed :
    Option Evidence → Outcome BackendError Evidence → Option Evidence × Option Evidence
installed cached (ok evidence) = (some evidence, some evidence)
installed cached (raise e) = (cached, none)

-- `refresh_once`: the cache after it, and what it returns.
unfoldable pub refresh_once :
    Option Evidence
    → Floors
    → (ℕ → Outcome BackendError (List DetectorReport))
    → Outcome BackendError Bool
    → ℕ
    → Option Evidence × Option Evidence
refresh_once cached floors detector_reports coverage_usable now =
    installed cached (refresh_evidence floors detector_reports coverage_usable now)

-- `rearm`, which raises where Redis cannot be reached.
unfoldable pub rearm : Latch → Latch × Outcome BackendError (Unit {0})
rearm l = if l.reachable then (record l { reason = none }, ok tt) else (l, raise unavailable)
