-- ===== src/Proposals/Queue.antt =====
-- The queue of proposals.py through any sequence of its operations and of approvals.
use mathlib.Core.Path.{subst}
use kalshi_copilot.Base.{
  ℕ, ◌≡◌, refl, sym, ap, ◌⊎◌, inl, inr, ◌≤◌, Bool, true, false, not, ◌&&◌, ◌||◌, none, some, List,
  [], ◌∷◌, count_if, All, ◌==◌,
}
use kalshi_copilot.Base.Text.{Text, text_eq}
use kalshi_copilot.Domain.{is_pending}
use kalshi_copilot.Interlocks.{ProposedTrade}
use kalshi_copilot.Store.{Store}
use kalshi_copilot.Proposals.{Desk, is_manual}
use kalshi_copilot.Proposals.Rows.{
  Kept, KeptAll, Unique, reject-KeptAll, expire_stale-KeptAll, approve_and_execute-KeptAll,
}
use kalshi_copilot.Proposals.Lifecycle.{
  Step, created, set_created, swept, turned_down, approval, key_of, Adds, created-Adds,
  set_created-Adds,
}

abbrev pub pending_count : List ProposedTrade → ℕ
pending_count = count_if (λ (p : ProposedTrade). is_pending p.status)

abbrev pub names_event : ProposedTrade → Text → Bool
names_event p key = elim p.event_ticker [ none ↦ false | some event ↦ text_eq event key ]

-- A later row of a detector repeats an earlier one: both are pending, of one source, and what the
-- later one is about, its event or, where it has none, its market, is the event or the first market of
-- the earlier one.
abbrev pub repeats : ProposedTrade → ProposedTrade → Bool
repeats p q =
    is_pending p.status
    && (is_pending q.status
        && (not (is_manual q.source)
            && (text_eq q.source p.source
                && (names_event p (key_of q) || text_eq (key_of q) p.ticker))))

abbrev pub NoRepeats : List ProposedTrade → Type 0
NoRepeats [] = Unit
NoRepeats (p ∷ ps) = All (λ (q : ProposedTrade). repeats p q ≡ false) ps × NoRepeats ps

-- The ids differ, the queue is within its bound, and no detector repeats itself in it.
pub record IsOrderly (d : Desk) (ps : List ProposedTrade) : Type 0 where
  pub unique : Unique ps
  pub bounded : pending_count ps ≤ d.config.risk.max_pending_proposals
  pub no_repeats : NoRepeats ps

pub step-Change :
    (d : Desk) (s t : Store)
    → Unique s.proposals
    → Step d s t
    → KeptAll s.proposals t.proposals ⊎ Adds d s t
step-Change d s t u (created r now h) = inr (created-Adds d s t r now h)
step-Change d s t u (set_created r now h) = inr (set_created-Adds d s t r now h)
step-Change d s _ u (swept _ now) = inl (expire_stale-KeptAll now s)
step-Change d s _ u (turned_down _ p reason actor now) = inl (reject-KeptAll s p reason actor now u)
step-Change d s _ u (approval x _ p confirmed phrase consent actor kill_switch now) =
    inl (approve_and_execute-KeptAll x s p confirmed phrase consent actor kill_switch now u)

KeptAll-fresh :
    (i : ℕ) (ps qs : List ProposedTrade)
    → KeptAll ps qs
    → All (λ (q : ProposedTrade). (q.id == i) ≡ false) ps
    → All (λ (q : ProposedTrade). (q.id == i) ≡ false) qs
KeptAll-fresh i [] [] h a = tt
KeptAll-fresh i [] (q ∷ qs) h a = elim h [ ]
KeptAll-fresh i (p ∷ ps) [] h a = elim h [ ]
KeptAll-fresh i (p ∷ ps) (q ∷ qs) (inl same, rest) (a, others) =
    (rw same a, KeptAll-fresh i ps qs rest others)
KeptAll-fresh i (p ∷ ps) (q ∷ qs) (inr (pending, keys, decided), rest) (a, others) =
    (rw keys.0 a, KeptAll-fresh i ps qs rest others)

Kept-id : (p q : ProposedTrade) → Kept p q → q.id ≡ p.id
Kept-id p q (inl same) = ap (λ (r : ProposedTrade). r.id) same
Kept-id p q (inr (pending, keys, decided)) = keys.0

pub KeptAll-Unique : (ps qs : List ProposedTrade) → KeptAll ps qs → Unique ps → Unique qs
KeptAll-Unique [] [] h u = tt
KeptAll-Unique [] (q ∷ qs) h u = elim h [ ]
KeptAll-Unique (p ∷ ps) [] h u = elim h [ ]
KeptAll-Unique (p ∷ ps) (q ∷ qs) (kept, rest) (fresh, u) = (
  subst (λ (i : ℕ). All (λ (r : ProposedTrade). (r.id == i) ≡ false) qs) (sym (Kept-id p q kept))
      (KeptAll-fresh p.id ps qs rest fresh),
  KeptAll-Unique ps qs rest u,
)

-- A decided row neither repeats another nor is repeated.
Kept-repeats :
    (p p' q q' : ProposedTrade)
    → Kept p p'
    → Kept q q'
    → repeats p q ≡ false
    → repeats p' q' ≡ false
Kept-repeats p p' q q' (inr (a, b, decided)) kept h = rw decided refl
Kept-repeats p p' q q' (inl same) (inl same') h = rw same (rw same' h)
Kept-repeats p p' q q' (inl same) (inr (a, b, decided)) h =
    rw decided (and_false (is_pending p'.status))
  where
    and_false : (b : Bool) → (b && false) ≡ false
    and_false true = refl
    and_false false = refl

KeptAll-repeats :
    (p p' : ProposedTrade) (qs rs : List ProposedTrade)
    → Kept p p'
    → KeptAll qs rs
    → All (λ (q : ProposedTrade). repeats p q ≡ false) qs
    → All (λ (q : ProposedTrade). repeats p' q ≡ false) rs
KeptAll-repeats p p' [] [] kept h a = tt
KeptAll-repeats p p' [] (r ∷ rs) kept h a = elim h [ ]
KeptAll-repeats p p' (q ∷ qs) [] kept h a = elim h [ ]
KeptAll-repeats p p' (q ∷ qs) (r ∷ rs) kept (same, rest) (a, others) =
    (Kept-repeats p p' q r kept same a, KeptAll-repeats p p' qs rs kept rest others)

pub KeptAll-NoRepeats : (ps qs : List ProposedTrade) → KeptAll ps qs → NoRepeats ps → NoRepeats qs
KeptAll-NoRepeats [] [] h n = tt
KeptAll-NoRepeats [] (q ∷ qs) h n = elim h [ ]
KeptAll-NoRepeats (p ∷ ps) [] h n = elim h [ ]
KeptAll-NoRepeats (p ∷ ps) (q ∷ qs) (kept, rest) (a, n) =
    (KeptAll-repeats p q ps qs kept rest a, KeptAll-NoRepeats ps qs rest n)
