-- ===== src/Proposals/Rows.antt =====
-- What the operations of proposals.py and the approval of executor.py do to the rows of the
-- proposals: each row is kept or decided, and one may be added at the end.
use mathlib.Core.Path.{subst}
use kalshi_copilot.Base.{
  ℕ, ◌≡◌, refl, sym, ap, ◌∙◌, ◌⊎◌, inl, inr, ◌≤◌, Bool, true, false, ◌&&◌, Option, none, some, List,
  [], ◌∷◌, map, find, count_if, All, All-map, Bool-cases, ◌==◌, ==_iff, arith, Option-cases,
}
use kalshi_copilot.Base.Text.{Text}
use kalshi_copilot.Domain.{ProposalStatus, is_pending}
use kalshi_copilot.Interlocks.{Actor, ProposedTrade, MachineConsent}
use kalshi_copilot.Store.{Store}
use kalshi_copilot.Executor.Legs.{Executor}
use kalshi_copilot.Executor.Approval.{is_proposal, set_proposal, locked, approve_and_execute}
use kalshi_copilot.Executor.Cases.{SameKeys, approve_and_execute-Approved}
use kalshi_copilot.Executor.Once.{find-is_proposal}
use kalshi_copilot.Proposals.Decisions.{is_stale, expire_row, expire_stale, rejected_row, reject}

-- A row is as it was, or has been decided from pending and kept its keys.
abbrev pub Kept : ProposedTrade → ProposedTrade → Type 0
Kept p q = (q ≡ p) ⊎ ((is_pending p.status ≡ true) × SameKeys p q × (is_pending q.status ≡ false))

abbrev pub KeptAll : List ProposedTrade → List ProposedTrade → Type 0
KeptAll [] [] = Unit
KeptAll [] (q ∷ qs) = ⊥
KeptAll (p ∷ ps) [] = ⊥
KeptAll (p ∷ ps) (q ∷ qs) = Kept p q × KeptAll ps qs

-- No two rows have the same id.
abbrev pub Unique : List ProposedTrade → Type 0
Unique [] = Unit
Unique (p ∷ ps) = All (λ (q : ProposedTrade). (q.id == p.id) ≡ false) ps × Unique ps

pub KeptAll-refl : (ps : List ProposedTrade) → KeptAll ps ps
KeptAll-refl [] = tt
KeptAll-refl (p ∷ ps) = (inl refl, KeptAll-refl ps)

expire_row-Kept : (now : ℕ) (p : ProposedTrade) → Kept p (expire_row now p)
expire_row-Kept now p = elim (Bool-cases (is_stale now p)) [
  | inl stale ↦ rw stale (inr (pending_of p.status _ stale, (refl, refl, refl, refl, refl), refl))
  | inr fresh ↦ rw fresh (inl refl)
]
  where
    pending_of :
        (status : ProposalStatus) (b : Bool)
        → (is_pending status && b) ≡ true
        → is_pending status ≡ true
    pending_of status b h = ground arith

expired-KeptAll : (now : ℕ) (ps : List ProposedTrade) → KeptAll ps (map (expire_row now) ps)
expired-KeptAll now [] = tt
expired-KeptAll now (p ∷ ps) = (expire_row-Kept now p, expired-KeptAll now ps)

-- A row that is not there is not written.
set_proposal_away :
    (f : ProposedTrade) (ps : List ProposedTrade)
    → All (λ (q : ProposedTrade). is_proposal f.id q ≡ false) ps
    → set_proposal f ps ≡ ps
set_proposal_away f [] h = refl
set_proposal_away f (q ∷ rest) (away, others) =
    rw away (ap (λ (r : List ProposedTrade). q ∷ r) (set_proposal_away f rest others))

set_proposal-KeptAll :
    (f : ProposedTrade) (ps : List ProposedTrade)
    → Unique ps
    → ((p : ProposedTrade) → find (is_proposal f.id) ps ≡ some p → Kept p f)
    → KeptAll ps (set_proposal f ps)
set_proposal-KeptAll f [] u h = tt
set_proposal-KeptAll f (q ∷ rest) (fresh, u) h = elim (Bool-cases (is_proposal f.id q)) [
  | inl here ↦
      let own : q.id ≡ f.id = (==_iff q.id f.id).0 here in
      let others =
        All-map (λ (r : ProposedTrade) (e : (r.id == q.id) ≡ false). away r own e) rest fresh in
      rw here (h q (rw here refl), rw (set_proposal_away f rest others) (KeptAll-refl rest))
  | inr later ↦ rw later (inl refl, set_proposal-KeptAll f rest u (λ p e. h p (rw later e)))
]
  where
    away : (r : ProposedTrade) → q.id ≡ f.id → (r.id == q.id) ≡ false → is_proposal f.id r ≡ false
    away r e h = rw (sym e) h

-- The row that is found under the id of a locked row is that row.
locked_row :
    (s : Store) (proposal : ProposedTrade) {p : ProposedTrade}
    → find (is_proposal (locked s proposal).id) s.proposals ≡ some p
    → p ≡ locked s proposal
locked_row s proposal {p} h = elim (Option-cases (find (is_proposal proposal.id) s.proposals)) [
  | inl absent ↦
      let own : proposal ≡ locked s proposal = rw absent refl in
      none_some
        (sym absent ∙ ap (λ (q : ProposedTrade). find (is_proposal q.id) s.proposals) own ∙ h)
  | inr (q, found) ↦
      let own : q ≡ locked s proposal = rw found refl in
      let same_id = find-is_proposal proposal.id s.proposals found in
      some_inj (
        sym h
        ∙ ap (λ (r : ProposedTrade). find (is_proposal r.id) s.proposals) (sym own)
        ∙ ap (λ (id : ℕ). find (is_proposal id) s.proposals) same_id
        ∙ found)
      ∙ own
]
  where
    none_some : none ≡ some p → p ≡ locked s proposal
    none_some e = cc

    some_inj : {a b : ProposedTrade} → ◌≡◌ {A = Option ProposedTrade} (some a) (some b) → a ≡ b
    some_inj e = cc

pub reject-KeptAll :
    (s : Store) (proposal : ProposedTrade) (reason : Option Text) (actor : Actor) (now : ℕ)
    → Unique s.proposals
    → KeptAll s.proposals (reject s proposal reason actor now).0.proposals
unfolding reject
reject-KeptAll s proposal reason actor now u =
    elim (Bool-cases (is_pending (locked s proposal).status)) [
      | inl pending ↦ rw pending (
          set_proposal-KeptAll (rejected_row reason now (locked s proposal)) s.proposals u
            (λ p found.
              let same = locked_row s proposal found in
              subst (λ q. Kept q (rejected_row reason now (locked s proposal))) (sym same)
                (inr (pending, (refl, refl, refl, refl, refl), refl))))
      | inr decided ↦ rw decided (KeptAll-refl s.proposals)
    ]

pub expire_stale-KeptAll :
    (now : ℕ) (s : Store) → KeptAll s.proposals (expire_stale now s).0.proposals
unfolding expire_stale
expire_stale-KeptAll now s = expired-KeptAll now s.proposals

pub approve_and_execute-KeptAll :
    (x : Executor) (s : Store) (proposal : ProposedTrade) (confirmed : Bool) (phrase : Option Text)
    (consent : Option MachineConsent) (actor : Actor) (kill_switch : Bool) (now : ℕ)
    → Unique s.proposals
    → KeptAll s.proposals
        (approve_and_execute x s proposal confirmed phrase consent actor kill_switch
          now).0.proposals
approve_and_execute-KeptAll x s proposal confirmed phrase consent actor kill_switch now u =
    elim (approve_and_execute-Approved x s proposal confirmed phrase consent actor kill_switch
      now) [
        | inl unchanged ↦
            subst (λ (t : Store). KeptAll s.proposals t.proposals) (sym unchanged)
              (KeptAll-refl s.proposals)
        | inr (pending, (f, keys, decided, rows)) ↦
            subst (λ (qs : List ProposedTrade). KeptAll s.proposals qs) (sym rows)
              (set_proposal-KeptAll f s.proposals u (λ p found.
                let same =
                  locked_row s proposal
                    (subst (λ (id : ℕ). find (is_proposal id) s.proposals ≡ some p) keys.0 found) in
                subst (λ q. Kept q f) (sym same) (inr (ap is_pending pending, keys, decided))))
      ]

-- What the rows keep of each other.
pub KeptAll-count :
    (ps qs : List ProposedTrade)
    → KeptAll ps qs
    → count_if (λ (p : ProposedTrade). is_pending p.status) qs
      ≤ count_if (λ (p : ProposedTrade). is_pending p.status) ps
KeptAll-count [] [] h = omega arith
KeptAll-count [] (q ∷ qs) h = elim h [ ]
KeptAll-count (p ∷ ps) [] h = elim h [ ]
KeptAll-count (p ∷ ps) (q ∷ qs) (inl same, rest) =
    let ih = KeptAll-count ps qs rest in rw same (ground (arith, ih))
KeptAll-count (p ∷ ps) (q ∷ qs) (inr (pending, keys, decided), rest) =
    let ih = KeptAll-count ps qs rest in rw (pending, decided) (omega (arith, ih))

-- A decided row stays what it is.
pub KeptAll-decided :
    (id : ℕ) (ps qs : List ProposedTrade) {r : ProposedTrade}
    → KeptAll ps qs
    → find (is_proposal id) ps ≡ some r
    → is_pending r.status ≡ false
    → find (is_proposal id) qs ≡ some r
KeptAll-decided id [] [] h found decided = found
KeptAll-decided id [] (q ∷ qs) h found decided = elim h [ ]
KeptAll-decided id (p ∷ ps) [] h found decided = elim h [ ]
KeptAll-decided id (p ∷ ps) (q ∷ qs) (inl same, rest) found decided =
    elim (Bool-cases (is_proposal id p)) [
      | inl here ↦ rw same (rw here (rw here at found))
      | inr later ↦ rw same (rw later (KeptAll-decided id ps qs rest (rw later at found) decided))
    ]
KeptAll-decided id (p ∷ ps) (q ∷ qs) {r} (inr (pending, keys, closed), rest) found decided =
    elim (Bool-cases (is_proposal id p)) [
      | inl here ↦
          let own : p ≡ r = ground arith in
          pending_twice
            (sym pending ∙ ap (λ (t : ProposedTrade). is_pending t.status) own ∙ decided)
      | inr later ↦
          let away : is_proposal id q ≡ false = rw keys.0 later in
          rw away (KeptAll-decided id ps qs rest (rw later at found) decided)
    ]
  where
    pending_twice : true ≡ false → find (is_proposal id) (q ∷ qs) ≡ some r
    pending_twice e = cc
