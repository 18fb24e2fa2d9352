-- ===== src/Ingest/Waiting.antt =====
-- resync_needed of StreamProcessor against the books that are stale: the set, and what a snapshot and
-- a delta do to one book.
use kalshi_copilot.Base.{
  ℕ, ◌≡◌, refl, sym, ◌∙◌, inl, inr, Bool, true, false, Option, none, some, List, [], ◌∷◌,
  Bool-cases, Option-cases, arith,
}
use kalshi_copilot.Base.Int.{ℤ}
use kalshi_copilot.Base.Text.{Text, text_eq, text_eq_sound, text_eq_refl}
use kalshi_copilot.Base.Dict.{look_up, assign, look_up-assign, look_up-on_values}
use kalshi_copilot.Base.Outcome.{Outcome, ok, raise, Outcome-cases}
use kalshi_copilot.Book.{
  WireLevel, DeltaMsg, StaleReason, OrderBook, BookError, parse_levels, is_replay, apply_parsed,
  apply_snapshot, apply_delta, mark_stale,
}
use kalshi_copilot.Book.Changes.{apply_delta_refused, apply_delta-fresh}
use kalshi_copilot.Domain.{Side, yes_side, no_side}
use kalshi_copilot.Ingest.Streams.{StreamProcessor, is_in, add_to, discard, add_each, on_resync}
use kalshi_copilot.Ingest.Effects.{BookTable, text_eq-IsEquality}

-- Every book that is stale waits for a snapshot.
abbrev pub AreCovered : BookTable → List Text → Type 0
AreCovered books waiting =
    (t : Text) (b : OrderBook)
    → look_up text_eq t books ≡ some b
    → b.stale ≡ true
    → is_in t waiting ≡ true

abbrev pub IsCovered : StreamProcessor → Type 0
IsCovered p = AreCovered p.books p.resync_needed

pub is_in-add_to : (t : Text) (set : List Text) → is_in t (add_to t set) ≡ true
is_in-add_to t set = elim (Bool-cases (is_in t set)) [
  | inl there ↦ rw there there
  | inr new ↦ rw (new, text_eq_refl t) refl
]

pub is_in-add_to_other :
    (q t : Text) (set : List Text) → is_in q set ≡ true → is_in q (add_to t set) ≡ true
is_in-add_to_other q t set h = elim (Bool-cases (is_in t set)) [
  | inl there ↦ rw there h
  | inr new ↦ rw new (ground arith)
]

is_in-add_each :
    (q : Text) (books : BookTable) (set : List Text)
    → is_in q set ≡ true
    → is_in q (add_each books set) ≡ true
is_in-add_each q [] set h = h
is_in-add_each q ((t, b) ∷ rest) set h =
    is_in-add_each q rest (add_to t set) (is_in-add_to_other q t set h)

look_up-add_each :
    (q : Text) (books : BookTable) (set : List Text) {b : OrderBook}
    → look_up text_eq q books ≡ some b
    → is_in q (add_each books set) ≡ true
look_up-add_each q [] set h = cc
look_up-add_each q ((t, a) ∷ rest) set h = elim (Bool-cases (text_eq q t)) [
  | inl here ↦
      rw (text_eq_sound q t here) (is_in-add_each t rest (add_to t set) (is_in-add_to t set))
  | inr past ↦ look_up-add_each q rest (add_to t set) (rw past at h)
]

pub is_in-discard :
    (q t : Text) (set : List Text)
    → text_eq q t ≡ false
    → is_in q set ≡ true
    → is_in q (discard t set) ≡ true
is_in-discard q t [] apart h = h
is_in-discard q t (u ∷ set) apart h = elim (Bool-cases (text_eq t u)) [
  | inl here ↦
      let other : text_eq q u ≡ false = rw (text_eq_sound t u here) at apart in
      rw here (is_in-discard q t set apart (rw other at h))
  | inr past ↦ elim (Bool-cases (text_eq q u)) [
    | inl found ↦ rw (past, found) refl
    | inr other ↦ rw (past, other) (is_in-discard q t set apart (rw other at h))
  ]
]

-- A book is put in the place of another.
pub assigned-AreCovered :
    (t : Text) (b : OrderBook) (books : BookTable) (before after : List Text)
    → AreCovered books before
    → ((q : Text) → text_eq q t ≡ false → is_in q before ≡ true → is_in q after ≡ true)
    → (b.stale ≡ true → is_in t after ≡ true)
    → AreCovered (assign text_eq t b books) after
assigned-AreCovered t b books before after h others own q a there stale =
    let entry = sym (look_up-assign text_eq text_eq-IsEquality q t b books) ∙ there in
    elim (Bool-cases (text_eq q t)) [
      | inl here ↦
          let same : some b ≡ some a = rw here at entry in
          rw (text_eq_sound q t here) (own (ap_stale b a same ∙ stale))
      | inr past ↦ others q past (h q a (rw past at entry) stale)
    ]
  where
    ap_stale : (b a : OrderBook) → ◌≡◌ {A = Option OrderBook} (some b) (some a) → b.stale ≡ a.stale
    ap_stale b a e = cc

pub on_resync-IsCovered : (p : StreamProcessor) (r : StaleReason) → IsCovered (on_resync p r)
unfolding on_resync
on_resync-IsCovered p r t b h stale =
    let entry = look_up-on_values text_eq (λ a. mark_stale a r) t p.books in
    elim (Option-cases (look_up text_eq t p.books)) [
      | inl absent ↦ let clash : none ≡ some b = sym (rw absent at entry) ∙ h in cc
      | inr (a, there) ↦ look_up-add_each t p.books p.resync_needed there
    ]

pub apply_snapshot-fresh :
    (b : OrderBook) (y n : List WireLevel) (seq : Option ℕ)
    → (apply_snapshot b y n seq).1 ≡ ok tt
    → (apply_snapshot b y n seq).0.stale ≡ false
unfolding apply_snapshot
apply_snapshot-fresh b y n seq h = elim (Outcome-cases (parse_levels y)) [
  | inr (e, bad) ↦
      let clash : ◌≡◌ {A = Outcome BookError (Unit {0})} (raise e) (ok tt) =
        rw (bad, apply_snapshot) at h in
      cc
  | inl (d, good) ↦ elim (Outcome-cases (parse_levels n)) [
    | inr (e, bad) ↦
        let clash : ◌≡◌ {A = Outcome BookError (Unit {0})} (raise e) (ok tt) =
          rw (good, bad, apply_snapshot) at h in
        cc
    | inl (d', good') ↦ rw (good, good', apply_snapshot) refl
  ]
]

apply_parsed-stays_fresh :
    (b : OrderBook) (p c : Option ℤ) (s : Option Side) (seq : Option ℕ)
    → b.stale ≡ false
    → (apply_parsed b p c s seq).1 ≡ ok true
    → (apply_parsed b p c s seq).0.stale ≡ false
unfolding apply_parsed
apply_parsed-stays_fresh b none c s seq fresh h = cc
apply_parsed-stays_fresh b (some p) none s seq fresh h = cc
apply_parsed-stays_fresh b (some p) (some c) none seq fresh h = cc
apply_parsed-stays_fresh b (some p) (some c) (some yes_side) none fresh h = fresh
apply_parsed-stays_fresh b (some p) (some c) (some yes_side) (some n) fresh h = fresh
apply_parsed-stays_fresh b (some p) (some c) (some no_side) none fresh h = fresh
apply_parsed-stays_fresh b (some p) (some c) (some no_side) (some n) fresh h = fresh

pub apply_delta-stays_fresh :
    (b : OrderBook) (m : DeltaMsg) (seq : Option ℕ)
    → (apply_delta b m seq).1 ≡ ok true
    → (apply_delta b m seq).0.stale ≡ false
apply_delta-stays_fresh b m seq h = elim (Bool-cases b.stale) [
  | inl stale ↦
      let clash : ◌≡◌ {A = Outcome BookError Bool} (ok false) (ok true) =
        rw (apply_delta_refused b m seq (inl stale)) at h in
      cc
  | inr fresh ↦ elim (Bool-cases (is_replay seq b.seq)) [
    | inl replay ↦
        let clash : ◌≡◌ {A = Outcome BookError Bool} (ok false) (ok true) =
          rw (apply_delta_refused b m seq (inr replay)) at h in
        cc
    | inr new ↦ rw (apply_delta-fresh b m seq fresh new) (
        apply_parsed-stays_fresh b m.price m.delta m.side seq fresh
          (rw (apply_delta-fresh b m seq fresh new) at h))
  ]
]
