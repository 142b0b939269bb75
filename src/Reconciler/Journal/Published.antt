-- ===== src/Reconciler/Journal/Published.antt =====
-- An effect that the journal holds as APPLIED was published, step by step.
use vuoro.Prelude.{
  both_true, String, true, Option, some, ◌≡◌, sym, ap, ◌∙◌, ◌⊎◌, inl, inr, is_some, Option-cases,
  nat_eq, ◌&&◌, ◌||◌, arith,
}
use vuoro.Prelude.Eq.{◌==◌, string_keys, option_keys}
use vuoro.Dict.{get}
use vuoro.Reconciler.Journal.{
  Binding, Document, local_document, branch_request, pr_request, branch_observation, pr_observation,
  outcome_document, LocalReady, BranchRequest, PrRequest, BranchObservation, PrObservation, Outcome,
  Kind, local_ready, branch_possible, pr_possible, branch_observed, pr_observed, applied, kind_keys,
  JournalRecord, Opened,
}
use vuoro.Reconciler.Journal.Copies.{ProtectedEffect, Copies}
use vuoro.Reconciler.Journal.Format.{Library, ◌>>=◌, holds, hash}
use vuoro.Reconciler.Journal.Payload.{
  accepts_outcome, accepts_pr_observation, accepts_branch_observation, accepts_pr_request,
  accepts_branch_request,
}
use vuoro.Reconciler.Journal.Bindings.{
  Seen, as_local, as_branch_request, as_pr_request, as_branch_observation, as_pr_observation,
  as_outcome, seen_local, seen_pr_observation,
}
use vuoro.Reconciler.Journal.Verify.{Verified, verify}
use vuoro.Reconciler.Journal.Steps.Cases.{bind-some}
use vuoro.Reconciler.Journal.Sound.{Sub, Sound, verify-Valid, Valid-Sound}
use vuoro.Reconciler.Journal.Views.{
  holds-true, as_local-some, as_branch_request-some, as_pr_request-some, as_branch_observation-some,
  as_pr_observation-some, as_outcome-some,
}

-- the documents of a publication, and what they agree on
pub record Published (seen : Seen) : Type 0 where
  pub local : LocalReady
  pub branch : BranchRequest
  pub branch_seen : BranchObservation
  pub pr : PrRequest
  pub pr_seen : PrObservation
  pub outcome : Outcome
  pub has_local : get seen local_ready ≡ some (local_document local)
  pub has_branch : get seen branch_possible ≡ some (branch_request branch)
  pub has_branch_seen : get seen branch_observed ≡ some (branch_observation branch_seen)
  pub has_pr : get seen pr_possible ≡ some (pr_request pr)
  pub has_pr_seen : get seen pr_observed ≡ some (pr_observation pr_seen)
  pub has_outcome : get seen applied ≡ some (outcome_document outcome)
  pub branch_commit : branch.commit_oid ≡ local.commit_oid
  pub branch_seen_commit : branch_seen.commit_oid ≡ local.commit_oid
  pub pr_commit : pr.commit_oid ≡ local.commit_oid
  pub pr_seen_commit : pr_seen.commit_oid ≡ local.commit_oid
  pub outcome_commit : outcome.commit_oid ≡ local.commit_oid
  pub not_closed : (pr_seen.state ≡ "open") ⊎ (pr_seen.state ≡ "merged")
  pub same_number : outcome.pr_number ≡ pr_seen.pr_number
  pub same_url : outcome.pr_url ≡ pr_seen.pr_url

local_injective :
    (a b : LocalReady)
    → ◌≡◌ {A = Option Document} (some (local_document a)) (some (local_document b))
    → a ≡ b
local_injective a b e = ground arith

pr_injective :
    (a b : PrObservation)
    → ◌≡◌ {A = Option Document} (some (pr_observation a)) (some (pr_observation b))
    → a ≡ b
pr_injective a b e = ground arith

held_hash :
    (past seen : Seen) (kind : Kind) (l : Library) (x : String)
    → Sub past seen
    → (some x == (get past kind >>= λ d. some (hash l (l.canonical d)))) ≡ true
    → (d : Document) × (get seen kind ≡ some d)
held_hash past seen kind l x within h = elim (Option-cases (get past kind)) [
  | inl n ↦ ground arith
  | inr (d, g) ↦ (d, within kind d g)
]

held :
    (past seen : Seen) (kind : Kind)
    → Sub past seen
    → is_some (get past kind) ≡ true
    → (d : Document) × (get seen kind ≡ some d)
held past seen kind within h = elim (Option-cases (get past kind)) [
  | inl n ↦ ground arith
  | inr (d, g) ↦ (d, within kind d g)
]

module _ (l : Library) (r : JournalRecord) (effect : ProtectedEffect) (binding : Binding) where
  -- what the later documents of a commit have had before them
  record Committed (seen : Seen) (commit : String) : Type 0 where
    pub local : LocalReady
    pub has_local : get seen local_ready ≡ some (local_document local)
    pub same : commit ≡ local.commit_oid

  local_of :
      (past seen : Seen) (commit : String)
      → Sub past seen
      → holds (seen_local past) (λ local. commit == local.commit_oid) ≡ true
      → Committed seen commit
  local_of past seen commit within h =
      let (local, s, e) = holds-true (seen_local past) _ h in
      let (d, g, v) = bind-some (get past local_ready) as_local local s in
      record {
        local = local;
        has_local =
            within local_ready (local_document local) (g ∙ ap some (as_local-some d local v));
        same = (string_keys.decides commit local.commit_oid).0 e;
      }

  branch_request-Committed :
      (seen : Seen) (d : Document)
      → Sound l r effect binding seen
      → get seen branch_possible ≡ some d
      → (q : BranchRequest) × (get seen branch_possible ≡ some (branch_request q))
        × Committed seen q.commit_oid
  unfolding accepts_branch_request
  branch_request-Committed seen d sound g =
      let a = sound branch_possible d (λ e. cc) g in
      let (q, view, test) = holds-true (as_branch_request d) _ a.test in
      (
        q,
        g ∙ ap some (as_branch_request-some d q view),
        local_of a.past seen q.commit_oid a.within (ground (arith, test)),
      )

  branch_observation-Committed :
      (seen : Seen) (d : Document)
      → Sound l r effect binding seen
      → get seen branch_observed ≡ some d
      → (q : BranchObservation) × (get seen branch_observed ≡ some (branch_observation q))
        × Committed seen q.commit_oid
  unfolding accepts_branch_observation
  branch_observation-Committed seen d sound g =
      let a = sound branch_observed d (λ e. cc) g in
      let (q, view, test) = holds-true (as_branch_observation d) _ a.test in
      (
        q,
        g ∙ ap some (as_branch_observation-some d q view),
        local_of a.past seen q.commit_oid a.within (ground (arith, test)),
      )

  pr_request-Committed :
      (seen : Seen) (d : Document)
      → Sound l r effect binding seen
      → get seen pr_possible ≡ some d
      → (q : PrRequest) × (get seen pr_possible ≡ some (pr_request q))
        × Committed seen q.commit_oid
        × ((e : Document) × (get seen branch_observed ≡ some e))
  unfolding accepts_pr_request
  pr_request-Committed seen d sound g =
      let a = sound pr_possible d (λ e. cc) g in
      let (q, view, test) = holds-true (as_pr_request d) _ a.test in
      (
        q,
        g ∙ ap some (as_pr_request-some d q view),
        local_of a.past seen q.commit_oid a.within (ground (arith, test)),
        held a.past seen branch_observed a.within (ground (arith, test)),
      )

  pr_observation-Committed :
      (seen : Seen) (d : Document)
      → Sound l r effect binding seen
      → get seen pr_observed ≡ some d
      → (q : PrObservation) × (get seen pr_observed ≡ some (pr_observation q))
        × Committed seen q.commit_oid
  unfolding accepts_pr_observation
  pr_observation-Committed seen d sound g =
      let a = sound pr_observed d (λ e. cc) g in
      let (q, view, test) = holds-true (as_pr_observation d) _ a.test in
      (
        q,
        g ∙ ap some (as_pr_observation-some d q view),
        local_of a.past seen q.commit_oid a.within (ground (arith, test)),
      )

  one_local :
      (seen : Seen) (commit other : String) (a : Committed seen commit) (b : Committed seen other)
      → other ≡ a.local.commit_oid
  one_local seen commit other a b =
      let e : some (local_document b.local) ≡ some (local_document a.local) =
        sym b.has_local ∙ a.has_local in
      b.same ∙ ap (λ x. x.commit_oid) (local_injective b.local a.local e)

  -- the pull request's observation that an outcome repeats
  observed_of :
      (past seen : Seen) (x : Outcome)
      → Sub past seen
      → holds (seen_pr_observation past) (λ o. o.state == "open" || o.state == "merged") ≡ true
      → holds
          (seen_pr_observation past)
          (λ o. nat_eq x.pr_number o.pr_number && (x.pr_url == o.pr_url))
        ≡ true
      → (o : PrObservation) × (get seen pr_observed ≡ some (pr_observation o))
        × ((o.state ≡ "open") ⊎ (o.state ≡ "merged"))
        × (x.pr_number ≡ o.pr_number)
        × (x.pr_url ≡ o.pr_url)
  observed_of past seen x within h k =
      let (o, s, e) = holds-true (seen_pr_observation past) _ h in
      let (d, g, v) = bind-some (get past pr_observed) as_pr_observation o s in
      (
        o,
        within pr_observed (pr_observation o) (g ∙ ap some (as_pr_observation-some d o v)),
        ground (arith, e, string_keys.decides o.state "open", string_keys.decides o.state "merged"),
        ground (arith, k, s),
        ground (arith, k, s, string_keys.decides x.pr_url o.pr_url),
      )

  -- what APPLIED was accepted on
  outcome-Published :
      (seen : Seen) (d : Document)
      → Sound l r effect binding seen
      → get seen applied ≡ some d
      → Published seen
  unfolding accepts_outcome
  outcome-Published seen d sound g =
      let a = sound applied d (λ e. cc) g in
      let (x, view, test) = holds-true (as_outcome d) _ a.test in
      let (first_5, repeats) = both_true _ _ test in
      let (first_4, pr_hash) = both_true _ _ first_5 in
      let (first_3, branch_hash) = both_true _ _ first_4 in
      let (first_2, state) = both_true _ _ first_3 in
      let (names, commit) = both_true _ _ first_2 in
      let at = local_of a.past seen x.commit_oid a.within commit in
      let (o, has_o, not_closed, number, url) = observed_of a.past seen x a.within state repeats in
      let (b, has_b) =
        held_hash a.past seen branch_possible l x.branch_request_sha256 a.within branch_hash in
      let (p, has_p) = held_hash a.past seen pr_possible l x.pr_request_sha256 a.within pr_hash in
      let (branch, has_branch, branch_at) = branch_request-Committed seen b sound has_b in
      let (pr, has_pr, pr_at, (e, has_e)) = pr_request-Committed seen p sound has_p in
      let (branch_seen, has_branch_seen, branch_seen_at) =
        branch_observation-Committed seen e sound has_e in
      let (pr_seen, has_pr_seen, pr_seen_at) =
        pr_observation-Committed seen (pr_observation o) sound has_o in
      let same : pr_seen ≡ o = pr_injective pr_seen o (sym has_pr_seen ∙ has_o) in
      record {
        local = at.local;
        branch = branch;
        branch_seen = branch_seen;
        pr = pr;
        pr_seen = o;
        outcome = x;
        has_local = at.has_local;
        has_branch = has_branch;
        has_branch_seen = has_branch_seen;
        has_pr = has_pr;
        has_pr_seen = has_o;
        has_outcome = g ∙ ap some (as_outcome-some d x view);
        branch_commit = one_local seen x.commit_oid branch.commit_oid at branch_at;
        branch_seen_commit = one_local seen x.commit_oid branch_seen.commit_oid at branch_seen_at;
        pr_commit = one_local seen x.commit_oid pr.commit_oid at pr_at;
        pr_seen_commit =
            sym (ap (λ y. y.commit_oid) same)
            ∙ one_local seen x.commit_oid pr_seen.commit_oid at pr_seen_at;
        outcome_commit = at.same;
        not_closed = not_closed;
        same_number = number;
        same_url = url;
      }

-- Where a record verifies and holds APPLIED, it holds everything on the way there: the commit that was
-- made ready, the two requests, the two observations, all of that commit, and a pull request that was
-- observed open or merged, whose number and URL the outcome repeats.
pub applied-Published :
    (l : Library) (c : Copies) (o : Opened) (r : JournalRecord) (v : Verified) (d : Document)
    → verify l c o r ≡ some v
    → get v.seen applied ≡ some d
    → Published v.seen
applied-Published l c o r v d valid g =
    outcome-Published l r v.effect v.binding v.seen d
      (Valid-Sound l c o r v (verify-Valid l c o r v valid)) g
