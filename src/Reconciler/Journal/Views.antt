-- ===== src/Reconciler/Journal/Views.antt =====
-- What a view of a document, and a look into the dict of documents, have found.
use vuoro.Prelude.{Bool, true, Option, none, some, ◌≡◌, refl, arith}
use vuoro.Prelude.Eq.{string_keys, option_keys}
use vuoro.Reconciler.Journal.{
  Document, local_document, branch_request, pr_request, branch_observation, pr_observation,
  outcome_document, LocalReady, BranchRequest, PrRequest, BranchObservation, PrObservation, Outcome,
  kind_keys,
}
use vuoro.Reconciler.Journal.Format.{holds}
use vuoro.Reconciler.Journal.Bindings.{
  as_local, as_branch_request, as_pr_request, as_branch_observation, as_pr_observation, as_outcome,
}

pub holds-true {ℓ} :
    {A : Type ℓ} (o : Option A) (p : A → Bool)
    → holds o p ≡ true
    → (a : A) × (o ≡ some a) × (p a ≡ true)
holds-true none p h = cc
holds-true (some a) p h = (a, refl, h)

pub as_local-some : (d : Document) (v : LocalReady) → as_local d ≡ some v → d ≡ local_document v
as_local-some (local_document w) v h = ground arith
as_local-some _ v h = cc

pub as_branch_request-some :
    (d : Document) (v : BranchRequest) → as_branch_request d ≡ some v → d ≡ branch_request v
as_branch_request-some (branch_request w) v h = ground arith
as_branch_request-some _ v h = cc

pub as_pr_request-some :
    (d : Document) (v : PrRequest) → as_pr_request d ≡ some v → d ≡ pr_request v
as_pr_request-some (pr_request w) v h = ground arith
as_pr_request-some _ v h = cc

pub as_branch_observation-some :
    (d : Document) (v : BranchObservation)
    → as_branch_observation d ≡ some v
    → d ≡ branch_observation v
as_branch_observation-some (branch_observation w) v h = ground arith
as_branch_observation-some _ v h = cc

pub as_pr_observation-some :
    (d : Document) (v : PrObservation) → as_pr_observation d ≡ some v → d ≡ pr_observation v
as_pr_observation-some (pr_observation w) v h = ground arith
as_pr_observation-some _ v h = cc

pub as_outcome-some : (d : Document) (v : Outcome) → as_outcome d ≡ some v → d ≡ outcome_document v
as_outcome-some (outcome_document w) v h = ground arith
as_outcome-some _ v h = cc
