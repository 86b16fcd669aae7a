-- ===== src/RemediationPolicy/Reconcile/Guards.antt =====
-- What a run does not touch if the repository or a target policy is not there.
use aotanami.Prelude.{
  ap, subst, ◌∷◌, ◌≡◌, ◌⊎◌, ◌≢◌, List, [], Option, none, some, ℕ, Text, Elem, refl, arith, codes,
  inl, inr,
}
use aotanami.Conditions.{condition_false}
use aotanami.Remediation.Fixes.{LlmResponse}
use aotanami.RemediationPolicy.Reconcile.{
  RemediationPolicy, GitOpsRepository, Got, present, absent, unreadable, Engines, PolicyRun,
  PolicyApi, PolicyClock, Targets, all_read, stopped_at, read_targets, reconciling, connected,
  store, with_targets, with_repository, reconcile, at_target, in_error, with_connected, retry_after,
}
use aotanami.SecurityPolicy.Reconcile.Status.{Reads, ready, set-Reads}

-- A status that says Error and not Ready, with the counts of `p`.
pub record IsError (p q : RemediationPolicy) : Type 0 where
  pub in_error_phase : q.status.phase ≡ codes "Error"
  pub reason : Text
  pub not_ready : Reads q.status.conditions ready condition_false reason
  pub same_applied : q.status.remediations_applied ≡ p.status.remediations_applied
  pub same_open : q.status.open_prs ≡ p.status.open_prs

-- The engines are as they were, and at most an update of the status has changed the world.
pub record IsUntouched {W : Type 0} (api : PolicyApi W) (p : RemediationPolicy)
    (engines : Engines W) (w : W) (run : PolicyRun W) : Type 0 where
  pub same_engines : run.engines ≡ engines
  pub same_world :
      (run.world ≡ w)
      ⊎ ((q : RemediationPolicy) × IsError p q × (run.world ≡ (api.update_status q w).1))

-- A read that does not return the object.
abbrev pub IsGone : {A : Type 0} → Got A → Type 0
IsGone {A} g = (a : A) → g ≢ present a

module _ {W : Type 0} (unmarshal : Text → Option LlmResponse) (api : PolicyApi W)
    (clock : PolicyClock) where
  store-IsUntouched :
      (p q : RemediationPolicy) (engines : Engines W) (w : W) (n : ℕ) (o : Option Text × W)
      → IsError p q
      → o ≡ api.update_status q w
      → IsUntouched api p engines w (store unmarshal api clock engines n o)
  store-IsUntouched p q engines w n (none, v) h e = record {
    same_engines = refl;
    same_world = inr (q, h, ap (λ o. o.1) e);
  }
  store-IsUntouched p q engines w n (some x, v) h e = record {
    same_engines = refl;
    same_world = inr (q, h, ap (λ o. o.1) e);
  }

  at_target-gone :
      (name : Text) (g : Got Unit) (rest : Targets)
      → IsGone g ⊎ (rest ≢ all_read [])
      → at_target unmarshal api clock name g rest ≢ all_read []
  at_target-gone name (present tt) rest (inl gone) = absurd (gone tt refl)
  at_target-gone name (present tt) rest (inr h) = h
  at_target-gone name absent (all_read names) h = λ e. ground (arith, e)
  at_target-gone name absent (stopped_at x) h = λ e. ground (arith, e)
  at_target-gone name (unreadable x) rest h = λ e. ground (arith, e)

  read_targets-gone :
      (namespace : Text) (names : List Text) (name : Text)
      → Elem name names
      → IsGone (api.get_policy namespace name)
      → read_targets unmarshal api clock namespace names ≢ all_read []
  unfolding read_targets
  read_targets-gone namespace [] name m gone = absurd m
  read_targets-gone namespace (n ∷ names) name (inl e) gone =
      at_target-gone n (api.get_policy namespace n) _
        (inl (subst (λ x. IsGone (api.get_policy namespace x)) e gone))
  read_targets-gone namespace (n ∷ names) name (inr m) gone =
      at_target-gone n (api.get_policy namespace n) _
        (inr (read_targets-gone namespace names name m gone))

  -- `p'` has the counts of `p`.
  module _ (p p' : RemediationPolicy) (engines : Engines W) (w : W)
      (applied : p'.status.remediations_applied ≡ p.status.remediations_applied)
      (counted : p'.status.open_prs ≡ p.status.open_prs) where
    in_error-IsError :
        (reason message : Text) → IsError p (in_error unmarshal api clock reason message p')
    in_error-IsError reason message = record {
      in_error_phase = refl;
      reason = reason;
      not_ready = set-Reads _ _ _ _ _ _ _;
      same_applied = applied;
      same_open = counted;
    }

    with_targets-IsUntouched :
        (r : GitOpsRepository) (t : Targets)
        → t ≢ all_read []
        → IsUntouched api p engines w (with_targets unmarshal api clock p' r engines t w)
    with_targets-IsUntouched r (all_read []) h = absurd (h refl)
    with_targets-IsUntouched r (stopped_at e) h = record {
      same_engines = refl;
      same_world = inl refl;
    }
    with_targets-IsUntouched r (all_read (name ∷ names)) h =
        store-IsUntouched p _ engines w retry_after _ (in_error-IsError _ _) refl

  with_repository-IsUntouched :
      (p : RemediationPolicy) (engines : Engines W) (w : W) (g : Got GitOpsRepository)
      → IsGone g
        ⊎ (read_targets unmarshal api clock p.spec.namespace p.spec.target_policies ≢ all_read [])
      → IsUntouched api p engines w
          (with_repository unmarshal api clock (reconciling unmarshal api clock p) engines g w)
  with_repository-IsUntouched p engines w absent h =
      store-IsUntouched p _ engines w retry_after _
        (in_error-IsError p
          (with_connected unmarshal api clock _ _ _ (reconciling unmarshal api clock p)) engines w
          refl refl _ _)
        refl
  with_repository-IsUntouched p engines w (unreadable e) h = record {
    same_engines = refl;
    same_world = inl refl;
  }
  with_repository-IsUntouched p engines w (present r) (inl gone) = absurd (gone r refl)
  with_repository-IsUntouched p engines w (present r) (inr h) =
      with_targets-IsUntouched p
        (connected unmarshal api clock r (reconciling unmarshal api clock p)) engines w refl refl r
        _ h

-- If the policy's repository, or one of its target policies, cannot be read or is not there, a run
-- submits nothing and resolves no incident: it leaves the engines and the world alone, but for at most
-- one update of the policy's status, which says Error and not Ready, and leaves its counts.
pub reconcile-IsUntouched :
    {W : Type 0} (unmarshal : Text → Option LlmResponse) (api : PolicyApi W) (clock : PolicyClock)
    (p : RemediationPolicy) (engines : Engines W) (w : W)
    → IsGone (api.get_repository p.spec.namespace p.gitops_repository)
      ⊎ ((name : Text) × Elem name p.spec.target_policies
          × IsGone (api.get_policy p.spec.namespace name))
    → IsUntouched api p engines w (reconcile unmarshal api clock (present p) engines w)
unfolding reconcile
reconcile-IsUntouched unmarshal api clock p engines w (inl gone) =
    with_repository-IsUntouched unmarshal api clock p engines w _ (inl gone)
reconcile-IsUntouched unmarshal api clock p engines w (inr (name, m, gone)) =
    with_repository-IsUntouched unmarshal api clock p engines w _ (
      inr
        (read_targets-gone unmarshal api clock p.spec.namespace p.spec.target_policies name m gone))
