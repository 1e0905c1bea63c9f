-- ===== src/Compute/Proceeds/Rebind.antt =====
-- The replacement of the provider, startup and admission.
use robot_harness.Base.{ℕ, String, Bool, Option, none, some, refl}
use robot_harness.Action.Rules.{Relates, Relates-bind}
use robot_harness.Gate.Types.{
  OperationAuthority, BindingIdentity, BindingDecision, StartupEvidenceKind, AdmissionDecision,
}
use robot_harness.Compute.Types.{ComputeProcess, ComputeRequest}
use robot_harness.Compute.Host.{ComputeHost}
use robot_harness.Compute.Rebind.{
  report_readiness, report_candidate_capabilities, withdraw_candidate, commit_candidate,
  continue_rebind, begin_candidate, rebind_provider,
}
use robot_harness.Compute.Prepare.{report_startup, report_startups, enter_prepared, keep_prepared}
use robot_harness.Compute.Proceeds.{Proceeds, Proceeds-IsPreorder, proceeds_rules, modify-Proceeds}

module _ {X : Type 0} where
  report_readiness-Proceeds :
      (k : StartupEvidenceKind) (b : BindingIdentity) (source : String) (o : Bool) (t : ℕ)
      → Relates {S = ComputeHost X} Proceeds (report_readiness k b source o t)
  unfolding report_readiness
  report_readiness-Proceeds k b source o t = search proceeds_rules depth 12 fits 5000

  report_candidate_capabilities-Proceeds :
      (b : BindingIdentity) (ready : Bool) (t : ℕ)
      → Relates {S = ComputeHost X} Proceeds (report_candidate_capabilities b ready t)
  unfolding report_candidate_capabilities
  report_candidate_capabilities-Proceeds b ready t = search proceeds_rules depth 14 fits 5000

  withdraw_candidate-Proceeds :
      (b : BindingIdentity) → Relates {S = ComputeHost X} Proceeds (withdraw_candidate b)
  unfolding withdraw_candidate
  withdraw_candidate-Proceeds b = search proceeds_rules depth 12 fits 5000

  commit_candidate-Proceeds :
      (b : BindingIdentity) (e : String)
      → Relates {S = ComputeHost X} Proceeds (commit_candidate b e)
  unfolding commit_candidate
  commit_candidate-Proceeds b e =
      search
        (
          proceeds_rules, report_readiness-Proceeds, report_candidate_capabilities-Proceeds,
          withdraw_candidate-Proceeds,
        )
        depth 24 fits 20000

  continue_rebind-Proceeds :
      (d : BindingDecision) (o : Option BindingIdentity) (e : String)
      → Relates {S = ComputeHost X} Proceeds (continue_rebind d o e)
  unfolding continue_rebind
  continue_rebind-Proceeds d none e = search proceeds_rules
  continue_rebind-Proceeds d (some b) e = commit_candidate-Proceeds b e

  begin_candidate-Proceeds :
      (b : BindingIdentity) (p e : String)
      → Relates {S = ComputeHost X} Proceeds (begin_candidate b p e)
  unfolding begin_candidate
  begin_candidate-Proceeds b p e =
      search (proceeds_rules, continue_rebind-Proceeds) depth 12 fits 5000

  report_startup-Proceeds :
      (k : StartupEvidenceKind) (b : BindingIdentity) (source : String) (o : Bool) (t : ℕ)
      → Relates {S = ComputeHost X} Proceeds (report_startup k b source o t)
  unfolding report_startup
  report_startup-Proceeds k b source o t = search proceeds_rules depth 12 fits 5000

  pub report_startups-Proceeds :
      (b : BindingIdentity) (ready : Bool) (t : ℕ)
      → Relates {S = ComputeHost X} Proceeds (report_startups b ready t)
  unfolding report_startups
  report_startups-Proceeds b ready t =
      search (proceeds_rules, report_startup-Proceeds) depth 14 fits 5000

  pub keep_prepared-Proceeds :
      (q : ComputeRequest) (d : AdmissionDecision) (o : Option OperationAuthority)
      → Relates {S = ComputeHost X} Proceeds (keep_prepared q d o)
  unfolding keep_prepared
  keep_prepared-Proceeds q d none = search proceeds_rules
  keep_prepared-Proceeds q d (some a) =
      Relates-bind _ _ Proceeds-IsPreorder
        (modify-Proceeds (enter_prepared a q) (λ s. refl) (λ s. tt)) λ _. search proceeds_rules

module _ {X : Type 0} (P : ComputeProcess X) where
  pub rebind_provider-Proceeds :
      (b : BindingIdentity) (p e : String) → Relates Proceeds (rebind_provider P b p e)
  unfolding rebind_provider
  rebind_provider-Proceeds b p e =
      search (proceeds_rules, begin_candidate-Proceeds) depth 16 fits 9000
