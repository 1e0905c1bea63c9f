-- ===== src/Gate/Promises/Rebinding.antt =====
-- What a replacement of the binding rests on, and the identities it uses.
use robot_harness.Base.{
  ℕ, String, true, false, ◌≡◌, ◌+◌, ◌≤◌, ◌<◌, some, none, List, [], ◌∷◌, arith, u64_max, refl, ap,
  subst, inl, inr, Option-cases,
}
use robot_harness.Gate.Types.{
  OperationAuthority, binding_eq, BindingIdentity, BindingReadinessEvidence, BindingControlStatus,
  InitializationState,
}
use robot_harness.Gate.Types.Equality.{binding_eq_iff}
use robot_harness.Gate.State.{
  AuthorityGate, Candidate, ReadinessFact, current, matches_receipt, old_work_closed, can_commit,
  can_commit_candidate, is_current_fact,
}
use robot_harness.Gate.Startup.{observe_startup, startup_at, close_admission}
use robot_harness.Gate.Binding.{withdraw_binding, withdraw_live}
use robot_harness.Gate.Rebind.{begin_rebind, prepare, new_candidate, commit_rebind, commit}
use robot_harness.Gate.Calls.{Call, begin, commits, close, apply, run}
use robot_harness.Gate.Output.{
  observe_output_accepted, observe_output_not_delivered, observe_settlement,
}
use robot_harness.Gate.Control.{request_cancel, observe_time, observe_stop_acknowledgement}
use robot_harness.Gate.Admission.{admit, grant, claim_dispatch}
use robot_harness.Gate.Readiness.{observe_rebind_readiness}
use robot_harness.Gate.Capabilities.{observe_execution_capabilities, observe_live_report}
use robot_harness.Gate.Native.{observe_native, observe_non_submission}
use robot_harness.Gate.Invariant.{GateIsValid, IsNext}
use robot_harness.Gate.Invariant.Histories.{apply-IsValid, run-IsValid}

-- A fact that is there, without a conflict, observed to hold by the time and still valid at it.
abbrev pub IsCurrentAt : ℕ → ReadinessFact → Type 0
IsCurrentAt now fact =
    (e : BindingReadinessEvidence) × (fact.evidence ≡ some e)
    × (fact.conflicted ≡ false)
    × (e.observed ≡ true)
    × (e.evidence.observed_at ≤ now)
    × (now < e.valid_until)

current_IsCurrentAt :
    (now : ℕ) (f : ReadinessFact) → is_current_fact now f ≡ true → IsCurrentAt now f
unfolding is_current_fact
current_IsCurrentAt now f h = elim (Option-cases f.evidence) [
  | inl n ↦ ground arith
  | inr (e, n) ↦ (e, n, ground arith, ground arith, ground arith, ground arith)
]

-- What a commit that was applied has tested.
committed :
    (g : AuthorityGate) (b : BindingIdentity) (now : ℕ) (k : Candidate)
    → g.candidate ≡ some k
    → (commit_rebind g b now).1.status ≡ BindingControlStatus.applied
    → (b ≡ k.binding)
      × (can_commit_candidate g now k ≡ true)
      × ((commit_rebind g b now).0 ≡ commit g k now)
unfolding commit_rebind can_commit
committed g b now k p h = ground (arith, binding_eq_iff b k.binding)

-- No call of a valid gate makes an earlier generation live.
live_step :
    (g : AuthorityGate) (c : Call)
    → GateIsValid g
    → g.config.binding.provider_generation ≤ (apply g c).config.binding.provider_generation
unfolding apply observe_startup startup_at observe_execution_capabilities observe_live_report
    withdraw_binding withdraw_live begin_rebind prepare observe_rebind_readiness commit_rebind
    commit admit grant observe_native claim_dispatch observe_non_submission request_cancel
    observe_time observe_stop_acknowledgement observe_output_accepted observe_output_not_delivered
    observe_settlement close_admission
live_step g close v = ground arith
live_step g (commits b now) v = elim (Option-cases g.candidate) [
  | inl n ↦ ground arith
  | inr (k, n) ↦
      let next = subst (IsNext g.config.binding g.generation_high_water) n v.candidate_next in
      ground (arith, next.0)
]
live_step g _ v = ground arith

live_run :
    (g : AuthorityGate) (cs : List Call)
    → GateIsValid g
    → g.config.binding.provider_generation ≤ (run g cs).config.binding.provider_generation
unfolding run
live_run g [] v = omega arith
live_run g (c ∷ cs) v =
    omega (arith, live_step g c v, live_run (apply g c) cs (apply-IsValid g c v))

-- An authority of another generation than the live one names no operation.
replaced_current :
    (g : AuthorityGate) (a : OperationAuthority)
    → a.binding.provider_generation < g.config.binding.provider_generation
    → current g a ≡ none
unfolding matches_receipt binding_eq
replaced_current g a l = elim (Option-cases g.current_receipt) [
  | inl n ↦ rw n refl
  | inr (r, n) ↦ ground arith
]

committed-IsValid :
    (g : AuthorityGate) (b : BindingIdentity) (now : ℕ)
    → GateIsValid g
    → GateIsValid (commit_rebind g b now).0
unfolding apply
committed-IsValid g b now v = apply-IsValid g (commits b now) v

-- A commit is applied only to the candidate in preparation, when the old work is closed, the old
-- scope's evidence is still valid, and each readiness fact is there, without a conflict, observed to
-- hold and still valid. It makes the candidate the live binding, ready, of a greater generation than
-- the one it replaces, and no authority of the replaced binding names a current operation again,
-- whatever calls follow.
pub commit_rebind_sound :
    (g : AuthorityGate) (b : BindingIdentity) (now : ℕ) (k : Candidate) (a : OperationAuthority)
    (cs : List Call)
    → GateIsValid g
    → g.candidate ≡ some k
    → (commit_rebind g b now).1.status ≡ BindingControlStatus.applied
    → a.binding ≡ g.config.binding
    → (b ≡ k.binding)
      × (old_work_closed g ≡ true)
      × (now < k.old_scope.valid_until)
      × IsCurrentAt now k.idle
      × IsCurrentAt now k.worker
      × IsCurrentAt now k.sink
      × ((commit_rebind g b now).0.config.binding ≡ k.binding)
      × ((commit_rebind g b now).0.initialization_state ≡ InitializationState.ready)
      × (g.config.binding.provider_generation
          < (commit_rebind g b now).0.config.binding.provider_generation)
      × (current (run (commit_rebind g b now).0 cs) a ≡ none)
unfolding can_commit_candidate commit
commit_rebind_sound g b now k a cs v p h e =
    let (same, passed, after) = committed g b now k p h in
    let next = subst (IsNext g.config.binding g.generation_high_water) p v.candidate_next in
    let live : (commit_rebind g b now).0.config.binding ≡ k.binding =
      ap (λ (t : AuthorityGate). t.config.binding) after in
    let newer = ap (λ (t : BindingIdentity). t.provider_generation) live in
    let stays = live_run (commit_rebind g b now).0 cs (committed-IsValid g b now v) in
    let old = ap (λ (t : BindingIdentity). t.provider_generation) e in
    (
      same,
      ground arith,
      ground arith,
      current_IsCurrentAt now k.idle (ground arith),
      current_IsCurrentAt now k.worker (ground arith),
      current_IsCurrentAt now k.sink (ground arith),
      live,
      ap (λ (t : AuthorityGate). t.initialization_state) after,
      omega (arith, next.0, newer),
      replaced_current (run (commit_rebind g b now).0 cs) a
          (omega (arith, next.0, newer, stays, old)),
    )

-- No call lowers the high-water mark of generations.
high_water_step :
    (g : AuthorityGate) (c : Call) → g.generation_high_water ≤ (apply g c).generation_high_water
unfolding apply observe_startup startup_at observe_execution_capabilities observe_live_report
    withdraw_binding withdraw_live begin_rebind prepare observe_rebind_readiness commit_rebind
    commit admit grant observe_native claim_dispatch observe_non_submission request_cancel
    observe_time observe_stop_acknowledgement observe_output_accepted observe_output_not_delivered
    observe_settlement close_admission
high_water_step g close = ground arith
high_water_step g _ = ground arith

high_water_run :
    (g : AuthorityGate) (cs : List Call)
    → g.generation_high_water ≤ (run g cs).generation_high_water
unfolding run
high_water_run g [] = omega arith
high_water_run g (c ∷ cs) = omega (arith, high_water_step g c, high_water_run (apply g c) cs)

begun_number :
    (g : AuthorityGate) (b k : BindingIdentity) (p : String) (e : BindingReadinessEvidence) (t : ℕ)
    → g.generation_high_water ≤ u64_max
    → (begin_rebind g b p e t).1.status ≡ BindingControlStatus.applied
    → (begin_rebind g b p e t).1.candidate ≡ some k
    → (k.provider_generation ≡ g.generation_high_water + 1)
      × ((begin_rebind g b p e t).0.generation_high_water ≡ k.provider_generation)
      × (k.provider_generation ≤ u64_max)
unfolding begin_rebind prepare new_candidate
begun_number g b k p e t m s c = ground arith

-- Each preparation that is begun has a greater generation than every one before it, withdrawn or
-- committed, and greater than the live one; the generation fits its 64 bits.
pub begin_rebind-run_increases :
    (g : AuthorityGate) (cs : List Call) (b b' k k' : BindingIdentity) (p p' : String)
    (e e' : BindingReadinessEvidence) (t t' : ℕ)
    → GateIsValid g
    → (begin_rebind g b p e t).1.status ≡ BindingControlStatus.applied
    → (begin_rebind g b p e t).1.candidate ≡ some k
    → (begin_rebind (run (begin_rebind g b p e t).0 cs) b' p' e' t').1.status
      ≡ BindingControlStatus.applied
    → (begin_rebind (run (begin_rebind g b p e t).0 cs) b' p' e' t').1.candidate ≡ some k'
    → (g.config.binding.provider_generation < k.provider_generation)
      × (k.provider_generation < k'.provider_generation)
      × (k'.provider_generation ≤ u64_max)
unfolding apply
begin_rebind-run_increases g cs b b' k k' p p' e e' t t' v s c s' c' =
    let first = begun_number g b k p e t v.high_bounded s c in
    let h = (begin_rebind g b p e t).0 in
    let valid : GateIsValid h = apply-IsValid g (begin b p e t) v in
    let second =
      begun_number (run h cs) b' k' p' e' t' (run-IsValid h cs valid).high_bounded s' c' in
    let risen = high_water_run h cs in
    (omega (arith, first.0, v.live_generation), omega (arith, first.1, second.0, risen), second.2)
