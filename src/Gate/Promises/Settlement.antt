-- ===== src/Gate/Promises/Settlement.antt =====
-- What settlement and release mean.
use robot_harness.Base.{
  ℕ, true, false, ◌≡◌, ◌≢◌, ◌⊎◌, ◌↔◌, ◌≤◌, ◌<◌, inl, inr, Option, none, some, List, [], ◌∷◌, arith,
  Bool-cases, max, str_eq, str_eq_iff,
}
use robot_harness.Gate.Types.{
  EvidenceRecord, EvidenceDisposition, SettlementEvidence, NativeAcceptance, OutputDisposition,
  OutputNonDeliveryReason, DispatchStatus, SettlementStatus, AuthorityDisposition,
}
use robot_harness.Gate.Receipt.{
  OperationReceipt, effect_records, receipt_records, precedes, follows_all,
  follows_same_source_records, later_of, later_record, latest_record, latest_effect_time,
}
use robot_harness.Gate.Disposition.{disposition_of, has_resolved_closure, has_resolved_effects}
use robot_harness.Gate.State.{AuthorityGate, current}
use robot_harness.Gate.Output.{observe_settlement, settlement_reply}
use robot_harness.Gate.Validity.{ReceiptIsValid}

-- The output was not delivered, for one of the reasons.
abbrev pub NotDelivered : OperationReceipt → OutputNonDeliveryReason → Type 0
NotDelivered r reason =
    (r.output ≡ OutputDisposition.not_delivered) × (r.output_non_delivery_reason ≡ some reason)

-- The operation never ran: it was not submitted, or it was refused.
abbrev pub NeverRan : OperationReceipt → Type 0
NeverRan r =
    ((r.dispatch ≡ DispatchStatus.not_submitted)
      ⊎ (r.native_acceptance ≡ NativeAcceptance.rejected))
    × NotDelivered r OutputNonDeliveryReason.no_output_produced

-- It ran and ended without success: one failure or one cancellation was seen.
abbrev pub EndedEmpty : OperationReceipt → Type 0
EndedEmpty r =
    (r.observed_native_success ≡ false)
    × ((r.observed_native_failure ≡ true) × (r.observed_native_cancellation ≡ false)
        ⊎ (r.observed_native_failure ≡ false) × (r.observed_native_cancellation ≡ true))
    × NotDelivered r OutputNonDeliveryReason.no_output_produced

-- Its success alone was seen, and its output was accepted, or refused by the sink, or held back
-- by a revocation.
abbrev pub Succeeded : OperationReceipt → Type 0
Succeeded r =
    (r.observed_native_success ≡ true)
    × (r.observed_native_failure ≡ false)
    × (r.observed_native_cancellation ≡ false)
    × ((r.output ≡ OutputDisposition.accepted)
        ⊎ (NotDelivered r OutputNonDeliveryReason.sink_rejected
            ⊎ NotDelivered r OutputNonDeliveryReason.authority_revoked))

released→ :
    (r : OperationReceipt)
    → ReceiptIsValid r
    → r.authority_disposition ≡ AuthorityDisposition.released
    → (r.settlement ≡ SettlementStatus.settled) × (NeverRan r ⊎ (EndedEmpty r ⊎ Succeeded r))
unfolding disposition_of has_resolved_closure has_resolved_effects
released→ r v h = ground arith

released← :
    (r : OperationReceipt)
    → ReceiptIsValid r
    → (r.settlement ≡ SettlementStatus.settled) × (NeverRan r ⊎ (EndedEmpty r ⊎ Succeeded r))
    → r.authority_disposition ≡ AuthorityDisposition.released
unfolding disposition_of has_resolved_closure has_resolved_effects
released← r v h = ground arith

-- A valid receipt is released exactly where it is settled and its work is closed: it never ran and
-- gave no output, or it ended in one failure or cancellation and gave no output, or it succeeded
-- without a conflict and its output was accepted, refused or held back.
pub released_iff :
    (r : OperationReceipt)
    → ReceiptIsValid r
    → (r.authority_disposition ≡ AuthorityDisposition.released)
      ↔ ((r.settlement ≡ SettlementStatus.settled) × (NeverRan r ⊎ (EndedEmpty r ⊎ Succeeded r)))
released_iff r v = (released→ r v, released← r v)

-- What holds of each record that is there.
abbrev pub Each : (EvidenceRecord → Type 0) → List (Option EvidenceRecord) → Type 0
Each P [] = Unit {0}
Each P (none ∷ os) = Each P os
Each P (some s ∷ os) = P s × Each P os

latest_record-ge :
    (os : List (Option EvidenceRecord)) (time : ℕ)
    → (time ≤ latest_record time os) × Each (λ s. s.observed_at ≤ latest_record time os) os
unfolding latest_record later_record
latest_record-ge [] time = (omega arith, tt)
latest_record-ge (none ∷ os) time = latest_record-ge os time
latest_record-ge (some s ∷ os) time =
    let rest = latest_record-ge os (max time s.observed_at) in
    (ground (arith, rest.0), (ground (arith, rest.0), rest.1))

Each-mono :
    (os : List (Option EvidenceRecord)) (time t : ℕ)
    → time ≤ t
    → Each (λ s. s.observed_at ≤ time) os
    → Each (λ s. s.observed_at ≤ t) os
Each-mono [] time t h e = tt
Each-mono (none ∷ os) time t h e = Each-mono os time t h e
Each-mono (some s ∷ os) time t h e = (omega (arith, e.0), Each-mono os time t h e.1)

-- A record of another source, or an earlier one of the same source.
abbrev pub Before : EvidenceRecord → EvidenceRecord → Type 0
Before e s = (s.source ≢ e.source) ⊎ (s.sequence < e.sequence)

precedes-Before : (e s : EvidenceRecord) → precedes (some s) e ≡ true → Before e s
unfolding precedes
precedes-Before e s h = elim (Bool-cases (str_eq s.source e.source)) [
  | inl q ↦ inr (ground arith)
  | inr q ↦ inl (λ p. ground (arith, str_eq_iff s.source e.source))
]

follows_all-Before :
    (e : EvidenceRecord) (os : List (Option EvidenceRecord))
    → follows_all e os ≡ true
    → Each (Before e) os
unfolding follows_all
follows_all-Before e [] h = tt
follows_all-Before e (none ∷ os) h = follows_all-Before e os (unfold precedes in h)
follows_all-Before e (some s ∷ os) h =
    (precedes-Before e s (ground arith), follows_all-Before e os (ground arith))

settlement_checked :
    (g : AuthorityGate) (e : SettlementEvidence) (r : OperationReceipt)
    → current g e.authority ≡ some r
    → (observe_settlement g e).1 ≡ EvidenceDisposition.accepted
    → (latest_effect_time r ≤ e.evidence.observed_at)
      × (follows_same_source_records e.evidence r ≡ true)
unfolding observe_settlement settlement_reply
settlement_checked g e r p s = ground arith

-- A settlement that is accepted comes after every effect that the receipt records, and after
-- every earlier record of its own source, stop answers included.
pub observe_settlement-covers :
    (g : AuthorityGate) (e : SettlementEvidence) (r : OperationReceipt)
    → current g e.authority ≡ some r
    → (observe_settlement g e).1 ≡ EvidenceDisposition.accepted
    → Each (λ s. s.observed_at ≤ e.evidence.observed_at) (effect_records r)
      × Each (Before e.evidence) (receipt_records r)
unfolding latest_effect_time follows_same_source_records
observe_settlement-covers g e r p s =
    let checked = settlement_checked g e r p s in
    let start = later_of r.authority.admitted_at r.dispatched_at in
    (
      Each-mono (effect_records r) (latest_record start (effect_records r)) e.evidence.observed_at
          checked.0 (latest_record-ge (effect_records r) start).1,
      follows_all-Before e.evidence (receipt_records r) checked.1,
    )
