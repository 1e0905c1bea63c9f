-- ===== src/Gate/Invariant/Receipts.antt =====
-- The calls that write the receipt of the operation in place, and admission.
use robot_harness.Base.{
  ℕ, true, ◌≡◌, ◌⊎◌, inl, inr, Option, none, some, arith, refl, sym, subst, Bool-cases,
}
use robot_harness.Gate.Types.{
  BindingIdentity, EvidenceDisposition, NativeEvidence, OperationAuthority, binding_eq,
}
use robot_harness.Gate.Types.Equality.{binding_eq_iff}
use robot_harness.Gate.Receipt.{OperationReceipt, authority_matches}
use robot_harness.Gate.State.{
  AuthorityGateConfig, AuthorityGate, Reply, keep, update, replied, respond, reply, matches_receipt,
  matching,
}
use robot_harness.Gate.Native.{observe_native, native_at, native_replied, native_reply}
use robot_harness.Gate.Validity.{ReceiptIsValid, Respects, Advances-refl}
use robot_harness.Gate.Validity.Replies.{native_reply-Respects}
use robot_harness.Gate.Invariant.{HoldsReceipt, Holds, GateIsValid, Evolves, Moves}

pub Evolves-refl : (o : Option OperationReceipt) → Evolves o o
Evolves-refl none = tt
Evolves-refl (some r) = inl (Advances-refl r)

pub Moves-refl : (o : Option OperationReceipt) → Moves o o
Moves-refl none = tt
Moves-refl (some r) = Advances-refl r

pub Moves-Evolves : (o o' : Option OperationReceipt) → Moves o o' → Evolves o o'
Moves-Evolves none o' m = tt
Moves-Evolves (some r) none m = m
Moves-Evolves (some r) (some r') m = inl m

-- A receipt that an authority matches belongs to the live binding.
pub matched_live :
    (c : AuthorityGateConfig) (r : OperationReceipt) (a : OperationAuthority)
    → matches_receipt c r a ≡ true
    → binding_eq r.authority.binding c.binding ≡ true
unfolding matches_receipt authority_matches
matched_live c r a h = ground (
  arith,
  binding_eq_iff r.authority.binding a.binding,
  binding_eq_iff a.binding c.binding,
  binding_eq_iff r.authority.binding c.binding,
)

pub put-Holds :
    (live : BindingIdentity) (next : ℕ) (r r' : OperationReceipt)
    → HoldsReceipt live next r
    → binding_eq r.authority.binding live ≡ true
    → ReceiptIsValid r'
    → r'.authority ≡ r.authority
    → HoldsReceipt live next r'
put-Holds live next r r' h b v e = record {
  valid = v;
  numbered = rw e h.numbered;
  given_out = rw e h.given_out;
  earlier_closed = rw e (λ n. ground arith);
}

-- A handler that respects the receipt keeps the gate's hold on it, and moves the operation on.
replied_both :
    {D : Type 0} (live : BindingIdentity) (next : ℕ) (r : OperationReceipt) (answer : Reply D)
    → HoldsReceipt live next r
    → binding_eq r.authority.binding live ≡ true
    → Respects r answer
    → let o = (replied r answer).0 in Holds live next o × Moves (some r) o
replied_both live next r (keep d) k b t = (k, Advances-refl r)
replied_both live next r (update r' d) k b (v, m) =
    (put-Holds live next r r' k b v m.same_authority, m)

module _ {D : Type 0} (a : OperationAuthority) (refused : D) (h : OperationReceipt → Reply D)
    (respects : (r : OperationReceipt) → ReceiptIsValid r → Respects r (h r)) where
  respond_both :
      (c : AuthorityGateConfig) (next : ℕ) (o : Option OperationReceipt)
      → Holds c.binding next o
      → let o' = (respond c a refused h o).0 in Holds c.binding next o' × Moves o o'
  respond_both c next none k = (tt, tt)
  respond_both c next (some r) k = elim (Bool-cases (matches_receipt c r a)) [
    | inl m ↦
        rw m (replied_both c.binding next r (h r) k (matched_live c r a m) (respects r k.valid))
    | inr m ↦ rw m (k, Advances-refl r)
  ]

  pub reply-IsValid : (g : AuthorityGate) → GateIsValid g → GateIsValid (reply g a refused h).0
  reply-IsValid g v =
      let both = respond_both g.config g.next_operation_id g.current_receipt v.operation in
      record {
        operation = both.0;
        next_bounded = v.next_bounded;
        native_paired = v.native_paired;
        candidate_prepared = v.candidate_prepared;
        candidate_next = v.candidate_next;
        live_generation = v.live_generation;
        high_bounded = v.high_bounded;
        withdrawal_timed = v.withdrawal_timed;
        preparation_timed = v.preparation_timed;
        closed_together = v.closed_together;
        ready_active = v.ready_active;
        ready_facts = v.ready_facts;
        idle_recorded = v.idle_recorded;
        worker_recorded = v.worker_recorded;
        sink_recorded = v.sink_recorded;
      }

  pub reply-Moves :
      (g : AuthorityGate)
      → GateIsValid g
      → Moves g.current_receipt (reply g a refused h).0.current_receipt
  reply-Moves g v = (respond_both g.config g.next_operation_id g.current_receipt v.operation).1

-- The receipt that an authority matches is the one in place.
matching-cases :
    (c : AuthorityGateConfig) (a : OperationAuthority) (o : Option OperationReceipt)
    → (matching c a o ≡ none)
      ⊎ ((r : OperationReceipt) × (o ≡ some r)
          × (matching c a o ≡ some r)
          × (matches_receipt c r a ≡ true))
matching-cases c a none = inl refl
matching-cases c a (some r) = elim (Bool-cases (matches_receipt c r a)) [
  | inl m ↦ inr (r, refl, rw m, m)
  | inr m ↦ inl (rw m)
]

native_replied_both :
    (g : AuthorityGate) (e : NativeEvidence) (r : OperationReceipt)
    (answer : Reply EvidenceDisposition)
    → GateIsValid g
    → g.current_receipt ≡ some r
    → HoldsReceipt g.config.binding g.next_operation_id r
    → binding_eq r.authority.binding g.config.binding ≡ true
    → Respects r answer
    → GateIsValid (native_replied g e answer).0
      × Moves (some r) (native_replied g e answer).0.current_receipt
native_replied_both g e r (keep d) v p k b t = (v, subst (Moves (some r)) (sym p) (Advances-refl r))
native_replied_both g e r (update r' d) v p k b (w, m) =
    let held = put-Holds g.config.binding g.next_operation_id r r' k b w m.same_authority in
    (ground arith, m)

native_both :
    (g : AuthorityGate) (e : NativeEvidence)
    → GateIsValid g
    → GateIsValid (observe_native g e).0
      × Moves g.current_receipt (observe_native g e).0.current_receipt
unfolding observe_native
native_both g e v = elim (matching-cases g.config e.authority g.current_receipt) [
  | inl n ↦ rw n (v, Moves-refl g.current_receipt)
  | inr (r, p, m, ok) ↦
      let held = subst (Holds g.config.binding g.next_operation_id) p v.operation in
      rw m (
        subst
          (λ o.
            GateIsValid (native_at g e (some r)).0
            × Moves o (native_at g e (some r)).0.current_receipt)
          (sym p)
          (native_replied_both g e r
            (native_reply g.config g.last_native_record g.last_native_kind e r) v p held
            (matched_live g.config r e.authority ok)
            (native_reply-Respects g.config g.last_native_record g.last_native_kind e r
              held.valid)))
]

pub observe_native-IsValid :
    (g : AuthorityGate) (e : NativeEvidence) → GateIsValid g → GateIsValid (observe_native g e).0
observe_native-IsValid g e v = (native_both g e v).0

pub observe_native-Moves :
    (g : AuthorityGate) (e : NativeEvidence)
    → GateIsValid g
    → Moves g.current_receipt (observe_native g e).0.current_receipt
observe_native-Moves g e v = (native_both g e v).1
