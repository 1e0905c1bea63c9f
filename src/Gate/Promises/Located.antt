-- ===== src/Gate/Promises/Located.antt =====
-- The operation that an authority names, before and after a history.
use robot_harness.Base.{
  true, ◌≡◌, inl, inr, Option, some, List, arith, ap, refl, subst, sym, ◌∙◌, none, Bool-cases,
  u64_max, ◌≤◌,
}
use mathlib.Core.Option.{some-injective}
use robot_harness.Gate.Types.{OperationAuthority}
use robot_harness.Gate.Receipt.{OperationReceipt, authority_matches}
use robot_harness.Gate.State.{
  AuthorityGate, AuthorityGateConfig, current, matching, matches_receipt, construct, Reply, update,
  replied, respond, reply,
}
use robot_harness.Gate.Calls.{Call, run}
use robot_harness.Gate.Validity.{Advances}
use robot_harness.Gate.Invariant.{GateIsValid, Evolves}
use robot_harness.Gate.Invariant.Bindings.{initial-IsValid}
use robot_harness.Gate.Invariant.Histories.{run-IsValid, run-Evolves}

-- The authority names the operation of the receipt that it finds.
pub current-operation_id :
    (g : AuthorityGate) (a : OperationAuthority) (r : OperationReceipt)
    → current g a ≡ some r
    → (g.current_receipt ≡ some r)
      × (r.authority.operation_id ≡ a.operation_id)
      × (matches_receipt g.config r a ≡ true)
unfolding matches_receipt authority_matches
current-operation_id g a r h = ground arith

-- A receipt that stands where an earlier one stood, with its number, is that one moved on.
pub later_Advances :
    (r r' : OperationReceipt)
    → Evolves (some r) (some r')
    → r'.authority.operation_id ≡ r.authority.operation_id
    → Advances r r'
later_Advances r r' (inl h) e = h
later_Advances r r' (inr h) e = absurd (omega (arith, h.0, e))

pub run-Advances :
    (g : AuthorityGate) (cs : List Call) (a : OperationAuthority) (r r' : OperationReceipt)
    → GateIsValid g
    → current g a ≡ some r
    → current (run g cs) a ≡ some r'
    → Advances r r'
run-Advances g cs a r r' v p q =
    let before = current-operation_id g a r p in
    let after = current-operation_id (run g cs) a r' q in
    later_Advances r r'
      (subst (λ o. Evolves o (some r')) before.0
        (subst (Evolves g.current_receipt) after.0 (run-Evolves g cs v)))
      (after.1 ∙ sym before.1)

-- Every gate that the constructor accepts, after any calls, is valid: its receipt agrees with the
-- events seen, its disposition is up to date, an operation of an earlier binding is released, the
-- candidate is of a later generation, and each `std::optional` that the code reads is there.
pub construct-run-IsValid :
    (c : AuthorityGateConfig) (g : AuthorityGate) (cs : List Call)
    → c.binding.provider_generation ≤ u64_max
    → construct c ≡ some g
    → GateIsValid (run g cs)
unfolding construct
construct-run-IsValid c g cs h p = run-IsValid g cs (ground (arith, initial-IsValid c h))

-- Where the authority matches, the answer is the handler's.
respond-matching :
    {D : Type 0} (c : AuthorityGateConfig) (a : OperationAuthority) (refused : D)
    (h : OperationReceipt → Reply D) (o : Option OperationReceipt) (r : OperationReceipt)
    → matching c a o ≡ some r
    → respond c a refused h o ≡ replied r (h r)
respond-matching c a refused h none r p = cc
respond-matching c a refused h (some r₀) r p = elim (Bool-cases (matches_receipt c r₀ a)) [
  | inl m ↦ rw m (ap (λ r. replied r (h r)) (some-injective r₀ r (rw m at p)))
  | inr m ↦ cc (rw m at p)
]

respond-unmatched :
    {D : Type 0} (c : AuthorityGateConfig) (a : OperationAuthority) (refused : D)
    (h : OperationReceipt → Reply D) (o : Option OperationReceipt)
    → matching c a o ≡ none
    → respond c a refused h o ≡ (o, refused)
respond-unmatched c a refused h none p = refl
respond-unmatched c a refused h (some r) p = elim (Bool-cases (matches_receipt c r a)) [
  | inl m ↦ cc (rw m at p)
  | inr m ↦ rw m
]

-- An authority that names no current operation is refused, and the gate is left as it was.
pub reply-unmatched :
    {D : Type 0} (a : OperationAuthority) (refused : D) (h : OperationReceipt → Reply D)
    (g : AuthorityGate)
    → current g a ≡ none
    → reply g a refused h ≡ (g, refused)
reply-unmatched {D} a refused h g p =
    ap (λ (t : Option OperationReceipt × D). (record g { current_receipt = t.0 }, t.1))
      (respond-unmatched g.config a refused h g.current_receipt p)

matches-same :
    (c : AuthorityGateConfig) (r r' : OperationReceipt) (a : OperationAuthority)
    → r'.authority ≡ r.authority
    → matches_receipt c r' a ≡ matches_receipt c r a
unfolding matches_receipt
matches-same c r r' a e = rw e

module _ {D : Type 0} (a : OperationAuthority) (refused : D) (h : OperationReceipt → Reply D)
    (g : AuthorityGate) (r : OperationReceipt) (p : current g a ≡ some r) where
  pub reply-answer : (reply g a refused h).1 ≡ (replied r (h r)).1
  reply-answer =
      ap (λ (t : Option OperationReceipt × D). t.1)
        (respond-matching g.config a refused h g.current_receipt r p)

  -- The receipt that a handler wrote is the one that its authority finds afterwards.
  pub reply-located :
      (r' : OperationReceipt) (d : D)
      → h r ≡ update r' d
      → r'.authority ≡ r.authority
      → current (reply g a refused h).0 a ≡ some r'
  reply-located r' d e s =
      let placed : (reply g a refused h).0.current_receipt ≡ some r' =
        ap (λ (t : Option OperationReceipt × D). t.0)
          (respond-matching g.config a refused h g.current_receipt r p)
        ∙ ap (λ x. (replied r x).0) e in
      let matched = matches-same g.config r r' a s ∙ (current-operation_id g a r p).2 in
      subst (λ o. matching g.config a o ≡ some r') (sym placed) (rw matched)

  -- The gate and the answer after a handler whose authority matched.
  pub reply-matched :
      reply g a refused h
      ≡ (record g { current_receipt = (replied r (h r)).0 }, (replied r (h r)).1)
  reply-matched =
      ap (λ (t : Option OperationReceipt × D). (record g { current_receipt = t.0 }, t.1))
        (respond-matching g.config a refused h g.current_receipt r p)
