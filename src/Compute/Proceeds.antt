-- ===== src/Compute/Proceeds.antt =====
-- How an action of the compute host moves it on: the gate by calls of its functions only, and the
-- result to one that the gate permits and whose sum is the expected one.
pub mod Control
pub mod Finish
pub mod Rebind
pub mod Commands
use robot_harness.Base.{
  ◌≡◌, ◌⊎◌, inl, inr, true, false, Bool, Option, none, some, List, [], ◌∷◌, ◌++◌, refl, ℕ, String,
  arith, sym, subst, ap, ◌∙◌,
}
use robot_harness.Action.{Action, modify}
use robot_harness.Action.Rules.{IsPreorder, Relates, Relates-modify, relates_rules}
use robot_harness.Gate.Types.{EvidenceDisposition}
use robot_harness.Gate.State.{AuthorityGate}
use robot_harness.Gate.Calls.{Call, apply, run}
use robot_harness.Gate.Promises.Delivery.{IsPermitted, run-append, run-IsPermitted}
use robot_harness.Compute.Types.{ComputeResult, expected_sum}
use robot_harness.Compute.Host.{ComputeHost, now, can_launch, call, record_of, accept}

-- The sum is the expected one.
abbrev pub IsExact : ComputeResult → Type 0
IsExact r = r.sum ≡ expected_sum r.iterations

-- The result is the old one, none, or an exact one that the gate permits at some time after.
abbrev pub Yields : AuthorityGate → Option ComputeResult → Option ComputeResult → Type 0
Yields g old none = Unit {0}
Yields g old (some r) = (old ≡ some r) ⊎ (IsPermitted g r.operation_id × IsExact r)

pub record Proceeds {X : Type 0} (s t : ComputeHost X) : Type 0 where
  pub calls : List Call
  pub driven : t.gate ≡ run s.gate calls
  pub yields : Yields s.gate s.result t.result

pub Yields-refl : (g : AuthorityGate) (o : Option ComputeResult) → Yields g o o
Yields-refl g none = tt
Yields-refl g (some r) = inl refl

Yields-trans :
    (g : AuthorityGate) (cs : List Call) (o p q : Option ComputeResult)
    → Yields g o p
    → Yields (run g cs) p q
    → Yields g o q
Yields-trans g cs o p none h k = tt
Yields-trans g cs o p (some r) h (inl e) = subst (Yields g o) e h
Yields-trans g cs o p (some r) h (inr k) = inr (run-IsPermitted g cs r.operation_id k.0, k.1)

module _ {X : Type 0} where
  pub Proceeds-IsPreorder : IsPreorder {S = ComputeHost X} Proceeds
  unfolding run
  Proceeds-IsPreorder = record {
    reflexive = λ s. record { calls = []; driven = refl; yields = Yields-refl s.gate s.result };
    transitive = λ s t u h k. record {
      calls = h.calls ++ k.calls;
      driven = cc (run-append s.gate h.calls k.calls, h.driven, k.driven);
      yields =
          Yields-trans s.gate h.calls s.result t.result u.result h.yields
            (subst (λ g. Yields g t.result u.result) h.driven k.yields);
    };
  }

  -- A change that leaves the gate alone, and the result or drops it.
  pub modify-Proceeds :
      (f : ComputeHost X → ComputeHost X)
      → ((s : ComputeHost X) → (f s).gate ≡ s.gate)
      → ((s : ComputeHost X) → Yields s.gate s.result (f s).result)
      → Relates Proceeds (modify f)
  unfolding run
  modify-Proceeds f g y = Relates-modify f λ s. record { calls = []; driven = g s; yields = y s }

  pub quiet_modify-Proceeds :
      (f : ComputeHost X → ComputeHost X)
      → ((s : ComputeHost X) → (f s).gate ≡ s.gate)
      → ((s : ComputeHost X) → (f s).result ≡ s.result)
      → Relates Proceeds (modify f)
  quiet_modify-Proceeds f g r =
      modify-Proceeds f g
        λ s. subst (Yields s.gate s.result) (sym (r s)) (Yields-refl s.gate s.result)

  pub call-Proceeds : (c : Call) → Relates {S = ComputeHost X} Proceeds (call c)
  unfolding call run
  call-Proceeds c = record {
    at = λ s. record { calls = c ∷ []; driven = refl; yields = Yields-refl s.gate s.result };
  }

  pub now-Proceeds : Relates {S = ComputeHost X} Proceeds now
  unfolding now run
  now-Proceeds = record {
    at = λ s. record { calls = []; driven = refl; yields = Yields-refl s.gate s.result };
  }

  pub can_launch-Proceeds : (e : String) → Relates {S = ComputeHost X} Proceeds (can_launch e)
  unfolding can_launch run
  can_launch-Proceeds e = record {
    at = λ s. record { calls = []; driven = refl; yields = Yields-refl s.gate s.result };
  }

  pub record_of-Proceeds :
      (source : String) (t : ℕ) → Relates {S = ComputeHost X} Proceeds (record_of source t)
  unfolding record_of
  record_of-Proceeds source t = search (relates_rules, Proceeds-IsPreorder, quiet_modify-Proceeds)

  pub accept-Proceeds : (d : EvidenceDisposition) → Relates {S = ComputeHost X} Proceeds (accept d)
  unfolding accept
  accept-Proceeds d = search (relates_rules, Proceeds-IsPreorder, quiet_modify-Proceeds)

pub ruleset proceeds_rules = (
  relates_rules, Proceeds-IsPreorder, quiet_modify-Proceeds, call-Proceeds, now-Proceeds,
  can_launch-Proceeds, record_of-Proceeds, accept-Proceeds,
)
