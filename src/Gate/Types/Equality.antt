-- ===== src/Gate/Types/Equality.antt =====
-- `operator==` of BindingIdentity is equality.
use robot_harness.Base.{true, ◌≡◌, ◌↔◌, arith, str_eq_iff}
use robot_harness.Gate.Types.{BindingIdentity, binding_eq}

-- Two bindings compare equal exactly where they are equal, field by field.
pub binding_eq_iff : (a b : BindingIdentity) → (binding_eq a b ≡ true) ↔ (a ≡ b)
unfolding binding_eq
binding_eq_iff a b = (
  λ h.
      ground
        (arith, str_eq_iff a.provider_id b.provider_id, str_eq_iff a.effect_domain b.effect_domain),
  λ h.
      ground
        (arith, str_eq_iff a.provider_id b.provider_id, str_eq_iff a.effect_domain b.effect_domain),
)
