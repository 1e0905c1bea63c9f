-- ===== src/Navigation/Closure/Promises.antt =====
-- What the closure observations establish, and that they do not take it back.
use robot_harness.Base.{
  ℕ, String, Bool, true, false, Option, none, some, List, [], ◌∷◌, ◌≡◌, ◌⊎◌, arith, refl, sym, ap,
  ◌∙◌, Bool-cases, Option-cases, inl, inr, ltb, str_eq_iff,
}
use robot_harness.HexText.{is_identifier}
use robot_harness.Integer.{ℤ, pos, int_ltb}
use robot_harness.Navigation.Closure.{
  JsonLibrary, Child, ClosureObservations, observations, reject, bind_parent, name_child,
  workers_closed, drive_closed, closed, put_stamp, reject_drive, is_acknowledged,
}
use robot_harness.Navigation.Closure.Events.{
  Notice, parent_notice, child_notice, bt_notice, drive_notice, rejection, parsed, is_child_event,
  text_field, identity_field, observe_child, observe_bt, observe_drive, is_earlier, is_drive_event,
  applied_stamp, take_notice, take_notices,
}
use robot_harness.Navigation.Closure.Validity.{
  ChildIsNamed, IsSound, Keeps, Keeps-refl, Keeps-trans, put_stamp-Keeps, bind_parent-Keeps,
  name_child-Keeps, put_stamp-IsSound, reject-IsSound, name_child-IsSound,
}

abbrev child_of : Option String → Option String → Child
child_of link ack = record { link = link; ack = ack }

named_pair :
    (link ack : Option String)
    → let c : Child = record { link = link; ack = ack } in
      is_acknowledged c ≡ true
      → ChildIsNamed c
      → (id : String) × (c ≡ record { link = some id; ack = some id }) × (is_identifier id ≡ true)
named_pair none ack k v = ground arith
named_pair (some l) none k v = ground arith
named_pair (some l) (some a) k v = (
  l,
  ap (λ (x : String). child_of (some l) (some x)) (sym ((str_eq_iff l a).0 k)),
  v.link_formed l refl,
)

pub observations-IsSound :
    (scope : String) (generation : ℕ) (s : ClosureObservations)
    → observations scope generation ≡ some s
    → IsSound s × (s.scope ≡ scope)
unfolding observations
observations-IsSound scope generation s o = ground arith

module _ {J : Type 0} (json : JsonLibrary J) where
  observe_child-cases :
      (s : ClosureObservations) (index : ℕ) (b : Bool) (wire : String)
      → ((observe_child json s index b wire).0 ≡ reject s)
        ⊎ ((id : Option String) × ((observe_child json s index b wire).0
              ≡ (name_child s index b id).0))
  unfolding observe_child
  observe_child-cases s index b wire = elim (Bool-cases (ltb index 2)) [
    | inl k ↦ elim (Option-cases (parsed json wire)) [
      | inl n ↦ inl (rw (k, n, observe_child) refl)
      | inr (e, n) ↦ elim (Bool-cases (is_child_event json s index b e)) [
        | inl m ↦ inr (text_field json e (identity_field b), rw (k, n, m, observe_child) refl)
        | inr m ↦ inl (rw (k, n, m, observe_child) refl)
      ]
    ]
    | inr k ↦ inl (rw (k, observe_child) refl)
  ]

  observe_drive-cases :
      (s : ClosureObservations) (wire : String) (requested received : ℤ)
      → let s' = (observe_drive json s wire requested received).0 in
        (s' ≡ reject_drive s) ⊎ (s' ≡ s) ⊎ ((stamp : ℤ) × (s' ≡ (put_stamp s stamp).0))
  unfolding observe_drive
  observe_drive-cases s wire requested received = elim (Option-cases (parsed json wire)) [
    | inl n ↦ inl (rw (n, observe_drive) refl)
    | inr (e, n) ↦ elim (Option-cases (is_earlier json s e)) [
      | inl k ↦ inl (rw (n, k, observe_drive) refl)
      | inr (true, k) ↦ inr (inl (rw (n, k, observe_drive) refl))
      | inr (false, k) ↦ elim (Bool-cases (is_drive_event json s e requested received)) [
        | inl m ↦ elim (Option-cases (applied_stamp json e)) [
          | inl a ↦ inl (rw (n, k, m, a, observe_drive) refl)
          | inr (stamp, a) ↦ inr (inr (stamp, rw (n, k, m, a, observe_drive) refl))
        ]
        | inr m ↦ inl (rw (n, k, m, observe_drive) refl)
      ]
    ]
  ]

  observe_bt-Keeps :
      (s : ClosureObservations) (wire : String) (requested received : ℤ)
      → Keeps s (observe_bt json s wire requested received).0
  unfolding observe_bt
  observe_bt-Keeps s wire requested received = ground arith

  observe_bt-IsSound :
      (s : ClosureObservations) (wire : String) (requested received : ℤ)
      → IsSound s
      → IsSound (observe_bt json s wire requested received).0
  unfolding observe_bt workers_closed
  observe_bt-IsSound s wire requested received v = ground arith

  reject-Keeps : (s : ClosureObservations) → Keeps s (reject s)
  reject-Keeps s = ground arith

  reject_drive-Keeps : (s : ClosureObservations) → Keeps s (reject_drive s)
  reject_drive-Keeps s = ground arith

  reject_drive-IsSound : (s : ClosureObservations) → IsSound s → IsSound (reject_drive s)
  reject_drive-IsSound s v = ground arith

  bind_parent-IsSound :
      (s : ClosureObservations) (p : String) → IsSound s → IsSound (bind_parent s p).0
  unfolding bind_parent
  bind_parent-IsSound s p v = ground arith

  take_notice_both :
      (s : ClosureObservations) (n : Notice)
      → IsSound s
      → Keeps s (take_notice json s n) × IsSound (take_notice json s n)
  unfolding take_notice
  take_notice_both s (parent_notice p) v = (bind_parent-Keeps s p, bind_parent-IsSound s p v)
  take_notice_both s (child_notice index b wire) v = elim (observe_child-cases s index b wire) [
    | inl e ↦ rw e (reject-Keeps s, reject-IsSound s v)
    | inr (id, e) ↦ rw e (name_child-Keeps s index b id, name_child-IsSound s index b id v)
  ]
  take_notice_both s (bt_notice wire requested received) v =
      (observe_bt-Keeps s wire requested received, observe_bt-IsSound s wire requested received v)
  take_notice_both s (drive_notice wire requested received) v =
      elim (observe_drive-cases s wire requested received) [
        | inl e ↦ rw e (reject_drive-Keeps s, reject_drive-IsSound s v)
        | inr (inl e) ↦ rw e (Keeps-refl s, v)
        | inr (inr (stamp, e)) ↦ rw e (put_stamp-Keeps s stamp, put_stamp-IsSound s stamp v)
      ]
  take_notice_both s rejection v = (reject-Keeps s, reject-IsSound s v)

  pub take_notices_both :
      (s : ClosureObservations) (ns : List Notice)
      → IsSound s
      → Keeps s (take_notices json s ns) × IsSound (take_notices json s ns)
  unfolding take_notices
  take_notices_both s [] v = (Keeps-refl s, v)
  take_notices_both s (n ∷ ns) v =
      let (kept, sound) = take_notice_both s n v in
      let rest = take_notices_both (take_notice json s n) ns sound in
      (Keeps-trans s (take_notice json s n) (take_notices json s (n ∷ ns)) kept rest.0, rest.1)

  -- Once the closure is established, no notice that follows changes the parent's or a child's
  -- identity or the drive's stamp, and it stays established unless an observation is rejected.
  pub closed-take_notices :
      (s : ClosureObservations) (ns : List Notice)
      → IsSound s
      → closed s ≡ true
      → let s' = take_notices json s ns in
        (s'.parent ≡ s.parent)
        × (s'.path_child ≡ s.path_child)
        × (s'.follow_child ≡ s.follow_child)
        × (s'.drive_stamp_ns ≡ s.drive_stamp_ns)
        × ((closed s' ≡ true) ⊎ (s'.rejected ≡ true))
  unfolding closed workers_closed drive_closed
  closed-take_notices s ns v c = ground (arith, take_notices_both s ns v)

  -- A rejected observation establishes no closure, whatever notices follow.
  pub rejected-take_notices :
      (s : ClosureObservations) (ns : List Notice)
      → IsSound s
      → s.rejected ≡ true
      → closed (take_notices json s ns) ≡ false
  unfolding closed workers_closed
  rejected-take_notices s ns v r = ground (arith, (take_notices_both s ns v).0.keeps_rejection r)

  -- From the constructor on, a closure that is established names a well-formed identity for each
  -- child that its link and its worker's acknowledgement agree on, and the drive's update is later
  -- than 0.
  pub closed-IsNamed :
      (scope : String) (generation : ℕ) (s : ClosureObservations) (ns : List Notice)
      → observations scope generation ≡ some s
      → let s' = take_notices json s ns in
        closed s' ≡ true
        → ((id : String) × (s'.path_child ≡ record { link = some id; ack = some id })
            × (is_identifier id ≡ true))
          × ((id : String) × (s'.follow_child ≡ record { link = some id; ack = some id })
              × (is_identifier id ≡ true))
          × (int_ltb (pos 0) s'.drive_stamp_ns ≡ true)
          × (s'.scope ≡ scope)
  unfolding closed workers_closed drive_closed
  closed-IsNamed scope generation s ns o c =
      let s' = take_notices json s ns in
      let start = observations-IsSound scope generation s o in
      let (kept, sound) = take_notices_both s ns start.0 in
      (
        named_pair s'.path_child.link s'.path_child.ack (ground arith) sound.path_named,
        named_pair s'.follow_child.link s'.follow_child.ack (ground arith) sound.follow_named,
        ground arith,
        kept.same_scope ∙ start.1,
      )
