-- ===== src/Navigation/Closure/Validity.antt =====
-- What holds of the closure observations, and what one step keeps.
use robot_harness.Base.{
  ℕ, String, Bool, true, false, Option, none, some, ◌≡◌, arith, refl, is_empty, has_value,
  str_eq_iff, ap, sym, subst, value_or, ◌&&◌, ◌==◌, if◌then◌else◌, Bool-cases, inl, inr,
}
use robot_harness.HexText.{is_identifier}
use robot_harness.Integer.{ℤ, pos, negsuc, int_ltb, int_eq}
use robot_harness.Navigation.Closure.{
  Child, ClosureObservations, reject, bind_parent, put_child, name_child, put_stamp,
  is_acknowledged, is_consistent, child_at, with_child, is_unless_known,
}

-- What is known of a child: its two identities are well formed.
pub record ChildIsNamed (c : Child) : Type 0 where
  pub link_formed : (id : String) → c.link ≡ some id → is_identifier id ≡ true
  pub ack_formed : (id : String) → c.ack ≡ some id → is_identifier id ≡ true

-- What holds of the observations between notices.
pub record IsSound (s : ClosureObservations) : Type 0 where
  pub path_named : ChildIsNamed s.path_child
  pub follow_named : ChildIsNamed s.follow_child
  pub bt_after_workers :
      s.bt_closed ≡ true
      → (is_acknowledged s.path_child ≡ true) × (is_acknowledged s.follow_child ≡ true)
  pub drive_doubt : s.drive_rejected ≡ true → s.rejected ≡ true

-- What a notice may do: an identity, once known, and a stamp, once applied, stay as they are, and
-- what is closed or rejected stays so.
pub record Keeps (s s' : ClosureObservations) : Type 0 where
  pub same_scope : s'.scope ≡ s.scope
  pub same_generation : s'.generation ≡ s.generation
  pub keeps_parent : is_empty s.parent ≡ false → s'.parent ≡ s.parent
  pub keeps_path_link : has_value s.path_child.link ≡ true → s'.path_child.link ≡ s.path_child.link
  pub keeps_path_ack : has_value s.path_child.ack ≡ true → s'.path_child.ack ≡ s.path_child.ack
  pub keeps_follow_link :
      has_value s.follow_child.link ≡ true → s'.follow_child.link ≡ s.follow_child.link
  pub keeps_follow_ack :
      has_value s.follow_child.ack ≡ true → s'.follow_child.ack ≡ s.follow_child.ack
  pub keeps_bt : s.bt_closed ≡ true → s'.bt_closed ≡ true
  pub keeps_stamp : int_ltb (pos 0) s.drive_stamp_ns ≡ true → s'.drive_stamp_ns ≡ s.drive_stamp_ns
  pub keeps_rejection : s.rejected ≡ true → s'.rejected ≡ true

pub Keeps-refl : (s : ClosureObservations) → Keeps s s
Keeps-refl s = ground arith

pub Keeps-trans : (s t u : ClosureObservations) → Keeps s t → Keeps t u → Keeps s u
Keeps-trans s t u k l = ground arith

int_eq-pos : (a b : ℤ) → int_ltb (pos 0) a ≡ true → int_eq a b ≡ true → a ≡ b
unfolding int_ltb int_eq
int_eq-pos (pos a) (pos b) p e = ground arith
int_eq-pos (pos a) (negsuc b) p e = ground arith
int_eq-pos (negsuc a) b p e = ground arith

positive-ne-zero : (a : ℤ) → int_ltb (pos 0) a ≡ true → int_eq a (pos 0) ≡ false
unfolding int_ltb int_eq
positive-ne-zero (pos a) p = ground arith
positive-ne-zero (negsuc a) p = ground arith

pub put_stamp-Keeps : (s : ClosureObservations) (stamp : ℤ) → Keeps s (put_stamp s stamp).0
unfolding put_stamp
put_stamp-Keeps s stamp =
    ground (arith, int_eq-pos s.drive_stamp_ns stamp, positive-ne-zero s.drive_stamp_ns)

pub bind_parent-Keeps : (s : ClosureObservations) (p : String) → Keeps s (bind_parent s p).0
unfolding bind_parent
bind_parent-Keeps s p = ground (arith, str_eq_iff s.parent p)

known_same :
    (o : Option String) (id : String)
    → is_unless_known o id ≡ true
    → has_value o ≡ true
    → some id ≡ o
known_same none id k h = ground arith
known_same (some known) id k h = ap some (sym ((str_eq_iff known id).0 k))

pub name_child-Keeps :
    (s : ClosureObservations) (index : ℕ) (b : Bool) (id : Option String)
    → Keeps s (name_child s index b id).0
unfolding name_child put_child
name_child-Keeps s index b none = ground arith
name_child-Keeps s index true (some id) = ground (arith, known_same (child_at s index).ack id)
name_child-Keeps s index false (some id) = ground (arith, known_same (child_at s index).link id)

pub put_stamp-IsSound :
    (s : ClosureObservations) (stamp : ℤ) → IsSound s → IsSound (put_stamp s stamp).0
unfolding put_stamp
put_stamp-IsSound s stamp v = ground arith

-- A child that may be put in place of one of the observations.
abbrev Fits : ClosureObservations → Child → Type 0
Fits s c = ChildIsNamed c × (s.bt_closed ≡ true → is_acknowledged c ≡ true)

child_at-Fits : (s : ClosureObservations) (index : ℕ) → IsSound s → Fits s (child_at s index)
child_at-Fits s index v = elim (Bool-cases (index == 0)) [
  | inl e ↦ rw (e, child_at) (v.path_named, λ t. (v.bt_after_workers t).0)
  | inr e ↦ rw (e, child_at) (v.follow_named, λ t. (v.bt_after_workers t).1)
]

pub reject-IsSound : (s : ClosureObservations) → IsSound s → IsSound (reject s)
reject-IsSound s v = ground arith

with_child-IsSound :
    (s : ClosureObservations) (index : ℕ) (c : Child)
    → Fits s c
    → IsSound s
    → IsSound (with_child s index c)
with_child-IsSound s index c f v = elim (Bool-cases (index == 0)) [
  | inl e ↦
      rw (e, with_child)
        record {
          path_named = f.0;
          follow_named = v.follow_named;
          bt_after_workers = λ t. (f.1 t, (v.bt_after_workers t).1);
          drive_doubt = v.drive_doubt;
        }
  | inr e ↦
      rw (e, with_child)
        record {
          path_named = v.path_named;
          follow_named = f.0;
          bt_after_workers = λ t. ((v.bt_after_workers t).0, f.1 t);
          drive_doubt = v.drive_doubt;
        }
]

put_child-IsSound :
    (s : ClosureObservations) (index : ℕ) (c : Child) (b : Bool)
    → (b ≡ true → Fits s c)
    → IsSound s
    → IsSound (if b then put_child s index c else (reject s, false)).0
unfolding put_child
put_child-IsSound s index c false f v = reject-IsSound s v
put_child-IsSound s index c true f v =
    let placed = with_child-IsSound s index c (f refl) v in
    elim (Bool-cases (is_consistent c.link c.ack)) [
      | inl e ↦ rw (e, put_child) placed
      | inr e ↦ rw (e, put_child) (reject-IsSound (with_child s index c) placed)
    ]

both_true : (a b : Bool) → (a && b) ≡ true → (a ≡ true) × (b ≡ true)
both_true a b e = ground arith

same_text : (a b : String) → is_identifier a ≡ true → some a ≡ some b → is_identifier b ≡ true
same_text a b k e = subst (λ (o : Option String). is_identifier (value_or a o) ≡ true) e k

ack_again :
    (c : Child) (id : String)
    → is_unless_known c.ack id ≡ true
    → is_acknowledged c ≡ true
    → is_acknowledged (record c { ack = some id }) ≡ true
ack_again c id k a = ground (arith, known_same c.ack id)

link_again :
    (c : Child) (id : String)
    → is_unless_known c.link id ≡ true
    → is_acknowledged c ≡ true
    → is_acknowledged (record c { link = some id }) ≡ true
link_again c id k a = ground (arith, known_same c.link id)

pub name_child-IsSound :
    (s : ClosureObservations) (index : ℕ) (b : Bool) (id : Option String)
    → IsSound s
    → IsSound (name_child s index b id).0
unfolding name_child
name_child-IsSound s index b none v = reject-IsSound s v
name_child-IsSound s index true (some id) v =
    let c = child_at s index in
    let known = child_at-Fits s index v in
    put_child-IsSound s index (record c { ack = some id })
      (is_identifier id && is_unless_known c.ack id)
      (λ ok.
        let checked = both_true (is_identifier id) (is_unless_known c.ack id) ok in
        (
          record {
            link_formed = known.0.link_formed;
            ack_formed = λ i e. same_text id i checked.0 e;
          },
          λ t. ack_again c id checked.1 (known.1 t),
        ))
      v
name_child-IsSound s index false (some id) v =
    let c = child_at s index in
    let known = child_at-Fits s index v in
    put_child-IsSound s index (record c { link = some id })
      (is_identifier id && is_unless_known c.link id)
      (λ ok.
        let checked = both_true (is_identifier id) (is_unless_known c.link id) ok in
        (
          record {
            link_formed = λ i e. same_text id i checked.0 e;
            ack_formed = known.0.ack_formed;
          },
          λ t. link_again c id checked.1 (known.1 t),
        ))
      v
