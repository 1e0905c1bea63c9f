-- ===== src/Compute/Process/Ending.antt =====
-- What the destructor of a process does.
use robot_harness.Base.{
  ℕ, ◌≡◌, false, not, Option, none, some, ◌+◌, has_value, arith, refl, ◌∙◌, if◌then◌else◌,
  Bool-cases, inl, inr,
}
use robot_harness.Integer.{ℤ}
use robot_harness.Compute.Process.{Process}
use robot_harness.Compute.Process.Cleanup.{
  closed_by, cleanup_control, cleanup_event, cleanup_channels, on_reap, on_last_kill, destroy,
  is_no_process,
}
use robot_harness.Compute.Process.Signals.{Rests, resting, Rests-trans, Rests-if}

-- The signals that the destructor sends.
abbrev pub last_kills : Process → ℕ
last_kills p = if p.observed.ownership_lost then 0 else (if has_value p.owned_pid then 1 else 0)

closed_by-Rests : (o : Option ℤ) (p : Process) → Rests p (closed_by o p)
closed_by-Rests none p = resting p
closed_by-Rests (some e) p = record {
  same_kills = refl;
  same_attempt = refl;
  same_launch = refl;
  same_child = refl;
}

cleanup_control-Rests : (p : Process) → Rests p (cleanup_control p)
unfolding cleanup_control
cleanup_control-Rests p =
    let closing = record p { has_control = false; closes = p.closes + 1 } in
    Rests-if (not p.has_control) p _ _ (resting p) (
      Rests-trans p closing _
        (record { same_kills = refl; same_attempt = refl; same_launch = refl; same_child = refl })
        (closed_by-Rests (p.system.close p.closes) closing))

cleanup_event-Rests : (p : Process) → Rests p (cleanup_event p)
unfolding cleanup_event
cleanup_event-Rests p =
    let closing = record p { has_event = false; closes = p.closes + 1 } in
    Rests-if (not p.has_event) p _ _ (resting p) (
      Rests-trans p closing _
        (record { same_kills = refl; same_attempt = refl; same_launch = refl; same_child = refl })
        (closed_by-Rests (p.system.close p.closes) closing))

cleanup_channels-Rests : (p : Process) → Rests p (cleanup_channels p).0
unfolding cleanup_channels
cleanup_channels-Rests p =
    Rests-trans p (cleanup_control p) _ (cleanup_control-Rests p)
      (cleanup_event-Rests (cleanup_control p))

on_reap-kills : (p : Process) (o : Option ℤ) → (on_reap p o).0.kills ≡ p.kills
unfolding on_reap
on_reap-kills p none = refl
on_reap-kills p (some s) = (cleanup_channels-Rests _).same_kills

on_last_kill-kills : (p : Process) (o : Option ℤ) → (on_last_kill p o).0.kills ≡ p.kills
unfolding on_last_kill
on_last_kill-kills p none = on_reap-kills p p.system.reap
on_last_kill-kills p (some e) = elim (Bool-cases (is_no_process e)) [
  | inl q ↦ rw q (on_reap-kills p p.system.reap)
  | inr q ↦ rw q refl
]

pub destroy-kills : (p : Process) → (destroy p).0.kills ≡ p.kills + last_kills p
unfolding destroy
destroy-kills p = elim (Bool-cases p.observed.ownership_lost) [
  | inl l ↦ simp l (omega arith)
  | inr l ↦ elim (Bool-cases (has_value p.owned_pid)) [
    | inl o ↦
        simp (l, o) (on_last_kill-kills (record p { kills = p.kills + 1 }) (p.system.kill p.kills))
    | inr o ↦ simp (l, o) ((cleanup_channels-Rests p).same_kills ∙ omega arith)
  ]
]

pub no_last_kills : (p : Process) → p.owned_pid ≡ none → last_kills p ≡ 0
no_last_kills p n = ground arith

-- No child is owned, and both channels are closed, with a known outcome.
abbrev pub IsReleased : Process → Type 0
IsReleased p =
    (p.owned_pid ≡ none)
    × (p.has_control ≡ false)
    × (p.has_event ≡ false)
    × (p.channel_cleanup_unknown ≡ false)
