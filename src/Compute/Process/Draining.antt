-- ===== src/Compute/Process/Draining.antt =====
-- The loop of drain_events ends within its rounds.
use robot_harness.Base.{
  ℕ, zero, suc, ◌≡◌, ◌≤◌, ◌<◌, Bool, true, false, ◌||◌, ◌+◌, ◌-◌, ◌*◌, ◌==◌, ltb, arith, refl, inl,
  inr, Bool-cases, if◌then◌else◌,
}
use robot_harness.Compute.Types.{is_zero}
use robot_harness.Compute.Worker.{Frame}
use robot_harness.Compute.Process.{EventRead, Process, consume, is_ill_formed, is_misplaced}
use robot_harness.Compute.Process.Polling.{
  drain, on_event, take_frame, buffered_after, frame_size, least, count_read,
}

same_bytes :
    (b : Bool) (p q r : Process)
    → q.buffered_frame_bytes ≡ p.buffered_frame_bytes
    → r.buffered_frame_bytes ≡ p.buffered_frame_bytes
    → (if b then q else r).buffered_frame_bytes ≡ p.buffered_frame_bytes
same_bytes true p q r h k = h
same_bytes false p q r h k = k

consume-bytes :
    (f : Frame) (p : Process) → (consume f p).buffered_frame_bytes ≡ p.buffered_frame_bytes
unfolding consume
consume-bytes f p =
    same_bytes p.observed.malformed p _ _ refl
      (same_bytes (is_ill_formed f p || is_misplaced f.kind f p) p _ _ refl refl)

no_more : (k n : ℕ) (p : Process) → 128 ≤ n → drain k n p ≡ p
unfolding drain
no_more zero n p h = refl
no_more (suc k) n p h = let e : ltb n 128 ≡ false = ground (arith, h) in rw e

filled : (b m : ℕ) → b < 32 → b < b + least (m + 1) (32 - b)
filled b m h = ground (arith, h)

within_frame :
    (b m : ℕ)
    → b < 32
    → (b + least (m + 1) (32 - b) == 32) ≡ false
    → b + least (m + 1) (32 - b) < 32
within_frame b m h e = ground (arith, h)

-- The two loops do the same, and keep less than a frame.
abbrev Agree : Process → Process → Type 0
Agree p q = (p ≡ q) × (q.buffered_frame_bytes < 32)

on_event-Agree :
    (next next' : ℕ → Process → Process) (fuel n : ℕ) (p : Process) (e : EventRead)
    → p.buffered_frame_bytes < 32
    → 32 * (128 - n) ≤ suc fuel + p.buffered_frame_bytes
    → ((m : ℕ) (q : Process)
        → q.buffered_frame_bytes < 32
        → 32 * (128 - m) ≤ fuel + q.buffered_frame_bytes
        → Agree (next' m q) (next m q))
    → Agree (on_event next' n p e) (on_event next n p e)
unfolding on_event
on_event-Agree next next' fuel n p (EventRead.bytes m) b h k =
    elim (Bool-cases (buffered_after m p == frame_size)) [
      | inl e ↦
          let z : (take_frame p).buffered_frame_bytes ≡ 0 =
            consume-bytes (p.system.frame p.frames) _ in
          rw e (k (n + 1) (take_frame p) (omega (arith, z)) (omega (arith, z, h, b)))
      | inr e ↦
          let more = filled p.buffered_frame_bytes m b in
          rw e (
            k n (record p { reads = p.reads + 1; buffered_frame_bytes = buffered_after m p })
              (within_frame p.buffered_frame_bytes m b e) (omega (arith, h, more)))
    ]
on_event-Agree next next' fuel n p EventRead.end_of_events b h k = (refl, b)
on_event-Agree next next' fuel n p EventRead.try_again b h k = (refl, b)
on_event-Agree next next' fuel n p (EventRead.read_failed e) b h k =
    (refl, omega (arith, b, same_bytes (is_zero p.observed.io_error) p _ (count_read p) refl refl))

drain-Agree :
    (fuel more n : ℕ) (p : Process)
    → fuel ≤ more
    → p.buffered_frame_bytes < 32
    → 32 * (128 - n) ≤ fuel + p.buffered_frame_bytes
    → Agree (drain more n p) (drain fuel n p)
unfolding drain
drain-Agree zero more n p l b h = (no_more more n p (omega (arith, b, h)), b)
drain-Agree (suc fuel) zero n p l b h = absurd (omega (arith, l))
drain-Agree (suc fuel) (suc more) n p l b h = elim (Bool-cases (ltb n 128)) [
  | inl e ↦ rw e (
      on_event-Agree (drain fuel) (drain more) fuel n p (p.system.read p.reads) b h
        λ m q. drain-Agree fuel more m q (omega (arith, l)))
  | inr e ↦ rw e (refl, b)
]

-- Whatever the reads give, the loop of drain_events is over after the 4096 rounds of 128 frames of 32
-- bytes, for a buffer that holds less than a frame: more rounds change nothing, and the buffer holds
-- less than a frame again.
pub drain-enough :
    (p : Process) (rounds : ℕ)
    → p.buffered_frame_bytes < 32
    → 4096 ≤ rounds
    → (drain rounds 0 p ≡ drain 4096 0 p) × ((drain 4096 0 p).buffered_frame_bytes < 32)
drain-enough p rounds b l = drain-Agree 4096 rounds 0 p l b (omega arith)
