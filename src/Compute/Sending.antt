-- ===== src/Compute/Sending.antt =====
-- send_frame of src/compute/compute_worker.cpp, with what the system calls answer as a parameter.
use robot_harness.Base.{
  ℕ, zero, suc, ◌≡◌, ◌≢◌, ◌≤◌, Bool, true, false, not, Option, none, some, ◌+◌, leb, arith,
  if◌then◌else◌, inl, inr, Bool-cases, ap,
}
use robot_harness.Compute.Worker.{SendResult}

-- What `write` gave: the whole frame, a part of it, EINTR, EAGAIN or EWOULDBLOCK, or another error.
pub data WriteResult : Type 0 where
  whole part interrupted would_block write_failed : WriteResult

-- The k-th write, the k-th reading of the clock in milliseconds, and whether the k-th poll fails other
-- than by EINTR.
pub record Pipe : Type 0 where
  pub write : ℕ → WriteResult
  pub clock : ℕ → ℕ
  pub poll_fails : ℕ → Bool

-- `kRequiredFrameDeadline`.
abbrev pub required_frame_deadline : ℕ
required_frame_deadline = 1000

-- A round of the loop, the clock having been read `readings` times and `polls` polls made; `next` is
-- the rounds after it, and `none` is out of fuel.
unfoldable pub on_write :
    Pipe → Bool → ℕ → (ℕ → ℕ → Option SendResult) → ℕ → ℕ → WriteResult → Option SendResult
on_write c required deadline next readings polls WriteResult.whole = some SendResult.sent
on_write c required deadline next readings polls WriteResult.part = some SendResult.failed
on_write c required deadline next readings polls WriteResult.write_failed = some SendResult.failed
on_write c required deadline next readings polls WriteResult.interrupted =
    if not required
    then some SendResult.dropped
    else if leb deadline (c.clock readings)
    then some SendResult.failed
    else next (readings + 1) polls
on_write c required deadline next readings polls WriteResult.would_block =
    if not required
    then some SendResult.dropped
    else if leb deadline (c.clock readings)
    then some SendResult.failed
    else if c.poll_fails polls
    then some SendResult.failed
    else next (readings + 1) (polls + 1)

-- The loop; a write is made for each reading of the clock after the first.
unfoldable pub write_rounds : Pipe → Bool → ℕ → ℕ → ℕ → ℕ → Option SendResult
write_rounds c required deadline zero readings polls = none
write_rounds c required deadline (suc fuel) readings polls =
    on_write c required deadline (write_rounds c required deadline fuel) readings polls
      (c.write readings)

unfoldable pub try_send : Pipe → Bool → ℕ → Option SendResult
try_send c required fuel = write_rounds c required (c.clock 0 + required_frame_deadline) fuel 1 0

on_write-ends :
    (c : Pipe) (required : Bool) (deadline : ℕ) (next : ℕ → ℕ → Option SendResult)
    (readings polls : ℕ) (w : WriteResult)
    → (leb deadline (c.clock readings) ≡ false → (n : ℕ) → next (readings + 1) n ≢ none)
    → on_write c required deadline next readings polls w ≢ none
unfolding on_write
on_write-ends c required deadline next readings polls WriteResult.whole h = λ e. cc
on_write-ends c required deadline next readings polls WriteResult.part h = λ e. cc
on_write-ends c required deadline next readings polls WriteResult.write_failed h = λ e. cc
on_write-ends c false deadline next readings polls WriteResult.interrupted h = λ e. cc
on_write-ends c true deadline next readings polls WriteResult.interrupted h =
    elim (Bool-cases (leb deadline (c.clock readings))) [
      | inl e ↦ rw e (λ n. cc)
      | inr e ↦ rw e (h e polls)
    ]
on_write-ends c false deadline next readings polls WriteResult.would_block h = λ e. cc
on_write-ends c true deadline next readings polls WriteResult.would_block h =
    elim (Bool-cases (leb deadline (c.clock readings))) [
      | inl e ↦ rw e (λ n. cc)
      | inr e ↦ elim (Bool-cases (c.poll_fails polls)) [
        | inl f ↦ rw (e, f) (λ n. cc)
        | inr f ↦ rw (e, f) (h e (polls + 1))
      ]
    ]

write_rounds-ends :
    (c : Pipe) (required : Bool) (deadline fuel readings polls : ℕ)
    → deadline ≤ c.clock (readings + fuel)
    → write_rounds c required deadline (suc fuel) readings polls ≢ none
unfolding write_rounds
write_rounds-ends c required deadline zero readings polls h =
    on_write-ends c required deadline (write_rounds c required deadline zero) readings polls
      (c.write readings)
      λ e n.
        let same : c.clock (readings + zero) ≡ c.clock readings = ap c.clock (omega arith) in
        absurd (ground (arith, e, h, same))
write_rounds-ends c required deadline (suc fuel) readings polls h =
    on_write-ends c required deadline (write_rounds c required deadline (suc fuel)) readings polls
      (c.write readings)
      λ e n.
        let same : c.clock (readings + suc fuel) ≡ c.clock (readings + 1 + fuel) =
          ap c.clock (omega arith) in
        write_rounds-ends c required deadline fuel (readings + 1) n (omega (arith, h, same))

-- Whatever the writes and the polls answer, send_frame returns by the reading of the clock that shows
-- its deadline over, a second after the first one.
pub try_send-ends :
    (c : Pipe) (required : Bool) (fuel : ℕ)
    → c.clock 0 + 1000 ≤ c.clock (1 + fuel)
    → try_send c required (suc fuel) ≢ none
unfolding try_send
try_send-ends c required fuel h = write_rounds-ends c required (c.clock 0 + 1000) fuel 1 0 h
