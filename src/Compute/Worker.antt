-- ===== src/Compute/Worker.antt =====
-- `run` of src/compute/compute_worker.cpp, the loop of the worker process. Its reads and its sends are
-- parameters: what the k-th of them answers.
use robot_harness.Base.{
  ℕ, zero, suc, Bool, true, false, not, List, [], ◌∷◌, ◌++◌, ◌+◌, ◌-◌, ◌*◌, ◌%◌, ◌==◌, ltb, Option,
  none, some, if◌then◌else◌, ◌^◌, increment,
}

-- `unknown` is a value on the wire that is none of the enumerators.
pub data FrameKind : Type 0 where
  ready progress stop_acknowledged stop_ignored completed cancelled unknown : FrameKind

pub record Frame : Type 0 where
  pub magic : ℕ
  pub version : ℕ
  pub kind : FrameKind
  pub iterations : ℕ
  pub value : ℕ
  pub dropped_progress : ℕ

pub data SendResult : Type 0 where
  sent dropped failed : SendResult

-- What `read` gave: a command byte, the end, nothing to read for now, or an error.
pub data Received : Type 0 where
  command : ℕ → Received
  ended nothing_yet broken : Received

pub record Channels : Type 0 where
  pub read : ℕ → Received
  pub send : ℕ → Frame → SendResult

abbrev pub frame_magic : ℕ
frame_magic = 1380467536

abbrev pub frame_version : ℕ
frame_version = 1

abbrev pub batch_iterations : ℕ
batch_iterations = 4096

abbrev pub stop_command : ℕ
stop_command = 83

-- The locals of run, and the frames that were sent.
pub record Progress : Type 0 where
  pub completed : ℕ
  pub sum : ℕ
  pub dropped : ℕ
  pub reads : ℕ
  pub sends : ℕ
  pub frames : List Frame

-- What run returns, and the frames that it sent; `none` is out of fuel.
abbrev pub Exit : Type 0
Exit = Option ℕ × List Frame

-- The loop over a batch: so many iterations from `completed`.
unfoldable pub add_batch : ℕ → ℕ → ℕ → ℕ
add_batch zero from sum = sum
add_batch (suc k) from sum = add_batch k (from + 1) ((sum + from % 1000 * (from % 1000)) % 2 ^ 64)

abbrev pub frame : FrameKind → Progress → Frame
frame kind p = record {
  magic = frame_magic;
  version = frame_version;
  kind = kind;
  iterations = p.completed;
  value = p.sum;
  dropped_progress = p.dropped;
}

abbrev pub is_sent : SendResult → Bool
is_sent SendResult.sent = true
is_sent _ = false

-- `send_frame`; a frame that was sent is remembered.
unfoldable pub send_frame : Channels → FrameKind → Progress → Progress × SendResult
send_frame c kind p =
    let result = c.send p.sends (frame kind p) in
    (
      record p {
        sends = p.sends + 1;
        frames = if is_sent result then p.frames ++ frame kind p ∷ [] else p.frames;
      },
      result,
    )

-- A frame that has to be sent, and the exit code where it was.
unfoldable pub send_last : Channels → FrameKind → ℕ → Progress → Exit
send_last c kind code p =
    let (p', result) = send_frame c kind p in
    (some (if is_sent result then code else 21), p'.frames)

-- A stop command was read.
unfoldable pub stop : Channels → Progress → Exit
stop c p =
    let (p', result) = send_frame c FrameKind.stop_acknowledged p in
    if is_sent result then send_last c FrameKind.cancelled 20 p' else (some 21, p'.frames)

abbrev pub min : ℕ → ℕ → ℕ
min a b = if ltb b a then b else a

-- `std::min(completed + kBatchIterations, limit) - completed` iterations.
abbrev pub advanced : ℕ → Progress → Progress
advanced limit p =
    let end = min ((p.completed + batch_iterations) % 2 ^ 64) limit in
    record p { completed = end; sum = add_batch (end - p.completed) p.completed p.sum }

-- The progress frame of a batch; `none` where it failed.
abbrev pub after_progress : Progress × SendResult → Option Progress
after_progress (p, SendResult.sent) = some p
after_progress (p, SendResult.dropped) = some (record p { dropped = increment p.dropped })
after_progress (p, SendResult.failed) = none

abbrev pub read_next : Progress → Progress
read_next p = record p { reads = p.reads + 1 }

-- After a batch: the loop goes on, if its frame did not fail.
abbrev pub on_progress : Progress → (Progress → Exit) → Option Progress → Exit
on_progress p next none = (some 21, p.frames)
on_progress p next (some p') = next p'

-- The answers to what was read.
abbrev pub on_read : Channels → ℕ → Progress → (Progress → Exit) → Received → Exit
on_read c limit p next (command b) =
    if b == stop_command then stop c (read_next p) else (some 21, p.frames)
on_read c limit p next ended = (some 21, p.frames)
on_read c limit p next broken = (some 21, p.frames)
on_read c limit p next nothing_yet =
    on_progress p next
      (after_progress (send_frame c FrameKind.progress (advanced limit (read_next p))))

-- The rounds of `while (completed < limit)`.
unfoldable pub rounds : Channels → ℕ → ℕ → Progress → Exit
rounds c limit zero p = (none, p.frames)
rounds c limit (suc fuel) p =
    if not (ltb p.completed limit)
    then send_last c FrameKind.completed 0 p
    else on_read c limit p (rounds c limit fuel) (c.read p.reads)

abbrev pub at_start : Progress
at_start = record { completed = 0; sum = 0; dropped = 0; reads = 0; sends = 0; frames = [] }

-- A round more than there are iterations.
unfoldable pub run_worker : Channels → ℕ → Exit
run_worker c limit =
    let (p, result) = send_frame c FrameKind.ready at_start in
    if is_sent result then rounds c limit (limit + 1) p else (some 21, p.frames)
