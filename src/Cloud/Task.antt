-- ===== src/Cloud/Task.antt =====
-- The background task of src/cloud/s3.rs and src/cloud/gcs.rs as its writer sees it: the commands go
-- through a channel without bound, in which a send fails once the task has ended, and the writer polls
-- the task for its result.
use s_zip.Common.{ℕ, ◌==◌, Bool}
use s_zip.Outcome.{Result}

-- What a poll of the task gives: the call may be cut short by a panic of the task.
pub data TaskPoll : Type 0 where
  pending : TaskPoll
  joined : Result (Unit {0}) → TaskPoll

pub data Poll {ℓ} (A : Type ℓ) : Type ℓ where
  pending : Poll A
  ready : A → Poll A

-- `io::SeekFrom`, and its signed offsets.
pub data Offset : Type 0 where
  ahead : ℕ → Offset
  back : ℕ → Offset

pub data SeekFrom : Type 0 where
  from_start : ℕ → SeekFrom
  from_end : Offset → SeekFrom
  from_current : Offset → SeekFrom

abbrev pub is_zero : Offset → Bool
is_zero (ahead n) = n == 0
is_zero (back n) = n == 0
