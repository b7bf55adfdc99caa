-- ===== src/TaskStatus.antt =====
-- `enum task_status` of thread/thread.h, and the tests that the code makes on it.
use mathlib.Core.Bool.{Bool, true, false}

pub data TaskStatus : Type 0 where
  running ready blocked waiting hanging died : TaskStatus

abbrev pub is_running : TaskStatus → Bool
is_running running = true
is_running _ = false

abbrev pub is_ready : TaskStatus → Bool
is_ready ready = true
is_ready _ = false

abbrev pub is_waiting : TaskStatus → Bool
is_waiting waiting = true
is_waiting _ = false

abbrev pub is_hanging : TaskStatus → Bool
is_hanging hanging = true
is_hanging _ = false

-- The three states in which a task is not scheduled.
abbrev pub can_block : TaskStatus → Bool
can_block blocked = true
can_block waiting = true
can_block hanging = true
can_block _ = false
