-- ===== src/Status.antt =====
-- The statuses of an operation's run (source/services/Ultravisor-Status.cjs): the canonical names,
-- the older names that are read as one of them, and any other text.
use ultravisor.Base.{ℕ, ◌+◌, ◌==◌, Bool, true, false}
use ultravisor.Work.{Text}

pub data RunStatus : Type 0 where
  queued in_progress waiting error complete stalled failed abandoned retrying : RunStatus
  -- 'Pending', 'Running', 'WaitingForInput', 'Completed'
  old_pending old_running old_waiting old_completed : RunStatus
  other_status : Text → RunStatus

unfoldable pub normalize : RunStatus → RunStatus
normalize old_pending = queued
normalize old_running = in_progress
normalize old_waiting = waiting
normalize old_completed = complete
normalize s = s

-- `===` on two statuses. An empty status is `other_status 0`.
unfoldable pub status_code : RunStatus → ℕ
status_code queued = 0
status_code in_progress = 1
status_code waiting = 2
status_code error = 3
status_code complete = 4
status_code stalled = 5
status_code failed = 6
status_code abandoned = 7
status_code retrying = 8
status_code old_pending = 9
status_code old_running = 10
status_code old_waiting = 11
status_code old_completed = 12
status_code (other_status t) = 13 + t

unfoldable pub equals : RunStatus → RunStatus → Bool
unfolding normalize status_code
equals a b = status_code (normalize a) == status_code (normalize b)

abbrev pub in_terminal_set : RunStatus → Bool
in_terminal_set complete = true
in_terminal_set error = true
in_terminal_set failed = true
in_terminal_set stalled = true
in_terminal_set abandoned = true
in_terminal_set _ = false

unfoldable pub is_terminal_run : RunStatus → Bool
unfolding normalize
is_terminal_run s = in_terminal_set (normalize s)

unfoldable pub is_waiting : RunStatus → Bool
unfolding normalize status_code
is_waiting s = status_code (normalize s) == 2

unfoldable pub is_in_progress : RunStatus → Bool
unfolding normalize status_code
is_in_progress s = status_code (normalize s) == 1

unfoldable pub is_queued : RunStatus → Bool
unfolding normalize status_code
is_queued s = status_code (normalize s) == 0
