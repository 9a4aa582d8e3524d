-- ===== src/Notification.antt =====
-- `utils::NotificationWrapper` of src/utils.hpp with the handler that
-- `MountPointStateMachine::notificationStart` (src/state_machine.hpp) gives it.
-- The steady timer is the library's: it has at most one wait that runs, and the handlers of the
-- waits that were cancelled are queued and run later with `operation_aborted`.
pub mod Laws
use virtual_media.Base.{
  ℕ, suc, ◌+◌, ◌-◌, Bool, true, false, Option, none, some, List, [], ◌∷◌, if◌then◌else◌, ltb,
  errc_ebusy, is_some, ℤ,
}

pub record Notification : Type 0 where
  pub started : Bool
  -- the wait that runs, by its duration in seconds
  pub waiting : Option ℤ
  -- handlers of cancelled waits that have not run yet
  pub aborted : ℕ
  -- the values of the `Completion` signals sent, the latest first
  pub sent : List ℕ

unfoldable pub fresh : Notification
fresh = record { started = false; waiting = none; aborted = 0; sent = [] }

-- `timer->cancel()`, which `expires_after` makes too.
cancel : Notification → Notification
cancel n = record n {
  waiting = none;
  aborted = if is_some n.waiting then suc n.aborted else n.aborted;
}

unfoldable pub start : ℤ → Notification → Notification
unfolding cancel
start seconds n = record (cancel (record n { started = true })) { waiting = some seconds }

-- `SignalSender::send`: 0 stands for no error code.
send : ℕ → Notification → Notification
send status n = record n { sent = status ∷ n.sent }

-- `notify(ec)`, where 0 is the empty error code.
unfoldable pub notify : ℕ → Notification → Notification
unfolding cancel send
notify ec n = if n.started then record (send ec (cancel n)) { started = false } else n

-- The lambda of `async_wait` with the handler of `notificationStart` inside.
wait_handler : Bool → Notification → Notification
unfolding notify
wait_handler is_aborted n =
    let n' = record n { started = false } in if is_aborted then n' else notify errc_ebusy n'

-- The wait that runs comes to its end.
unfoldable pub expire : Notification → Notification
unfolding wait_handler
expire n = if is_some n.waiting then wait_handler false (record n { waiting = none }) else n

-- A queued handler of a cancelled wait runs.
unfoldable pub run_aborted : Notification → Notification
unfolding wait_handler
run_aborted n =
    if ltb 0 n.aborted then wait_handler true (record n { aborted = n.aborted - 1 }) else n

pub data Op : Type 0 where
  starts : ℤ → Op
  notifies : ℕ → Op
  expires runs_aborted : Op

unfoldable pub apply : Op → Notification → Notification
unfolding start notify expire run_aborted
apply (starts seconds) n = start seconds n
apply (notifies ec) n = notify ec n
apply expires n = expire n
apply runs_aborted n = run_aborted n

unfoldable pub run : List Op → Notification → Notification
unfolding apply
run [] n = n
run (op ∷ ops) n = run ops (apply op n)
