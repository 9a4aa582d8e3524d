-- ===== src/Notification/Laws.antt =====
-- How many signals a notification sends, and which (src/utils.hpp, src/state_machine.hpp).
use virtual_media.Base.{
  ℕ, suc, ◌+◌, ◌≤◌, ◌≡◌, true, List, [], ◌∷◌, if◌then◌else◌, is_some, length, arith, ltb, ℤ, not,
  ◌||◌,
}
use virtual_media.Notification.{
  Notification, start, notify, expire, run_aborted, Op, starts, apply, run,
}

-- A notification that is started has a wait that runs.
abbrev pub IsArmed : Notification → Type 0
IsArmed n = (not n.started || is_some n.waiting) ≡ true

apply-IsArmed : (op : Op) (n : Notification) → IsArmed n → IsArmed (apply op n)
unfolding apply
apply-IsArmed (starts s) n h = ground arith
apply-IsArmed _ n h = ground arith

-- However starts, notifications, expiries and late handlers of cancelled waits follow one
-- another, a started notification keeps a wait that runs.
pub run-IsArmed : (ops : List Op) (n : Notification) → IsArmed n → IsArmed (run ops n)
unfolding run
run-IsArmed [] n h = h
run-IsArmed (op ∷ ops) n h = run-IsArmed ops (apply op n) (apply-IsArmed op n h)

abbrev pub pending : Notification → ℕ
pending n = if n.started then 1 else 0

abbrev pub count_starts : List Op → ℕ
count_starts [] = 0
count_starts (starts _ ∷ ops) = suc (count_starts ops)
count_starts (_ ∷ ops) = count_starts ops

apply-sent :
    (op : Op) (n : Notification)
    → length (apply op n).sent + pending (apply op n)
      ≤ length n.sent + pending n + count_starts (op ∷ [])
unfolding apply
apply-sent (starts s) n = ground arith
apply-sent _ n = ground arith

count_starts-cons :
    (op : Op) (ops : List Op) → count_starts (op ∷ ops) ≡ count_starts (op ∷ []) + count_starts ops
count_starts-cons (starts s) ops = omega arith
count_starts-cons _ ops = omega arith

-- At most one signal is sent for each start, in any order of events: the signals sent, and one
-- more if a notification is started, are never more than before and the starts together.
pub run-sent :
    (ops : List Op) (n : Notification)
    → length (run ops n).sent + pending (run ops n) ≤ length n.sent + pending n + count_starts ops
unfolding run
run-sent [] n = omega arith
run-sent (op ∷ ops) n =
    omega (arith, apply-sent op n, run-sent ops (apply op n), count_starts-cons op ops)

-- With no timer event between them, a notification after a start sends its code, once: the
-- next one, with whatever code, changes nothing.
pub notify-start :
    (seconds : ℤ) (ec later : ℕ) (n : Notification)
    → ((notify ec (start seconds n)).sent ≡ ec ∷ n.sent)
      × (notify later (notify ec (start seconds n)) ≡ notify ec (start seconds n))
unfolding notify start
notify-start seconds ec later n = (ground arith, ground arith)

-- The expiry of the wait sends no signal, and what is notified after it, before another start,
-- sends none either.
pub notify-expire :
    (ec : ℕ) (n : Notification)
    → is_some n.waiting ≡ true
    → ((expire n).sent ≡ n.sent) × ((notify ec (expire n)).sent ≡ n.sent)
unfolding notify expire
notify-expire ec n h = ground arith

-- A handler of an earlier cancelled wait that runs after a start takes the start back: the
-- notification that follows sends nothing.
pub notify-run_aborted :
    (seconds : ℤ) (ec : ℕ) (n : Notification)
    → ltb 0 n.aborted ≡ true
    → (notify ec (run_aborted (start seconds n))).sent ≡ n.sent
unfolding notify run_aborted start
notify-run_aborted seconds ec n h = ground arith
