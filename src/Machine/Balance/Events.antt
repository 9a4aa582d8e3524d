-- ===== src/Machine/Balance/Events.antt =====
-- The handlers of the five states keep the balance (src/state).
use virtual_media.Base.{
  ℕ, ◌≡◌, refl, Bool, true, false, Option, none, some, arith, Bool-cases, Option-cases, inl, inr,
  String, ◌&&◌, not,
}
use virtual_media.Device.{StateChange, not_monitored, removed, inserted}
use virtual_media.Machine.Types.{
  Process, Gadget, Target, State, initial, ready, activating, active, deactivating, Event,
  register_dbus, mount, unmount, subprocess_stopped, udev_state_change, System, Machine, Outcome,
  done, threw, ◌>>◌, pure, modify,
}
use virtual_media.Machine.Resources.{notify, make_gadget, ready_with_error, ready_state}
use virtual_media.Machine.Handlers.{
  is_legacy, take_target, is_zero, is_too_small, use_gadget, moved_out, fails_https, evaluate,
  handle_initial, handle_ready, handle_activating, handle_active, handle_deactivating, insert,
  notification_start,
}
use virtual_media.Machine.Run.{handle_event}
use virtual_media.Machine.Balance.{
  live_processes, live_gadgets, live_mounts, BalanceWith, IsBalanced,
}
use virtual_media.Machine.Balance.Primitives.{set_target-BalanceWith}

abbrev pub new_processes : Option State → ℕ
new_processes none = 0
new_processes (some s) = live_processes s

abbrev pub new_gadgets : Option State → ℕ
new_gadgets none = 0
new_gadgets (some s) = live_gadgets s

-- A handler ends in balance, the resources of the new state being held by the operation.
abbrev pub Holds : Outcome (Option State) → Type 0
Holds (done new t) = BalanceWith (new_processes new) (new_gadgets new) 0 t
Holds (threw e t) = IsBalanced t

notify-Holds :
    (ec : ℕ) (new : Option State) (f : Machine → Machine) (s : Machine)
    → IsBalanced s
    → ((t : Machine)
        → t.state ≡ s.state
        → IsBalanced t
        → BalanceWith (new_processes new) (new_gadgets new) 0 (f t))
    → Holds ((notify ec >> (modify f >> pure new)) s)
unfolding notify
notify-Holds ec new f s h k = elim (Option-cases s.completion) [
  | inl e ↦ rw (e, notify) (ground arith)
  | inr (n, e) ↦ rw (e, notify) (k _ refl (ground arith))
]

ready_with_error-Holds :
    (ec : ℕ) (m : String) (s : Machine) → IsBalanced s → Holds (ready_with_error ec m s)
unfolding ready_with_error
ready_with_error-Holds ec m s h = notify-Holds ec _ (λ t. t) s h λ t e b. ground arith

ready_state-Holds : (s : Machine) → IsBalanced s → Holds (ready_state s)
unfolding ready_state
ready_state-Holds s h = notify-Holds 0 _ (λ t. t) s h λ t e b. ground arith

notification_start-Holds :
    (new : Option State) (f : Machine → Machine) (s : Machine)
    → IsBalanced s
    → ((t : Machine)
        → t.state ≡ s.state
        → IsBalanced t
        → BalanceWith (new_processes new) (new_gadgets new) 0 (f t))
    → Holds ((notification_start >> (modify f >> pure new)) s)
unfolding notification_start
notification_start-Holds new f s h k = elim (Option-cases s.completion) [
  | inl e ↦ rw (e, notification_start) (ground arith)
  | inr (n, e) ↦ rw (e, notification_start) (k _ refl (ground arith))
]

handle_initial-Holds :
    (sys : System) (e : Event) (s : Machine) → IsBalanced s → Holds (handle_initial sys e s)
unfolding handle_initial
handle_initial-Holds sys register_dbus s h =
    elim (Bool-cases (is_legacy s.config.mode && not sys.legacy_enabled)) [
      | inl e ↦ rw e (ready_with_error-Holds _ _ s h)
      | inr e ↦ rw e (ready_state-Holds _ (ground arith))
    ]
handle_initial-Holds sys _ s h = h

take_target-Balanced :
    (t : Option Target) (s : Machine)
    → live_mounts t ≡ 0
    → IsBalanced s
    → IsBalanced (take_target t s)
unfolding take_target
take_target-Balanced none s e h = h
take_target-Balanced (some t) s e h = set_target-BalanceWith 0 0 (some t) s e h

-- What a client mounts holds no mount yet.
abbrev pub IsFresh : Event → Type 0
IsFresh (mount t) = live_mounts t ≡ 0
IsFresh _ = Unit

handle_ready-Holds : (e : Event) (s : Machine) → IsFresh e → IsBalanced s → Holds (handle_ready e s)
unfolding handle_ready
handle_ready-Holds (mount t) s f h =
    notification_start-Holds (some (activating none none)) (take_target t) s h
      λ u e b. ground (arith, take_target-Balanced t u f b)
handle_ready-Holds unmount s f h = h
handle_ready-Holds _ s f h = h

use_gadget-Holds :
    (p : Option Process) (g : Gadget) (s : Machine)
    → s.state ≡ activating p (some g)
    → IsBalanced s
    → Holds (use_gadget p g s)
unfolding use_gadget
use_gadget-Holds p g s e h = elim (Bool-cases (is_zero g.status)) [
  | inl a ↦ rw a (
      notify-Holds 0 (some (active p (some g))) moved_out s h
        λ t q b. unfold moved_out in ground arith)
  | inr a ↦ rw a (elim (Bool-cases (is_too_small g.status)) [
    | inl b ↦ rw b (ready_with_error-Holds _ _ s h)
    | inr b ↦ rw b (ready_with_error-Holds _ _ s h)
  ])
]

insert-Holds :
    (sys : System) (p : Option Process) (g : Option Gadget) (s : Machine)
    → s.state ≡ activating p g
    → IsBalanced s
    → Holds (insert sys p g s)
unfolding insert make_gadget
insert-Holds sys p g s e h = use_gadget-Holds p _ _ refl (ground arith)

handle_activating-Holds :
    (sys : System) (p : Option Process) (g : Option Gadget) (e : Event) (s : Machine)
    → s.state ≡ activating p g
    → IsBalanced s
    → Holds (handle_activating sys p g e s)
unfolding handle_activating
handle_activating-Holds sys p g (udev_state_change inserted) s q h = insert-Holds sys p g s q h
handle_activating-Holds sys p g (udev_state_change removed) s q h = ground arith
handle_activating-Holds sys p g (udev_state_change not_monitored) s q h = ground arith
handle_activating-Holds sys p g subprocess_stopped s q h =
    elim (Bool-cases (fails_https s.target)) [
      | inl a ↦ rw a (ready_with_error-Holds _ _ s h)
      | inr a ↦ rw a (ready_with_error-Holds _ _ s h)
    ]
handle_activating-Holds sys p g _ s q h = h

handle_active-Holds :
    (p : Option Process) (g : Option Gadget) (e : Event) (s : Machine)
    → s.state ≡ active p g
    → IsBalanced s
    → Holds (handle_active p g e s)
unfolding handle_active
handle_active-Holds p g (udev_state_change c) s q h = ground arith
handle_active-Holds p g subprocess_stopped s q h = ground arith
handle_active-Holds p g unmount s q h =
    notification_start-Holds (some (deactivating p g none false)) moved_out s h
      λ u e b. unfold moved_out in ground arith
handle_active-Holds p g _ s q h = h

evaluate-Holds :
    (u : Option StateChange) (b : Bool) (s : Machine) → IsBalanced s → Holds (evaluate u b s)
unfolding evaluate
evaluate-Holds (some removed) true s h = ready_state-Holds s h
evaluate-Holds (some inserted) true s h = ready_with_error-Holds _ _ s h
evaluate-Holds (some not_monitored) true s h = ready_with_error-Holds _ _ s h
evaluate-Holds (some removed) false s h = h
evaluate-Holds (some inserted) false s h = h
evaluate-Holds (some not_monitored) false s h = h
evaluate-Holds none b s h = h

handle_deactivating-Holds :
    (p : Option Process) (g : Option Gadget) (u : Option StateChange) (b : Bool) (e : Event)
    (s : Machine)
    → s.state ≡ deactivating p g u b
    → IsBalanced s
    → Holds (handle_deactivating p g u b e s)
unfolding handle_deactivating
handle_deactivating-Holds p g u b (udev_state_change c) s q h =
    evaluate-Holds (some c) b _ (ground arith)
handle_deactivating-Holds p g u b subprocess_stopped s q h = evaluate-Holds u true _ (ground arith)
handle_deactivating-Holds p g u b _ s q h = h

pub handle_event-Holds :
    (sys : System) (st : State) (e : Event) (s : Machine)
    → s.state ≡ st
    → IsFresh e
    → IsBalanced s
    → Holds (handle_event sys st e s)
unfolding handle_event
handle_event-Holds sys initial e s q f h = handle_initial-Holds sys e s h
handle_event-Holds sys (ready x) e s q f h = handle_ready-Holds e s f h
handle_event-Holds sys (activating p g) e s q f h = handle_activating-Holds sys p g e s q h
handle_event-Holds sys (active p g) e s q f h = handle_active-Holds p g e s q h
handle_event-Holds sys (deactivating p g u b) e s q f h = handle_deactivating-Holds p g u b e s q h
