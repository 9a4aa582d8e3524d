-- ===== src/Machine/Protocol/Leaving.antt =====
-- What events make of a machine that is active or deactivates
-- (src/state/active_state.hpp, src/state/deactivating_state.hpp).
use virtual_media.Base.{ℕ, ◌≡◌, refl, Bool, true, false, Option, none, some, []}
use virtual_media.Device.{StateChange, not_monitored, removed, inserted}
use virtual_media.Notification
use virtual_media.Notification.{Notification}
use virtual_media.Machine.Types.{
  Process, Gadget, Error, ready, active, deactivating, Event, register_dbus, mount, unmount,
  subprocess_stopped, udev_state_change, System, Machine, final,
}
use virtual_media.Machine.Resources.{notify, ready_with_error, ready_state}
use virtual_media.Machine.Handlers.{
  moved_out, evaluate, handle_active, handle_deactivating, notification_start,
}
use virtual_media.Machine.Run.{change_state, handle_event, emit_event, Input, emits, step}
use virtual_media.Machine.Protocol.{
  Phase, idle, mounted, leaving, told, Move, keeps, unmounts, exits, drops, stays, sees, stops,
  ends_seen, ends_stopped,
}
use virtual_media.Machine.Protocol.Phases.{Follows, lands_ready, lands_leaving, at}

pub active-Follows :
    (sys : System) (e : Event) (s : Machine) (p : Option Process) (g : Option Gadget)
    (n : Notification)
    → Follows mounted (emits sys e) n.sent (step (emits sys e) (at s (active p g) false n))
unfolding step emit_event handle_event handle_active notification_start Notification.start moved_out
active-Follows sys (udev_state_change c) s p g n =
    lands_leaving mounted _ n.sent sys 1 _ _ [] refl refl p g (some c) false (drops sys c)
active-Follows sys subprocess_stopped s p g n =
    lands_leaving mounted _ n.sent sys 1 _ _ [] refl refl p g none true (exits sys)
active-Follows sys unmount s p g n =
    lands_leaving mounted _ n.sent sys 1 _ _ [] refl refl p g none false (unmounts sys)
active-Follows sys (mount t) s p g n = (active p g, _, [], refl, refl, keeps sys _ tt, refl, refl)
active-Follows sys register_dbus s p g n =
    (active p g, _, [], refl, refl, keeps sys _ tt, refl, refl)

-- A change to the ready state that tells a code first.
pub told-Follows :
    (p : Phase) (i : Input) (o : Bool) (sys : System) (ec : ℕ) (e : Option Error) (s : Machine)
    (n : Notification)
    → s.completion ≡ some (record n { started = o })
    → Move p i (told o ec) idle
    → Follows p i n.sent (
        final (
          change_state 2 sys
            (ready e)
            (record s { completion = some (Notification.notify ec (record n { started = o })) })))
unfolding Notification.notify
told-Follows p i true sys ec e s n c v =
    lands_ready p i n.sent sys 1 _ _ (told true ec) refl refl e v refl
told-Follows p i false sys ec e s n c v =
    lands_ready p i n.sent sys 1 _ _ (told false ec) refl refl e v refl

pub deactivating-Follows :
    (sys : System) (e : Event) (s : Machine) (p : Option Process) (g : Option Gadget)
    (u : Option StateChange) (b o : Bool) (n : Notification)
    → Follows
        (leaving o u b)
        (emits sys e)
        n.sent
        (step (emits sys e) (at s (deactivating p g u b) o n))
unfolding step emit_event handle_event handle_deactivating evaluate ready_with_error ready_state
    notify
deactivating-Follows sys (udev_state_change removed) s p g u false o n =
    (_, record n { started = o }, [], refl, refl, sees o u sys removed, refl, tt)
deactivating-Follows sys (udev_state_change inserted) s p g u false o n =
    (_, record n { started = o }, [], refl, refl, sees o u sys inserted, refl, tt)
deactivating-Follows sys (udev_state_change not_monitored) s p g u false o n =
    (_, record n { started = o }, [], refl, refl, sees o u sys not_monitored, refl, tt)
deactivating-Follows sys (udev_state_change removed) s p g u true o n =
    told-Follows _ _ o sys 0 none _ n refl (ends_seen o u sys removed)
deactivating-Follows sys (udev_state_change inserted) s p g u true o n =
    told-Follows _ _ o sys _ _ _ n refl (ends_seen o u sys inserted)
deactivating-Follows sys (udev_state_change not_monitored) s p g u true o n =
    told-Follows _ _ o sys _ _ _ n refl (ends_seen o u sys not_monitored)
deactivating-Follows sys subprocess_stopped s p g none b o n =
    (_, record n { started = o }, [], refl, refl, stops o b sys, refl, tt)
deactivating-Follows sys subprocess_stopped s p g (some removed) b o n =
    told-Follows _ _ o sys _ _ _ n refl (ends_stopped o b sys removed)
deactivating-Follows sys subprocess_stopped s p g (some inserted) b o n =
    told-Follows _ _ o sys _ _ _ n refl (ends_stopped o b sys inserted)
deactivating-Follows sys subprocess_stopped s p g (some not_monitored) b o n =
    told-Follows _ _ o sys _ _ _ n refl (ends_stopped o b sys not_monitored)
deactivating-Follows sys unmount s p g u b o n =
    (_, record n { started = o }, [], refl, refl, stays o u b sys _ tt, refl, tt)
deactivating-Follows sys register_dbus s p g u b o n =
    (_, record n { started = o }, [], refl, refl, stays o u b sys _ tt, refl, tt)
deactivating-Follows sys (mount t) s p g u b o n =
    (_, record n { started = o }, [], refl, refl, stays o u b sys _ tt, refl, tt)
