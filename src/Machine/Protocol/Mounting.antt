-- ===== src/Machine/Protocol/Mounting.antt =====
-- What events make of a machine that is ready or activates
-- (src/state/ready_state.hpp, src/state/activating_state.cpp).
use virtual_media.Base.{
  sym, subst, errc_eproto, errc_enoent, ◌≡◌, refl, Bool, true, false, Option, none, some, [], ◌∷◌,
  arith, Bool-cases, inl, inr, if◌then◌else◌,
}
use virtual_media.Device.{not_monitored, removed, inserted}
use virtual_media.Notification
use virtual_media.Notification.{Notification}
use virtual_media.Machine.Types.{
  Process, Gadget, Target, Error, State, initial, ready, activating, active, deactivating, Event,
  register_dbus, mount, unmount, subprocess_stopped, udev_state_change, System, Machine, Outcome,
  done, threw, final,
}
use virtual_media.Machine.Resources.{
  drop_state, drop_gadget, set_target, make_gadget, notify, ready_with_error,
}
use virtual_media.Machine.Handlers.{
  take_target, is_zero, is_too_small, use_gadget, moved_out, fails_https, handle_ready,
  handle_activating, insert, notification_start,
}
use virtual_media.Machine.Legacy.{enter_activating}
use virtual_media.Machine.Run.{
  on_enter, replace_state, change_state, handle_event, emit_event, Input, emits, step,
}
use virtual_media.Machine.Protocol.{
  idle, mounting, mounted, told, Move, idles, opens, fails, waits, succeeds, rejects, breaks, loses,
}
use virtual_media.Machine.Protocol.Replies.{Tells, Replied, IsQuiet}
use virtual_media.Machine.Protocol.Activation.{enter_activating-Tells}
use virtual_media.Machine.Protocol.Phases.{Follows, lands_ready, lands_active, lands_leaving, at}
use virtual_media.Machine.Protocol.Leaving.{told-Follows}

-- A change to the active state that tells 0 first.
told_active-Follows :
    (i : Input) (o : Bool) (sys : System) (p : Option Process) (g : Gadget) (s : Machine)
    (n : Notification)
    → Move (mounting o) i (told o 0) mounted
    → Follows (mounting o) i n.sent (
        final (
          change_state 2 sys (active p (some g)) (
            moved_out
              (record s { completion = some (Notification.notify 0 (record n { started = o })) }))))
unfolding Notification.notify moved_out
told_active-Follows i true sys p g s n v =
    lands_active (mounting true) i n.sent sys 1 _ _ (told true 0) refl refl p (some g) v refl
told_active-Follows i false sys p g s n v =
    lands_active (mounting false) i n.sent sys 1 _ _ (told false 0) refl refl p (some g) v refl

insert-Follows :
    (sys : System) (s : Machine) (p : Option Process) (g : Gadget) (o : Bool) (n : Notification)
    → Follows (mounting o) (emits sys (udev_state_change inserted)) n.sent (
        final (elim (use_gadget p g (record s { completion = some (record n { started = o }) })) [
          | threw x t ↦ threw x t
          | done none t ↦ done true t
          | done (some new) t ↦ change_state 2 sys new t
        ]))
unfolding use_gadget ready_with_error notify
insert-Follows sys s p g o n = elim (Bool-cases (is_zero g.status)) [
  | inl a ↦ rw a (told_active-Follows _ o sys p g s n (succeeds o sys))
  | inr a ↦ rw a (elim (Bool-cases (is_too_small g.status)) [
    | inl b ↦ rw b (
        told-Follows _ _ o sys _ _ (record s { completion = some (record n { started = o }) }) n
          refl (rejects o sys _ refl))
    | inr b ↦ rw b (
        told-Follows _ _ o sys _ _ (record s { completion = some (record n { started = o }) }) n
          refl (rejects o sys _ refl))
  ])
]

stopped-Follows :
    (sys : System) (s : Machine) (o : Bool) (n : Notification) (b : Bool)
    → Follows (mounting o) (emits sys subprocess_stopped) n.sent (
        final
          (elim ((if b
              then ready_with_error errc_eproto "HTTPS media redirection failed"
              else ready_with_error errc_enoent "Invalid image path or image does not exist")
            (record s { completion = some (record n { started = o }) })) [
              | threw x t ↦ threw x t
              | done none t ↦ done true t
              | done (some new) t ↦ change_state 2 sys new t
            ]))
unfolding ready_with_error notify
stopped-Follows sys s o n true =
    told-Follows _ _ o sys _ _ (record s { completion = some (record n { started = o }) }) n refl
      (breaks o sys _ refl)
stopped-Follows sys s o n false =
    told-Follows _ _ o sys _ _ (record s { completion = some (record n { started = o }) }) n refl
      (breaks o sys _ refl)

pub activating-Follows :
    (sys : System) (e : Event) (s : Machine) (p : Option Process) (g : Option Gadget) (o : Bool)
    (n : Notification)
    → Follows (mounting o) (emits sys e) n.sent (step (emits sys e) (at s (activating p g) o n))
unfolding step emit_event handle_event handle_activating insert make_gadget moved_out fails_https
    drop_gadget
activating-Follows sys (udev_state_change inserted) s p none o n =
    let r = make_gadget sys (at s (activating p none) o n) in
    insert-Follows sys (record r.1 { state = activating p (some r.0) }) p r.0 o n
activating-Follows sys (udev_state_change inserted) s p (some g) o n =
    let r = make_gadget sys (at s (activating p (some g)) o n) in
    insert-Follows sys (record (drop_gadget (some g) r.1) { state = activating p (some r.0) }) p r.0
      o n
activating-Follows sys (udev_state_change removed) s p g o n =
    lands_leaving (mounting o) _ n.sent sys 1 _ (record n { started = o }) [] refl refl p g
      (some removed) false (loses o sys _ tt)
activating-Follows sys (udev_state_change not_monitored) s p g o n =
    lands_leaving (mounting o) _ n.sent sys 1 _ (record n { started = o }) [] refl refl p g
      (some not_monitored) false (loses o sys _ tt)
activating-Follows sys subprocess_stopped s p g o n =
    stopped-Follows sys (at s (activating p g) o n) o n (fails_https s.target)
activating-Follows sys (mount t) s p g o n =
    (_, record n { started = o }, [], refl, refl, waits o sys _ tt, refl, tt)
activating-Follows sys unmount s p g o n =
    (_, record n { started = o }, [], refl, refl, waits o sys _ tt, refl, tt)
activating-Follows sys register_dbus s p g o n =
    (_, record n { started = o }, [], refl, refl, waits o sys _ tt, refl, tt)

opened_activating :
    (sys : System) (t : Option Target) (m : Notification) (u : Machine)
    → m.started ≡ true
    → IsQuiet (some m) u
    → Follows idle (emits sys (mount t)) m.sent u
opened_activating sys t m u z h = go u.state refl
  where
    go : (st : State) → u.state ≡ st → Follows idle (emits sys (mount t)) m.sent u
    go (activating p g) e = (
      activating p g,
      m,
      [],
      e,
      h.0,
      subst (λ b. Move idle (emits sys (mount t)) [] (mounting b)) (sym z) (opens sys t),
      refl,
      tt,
    )
    go initial e = ground arith
    go (ready x) e = ground arith
    go (active p g) e = ground arith
    go (deactivating p g a b) e = ground arith

-- What follows the entry of the activating state.
opened-Follows :
    (sys : System) (t : Option Target) (m : Notification) (o : Outcome (Option State))
    → m.started ≡ true
    → Tells (some m) (Replied (some m)) o
    → Follows idle (emits sys (mount t)) m.sent (
        final (elim o [
          | threw e u ↦ threw e u
          | done none u ↦ done true u
          | done (some next) u ↦ change_state 1 sys next u
        ]))
unfolding Notification.notify
opened-Follows sys t m (threw e u) z h = opened_activating sys t m u z h.1
opened-Follows sys t m (done none u) z h = opened_activating sys t m u z h
opened-Follows sys t m (done (some (ready none)) u) z h = absurd h
opened-Follows sys t m (done (some (ready (some e))) u) z h =
    lands_ready idle _ m.sent sys 0 u (Notification.notify e.code m) (e.code ∷ []) (ground arith)
      (ground arith) (some e) (fails sys t e.code h.0) (ground arith)
opened-Follows sys t m (done (some initial) u) z h = absurd h
opened-Follows sys t m (done (some (activating p g)) u) z h = absurd h
opened-Follows sys t m (done (some (active p g)) u) z h = absurd h
opened-Follows sys t m (done (some (deactivating p g x b)) u) z h = absurd h

pub ready-Follows :
    (sys : System) (e : Event) (s : Machine) (x : Option Error) (n : Notification)
    → Follows idle
        (emits sys e)
        n.sent
        (step (emits sys e) (record (at s (ready x) false n) { target = none }))
unfolding step emit_event handle_event handle_ready notification_start Notification.start
    take_target set_target change_state on_enter replace_state drop_state
ready-Follows sys (mount none) s x n =
    opened-Follows sys none _ (enter_activating sys _) refl
      (enter_activating-Tells _ sys _ (refl, refl))
ready-Follows sys (mount (some t)) s x n =
    opened-Follows sys (some t) _ (enter_activating sys _) refl
      (enter_activating-Tells _ sys _ (refl, refl))
ready-Follows sys unmount s x n =
    (ready x, record n { started = false }, [], refl, refl, idles sys _ tt, refl, (refl, refl))
ready-Follows sys register_dbus s x n =
    (ready x, record n { started = false }, [], refl, refl, idles sys _ tt, refl, (refl, refl))
ready-Follows sys subprocess_stopped s x n =
    (ready x, record n { started = false }, [], refl, refl, idles sys _ tt, refl, (refl, refl))
ready-Follows sys (udev_state_change c) s x n =
    (ready x, record n { started = false }, [], refl, refl, idles sys _ tt, refl, (refl, refl))
