-- ===== src/App/Lifecycle.antt =====
-- The life of one mount point from the start of the service on (src/main.cpp, src/state).
use virtual_media.Base.{
  ◌≡◌, ◌∙◌, refl, Option, subst, some, Bool, true, ◌&&◌, not, Bool-cases, inl, inr, none, List,
  Text,
}
use virtual_media.Config.{MountPoint}
use virtual_media.Machine.{
  register_dbus, System, Machine, done, Outcome, threw, State, initial, ready, activating, active,
  deactivating,
}
use virtual_media.Machine.Resources.{ready_with_error, ready_state, notify}
use virtual_media.Machine.Handlers.{handle_initial, is_legacy}
use virtual_media.Machine.Run.{emit_event, Input, run, handle_event, change_state, on_enter}
use virtual_media.Machine.Completion.{kind, both_orders}
use virtual_media.Machine.Balance.{IsBalanced}
use virtual_media.Machine.Balance.Steps.{AllFresh, Ends, emit_event-Ends}
use virtual_media.Machine.Protocol.Phases.{
  IsRegistered, change_state-completion, change_state-target, settled-IsRegistered,
}
use virtual_media.Machine.Protocol.Histories.{IsReleased, run-both_orders}
use virtual_media.App.{new_machine}
use virtual_media.App.Machines.{new_machine-IsBalanced}
use virtual_media.Notification

-- A machine that an operation leaves is registered, and in balance, unless it throws.
abbrev pub Registers : Outcome Bool → Type 0
Registers (done b s) = IsRegistered s
Registers (threw e s) = Unit

enters-Registers :
    (sys : System) (s : Machine)
    → s.completion ≡ some Notification.fresh
    → Registers (change_state 2 sys (ready none) s)
unfolding change_state on_enter Notification.fresh
enters-Registers sys s c =
    let r = change_state-completion sys 1 (ready none) s refl in
    settled-IsRegistered _ (ready none) Notification.fresh r.0 (r.1 ∙ c)
      (refl, change_state-target sys 1 none s)

-- What registering makes of a machine without a notification.
abbrev Opens : Outcome (Option State) → Type 0
Opens (done (some (ready none)) s) = s.completion ≡ some Notification.fresh
Opens (done _ s) = ⊥
Opens (threw e s) = Unit

handle_initial-Opens :
    (sys : System) (s : Machine) → s.completion ≡ none → Opens (handle_initial sys register_dbus s)
unfolding handle_initial ready_with_error ready_state notify Notification.notify Notification.fresh
handle_initial-Opens sys s c =
    elim (Bool-cases (is_legacy s.config.mode && not sys.legacy_enabled)) [
      | inl e ↦ rw e (rw (c, notify) tt)
      | inr e ↦ rw e refl
    ]

Opens-Registers :
    (sys : System) (o : Outcome (Option State))
    → Opens o
    → Registers (elim o [
      | threw x t ↦ threw x t
      | done none t ↦ done true t
      | done (some new) t ↦ change_state 2 sys new t
    ])
Opens-Registers sys (threw x t) h = tt
Opens-Registers sys (done (some (ready none)) t) h = enters-Registers sys t h
Opens-Registers sys (done (some (ready (some e))) t) h = absurd h
Opens-Registers sys (done none t) h = absurd h
Opens-Registers sys (done (some initial) t) h = absurd h
Opens-Registers sys (done (some (activating p g)) t) h = absurd h
Opens-Registers sys (done (some (active p g)) t) h = absurd h
Opens-Registers sys (done (some (deactivating p g u b)) t) h = absurd h

pub register-Registers :
    (sys : System) (name : Text) (point : MountPoint)
    → Registers (emit_event sys register_dbus (new_machine name point))
unfolding new_machine emit_event handle_event
register-Registers sys name point =
    Opens-Registers sys (handle_initial sys register_dbus (new_machine name point))
      (handle_initial-Opens sys (new_machine name point) refl)

abbrev Keeps : Outcome Bool → Type 0
Keeps (done b s) = IsBalanced s
Keeps (threw e s) = Unit

Ends-Keeps : (o : Outcome Bool) → Ends o → Keeps o
Ends-Keeps (done b s) h = h.1
Ends-Keeps (threw e s) h = tt

-- A mount point that the service has started, after any history of events, timer inputs and
-- answers of the system whose mounts carry targets that hold no mount yet: the removal of the
-- device and the end of the process, in either order, leave it ready and without a target, and
-- all that it acquired has been given back.
pub started-both_orders :
    (sys : System) (name : Text) (point : MountPoint) (b : Bool) (s : Machine) (is : List Input)
    (first : Bool) (now later : System)
    → emit_event sys register_dbus (new_machine name point) ≡ done b s
    → AllFresh is
    → let t = both_orders first now later (run is s) in
      (kind t.state ≡ 1) × (t.target ≡ none) × IsReleased t
started-both_orders sys name point b s is first now later e f =
    run-both_orders is first now later s f
      (subst Keeps e (
        Ends-Keeps _ (
          emit_event-Ends sys register_dbus (new_machine name point) tt
            (new_machine-IsBalanced name point))))
      (subst Registers e (register-Registers sys name point))
