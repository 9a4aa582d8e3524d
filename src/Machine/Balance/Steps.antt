-- ===== src/Machine/Balance/Steps.antt =====
-- Every event keeps the balance (src/state, src/state_machine.hpp).
use virtual_media.Base.{ℕ, suc, ◌≡◌, refl, Bool, true, Option, none, some, List, [], ◌∷◌, arith}
use virtual_media.Notification
use virtual_media.Notification.{Notification}
use virtual_media.Machine.Types.{
  Error, State, initial, ready, activating, active, deactivating, Event, System, Machine, Outcome,
  done, threw, final,
}
use virtual_media.Machine.Resources.{drop_state, set_target}
use virtual_media.Machine.Run.{
  enter_ready, enter_deactivating, update_completion, on_enter, replace_state, change_state,
  handle_event, emit_event, Input, emits, expires, runs_aborted, step, run,
}
use virtual_media.Machine.Balance.{
  live_processes, live_gadgets, BalanceWith, IsBalanced, Keeps, IsPlain,
}
use virtual_media.Machine.Balance.Primitives.{drop_state-BalanceWith}
use virtual_media.Machine.Balance.Activation.{enter_activating-Keeps}
use virtual_media.Machine.Balance.Events.{Holds, IsFresh, handle_event-Holds}

-- An entered state leaves the machine in balance, and is followed by none or by a ready one.
abbrev Settled : Outcome (Option State) → Type 0
Settled (done new t) = IsPlain new × IsBalanced t
Settled (threw e t) = IsBalanced t

Keeps-Settled : (o : Outcome (Option State)) → Keeps IsPlain 0 o → Settled o
Keeps-Settled (done a t) h = (h.0, h.1.0)
Keeps-Settled (threw e t) h = h.0

replace_state-IsBalanced :
    (new : State) (s : Machine)
    → BalanceWith (live_processes new) (live_gadgets new) 0 s
    → IsBalanced (replace_state new s)
unfolding replace_state
replace_state-IsBalanced new s h = drop_state-BalanceWith s.state 0 0 _ (ground arith)

replace_state-state : (new : State) (s : Machine) → (replace_state new s).state ≡ new
unfolding replace_state drop_state
replace_state-state new s = ground arith

enter_ready-IsBalanced : (s : Machine) → IsBalanced s → IsBalanced (enter_ready s)
unfolding enter_ready set_target
enter_ready-IsBalanced s h = ground arith

enter_deactivating-IsBalanced : (s : Machine) → IsBalanced s → IsBalanced (enter_deactivating s)
unfolding enter_deactivating
enter_deactivating-IsBalanced s h = ground arith

on_enter-Settled :
    (sys : System) (new : State) (s : Machine)
    → s.state ≡ new
    → IsBalanced s
    → Settled (on_enter sys new s)
unfolding on_enter
on_enter-Settled sys initial s q h = (tt, h)
on_enter-Settled sys (ready e) s q h = (tt, enter_ready-IsBalanced s h)
on_enter-Settled sys (activating p g) s q h =
    Keeps-Settled _ (enter_activating-Keeps sys s (h, ground arith))
on_enter-Settled sys (active p g) s q h = (tt, h)
on_enter-Settled sys (deactivating p g u b) s q h = (tt, enter_deactivating-IsBalanced s h)

-- A change of state that ended, in balance, or an exception, in balance.
abbrev pub Ends : Outcome Bool → Type 0
Ends (done b t) = (b ≡ true) × IsBalanced t
Ends (threw e t) = IsBalanced t

change_state-ready :
    (sys : System) (fuel : ℕ) (e : Option Error) (s : Machine)
    → IsBalanced s
    → Ends (change_state (suc fuel) sys (ready e) s)
unfolding change_state on_enter
change_state-ready sys fuel e s h =
    (refl, enter_ready-IsBalanced _ (replace_state-IsBalanced (ready e) s (ground arith)))

follow-Ends :
    (sys : System) (fuel : ℕ) (o : Outcome (Option State))
    → Settled o
    → Ends (elim o [
      | threw e t ↦ threw e t
      | done none t ↦ done true t
      | done (some next) t ↦ change_state (suc fuel) sys next t
    ])
follow-Ends sys fuel (threw e t) h = h
follow-Ends sys fuel (done none t) h = (refl, h.1)
follow-Ends sys fuel (done (some (ready e)) t) h = change_state-ready sys fuel e t h.1
follow-Ends sys fuel (done (some initial) t) h = absurd h.0
follow-Ends sys fuel (done (some (activating p g)) t) h = absurd h.0
follow-Ends sys fuel (done (some (active p g)) t) h = absurd h.0
follow-Ends sys fuel (done (some (deactivating p g u b)) t) h = absurd h.0

change_state-Ends :
    (sys : System) (fuel : ℕ) (new : State) (s : Machine)
    → BalanceWith (live_processes new) (live_gadgets new) 0 s
    → Ends (change_state (suc (suc fuel)) sys new s)
unfolding change_state
change_state-Ends sys fuel new s h = follow-Ends sys fuel (on_enter sys new (replace_state new s)) (
    on_enter-Settled sys new (replace_state new s) (replace_state-state new s)
      (replace_state-IsBalanced new s h))

emit-Ends :
    (sys : System) (o : Outcome (Option State))
    → Holds o
    → Ends (elim o [
      | threw x t ↦ threw x t
      | done none t ↦ done true t
      | done (some new) t ↦ change_state 2 sys new t
    ])
emit-Ends sys (threw x t) h = h
emit-Ends sys (done none t) h = (refl, h)
emit-Ends sys (done (some new) t) h = change_state-Ends sys 0 new t h

-- One event on a machine in balance: it is handled to the end, two changes of state being enough,
-- or an exception is thrown, and the machine is in balance in both cases, whatever the system
-- answers, for a mount whose target holds no mount yet.
pub emit_event-Ends :
    (sys : System) (e : Event) (s : Machine) → IsFresh e → IsBalanced s → Ends (emit_event sys e s)
unfolding emit_event
emit_event-Ends sys e s f h =
    emit-Ends sys (handle_event sys s.state e s) (handle_event-Holds sys s.state e s refl f h)

Ends-final : (o : Outcome Bool) → Ends o → IsBalanced (final o)
Ends-final (done b t) h = h.1
Ends-final (threw e t) h = h

abbrev pub AllFresh : List Input → Type 0
AllFresh [] = Unit
AllFresh (emits sys e ∷ is) = IsFresh e × AllFresh is
AllFresh (_ ∷ is) = AllFresh is

update_completion-IsBalanced :
    (f : Notification → Notification) (s : Machine)
    → IsBalanced s
    → IsBalanced (update_completion f s)
unfolding update_completion
update_completion-IsBalanced f s h = ground arith

-- Over any history of events, timer handlers and answers of the system, every child that was
-- spawned was stopped once or is held by the state, every gadget was removed once or is held,
-- and every mount and mount directory was given back once or is held by the target; the mounts
-- of the history carry targets that hold no mount yet.
pub run-IsBalanced :
    (is : List Input) (s : Machine) → AllFresh is → IsBalanced s → IsBalanced (run is s)
unfolding run
run-IsBalanced [] s f h = h
run-IsBalanced (emits sys e ∷ is) s f h =
    run-IsBalanced is (step (emits sys e) s) f.1
      (unfold step in Ends-final (emit_event sys e s) (emit_event-Ends sys e s f.0 h))
run-IsBalanced (expires ∷ is) s f h =
    run-IsBalanced is (step expires s) f
      (unfold step in update_completion-IsBalanced Notification.expire s h)
run-IsBalanced (runs_aborted ∷ is) s f h =
    run-IsBalanced is (step runs_aborted s) f
      (unfold step in update_completion-IsBalanced Notification.run_aborted s h)
