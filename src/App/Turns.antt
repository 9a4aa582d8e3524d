-- ===== src/App/Turns.antt =====
-- The turns of a machine keep it registered and in balance (src/state/initial_state.hpp).
use virtual_media.Base.{◌≡◌, refl, true, List, [], ◌∷◌, Text, if◌then◌else◌, Bool-cases, inl, inr}
use virtual_media.Machine.{State, initial, ready, activating, active, deactivating, Machine}
use virtual_media.Machine.Run.{Input, step, run}
use virtual_media.Machine.Completion.{kind}
use virtual_media.Machine.Balance.{IsBalanced}
use virtual_media.Machine.Balance.Steps.{AllFresh, run-IsBalanced}
use virtual_media.Machine.Protocol.Phases.{IsRegistered}
use virtual_media.Machine.Protocol.Refine.{step-Moved}
use virtual_media.Machine.Protocol.Histories.{IsReleased, ready-IsReleased}
use virtual_media.App.{
  is_ready_state, take_info, Turn, takes, begins, turn, turns, Extra, no_secret, secret, waits,
}

-- A machine that is registered and in balance.
abbrev pub IsKept : Machine → Type 0
IsKept s = IsRegistered s × IsBalanced s

-- The mounts of a turn carry targets that hold no mount yet.
abbrev pub IsFreshTurn : Turn → Type 0
IsFreshTurn (takes i) = AllFresh (i ∷ [])
IsFreshTurn (begins info) = Unit

abbrev pub AllFreshTurns : List Turn → Type 0
AllFreshTurns [] = Unit
AllFreshTurns (t ∷ ts) = IsFreshTurn t × AllFreshTurns ts

abbrev pub AreFreshWaits : Extra → Type 0
AreFreshWaits no_secret = Unit
AreFreshWaits (secret ts read) = AllFreshTurns ts

step-IsKept : (i : Input) (s : Machine) → AllFresh (i ∷ []) → IsKept s → IsKept (step i s)
unfolding run
step-IsKept i s f h = ((step-Moved i s h.0).3, run-IsBalanced (i ∷ []) s f h.1)

pub take_info-IsKept : (info : Text) (s : Machine) → IsKept s → IsKept (take_info info s)
unfolding take_info
take_info-IsKept info s (h, b) = elim (Bool-cases (is_ready_state s.state)) [
  | inl e ↦
      rw (e, take_info)
        (
          record { notifies = h.notifies; settled = h.settled },
          record {
            processes = b.processes;
            gadgets = b.gadgets;
            mounts = b.mounts;
            directories = b.directories;
          },
        )
  | inr e ↦ rw (e, take_info) (h, b)
]

pub turn-IsKept : (t : Turn) (s : Machine) → IsFreshTurn t → IsKept s → IsKept (turn t s)
unfolding turn
turn-IsKept (takes i) s f h = step-IsKept i s f h
turn-IsKept (begins info) s f h = take_info-IsKept info s h

turns-IsKept : (ts : List Turn) (s : Machine) → AllFreshTurns ts → IsKept s → IsKept (turns ts s)
unfolding turns
turns-IsKept [] s f h = h
turns-IsKept (t ∷ ts) s f h = turns-IsKept ts (turn t s) f.1 (turn-IsKept t s f.0 h)

pub waits-IsKept : (x : Extra) (s : Machine) → AreFreshWaits x → IsKept s → IsKept (waits x s)
unfolding waits
waits-IsKept no_secret s f h = h
waits-IsKept (secret ts read) s f h = turns-IsKept ts s f h

-- A ready machine has given everything back.
abbrev pub RestsReleased : Machine → Type 0
RestsReleased s = if is_ready_state s.state then IsReleased s else Unit

ready-kind : (st : State) → is_ready_state st ≡ true → kind st ≡ 1
unfolding is_ready_state
ready-kind (ready e) h = refl
ready-kind initial h = cc h
ready-kind (activating p g) h = cc h
ready-kind (active p g) h = cc h
ready-kind (deactivating p g u b) h = cc h

pub IsKept-RestsReleased : (s : Machine) → IsKept s → RestsReleased s
IsKept-RestsReleased s h = elim (Bool-cases (is_ready_state s.state)) [
  | inl e ↦ rw e (ready-IsReleased s h.0 h.1 (ready-kind s.state e))
  | inr e ↦ rw e tt
]
