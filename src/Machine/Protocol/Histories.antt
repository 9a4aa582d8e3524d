-- ===== src/Machine/Protocol/Histories.antt =====
-- Histories of a machine: every request that is accepted is answered, and what a mount holds is
-- given back (src/state, src/state_machine.hpp).
use virtual_media.Base.{
  ℕ, ◌+◌, ◌≡◌, refl, ap, sym, ◌∙◌, Bool, true, false, Option, none, List, [], ◌∷◌, ◌++◌,
  append_assoc, length, length-append, arith,
}
use virtual_media.Device.{removed}
use virtual_media.Notification.{Notification}
use virtual_media.Machine.Types.{
  State, initial, ready, activating, active, deactivating, subprocess_stopped, udev_state_change,
  System, Machine, Target,
}
use virtual_media.Machine.Run.{Input, emits, step, run}
use virtual_media.Machine.Completion.{signals, kind, both_orders}
use virtual_media.Machine.Balance.{tally, IsBalanced, live_processes, live_gadgets, live_mounts}
use virtual_media.Machine.Balance.Steps.{AllFresh, run-IsBalanced}
use virtual_media.Machine.Protocol.{idle, Moves, rests, moves}
use virtual_media.Machine.Protocol.Answers.{
  open_requests, accepts, IsEvent, Move-count, removed_stopped-idle, stopped_removed-idle,
}
use virtual_media.Machine.Protocol.Phases.{phase, IsSettled, IsRegistered, phase_of, notification}
use virtual_media.Machine.Protocol.Refine.{step-Moved}

-- Any history of a registered machine is a sequence of moves of its mount point: the signals it
-- sends are the codes that the moves tell, and it stays registered.
pub run-Moves :
    (is : List Input) (s : Machine)
    → IsRegistered s
    → (cs : List ℕ) × Moves (phase_of s) is cs (phase_of (run is s))
      × (signals (run is s) ≡ cs ++ signals s)
      × IsRegistered (run is s)
unfolding run
run-Moves [] s h = ([], rests _, refl, h)
run-Moves (i ∷ is) s h =
    let (cs, m, e, k) = step-Moved i s h in
    let (ds, ms, f, l) = run-Moves is (step i s) k in
    (ds ++ cs, moves m ms, f ∙ ap (λ x. ds ++ x) e ∙ sym (append_assoc ds cs (signals s)), l)

abbrev pub AllEvents : List Input → Type 0
AllEvents [] = Unit
AllEvents (i ∷ is) = IsEvent i × AllEvents is

-- The requests of a history that the machine accepts when they come.
abbrev pub accepted : List Input → Machine → ℕ
accepted [] s = 0
accepted (i ∷ is) s = accepts (phase_of s) i + accepted is (step i s)

-- In a history without timer inputs every request that the machine accepts is answered, once, or
-- is the one that is still open: the signals and the open request are those from before and the
-- accepted ones, for a registered machine.
pub run-answered :
    (is : List Input) (s : Machine)
    → IsRegistered s
    → AllEvents is
    → length (signals (run is s)) + open_requests (phase_of (run is s))
      ≡ length (signals s) + open_requests (phase_of s) + accepted is s
unfolding run
run-answered [] s h v = omega arith
run-answered (i ∷ is) s h v =
    let (cs, m, e, k) = step-Moved i s h in
    omega (
      arith,
      run-answered is (step i s) k v.1,
      Move-count m v.0,
      ap length e,
      length-append cs (signals s),
    )

-- All that was acquired was given back.
abbrev pub IsReleased : Machine → Type 0
IsReleased s =
    ((tally s.trace).spawns ≡ (tally s.trace).stops)
    × ((tally s.trace).inserts ≡ (tally s.trace).removes)
    × ((tally s.trace).mounts ≡ (tally s.trace).unmounts)
    × ((tally s.trace).makes ≡ (tally s.trace).removals)

settled_target :
    (st : State) (n : Notification) (t : Option Target)
    → IsSettled st n t
    → kind st ≡ 1
    → (live_processes st ≡ 0) × (live_gadgets st ≡ 0) × (live_mounts t ≡ 0)
settled_target (ready e) n t h k = (refl, refl, ap live_mounts h.1)
settled_target initial n t h k = absurd h
settled_target (activating p g) n t h k = ground arith
settled_target (active p g) n t h k = ground arith
settled_target (deactivating p g u b) n t h k = ground arith

pub ready-IsReleased :
    (s : Machine) → IsRegistered s → IsBalanced s → kind s.state ≡ 1 → IsReleased s
ready-IsReleased s h b k =
    let (p, g, m) = settled_target s.state (notification s) s.target h.settled k in
    (
      omega (arith, b.processes, p),
      omega (arith, b.gadgets, g),
      omega (arith, b.mounts, m),
      omega (arith, b.directories, m),
    )

-- Whenever a registered machine is ready, after any history of events, timer inputs and answers
-- of the system, as many children were stopped as were spawned, as many gadgets removed as made,
-- and as many mounts and mount directories given back as taken; the mounts of the history carry
-- targets that hold no mount yet, and the machine was in balance before.
pub run-IsReleased :
    (is : List Input) (s : Machine)
    → AllFresh is
    → IsBalanced s
    → IsRegistered s
    → kind (run is s).state ≡ 1
    → IsReleased (run is s)
run-IsReleased is s f b h k =
    ready-IsReleased (run is s) (run-Moves is s h).3 (run-IsBalanced is s f b) k

idle_settled :
    (st : State) (n : Notification) (t : Option Target)
    → IsSettled st n t
    → phase st n ≡ idle
    → (kind st ≡ 1) × (t ≡ none)
idle_settled (ready e) n t h k = (refl, h.1)
idle_settled initial n t h k = absurd h
idle_settled (activating p g) n t h k = ground arith
idle_settled (active p g) n t h k = ground arith
idle_settled (deactivating p g u b) n t h k = ground arith

both_orders-idle :
    (first : Bool) (sys later : System) (s : Machine)
    → IsRegistered s
    → (phase_of (both_orders first sys later s) ≡ idle)
      × IsRegistered (both_orders first sys later s)
both_orders-idle true sys later s h =
    let (cs, m, e, k) = step-Moved (emits sys (udev_state_change removed)) s h in
    let (ds, n, f, l) = step-Moved (emits later subprocess_stopped) _ k in
    (removed_stopped-idle m n, l)
both_orders-idle false sys later s h =
    let (cs, m, e, k) = step-Moved (emits sys subprocess_stopped) s h in
    let (ds, n, f, l) = step-Moved (emits later (udev_state_change removed)) _ k in
    (stopped_removed-idle m n, l)

both_orders-IsBalanced :
    (first : Bool) (sys later : System) (s : Machine)
    → IsBalanced s
    → IsBalanced (both_orders first sys later s)
unfolding run
both_orders-IsBalanced true sys later s b =
    run-IsBalanced (emits sys (udev_state_change removed) ∷ emits later subprocess_stopped ∷ []) s
      (tt, (tt, tt)) b
both_orders-IsBalanced false sys later s b =
    run-IsBalanced (emits sys subprocess_stopped ∷ emits later (udev_state_change removed) ∷ []) s
      (tt, (tt, tt)) b

-- After any history of a registered machine in balance, whose mounts carry targets that hold no
-- mount yet, the removal of the device and the end of the process, in either order, leave it
-- ready and without a target, and all that it acquired has been given back.
pub run-both_orders :
    (is : List Input) (first : Bool) (sys later : System) (s : Machine)
    → AllFresh is
    → IsBalanced s
    → IsRegistered s
    → let t = both_orders first sys later (run is s) in
      (kind t.state ≡ 1) × (t.target ≡ none) × IsReleased t
run-both_orders is first sys later s f b h =
    let (i, l) = both_orders-idle first sys later (run is s) (run-Moves is s h).3 in
    let (k, t) = idle_settled _ _ _ l.settled i in
    (
      k,
      t,
      ready-IsReleased _ l (both_orders-IsBalanced first sys later _ (run-IsBalanced is s f b)) k,
    )
