-- ===== src/Machine/Protocol/Refine.antt =====
-- Every input of a machine is a move of its mount point (src/state, src/state_machine.hpp).
use virtual_media.Base.{
  ◌∙◌, is_some, ltb, ◌⊎◌, ap, sym, subst, ℕ, ◌≡◌, refl, Bool, false, Option, some, List, [], ◌++◌,
  arith, Bool-cases, inl, inr, from_option,
}
use virtual_media.Device.{StateChange}
use virtual_media.Notification
use virtual_media.Notification.{Notification}
use virtual_media.Machine.Types.{
  State, initial, ready, activating, active, deactivating, Event, System, Machine,
}
use virtual_media.Machine.Run.{update_completion, Input, emits, expires, runs_aborted, step}
use virtual_media.Machine.Completion.{signals}
use virtual_media.Machine.Protocol.{
  Phase, idle, mounting, mounted, leaving, Move, forgets_mounting, forgets_leaving, late_mounting,
  late_leaving, expires_none, late_none,
}
use virtual_media.Machine.Protocol.Phases.{
  settled-IsRegistered, phase, IsSettled, notification, IsRegistered, phase_of, Follows, at,
}
use virtual_media.Machine.Protocol.Leaving.{active-Follows, deactivating-Follows}
use virtual_media.Machine.Protocol.Mounting.{activating-Follows, ready-Follows}

expire-silent :
    (n : Notification)
    → ((Notification.expire n).sent ≡ n.sent)
      × ((Notification.expire n ≡ n) ⊎ ((Notification.expire n).started ≡ false))
unfolding Notification.expire
expire-silent n = elim (Bool-cases (is_some n.waiting)) [
  | inl e ↦ (ground arith, inr (ground arith))
  | inr e ↦ (ground arith, inl (rw e refl))
]

run_aborted-silent :
    (n : Notification)
    → ((Notification.run_aborted n).sent ≡ n.sent)
      × ((Notification.run_aborted n ≡ n) ⊎ ((Notification.run_aborted n).started ≡ false))
unfolding Notification.run_aborted
run_aborted-silent n = elim (Bool-cases (ltb 0 n.aborted)) [
  | inl e ↦ (ground arith, inr (ground arith))
  | inr e ↦ (ground arith, inl (rw e refl))
]

-- The two inputs of the timer: nothing is told.
module _ (i : Input) (f : Notification → Notification) (none_move : (p : Phase) → Move p i [] p)
    (mounting_move : (o : Bool) → Move (mounting o) i [] (mounting false))
    (leaving_move : (o : Bool) (u : Option StateChange) (b : Bool)
      → Move (leaving o u b) i [] (leaving false u b))
    (silent : (n : Notification)
      → ((f n).sent ≡ n.sent) × ((f n ≡ n) ⊎ ((f n).started ≡ false))) where
  timer_kept :
      (s : Machine) (n : Notification)
      → f n ≡ n
      → s.completion ≡ some n
      → IsSettled s.state n s.target
      → Follows (phase s.state n) i n.sent (update_completion f s)
  unfolding update_completion
  timer_kept s n e c h =
      (s.state, n, [], ground arith, ground arith, none_move _, refl, ground arith)

  timer_given_up :
      (s : Machine) (n : Notification) (st : State)
      → s.state ≡ st
      → (f n).sent ≡ n.sent
      → (f n).started ≡ false
      → s.completion ≡ some n
      → IsSettled st n s.target
      → Follows (phase st n) i n.sent (update_completion f s)
  unfolding update_completion
  timer_given_up s n initial q e z c h = absurd h
  timer_given_up s n (ready x) q e z c h =
      (ready x, f n, [], ground arith, ground arith, none_move idle, e, (z, ground arith))
  timer_given_up s n (active p g) q e z c h =
      (active p g, f n, [], ground arith, ground arith, none_move mounted, e, z)
  timer_given_up s n (activating p g) q e z c h = (
    activating p g,
    f n,
    [],
    ground arith,
    ground arith,
    subst (λ b. Move (mounting n.started) i [] (mounting b)) (sym z) (mounting_move n.started),
    e,
    tt,
  )
  timer_given_up s n (deactivating p g u b) q e z c h = (
    deactivating p g u b,
    f n,
    [],
    ground arith,
    ground arith,
    subst (λ o. Move (leaving n.started u b) i [] (leaving o u b)) (sym z)
        (leaving_move n.started u b),
    e,
    tt,
  )

  timer-Follows :
      (s : Machine) (n : Notification)
      → s.completion ≡ some n
      → IsSettled s.state n s.target
      → Follows (phase s.state n) i n.sent (update_completion f s)
  timer-Follows s n c h = elim (silent n).1 [
    | inl e ↦ timer_kept s n e c h
    | inr z ↦ timer_given_up s n s.state refl (silent n).0 z c h
  ]

spelt :
    (s : Machine) (n : Notification) (st : State)
    → s.state ≡ st
    → s.completion ≡ some n
    → s ≡ at s st n.started n
spelt s n st q c =
    ap (λ x. record s { state = x }) q ∙ ap (λ x. record s { state = st; completion = x }) c

event-Follows :
    (sys : System) (e : Event) (s : Machine) (n : Notification) (st : State)
    → s.state ≡ st
    → s.completion ≡ some n
    → IsSettled st n s.target
    → Follows (phase st n) (emits sys e) n.sent (step (emits sys e) s)
event-Follows sys e s n initial q c h = absurd h
event-Follows sys e s n (ready x) q c h =
    subst (λ t. Follows idle (emits sys e) n.sent (step (emits sys e) t))
      (sym (
        spelt s n (ready x) q c
        ∙ ap (λ o. at s (ready x) o n) h.0
        ∙ ap (λ t. record (at s (ready x) false n) { target = t }) h.1))
      (ready-Follows sys e s x n)
event-Follows sys e s n (activating p g) q c h =
    subst (λ t. Follows (mounting n.started) (emits sys e) n.sent (step (emits sys e) t))
      (sym (spelt s n (activating p g) q c)) (activating-Follows sys e s p g n.started n)
event-Follows sys e s n (active p g) q c h =
    subst (λ t. Follows mounted (emits sys e) n.sent (step (emits sys e) t))
      (sym (spelt s n (active p g) q c ∙ ap (λ o. at s (active p g) o n) h))
      (active-Follows sys e s p g n)
event-Follows sys e s n (deactivating p g u b) q c h =
    subst (λ t. Follows (leaving n.started u b) (emits sys e) n.sent (step (emits sys e) t))
      (sym (spelt s n (deactivating p g u b) q c))
      (deactivating-Follows sys e s p g u b n.started n)

step-Follows :
    (i : Input) (s : Machine)
    → IsRegistered s
    → Follows (phase_of s) i (notification s).sent (step i s)
unfolding step
step-Follows (emits sys e) s h =
    event-Follows sys e s (notification s) s.state refl h.notifies h.settled
step-Follows expires s h =
    timer-Follows expires Notification.expire expires_none forgets_mounting forgets_leaving
      expire-silent s (notification s) h.notifies h.settled
step-Follows runs_aborted s h =
    timer-Follows runs_aborted Notification.run_aborted late_none late_mounting late_leaving
      run_aborted-silent s (notification s) h.notifies h.settled

signals-notification : (s : Machine) (n : Notification) → s.completion ≡ some n → signals s ≡ n.sent
signals-notification s n c = ground arith

-- What `Follows` says, by the phase and the signals of the machine itself.
abbrev pub Moved : Machine → Input → Machine → Type 0
Moved s i t =
    (cs : List ℕ) × Move (phase_of s) i cs (phase_of t)
    × (signals t ≡ cs ++ signals s)
    × IsRegistered t

Follows-Moved :
    (s : Machine) (i : Input) (t : Machine)
    → signals s ≡ (notification s).sent
    → Follows (phase_of s) i (notification s).sent t
    → Moved s i t
Follows-Moved s i t r (st, m, cs, q, c, v, e, h) =
    let n = ap (from_option Notification.fresh) c in
    (
      cs,
      subst (λ x. Move (phase_of s) i cs (phase x (notification t))) (sym q)
          (subst (λ x. Move (phase_of s) i cs (phase st x)) (sym n) v),
      signals-notification t m c ∙ e ∙ ap (λ x. cs ++ x) (sym r),
      settled-IsRegistered t st m q c h,
    )

-- One input of a registered machine, an event with whatever the system answers or one of the
-- timer, is a move of its mount point that tells exactly the codes of the move, and the machine
-- is registered again; a ready machine has no target, and neither it nor an active one has a
-- request that is open.
pub step-Moved : (i : Input) (s : Machine) → IsRegistered s → Moved s i (step i s)
step-Moved i s h =
    Follows-Moved s i (step i s) (signals-notification s (notification s) h.notifies)
      (step-Follows i s h)
