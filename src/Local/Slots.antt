-- ===== src/Local/Slots.antt =====
-- Which slot a local file is mounted on, and what the calls of the service keep
-- (src/state/initial_state.hpp).
use virtual_media.Base.{
  ◌≡◌, refl, Bool, true, Option, none, some, List, [], ◌∷◌, Text, text_eq, arith, Bool-cases,
  Option-cases, Result-cases, inl, inr, sdbus, err, ok, Result, errc_ebusy, All,
}
use virtual_media.Machine.{Event, mount, unmount, System, Machine, Outcome, done, threw}
use virtual_media.Machine.Run.{emit_event}
use virtual_media.Machine.Balance.{IsBalanced}
use virtual_media.Machine.Balance.Events.{IsFresh}
use virtual_media.Machine.Balance.Steps.{Ends, emit_event-Ends}
use virtual_media.Local.{
  Slots, slot_order, find_machine, set_machine, find_mount, is_available, list_available, validate,
  emit_at, mount_at, mount_first, local_mount, local_unmount, local_target, unmount_at,
}

-- What a mount on the first of some slots is; EBUSY where there is none.
abbrev pub mount_head : System → Text → Bool → List Text → Slots → Slots × Result Text
mount_head sys path is_rw [] ms = (ms, err (sdbus errc_ebusy))
mount_head sys path is_rw (k ∷ ks) ms = mount_at sys path is_rw k (find_machine k ms) ms

mount_first-list_available :
    (sys : System) (path : Text) (is_rw : Bool) (ks : List Text) (ms : Slots)
    → mount_first sys path is_rw ks ms ≡ mount_head sys path is_rw (list_available ks ms) ms
unfolding mount_first list_available
mount_first-list_available sys path is_rw [] ms = refl
mount_first-list_available sys path is_rw (k ∷ ks) ms =
    elim (Bool-cases (is_available (find_machine k ms))) [
      | inl e ↦ rw e
      | inr e ↦ rw e (mount_first-list_available sys path is_rw ks ms)
    ]

-- Where no local file is mounted and the path is accepted, the mount goes to the first of the
-- slots that are listed as available, and is refused with EBUSY where none is.
pub local_mount-list_available :
    (sys : System) (bytes : Text → Option Text) (path : Text) (is_rw : Bool) (ms : Slots)
    → find_mount sys slot_order ms ≡ none
    → validate sys bytes path is_rw ≡ ok tt
    → local_mount sys bytes path is_rw ms
      ≡ mount_head sys path is_rw (list_available slot_order ms) ms
unfolding local_mount
local_mount-list_available sys bytes path is_rw ms h k =
    rw (h, local_mount)
      (rw (k, local_mount) (mount_first-list_available sys path is_rw slot_order ms))

-- Every machine of the slots is in balance.
abbrev pub AllBalanced : Slots → Type 0
AllBalanced = All (λ e. IsBalanced e.1)

set_machine-AllBalanced :
    (k : Text) (t : Machine) (ms : Slots)
    → IsBalanced t
    → AllBalanced ms
    → AllBalanced (set_machine k t ms)
unfolding set_machine
set_machine-AllBalanced k t [] h a = tt
set_machine-AllBalanced k t ((j, s) ∷ ms) h a = elim (Bool-cases (text_eq j k)) [
  | inl e ↦ rw e (h, a.1)
  | inr e ↦ rw e (a.0, set_machine-AllBalanced k t ms h a.1)
]

find_machine-IsBalanced :
    (k : Text) (ms : Slots) (s : Machine)
    → AllBalanced ms
    → find_machine k ms ≡ some s
    → IsBalanced s
unfolding find_machine
find_machine-IsBalanced k [] s a h = cc
find_machine-IsBalanced k ((j, t) ∷ ms) s a h = elim (Bool-cases (text_eq j k)) [
  | inl e ↦ ground arith
  | inr e ↦ find_machine-IsBalanced k ms s a.1 (ground arith)
]

answer-AllBalanced :
    {A : Type 0} (k : Text) (a : A) (ms : Slots) (o : Outcome Bool)
    → Ends o
    → AllBalanced ms
    → AllBalanced
        (elim o as (λ _. Slots × Result A) [
          | done b t ↦ (set_machine k t ms, ok a)
          | threw x t ↦ (set_machine k t ms, err x)
        ]).0
answer-AllBalanced k a ms (done b t) h all = set_machine-AllBalanced k t ms h.1 all
answer-AllBalanced k a ms (threw x t) h all = set_machine-AllBalanced k t ms h all

emit_at-AllBalanced :
    {A : Type 0} (sys : System) (k : Text) (e : Event) (a : A) (s : Machine) (ms : Slots)
    → IsFresh e
    → IsBalanced s
    → AllBalanced ms
    → AllBalanced (emit_at sys k e a s ms).0
unfolding emit_at
emit_at-AllBalanced sys k e a s ms f h all =
    answer-AllBalanced k a ms (emit_event sys e s) (emit_event-Ends sys e s f h) all

mount_at-AllBalanced :
    (sys : System) (path : Text) (is_rw : Bool) (k : Text) (ms : Slots)
    → AllBalanced ms
    → AllBalanced (mount_at sys path is_rw k (find_machine k ms) ms).0
unfolding mount_at
mount_at-AllBalanced sys path is_rw k ms all = elim (Option-cases (find_machine k ms)) [
  | inl e ↦ rw (e, mount_at) all
  | inr (s, e) ↦
      rw (e, mount_at)
        (emit_at-AllBalanced sys k (mount (some (local_target path is_rw))) k _ ms
          (unfold local_target in refl) (ground (arith, find_machine-IsBalanced k ms s all e)) all)
]

mount_head-AllBalanced :
    (sys : System) (path : Text) (is_rw : Bool) (ks : List Text) (ms : Slots)
    → AllBalanced ms
    → AllBalanced (mount_head sys path is_rw ks ms).0
mount_head-AllBalanced sys path is_rw [] ms all = all
mount_head-AllBalanced sys path is_rw (k ∷ ks) ms all = mount_at-AllBalanced sys path is_rw k ms all

-- A mount through the service, whatever it answers, keeps every machine in balance.
pub local_mount-AllBalanced :
    (sys : System) (bytes : Text → Option Text) (path : Text) (is_rw : Bool) (ms : Slots)
    → AllBalanced ms
    → AllBalanced (local_mount sys bytes path is_rw ms).0
unfolding local_mount
local_mount-AllBalanced sys bytes path is_rw ms all =
    elim (Option-cases (find_mount sys slot_order ms)) [
      | inr (m, e) ↦ rw (e, local_mount) all
      | inl e ↦
          rw (e, local_mount)
            (elim (Result-cases (validate sys bytes path is_rw)) [
              | inl (x, f) ↦ rw (f, local_mount) all
              | inr (u, f) ↦
                  rw (f, local_mount)
                    (rw (mount_first-list_available sys path is_rw slot_order ms)
                      (mount_head-AllBalanced sys path is_rw (list_available slot_order ms) ms all))
            ])
    ]

unmount_at-AllBalanced :
    (sys : System) (k : Text) (ms : Slots)
    → AllBalanced ms
    → AllBalanced (unmount_at sys k (find_machine k ms) ms).0
unfolding unmount_at
unmount_at-AllBalanced sys k ms all = elim (Option-cases (find_machine k ms)) [
  | inl e ↦ rw (e, unmount_at) all
  | inr (s, e) ↦
      rw (e, unmount_at)
        (emit_at-AllBalanced sys k unmount true s ms tt (find_machine-IsBalanced k ms s all e) all)
]

-- An unmount through the service, whatever it answers, keeps every machine in balance.
pub local_unmount-AllBalanced :
    (sys : System) (ms : Slots) → AllBalanced ms → AllBalanced (local_unmount sys ms).0
unfolding local_unmount
local_unmount-AllBalanced sys ms all = elim (Option-cases (find_mount sys slot_order ms)) [
  | inl e ↦ rw (e, local_unmount) all
  | inr ((k, path), e) ↦ rw (e, local_unmount) (unmount_at-AllBalanced sys k ms all)
]
