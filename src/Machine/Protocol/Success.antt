-- ===== src/Machine/Protocol/Success.antt =====
-- What a client can conclude from a code of 0 (src/state, src/state_machine.hpp).
use virtual_media.Base.{
  ℕ, ◌≡◌, ◌∙◌, refl, ap, sym, Bool, true, false, some, List, ◌∷◌, ◌++◌, ◌==◌, length, arith,
  errc_econnrefused,
}
use virtual_media.Device.{not_monitored, removed, inserted}
use virtual_media.Machine.Types.{subprocess_stopped, udev_state_change, Machine}
use virtual_media.Machine.Run.{Input, emits, step}
use virtual_media.Machine.Completion.{signals}
use virtual_media.Machine.Protocol.{
  Phase, idle, mounting, mounted, leaving, told, Move, idles, opens, fails, waits, succeeds,
  rejects, breaks, loses, keeps, unmounts, exits, drops, stays, sees, stops, ends_seen,
  ends_stopped, forgets_mounting, forgets_leaving, late_mounting, late_leaving, expires_none,
  late_none,
}
use virtual_media.Machine.Protocol.Phases.{IsRegistered, phase_of}
use virtual_media.Machine.Protocol.Refine.{step-Moved}

-- A mount that was open has become active, or a deactivation has ended with the device removed and
-- the process stopped.
abbrev pub Succeeds : Phase → Input → Phase → Type 0
Succeeds (mounting true) (emits sys (udev_state_change inserted)) mounted = Unit
Succeeds (leaving true u true) (emits sys (udev_state_change removed)) idle = Unit
Succeeds (leaving true (some removed) b) (emits sys subprocess_stopped) idle = Unit
Succeeds _ _ _ = ⊥

not_longer : (old : List ℕ) → old ≡ 0 ∷ old → ⊥
not_longer old h = omega (arith, ap length h)

not_failure : (ec : ℕ) (old : List ℕ) → (ec == 0) ≡ false → ec ∷ old ≡ 0 ∷ old → ⊥
not_failure ec old z h = ground arith

told_failure :
    (o : Bool) (ec : ℕ) (old : List ℕ) → (ec == 0) ≡ false → told o ec ++ old ≡ 0 ∷ old → ⊥
told_failure true ec old z h = not_failure ec old z h
told_failure false ec old z h = not_longer old h

Move-Succeeds :
    {p q : Phase} {i : Input} {cs : List ℕ} (old : List ℕ)
    → Move p i cs q
    → cs ++ old ≡ 0 ∷ old
    → Succeeds p i q
Move-Succeeds old (idles sys e x) h = absurd (not_longer old h)
Move-Succeeds old (opens sys t) h = absurd (not_longer old h)
Move-Succeeds old (fails sys t ec z) h = absurd (not_failure ec old z h)
Move-Succeeds old (waits o sys e x) h = absurd (not_longer old h)
Move-Succeeds old (succeeds true sys) h = tt
Move-Succeeds old (succeeds false sys) h = absurd (not_longer old h)
Move-Succeeds old (rejects o sys ec z) h = absurd (told_failure o ec old z h)
Move-Succeeds old (breaks o sys ec z) h = absurd (told_failure o ec old z h)
Move-Succeeds old (loses o sys c x) h = absurd (not_longer old h)
Move-Succeeds old (keeps sys e x) h = absurd (not_longer old h)
Move-Succeeds old (unmounts sys) h = absurd (not_longer old h)
Move-Succeeds old (exits sys) h = absurd (not_longer old h)
Move-Succeeds old (drops sys c) h = absurd (not_longer old h)
Move-Succeeds old (stays o u b sys e x) h = absurd (not_longer old h)
Move-Succeeds old (sees o u sys c) h = absurd (not_longer old h)
Move-Succeeds old (stops o b sys) h = absurd (not_longer old h)
Move-Succeeds old (ends_seen false u sys c) h = absurd (not_longer old h)
Move-Succeeds old (ends_seen true u sys removed) h = tt
Move-Succeeds old (ends_seen true u sys inserted) h =
    absurd (not_failure errc_econnrefused old refl h)
Move-Succeeds old (ends_seen true u sys not_monitored) h =
    absurd (not_failure errc_econnrefused old refl h)
Move-Succeeds old (ends_stopped false b sys c) h = absurd (not_longer old h)
Move-Succeeds old (ends_stopped true true sys removed) h = tt
Move-Succeeds old (ends_stopped true false sys removed) h = tt
Move-Succeeds old (ends_stopped true b sys inserted) h =
    absurd (not_failure errc_econnrefused old refl h)
Move-Succeeds old (ends_stopped true b sys not_monitored) h =
    absurd (not_failure errc_econnrefused old refl h)
Move-Succeeds old (forgets_mounting o) h = absurd (not_longer old h)
Move-Succeeds old (forgets_leaving o u b) h = absurd (not_longer old h)
Move-Succeeds old (late_mounting o) h = absurd (not_longer old h)
Move-Succeeds old (late_leaving o u b) h = absurd (not_longer old h)
Move-Succeeds old (expires_none p) h = absurd (not_longer old h)
Move-Succeeds old (late_none p) h = absurd (not_longer old h)

-- A registered machine tells the code 0 only where an open mount becomes active as its device is
-- inserted, or where an open request ends in the ready state with the device removed and the
-- process stopped, the later of the two being the input.
pub step-Succeeds :
    (i : Input) (s : Machine)
    → IsRegistered s
    → signals (step i s) ≡ 0 ∷ signals s
    → Succeeds (phase_of s) i (phase_of (step i s))
step-Succeeds i s h e =
    let (cs, m, q, k) = step-Moved i s h in Move-Succeeds (signals s) m (sym q ∙ e)
