-- ===== src/Machine/Inactivity.antt =====
-- The inactivity timer of the active state: src/state/active_state.hpp.
-- A tick is a run of the timer's handler, with what `UsbGadget::getStats` reads and the time on the
-- steady clock in nanoseconds. Its unmount is posted as an event of the machine.
use virtual_media.Base.{
  ℕ, ◌+◌, ◌-◌, ◌*◌, ◌/◌, ◌<◌, ◌≡◌, refl, Bool, true, false, ◌||◌, Option, none, some, List, [], ◌∷◌,
  Text, text_eq, if◌then◌else◌, leb, All, arith,
}

-- `lastAccess`, `lastStats` and the remaining time that the configuration shows.
pub record Timer : Type 0 where
  pub last_access : ℕ
  pub last_stats : Text
  pub remaining : ℕ

-- What a tick ends with: the unmount is posted and the timer stops, or it is started again.
pub data Tick : Type 0 where
  expired : Tick
  rearmed : Timer → Tick

abbrev pub second : ℕ
second = 1000000000

-- The new stats count as an access.
unfoldable pub observe : Option Text → ℕ → Timer → Timer
observe none now t = t
observe (some stats) now t =
    if text_eq stats t.last_stats then t else record t { last_access = now; last_stats = stats }

-- `duration_cast<seconds>(now - lastAccess)`.
unfoldable pub idle_seconds : ℕ → Timer → ℕ
idle_seconds now t = (now - t.last_access) / second

unfoldable pub check_idle : ℕ → ℕ → Timer → Tick
unfolding idle_seconds
check_idle timeout now t =
    if leb timeout (idle_seconds now t)
    then expired
    else rearmed (record t { remaining = timeout - idle_seconds now t })

-- The handler of the timer.
unfoldable pub tick : ℕ → Option Text → ℕ → Timer → Tick
unfolding observe check_idle
tick timeout stats now t = check_idle timeout now (observe stats now t)

-- The ticks of an active state, until one posts the unmount.
unfoldable pub run_ticks : ℕ → List (Option Text × ℕ) → Timer → Tick
run_ticks timeout [] t = rearmed t
run_ticks timeout ((stats, now) ∷ ticks) t = elim (tick timeout stats now t) [
  | expired ↦ expired
  | rearmed t' ↦ run_ticks timeout ticks t'
]

-- The stats cannot be read, or are those that were read last.
abbrev pub IsQuiet : Text → Option Text × ℕ → Type 0
IsQuiet stats (none, now) = Unit
IsQuiet stats (some s, now) = text_eq s stats ≡ true

abbrev pub is_expired : Tick → Bool
is_expired expired = true
is_expired (rearmed t) = false

-- A tick comes at the given time or later.
abbrev pub reaches : ℕ → List (Option Text × ℕ) → Bool
reaches deadline [] = false
reaches deadline ((stats, now) ∷ ticks) = leb deadline now || reaches deadline ticks

leb-idle_seconds :
    (timeout now : ℕ) (t : Timer)
    → 0 < timeout
    → leb timeout (idle_seconds now t) ≡ leb (t.last_access + timeout * second) now
unfolding idle_seconds
leb-idle_seconds timeout now t p = ground arith

-- Where the stats cannot be read or stay as they are, the unmount is posted exactly if a tick comes
-- when the timeout, which is not 0, has passed since the last access.
pub run_ticks-idle :
    (timeout : ℕ) (ticks : List (Option Text × ℕ)) (t : Timer)
    → 0 < timeout
    → All (IsQuiet t.last_stats) ticks
    → is_expired (run_ticks timeout ticks t) ≡ reaches (t.last_access + timeout * second) ticks
unfolding run_ticks tick observe check_idle
run_ticks-idle timeout [] t p q = refl
run_ticks-idle timeout ((none, now) ∷ ticks) t p (q, qs) = ground (
  arith,
  leb-idle_seconds timeout now t p,
  run_ticks-idle timeout ticks (record t { remaining = timeout - idle_seconds now t }) p qs,
)
run_ticks-idle timeout ((some s, now) ∷ ticks) t p (q, qs) = ground (
  arith,
  leb-idle_seconds timeout now t p,
  run_ticks-idle timeout ticks (record t { remaining = timeout - idle_seconds now t }) p qs,
)
