-- ===== src/Reconnect/Paths.antt =====
-- Whether a mounted path answers: `isMountedPathAccessible` of src/system.hpp, and what else a
-- reconnect asks. The flag that the thread of `statfs` sets is a function of the number of the look.
use virtual_media.Base.{
  ℕ, zero, suc, ◌+◌, ◌≡◌, Bool, true, false, ◌||◌, Option, none, some, Text, codes, if◌then◌else◌,
  arith, Bool-cases, inl, inr, ltb, ◌==◌, Result, ok, err, sdbus, ℤ, pos, negsuc, is_some,
}
use virtual_media.Reconnect.{
  Access, timed_out, inaccessible, accessible, Round, Reconnecting, monitor_round,
}

-- `getMountDirPrefix`, by whether the service is the second of two.
unfoldable pub get_mount_dir_prefix : Bool → Text
get_mount_dir_prefix second_of_two = if second_of_two then codes "/tmp/vmedia1/" else codes "/tmp/"

-- How a call ends: the thread is joined or left alone, and a value is returned; or a thread that was
-- neither is destroyed, which terminates the program.
pub data Ended : Type 0 where
  joined detached : ℤ → Ended
  terminated : Ended

-- The value of the flag: -1 for a path that is not accessible.
abbrev flag : Bool → ℤ
flag true = pos 1
flag false = negsuc 0

-- The looks and the seconds between them, then the look behind the loop.
unfoldable pub await_statfs : (ℕ → Option Bool) → ℕ → ℕ → Ended × ℕ
await_statfs seen i zero = ((if is_some (seen i) then terminated else detached (pos 0)), i)
await_statfs seen i (suc left) =
    let rest = await_statfs seen (suc i) left in
    elim (seen i) [ some b ↦ (joined (flag b), i) | none ↦ rest ]

-- `isMountedPathAccessible`, with the seconds it takes.
unfoldable pub is_mounted_path_accessible : (ℕ → Option Bool) → ℕ → Ended × ℕ
unfolding await_statfs
is_mounted_path_accessible seen timeout = await_statfs seen 0 timeout

-- What the monitor makes of the result, which it compares with 0 and -1.
abbrev access_of : ℤ → Access
access_of (pos zero) = timed_out
access_of (negsuc zero) = inaccessible
access_of _ = accessible

-- A round of `mountMonitorThread` with its five looks; `none` where the program is terminated.
unfoldable pub monitor_look :
    (ℕ → Option Bool) → ℕ → Text → Reconnecting → Option (Round × Reconnecting)
unfolding is_mounted_path_accessible
monitor_look seen slot path r = elim (is_mounted_path_accessible seen 5).0 [
  | joined z ↦ some (monitor_round slot path (access_of z) r)
  | detached z ↦ some (monitor_round slot path (access_of z) r)
  | terminated ↦ none
]

-- The answers on D-Bus: a value, an `SdBusError`, or another exception.
unfoldable pub get_active_status : Result Bool → Result Bool
get_active_status (ok b) = ok b
get_active_status (err (sdbus e)) = ok false
get_active_status (err e) = err e

-- Whether the slot is active or its image is there, in a second after a call of `Mount`.
unfoldable pub is_back_now : Result Bool → Bool → Result Bool
unfolding get_active_status
is_back_now answer file_exists = elim (get_active_status answer) [
  | err e ↦ err e
  | ok b ↦ ok (b || file_exists)
]

-- `statfs` sets the flag before a look, once.
abbrev pub comes_back : ℕ → Bool → ℕ → Option Bool
comes_back look b i = if ltb i look then none else some b

await_statfs_lem :
    (look : ℕ) (b : Bool) (i left : ℕ)
    → await_statfs (comes_back look b) i left ≡ (
        if ltb i look
        then (if ltb look (i + left)
            then (joined (flag b), look)
            else (if look == i + left then (terminated, look) else (detached (pos 0), i + left)))
        else (if left == 0 then (terminated, i) else (joined (flag b), i)))
unfolding await_statfs
await_statfs_lem look b i zero = ground arith
await_statfs_lem look b i (suc left) = elim (Bool-cases (ltb i look)) [
  | inl e ↦ rw (e, await_statfs) (ground (arith, await_statfs_lem look b (suc i) left))
  | inr e ↦ rw (e, await_statfs) (ground arith)
]

-- The call that checks a path for a number of seconds, at least one: if `statfs` comes back before
-- one of the looks of the loop, the thread is joined and its result is returned, after as many
-- seconds; if it comes back only before the look behind the loop, the program is terminated; and if
-- it does not, the thread is left alone and 0 is returned.
pub is_mounted_path_accessible-comes_back :
    (look : ℕ) (b : Bool) (timeout : ℕ)
    → is_mounted_path_accessible (comes_back look b) (suc timeout) ≡ (
        if ltb look (suc timeout)
        then (joined (flag b), look)
        else (if look == suc timeout then (terminated, look) else (detached (pos 0), suc timeout)))
unfolding is_mounted_path_accessible
is_mounted_path_accessible-comes_back look b timeout =
    ground (arith, await_statfs_lem look b 0 (suc timeout))
