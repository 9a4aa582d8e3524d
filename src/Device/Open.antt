-- ===== src/Device/Open.antt =====
-- The constructor of `DeviceMonitor` of src/system.hpp. Whether libudev answers is given.
use virtual_media.Base.{ℕ, ◌≡◌, Bool, true, false, ◌&&◌, String, if◌then◌else◌, arith, ◌==◌}

-- What libudev answers: whether its handler and the monitor are there, and the results of adding the
-- filter and of receiving, 0 for success.
pub record Udev : Type 0 where
  pub has_udev : Bool
  pub has_monitor : Bool
  pub filter_result : ℕ
  pub receive_result : ℕ

abbrev pub efault : ℕ
efault = 14

-- The monitor is made, or a `std::system_error` is thrown.
pub data Making : Type 0 where
  made : Making
  system_error : ℕ → String → Making

unfoldable pub make_monitor : Udev → Making
make_monitor u =
    if u.has_udev
    then (if u.has_monitor
        then (if u.filter_result == 0
            then (if u.receive_result == 0
                then made
                else system_error efault "Enable receiving failed.")
            else system_error efault "Could not apply filters.")
        else system_error efault "Unable to create uDev Monitor handler.")
    else system_error efault "Unable to create uDev handler."

abbrev pub is_made : Making → Bool
is_made made = true
is_made (system_error e m) = false

-- The monitor is made exactly if every step succeeds.
pub make_monitor_lem :
    (u : Udev)
    → is_made (make_monitor u)
      ≡ (u.has_udev && u.has_monitor && u.filter_result == 0 && u.receive_result == 0)
unfolding make_monitor
make_monitor_lem u = ground arith
