-- ===== src/Machine/Resources.antt =====
-- The resources that a machine holds, and how their destructors release them:
-- src/resources.hpp, src/resources.cpp and the members of `Target` and of the states.
use virtual_media.Base.{
  ℕ, Bool, false, Option, none, some, ◌∷◌, Text, codes, String, if◌then◌else◌, join_path, ◌==◌,
  ◌&&◌, undefined, resource, errc_enoent, negsuc, from_option, String,
}
use virtual_media.Notification
use virtual_media.Notification.{Notification}
use virtual_media.Share.{smb_mount, nfs_mount}
use virtual_media.Machine.Types.{
  Process, Gadget, Target, State, initial, ready, activating, active, deactivating, Action,
  stop_process, insert_gadget, remove_gadget, make_directory, remove_directory, mount_share,
  unmount_share, System, Machine, Outcome, done, threw, M, ◌>>◌, pure,
}

unfoldable pub act : Action → Machine → Machine
act a s = record s { trace = a ∷ s.trace }

-- `Process::~Process`.
unfoldable pub drop_process : Option Process → Machine → Machine
unfolding act
drop_process none s = s
drop_process (some p) s = if p.spawned then act stop_process s else s

-- `Gadget::~Gadget`.
unfoldable pub drop_gadget : Option Gadget → Machine → Machine
unfolding act
drop_gadget none s = s
drop_gadget (some g) s = act remove_gadget s

-- The members of a state, the last declared first.
unfoldable pub drop_state : State → Machine → Machine
unfolding drop_process drop_gadget
drop_state initial s = s
drop_state (ready e) s = s
drop_state (activating p g) s = drop_process p (drop_gadget g s)
drop_state (active p g) s = drop_process p (drop_gadget g s)
drop_state (deactivating p g u b) s = drop_process p (drop_gadget g s)

-- `Mount::~Mount` or `NfsMount::~NfsMount`, and then `Directory::~Directory`.
unfoldable pub drop_mount : Option Text → Machine → Machine
unfolding act
drop_mount none s = s
drop_mount (some dir) s = act (remove_directory dir) (act (unmount_share dir) s)

unfoldable pub drop_target : Option Target → Machine → Machine
unfolding drop_mount
drop_target none s = s
drop_target (some t) s = drop_mount t.mount_point (drop_mount t.mount_point_nfs s)

-- `getTarget() = target`: the old target is destroyed.
unfoldable pub set_target : Option Target → Machine → Machine
unfolding drop_target
set_target t s = record (drop_target s.target s) { target = t }

-- `process = …` in an activating state.
unfoldable pub set_process : Option Process → Machine → Machine
unfolding drop_process
set_process q s = elim s.state [
  | activating p g ↦ record (drop_process p s) { state = activating q g }
  | initial ↦ s
  | ready e ↦ s
  | active p g ↦ s
  | deactivating p g u b ↦ s
]

-- `machine.notify(ec)`: the wrapper's pointer is null until the service interface is added.
unfoldable pub notify : ℕ → M (Unit {0})
notify ec s = elim s.completion [
  | none ↦ threw undefined s
  | some n ↦ done tt (record s { completion = some (Notification.notify ec n) })
]

-- The parent of the mount directories: each of two services has its own.
unfoldable pub mount_parent : System → Text
mount_parent sys = if sys.multi_host && sys.second_host then codes "/tmp/vmedia1" else codes "/tmp"

-- `Directory::Directory`.
unfoldable pub make_directory_at : System → Text → M Text
unfolding act mount_parent
make_directory_at sys name s =
    let path = join_path (mount_parent sys) name in
    if sys.create_directories path
    then done path (act (make_directory path) s)
    else threw (resource errc_enoent) s

-- `Mount::Mount`: the directory is given back if the share is not mounted. The credentials are
-- those of the target, whose commas are escaped on the way.
unfoldable pub mount_smb : System → Text → Text → Target → Machine → Outcome (Unit {0})
unfolding act drop_mount
mount_smb sys dir remote t s =
    let r = smb_mount sys.mount_call remote dir t.is_rw t.credentials in
    if r.0 == 0
    then done tt (record (drop_mount t.mount_point (act (mount_share dir) s)) {
      target = some (record t { mount_point = some dir; credentials = r.1 });
    })
    else threw (resource r.0)
        (record (act (remove_directory dir) s) { target = some (record t { credentials = r.1 }) })

-- `NfsMount::NfsMount`.
unfoldable pub mount_nfs : System → Text → Text → Target → Machine → Outcome (Unit {0})
unfolding act drop_mount
mount_nfs sys dir remote t s =
    let e = nfs_mount sys.mount_call remote dir t.is_rw in
    if e == 0
    then done tt (record (drop_mount t.mount_point_nfs (act (mount_share dir) s)) {
      target = some (record t { mount_point_nfs = some dir });
    })
    else threw (resource e) (act (remove_directory dir) s)

unfoldable pub target_is_rw : Option Target → Bool
target_is_rw none = false
target_is_rw (some t) = t.is_rw

-- `Gadget::Gadget`: -1 where `configure` throws.
unfoldable pub make_gadget : System → Machine → Gadget × Machine
unfolding act target_is_rw
make_gadget sys s = (
  record {
    status = from_option (negsuc 0) (sys.configure (target_is_rw s.target) s.additional_info);
  },
  act (insert_gadget (target_is_rw s.target) s.additional_info) s,
)

-- `ReadyState(machine, ec, message)` and `ReadyState(machine)`: the constructor notifies.
unfoldable pub ready_with_error : ℕ → String → M (Option State)
unfolding notify
ready_with_error code message =
    notify code >> pure (some (ready (some (record { code = code; message = message }))))

unfoldable pub ready_state : M (Option State)
unfolding notify
ready_state = notify 0 >> pure (some (ready none))
