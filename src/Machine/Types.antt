-- ===== src/Machine/Types.antt =====
-- The machine, its events and states, and what the system answers.
use virtual_media.Base.{ℕ, Bool, Option, List, Text, String, Exception, ℤ}
use virtual_media.Config.{MountPoint}
use virtual_media.Credentials.{Credentials}
use virtual_media.Device.{StateChange}
use virtual_media.Notification.{Notification}
use virtual_media.Share.{MountCall}

-- `resource::Process`: whether `spawn` succeeded on it.
pub record Process : Type 0 where
  pub spawned : Bool

-- `resource::Gadget`.
pub record Gadget : Type 0 where
  pub status : ℤ

-- `interfaces::MountPointStateMachine::Target`. A held `resource::Mount` or `NfsMount` is its
-- directory.
pub record Target : Type 0 where
  pub img_url : Text
  pub is_rw : Bool
  pub mount_point : Option Text
  pub credentials : Option Credentials
  pub mount_point_nfs : Option Text

-- `ReadyState::Error`.
pub record Error : Type 0 where
  pub code : ℕ
  pub message : String

-- The five states with their fields: the process and the gadget, and what a deactivating state
-- has seen of the udev event and of the end of the process.
pub data State : Type 0 where
  initial : State
  ready : Option Error → State
  activating : Option Process → Option Gadget → State
  active : Option Process → Option Gadget → State
  deactivating : Option Process → Option Gadget → Option StateChange → Bool → State

pub data Event : Type 0 where
  register_dbus : Event
  mount : Option Target → Event
  unmount subprocess_stopped : Event
  udev_state_change : StateChange → Event

pub data Action : Type 0 where
  -- `child(app, args)` that succeeded, and `process->stop` of such a process
  spawn_process : Text → List Text → Action
  stop_process : Action
  -- `UsbGadget::configure` by a `Gadget` that is made, by one that is destroyed, and by
  -- `cleanUpMountPoint`
  insert_gadget : Bool → Text → Action
  remove_gadget clean_gadget : Action
  clean_mount : Text → Action
  -- the mount directories and the shares on them
  make_directory remove_directory : Text → Action
  mount_share unmount_share : Text → Action
  remove_socket : Text → Action
  save_image_url : Text → Action
  -- `creds[slot] = make_shared<Credentials>(url, rw, additional info)`
  save_credentials : ℕ → Text → Bool → Text → Action
  -- the objects that are registered on D-Bus
  add_interface : Text → Action

-- What the operating system answers, and the options of the build.
pub record System : Type 0 where
  pub legacy_enabled : Bool
  pub multi_host : Bool
  -- whether `g_basePath` is "VirtualMedia1"
  pub second_host : Bool
  pub exists : Text → Bool
  pub is_regular_file : Text → Bool
  pub is_owner_writable : Text → Bool
  -- error codes, 0 for none
  pub status_error : Text → ℕ
  pub create_directories_error : Text → ℕ
  pub permissions_error : Text → ℕ
  -- whether a directory was created, a file removed, a child started
  pub create_directories : Text → Bool
  pub remove : Text → Bool
  pub spawn : Text → List Text → Bool
  pub mount_call : MountCall → ℕ
  pub umount : Text → Bool
  -- the status that `UsbGadget::configure` returns for an inserted device, `none` if it throws
  pub configure : Bool → Text → Option ℤ
  -- the file that `mkstemp` names for a secret, `none` if it cannot be written
  pub secret_file : Option Text

pub record Machine : Type 0 where
  pub name : Text
  pub config : MountPoint
  pub additional_info : Text
  pub completion : Option Notification
  pub target : Option Target
  pub state : State
  pub exit_code : ℤ
  -- the latest action first
  pub trace : List Action

pub data Outcome {ℓ} (A : Type ℓ) : Type ℓ where
  done : A → Machine → Outcome A
  threw : Exception → Machine → Outcome A

abbrev pub M : Type 0 → Type 0
M A = Machine → Outcome A

infixl 5 ◌>>=◌
abbrev pub ◌>>=◌ : {A B : Type 0} → M A → (A → M B) → M B
◌>>=◌ m f s = elim (m s) [ done a t ↦ f a t | threw e t ↦ threw e t ]

infixl 5 ◌>>◌
abbrev pub ◌>>◌ : {B : Type 0} → M (Unit {0}) → M B → M B
m >> k = m >>= λ _. k

abbrev pub pure : {A : Type 0} → A → M A
pure a s = done a s

abbrev pub throw : {A : Type 0} → Exception → M A
throw e s = threw e s

abbrev pub modify : (Machine → Machine) → M (Unit {0})
modify f s = done tt (f s)

abbrev pub final {ℓ} : {A : Type ℓ} → Outcome A → Machine
final (done a s) = s
final (threw e s) = s
