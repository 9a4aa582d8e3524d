-- ===== src/UsbGadget.antt =====
-- `UsbGadget` of src/system.hpp: what the system answers, what is done to it, and the monad of the
-- statements of `configure`, which are modelled in the children.
-- A statement ends in a value, in a `return` of the function or in an exception, and has the
-- global variables before and after it.
pub mod Cache
pub mod Statements
pub mod Registration
pub mod Ports
pub mod Configure
pub mod Leaves
pub mod Removal
pub mod Results
pub mod FirstPort
pub mod Eject
pub mod Pending
use virtual_media.Base.{ℕ, Bool, Option, List, ◌∷◌, Text, Exception, ℤ}
use virtual_media.Session.{Sessions, SessionInfo}

-- `webSessionInfo`.
pub record WebSession : Type 0 where
  pub session_id : ℕ
  pub ip_address : Text
  pub user_name : Text
  pub session_type : ℕ
  pub privilege : ℕ
  pub user_id : ℕ

-- The reply of a D-Bus call, or the errno of the `SdBusError` that it throws.
pub data Reply {ℓ} (A : Type ℓ) : Type ℓ where
  failed : ℕ → Reply A
  answered : A → Reply A

-- What `is_block_file`, `open` and the `BLKGETSIZE64` call say of the device of the image.
pub data BlockFile : Type 0 where
  not_block no_open no_size : BlockFile
  block_size : ℕ → BlockFile

-- What the file system and the session manager answer, and the options of the build.
pub record Host : Type 0 where
  pub multi_host : Bool
  -- whether `g_basePath` is "VirtualMedia1"
  pub second_host : Bool
  pub exists : Text → Bool
  pub is_directory : Text → Bool
  pub is_symlink : Text → Bool
  -- whether the text could be written to the file
  pub echo : Text → Text → Bool
  -- `false` where the call throws a `filesystem_error`
  pub create_directories : Text → Bool
  pub remove_link : Text → Bool
  pub create_symlink : Text → Bool
  -- the entries of a directory, `none` where it cannot be read
  pub directory : Text → Option (List Text)
  -- the error code of `fs::remove`, 0 for none
  pub remove_error : Text → ℕ
  -- the five bytes from 0x8001 on
  pub cd_bytes : Text → Option Text
  pub block_file : Text → BlockFile
  pub web_sessions : Reply (List WebSession)
  pub register : SessionInfo → Reply Bool
  pub vmedia_sessions : Reply (List SessionInfo)
  pub unregister : ℕ → Reply Bool

-- The credentials that a slot keeps: `creds[slot]`.
pub record Saved : Type 0 where
  pub url : Text
  pub is_rw : Bool
  pub additional_info : Text

pub data Action : Type 0 where
  echo : Text → Text → Bool → Action
  make_directory make_symlink remove_link : Text → Action
  -- with the error code
  remove_directory : Text → ℕ → Action
  set_power_save : ℕ → Action
  register_session : SessionInfo → Action
  unregister_session : ℕ → Action
  log_event : Text → Action
  -- the monitor thread of a mount path, and the children that watch for an eject of the file and
  -- that drop the cache of the device
  start_monitor watch_eject drop_cache : Text → Action

-- The global variables, and what was done, the latest first.
pub record Globals : Type 0 where
  pub active_sessions : Sessions
  pub creds_slot_2 : Option Saved
  pub creds_slot_3 : Option Saved
  pub is_reconnecting : Bool
  pub trace : List Action

pub data Outcome {ℓ} (A : Type ℓ) : Type ℓ where
  done : A → Globals → Outcome A
  returned : ℤ → Globals → Outcome A
  threw : Exception → Globals → Outcome A

abbrev pub Statement : Type 0 → Type 0
Statement A = Globals → Outcome A

infixl 5 ◌>>=◌
abbrev pub ◌>>=◌ : {A B : Type 0} → Statement A → (A → Statement B) → Statement B
◌>>=◌ m f g = elim (m g) [
  | done a g' ↦ f a g'
  | returned z g' ↦ returned z g'
  | threw e g' ↦ threw e g'
]

infixl 5 ◌>>◌
abbrev pub ◌>>◌ : {B : Type 0} → Statement (Unit {0}) → Statement B → Statement B
m >> k = m >>= λ _. k

abbrev pub pure : {A : Type 0} → A → Statement A
pure a g = done a g

abbrev pub return_with : {A : Type 0} → ℤ → Statement A
return_with z g = returned z g

abbrev pub throw : {A : Type 0} → Exception → Statement A
throw e g = threw e g

abbrev pub modify : (Globals → Globals) → Statement (Unit {0})
modify f g = done tt (f g)

-- Something is done that always succeeds, or whose failure the action tells.
abbrev pub act : Action → Statement (Unit {0})
act a g = done tt (record g { trace = a ∷ g.trace })
