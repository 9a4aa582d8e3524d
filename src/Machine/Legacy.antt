-- ===== src/Machine/Legacy.antt =====
-- `ActivatingState::onEnter` of src/state/activating_state.cpp: the two modes.
use virtual_media.Base.{
  ℕ, Bool, true, false, Option, none, some, [], ◌∷◌, Text, codes, String, if◌then◌else◌, ◌==◌, ◌&&◌,
  ◌||◌, not, ok, err, negsuc, pos_part, is_negative, errc_einval, errc_econnrefused, errc_ecanceled,
}
use virtual_media.Config.{Mode, proxy, to_args}
use virtual_media.Credentials.{Credentials}
use virtual_media.Url.{
  is_https_url, is_cifs_url, is_nfs_url, is_local_file, parent_path, extract_slot_number,
}
use virtual_media.Machine.Types.{
  Target, State, save_image_url, save_credentials, System, done, threw, M, ◌>>=◌, ◌>>◌, modify,
}
use virtual_media.Machine.Resources.{act, set_process, ready_with_error}
use virtual_media.Machine.Activating.{
  spawn_child, with_target, unless_spawned, mount_smb_share, mount_nfs_share, mount_https_share,
  mount_local_file,
}

is_empty : Text → Bool
is_empty [] = true
is_empty (c ∷ s) = false

-- A user and a password are there, and neither is empty.
unfoldable pub has_credentials : Option Credentials → Bool
unfolding is_empty
has_credentials none = false
has_credentials (some c) = not (is_empty c.user || is_empty c.password)

-- `creds[slotNumber] = …`.
unfoldable pub save_slot : ℕ → Target → M (Unit {0})
unfolding act
save_slot slot t s = done tt (act (save_credentials slot t.img_url t.is_rw s.additional_info) s)

unfoldable pub no_credentials : M (Option State)
no_credentials =
    ready_with_error errc_econnrefused
      "The action InsertMedia requires the parameter Username/password to be present in the request body"

-- The share that the URL names.
unfoldable pub mount_by_url : System → ℕ → Target → M (Option State)
mount_by_url sys slot t =
    if not sys.multi_host && is_local_file t.img_url
    then mount_local_file sys t
    else if is_cifs_url t.img_url
    then (if has_credentials t.credentials
        then (save_slot slot t >> mount_smb_share sys)
        else no_credentials)
    else if is_https_url t.img_url
    then (if has_credentials t.credentials then mount_https_share sys t else no_credentials)
    else if is_nfs_url t.img_url
    then (save_slot slot t >> mount_nfs_share sys)
    else ready_with_error errc_einval "URL not recognized"

-- The slot's number, which must not be negative.
unfoldable pub mount_at_slot : System → Target → M (Option State)
mount_at_slot sys t s = elim (extract_slot_number s.name) [
  | err e ↦ threw e s
  | ok n ↦
      (if is_negative n
          then ready_with_error errc_econnrefused
              "Unable to process further because slotNumber is Inavlid"
          else mount_by_url sys (pos_part n) t)
        s
]

-- The directory of the socket is made where it is not there: an error code, 0 for none, with
-- the message of the step that failed.
unfoldable pub socket_directory : System → Text → ℕ × String
socket_directory sys dir =
    if sys.exists dir
    then (0, "")
    else if not (sys.create_directories_error dir == 0)
    then (sys.create_directories_error dir, "Failed to create parent directory for socket")
    else (sys.permissions_error dir, "Failed to set parent permissions directory for socket")

-- `activateLegacyMode`.
unfoldable pub activate_legacy_mode : System → M (Option State)
unfolding act
activate_legacy_mode sys = with_target λ t. modify (act (save_image_url t.img_url)) >> (λ s.
    let r = socket_directory sys (parent_path s.config.unix_socket) in
    (if r.0 == 0 then mount_at_slot sys t else ready_with_error r.0 r.1) s)

unfoldable pub spawn_client : System → M (Option State)
spawn_client sys s =
    ((modify (set_process (some (record { spawned = false })))
          >> spawn_child sys (codes "/usr/sbin/nbd-client") (to_args s.config))
        >>= unless_spawned errc_ecanceled "Failed to spawn process")
      s

-- `activateProxyMode`.
unfoldable pub activate_proxy_mode : System → M (Option State)
activate_proxy_mode sys s = elim s.target [
  | none ↦ spawn_client sys s
  | some t ↦
      (if not sys.multi_host && is_local_file t.img_url
          then mount_local_file sys t
          else spawn_client sys)
        s
]

unfoldable pub is_proxy : Mode → Bool
is_proxy proxy = true
is_proxy _ = false

-- `ActivatingState::onEnter`: the exit code is reset first.
unfoldable pub enter_activating : System → M (Option State)
enter_activating sys s =
    (if is_proxy s.config.mode then activate_proxy_mode sys else activate_legacy_mode sys)
      (record s { exit_code = negsuc 0 })
