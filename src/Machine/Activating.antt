-- ===== src/Machine/Activating.antt =====
-- src/state/activating_state.cpp: what entering the activating state starts.
use virtual_media.Base.{
  ℕ, Bool, true, false, Option, none, some, List, [], ◌∷◌, ◌++◌, Text, codes, String, if◌then◌else◌,
  join_path, ◌==◌, ◌&&◌, not, undefined, resource, sdbus, errc_enoent, errc_einval, errc_eio,
  errc_eacces, errc_ecanceled,
}
use virtual_media.Config.{to_args}
use virtual_media.Credentials.{Credentials}
use virtual_media.Url.{get_image_path, filename, parent_path}
use virtual_media.Machine.Types.{
  Target, State, spawn_process, remove_socket, System, Machine, Outcome, done, threw, M, ◌>>=◌,
  ◌>>◌, pure, throw,
}
use virtual_media.Machine.Resources.{
  act, set_process, make_directory_at, mount_smb, mount_nfs, ready_with_error,
}

-- `machine.getTarget()->…`: the target must be there.
unfoldable pub with_target : {A : Type 0} → (Target → M A) → M A
with_target f s = elim s.target [ none ↦ threw undefined s | some t ↦ f t s ]

-- `boost::algorithm::join` with spaces.
join : List Text → Text
join [] = []
join (t ∷ []) = t
join (t ∷ u ∷ ts) = t ++ (b' ' ∷ join (u ∷ ts))

nbdkit_args : Machine → Bool → List Text → List Text
unfolding join to_args
nbdkit_args s is_rw params =
    (codes "--unix"
      ∷ s.config.unix_socket
      ∷ codes "--run"
      ∷ (codes "/usr/sbin/nbd-client " ++ join (to_args s.config))
      ∷ [])
    ++ ((if is_rw then [] else codes "--readonly" ∷ []) ++ params)

-- `Process::spawn` of a child, which the activating state then holds.
unfoldable pub spawn_child : System → Text → List Text → M Bool
unfolding act set_process
spawn_child sys app args s =
    if sys.spawn app args
    then done true (set_process (some (record { spawned = true })) (act (spawn_process app args) s))
    else done false s

-- The socket of a previous mount is taken away; `false` if it cannot be.
unfoldable pub clear_socket : System → M Bool
unfolding act
clear_socket sys s =
    if sys.exists s.config.unix_socket
    then (if sys.remove s.config.unix_socket
        then done true (act (remove_socket s.config.unix_socket) s)
        else done false s)
    else done true s

unfoldable pub spawn_with_target : System → List Text → M Bool
unfolding nbdkit_args
spawn_with_target sys params =
    with_target λ t s. spawn_child sys (codes "/usr/sbin/nbdkit") (nbdkit_args s t.is_rw params) s

-- `spawnNbdKit` with its parameters; the result says whether a process was returned.
unfoldable pub spawn_nbdkit : System → List Text → M Bool
spawn_nbdkit sys params =
    clear_socket sys >>= λ clear. if clear then spawn_with_target sys params else pure false

-- The overload for a file.
unfoldable pub spawn_nbdkit_file : System → Text → M Bool
spawn_nbdkit_file sys file = spawn_nbdkit sys (codes "file" ∷ (codes "file=" ++ file) ∷ [])

curl_params : Text → List Text
curl_params url =
    codes "curl"
    ∷ codes "sslverify=false"
    ∷ (codes "url=" ++ url)
    ∷ codes "cainfo="
    ∷ codes "capath=/etc/ssl/certs/authority"
    ∷ codes "ssl-version=tlsv1.2"
    ∷ codes "followlocation=false"
    ∷ codes "ssl-cipher-list=ECDHE-RSA-AES256-GCM-SHA384:ECDHE-ECDSA-AES256-GCM-SHA384"
    ∷ codes "tls13-ciphers=TLS_AES_256_GCM_SHA384"
    ∷ []

unfoldable pub credential_params : Text → Option Text → M (List Text)
credential_params user none = throw (sdbus errc_eio)
credential_params user (some file) =
    pure ((codes "user=" ++ user) ∷ (codes "password=+" ++ file) ∷ [])

unfoldable pub spawn_with_credentials : System → Text → Option Credentials → M Bool
unfolding curl_params
spawn_with_credentials sys url none = spawn_nbdkit sys (curl_params url)
spawn_with_credentials sys url (some c) =
    credential_params c.user sys.secret_file >>= λ more. spawn_nbdkit sys (curl_params url ++ more)

-- The overload for a URL: the password goes through a temporary file.
unfoldable pub spawn_nbdkit_url : System → Text → M Bool
spawn_nbdkit_url sys url = with_target λ t. spawn_with_credentials sys url t.credentials

unfoldable pub unless_spawned : ℕ → String → Bool → M (Option State)
unless_spawned code message true = pure none
unless_spawned code message false = ready_with_error code message

-- `catch (const resource::Error& e)`: the message of the error is left out.
unfoldable pub catch_resource : Outcome (Option State) → Outcome (Option State)
catch_resource (done a s) = done a s
catch_resource (threw (resource e) s) = ready_with_error e "resource::Error" s
catch_resource (threw e s) = threw e s

-- The body of the `try`: the directory, the mount and the server of the image.
unfoldable pub share_smb : System → Target → M (Option State)
share_smb sys t s =
    (make_directory_at sys s.name >>= λ dir.
    mount_smb sys dir (codes "//" ++ parent_path (get_image_path t.img_url)) t
    >> (spawn_nbdkit_file sys (join_path dir (filename (get_image_path t.img_url)))
        >>= unless_spawned errc_ecanceled "Unable to setup NbdKit"))
      s

-- `mountSmbShare`.
unfoldable pub mount_smb_share : System → M (Option State)
mount_smb_share sys s = catch_resource (with_target (share_smb sys) s)

-- The body of the `try`: the directory, the mount and the server of the image.
unfoldable pub share_nfs : System → Target → M (Option State)
share_nfs sys t s =
    (make_directory_at sys s.name >>= λ dir.
    mount_nfs sys dir (parent_path (get_image_path t.img_url)) t
    >> (spawn_nbdkit_file sys (join_path dir (filename (get_image_path t.img_url)))
        >>= unless_spawned errc_ecanceled "Unable to setup NbdKit"))
      s

-- `mountNfsShare`.
unfoldable pub mount_nfs_share : System → M (Option State)
mount_nfs_share sys s = catch_resource (with_target (share_nfs sys) s)

-- `mountHttpsShare`.
unfoldable pub mount_https_share : System → Target → M (Option State)
mount_https_share sys t =
    spawn_nbdkit_url sys t.img_url >>= unless_spawned errc_einval "Failed to mount HTTPS share"

-- `mountLocalFile`.
unfoldable pub mount_local_file : System → Target → M (Option State)
mount_local_file sys t =
    let path = t.img_url in
    if not (sys.exists path)
    then ready_with_error errc_enoent "Local file does not exist"
    else if not (sys.is_regular_file path)
    then ready_with_error errc_einval "Path must be a regular file"
    else if not (sys.status_error path == 0)
    then ready_with_error (sys.status_error path) "Unable to check file permissions"
    else if t.is_rw && not (sys.is_owner_writable path)
    then ready_with_error errc_eacces "File is not writable"
    else (spawn_nbdkit_file sys path
        >>= unless_spawned errc_ecanceled "Unable to setup NBDKit for local file")
