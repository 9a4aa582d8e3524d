-- ===== src/Machine/Balance/Activation.antt =====
-- What entering the activating state acquires is held or given back
-- (src/state/activating_state.cpp).
use virtual_media.Base.{
  ℕ, ◌≡◌, ◌∙◌, some, Text, arith, Bool-cases, Option-cases, Result-cases, inl, inr, String, ◌==◌,
  ◌&&◌, not, is_negative, pos_part, errc_ecanceled, errc_einval,
}
use virtual_media.Url.{
  extract_slot_number, is_local_file, is_cifs_url, is_https_url, is_nfs_url, parent_path,
}
use virtual_media.Machine.Types.{Target, System, Machine, ◌>>=◌}
use virtual_media.Machine.Resources.{make_directory_at, mount_smb, mount_nfs}
use virtual_media.Machine.Activating.{
  spawn_child, spawn_nbdkit_file, spawn_nbdkit_url, unless_spawned, share_smb, share_nfs,
  mount_smb_share, mount_nfs_share, mount_https_share, mount_local_file,
}
use virtual_media.Machine.Legacy.{
  no_credentials, save_slot, socket_directory, spawn_client, is_proxy, mount_by_url, mount_at_slot,
  activate_legacy_mode, activate_proxy_mode, enter_activating, has_credentials,
}
use virtual_media.Machine.Balance.{Within, Keeps, IsPlain, Anything}
use virtual_media.Machine.Balance.Primitives.{
  bind-Keeps, bind-Keeps_eq, make_directory_at-target, ready_with_error-Keeps, unspawned-Within,
  spawn_child-Keeps, make_directory_at-Keeps, mount_smb-Keeps, mount_nfs-Keeps,
}
use virtual_media.Machine.Balance.Spawns.{
  with_target-Keeps, spawn_nbdkit_file-Keeps, spawn_nbdkit_url-Keeps, unless_spawned-Keeps,
  catch_resource-Keeps,
}

-- A file that nbdkit serves, or the error of the caller.
serve_file-Keeps :
    (sys : System) (file : Text) (ec : ℕ) (m : String) (s : Machine)
    → Within 0 s
    → Keeps IsPlain 0 ((spawn_nbdkit_file sys file >>= unless_spawned ec m) s)
serve_file-Keeps sys file ec m s h =
    bind-Keeps Anything IsPlain 0 0 (spawn_nbdkit_file sys file s) (unless_spawned ec m)
      (spawn_nbdkit_file-Keeps sys file s h) λ b t v w. unless_spawned-Keeps ec m b t w

mount_https_share-Keeps :
    (sys : System) (t : Target) (s : Machine)
    → Within 0 s
    → Keeps IsPlain 0 (mount_https_share sys t s)
unfolding mount_https_share
mount_https_share-Keeps sys t s h =
    bind-Keeps Anything IsPlain 0 0 (spawn_nbdkit_url sys t.img_url s)
      (unless_spawned errc_einval "Failed to mount HTTPS share")
      (spawn_nbdkit_url-Keeps sys t.img_url s h) λ b u v w. unless_spawned-Keeps _ _ b u w

mount_local_file-Keeps :
    (sys : System) (t : Target) (s : Machine)
    → Within 0 s
    → Keeps IsPlain 0 (mount_local_file sys t s)
unfolding mount_local_file
mount_local_file-Keeps sys t s h = elim (Bool-cases (not (sys.exists t.img_url))) [
  | inl a ↦ rw a (ready_with_error-Keeps _ _ s h)
  | inr a ↦ rw a (elim (Bool-cases (not (sys.is_regular_file t.img_url))) [
    | inl b ↦ rw b (ready_with_error-Keeps _ _ s h)
    | inr b ↦ rw b (elim (Bool-cases (not (sys.status_error t.img_url == 0))) [
      | inl c ↦ rw c (ready_with_error-Keeps _ _ s h)
      | inr c ↦ rw c (elim (Bool-cases (t.is_rw && not (sys.is_owner_writable t.img_url))) [
        | inl d ↦ rw d (ready_with_error-Keeps _ _ s h)
        | inr d ↦ rw d (serve_file-Keeps sys _ _ _ s h)
      ])
    ])
  ])
]

share_smb-Keeps :
    (sys : System) (t : Target) (s : Machine)
    → s.target ≡ some t
    → Within 0 s
    → Keeps IsPlain 0 (share_smb sys t s)
unfolding share_smb
share_smb-Keeps sys t s e h =
    bind-Keeps_eq Anything IsPlain 1 0 (make_directory_at sys s.name s) _
      (make_directory_at-Keeps sys s.name s h)
      λ dir u q w.
        bind-Keeps Anything IsPlain 0 0 (mount_smb sys dir _ t u) _
          (mount_smb-Keeps sys dir _ t u (make_directory_at-target sys s.name dir s u q ∙ e) w)
          λ a x v y. serve_file-Keeps sys _ _ _ x y

mount_smb_share-Keeps :
    (sys : System) (s : Machine) → Within 0 s → Keeps IsPlain 0 (mount_smb_share sys s)
unfolding mount_smb_share
mount_smb_share-Keeps sys s h =
    catch_resource-Keeps _
      (with_target-Keeps IsPlain 0 (share_smb sys) s h λ t e. share_smb-Keeps sys t s e h)

share_nfs-Keeps :
    (sys : System) (t : Target) (s : Machine)
    → s.target ≡ some t
    → Within 0 s
    → Keeps IsPlain 0 (share_nfs sys t s)
unfolding share_nfs
share_nfs-Keeps sys t s e h =
    bind-Keeps_eq Anything IsPlain 1 0 (make_directory_at sys s.name s) _
      (make_directory_at-Keeps sys s.name s h)
      λ dir u q w.
        bind-Keeps Anything IsPlain 0 0 (mount_nfs sys dir _ t u) _
          (mount_nfs-Keeps sys dir _ t u (make_directory_at-target sys s.name dir s u q ∙ e) w)
          λ a x v y. serve_file-Keeps sys _ _ _ x y

mount_nfs_share-Keeps :
    (sys : System) (s : Machine) → Within 0 s → Keeps IsPlain 0 (mount_nfs_share sys s)
unfolding mount_nfs_share
mount_nfs_share-Keeps sys s h =
    catch_resource-Keeps _
      (with_target-Keeps IsPlain 0 (share_nfs sys) s h λ t e. share_nfs-Keeps sys t s e h)

no_credentials-Keeps : (s : Machine) → Within 0 s → Keeps IsPlain 0 (no_credentials s)
unfolding no_credentials
no_credentials-Keeps s h = ready_with_error-Keeps _ _ s h

save_slot-Within :
    (n : ℕ) (t : Target) (s : Machine) → Within 0 s → Keeps Anything 0 (save_slot n t s)
unfolding save_slot
save_slot-Within n t s h = (tt, ground arith)

mount_by_url-Keeps :
    (sys : System) (n : ℕ) (t : Target) (s : Machine)
    → Within 0 s
    → Keeps IsPlain 0 (mount_by_url sys n t s)
unfolding mount_by_url
mount_by_url-Keeps sys n t s h = elim (Bool-cases (not sys.multi_host && is_local_file t.img_url)) [
  | inl a ↦ rw a (mount_local_file-Keeps sys t s h)
  | inr a ↦ rw a (elim (Bool-cases (is_cifs_url t.img_url)) [
    | inl b ↦ rw b (elim (Bool-cases (has_credentials t.credentials)) [
      | inl c ↦ rw c (
          bind-Keeps Anything IsPlain 0 0 (save_slot n t s) (λ _. mount_smb_share sys)
            (save_slot-Within n t s h) λ x u v w. mount_smb_share-Keeps sys u w)
      | inr c ↦ rw c (no_credentials-Keeps s h)
    ])
    | inr b ↦ rw b (elim (Bool-cases (is_https_url t.img_url)) [
      | inl c ↦ rw c (elim (Bool-cases (has_credentials t.credentials)) [
        | inl d ↦ rw d (mount_https_share-Keeps sys t s h)
        | inr d ↦ rw d (no_credentials-Keeps s h)
      ])
      | inr c ↦ rw c (elim (Bool-cases (is_nfs_url t.img_url)) [
        | inl d ↦ rw d (
            bind-Keeps Anything IsPlain 0 0 (save_slot n t s) (λ _. mount_nfs_share sys)
              (save_slot-Within n t s h) λ x u v w. mount_nfs_share-Keeps sys u w)
        | inr d ↦ rw d (ready_with_error-Keeps _ _ s h)
      ])
    ])
  ])
]

mount_at_slot-Keeps :
    (sys : System) (t : Target) (s : Machine) → Within 0 s → Keeps IsPlain 0 (mount_at_slot sys t s)
unfolding mount_at_slot
mount_at_slot-Keeps sys t s h = elim (Result-cases (extract_slot_number s.name)) [
  | inl (e, r) ↦ rw (r, mount_at_slot) h
  | inr (n, r) ↦
      rw (r, mount_at_slot)
        (elim (Bool-cases (is_negative n)) [
          | inl c ↦ rw c (ready_with_error-Keeps _ _ s h)
          | inr c ↦ rw c (mount_by_url-Keeps sys (pos_part n) t s h)
        ])
]

activate_legacy_mode-Keeps :
    (sys : System) (s : Machine) → Within 0 s → Keeps IsPlain 0 (activate_legacy_mode sys s)
unfolding activate_legacy_mode
activate_legacy_mode-Keeps sys s h = with_target-Keeps IsPlain 0 _ s h λ t e.
    elim (Bool-cases ((socket_directory sys (parent_path s.config.unix_socket)).0 == 0)) [
      | inl c ↦ rw c (mount_at_slot-Keeps sys t _ (ground arith))
      | inr c ↦ rw c (ready_with_error-Keeps _ _ _ (ground arith))
    ]

spawn_client-Keeps :
    (sys : System) (s : Machine) → Within 0 s → Keeps IsPlain 0 (spawn_client sys s)
unfolding spawn_client
spawn_client-Keeps sys s h =
    bind-Keeps Anything IsPlain 0 0 (spawn_child sys _ _ _)
      (unless_spawned errc_ecanceled "Failed to spawn process")
      (spawn_child-Keeps sys _ _ _ (unspawned-Within s h)) λ b u v w. unless_spawned-Keeps _ _ b u w

activate_proxy_mode-Keeps :
    (sys : System) (s : Machine) → Within 0 s → Keeps IsPlain 0 (activate_proxy_mode sys s)
unfolding activate_proxy_mode
activate_proxy_mode-Keeps sys s h = elim (Option-cases s.target) [
  | inl e ↦ rw (e, activate_proxy_mode) (spawn_client-Keeps sys s h)
  | inr (t, e) ↦
      rw (e, activate_proxy_mode)
        (elim (Bool-cases (not sys.multi_host && is_local_file t.img_url)) [
          | inl a ↦ rw a (mount_local_file-Keeps sys t s h)
          | inr a ↦ rw a (spawn_client-Keeps sys s h)
        ])
]

-- Whatever the system answers, and whichever step fails, entering the activating state from a
-- machine in balance ends in balance, in the activating state, with no new state or a ready one,
-- or throws in balance.
pub enter_activating-Keeps :
    (sys : System) (s : Machine) → Within 0 s → Keeps IsPlain 0 (enter_activating sys s)
unfolding enter_activating
enter_activating-Keeps sys s h = elim (Bool-cases (is_proxy s.config.mode)) [
  | inl e ↦ rw e (activate_proxy_mode-Keeps sys _ (ground arith))
  | inr e ↦ rw e (activate_legacy_mode-Keeps sys _ (ground arith))
]
