-- ===== src/Machine/Protocol/Activation.antt =====
-- What the client of a mount is told while the machine enters the activating state, whichever
-- step fails (src/state/activating_state.cpp).
use virtual_media.Base.{
  ℕ, ◌≡◌, false, Option, Text, arith, Bool-cases, Option-cases, Result-cases, inl, inr, String,
  ◌==◌, ◌&&◌, not, is_negative, pos_part, errc_ecanceled, errc_einval, refl, true,
}
use virtual_media.Notification.{Notification}
use virtual_media.Url.{
  extract_slot_number, is_local_file, is_cifs_url, is_https_url, is_nfs_url, parent_path,
}
use virtual_media.Url.Slot.{extract_slot_number-IsFailure}
use virtual_media.Machine.Types.{Target, System, Machine, ◌>>=◌}
use virtual_media.Machine.Resources.{make_directory_at, mount_smb, mount_nfs}
use virtual_media.Machine.Activating.{
  spawn_child, spawn_nbdkit_file, spawn_nbdkit_url, unless_spawned, share_smb, share_nfs,
  mount_smb_share, mount_nfs_share, mount_https_share, mount_local_file,
}
use virtual_media.Machine.Legacy.{
  no_credentials, save_slot, socket_directory, spawn_client, is_proxy, mount_by_url, mount_at_slot,
  activate_legacy_mode, activate_proxy_mode, enter_activating, has_credentials,
}
use virtual_media.Machine.Protocol.Replies.{
  IsQuiet, Tells, Silent, Replied, bind-Tells, ready_with_error-Tells, set_process-IsQuiet,
  spawn_child-Tells, with_target-Tells, spawn_nbdkit_file-Tells, spawn_nbdkit_url-Tells,
  unless_spawned-Tells, catch_resource-Tells, make_directory_at-Tells, mount_smb-Tells,
  mount_nfs-Tells,
}

not_zero : (n : ℕ) → not (n == 0) ≡ true → (n == 0) ≡ false
not_zero n h = ground arith

module _ (c : Option Notification) where
  serve_file-Tells :
      (sys : System) (file : Text) (ec : ℕ) (m : String) (s : Machine)
      → (ec == 0) ≡ false
      → IsQuiet c s
      → Tells c (Replied c) ((spawn_nbdkit_file sys file >>= unless_spawned ec m) s)
  serve_file-Tells sys file ec m s z h =
      bind-Tells c (Silent c) (Replied c) (spawn_nbdkit_file sys file s) (unless_spawned ec m)
        (spawn_nbdkit_file-Tells c sys file s h) λ b t v. unless_spawned-Tells c ec m b t z v

  mount_https_share-Tells :
      (sys : System) (t : Target) (s : Machine)
      → IsQuiet c s
      → Tells c (Replied c) (mount_https_share sys t s)
  unfolding mount_https_share
  mount_https_share-Tells sys t s h =
      bind-Tells c (Silent c) (Replied c) (spawn_nbdkit_url sys t.img_url s)
        (unless_spawned errc_einval "Failed to mount HTTPS share")
        (spawn_nbdkit_url-Tells c sys t.img_url s h) λ b u v. unless_spawned-Tells c _ _ b u refl v

  mount_local_file-Tells :
      (sys : System) (t : Target) (s : Machine)
      → IsQuiet c s
      → Tells c (Replied c) (mount_local_file sys t s)
  unfolding mount_local_file
  mount_local_file-Tells sys t s h = elim (Bool-cases (not (sys.exists t.img_url))) [
    | inl a ↦ rw a (ready_with_error-Tells c _ _ s refl h)
    | inr a ↦ rw a (elim (Bool-cases (not (sys.is_regular_file t.img_url))) [
      | inl b ↦ rw b (ready_with_error-Tells c _ _ s refl h)
      | inr b ↦ rw b (elim (Bool-cases (not (sys.status_error t.img_url == 0))) [
        | inl k ↦ rw k (ready_with_error-Tells c _ _ s (not_zero _ k) h)
        | inr k ↦ rw k (elim (Bool-cases (t.is_rw && not (sys.is_owner_writable t.img_url))) [
          | inl d ↦ rw d (ready_with_error-Tells c _ _ s refl h)
          | inr d ↦ rw d (serve_file-Tells sys _ _ _ s refl h)
        ])
      ])
    ])
  ]

  share_smb-Tells :
      (sys : System) (t : Target) (s : Machine)
      → IsQuiet c s
      → Tells c (Replied c) (share_smb sys t s)
  unfolding share_smb
  share_smb-Tells sys t s h =
      bind-Tells c (Silent c) (Replied c) (make_directory_at sys s.name s) _
        (make_directory_at-Tells c sys s.name s h)
        λ dir u w.
          bind-Tells c (Silent c) (Replied c) (mount_smb sys dir _ t u) _
            (mount_smb-Tells c sys dir _ t u w) λ a x v. serve_file-Tells sys _ _ _ x refl v

  mount_smb_share-Tells :
      (sys : System) (s : Machine) → IsQuiet c s → Tells c (Replied c) (mount_smb_share sys s)
  unfolding mount_smb_share
  mount_smb_share-Tells sys s h =
      catch_resource-Tells c _
        (with_target-Tells c (Replied c) (share_smb sys) s h λ t. share_smb-Tells sys t s h)

  share_nfs-Tells :
      (sys : System) (t : Target) (s : Machine)
      → IsQuiet c s
      → Tells c (Replied c) (share_nfs sys t s)
  unfolding share_nfs
  share_nfs-Tells sys t s h =
      bind-Tells c (Silent c) (Replied c) (make_directory_at sys s.name s) _
        (make_directory_at-Tells c sys s.name s h)
        λ dir u w.
          bind-Tells c (Silent c) (Replied c) (mount_nfs sys dir _ t u) _
            (mount_nfs-Tells c sys dir _ t u w) λ a x v. serve_file-Tells sys _ _ _ x refl v

  mount_nfs_share-Tells :
      (sys : System) (s : Machine) → IsQuiet c s → Tells c (Replied c) (mount_nfs_share sys s)
  unfolding mount_nfs_share
  mount_nfs_share-Tells sys s h =
      catch_resource-Tells c _
        (with_target-Tells c (Replied c) (share_nfs sys) s h λ t. share_nfs-Tells sys t s h)

  no_credentials-Tells : (s : Machine) → IsQuiet c s → Tells c (Replied c) (no_credentials s)
  unfolding no_credentials
  no_credentials-Tells s h = ready_with_error-Tells c _ _ s refl h

  save_slot-Tells :
      (n : ℕ) (t : Target) (s : Machine) → IsQuiet c s → Tells c (Silent c) (save_slot n t s)
  unfolding save_slot
  save_slot-Tells n t s h = h

  mount_by_url-Tells :
      (sys : System) (n : ℕ) (t : Target) (s : Machine)
      → IsQuiet c s
      → Tells c (Replied c) (mount_by_url sys n t s)
  unfolding mount_by_url
  mount_by_url-Tells sys n t s h =
      elim (Bool-cases (not sys.multi_host && is_local_file t.img_url)) [
        | inl a ↦ rw a (mount_local_file-Tells sys t s h)
        | inr a ↦ rw a (elim (Bool-cases (is_cifs_url t.img_url)) [
          | inl b ↦ rw b (elim (Bool-cases (has_credentials t.credentials)) [
            | inl k ↦ rw k (
                bind-Tells c (Silent c) (Replied c) (save_slot n t s) (λ _. mount_smb_share sys)
                  (save_slot-Tells n t s h) λ x u v. mount_smb_share-Tells sys u v)
            | inr k ↦ rw k (no_credentials-Tells s h)
          ])
          | inr b ↦ rw b (elim (Bool-cases (is_https_url t.img_url)) [
            | inl k ↦ rw k (elim (Bool-cases (has_credentials t.credentials)) [
              | inl d ↦ rw d (mount_https_share-Tells sys t s h)
              | inr d ↦ rw d (no_credentials-Tells s h)
            ])
            | inr k ↦ rw k (elim (Bool-cases (is_nfs_url t.img_url)) [
              | inl d ↦ rw d (
                  bind-Tells c (Silent c) (Replied c) (save_slot n t s) (λ _. mount_nfs_share sys)
                    (save_slot-Tells n t s h) λ x u v. mount_nfs_share-Tells sys u v)
              | inr d ↦ rw d (ready_with_error-Tells c _ _ s refl h)
            ])
          ])
        ])
      ]

  mount_at_slot-Tells :
      (sys : System) (t : Target) (s : Machine)
      → IsQuiet c s
      → Tells c (Replied c) (mount_at_slot sys t s)
  unfolding mount_at_slot
  mount_at_slot-Tells sys t s h = elim (Result-cases (extract_slot_number s.name)) [
    | inl (e, r) ↦ rw (r, mount_at_slot) (extract_slot_number-IsFailure s.name e r, h)
    | inr (n, r) ↦
        rw (r, mount_at_slot)
          (elim (Bool-cases (is_negative n)) [
            | inl k ↦ rw k (ready_with_error-Tells c _ _ s refl h)
            | inr k ↦ rw k (mount_by_url-Tells sys (pos_part n) t s h)
          ])
  ]

  activate_legacy_mode-Tells :
      (sys : System) (s : Machine) → IsQuiet c s → Tells c (Replied c) (activate_legacy_mode sys s)
  unfolding activate_legacy_mode
  activate_legacy_mode-Tells sys s h = with_target-Tells c (Replied c) _ s h λ t.
      elim (Bool-cases ((socket_directory sys (parent_path s.config.unix_socket)).0 == 0)) [
        | inl k ↦ rw k (mount_at_slot-Tells sys t _ h)
        | inr k ↦ rw k (ready_with_error-Tells c _ _ _ k h)
      ]

  spawn_client-Tells :
      (sys : System) (s : Machine) → IsQuiet c s → Tells c (Replied c) (spawn_client sys s)
  unfolding spawn_client
  spawn_client-Tells sys s h =
      bind-Tells c (Silent c) (Replied c) (spawn_child sys _ _ _)
        (unless_spawned errc_ecanceled "Failed to spawn process")
        (spawn_child-Tells c sys _ _ _ (set_process-IsQuiet c _ s h))
        λ b u v. unless_spawned-Tells c _ _ b u refl v

  activate_proxy_mode-Tells :
      (sys : System) (s : Machine) → IsQuiet c s → Tells c (Replied c) (activate_proxy_mode sys s)
  unfolding activate_proxy_mode
  activate_proxy_mode-Tells sys s h = elim (Option-cases s.target) [
    | inl e ↦ rw (e, activate_proxy_mode) (spawn_client-Tells sys s h)
    | inr (t, e) ↦
        rw (e, activate_proxy_mode)
          (elim (Bool-cases (not sys.multi_host && is_local_file t.img_url)) [
            | inl a ↦ rw a (mount_local_file-Tells sys t s h)
            | inr a ↦ rw a (spawn_client-Tells sys s h)
          ])
  ]

-- Entering the activating state tells the client nothing, or the code of the error that the
-- ready state keeps, which is not 0; if it throws, it has told nothing.
pub enter_activating-Tells :
    (c : Option Notification) (sys : System) (s : Machine)
    → IsQuiet c s
    → Tells c (Replied c) (enter_activating sys s)
unfolding enter_activating
enter_activating-Tells c sys s h = elim (Bool-cases (is_proxy s.config.mode)) [
  | inl e ↦ rw e (activate_proxy_mode-Tells c sys _ h)
  | inr e ↦ rw e (activate_legacy_mode-Tells c sys _ h)
]
