-- ===== src/Machine/Protocol/Replies.antt =====
-- What the client of a mount is told while the machine enters the activating state: nothing, or
-- the code of the ready state that follows (src/state/activating_state.cpp).
use virtual_media.Base.{
  ℕ, ◌≡◌, refl, Bool, true, false, Option, none, some, List, if◌then◌else◌, Text, arith, Bool-cases,
  Option-cases, inl, inr, String, resource, ◌==◌, sdbus, IsFailure,
}
use virtual_media.Credentials.{Credentials}
use virtual_media.Notification
use virtual_media.Notification.{Notification}
use virtual_media.Share.{smb_mount, nfs_mount}
use virtual_media.Machine.Types.{
  Target, State, ready, Process, System, Machine, Outcome, done, threw, M, pure, mount_share,
}
use virtual_media.Machine.Resources.{
  notify, make_directory_at, mount_smb, mount_nfs, ready_with_error, set_process, act, drop_mount,
}
use virtual_media.Machine.Balance.{is_activating}
use virtual_media.Machine.Activating.{
  spawn_child, clear_socket, spawn_with_target, credential_params, spawn_with_credentials,
  spawn_nbdkit, spawn_nbdkit_file, spawn_nbdkit_url, with_target, unless_spawned, catch_resource,
}

module _ (c : Option Notification) where
  abbrev pub IsQuiet : Machine → Type 0
  IsQuiet s = (s.completion ≡ c) × (is_activating s.state ≡ true)

  -- A value that satisfies a predicate with its machine, or an exception that has told nothing.
  abbrev pub Tells {ℓ} : {A : Type ℓ} → (A → Machine → Type 0) → Outcome A → Type 0
  Tells V (done a t) = V a t
  Tells V (threw e t) = IsFailure e × IsQuiet t

  abbrev pub Silent {ℓ} : {A : Type ℓ} → A → Machine → Type 0
  Silent a t = IsQuiet t

  -- A ready state that follows has an error, whose code was told.
  abbrev pub Replied : Option State → Machine → Type 0
  Replied none t = IsQuiet t
  Replied (some (ready (some e))) t =
      ((e.code == 0) ≡ false)
      × (n : Notification) × (c ≡ some n)
      × (t.completion ≡ some (Notification.notify e.code n))
  Replied _ t = ⊥

  pub bind-Tells {ℓ} :
      {A : Type ℓ} {B : Type 0} (V : A → Machine → Type 0) (W : B → Machine → Type 0)
      (o : Outcome A) (f : A → M B)
      → Tells V o
      → ((a : A) (t : Machine) → V a t → Tells W (f a t))
      → Tells W (elim o [ done a t ↦ f a t | threw e t ↦ threw e t ])
  bind-Tells V W (done a t) f h k = k a t h
  bind-Tells V W (threw e t) f h k = h

  pub ready_with_error-Tells :
      (ec : ℕ) (m : String) (s : Machine)
      → (ec == 0) ≡ false
      → IsQuiet s
      → Tells Replied (ready_with_error ec m s)
  unfolding ready_with_error notify
  ready_with_error-Tells ec m s z h = elim (Option-cases s.completion) [
    | inl e ↦ rw (e, notify) (tt, (cc, h.1))
    | inr (n, e) ↦ rw (e, notify) (z, n, ground arith, refl)
  ]

  pub set_process-IsQuiet :
      (q : Option Process) (s : Machine) → IsQuiet s → IsQuiet (set_process q s)
  unfolding set_process
  set_process-IsQuiet q s h = ground arith

  pub spawn_child-Tells :
      (sys : System) (app : Text) (args : List Text) (s : Machine)
      → IsQuiet s
      → Tells Silent (spawn_child sys app args s)
  unfolding spawn_child
  spawn_child-Tells sys app args s h = elim (Bool-cases (sys.spawn app args)) [
    | inl e ↦ rw e (set_process-IsQuiet _ _ h)
    | inr e ↦ rw e h
  ]

  clear_socket-Tells : (sys : System) (s : Machine) → IsQuiet s → Tells Silent (clear_socket sys s)
  unfolding clear_socket
  clear_socket-Tells sys s h = ground arith

  pub with_target-Tells :
      {A : Type 0} (V : A → Machine → Type 0) (f : Target → M A) (s : Machine)
      → IsQuiet s
      → ((t : Target) → Tells V (f t s))
      → Tells V (with_target f s)
  unfolding with_target
  with_target-Tells V f s h k = elim (Option-cases s.target) [
    | inl e ↦ rw (e, with_target) (tt, h)
    | inr (t, e) ↦ rw (e, with_target) (k t)
  ]

  spawn_if-Tells :
      (sys : System) (params : List Text) (clear : Bool) (t : Machine)
      → IsQuiet t
      → Tells Silent ((if clear then spawn_with_target sys params else pure false) t)
  unfolding spawn_with_target
  spawn_if-Tells sys params true t h =
      with_target-Tells Silent _ t h λ u. spawn_child-Tells sys _ _ t h
  spawn_if-Tells sys params false t h = h

  spawn_nbdkit-Tells :
      (sys : System) (params : List Text) (s : Machine)
      → IsQuiet s
      → Tells Silent (spawn_nbdkit sys params s)
  unfolding spawn_nbdkit
  spawn_nbdkit-Tells sys params s h =
      bind-Tells Silent Silent (clear_socket sys s) _ (clear_socket-Tells sys s h)
        (spawn_if-Tells sys params)

  pub spawn_nbdkit_file-Tells :
      (sys : System) (file : Text) (s : Machine)
      → IsQuiet s
      → Tells Silent (spawn_nbdkit_file sys file s)
  unfolding spawn_nbdkit_file
  spawn_nbdkit_file-Tells sys file s h = spawn_nbdkit-Tells sys _ s h

  credential_params-Tells :
      (user : Text) (file : Option Text) (s : Machine)
      → IsQuiet s
      → Tells Silent (credential_params user file s)
  unfolding credential_params
  credential_params-Tells user none s h = (tt, h)
  credential_params-Tells user (some f) s h = h

  spawn_with_credentials-Tells :
      (sys : System) (url : Text) (k : Option Credentials) (s : Machine)
      → IsQuiet s
      → Tells Silent (spawn_with_credentials sys url k s)
  unfolding spawn_with_credentials
  spawn_with_credentials-Tells sys url none s h = spawn_nbdkit-Tells sys _ s h
  spawn_with_credentials-Tells sys url (some k) s h =
      bind-Tells Silent Silent (credential_params k.user sys.secret_file s) _
        (credential_params-Tells k.user sys.secret_file s h)
        λ more t v. spawn_nbdkit-Tells sys _ t v

  pub spawn_nbdkit_url-Tells :
      (sys : System) (url : Text) (s : Machine)
      → IsQuiet s
      → Tells Silent (spawn_nbdkit_url sys url s)
  unfolding spawn_nbdkit_url
  spawn_nbdkit_url-Tells sys url s h =
      with_target-Tells Silent _ s h λ t. spawn_with_credentials-Tells sys url t.credentials s h

  pub unless_spawned-Tells :
      (ec : ℕ) (m : String) (b : Bool) (s : Machine)
      → (ec == 0) ≡ false
      → IsQuiet s
      → Tells Replied (unless_spawned ec m b s)
  unfolding unless_spawned
  unless_spawned-Tells ec m true s z h = h
  unless_spawned-Tells ec m false s z h = ready_with_error-Tells ec m s z h

  pub catch_resource-Tells :
      (o : Outcome (Option State)) → Tells Replied o → Tells Replied (catch_resource o)
  unfolding catch_resource
  catch_resource-Tells (done a t) h = h
  catch_resource-Tells (threw (resource e) t) h =
      ready_with_error-Tells e "resource::Error" t h.0 h.1
  catch_resource-Tells (threw (sdbus e) t) h = h
  catch_resource-Tells (threw _ t) h = h

  pub make_directory_at-Tells :
      (sys : System) (name : Text) (s : Machine)
      → IsQuiet s
      → Tells Silent (make_directory_at sys name s)
  unfolding make_directory_at
  make_directory_at-Tells sys name s h = ground arith

  drop_mount-IsQuiet : (m : Option Text) (s : Machine) → IsQuiet s → IsQuiet (drop_mount m s)
  unfolding drop_mount
  drop_mount-IsQuiet m s h = ground arith

  pub mount_smb-Tells :
      (sys : System) (dir remote : Text) (t : Target) (s : Machine)
      → IsQuiet s
      → Tells Silent (mount_smb sys dir remote t s)
  unfolding mount_smb
  mount_smb-Tells sys dir remote t s h =
      elim (Bool-cases ((smb_mount sys.mount_call remote dir t.is_rw t.credentials).0 == 0)) [
        | inl z ↦ rw z (drop_mount-IsQuiet t.mount_point (act (mount_share dir) s) h)
        | inr z ↦ rw z (z, h)
      ]

  pub mount_nfs-Tells :
      (sys : System) (dir remote : Text) (t : Target) (s : Machine)
      → IsQuiet s
      → Tells Silent (mount_nfs sys dir remote t s)
  unfolding mount_nfs
  mount_nfs-Tells sys dir remote t s h =
      elim (Bool-cases (nfs_mount sys.mount_call remote dir t.is_rw == 0)) [
        | inl z ↦ rw z (drop_mount-IsQuiet t.mount_point_nfs (act (mount_share dir) s) h)
        | inr z ↦ rw z (z, h)
      ]
