-- ===== src/Machine/Balance/Spawns.antt =====
-- What the children of an activating state acquire is held or given back
-- (src/state/activating_state.cpp).
use virtual_media.Base.{
  ℕ, ◌≡◌, Bool, true, false, Option, none, some, List, if◌then◌else◌, Text, arith, Bool-cases,
  Option-cases, inl, inr, String, resource, invalid_argument,
}
use virtual_media.Credentials.{Credentials}
use virtual_media.Machine.Types.{Target, State, System, Machine, Outcome, done, threw, M, pure}
use virtual_media.Machine.Activating.{
  clear_socket, spawn_with_target, credential_params, spawn_with_credentials, spawn_nbdkit,
  spawn_nbdkit_file, spawn_nbdkit_url, with_target, unless_spawned, catch_resource,
}
use virtual_media.Machine.Balance.{Within, Keeps, IsPlain, Anything}
use virtual_media.Machine.Balance.Primitives.{bind-Keeps, ready_with_error-Keeps, spawn_child-Keeps}

clear_socket-Keeps :
    (sys : System) (s : Machine) → Within 0 s → Keeps Anything 0 (clear_socket sys s)
unfolding clear_socket
clear_socket-Keeps sys s h = elim (Bool-cases (sys.exists s.config.unix_socket)) [
  | inr e ↦ rw e (tt, h)
  | inl e ↦ rw e (elim (Bool-cases (sys.remove s.config.unix_socket)) [
    | inl f ↦ rw f (tt, ground arith)
    | inr f ↦ rw f (tt, h)
  ])
]

pub with_target-Keeps :
    {A : Type 0} (V : A → Type 0) (d : ℕ) (f : Target → M A) (s : Machine)
    → Within 0 s
    → ((t : Target) → s.target ≡ some t → Keeps V d (f t s))
    → Keeps V d (with_target f s)
unfolding with_target
with_target-Keeps V d f s h k = elim (Option-cases s.target) [
  | inl e ↦ rw (e, with_target) h
  | inr (t, e) ↦ rw (e, with_target) (k t e)
]

spawn_with_target-Keeps :
    (sys : System) (params : List Text) (s : Machine)
    → Within 0 s
    → Keeps Anything 0 (spawn_with_target sys params s)
unfolding spawn_with_target
spawn_with_target-Keeps sys params s h =
    with_target-Keeps Anything 0 _ s h λ t e. spawn_child-Keeps sys _ _ s h

spawn_nbdkit-Keeps :
    (sys : System) (params : List Text) (s : Machine)
    → Within 0 s
    → Keeps Anything 0 (spawn_nbdkit sys params s)
unfolding spawn_nbdkit
spawn_nbdkit-Keeps sys params s h =
    bind-Keeps Anything Anything 0 0 (clear_socket sys s)
      (λ clear. if clear then spawn_with_target sys params else pure false)
      (clear_socket-Keeps sys s h) go
  where
    go :
        (clear : Bool) (t : Machine)
        → Unit {0}
        → Within 0 t
        → Keeps Anything 0 ((if clear then spawn_with_target sys params else pure false) t)
    go true t v w = spawn_with_target-Keeps sys params t w
    go false t v w = (tt, w)

pub spawn_nbdkit_file-Keeps :
    (sys : System) (file : Text) (s : Machine)
    → Within 0 s
    → Keeps Anything 0 (spawn_nbdkit_file sys file s)
unfolding spawn_nbdkit_file
spawn_nbdkit_file-Keeps sys file s h = spawn_nbdkit-Keeps sys _ s h

credential_params-Keeps :
    (user : Text) (file : Option Text) (s : Machine)
    → Within 0 s
    → Keeps Anything 0 (credential_params user file s)
unfolding credential_params
credential_params-Keeps user none s h = h
credential_params-Keeps user (some f) s h = (tt, h)

spawn_with_credentials-Keeps :
    (sys : System) (url : Text) (c : Option Credentials) (s : Machine)
    → Within 0 s
    → Keeps Anything 0 (spawn_with_credentials sys url c s)
unfolding spawn_with_credentials
spawn_with_credentials-Keeps sys url none s h = spawn_nbdkit-Keeps sys _ s h
spawn_with_credentials-Keeps sys url (some c) s h =
    bind-Keeps Anything Anything 0 0 (credential_params c.user sys.secret_file s) _
      (credential_params-Keeps c.user sys.secret_file s h)
      λ more t v w. spawn_nbdkit-Keeps sys _ t w

pub spawn_nbdkit_url-Keeps :
    (sys : System) (url : Text) (s : Machine)
    → Within 0 s
    → Keeps Anything 0 (spawn_nbdkit_url sys url s)
unfolding spawn_nbdkit_url
spawn_nbdkit_url-Keeps sys url s h =
    with_target-Keeps Anything 0 _ s h λ t e. spawn_with_credentials-Keeps sys url t.credentials s h

pub unless_spawned-Keeps :
    (ec : ℕ) (m : String) (b : Bool) (s : Machine)
    → Within 0 s
    → Keeps IsPlain 0 (unless_spawned ec m b s)
unfolding unless_spawned
unless_spawned-Keeps ec m true s h = (tt, h)
unless_spawned-Keeps ec m false s h = ready_with_error-Keeps ec m s h

pub catch_resource-Keeps :
    (o : Outcome (Option State)) → Keeps IsPlain 0 o → Keeps IsPlain 0 (catch_resource o)
unfolding catch_resource
catch_resource-Keeps (done a t) h = h
catch_resource-Keeps (threw (resource e) t) h = ready_with_error-Keeps e "resource::Error" t h
catch_resource-Keeps (threw invalid_argument t) h = h
catch_resource-Keeps (threw _ t) h = h
