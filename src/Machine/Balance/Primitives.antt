-- ===== src/Machine/Balance/Primitives.antt =====
-- The destructors and the small steps keep the balance (src/resources.hpp, src/resources.cpp).
use virtual_media.Base.{
  ℕ, ◌+◌, ◌≡◌, refl, true, false, Option, some, List, Text, arith, Bool-cases, Option-cases, inl,
  inr, String, ◌==◌, join_path,
}
use virtual_media.Share.{smb_mount, nfs_mount}
use virtual_media.Machine.Types.{Process, Target, State, System, Machine, Outcome, done, threw, M}
use virtual_media.Machine.Resources.{
  drop_state, set_target, set_process, notify, mount_parent, make_directory_at, mount_smb,
  mount_nfs, ready_with_error,
}
use virtual_media.Machine.Activating.{spawn_child}
use virtual_media.Machine.Balance.{
  process_weight, live_processes, live_gadgets, live_mounts, BalanceWith, Within, Keeps, IsPlain,
  Anything, is_activating,
}

pub drop_state-BalanceWith :
    (old : State) (p g : ℕ) (s : Machine)
    → BalanceWith (live_processes old + p) (live_gadgets old + g) 0 s
    → BalanceWith p g 0 (drop_state old s)
unfolding drop_state
drop_state-BalanceWith old p g s h = ground arith

pub set_target-BalanceWith :
    (p g : ℕ) (t : Option Target) (s : Machine)
    → live_mounts t ≡ 0
    → BalanceWith p g 0 s
    → BalanceWith p g 0 (set_target t s)
unfolding set_target
set_target-BalanceWith p g t s e h = ground arith

pub bind-Keeps {ℓ} :
    {A : Type ℓ} {B : Type 0} (V : A → Type 0) (W : B → Type 0) (c d : ℕ) (o : Outcome A)
    (f : A → M B)
    → Keeps V c o
    → ((a : A) (t : Machine) → V a → Within c t → Keeps W d (f a t))
    → Keeps W d (elim o [ done a t ↦ f a t | threw e t ↦ threw e t ])
bind-Keeps V W c d (done a t) f h k = k a t h.0 h.1
bind-Keeps V W c d (threw e t) f h k = h

-- The same, where the continuation needs the equation.
pub bind-Keeps_eq {ℓ} :
    {A : Type ℓ} {B : Type 0} (V : A → Type 0) (W : B → Type 0) (c d : ℕ) (o : Outcome A)
    (f : A → M B)
    → Keeps V c o
    → ((a : A) (t : Machine) → o ≡ done a t → Within c t → Keeps W d (f a t))
    → Keeps W d (elim o [ done a t ↦ f a t | threw e t ↦ threw e t ])
bind-Keeps_eq V W c d (done a t) f h k = k a t refl h.1
bind-Keeps_eq V W c d (threw e t) f h k = h

pub notify-Keeps : (ec : ℕ) (s : Machine) → Within 0 s → Keeps Anything 0 (notify ec s)
unfolding notify
notify-Keeps ec s h = elim (Option-cases s.completion) [
  | inl e ↦ rw (e, notify) h
  | inr (n, e) ↦ rw (e, notify) (tt, ground arith)
]

pub ready_with_error-Keeps :
    (ec : ℕ) (m : String) (s : Machine) → Within 0 s → Keeps IsPlain 0 (ready_with_error ec m s)
unfolding ready_with_error
ready_with_error-Keeps ec m s h =
    bind-Keeps Anything IsPlain 0 0 (notify ec s) _ (notify-Keeps ec s h) (λ a t v w. (tt, w))

set_process-Within :
    (q : Option Process) (s : Machine)
    → BalanceWith (process_weight q) 0 0 s
    → is_activating s.state ≡ true
    → Within 0 (set_process q s)
unfolding set_process
set_process-Within q s h k = elim_state s.state refl
  where
    elim_state : (old : State) → s.state ≡ old → Within 0 (set_process q s)
    elim_state old e = ground arith

pub unspawned-Within :
    (s : Machine) → Within 0 s → Within 0 (set_process (some (record { spawned = false })) s)
unspawned-Within s h = set_process-Within (some (record { spawned = false })) s (ground arith) h.1

pub spawn_child-Keeps :
    (sys : System) (app : Text) (args : List Text) (s : Machine)
    → Within 0 s
    → Keeps Anything 0 (spawn_child sys app args s)
unfolding spawn_child
spawn_child-Keeps sys app args s h = elim (Bool-cases (sys.spawn app args)) [
  | inl e ↦ rw e (tt, set_process-Within (some (record { spawned = true })) _ (ground arith) h.1)
  | inr e ↦ rw e (tt, h)
]

pub make_directory_at-Keeps :
    (sys : System) (name : Text) (s : Machine)
    → Within 0 s
    → Keeps Anything 1 (make_directory_at sys name s)
unfolding make_directory_at
make_directory_at-Keeps sys name s h =
    elim (Bool-cases (sys.create_directories (join_path (mount_parent sys) name))) [
      | inl e ↦ rw e (tt, ground arith)
      | inr e ↦ rw e (ground arith)
    ]

pub make_directory_at-target :
    (sys : System) (name dir : Text) (s t : Machine)
    → make_directory_at sys name s ≡ done dir t
    → t.target ≡ s.target
unfolding make_directory_at
make_directory_at-target sys name dir s t h = ground arith

pub mount_smb-Keeps :
    (sys : System) (dir remote : Text) (t : Target) (s : Machine)
    → s.target ≡ some t
    → Within 1 s
    → Keeps Anything 0 (mount_smb sys dir remote t s)
unfolding mount_smb
mount_smb-Keeps sys dir remote t s e h =
    elim (Bool-cases ((smb_mount sys.mount_call remote dir t.is_rw t.credentials).0 == 0)) [
      | inl z ↦ rw z (tt, ground arith)
      | inr z ↦ rw z (ground arith)
    ]

pub mount_nfs-Keeps :
    (sys : System) (dir remote : Text) (t : Target) (s : Machine)
    → s.target ≡ some t
    → Within 1 s
    → Keeps Anything 0 (mount_nfs sys dir remote t s)
unfolding mount_nfs
mount_nfs-Keeps sys dir remote t s e h =
    elim (Bool-cases (nfs_mount sys.mount_call remote dir t.is_rw == 0)) [
      | inl z ↦ rw z (tt, ground arith)
      | inr z ↦ rw z (ground arith)
    ]
