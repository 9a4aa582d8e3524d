-- ===== src/Machine/Balance.antt =====
-- What a machine has acquired and given back, counted over its trace.
pub mod Primitives
pub mod Spawns
pub mod Activation
pub mod Events
pub mod Steps
use virtual_media.Base.{
  ℕ, ◌+◌, ◌≡◌, Bool, true, false, Option, none, some, List, [], ◌∷◌, if◌then◌else◌, Text,
}
use virtual_media.Machine.Types.{
  Process, Gadget, Target, State, initial, ready, activating, active, deactivating, Action,
  spawn_process, stop_process, insert_gadget, remove_gadget, clean_gadget, clean_mount,
  make_directory, remove_directory, mount_share, unmount_share, remove_socket, save_image_url,
  save_credentials, add_interface, Machine, Outcome, done, threw,
}

-- What an action adds to each of the eight counts.
pub record Tally : Type 0 where
  pub spawns : ℕ
  pub stops : ℕ
  pub inserts : ℕ
  pub removes : ℕ
  pub mounts : ℕ
  pub unmounts : ℕ
  pub makes : ℕ
  pub removals : ℕ

-- The counts of a trace.
abbrev pub tally : List Action → Tally
tally [] = record {
  spawns = 0;
  stops = 0;
  inserts = 0;
  removes = 0;
  mounts = 0;
  unmounts = 0;
  makes = 0;
  removals = 0;
}
tally (spawn_process a b ∷ rest) = let t = tally rest in record t { spawns = t.spawns + 1 }
tally (stop_process ∷ rest) = let t = tally rest in record t { stops = t.stops + 1 }
tally (insert_gadget a b ∷ rest) = let t = tally rest in record t { inserts = t.inserts + 1 }
tally (remove_gadget ∷ rest) = let t = tally rest in record t { removes = t.removes + 1 }
tally (mount_share a ∷ rest) = let t = tally rest in record t { mounts = t.mounts + 1 }
tally (unmount_share a ∷ rest) = let t = tally rest in record t { unmounts = t.unmounts + 1 }
tally (make_directory a ∷ rest) = let t = tally rest in record t { makes = t.makes + 1 }
tally (remove_directory a ∷ rest) = let t = tally rest in record t { removals = t.removals + 1 }
tally (clean_gadget ∷ rest) = tally rest
tally (clean_mount a ∷ rest) = tally rest
tally (remove_socket a ∷ rest) = tally rest
tally (save_image_url a ∷ rest) = tally rest
tally (save_credentials a b c d ∷ rest) = tally rest
tally (add_interface a ∷ rest) = tally rest

abbrev pub process_weight : Option Process → ℕ
process_weight none = 0
process_weight (some p) = if p.spawned then 1 else 0

abbrev pub gadget_weight : Option Gadget → ℕ
gadget_weight none = 0
gadget_weight (some g) = 1

abbrev pub live_processes : State → ℕ
live_processes initial = 0
live_processes (ready e) = 0
live_processes (activating p g) = process_weight p
live_processes (active p g) = process_weight p
live_processes (deactivating p g u b) = process_weight p

abbrev pub live_gadgets : State → ℕ
live_gadgets initial = 0
live_gadgets (ready e) = 0
live_gadgets (activating p g) = gadget_weight g
live_gadgets (active p g) = gadget_weight g
live_gadgets (deactivating p g u b) = gadget_weight g

abbrev pub mount_weight : Option Text → ℕ
mount_weight none = 0
mount_weight (some dir) = 1

abbrev pub live_mounts : Option Target → ℕ
live_mounts none = 0
live_mounts (some t) = mount_weight t.mount_point + mount_weight t.mount_point_nfs

-- Every child, gadget, mount and mount directory that was acquired was given back once or is
-- held: by the state, by the target, or by the running operation (`p` processes, `g` gadgets and
-- `d` directories).
pub record BalanceWith (p g d : ℕ) (s : Machine) : Type 0 where
  pub processes : (tally s.trace).spawns ≡ (tally s.trace).stops + (live_processes s.state + p)
  pub gadgets : (tally s.trace).inserts ≡ (tally s.trace).removes + (live_gadgets s.state + g)
  pub mounts : (tally s.trace).mounts ≡ (tally s.trace).unmounts + live_mounts s.target
  pub directories : (tally s.trace).makes ≡ (tally s.trace).removals + (live_mounts s.target + d)

abbrev pub IsBalanced : Machine → Type 0
IsBalanced = BalanceWith 0 0 0

abbrev pub is_activating : State → Bool
is_activating (activating p g) = true
is_activating _ = false

-- In an activating state, with `d` directories held by the operation.
abbrev pub Within : ℕ → Machine → Type 0
Within d s = BalanceWith 0 0 d s × (is_activating s.state ≡ true)

-- An outcome whose value satisfies a predicate and whose machine is in balance.
abbrev pub Keeps {ℓ} : {A : Type ℓ} → (A → Type 0) → ℕ → Outcome A → Type 0
Keeps V d (done a t) = V a × Within d t
Keeps V d (threw e t) = Within 0 t

-- No new state, or a ready one, which holds nothing.
abbrev pub IsPlain : Option State → Type 0
IsPlain none = Unit
IsPlain (some (ready e)) = Unit
IsPlain _ = ⊥

abbrev pub Anything {ℓ} : {A : Type ℓ} → A → Type 0
Anything a = Unit
