-- ===== src/UsbGadget/Results.antt =====
-- What the status of `UsbGadget::configure` says of an inserted device (src/system.hpp).
use virtual_media.Base.{
  Exception, refl, ◌≡◌, ◌⊎◌, inl, inr, Bool, true, false, Text, codes, ℤ, pos, Bool-cases,
}
use virtual_media.Device.{inserted}
use virtual_media.UsbGadget.{
  Host, Globals, Outcome, done, returned, threw, Statement, ◌>>=◌, ◌>>◌, act, watch_eject,
  drop_cache,
}
use virtual_media.UsbGadget.Statements.{lun_file, prepare}
use virtual_media.UsbGadget.Registration.{register}
use virtual_media.UsbGadget.Ports.{bind_port}
use virtual_media.UsbGadget.Configure.{
  attach_image, slot_number, monitor_mount, configure_inserted, set_up, after_insert, is_caught,
  clean_up, is_insertion, configure,
}
use virtual_media.UsbGadget.Leaves.{
  Leaves, Reason, Bound, bind-Leaves, prepare-Leaves, attach_image-Leaves, register-Leaves,
  slot_number-Leaves, monitor_mount-Leaves, bind_port-Leaves,
}
use virtual_media.UsbGadget.Removal.{Removed, clean_up-Removed}

then_Leaves :
    (P : ℤ → Globals → Type 0) (m k : Statement (Unit {0})) (g : Globals)
    → Leaves P (m g)
    → ((g' : Globals) → Leaves P (k g'))
    → Leaves P ((m >> k) g)
then_Leaves P m k g h j = bind-Leaves P m (λ _. k) g h λ _ g'. j g'

weaken :
    (h : Host) (name path : Text) (o : Outcome (Unit {0}))
    → Leaves (λ z g. (z ≡ pos 0) × Bound h name g) o
    → Leaves (Reason h name path) o
weaken h name path (done a g) k = tt
weaken h name path (returned z g) k = inr (inr k)
weaken h name path (threw e g) k = tt

configure_inserted-Leaves :
    (h : Host) (name path : Text) (is_rw : Bool) (info : Text) (g : Globals)
    → Leaves (Reason h name path) (configure_inserted h name path is_rw info g)
unfolding configure_inserted set_up
configure_inserted-Leaves h name path is_rw info g =
    let P : ℤ → Globals → Type 0 = Reason h name path in
    let slot : Statement (Unit {0}) = slot_number name >>= monitor_mount name in
    let eject : Statement (Unit {0}) = act (watch_eject (lun_file h name (codes "file"))) in
    let attached : Statement (Unit {0}) = prepare h name is_rw >> attach_image h name path in
    let registered : Statement (Unit {0}) = attached >> register h name info in
    let watched : Statement (Unit {0}) = registered >> slot >> eject >> act (drop_cache path) in
    let on_attach =
      then_Leaves P (prepare h name is_rw) (attach_image h name path) g
        (prepare-Leaves P h name is_rw g) (attach_image-Leaves h name path) in
    let on_register =
      then_Leaves P attached (register h name info) g on_attach (register-Leaves P h name info) in
    let on_slot = then_Leaves P registered slot g on_register λ g'.
      bind-Leaves P (slot_number name) (monitor_mount name) g' (slot_number-Leaves h name path g')
        λ n g''. monitor_mount-Leaves P h name n g'' in
    let on_eject = then_Leaves P (registered >> slot) eject g on_slot λ g'. tt in
    let on_drop =
      then_Leaves P (registered >> slot >> eject) (act (drop_cache path)) g on_eject λ g'. tt in
    then_Leaves P watched (bind_port h name) g on_drop
      λ g'. weaken h name path (bind_port h name g') (bind_port-Leaves h name g')

-- The gadget was removed again: the body of the `try` came to its end without a port, or threw an
-- exception that has a handler.
abbrev pub RemovedAgain : Host → Text → Outcome (Unit {0}) → Outcome ℤ → Type 0
RemovedAgain h name body o =
    (before : Globals) × (((body ≡ done tt before) × Removed h name true before o)
      ⊎ ((e : Exception) × (body ≡ threw e before)
          × (is_caught e ≡ true)
          × Removed h name false before o))

-- What an outcome for an inserted device says of the body of the `try`: an early return has one of
-- its reasons, an exception that goes on has no handler or comes from the removal, and else the
-- gadget was removed again.
abbrev pub Explained : Host → Text → Text → Outcome (Unit {0}) → Outcome ℤ → Type 0
Explained h name path body (returned z g) = (body ≡ returned z g) × Reason h name path z g
Explained h name path body (done z g) = RemovedAgain h name body (done z g)
Explained h name path body (threw e g) =
    ((body ≡ threw e g) × (is_caught e ≡ false)) ⊎ RemovedAgain h name body (threw e g)

again-Explained :
    (h : Host) (name path : Text) (body : Outcome (Unit {0})) (success : Bool) (before : Globals)
    (o : Outcome ℤ)
    → Removed h name success before o
    → RemovedAgain h name body o
    → Explained h name path body o
again-Explained h name path body success before (done z g) r again = again
again-Explained h name path body success before (returned z g) r again = absurd (cc r)
again-Explained h name path body success before (threw e g) r again = inr again

after_insert-Explained :
    (h : Host) (name path : Text) (body : Outcome (Unit {0}))
    → Leaves (Reason h name path) body
    → Explained h name path body (after_insert h name body)
unfolding after_insert
after_insert-Explained h name path (done a g) k =
    let r = clean_up-Removed h name true g in
    again-Explained h name path (done tt g) true g (clean_up h name true g) r (g, inl (refl, r))
after_insert-Explained h name path (returned z g) k = (refl, k)
after_insert-Explained h name path (threw e g) k = elim (Bool-cases (is_caught e)) [
  | inl q ↦
      let r = clean_up-Removed h name false g in
      rw (q, Explained)
        (again-Explained h name path (threw e g) false g (clean_up h name false g) r
          (g, inr (e, refl, q, r)))
  | inr q ↦ rw (q, Explained) (inl (refl, q))
]

-- An inserted device: an early return is one of the body of the `try`, with the status -2 for an
-- image that is too small, and 0 for a name without a slot number or for a gadget whose binding to a
-- port is the last thing done; any other status, 0 too, is that of a removal, after a body that
-- ended without a port or threw an exception that has a handler; an exception that goes on has no
-- handler, or is that of the session manager which does not answer the removal.
pub configure-Explained :
    (h : Host) (name path : Text) (is_rw : Bool) (info : Text) (g : Globals)
    → Explained h name path
        (configure_inserted h name path is_rw info g)
        (configure h name path inserted is_rw info g)
unfolding configure is_insertion
configure-Explained h name path is_rw info g =
    after_insert-Explained h name path (configure_inserted h name path is_rw info g)
      (configure_inserted-Leaves h name path is_rw info g)
