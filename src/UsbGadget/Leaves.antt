-- ===== src/UsbGadget/Leaves.antt =====
-- Why `UsbGadget::configure` of src/system.hpp returns from within its `try`.
use virtual_media.Base.{
  ap, ℕ, ◌≡◌, refl, ◌⊎◌, inl, inr, Bool, true, false, List, [], ◌∷◌, Text, ◌++◌, codes,
  if◌then◌else◌, ltb, ℤ, pos, Result-cases, join_path, ok, is_negative, arith, find, is_some,
  Bool-cases,
}
use virtual_media.Url.{extract_slot_number, stoi}
use virtual_media.UsbGadget.{
  BlockFile, not_block, no_open, no_size, block_size, Host, Globals, Outcome, done, returned, threw,
  Statement, Action, echo, ◌>>=◌, ◌>>◌,
}
use virtual_media.UsbGadget.Statements.{
  echo_to_file, write, create_directories, power_save_mode, call, remove_old_link, create_symlink,
  prepare, image_size, udc_file, min_image_size,
}
use virtual_media.UsbGadget.Registration.{fetch_session, register}
use virtual_media.UsbGadget.Ports.{
  devices_dir, bind_hub, bind_controller, bind_port, entries, is_free, is_free_controller, after,
  usb_virtual_hub, has_ports,
}
use virtual_media.UsbGadget.Configure.{
  attach_image, check_size, slot_number, monitor_mount, too_small,
}

-- What holds of an outcome that is a `return`.
abbrev pub Leaves {ℓ} : {A : Type ℓ} → (ℤ → Globals → Type 0) → Outcome A → Type 0
Leaves P (done a g) = Unit
Leaves P (returned z g) = P z g
Leaves P (threw e g) = Unit

module _ {A B : Type 0} (P : ℤ → Globals → Type 0) where
  outcome-Leaves :
      (o : Outcome A) (f : A → Statement B)
      → Leaves P o
      → ((a : A) (g' : Globals) → Leaves P (f a g'))
      → Leaves P
          (elim o [ done a g' ↦ f a g' | returned z g' ↦ returned z g' | threw e g' ↦ threw e g' ])
  outcome-Leaves (done a g) f h k = k a g
  outcome-Leaves (returned z g) f h k = h
  outcome-Leaves (threw e g) f h k = tt

  pub bind-Leaves :
      (m : Statement A) (f : A → Statement B) (g : Globals)
      → Leaves P (m g)
      → ((a : A) (g' : Globals) → Leaves P (f a g'))
      → Leaves P ((m >>= f) g)
  bind-Leaves m f g h k = outcome-Leaves (m g) f h k

-- What follows an outcome.
abbrev continue : Statement (Unit {0}) → Outcome (Unit {0}) → Outcome (Unit {0})
continue k o = elim o [ done a g ↦ k g | returned z g ↦ returned z g | threw e g ↦ threw e g ]

pub done_then : (m k : Statement (Unit {0})) (g g' : Globals) → m g ≡ done tt g' → (m >> k) g ≡ k g'
done_then m k g g' e = ap (continue k) e

pub returned_then :
    (m k : Statement (Unit {0})) (g g' : Globals) (z : ℤ)
    → m g ≡ returned z g'
    → (m >> k) g ≡ returned z g'
returned_then m k g g' z e = ap (continue k) e

-- Whether the image is too small: what is no block file counts as empty.
abbrev pub is_small : BlockFile → Bool
is_small not_block = true
is_small no_open = false
is_small no_size = false
is_small (block_size n) = ltb n min_image_size

-- The last thing that was done is that the gadget was bound to a port, with success where the hub
-- has ports of its own.
abbrev pub Bound : Host → Text → Globals → Type 0
Bound h name g =
    (id : Text) × (rest : List Action) × (g.trace
      ≡ echo (udc_file h name) id (h.echo (udc_file h name) id) ∷ rest)
    × ((if has_ports h (usb_virtual_hub h) then h.echo (udc_file h name) id else true) ≡ true)

abbrev pub NoSlot : Text → Type 0
NoSlot name = (n : ℤ) × (extract_slot_number name ≡ ok n) × (is_negative n ≡ true)

-- The reasons of an early return.
abbrev pub Reason : Host → Text → Text → ℤ → Globals → Type 0
Reason h name path z g =
    ((z ≡ too_small) × (is_small (h.block_file path) ≡ true))
    ⊎ (((z ≡ pos 0) × NoSlot name) ⊎ ((z ≡ pos 0) × Bound h name g))

module _ (P : ℤ → Globals → Type 0) (h : Host) (name : Text) where
  pub prepare-Leaves : (is_rw : Bool) (g : Globals) → Leaves P (prepare h name is_rw g)
  unfolding prepare create_directories write power_save_mode remove_old_link create_symlink
  prepare-Leaves is_rw g = ground arith

  pub register-Leaves : (info : Text) (g : Globals) → Leaves P (register h name info g)
  unfolding register call fetch_session
  register-Leaves info g = ground arith

  pub monitor_mount-Leaves : (slot : ℕ) (g : Globals) → Leaves P (monitor_mount name slot g)
  unfolding monitor_mount
  monitor_mount-Leaves slot g = ground arith

pub attach_image-Leaves :
    (h : Host) (name path : Text) (g : Globals)
    → Leaves (Reason h name path) (attach_image h name path g)
unfolding attach_image image_size check_size write
attach_image-Leaves h name path g = ground arith

pub slot_number-Leaves :
    (h : Host) (name path : Text) (g : Globals) → Leaves (Reason h name path) (slot_number name g)
unfolding slot_number
slot_number-Leaves h name path g = elim (Result-cases (extract_slot_number name)) [
  | inl (x, e) ↦ rw (e, Leaves) tt
  | inr (n, e) ↦ elim (Bool-cases (is_negative n)) [
    | inl k ↦ rw (e, Leaves) (rw (k, Leaves) (inr (inl (refl, (n, e, k)))))
    | inr k ↦ rw (e, Leaves) (rw (k, Leaves) tt)
  ]
]

bind_hub-Leaves :
    (h : Host) (name dir : Text) (ids : List Text) (g : Globals)
    → has_ports h (usb_virtual_hub h) ≡ true
    → Leaves (λ z g'. (z ≡ pos 0) × Bound h name g') (bind_hub h name (usb_virtual_hub h) dir ids g)
unfolding bind_hub echo_to_file
bind_hub-Leaves h name dir [] g e = tt
bind_hub-Leaves h name dir (id ∷ ids) g e =
    elim (Bool-cases (is_some (find (usb_virtual_hub h ++ codes ".usb-vhub:p") id))) [
      | inr e1 ↦ rw (e1, Leaves) (bind_hub-Leaves h name dir ids g e)
      | inl e1 ↦ elim (Result-cases (stoi (after (codes ":p") id))) [
        | inl (x, e2) ↦ rw (e1, Leaves) (rw (e2, Leaves) tt)
        | inr (n, e2) ↦ elim (Bool-cases (is_free h (join_path dir id) n)) [
          | inr e3 ↦
              rw (e1, Leaves)
                (rw (e2, Leaves) (rw (e3, Leaves) (bind_hub-Leaves h name dir ids g e)))
          | inl e3 ↦ elim (Bool-cases (h.echo (udc_file h name) id)) [
            | inr e4 ↦
                rw (e1, Leaves)
                  (rw (e2, Leaves)
                    (rw (e3, Leaves)
                      (rw (e4, Leaves)
                        (bind_hub-Leaves h name dir ids
                          (record g { trace = echo (udc_file h name) id false ∷ g.trace }) e))))
            | inl e4 ↦
                rw (e1, Leaves)
                  (rw (e2, Leaves)
                    (rw (e3, Leaves) (rw (e4, Leaves) (refl, (id, g.trace, cc, rw e e4)))))
          ]
        ]
      ]
    ]

bind_controller-Leaves :
    (h : Host) (name : Text) (ids : List Text) (g : Globals)
    → has_ports h (usb_virtual_hub h) ≡ false
    → Leaves
        (λ z g'. (z ≡ pos 0) × Bound h name g')
        (bind_controller h name (usb_virtual_hub h) ids g)
unfolding bind_controller write
bind_controller-Leaves h name [] g e = tt
bind_controller-Leaves h name (id ∷ ids) g e =
    elim (Bool-cases (is_some (find (usb_virtual_hub h) id))) [
      | inr e1 ↦ rw (e1, Leaves) (bind_controller-Leaves h name ids g e)
      | inl e1 ↦ elim (Result-cases (stoi (after (codes ".") id))) [
        | inl (x, e2) ↦ rw (e1, Leaves) (rw (e2, Leaves) tt)
        | inr (n, e2) ↦ elim (Bool-cases (is_free_controller h (devices_dir ++ id) n)) [
          | inr e3 ↦
              rw (e1, Leaves)
                (rw (e2, Leaves) (rw (e3, Leaves) (bind_controller-Leaves h name ids g e)))
          | inl e3 ↦
              rw (e1, Leaves)
                (rw (e2, Leaves) (rw (e3, Leaves) (refl, (id, g.trace, refl, rw e refl))))
        ]
      ]
    ]

entries-Leaves :
    (P : ℤ → Globals → Type 0) (h : Host) (dir : Text) (g : Globals) → Leaves P (entries h dir g)
unfolding entries
entries-Leaves P h dir g = ground arith

pub bind_port-Leaves :
    (h : Host) (name : Text) (g : Globals)
    → Leaves (λ z g'. (z ≡ pos 0) × Bound h name g') (bind_port h name g)
unfolding bind_port
bind_port-Leaves h name g =
    let P : ℤ → Globals → Type 0 = λ z g'. (z ≡ pos 0) × Bound h name g' in
    let dir = devices_dir ++ (usb_virtual_hub h ++ codes ".usb-vhub") in
    elim (Bool-cases (has_ports h (usb_virtual_hub h))) [
      | inl e ↦
          rw (e, Leaves)
            (bind-Leaves P (entries h dir) (bind_hub h name (usb_virtual_hub h) dir) g
              (entries-Leaves P h dir g) (λ ids g'. bind_hub-Leaves h name dir ids g' e))
      | inr e ↦
          rw (e, Leaves)
            (bind-Leaves P (entries h devices_dir) (bind_controller h name (usb_virtual_hub h)) g
              (entries-Leaves P h devices_dir g) (λ ids g'. bind_controller-Leaves h name ids g' e))
    ]
