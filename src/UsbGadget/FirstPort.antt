-- ===== src/UsbGadget/FirstPort.antt =====
-- Which port of a hub takes a gadget (src/system.hpp).
use virtual_media.Base.{
  ap, subst, sym, ◌≡◌, refl, ◌⊎◌, inl, inr, Bool, true, false, ◌&&◌, Option, none, some, List, [],
  ◌∷◌, ◌++◌, Text, codes, if◌then◌else◌, ℤ, pos, ok, err, join_path, find, is_some, Bool-cases, All,
}
use virtual_media.Url.{stoi}
use virtual_media.UsbGadget.{Host, Globals, Outcome, done, returned, Action, echo}
use virtual_media.UsbGadget.Statements.{echo_to_file, udc_file}
use virtual_media.Device.{inserted}
use virtual_media.UsbGadget.Leaves.{done_then}
use virtual_media.UsbGadget.Configure.{
  set_up, configure_inserted, after_insert, clean_up, is_insertion, configure,
}
use virtual_media.UsbGadget.Ports.{
  has_ports, usb_virtual_hub, devices_dir, bind_port, entries, after, is_free, bind_hub,
}

-- The entries that are named like ports of the hub have numbers.
abbrev pub IsNumbered : Text → Text → Type 0
IsNumbered hub id =
    (is_some (find (hub ++ codes ".usb-vhub:p") id) ≡ false)
    ⊎ ((n : ℤ) × (stoi (after (codes ":p") id) ≡ ok n))

-- Whether an entry is a free port that takes the gadget.
abbrev pub takes : Host → Text → Text → Text → Text → Bool
takes h name hub dir id =
    is_some (find (hub ++ codes ".usb-vhub:p") id)
    && (elim (stoi (after (codes ":p") id)) [
      | err e ↦ false
      | ok n ↦ is_free h (join_path dir id) n
    ]
        && h.echo (udc_file h name) id)

abbrev pub first_that : (Text → Bool) → List Text → Option Text
first_that t [] = none
first_that t (id ∷ ids) = let rest = first_that t ids in if t id then some id else rest

-- The function goes on without a port, or returns 0 once it has bound the gadget to the given one.
abbrev pub Binds : Host → Text → Option Text → Outcome (Unit {0}) → Type 0
Binds h name none o = (g : Globals) × (o ≡ done tt g)
Binds h name (some id) o =
    (g : Globals) × (rest : List Action) × (o ≡ returned (pos 0) g)
    × (g.trace ≡ echo (udc_file h name) id true ∷ rest)

-- The loop over the entries of a hub binds the gadget to the first entry that is a free port and
-- takes it, and goes on without one only where there is none; the entries named like ports have
-- numbers.
pub bind_hub-Binds :
    (h : Host) (name hub dir : Text) (ids : List Text) (g : Globals)
    → All (IsNumbered hub) ids
    → Binds h name (first_that (takes h name hub dir) ids) (bind_hub h name hub dir ids g)
unfolding bind_hub echo_to_file
bind_hub-Binds h name hub dir [] g a = (g, refl)
bind_hub-Binds h name hub dir (id ∷ ids) g (inl e1, a) =
    rw (e1, bind_hub) (bind_hub-Binds h name hub dir ids g a)
bind_hub-Binds h name hub dir (id ∷ ids) g (inr (n, e2), a) =
    elim (Bool-cases (is_some (find (hub ++ codes ".usb-vhub:p") id))) [
      | inr e1 ↦ rw (e1, bind_hub) (bind_hub-Binds h name hub dir ids g a)
      | inl e1 ↦ elim (Bool-cases (is_free h (join_path dir id) n)) [
        | inr e3 ↦
            rw (e1, bind_hub) (rw (e2, bind_hub) (rw e3 (bind_hub-Binds h name hub dir ids g a)))
        | inl e3 ↦ elim (Bool-cases (h.echo (udc_file h name) id)) [
          | inr e4 ↦
              rw (e1, bind_hub)
                (rw (e2, bind_hub)
                  (rw e3 (
                    rw e4 (
                      bind_hub-Binds h name hub dir ids
                        (record g { trace = echo (udc_file h name) id false ∷ g.trace }) a))))
          | inl e4 ↦
              rw (e1, bind_hub)
                (rw (e2, bind_hub)
                  (rw e3 (
                    rw e4 (
                      record g { trace = echo (udc_file h name) id true ∷ g.trace },
                      g.trace,
                      refl,
                      refl,
                    ))))
        ]
      ]
    ]

abbrev pub hub_dir : Host → Text
hub_dir h = devices_dir ++ (usb_virtual_hub h ++ codes ".usb-vhub")

-- What `configure` comes to, by the first port that takes the gadget: 0, the gadget bound to it, or
-- a removal that counts as a success.
abbrev pub Configures : Host → Text → Option Text → Outcome ℤ → Type 0
Configures h name none o = (g : Globals) × (o ≡ clean_up h name true g)
Configures h name (some id) o =
    (g : Globals) × (rest : List Action) × (o ≡ returned (pos 0) g)
    × (g.trace ≡ echo (udc_file h name) id true ∷ rest)

Binds-Configures :
    (h : Host) (name : Text) (id : Option Text) (o : Outcome (Unit {0}))
    → Binds h name id o
    → Configures h name id (after_insert h name o)
unfolding after_insert
Binds-Configures h name none o (g, e) = (g, ap (after_insert h name) e)
Binds-Configures h name (some id) o (g, rest, e, t) = (g, rest, ap (after_insert h name) e, t)

bind_port-Binds :
    (h : Host) (name : Text) (g : Globals) (ids : List Text)
    → has_ports h (usb_virtual_hub h) ≡ true
    → h.directory (hub_dir h) ≡ some ids
    → All (IsNumbered (usb_virtual_hub h)) ids
    → Binds h name
        (first_that (takes h name (usb_virtual_hub h) (hub_dir h)) ids)
        (bind_port h name g)
unfolding bind_port entries
bind_port-Binds h name g ids p d a =
    rw (p, bind_port)
      (rw (d, entries) (bind_hub-Binds h name (usb_virtual_hub h) (hub_dir h) ids g a))

-- An inserted device is set up, and the hub of the host has ports of its own, whose directory can be
-- read and in which the entries named like ports have numbers: the gadget is bound to the first
-- entry that is a free port and takes it, and the status is 0; if there is none, the gadget is
-- removed again, as after a body without an error.
pub configure-Configures :
    (h : Host) (name path : Text) (is_rw : Bool) (info : Text) (g g' : Globals) (ids : List Text)
    → set_up h name path is_rw info g ≡ done tt g'
    → has_ports h (usb_virtual_hub h) ≡ true
    → h.directory (hub_dir h) ≡ some ids
    → All (IsNumbered (usb_virtual_hub h)) ids
    → Configures h name
        (first_that (takes h name (usb_virtual_hub h) (hub_dir h)) ids)
        (configure h name path inserted is_rw info g)
unfolding configure is_insertion configure_inserted
configure-Configures h name path is_rw info g g' ids s p d a =
    Binds-Configures h name (first_that (takes h name (usb_virtual_hub h) (hub_dir h)) ids)
      (configure_inserted h name path is_rw info g)
      (subst (Binds h name (first_that (takes h name (usb_virtual_hub h) (hub_dir h)) ids))
        (sym (done_then (set_up h name path is_rw info) (bind_port h name) g g' s))
        (bind_port-Binds h name g' ids p d a))
