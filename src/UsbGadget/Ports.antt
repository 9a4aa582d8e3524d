-- ===== src/UsbGadget/Ports.antt =====
-- The port of the USB hub that `UsbGadget::configure` of src/system.hpp binds a gadget to.
use virtual_media.Base.{
  ◌+◌, ◌-◌, Bool, true, false, ◌&&◌, ◌||◌, not, none, some, List, [], ◌∷◌, ◌++◌, Text, codes,
  text_eq, if◌then◌else◌, join_path, filesystem_error, ℤ, pos, negsuc, drop, find, is_some, ok, err,
  suc, zero, length, ◌==◌,
}
use virtual_media.Config.{show_int}
use virtual_media.Url.{stoi}
use virtual_media.UsbGadget.{Host, Statement, ◌>>=◌, ◌>>◌, pure, return_with, throw}
use virtual_media.UsbGadget.Statements.{echo_to_file, write, udc_file}

unfoldable pub devices_dir : Text
devices_dir = codes "/sys/bus/platform/devices/"

unfoldable pub hub_exists : Host → Text → Bool
unfolding devices_dir
hub_exists h device = h.exists (devices_dir ++ device)

-- The hub that the platform has: `usbVirtualHub`.
unfoldable pub usb_virtual_hub : Host → Text
unfolding hub_exists
usb_virtual_hub h =
    if h.multi_host
    then (if hub_exists h (codes "12060000.usb-vhub") && hub_exists h (codes "12062000.usb-vhub")
        then (if h.second_host then codes "12062000" else codes "12060000")
        else if h.second_host
        then codes "12021000"
        else codes "12060000")
    else if hub_exists h (codes "ci_hdrc.0")
    then codes "ci_hdrc"
    else if hub_exists h (codes "12060000.usb-vhub")
    then codes "12060000"
    else if hub_exists h (codes "12011000.usb-vhub")
    then codes "12011000"
    else codes "1e6a0000"

-- Whether the ports are entries of the hub's own directory.
unfoldable pub has_ports : Host → Text → Bool
has_ports h hub =
    if h.multi_host
    then text_eq hub (codes "12060000")
      || text_eq hub (codes "12062000")
      || text_eq hub (codes "12021000")
    else text_eq hub (codes "1e6a0000")
      || text_eq hub (codes "12011000")
      || text_eq hub (codes "12060000")

-- `substr(find(delimiter) + delimiter.size())`: without a delimiter, `npos` wraps around.
unfoldable pub after : Text → Text → Text
after delimiter id = elim (find delimiter id) [
  | some i ↦ drop (i + length delimiter) id
  | none ↦ drop (length delimiter - 1) id
]

pred : ℤ → ℤ
pred (pos zero) = negsuc 0
pred (pos (suc n)) = pos n
pred (negsuc n) = negsuc (suc n)

unfoldable pub suspended_path : Text → ℤ → Text
suspended_path port gadget =
    join_path port (codes "gadget." ++ (show_int gadget ++ codes "/suspended"))

-- Whether a gadget can be bound to a port of the hub: a directory that is no link and has no
-- gadget suspended.
unfoldable pub is_free : Host → Text → ℤ → Bool
unfolding suspended_path pred
is_free h port number =
    h.is_directory port
    && not (h.is_symlink port)
    && not (h.exists (suspended_path port (pred number)))

-- The first free port of the hub that takes the gadget; an entry that is no port is passed over.
unfoldable pub bind_hub : Host → Text → Text → Text → List Text → Statement (Unit {0})
unfolding is_free after echo_to_file
bind_hub h name hub dir [] = pure tt
bind_hub h name hub dir (id ∷ ids) = elim (is_some (find (hub ++ codes ".usb-vhub:p") id)) [
  | false ↦ bind_hub h name hub dir ids
  | true ↦ elim (stoi (after (codes ":p") id)) [
    | err e ↦ throw e
    | ok number ↦ elim (is_free h (join_path dir id) number) [
      | false ↦ bind_hub h name hub dir ids
      | true ↦ echo_to_file h (udc_file h name) id >>= λ bound. elim bound [
        | true ↦ return_with (pos 0)
        | false ↦ bind_hub h name hub dir ids
      ]
    ]
  ]
]

is_reserved : ℤ → Bool
is_reserved (pos n) = n == 8 || n == 9
is_reserved (negsuc n) = false

-- Whether a controller is free: not one of the reserved, and a directory without a gadget suspended.
unfoldable pub is_free_controller : Host → Text → ℤ → Bool
unfolding suspended_path is_reserved
is_free_controller h port number =
    not (is_reserved number) && h.is_directory port && not (h.exists (suspended_path port number))

-- The first free controller, whether or not it takes the gadget.
unfoldable pub bind_controller : Host → Text → Text → List Text → Statement (Unit {0})
unfolding is_free_controller after write devices_dir
bind_controller h name hub [] = pure tt
bind_controller h name hub (id ∷ ids) = elim (is_some (find hub id)) [
  | false ↦ bind_controller h name hub ids
  | true ↦ elim (stoi (after (codes ".") id)) [
    | err e ↦ throw e
    | ok number ↦ elim (is_free_controller h (devices_dir ++ id) number) [
      | false ↦ bind_controller h name hub ids
      | true ↦ write h (udc_file h name) id >> return_with (pos 0)
    ]
  ]
]

unfoldable pub entries : Host → Text → Statement (List Text)
entries h dir = elim (h.directory dir) [ none ↦ throw filesystem_error | some ids ↦ pure ids ]

-- The loop over the ports, by the hub.
unfoldable pub bind_port : Host → Text → Statement (Unit {0})
unfolding usb_virtual_hub has_ports entries bind_hub bind_controller devices_dir
bind_port h name =
    let hub = usb_virtual_hub h in
    let dir = devices_dir ++ (hub ++ codes ".usb-vhub") in
    if has_ports h hub
    then entries h dir >>= bind_hub h name hub dir
    else entries h devices_dir >>= bind_controller h name hub
