-- ===== src/UsbGadget/Registration.antt =====
-- How `UsbGadget::configure` of src/system.hpp registers a session and gives it back.
use virtual_media.Base.{
  ℕ, Bool, Option, none, some, List, [], ◌∷◌, Text, codes, text_eq, if◌then◌else◌, ◌==◌, ok, err,
}
use virtual_media.Url.{extract_session_id, mount_method}
use virtual_media.Session.{Sessions, SessionInfo, insert_session, has_key, erase}
use virtual_media.UsbGadget.{
  WebSession, failed, answered, Host, Statement, register_session, unregister_session, log_event,
  ◌>>=◌, ◌>>◌, pure, modify, act,
}
use virtual_media.UsbGadget.Statements.{call, power_save_mode, power_save_mode_enable}

abbrev pub default_sid : ℕ
default_sid = 0

-- `VMEDIA`, the type of a session.
abbrev pub vmedia : ℕ
vmedia = 2

abbrev pub priv_level_admin : ℕ
priv_level_admin = 4

abbrev pub is_lmedia : Text → Bool
is_lmedia info = text_eq info (codes "LMEDIA")

unfoldable pub find_web_session : ℕ → List WebSession → Option WebSession
find_web_session id [] = none
find_web_session id (w ∷ ws) =
    let rest = find_web_session id ws in if id == w.session_id then some w else rest

-- The web session of the client, `none` where the default values are registered: where it is not
-- found, where the session manager does not answer, and where its number is that of the default.
unfoldable pub web_session : Host → Text → Option WebSession
unfolding find_web_session
web_session h info = elim (extract_session_id info) [
  | err e ↦ none
  | ok id ↦ elim h.web_sessions [
    | failed e ↦ none
    | answered list ↦ if id == default_sid then none else find_web_session id list
  ]
]

default_session : Text → Text → SessionInfo
default_session method name = record {
  session_id = default_sid;
  ip_address = codes "~";
  user_name = codes "local";
  session_type = vmedia;
  privilege = priv_level_admin;
  user_id = 0;
  mount_type = method;
  slot_id = name;
}

session_of : Text → Option WebSession → SessionInfo
unfolding default_session
session_of name none = default_session (mount_method name) name
session_of name (some w) = record {
  session_id = default_sid;
  ip_address = w.ip_address;
  user_name = w.user_name;
  session_type = vmedia;
  privilege = w.privilege;
  user_id = w.user_id;
  mount_type = mount_method name;
  slot_id = name;
}

-- The arguments of `VmediaSessionRegister`.
unfoldable pub session_to_register : Host → Text → Text → SessionInfo
unfolding session_of default_session web_session
session_to_register h name info =
    if is_lmedia info
    then default_session (codes "lmedia") name
    else session_of name (web_session h info)

-- `sesList.back()`, whose number is kept for the slot.
unfoldable pub insert_latest : Text → List SessionInfo → Sessions → Sessions
insert_latest name [] ms = ms
insert_latest name (s ∷ []) ms = insert_session name s.session_id ms
insert_latest name (s ∷ t ∷ ss) ms = insert_latest name (t ∷ ss) ms

unfoldable pub fetch_session : Host → Text → Statement (Unit {0})
unfolding insert_latest call
fetch_session h name = call h.vmedia_sessions >>= λ list.
    modify λ g. record g { active_sessions = insert_latest name list g.active_sessions }

-- The session of an inserted device, and the event that it is logged with.
unfoldable pub register : Host → Text → Text → Statement (Unit {0})
unfolding fetch_session call session_to_register
register h name info = call (h.register (session_to_register h name info)) >>= λ status.
    act (register_session (session_to_register h name info))
    >> (if status then fetch_session h name else pure tt)
    >> act (log_event (codes "OpenBMC.0.1.MediaMount"))

-- `activeSessons[name]` of a slot that has one.
unfoldable pub session_id_of : Text → Sessions → ℕ
session_id_of name [] = 0
session_id_of name ((k, i) ∷ ms) =
    let rest = session_id_of name ms in if text_eq k name then i else rest

unfoldable pub end_session : Host → Text → ℕ → Statement (Unit {0})
unfolding call power_save_mode
end_session h name id = call (h.unregister id) >>= λ status.
    act (unregister_session id)
    >> modify (λ g. record g { active_sessions = erase name g.active_sessions })
    >> act (log_event (codes "OpenBMC.0.1.MediaUnmount"))
    >> power_save_mode power_save_mode_enable

-- A session that the slot has is given back.
unfoldable pub unregister : Host → Text → Statement (Unit {0})
unfolding end_session session_id_of
unregister h name g =
    if has_key name g.active_sessions
    then end_session h name (session_id_of name g.active_sessions) g
    else pure tt g
