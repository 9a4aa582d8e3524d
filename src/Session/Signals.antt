-- ===== src/Session/Signals.antt =====
-- The handler of `PropertiesChanged` that `DbusMonitor::sessionMonitor` of src/system.hpp registers.
use virtual_media.Base.{
  ◌≡◌, refl, ap, ◌∙◌, append-nil, true, false, List, [], ◌∷◌, ◌++◌, Text, codes, text_eq,
  if◌then◌else◌, text_eq_refl, Result, ok, err, Exception,
}
use virtual_media.Session.{Sessions, SessionInfo, handle_sessions}

abbrev pub session_interface : Text
session_interface = codes "xyz.openbmc_project.SessionManager.VmediaSessionInfo"

-- A signal that is read: the interface, and the properties in the order of their names; their type
-- has lists of sessions only.
pub record Signal : Type 0 where
  pub interface_name : Text
  pub properties : List (Text × List SessionInfo)

-- The loop over the properties: the sessions, and the slots that are unmounted, in order.
unfoldable pub handle_properties : List (Text × List SessionInfo) → Sessions → Sessions × List Text
handle_properties [] ms = (ms, [])
handle_properties ((name, sessions) ∷ rest) ms = elim (text_eq name (codes "VmediaSessionInfo")) [
  | true ↦
      let first : Sessions × List Text = handle_sessions sessions ms in
      let others : Sessions × List Text = handle_properties rest first.0 in
      (others.0, first.1 ++ others.1)
  | false ↦ handle_properties rest ms
]

-- The handler: a message that cannot be read is an exception, which is caught.
unfoldable pub session_callback : Result Signal → Sessions → Sessions × List Text
unfolding handle_properties
session_callback (err e) ms = (ms, [])
session_callback (ok s) ms =
    if text_eq s.interface_name session_interface
    then handle_properties s.properties ms
    else (ms, [])

abbrev pub NoneNamed : List (Text × List SessionInfo) → Type 0
NoneNamed [] = Unit
NoneNamed ((name, sessions) ∷ rest) =
    (text_eq name (codes "VmediaSessionInfo") ≡ false) × NoneNamed rest

handle_properties-append :
    (ps qs : List (Text × List SessionInfo)) (ms : Sessions)
    → NoneNamed ps
    → handle_properties (ps ++ qs) ms ≡ handle_properties qs ms
unfolding handle_properties
handle_properties-append [] qs ms h = refl
handle_properties-append ((name, sessions) ∷ ps) qs ms h =
    rw (h.0, handle_properties) (handle_properties-append ps qs ms h.1)

handle_properties_none :
    (ps : List (Text × List SessionInfo)) (ms : Sessions)
    → NoneNamed ps
    → handle_properties ps ms ≡ (ms, [])
unfolding handle_properties
handle_properties_none [] ms h = refl
handle_properties_none ((name, sessions) ∷ ps) ms h =
    rw (h.0, handle_properties) (handle_properties_none ps ms h.1)

handle_properties-cons :
    (qs : List (Text × List SessionInfo)) (sessions : List SessionInfo) (ms : Sessions)
    → NoneNamed qs
    → handle_properties ((codes "VmediaSessionInfo", sessions) ∷ qs) ms
      ≡ handle_sessions sessions ms
unfolding handle_properties text_eq
handle_properties-cons qs sessions ms h =
    rw (handle_properties_none qs (handle_sessions sessions ms).0 h)
      (ap (λ x. ((handle_sessions sessions ms).0, x)) (append-nil (handle_sessions sessions ms).1))

-- A signal of the session manager's interface that carries the list of sessions, once, among other
-- properties, does what `handleSessions` does with that list; a signal without the list, one of
-- another interface, and a message that cannot be read change nothing and unmount no slot.
pub session_callback-handle_sessions :
    (ps qs : List (Text × List SessionInfo)) (sessions : List SessionInfo) (other : Text)
    (e : Exception) (ms : Sessions)
    → NoneNamed ps
    → NoneNamed qs
    → text_eq other session_interface ≡ false
    → (session_callback
          (ok (record {
            interface_name = session_interface;
            properties = ps ++ (codes "VmediaSessionInfo", sessions) ∷ qs;
          }))
          ms
        ≡ handle_sessions sessions ms)
      × (session_callback (ok (record { interface_name = session_interface; properties = ps })) ms
          ≡ (ms, []))
      × (session_callback
            (ok (record {
              interface_name = other;
              properties = (codes "VmediaSessionInfo", sessions) ∷ qs;
            }))
            ms
          ≡ (ms, []))
      × (session_callback (err e) ms ≡ (ms, []))
unfolding session_callback
session_callback-handle_sessions ps qs sessions other e ms h k o = (
  rw (text_eq_refl session_interface)
      (handle_properties-append ps _ ms h ∙ handle_properties-cons qs sessions ms k),
  rw (text_eq_refl session_interface) (handle_properties_none ps ms h),
  rw o refl,
  refl,
)
