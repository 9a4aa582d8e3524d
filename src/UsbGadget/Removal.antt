-- ===== src/UsbGadget/Removal.antt =====
-- What `UsbGadget::configure` of src/system.hpp leaves behind when a gadget is removed.
use virtual_media.Base.{
  ℕ, ◌≡◌, refl, sym, ◌∙◌, codes, Bool, true, false, ◌&&◌, List, [], ◌∷◌, Text, ◌==◌, Exception,
  sdbus, ℤ, arith, Bool-cases, inl, inr, ◌⊎◌,
}
use virtual_media.Device.{StateChange}
use virtual_media.Session.{Sessions, has_key, erase}
use virtual_media.UsbGadget.{
  Reply, failed, answered, Host, Globals, Outcome, done, returned, threw, remove_directory, echo,
  set_power_save, log_event, unregister_session, ◌>>=◌, pure,
}
use virtual_media.UsbGadget.Statements.{
  write, call, udc_file, power_save_mode_enable, power_save_mode,
}
use virtual_media.UsbGadget.Registration.{unregister, end_session, session_id_of}
use virtual_media.UsbGadget.Configure.{
  gadget_dirs, remove_dirs, status_of, clean_up, is_insertion, configure,
}

abbrev pub all_removed : Host → List Text → Bool
all_removed h [] = true
all_removed h (dir ∷ dirs) = h.remove_error dir == 0 && all_removed h dirs

-- The session manager did not answer, and this is what was thrown.
abbrev pub Unanswered : Host → ℕ → Exception → Type 0
Unanswered h id e = (n : ℕ) × (h.unregister id ≡ failed n) × (e ≡ sdbus n)

-- A removal: every directory that could be removed is gone, the session of the slot is no longer
-- kept, and the status is 0 where nothing failed, before or here; or the session manager did not
-- answer, the session is still kept and the exception goes on.
abbrev pub Removed : Host → Text → Bool → Globals → Outcome ℤ → Type 0
Removed h name success g (done z g') =
    (z ≡ status_of (success && all_removed h (gadget_dirs h name)))
    × (g'.active_sessions ≡ erase name g.active_sessions)
Removed h name success g (returned z g') = true ≡ false
Removed h name success g (threw e g') =
    (has_key name g.active_sessions ≡ true)
    × Unanswered h (session_id_of name g.active_sessions) e
    × (g'.active_sessions ≡ g.active_sessions)

erase_absent : (k : Text) (ms : Sessions) → has_key k ms ≡ false → erase k ms ≡ ms
unfolding has_key erase
erase_absent k [] h = refl
erase_absent k ((j, i) ∷ ms) h = ground (arith, erase_absent k ms)

remove_dirs_lem :
    (h : Host) (success : Bool) (dirs : List Text) (g : Globals)
    → (g' : Globals) × (remove_dirs h success dirs g ≡ done (success && all_removed h dirs) g')
      × (g'.active_sessions ≡ g.active_sessions)
unfolding remove_dirs
remove_dirs_lem h true [] g = (g, refl, refl)
remove_dirs_lem h false [] g = (g, refl, refl)
remove_dirs_lem h true (dir ∷ dirs) g =
    let (g', e, k) =
      remove_dirs_lem h (h.remove_error dir == 0) dirs
        (record g { trace = remove_directory dir (h.remove_error dir) ∷ g.trace }) in
    (g', e, k)
remove_dirs_lem h false (dir ∷ dirs) g =
    let (g', e, k) =
      remove_dirs_lem h false dirs
        (record g { trace = remove_directory dir (h.remove_error dir) ∷ g.trace }) in
    (g', e, k)

Reply-cases : {A : Type 0} (r : Reply A) → ((n : ℕ) × (r ≡ failed n)) ⊎ ((a : A) × (r ≡ answered a))
Reply-cases (failed n) = inl (n, refl)
Reply-cases (answered a) = inr (a, refl)

-- The directories are removed once the session is erased.
remove_dirs-Removed :
    (h : Host) (name : Text) (success : Bool) (g g' : Globals)
    → g'.active_sessions ≡ erase name g.active_sessions
    → Removed h name success g
        ((remove_dirs h success (gadget_dirs h name) >>= λ removed. pure (status_of removed)) g')
remove_dirs-Removed h name success g g' e =
    let (g'', q, k) = remove_dirs_lem h success (gadget_dirs h name) g' in
    rw (q, Removed) (refl, k ∙ e)

-- The gadget is taken from its port.
abbrev unbound : Host → Text → Globals → Globals
unbound h name g = record g {
  trace = echo (udc_file h name) [] (h.echo (udc_file h name) []) ∷ g.trace;
}

-- The statements after the `try` remove the gadget, whatever the `try` came to.
pub clean_up-Removed :
    (h : Host) (name : Text) (success : Bool) (g : Globals)
    → Removed h name success g (clean_up h name success g)
unfolding clean_up write unregister end_session call power_save_mode
clean_up-Removed h name success g = elim (Bool-cases (has_key name g.active_sessions)) [
  | inr e ↦
      rw (e, Removed)
        (remove_dirs-Removed h name success g (unbound h name g)
          (sym (erase_absent name g.active_sessions e)))
  | inl e ↦ elim (Reply-cases (h.unregister (session_id_of name g.active_sessions))) [
    | inl (n, q) ↦ rw (e, Removed) (rw (q, Removed) (e, (n, q, refl), refl))
    | inr (a, q) ↦
        rw (e, Removed)
          (rw (q, Removed)
            (remove_dirs-Removed h name success g
              (record (unbound h name g) {
                active_sessions = erase name g.active_sessions;
                trace =
                    set_power_save power_save_mode_enable
                    ∷ log_event (codes "OpenBMC.0.1.MediaUnmount")
                    ∷ unregister_session (session_id_of name g.active_sessions)
                    ∷ (unbound h name g).trace;
              })
              refl))
  ]
]

-- A change that is no insertion, for which the function only cleans up: if the slot has no session
-- or the session manager answers, the session is erased, the others stay as they are, and the
-- status is 0 exactly if every directory could be removed; if it does not answer, its error goes on
-- and the session stays.
pub configure-Removed :
    (h : Host) (name path : Text) (change : StateChange) (is_rw : Bool) (info : Text) (g : Globals)
    → is_insertion change ≡ false
    → Removed h name true g (configure h name path change is_rw info g)
unfolding configure
configure-Removed h name path change is_rw info g e =
    rw (e, Removed) (clean_up-Removed h name true g)
