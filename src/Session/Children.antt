-- ===== src/Session/Children.antt =====
-- The children that `DbusMonitor::handleSessions` of src/system.hpp forks to unmount slots, and the
-- calls that they make.
use virtual_media.Base.{
  ℕ, zero, suc, ◌+◌, ◌++◌, ◌≡◌, refl, List, [], ◌∷◌, Text, Result, ok, err, ℤ, pos, arith, text_eq,
  text_eq_sound, if◌then◌else◌, Bool, true, false, Bool-cases, inl, inr, ap, sym, ◌∙◌,
}
use mathlib.Core.Path.{ap₂}
use virtual_media.Session.{Sessions, SessionInfo, has_key, handle_sessions}
use virtual_media.Session.Slots.{times, presence, handle_sessions-presence, handle_sessions-IsMap}
use virtual_media.Session.Count.{IsMap}

-- `unMount`: the call on D-Bus throws or gives a reply, which may be empty; an empty one is only
-- written to the log.
unfoldable pub un_mount : Result Bool → Result (Unit {0})
un_mount (err e) = err e
un_mount (ok replied) = ok tt

-- `eventLogSupport`: an exception of the call is written to the log.
unfoldable pub event_log_support : Result (Unit {0}) → Result (Unit {0})
event_log_support (err e) = ok tt
event_log_support (ok t) = ok tt

-- What `fork` gives for a slot: no child, or one, with what its call of `Unmount` answers it.
pub data Fork : Type 0 where
  failed : Fork
  forked : Result Bool → Fork

-- What becomes of a slot: no child, as the result -1 of `fork` is not 0; or a child that exits after
-- the call; or one whose exception the handler of the signal catches, which goes on with the
-- event loop, as the service does.
pub data Fate : Type 0 where
  no_child : Fate
  exited : ℤ → Fate
  serves : Fate

unfoldable pub unmount_child : Fork → Fate
unfolding un_mount
unmount_child failed = no_child
unmount_child (forked answer) = elim (un_mount answer) [ ok t ↦ exited (pos 0) | err e ↦ serves ]

-- The slots of a signal, in the order of the loop, each with what becomes of it.
unfoldable pub unmount_children : (Text → Fork) → List Text → List (Text × Fate)
unmount_children forks [] = []
unmount_children forks (slot ∷ slots) =
    (slot, unmount_child (forks slot)) ∷ unmount_children forks slots

-- `handleSessions` with its children.
unfoldable pub end_sessions :
    (Text → Fork) → List SessionInfo → Sessions → Sessions × List (Text × Fate)
unfolding unmount_children
end_sessions forks list ms = let r = handle_sessions list ms in (r.0, unmount_children forks r.1)

-- One signal after another, each with what `fork` gives during it.
unfoldable pub end_all :
    List ((Text → Fork) × List SessionInfo) → Sessions → Sessions × List (Text × Fate)
unfolding end_sessions
end_all [] ms = (ms, [])
end_all ((forks, list) ∷ signals) ms =
    let r = end_sessions forks list ms in let rest = end_all signals r.0 in (rest.0, r.1 ++ rest.1)

-- What becomes of one slot, in order.
abbrev pub fates_of : Text → List (Text × Fate) → List Fate
fates_of k [] = []
fates_of k ((j, f) ∷ fs) = let rest = fates_of k fs in if text_eq j k then f ∷ rest else rest

abbrev repeat : ℕ → Fate → List Fate
repeat zero f = []
repeat (suc n) f = f ∷ repeat n f

repeat_suc : (n : ℕ) (f : Fate) → repeat (1 + n) f ≡ f ∷ repeat n f
repeat_suc n f = ap (λ m. repeat m f) one_more
  where
    one_more : 1 + n ≡ suc n
    one_more = omega arith

repeat_zero : (n : ℕ) (f : Fate) → repeat (0 + n) f ≡ repeat n f
repeat_zero n f = ap (λ m. repeat m f) same
  where
    same : 0 + n ≡ n
    same = omega arith

fates_of-append :
    (k : Text) (fs gs : List (Text × Fate)) → fates_of k (fs ++ gs) ≡ fates_of k fs ++ fates_of k gs
fates_of-append k [] gs = refl
fates_of-append k ((j, f) ∷ fs) gs = elim (Bool-cases (text_eq j k)) [
  | inl e ↦ rw (e, fates_of) (ap (λ x. f ∷ x) (fates_of-append k fs gs))
  | inr e ↦ rw (e, fates_of) (fates_of-append k fs gs)
]

fates_of-unmount_children :
    (k : Text) (forks : Text → Fork) (js : List Text)
    → fates_of k (unmount_children forks js) ≡ repeat (times k js) (unmount_child (forks k))
unfolding unmount_children
fates_of-unmount_children k forks [] = refl
fates_of-unmount_children k forks (j ∷ js) = elim (Bool-cases (text_eq j k)) [
  | inl e ↦
      rw (e, fates_of)
        (rw (text_eq_sound j k e) (
          ap (λ x. unmount_child (forks k) ∷ x) (fates_of-unmount_children k forks js)
          ∙ sym (repeat_suc (times k js) (unmount_child (forks k)))))
  | inr e ↦
      rw (e, fates_of)
        (fates_of-unmount_children k forks js
          ∙ sym (repeat_zero (times k js) (unmount_child (forks k))))
]

-- A slot without a session has none later on, and nothing becomes of it.
end_all-gone :
    (k : Text) (signals : List ((Text → Fork) × List SessionInfo)) (ms : Sessions)
    → IsMap ms
    → presence k ms ≡ 0
    → fates_of k (end_all signals ms).1 ≡ []
unfolding end_all end_sessions
end_all-gone k [] ms m h = refl
end_all-gone k ((forks, list) ∷ signals) ms m h =
    let r : Sessions × List Text = handle_sessions list ms in
    let p = handle_sessions-presence k list ms m in
    let none_now : times k r.1 ≡ 0 = omega (arith, p, h) in
    fates_of-append k (unmount_children forks r.1) (end_all signals r.0).1
    ∙ ap (λ x. x ++ fates_of k (end_all signals r.0).1)
        (fates_of-unmount_children k forks r.1
          ∙ ap (λ n. repeat n (unmount_child (forks k))) none_now)
    ∙ end_all-gone k signals r.0 (handle_sessions-IsMap list ms m) (omega (arith, p, h))

unmount_child-outcome :
    (f : Fork)
    → unmount_child f ≡ elim f [
      | failed ↦ no_child
      | forked (ok replied) ↦ exited (pos 0)
      | forked (err e) ↦ serves
    ]
unfolding unmount_child un_mount
unmount_child-outcome failed = refl
unmount_child-outcome (forked (ok b)) = refl
unmount_child-outcome (forked (err e)) = refl

-- A slot whose session a signal ends has its one child then, whatever signals follow: the child
-- exits if its call of Unmount is answered, and goes on serving if the call throws. If the fork
-- fails, the slot is not unmounted, and no later signal makes up for it. The slots are distinct, and
-- none is named like a missing one.
pub end_all-fates_of :
    (k : Text) (forks : Text → Fork) (list : List SessionInfo)
    (signals : List ((Text → Fork) × List SessionInfo)) (ms : Sessions)
    → IsMap ms
    → has_key k ms ≡ true
    → has_key k (handle_sessions list ms).0 ≡ false
    → fates_of k (end_all ((forks, list) ∷ signals) ms).1
      ≡ elim (forks k) [
        | failed ↦ no_child
        | forked (ok replied) ↦ exited (pos 0)
        | forked (err e) ↦ serves
      ]
        ∷ []
unfolding end_all end_sessions
end_all-fates_of k forks list signals ms m h g =
    let r : Sessions × List Text = handle_sessions list ms in
    let p = handle_sessions-presence k list ms m in
    let gone : presence k r.0 ≡ 0 = rw g refl in
    let was : presence k ms ≡ 1 = rw h refl in
    let once : times k r.1 ≡ 1 = omega (arith, p, gone, was) in
    fates_of-append k (unmount_children forks r.1) (end_all signals r.0).1
    ∙ ap₂ ◌++◌
        (fates_of-unmount_children k forks r.1 ∙ ap (λ n. repeat n (unmount_child (forks k))) once)
        (end_all-gone k signals r.0 (handle_sessions-IsMap list ms m) gone)
    ∙ ap (λ x. x ∷ []) (unmount_child-outcome (forks k))
