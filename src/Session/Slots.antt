-- ===== src/Session/Slots.antt =====
-- Which slots are unmounted when sessions end (src/system.hpp).
use virtual_media.Base.{
  ℕ, ◌+◌, ◌≡◌, false, List, [], ◌∷◌, Text, text_eq, text_eq_refl, text_eq_sound, if◌then◌else◌,
  arith, Bool-cases, inl, inr,
}
use virtual_media.Session.{
  Sessions, SessionInfo, invalid_key, find_key_for_value, has_key, erase, remove_sessions,
  handle_sessions, find_removed_session_ids, ids, session_ids,
}
use virtual_media.Session.Count.{IsMap, erase-IsMap, has_key-find_key}

-- How often a slot stands in a list.
abbrev pub times : Text → List Text → ℕ
times k [] = 0
times k (j ∷ js) = (if text_eq j k then 1 else 0) + times k js

abbrev pub presence : Text → Sessions → ℕ
presence k ms = if has_key k ms then 1 else 0

has_key-erase_iff :
    (j k : Text) (ms : Sessions)
    → IsMap ms
    → has_key j (erase k ms) ≡ (if text_eq k j then false else has_key j ms)
unfolding has_key erase
has_key-erase_iff j k [] m = ground arith
has_key-erase_iff j k ((l, i) ∷ ms) m = ground (
  arith,
  has_key-erase_iff j k ms m.2,
  text_eq_sound l k,
  text_eq_sound k j,
  text_eq_sound l j,
  text_eq_refl l,
  text_eq_refl j,
  text_eq_refl k,
)

remove_sessions-presence :
    (k : Text) (is : List ℕ) (ms : Sessions)
    → IsMap ms
    → presence k (remove_sessions is ms).0 + times k (remove_sessions is ms).1 ≡ presence k ms
unfolding remove_sessions
remove_sessions-presence k [] ms m = omega arith
remove_sessions-presence k (i ∷ is) ms m =
    elim (Bool-cases (text_eq (find_key_for_value ms i) invalid_key)) [
      | inl e ↦ rw (e, remove_sessions) (remove_sessions-presence k is ms m)
      | inr e ↦
          rw (e, remove_sessions)
            (ground (
              arith,
              remove_sessions-presence k is (erase (find_key_for_value ms i) ms)
                  (erase-IsMap (find_key_for_value ms i) ms m),
              has_key-erase_iff k (find_key_for_value ms i) ms m,
              text_eq_sound (find_key_for_value ms i) k,
              has_key-find_key ms i,
            ))
    ]

remove_sessions-IsMap : (is : List ℕ) (ms : Sessions) → IsMap ms → IsMap (remove_sessions is ms).0
unfolding remove_sessions
remove_sessions-IsMap [] ms m = m
remove_sessions-IsMap (i ∷ is) ms m =
    elim (Bool-cases (text_eq (find_key_for_value ms i) invalid_key)) [
      | inl e ↦ rw (e, remove_sessions) (remove_sessions-IsMap is ms m)
      | inr e ↦
          rw (e, remove_sessions)
            (remove_sessions-IsMap is (erase (find_key_for_value ms i) ms)
              (erase-IsMap (find_key_for_value ms i) ms m))
    ]

pub handle_sessions-IsMap :
    (list : List SessionInfo) (ms : Sessions) → IsMap ms → IsMap (handle_sessions list ms).0
unfolding handle_sessions
handle_sessions-IsMap list ms m =
    remove_sessions-IsMap (find_removed_session_ids (ids ms) (session_ids list)) ms m

-- A slot that had a session either keeps it or is unmounted once, and no other slot is unmounted.
pub handle_sessions-presence :
    (k : Text) (list : List SessionInfo) (ms : Sessions)
    → IsMap ms
    → presence k (handle_sessions list ms).0 + times k (handle_sessions list ms).1 ≡ presence k ms
unfolding handle_sessions
handle_sessions-presence k list ms m =
    remove_sessions-presence k (find_removed_session_ids (ids ms) (session_ids list)) ms m
