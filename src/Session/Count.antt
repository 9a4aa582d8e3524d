-- ===== src/Session/Count.antt =====
-- How many slots of each session are left (src/system.hpp).
use virtual_media.Base.{
  ℕ, ◌+◌, ◌-◌, min, ◌≡◌, refl, true, false, List, [], ◌∷◌, Text, text_eq, text_eq_refl,
  text_eq_sound, if◌then◌else◌, ◌==◌, arith, Bool-cases, inl, inr,
}
use virtual_media.Session.{
  Sessions, SessionInfo, invalid_key, find_key_for_value, has_key, erase, ids, session_ids,
  remove_sessions, handle_sessions, find_removed_session_ids,
}
use virtual_media.Session.Order.{occurrences, occurrences-find_removed_session_ids}

-- The keys of a map are distinct, and none is the word for a missing one.
abbrev pub IsMap : Sessions → Type 0
IsMap [] = Unit
IsMap ((k, i) ∷ ms) = (text_eq k invalid_key ≡ false) × (has_key k ms ≡ false) × IsMap ms

-- The entries of a session.
abbrev pub count_of : ℕ → Sessions → ℕ
count_of v ms = occurrences v (ids ms)

has_key-erase : (j k : Text) (ms : Sessions) → has_key j ms ≡ false → has_key j (erase k ms) ≡ false
unfolding has_key erase
has_key-erase j k [] h = refl
has_key-erase j k ((l, i) ∷ ms) h = ground (arith, has_key-erase j k ms)

pub erase-IsMap : (k : Text) (ms : Sessions) → IsMap ms → IsMap (erase k ms)
unfolding erase
erase-IsMap k [] m = tt
erase-IsMap k ((j, i) ∷ ms) m = elim (Bool-cases (text_eq j k)) [
  | inl e ↦ rw e m.2
  | inr e ↦ rw e (m.0, has_key-erase j k ms m.1, erase-IsMap k ms m.2)
]

-- The key that is found is a key of the map, or the word for none.
pub has_key-find_key :
    (ms : Sessions) (v : ℕ)
    → text_eq (find_key_for_value ms v) invalid_key ≡ false
    → has_key (find_key_for_value ms v) ms ≡ true
unfolding has_key find_key_for_value
has_key-find_key [] v h = absurd (cc (text_eq_refl invalid_key))
has_key-find_key ((k, i) ∷ ms) v h = ground (arith, text_eq_refl k, has_key-find_key ms v)

-- Erasing the key that is found takes one entry of its session away, and no other.
count_of-erase :
    (v w : ℕ) (ms : Sessions)
    → IsMap ms
    → text_eq (find_key_for_value ms v) invalid_key ≡ false
    → count_of w (erase (find_key_for_value ms v) ms) + (if v == w then 1 else 0) ≡ count_of w ms
unfolding erase find_key_for_value ids
count_of-erase v w [] m h = absurd (cc (text_eq_refl invalid_key))
count_of-erase v w ((k, i) ∷ ms) m h = ground (
  arith,
  text_eq_refl k,
  count_of-erase v w ms,
  text_eq_sound k (find_key_for_value ms v),
  has_key-find_key ms v,
)

-- Nothing of a session is left where no key is found for it.
count_of_none :
    (v : ℕ) (ms : Sessions)
    → IsMap ms
    → text_eq (find_key_for_value ms v) invalid_key ≡ true
    → count_of v ms ≡ 0
unfolding find_key_for_value ids
count_of_none v [] m h = refl
count_of_none v ((k, i) ∷ ms) m h = ground (arith, count_of_none v ms)

remove_sessions-count :
    (v : ℕ) (is : List ℕ) (ms : Sessions)
    → IsMap ms
    → count_of v (remove_sessions is ms).0 ≡ count_of v ms - occurrences v is
unfolding remove_sessions
remove_sessions-count v [] ms m = omega arith
remove_sessions-count v (i ∷ is) ms m =
    elim (Bool-cases (text_eq (find_key_for_value ms i) invalid_key)) [
      | inl e ↦
          rw (e, remove_sessions)
            (ground (arith, remove_sessions-count v is ms m, count_of_none i ms m e))
      | inr e ↦
          rw (e, remove_sessions)
            (ground (
              arith,
              remove_sessions-count v is (erase (find_key_for_value ms i) ms)
                  (erase-IsMap (find_key_for_value ms i) ms m),
              count_of-erase i v ms m e,
            ))
    ]

-- Of each session as many slots are left as the updated list has entries of it, or as there were
-- if these are fewer.
pub handle_sessions-count :
    (v : ℕ) (list : List SessionInfo) (ms : Sessions)
    → IsMap ms
    → count_of v (handle_sessions list ms).0
      ≡ min (count_of v ms) (occurrences v (session_ids list))
unfolding handle_sessions
handle_sessions-count v list ms m = omega (
  arith,
  remove_sessions-count v (find_removed_session_ids (ids ms) (session_ids list)) ms m,
  occurrences-find_removed_session_ids v (ids ms) (session_ids list),
)
