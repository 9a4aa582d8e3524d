-- ===== src/Session.antt =====
-- The sessions of src/system.hpp: `activeSessons`, `DbusMonitor::handleSessions` and what it calls.
-- `std::map` is a list of its entries in the order of the keys; `std::sort` and
-- `std::set_difference` are written out as the standard library defines them on bytes.
pub mod Order
pub mod Count
pub mod Slots
pub mod Signals
pub mod Children
use virtual_media.Base.{
  ℕ, Bool, true, false, ◌||◌, List, [], ◌∷◌, ◌++◌, Text, codes, text_eq, if◌then◌else◌, ltb, leb,
  ◌==◌,
}

-- `activeSessons`: the session of each slot.
abbrev pub Sessions : Type 0
Sessions = List (Text × ℕ)

-- `vmediaSessionInfo`.
pub record SessionInfo : Type 0 where
  pub session_id : ℕ
  pub ip_address : Text
  pub user_name : Text
  pub session_type : ℕ
  pub privilege : ℕ
  pub user_id : ℕ
  pub mount_type : Text
  pub slot_id : Text

abbrev pub invalid_key : Text
invalid_key = codes "INVALID"

-- `findKeyForValue`.
unfoldable pub find_key_for_value : Sessions → ℕ → Text
find_key_for_value [] value = invalid_key
find_key_for_value ((k, i) ∷ ms) value =
    let rest = find_key_for_value ms value in if i == value then k else rest

-- `count(key) > 0`.
unfoldable pub has_key : Text → Sessions → Bool
has_key k [] = false
has_key k ((j, i) ∷ ms) = text_eq j k || has_key k ms

unfoldable pub erase : Text → Sessions → Sessions
erase k [] = []
erase k ((j, i) ∷ ms) = let rest = erase k ms in if text_eq j k then ms else (j, i) ∷ rest

-- `std::string::operator<`.
text_ltb : Text → Text → Bool
text_ltb s [] = false
text_ltb [] (c ∷ t) = true
text_ltb (b ∷ s) (c ∷ t) = let rest = text_ltb s t in if b == c then rest else ltb b c

-- `activeSessons.insert`: an entry that is there stays.
unfoldable pub insert_session : Text → ℕ → Sessions → Sessions
unfolding text_ltb
insert_session k i [] = (k, i) ∷ []
insert_session k i ((j, v) ∷ ms) =
    let rest = insert_session k i ms in
    if text_eq j k
    then (j, v) ∷ ms
    else if text_ltb k j
    then (k, i) ∷ (j, v) ∷ ms
    else (j, v) ∷ rest

unfoldable pub insert_sorted : ℕ → List ℕ → List ℕ
insert_sorted x [] = x ∷ []
insert_sorted x (y ∷ ys) = let rest = insert_sorted x ys in if leb x y then x ∷ y ∷ ys else y ∷ rest

unfoldable pub sort : List ℕ → List ℕ
sort [] = []
sort (x ∷ xs) = insert_sorted x (sort xs)

unfoldable pub set_difference : List ℕ → List ℕ → List ℕ
set_difference [] ys = []
set_difference (x ∷ xs) [] = x ∷ xs
set_difference (x ∷ xs) (y ∷ ys) = elim (ltb x y) [
  | true ↦ x ∷ set_difference xs (y ∷ ys)
  | false ↦ elim (ltb y x) [ true ↦ set_difference (x ∷ xs) ys | false ↦ set_difference xs ys ]
]

-- `findRemovedSessionIDs`.
unfoldable pub find_removed_session_ids : List ℕ → List ℕ → List ℕ
find_removed_session_ids active updated = set_difference (sort active) (sort updated)

unfoldable pub ids : Sessions → List ℕ
ids [] = []
ids ((k, i) ∷ ms) = i ∷ ids ms

unfoldable pub session_ids : List SessionInfo → List ℕ
session_ids [] = []
session_ids (x ∷ xs) = x.session_id ∷ session_ids xs

-- An unmount that comes before the others.
abbrev pub unmount_after : Text → Sessions × List Text → Sessions × List Text
unmount_after slot r = (r.0, slot ∷ r.1)

-- The loop over the removed sessions: the sessions left, and the slots that are unmounted.
unfoldable pub remove_sessions : List ℕ → Sessions → Sessions × List Text
remove_sessions [] ms = (ms, [])
remove_sessions (i ∷ is) ms =
    let slot = find_key_for_value ms i in
    elim (text_eq slot invalid_key) [
      | true ↦ remove_sessions is ms
      | false ↦ unmount_after slot (remove_sessions is (erase slot ms))
    ]

-- `handleSessions`.
unfoldable pub handle_sessions : List SessionInfo → Sessions → Sessions × List Text
handle_sessions list ms = remove_sessions (find_removed_session_ids (ids ms) (session_ids list)) ms

-- The object and the interface that `unMount` calls, below the base path of the service.
unfoldable pub unmount_call : Text → Text → Text × Text
unmount_call base_path slot =
    if text_eq slot (codes "Slot_0") || text_eq slot (codes "Slot_1")
    then (
      codes "/xyz/openbmc_project/" ++ (base_path ++ (codes "/Proxy/" ++ slot)),
      codes "xyz.openbmc_project.VirtualMedia.Proxy",
    )
    else (
      codes "/xyz/openbmc_project/" ++ (base_path ++ (codes "/Legacy/" ++ slot)),
      codes "xyz.openbmc_project.VirtualMedia.Legacy",
    )
