-- ===== src/Retry/ImageUrls.antt =====
-- The image URLs of slots 2 and 3 that src/vm_interface.cpp keeps in the configuration file:
-- `saveImageURLToJson` and `loadImageURLFromJson`. A document is reduced to its `BackupImageURL`:
-- by slot, the `ImageURL`, if there is one, which is a text.
use virtual_media.Base.{
  ◌≡◌, refl, Bool, true, false, ◌||◌, Option, none, some, is_some, from_option, List, [], ◌∷◌, Text,
  codes, text_eq, text_eq_refl, text_eq_sound, if◌then◌else◌, arith, Bool-cases, inl, inr,
}
use virtual_media.Retry.{fails, empty, parses, Disk}

abbrev pub Urls : Type 0
Urls = Option (List (Text × Option Text))

-- `jsonData`, the file, and the properties of the two slots once they are registered.
pub record Backup : Type 0 where
  pub json_data : Urls
  pub file : Urls
  pub properties : Option (Text × Text)

find_slot : Text → List (Text × Option Text) → Option (Option Text)
find_slot slot [] = none
find_slot slot ((k, u) ∷ us) =
    let rest = find_slot slot us in if text_eq k slot then some u else rest

unfoldable pub contains_slot : Text → Urls → Bool
unfolding find_slot
contains_slot slot none = false
contains_slot slot (some us) = is_some (find_slot slot us)

-- The URL of a slot, empty where something of it is missing.
unfoldable pub url_of : Text → Urls → Text
unfolding find_slot
url_of slot none = []
url_of slot (some us) = from_option [] (from_option none (find_slot slot us))

set_slot : Text → Text → List (Text × Option Text) → List (Text × Option Text)
set_slot slot url [] = []
set_slot slot url ((k, u) ∷ us) =
    let rest = set_slot slot url us in if text_eq k slot then (k, some url) ∷ us else (k, u) ∷ rest

-- `jsonData["BackupImageURL"][slot]["ImageURL"] = url` of a document that has the slot.
unfoldable pub set_url : Text → Text → Urls → Urls
unfolding set_slot
set_url slot url none = none
set_url slot url (some us) = some (set_slot slot url us)

-- `loadJson`: whether it succeeds, and the document.
unfoldable pub load_document : Disk → Backup → Bool × Backup
load_document disk b = elim disk.reading [
  | fails ↦ (false, b)
  | empty ↦ (false, record b { json_data = none })
  | parses ↦ (true, record b { json_data = b.file })
]

-- `loadImageURLFromJson`.
unfoldable pub load_image_url_from_json : Disk → Backup → Backup
unfolding load_document url_of
load_image_url_from_json disk b =
    let b' = (load_document disk b).1 in
    if (load_document disk b).0
    then record b' {
      properties =
          some (url_of (codes "Slot_2") b'.json_data, url_of (codes "Slot_3") b'.json_data);
    }
    else b'

write_document : Disk → Backup → Backup
write_document disk b = if disk.can_write then record b { file = b.json_data } else b

-- The document that was loaded gets the URL, is written, and is read again.
unfoldable pub store_url : Disk → Disk → Text → Text → Backup → Backup
unfolding write_document contains_slot set_url
store_url disk later url slot b =
    if contains_slot slot b.json_data
    then load_image_url_from_json later
        (write_document disk (record b { json_data = set_url slot url b.json_data }))
    else b

unfoldable pub is_supported : Text → Bool
is_supported slot = text_eq slot (codes "Slot_2") || text_eq slot (codes "Slot_3")

-- `saveImageURLToJson`.
unfoldable pub save_image_url_to_json : Disk → Disk → Text → Text → Backup → Backup
unfolding is_supported load_document store_url
save_image_url_to_json disk later url slot b =
    let loaded = load_document disk b in
    if is_supported slot
    then (if loaded.0 then store_url disk later url slot loaded.1 else loaded.1)
    else b

find_slot-set_slot :
    (slot other url : Text) (us : List (Text × Option Text))
    → is_some (find_slot slot us) ≡ true
    → find_slot other (set_slot slot url us)
      ≡ (if text_eq slot other then some (some url) else find_slot other us)
unfolding find_slot set_slot
find_slot-set_slot slot other url [] h = cc h
find_slot-set_slot slot other url ((k, u) ∷ us) h = ground (
  arith,
  find_slot-set_slot slot other url us,
  text_eq_sound k slot,
  text_eq_sound k other,
  text_eq_sound slot other,
  text_eq_refl slot,
  text_eq_refl other,
)

url_of-set_url :
    (slot other url : Text) (d : Urls)
    → contains_slot slot d ≡ true
    → url_of other (set_url slot url d) ≡ (if text_eq slot other then url else url_of other d)
unfolding url_of set_url contains_slot
url_of-set_url slot other url none h = cc h
url_of-set_url slot other url (some us) h = elim (Bool-cases (text_eq slot other)) [
  | inl e ↦ rw (find_slot-set_slot slot other url us h) (rw e refl)
  | inr e ↦ rw (find_slot-set_slot slot other url us h) (rw e refl)
]

-- Where the file reads as an object, can be written and has the slot, which is supported, a saved
-- URL is the property of its slot from then on, the other slot has the one of the file, and the file
-- has the same URLs.
pub save_image_url_to_json-properties :
    (disk later : Disk) (url slot : Text) (b : Backup)
    → is_supported slot ≡ true
    → disk.reading ≡ parses
    → disk.can_write ≡ true
    → later.reading ≡ parses
    → contains_slot slot b.file ≡ true
    → let b' = save_image_url_to_json disk later url slot b in
      let two = if text_eq slot (codes "Slot_2") then url else url_of (codes "Slot_2") b.file in
      let three = if text_eq slot (codes "Slot_3") then url else url_of (codes "Slot_3") b.file in
      (b'.properties ≡ some (two, three))
      × (url_of (codes "Slot_2") b'.file ≡ two)
      × (url_of (codes "Slot_3") b'.file ≡ three)
unfolding save_image_url_to_json store_url load_image_url_from_json load_document write_document
save_image_url_to_json-properties disk later url slot b s r w l c = ground (
  arith,
  s,
  r,
  w,
  l,
  c,
  url_of-set_url slot (codes "Slot_2") url b.file c,
  url_of-set_url slot (codes "Slot_3") url b.file c,
)
