-- ===== src/Device/Names.antt =====
-- The table of device names of src/system.hpp read in both directions.
use virtual_media.Base.{
  ℕ, ◌≡◌, refl, ◌≢◌, true, some, List, [], ◌∷◌, Text, text_eq, text_eq_sound, arith, Option-cases,
  inl, inr, ◌↔◌, get_or,
}
use virtual_media.Device.{
  NbdDevice, nbd0, unknown, index, of_index, position, name_matching, parse, to_string, device_eq,
}

pub of_index-index : (d : NbdDevice) → of_index (index d) ≡ d
unfolding of_index index
of_index-index nbd0 = refl
of_index-index _ = refl

-- Two devices compare equal exactly when they are the same.
pub device_eq_iff : (a b : NbdDevice) → (device_eq a b ≡ true) ↔ (a ≡ b)
unfolding device_eq
device_eq_iff a b = (λ h. ground (arith, of_index-index a, of_index-index b), λ e. ground arith)

-- Every device, `unknown` included, is read back from its name.
pub parse-to_string : (d : NbdDevice) → parse (some (to_string d)) ≡ d
unfolding parse to_string text_eq
parse-to_string nbd0 = refl
parse-to_string _ = refl

position_sound : (s : Text) (ts : List Text) (i : ℕ) → position s ts ≡ some i → get_or ts i [] ≡ s
unfolding position
position_sound s [] i h = cc
position_sound s (t ∷ ts) i h = elim (Option-cases (position s ts)) [
  | inl e ↦ ground (arith, text_eq_sound t s)
  | inr (j, e) ↦ ground (arith, text_eq_sound t s, position_sound s ts j e)
]

name-of_index : (n : ℕ) → of_index n ≢ unknown → to_string (of_index n) ≡ get_or name_matching n []
unfolding of_index to_string
name-of_index n h = ground arith

-- A name that is recognised is the name of the device that it was read as.
pub to_string-parse : (s : Text) → parse (some s) ≢ unknown → to_string (parse (some s)) ≡ s
unfolding parse
to_string-parse s h = elim (Option-cases (position s name_matching)) [
  | inl e ↦ ground arith
  | inr (i, e) ↦ ground (arith, name-of_index i, position_sound s name_matching i e)
]
