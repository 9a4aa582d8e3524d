-- ===== src/Logger/Names.antt =====
-- The file names of messages (src/logger.hpp).
use virtual_media.Base.{
  ℕ, zero, suc, ◌≤◌, ◌<◌, ◌≡◌, ◌∙◌, refl, ap, true, false, [], ◌∷◌, ◌++◌, Text, arith, Bool-cases,
  inl, inr, length, get_or, NoneOf, drop-suc-append, length-append, ltb,
}
use virtual_media.Logger.{is_separator, base_name_from, base_name}

get_or_none :
    (name : Text) (i : ℕ) → NoneOf is_separator name → is_separator (get_or name i 0) ≡ false
get_or_none [] i h = refl
get_or_none (c ∷ s) zero h = h.0
get_or_none (c ∷ s) (suc i) h = get_or_none s i h.1

-- Positions without a separator are passed over.
base_name_from_skip :
    (str : Text) (pos n : ℕ)
    → ((i : ℕ) → pos < i → is_separator (get_or str i 0) ≡ false)
    → pos ≤ n
    → base_name_from str n ≡ base_name_from str pos
unfolding base_name_from
base_name_from_skip str pos zero h k = let e : 0 ≡ pos = omega arith in ap (base_name_from str) e
base_name_from_skip str pos (suc n) h k = elim (Bool-cases (ltb pos (suc n))) [
  | inl e ↦ rw (h (suc n) (ground arith)) (base_name_from_skip str pos n h (ground arith))
  | inr e ↦ let q : suc n ≡ pos = ground arith in ap (base_name_from str) q
]

get_or-after :
    (dir name : Text) (c i : ℕ)
    → NoneOf is_separator name
    → length dir < i
    → is_separator (get_or (dir ++ c ∷ name) i 0) ≡ false
get_or-after [] name c zero h k = absurd (omega arith)
get_or-after [] name c (suc i) h k = get_or_none name i h
get_or-after (d ∷ dir) name c zero h k = absurd (omega arith)
get_or-after (d ∷ dir) name c (suc i) h k = get_or-after dir name c i h (omega arith)

get_or-at : (dir name : Text) (c : ℕ) → get_or (dir ++ c ∷ name) (length dir) 0 ≡ c
get_or-at [] name c = refl
get_or-at (d ∷ dir) name c = get_or-at dir name c

-- Of a path with a separator that is not its first byte, the file name is what follows the last
-- separator, whatever stands before it.
pub base_name-append :
    (d : ℕ) (dir name : Text) (c : ℕ)
    → is_separator c ≡ true
    → NoneOf is_separator name
    → base_name ((d ∷ dir) ++ c ∷ name) ≡ name
unfolding base_name base_name_from
base_name-append d dir name c s h =
    base_name_from_skip ((d ∷ dir) ++ c ∷ name) (suc (length dir)) (length ((d ∷ dir) ++ c ∷ name))
      (λ i k. get_or-after (d ∷ dir) name c i h k) (omega (arith, length-append dir (c ∷ name)))
    ∙ rw (get_or-at dir name c) (rw s (drop-suc-append dir name c))

-- A path without a separator, but for its first byte, is kept whole.
pub base_name-kept :
    (c : ℕ) (name : Text) → NoneOf is_separator name → base_name (c ∷ name) ≡ c ∷ name
unfolding base_name base_name_from
base_name-kept c name h =
    base_name_from_skip (c ∷ name) 0 (length (c ∷ name)) (λ i k. get_or-after [] name c i h k)
      (omega arith)
