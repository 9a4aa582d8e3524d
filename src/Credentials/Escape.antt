-- ===== src/Credentials/Escape.antt =====
-- The comma escape of src/utils.hpp against a reader of mount options.
use virtual_media.Base.{
  ℕ, ◌≡◌, refl, ◌≢◌, true, false, [], ◌∷◌, ◌++◌, Text, ◌==◌, if◌then◌else◌, arith, Bool-cases, inl,
  inr,
}
use virtual_media.Credentials.{Credentials, comma, escape_comma, escape_commas}

-- A mount option's value as the CIFS client reads it: a doubled comma is a comma of the value,
-- and a single one ends it. The rest begins behind that comma.
pub read_value : Text → Text × Text
read_value [] = ([], [])
read_value (c ∷ []) = if c == comma then ([], []) else (c ∷ [], [])
read_value (c ∷ d ∷ s) =
    let plain = read_value (d ∷ s) in
    let doubled = read_value s in
    if c == comma
    then (if d == comma then (comma ∷ doubled.0, doubled.1) else ([], d ∷ s))
    else (c ∷ plain.0, plain.1)

-- What follows does not begin with a comma.
abbrev pub StartsPlain : Text → Type 0
StartsPlain [] = Unit
StartsPlain (c ∷ s) = c ≢ comma

read_value_plain :
    (c : ℕ) (t : Text)
    → (c == comma) ≡ false
    → read_value (c ∷ t) ≡ (c ∷ (read_value t).0, (read_value t).1)
unfolding read_value
read_value_plain c [] h = rw h
read_value_plain c (d ∷ t) h = rw h

read_value_doubled :
    (c : ℕ) (t : Text)
    → (c == comma) ≡ true
    → read_value (c ∷ c ∷ t) ≡ (c ∷ (read_value t).0, (read_value t).1)
unfolding read_value
read_value_doubled c t h = ground arith

-- Whatever the password, the reader of the option finds it whole where the escaped password
-- and the next option, which does not begin with a comma, follow one another.
pub read_value-escape_comma :
    (s rest : Text) → StartsPlain rest → read_value (escape_comma s ++ comma ∷ rest) ≡ (s, rest)
unfolding escape_comma
read_value-escape_comma [] [] h = unfold read_value in refl
read_value-escape_comma [] (c ∷ rest) h = unfold read_value in ground arith
read_value-escape_comma (c ∷ s) rest h = elim (Bool-cases (c == comma)) [
  | inl e ↦ rw e (
      rw
        (read_value_doubled c (escape_comma s ++ comma ∷ rest) e, read_value-escape_comma s rest h))
  | inr e ↦
      rw e (
        rw
          (read_value_plain c (escape_comma s ++ comma ∷ rest) e, read_value-escape_comma s rest h))
]

-- Escaping again changes nothing.
pub escape_commas_idem : (c : Credentials) → escape_commas (escape_commas c) ≡ escape_commas c
unfolding escape_commas
escape_commas_idem c = ground arith
