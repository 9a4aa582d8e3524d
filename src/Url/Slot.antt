-- ===== src/Url/Slot.antt =====
-- The numbers of slots and sessions (src/system.hpp).
use virtual_media.Base.{
  ℕ, ◌-◌, ◌%◌, ◌<◌, ◌≤◌, ◌^◌, ◌≡◌, refl, true, false, [], ◌∷◌, ◌++◌, Text, arith, ok, err,
  IsFailure, Exception, Option-cases, Result-cases, inl, inr, suc, drop, find_last_of, Bool, Option,
  some, none, ℤ, pos, is_negative, pos_part, NoneOf, find_last_of-append, drop-suc-append, ◌==◌,
}
use virtual_media.Url.{
  extract_slot_number, extract_session_id, stoi, in_int_range, read_signed, read_number,
  skip_spaces, is_digit, read_digits,
}

-- A slot number that is not negative is an index of the two credentials.
pub extract_slot_number-lt :
    (path : Text) (n : ℤ) → extract_slot_number path ≡ ok n → is_negative n ≡ false → pos_part n < 2
unfolding extract_slot_number
extract_slot_number-lt path n h k = ground arith

-- A session number fits one byte.
pub extract_session_id-le : (info : Text) (n : ℕ) → extract_session_id info ≡ ok n → n ≤ 255
unfolding extract_session_id
extract_session_id-le info n h = ground arith

in_int_range-IsFailure :
    (minus : Bool) (n : Option ℕ) (e : Exception) → in_int_range minus n ≡ err e → IsFailure e
unfolding in_int_range
in_int_range-IsFailure minus none e h = ground arith
in_int_range-IsFailure true (some n) e h = ground arith
in_int_range-IsFailure false (some n) e h = ground arith

read_signed-IsFailure : (s : Text) (e : Exception) → read_signed s ≡ err e → IsFailure e
unfolding read_signed
read_signed-IsFailure [] e h = ground arith
read_signed-IsFailure (c ∷ s) e h = ground (
  arith,
  in_int_range-IsFailure true (read_number s) e,
  in_int_range-IsFailure false (read_number s) e,
  in_int_range-IsFailure false (read_number (c ∷ s)) e,
)

stoi-IsFailure : (s : Text) (e : Exception) → stoi s ≡ err e → IsFailure e
unfolding stoi
stoi-IsFailure s e h = read_signed-IsFailure (skip_spaces s) e h

-- A name whose slot cannot be read makes an exception that is not the error of a resource.
pub extract_slot_number-IsFailure :
    (path : Text) (e : Exception) → extract_slot_number path ≡ err e → IsFailure e
unfolding extract_slot_number
extract_slot_number-IsFailure path e h = elim (Option-cases (find_last_of (λ c. c == b'_') path)) [
  | inl a ↦ ground arith
  | inr (i, a) ↦ elim (Result-cases (stoi (drop (suc i) path))) [
    | inl (x, b) ↦ ground (arith, stoi-IsFailure (drop (suc i) path) x b)
    | inr (n, b) ↦ ground arith
  ]
]

abbrev pub AllDigits : Text → Type 0
AllDigits [] = Unit
AllDigits (c ∷ s) = (is_digit c ≡ true) × AllDigits s

digits_NoneOf : (s : Text) → AllDigits s → NoneOf (λ c. c == b'_') s
unfolding is_digit
digits_NoneOf [] h = tt
digits_NoneOf (c ∷ s) h = (ground arith, digits_NoneOf s h.1)

stoi-digits :
    (c : ℕ) (s : Text)
    → is_digit c ≡ true
    → read_digits (c - b'0') s < 2 ^ 31
    → stoi (c ∷ s) ≡ ok (pos (read_digits (c - b'0') s))
unfolding stoi is_digit
stoi-digits c s h k = ground arith

-- A name that ends in an underscore and decimal digits whose value is below 2 ^ 31 has the slot
-- of that value modulo two, whatever stands before them.
pub extract_slot_number-digits :
    (name : Text) (c : ℕ) (s : Text)
    → AllDigits (c ∷ s)
    → read_digits (c - b'0') s < 2 ^ 31
    → extract_slot_number (name ++ b'_' ∷ c ∷ s) ≡ ok (pos (read_digits (c - b'0') s % 2))
unfolding extract_slot_number
extract_slot_number-digits name c s h k =
    rw
      (
        find_last_of-append (λ x. x == b'_') name b'_' (c ∷ s) refl (digits_NoneOf (c ∷ s) h),
        extract_slot_number,
      )
      (rw (drop-suc-append name (c ∷ s) b'_') (rw (stoi-digits c s h.0 k)))
