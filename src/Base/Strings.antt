-- ===== src/Base/Strings.antt =====
-- A `std::string` as the list of its bytes, and the string functions that the service uses.
use Prim.Native.Nat.{ℕ, suc}
use Prim.Native.Char.{code}
use Prim.Native.String.{String}
use mathlib.Core.Path.{◌≡◌, refl}
use mathlib.Core.Bool.{Bool, true, false, ◌&&◌}
use mathlib.Core.Option.{Option, none, some}
use mathlib.Core.List.{List, [], ◌∷◌, ◌++◌}
use native.Mathlib.Omega.{arith}
use virtual_media.Base.Tests.{◌==◌, if◌then◌else◌}
use virtual_media.Base.Lists.{drop, length}

abbrev pub Text : Type 0
Text = List ℕ

-- The bytes of a literal.
abbrev pub codes : String → Text
codes String.[] = []
codes (String.◌∷◌ c s) = code c ∷ codes s

unfoldable pub text_eq : Text → Text → Bool
text_eq [] [] = true
text_eq (x ∷ xs) (y ∷ ys) = x == y && text_eq xs ys
text_eq _ _ = false

pub text_eq_sound : (s t : Text) → text_eq s t ≡ true → s ≡ t
unfolding text_eq
text_eq_sound [] [] h = refl
text_eq_sound [] (y ∷ ys) h = cc
text_eq_sound (x ∷ xs) [] h = cc
text_eq_sound (x ∷ xs) (y ∷ ys) h = ground (arith, text_eq_sound xs ys)

pub text_eq_refl : (s : Text) → text_eq s s ≡ true
unfolding text_eq
text_eq_refl [] = refl
text_eq_refl (x ∷ xs) = ground (arith, text_eq_refl xs)

-- `s.starts_with(p)`.
unfoldable pub starts_with : Text → Text → Bool
starts_with s [] = true
starts_with [] (p ∷ ps) = false
starts_with (c ∷ s) (p ∷ ps) = c == p && starts_with s ps

pub starts_with-append : (p s : Text) → starts_with (p ++ s) p ≡ true
unfolding starts_with
starts_with-append [] s = refl
starts_with-append (x ∷ p) s = ground (arith, starts_with-append p s)

pub starts_with_split : (s p : Text) → starts_with s p ≡ true → s ≡ p ++ drop (length p) s
unfolding starts_with
starts_with_split s [] h = refl
starts_with_split [] (p ∷ ps) h = cc
starts_with_split (c ∷ s) (p ∷ ps) h = ground (arith, starts_with_split s ps)

-- `s.find_last_of(set)`: the position of the last byte that passes the test.
unfoldable pub find_last_of : (ℕ → Bool) → Text → Option ℕ
find_last_of t [] = none
find_last_of t (c ∷ s) = elim (find_last_of t s) [
  | some i ↦ some (suc i)
  | none ↦ if t c then some 0 else none
]

-- `s.find(p)`: the position of the first occurrence of a text.
unfoldable pub find : Text → Text → Option ℕ
unfolding starts_with
find p [] = if starts_with [] p then some 0 else none
find p (c ∷ s) =
    let rest = find p s in
    if starts_with (c ∷ s) p then some 0 else elim rest [ some i ↦ some (suc i) | none ↦ none ]

-- A path below another: `a / b` for a relative `b`.
unfoldable pub join_path : Text → Text → Text
join_path a b = a ++ 47 ∷ b

-- No byte passes the test.
abbrev pub NoneOf : (ℕ → Bool) → Text → Type 0
NoneOf t [] = Unit
NoneOf t (c ∷ s) = (t c ≡ false) × NoneOf t s

pub find_last_of-NoneOf : (t : ℕ → Bool) (s : Text) → NoneOf t s → find_last_of t s ≡ none
unfolding find_last_of
find_last_of-NoneOf t [] h = refl
find_last_of-NoneOf t (c ∷ s) h = rw (find_last_of-NoneOf t s h.1) (rw h.0)

pub find_last_of-append :
    (t : ℕ → Bool) (xs : Text) (c : ℕ) (ys : Text)
    → t c ≡ true
    → NoneOf t ys
    → find_last_of t (xs ++ c ∷ ys) ≡ some (length xs)
unfolding find_last_of
find_last_of-append t [] c ys h k = rw (find_last_of-NoneOf t ys k) (rw h)
find_last_of-append t (x ∷ xs) c ys h k = rw (find_last_of-append t xs c ys h k)
