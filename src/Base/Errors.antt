-- ===== src/Base/Errors.antt =====
-- Exceptions as values, the numbers of `std::errc` on Linux, and signed integers.
use Prim.Native.Nat.{ℕ, suc, ◌+◌, ◌-◌, ◌%◌, ◌^◌}
use mathlib.Core.Path.{◌≡◌, refl}
use mathlib.Core.Logic.{◌⊎◌, inl, inr}
use mathlib.Core.Bool.{Bool, true, false}
use virtual_media.Base.Tests.{ltb, if◌then◌else◌, ◌==◌}

-- What a statement of the service can throw. `sdbus` carries the errno of an `SdBusError`,
-- `resource` that of a `resource::Error`, and `type_error` is that of the JSON library. `undefined`
-- is no exception: the statement reads a null pointer or an empty optional.
pub data Exception : Type 0 where
  invalid_argument out_of_range runtime_error filesystem_error type_error undefined : Exception
  sdbus : ℕ → Exception
  resource : ℕ → Exception

-- An exception that carries the code of a resource's error does not carry 0.
abbrev pub IsFailure : Exception → Type 0
IsFailure (resource e) = (e == 0) ≡ false
IsFailure _ = Unit

pub data Result {ℓ} (A : Type ℓ) : Type ℓ where
  ok : A → Result A
  err : Exception → Result A

pub Result-cases {ℓ} :
    {A : Type ℓ} (r : Result A) → ((e : Exception) × (r ≡ err e)) ⊎ ((a : A) × (r ≡ ok a))
Result-cases (ok a) = inr (a, refl)
Result-cases (err e) = inl (e, refl)

-- The rest of a computation, which an exception skips.
infixl 5 ◌>>=◌
abbrev pub ◌>>=◌ {ℓ μ} : {A : Type ℓ} {B : Type μ} → Result A → (A → Result B) → Result B
err e >>= next = err e
ok x >>= next = next x

-- `if (!test) throw e`.
abbrev pub guard : Bool → Exception → Result (Unit {0})
guard false e = err e
guard true e = ok tt

infixl 5 ◌>>◌
abbrev pub ◌>>◌ : {B : Type 0} → Result (Unit {0}) → Result B → Result B
first >> second = first >>= λ _. second

pub data ℤ : Type 0 where
  pos : ℕ → ℤ
  negsuc : ℕ → ℤ

abbrev pub is_negative : ℤ → Bool
is_negative (pos n) = false
is_negative (negsuc n) = true

abbrev pub pos_part : ℤ → ℕ
pos_part (pos n) = n
pos_part (negsuc n) = 0

-- `n % 2` of a C++ `int`: the sign of the remainder is that of `n`.
abbrev pub rem_two : ℤ → ℤ
rem_two (pos n) = pos (n % 2)
rem_two (negsuc n) = if ltb 0 (suc n % 2) then negsuc 0 else pos 0

-- The `int` that a `uint64_t` narrows to.
abbrev pub to_int32 : ℕ → ℤ
to_int32 n = let low = n % 2 ^ 32 in if ltb low (2 ^ 31) then pos low else negsuc (2 ^ 32 - 1 - low)

-- `n + k` for a numeral k that is not negative.
abbrev pub add_ℕ : ℤ → ℕ → ℤ
add_ℕ (pos n) k = pos (n + k)
add_ℕ (negsuc n) k = if ltb n k then pos (k - suc n) else negsuc (n - k)

abbrev pub errc_eperm : ℕ
errc_eperm = 1

abbrev pub errc_enoent : ℕ
errc_enoent = 2

abbrev pub errc_eio : ℕ
errc_eio = 5

abbrev pub errc_eagain : ℕ
errc_eagain = 11

abbrev pub errc_eacces : ℕ
errc_eacces = 13

abbrev pub errc_ebusy : ℕ
errc_ebusy = 16

abbrev pub errc_einval : ℕ
errc_einval = 22

abbrev pub errc_erange : ℕ
errc_erange = 34

abbrev pub errc_eproto : ℕ
errc_eproto = 71

abbrev pub errc_eopnotsupp : ℕ
errc_eopnotsupp = 95

abbrev pub errc_eaddrnotavail : ℕ
errc_eaddrnotavail = 99

abbrev pub errc_enetunreach : ℕ
errc_enetunreach = 101

abbrev pub errc_enotconn : ℕ
errc_enotconn = 107

abbrev pub errc_etimedout : ℕ
errc_etimedout = 110

abbrev pub errc_econnrefused : ℕ
errc_econnrefused = 111

abbrev pub errc_ehostdown : ℕ
errc_ehostdown = 112

abbrev pub errc_ehostunreach : ℕ
errc_ehostunreach = 113

abbrev pub errc_einprogress : ℕ
errc_einprogress = 115

abbrev pub errc_ecanceled : ℕ
errc_ecanceled = 125
