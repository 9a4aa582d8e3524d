-- ===== src/Credentials/Payload.antt =====
-- The payload that src/credentials.hpp writes is what src/state/initial_state.hpp reads.
use virtual_media.Base.{
  drop-suc-append, ℕ, suc, ◌+◌, ◌≤◌, ◌<◌, ◌≡◌, refl, ap, sym, [], ◌∷◌, ◌++◌, Text, if◌then◌else◌,
  take, length, length-append, arith, ok, err, sdbus, errc_einval, Bool-cases, inl, inr, leb, zero,
  append_assoc,
}
use virtual_media.Credentials.{payload, count, c_string, read_secret, secret_limit}

-- No byte of the text is null.
abbrev pub NullFree : Text → Type 0
NullFree s = count 0 s ≡ 0

count-append : (c : ℕ) (s t : Text) → count c (s ++ t) ≡ count c s + count c t
unfolding count
count-append c [] t = omega arith
count-append c (x ∷ s) t = omega (arith, count-append c s t)

c_string-append : (s t : Text) → NullFree s → c_string (s ++ 0 ∷ t) ≡ s
unfolding count c_string
c_string-append [] t h = refl
c_string-append (x ∷ s) t h = ground (arith, c_string-append s t)

length-payload : (u p : Text) → length (payload u p) ≡ length u + length p + 2
unfolding payload
length-payload u p =
    omega (arith, length-append {0} u (0 ∷ (p ++ 0 ∷ [])), length-append {0} p (0 ∷ []))

take_all : (n : ℕ) (s : Text) → length s ≤ n → take n s ≡ s
take_all zero [] h = refl
take_all zero (x ∷ s) h = absurd (omega arith)
take_all (suc n) [] h = refl
take_all (suc n) (x ∷ s) h = ap (x ∷◌) (take_all n s (omega arith))

count-payload : (u p : Text) → NullFree u → NullFree p → count 0 (payload u p) ≡ 2
unfolding payload count
count-payload u p hu hp =
    omega (arith, count-append 0 u (0 ∷ (p ++ 0 ∷ [])), count-append 0 p (0 ∷ []))

read_secret-payload_fits :
    (u p : Text)
    → NullFree u
    → NullFree p
    → length u + length p + 2 ≤ secret_limit
    → read_secret (payload u p) ≡ ok (u, p)
unfolding read_secret payload
read_secret-payload_fits u p hu hp h =
    rw (take_all secret_limit (payload u p) (omega (arith, length-payload u p))) (
      rw (count-payload u p hu hp) (
        rw (c_string-append u (p ++ 0 ∷ []) hu)
          (rw (drop-suc-append u (p ++ 0 ∷ []) 0) (rw (c_string-append p [] hp)))))

take-append_le : (n : ℕ) (s t : Text) → n ≤ length s → take n (s ++ t) ≡ take n s
take-append_le zero s t h = refl
take-append_le (suc n) [] t h = absurd (omega arith)
take-append_le (suc n) (x ∷ s) t h = ap (x ∷◌) (take-append_le n s t (omega arith))

count-take_le : (c n : ℕ) (s : Text) → count c (take n s) ≤ count c s
unfolding count
count-take_le c zero s = omega arith
count-take_le c (suc n) [] = omega arith
count-take_le c (suc n) (x ∷ s) = omega (arith, count-take_le c n s)

read_secret-payload_long :
    (u p : Text)
    → NullFree u
    → NullFree p
    → secret_limit < length u + length p + 2
    → read_secret (payload u p) ≡ err (sdbus errc_einval)
unfolding read_secret count
read_secret-payload_long u p hu hp h = ground (arith, few)
  where
    split : payload u p ≡ (u ++ 0 ∷ p) ++ 0 ∷ []
    split = unfold payload in sym (append_assoc u (0 ∷ p) (0 ∷ []))

    few : count 0 (take secret_limit (payload u p)) < 2
    few =
        rw
          (
            split,
            take-append_le secret_limit (u ++ 0 ∷ p) (0 ∷ [])
                (omega (arith, length-append {0} u (0 ∷ p))),
          )
          (omega (arith, count-take_le 0 secret_limit (u ++ 0 ∷ p), count-append 0 u (0 ∷ p)))

-- Credentials without null bytes that the client writes to the pipe arrive as they were where
-- they fit the buffer of 1024 bytes with their terminators, and are refused with EINVAL where
-- they do not.
pub read_secret-payload :
    (u p : Text)
    → NullFree u
    → NullFree p
    → read_secret (payload u p)
      ≡ (if leb (length u + length p + 2) secret_limit then ok (u, p) else err (sdbus errc_einval))
read_secret-payload u p hu hp = elim (Bool-cases (leb (length u + length p + 2) secret_limit)) [
  | inl e ↦ rw e (read_secret-payload_fits u p hu hp (ground arith))
  | inr e ↦ rw e (read_secret-payload_long u p hu hp (ground arith))
]
