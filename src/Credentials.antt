-- ===== src/Credentials.antt =====
-- Credentials on their way to the share: src/credentials.hpp (`asyncWrite`, what the pipe is
-- given), the payload reader of the legacy `Mount` method in src/state/initial_state.hpp, and
-- `utils::Credentials`, `utils::CredentialsProvider` and `utils::VolatileFile` of src/utils.hpp.
pub mod Volatile
pub mod Payload
pub mod Escape
pub mod Purge
use virtual_media.Base.{
  ℕ, zero, suc, ◌+◌, ◌-◌, ◌<◌, min, Bool, true, false, Option, none, some, List, [], ◌∷◌, ◌++◌,
  Text, if◌then◌else◌, ltb, leb, ◌==◌, take, drop, length, Result, ok, err, guard, ◌>>=◌, ◌>>◌,
  sdbus, errc_einval, codes,
}

abbrev pub secret_limit : ℕ
secret_limit = 1024

-- What `asyncWrite` writes to the pipe: each text with its null terminator.
unfoldable pub payload : Text → Text → Text
payload user pass = user ++ 0 ∷ (pass ++ 0 ∷ [])

-- `std::count`.
unfoldable pub count : ℕ → Text → ℕ
count c [] = 0
count c (x ∷ xs) = (if x == c then 1 else 0) + count c xs

-- `std::string(p)` of a null-terminated array from `p` on.
unfoldable pub c_string : Text → Text
c_string [] = []
c_string (x ∷ xs) = if x == 0 then [] else x ∷ c_string xs

-- The extra data of `Mount`: one read fills at most `secret_limit` bytes of the buffer.
unfoldable pub read_secret : Text → Result (Text × Text)
unfolding count c_string
read_secret pipe = do
  let buf = take secret_limit pipe
  guard (count 0 buf == 2) (sdbus errc_einval)
  let user = c_string buf
  let pass = c_string (drop (suc (length user)) buf)
  ok (user, pass)

pub record Credentials : Type 0 where
  pub user : Text
  pub password : Text
  pub commas_escaped : Bool

unfoldable pub make_credentials : Text → Text → Credentials
make_credentials user password = record { user = user; password = password; commas_escaped = false }

abbrev pub comma : ℕ
comma = b','

-- `escapeComma`: each comma is written twice.
unfoldable pub escape_comma : Text → Text
escape_comma [] = []
escape_comma (c ∷ s) = let rest = escape_comma s in if c == comma then c ∷ c ∷ rest else c ∷ rest

unfoldable pub escape_commas : Credentials → Credentials
unfolding escape_comma
escape_commas c =
    if c.commas_escaped
    then c
    else record c { password = escape_comma c.password; commas_escaped = true }

-- The formatter that the curl plugin's secret is packed with: the password alone.
unfoldable pub pack_password : Credentials → Text
pack_password c = c.password

-- The loop of `purgeFileContents`: what is left to write, and the sizes of the blocks of `*`.
-- `none` means that the fuel ran out.
unfoldable pub purge_loop : ℕ → ℕ → ℕ → List ℕ → Option (List ℕ)
purge_loop zero size written blocks = none
purge_loop (suc fuel) size written blocks =
    let block = min secret_limit (size - written) in
    let rest = purge_loop fuel size (written + block) (block ∷ blocks) in
    if ltb written size then rest else some blocks

unfoldable pub purge_file : ℕ → Option (List ℕ)
unfolding purge_loop
purge_file size = purge_loop (suc size) size 0 []
