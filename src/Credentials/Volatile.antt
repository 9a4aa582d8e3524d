-- ===== src/Credentials/Volatile.antt =====
-- The temporary file of a secret: `utils::VolatileFile` of src/utils.hpp.
use virtual_media.Base.{
  ℕ, zero, suc, ◌+◌, ◌≡◌, refl, ap, ◌∙◌, Bool, true, false, Option, none, some, List, [], ◌∷◌, ◌++◌,
  Text, if◌then◌else◌, arith, ◌==◌, Result, ok, err, sdbus, errc_eio, take, length,
}
use virtual_media.Credentials.{purge_file}
use virtual_media.Credentials.Purge.{sum, purge_file-Purged}

-- The file with its path and its contents, where there is one.
abbrev pub SecretFile : Type 0
SecretFile = Option (Text × Text)

-- The object: the path and the size that it keeps.
abbrev pub VolatileFile : Type 0
VolatileFile = Text × ℕ

-- The constructor: `mkstemp` names a file, or fails; `write` takes some of the bytes, or fails. A
-- constructor that throws has no destructor run.
unfoldable pub make_volatile : Option Text → Option ℕ → Text → Result VolatileFile × SecretFile
make_volatile none written secret = (err (sdbus errc_eio), none)
make_volatile (some path) none secret = (err (sdbus errc_eio), some (path, []))
make_volatile (some path) (some written) secret =
    if written == length secret
    then (ok (path, length secret), some (path, secret))
    else (err (sdbus errc_eio), some (path, take written secret))

-- `buf.fill('*')`, the first bytes of it.
unfoldable pub stars : ℕ → Text
stars zero = []
stars (suc n) = b'*' ∷ stars n

-- The blocks that the loop writes, one after another; the last is the first of the list.
unfoldable pub write_blocks : List ℕ → Text
unfolding stars
write_blocks [] = []
write_blocks (n ∷ blocks) = write_blocks blocks ++ stars n

-- `purgeFileContents`: opening the stream empties the file, and the loop writes its blocks, of which
-- the file system may take only the first bytes; the stream that cannot be opened changes nothing.
-- `none` means that the loop does not end.
unfoldable pub purge_contents : Bool → ℕ → ℕ → Text → Option Text
unfolding purge_file write_blocks
purge_contents false taken size contents = some contents
purge_contents true taken size contents = elim (purge_file size) [
  | none ↦ none
  | some blocks ↦ some (take taken (write_blocks blocks))
]

-- How the destructor ends: normally, or by `std::terminate`, as `fs::remove` throws in it where it
-- fails; each with what is left on the disk. `stuck` is a loop that does not end.
pub data Dropped : Type 0 where
  destroyed terminated : SecretFile → Dropped
  stuck : Dropped

-- `fs::remove` of what the purge left.
remove_file : Bool → Text → Option Text → Dropped
remove_file removes path none = stuck
remove_file true path (some left) = destroyed none
remove_file false path (some left) = terminated (some (path, left))

-- The destructor: the contents are overwritten, and the file is removed. A file that is gone is
-- made again by opening it.
unfoldable pub drop_volatile : Bool → ℕ → Bool → VolatileFile → SecretFile → Dropped
unfolding purge_contents remove_file
drop_volatile true taken removes (path, size) none =
    remove_file removes path (purge_contents true taken size [])
drop_volatile false taken removes (path, size) none = destroyed none
drop_volatile opens taken removes (path, size) (some (p, contents)) =
    remove_file removes path (purge_contents opens taken size contents)

-- The destructor runs where the constructor did not throw.
drop_made : Bool → ℕ → Bool → Result VolatileFile × SecretFile → Result Dropped × SecretFile
unfolding drop_volatile
drop_made opens taken removes (err e, disk) = (err e, disk)
drop_made opens taken removes (ok file, disk) =
    (ok (drop_volatile opens taken removes file disk), none)

-- The life of the file: how it ends, or the exception of the constructor with what is on the disk.
unfoldable pub volatile_life :
    Option Text → Option ℕ → Bool → ℕ → Bool → Text → Result Dropped × SecretFile
unfolding drop_made make_volatile
volatile_life path written opens taken removes secret =
    drop_made opens taken removes (make_volatile path written secret)

stars-append : (m n : ℕ) → stars m ++ stars n ≡ stars (m + n)
unfolding stars
stars-append zero n = ap stars zero_add
  where
    zero_add : n ≡ 0 + n
    zero_add = omega arith
stars-append (suc m) n = ap (λ x. b'*' ∷ x) (stars-append m n) ∙ ap stars suc_add
  where
    suc_add : suc (m + n) ≡ suc m + n
    suc_add = omega arith

write_blocks-stars : (blocks : List ℕ) → write_blocks blocks ≡ stars (sum blocks)
unfolding write_blocks stars
write_blocks-stars [] = refl
write_blocks-stars (n ∷ blocks) =
    ap (λ x. x ++ stars n) (write_blocks-stars blocks)
    ∙ stars-append (sum blocks) n
    ∙ ap stars add_comm
  where
    add_comm : sum blocks + n ≡ n + sum blocks
    add_comm = omega arith

purge_contents-stars :
    (opens : Bool) (taken size : ℕ) (contents : Text)
    → purge_contents opens taken size contents
      ≡ some (if opens then take taken (stars size) else contents)
unfolding purge_contents
purge_contents-stars false taken size contents = refl
purge_contents-stars true taken size contents =
    let (blocks, e, total, fit) = purge_file-Purged size in
    rw (e, purge_contents)
      (ap (λ x. some (take taken x)) (write_blocks-stars blocks ∙ ap stars total))

remove_file-removes :
    (removes : Bool) (path left : Text)
    → remove_file removes path (some left)
      ≡ (if removes then destroyed none else terminated (some (path, left)))
unfolding remove_file
remove_file-removes true path left = refl
remove_file-removes false path left = refl

drop_volatile-remove :
    (opens : Bool) (taken : ℕ) (removes : Bool) (path p contents : Text) (size : ℕ)
    → drop_volatile opens taken removes (path, size) (some (p, contents)) ≡ (
        if removes
        then destroyed none
        else terminated (some (path, if opens then take taken (stars size) else contents)))
unfolding drop_volatile
drop_volatile-remove true taken removes path p contents size =
    ap (remove_file removes path) (purge_contents-stars true taken size contents)
    ∙ remove_file-removes removes path _
drop_volatile-remove false taken removes path p contents size =
    ap (remove_file removes path) (purge_contents-stars false taken size contents)
    ∙ remove_file-removes removes path _

drop_made-if :
    (whole opens : Bool) (taken : ℕ) (removes : Bool) (path secret left : Text)
    → drop_made opens taken removes (
        if whole
        then (ok (path, length secret), some (path, secret))
        else (err (sdbus errc_eio), some (path, left)))
      ≡ (if whole
          then (
            ok (
                if removes
                then destroyed none
                else terminated
                    (some (path, if opens then take taken (stars (length secret)) else secret))),
            none,
          )
          else (err (sdbus errc_eio), some (path, left)))
unfolding drop_made
drop_made-if true opens taken removes path secret left =
    ap (λ d. (ok d, none))
      (drop_volatile-remove opens taken removes path path secret (length secret))
drop_made-if false opens taken removes path secret left = refl

-- A temporary file that took the whole secret is gone once it is destroyed; where it cannot be
-- removed, the service is terminated, and what stays is as many `*` as the secret had bytes, or the
-- first of them that the file takes, or, where the stream cannot be opened, the secret itself. A
-- write of another length makes the constructor throw EIO, and the file stays with what it took of
-- the secret.
pub volatile_life_lem :
    (path : Text) (written : ℕ) (opens : Bool) (taken : ℕ) (removes : Bool) (secret : Text)
    → volatile_life (some path) (some written) opens taken removes secret ≡ (
        if written == length secret
        then (
          ok (
              if removes
              then destroyed none
              else terminated
                  (some (path, if opens then take taken (stars (length secret)) else secret))),
          none,
        )
        else (err (sdbus errc_eio), some (path, take written secret)))
unfolding volatile_life make_volatile
volatile_life_lem path written opens taken removes secret =
    drop_made-if (written == length secret) opens taken removes path secret (take written secret)
