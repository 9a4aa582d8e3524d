-- ===== src/Retry/Bounds.antt =====
-- What the reconnect settings can be, and when the file has them (src/vm_interface.cpp).
use virtual_media.Base.{
  ℕ, ◌≤◌, ◌≡◌, ◌⊎◌, inl, inr, true, false, some, List, [], ◌∷◌, arith, Bool-cases,
}
use virtual_media.Retry.{Disk, parses, Interface, refused, is_allowed, set_all, get_all, set_many}

-- Three to six attempts, fifteen to thirty seconds apart.
pub record InRange (s : Interface) : Type 0 where
  pub count_low : 3 ≤ s.retry_count
  pub count_high : s.retry_count ≤ 6
  pub interval_low : 15 ≤ s.retry_interval
  pub interval_high : s.retry_interval ≤ 30

set_all-InRange :
    (disk : Disk) (count interval : ℕ) (s : Interface)
    → InRange s
    → InRange (set_all disk count interval s).0
unfolding set_all is_allowed
set_all-InRange disk count interval s h = ground arith

-- Settings in their ranges stay there over any calls.
pub set_many-InRange :
    (calls : List (Disk × (ℕ × ℕ))) (s : Interface) → InRange s → InRange (set_many calls s)
unfolding set_many
set_many-InRange [] s h = h
set_many-InRange ((disk, (count, interval)) ∷ calls) s h =
    set_many-InRange calls (set_all disk count interval s).0
      (set_all-InRange disk count interval s h)

-- After a call the settings are the new ones if these are in their ranges; if they are not,
-- nothing changes and the caller is told of an error.
pub get_all-set_all :
    (disk : Disk) (count interval : ℕ) (s : Interface)
    → ((is_allowed count interval ≡ true)
        × (get_all (set_all disk count interval s).0 ≡ (count, interval)))
      ⊎ ((is_allowed count interval ≡ false) × (set_all disk count interval s ≡ (s, refused)))
unfolding get_all set_all
get_all-set_all disk count interval s = elim (Bool-cases (is_allowed count interval)) [
  | inl e ↦ inl (e, ground arith)
  | inr e ↦ inr (e, ground arith)
]

-- The file has the settings.
abbrev pub IsSaved : Interface → Type 0
IsSaved s = (s.file.count ≡ some s.retry_count) × (s.file.interval ≡ some s.retry_interval)

-- Where the file has the settings and reads as an object and can be written, it has them after a
-- call.
pub set_all-IsSaved :
    (disk : Disk) (count interval : ℕ) (s : Interface)
    → disk.reading ≡ parses
    → disk.can_write ≡ true
    → IsSaved s
    → IsSaved (set_all disk count interval s).0
unfolding set_all
set_all-IsSaved disk count interval s r w h = ground arith
