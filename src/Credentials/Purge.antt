-- ===== src/Credentials/Purge.antt =====
-- The loop that overwrites a secret's file (src/utils.hpp).
use virtual_media.Base.{
  ℕ, zero, suc, ◌+◌, ◌-◌, ◌≤◌, ◌<◌, min, ◌≡◌, refl, Option, some, List, [], ◌∷◌, ltb, arith,
  Bool-cases, inl, inr,
}
use virtual_media.Credentials.{secret_limit, purge_loop, purge_file}

abbrev pub sum : List ℕ → ℕ
sum [] = 0
sum (x ∷ xs) = x + sum xs

-- Every block fits the buffer.
abbrev pub Fit : List ℕ → Type 0
Fit [] = Unit
Fit (x ∷ xs) = (x ≤ secret_limit) × Fit xs

abbrev pub Purged : ℕ → Option (List ℕ) → Type 0
Purged size r = (blocks : List ℕ) × (r ≡ some blocks) × (sum blocks ≡ size) × Fit blocks

purge_loop-Purged :
    (fuel size written : ℕ) (blocks : List ℕ)
    → sum blocks ≡ written
    → written ≤ size
    → size - written < fuel
    → Fit blocks
    → Purged size (purge_loop fuel size written blocks)
unfolding purge_loop
purge_loop-Purged zero size written blocks s w f b = absurd (omega arith)
purge_loop-Purged (suc fuel) size written blocks s w f b = elim (Bool-cases (ltb written size)) [
  | inl e ↦ rw e (
      purge_loop-Purged fuel size (written + min secret_limit (size - written))
        (min secret_limit (size - written) ∷ blocks) (omega arith) (ground arith) (ground arith)
        (omega arith, b))
  | inr e ↦ rw e (blocks, refl, ground arith, b)
]

-- The loop ends, and the blocks that it writes are as long together as the secret was, none of
-- them longer than the buffer.
pub purge_file-Purged : (size : ℕ) → Purged size (purge_file size)
unfolding purge_file
purge_file-Purged size = purge_loop-Purged (suc size) size 0 [] refl (omega arith) (omega arith) tt
