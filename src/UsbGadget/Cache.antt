-- ===== src/UsbGadget/Cache.antt =====
-- The child that `UsbGadget::configure` of src/system.hpp starts to drop the cache of the device.
use virtual_media.Base.{ℕ, suc, ◌≡◌, refl, Bool, ◌&&◌, List, [], ◌∷◌, if◌then◌else◌, arith}

-- What a round meets: whether the gadget is there, and whether `fsync` and `posix_fadvise` succeed.
pub record CacheRound : Type 0 where
  pub there : Bool
  pub synced : Bool
  pub advised : Bool

pub data CacheAct : Type 0 where
  sync advise pause close : CacheAct

-- The loop; a step that fails goes to the next round at once.
unfoldable pub drop_cache : List CacheRound → List CacheAct
drop_cache [] = []
drop_cache (r ∷ rs) =
    let rest = drop_cache rs in
    if r.there
    then sync ∷ (if r.synced then advise ∷ (if r.advised then pause ∷ rest else rest) else rest)
    else close ∷ []

-- The child: it ends at once where the device cannot be opened.
unfoldable pub cache_child : Bool → List CacheRound → List CacheAct
unfolding drop_cache
cache_child opened rounds = if opened then drop_cache rounds else []

-- The rounds before the gadget is gone, and those of them in which both steps succeed.
abbrev pub live_rounds : List CacheRound → ℕ
live_rounds [] = 0
live_rounds (r ∷ rs) = if r.there then suc (live_rounds rs) else 0

abbrev pub good_rounds : List CacheRound → ℕ
good_rounds [] = 0
good_rounds (r ∷ rs) =
    if r.there then (if r.synced && r.advised then suc (good_rounds rs) else good_rounds rs) else 0

abbrev pub syncs : List CacheAct → ℕ
syncs [] = 0
syncs (sync ∷ acts) = suc (syncs acts)
syncs (_ ∷ acts) = syncs acts

abbrev pub pauses : List CacheAct → ℕ
pauses [] = 0
pauses (pause ∷ acts) = suc (pauses acts)
pauses (_ ∷ acts) = pauses acts

-- The child calls `fsync` once in each round until the gadget is gone, and pauses only after a
-- round in which both steps succeed: rounds that fail follow one another without a pause.
pub drop_cache-pauses :
    (rs : List CacheRound)
    → (syncs (drop_cache rs) ≡ live_rounds rs) × (pauses (drop_cache rs) ≡ good_rounds rs)
unfolding drop_cache
drop_cache-pauses [] = (refl, refl)
drop_cache-pauses (r ∷ rs) = ground (arith, drop_cache-pauses rs)
