-- ===== src/Session/Order.antt =====
-- How often a number stands in the difference of two sorted lists (src/system.hpp).
use virtual_media.Base.{
  ℕ, ◌+◌, ◌-◌, ◌≤◌, ◌≡◌, refl, true, List, [], ◌∷◌, if◌then◌else◌, ltb, leb, ◌==◌, arith,
  Bool-cases, inl, inr, All,
}
use virtual_media.Session.{insert_sorted, sort, set_difference, find_removed_session_ids}

-- How often a number stands in a list.
abbrev pub occurrences : ℕ → List ℕ → ℕ
occurrences v [] = 0
occurrences v (x ∷ xs) = (if x == v then 1 else 0) + occurrences v xs

-- Ascending: each head is at most every later number.
abbrev IsSorted : List ℕ → Type 0
IsSorted [] = Unit
IsSorted (x ∷ xs) = All (λ y. x ≤ y) xs × IsSorted xs

All-weaken : (x y : ℕ) (ys : List ℕ) → x ≤ y → All (λ z. y ≤ z) ys → All (λ z. x ≤ z) ys
All-weaken x y [] h a = tt
All-weaken x y (z ∷ zs) h a = (omega arith, All-weaken x y zs h a.1)

insert_sorted-All :
    (b x : ℕ) (ys : List ℕ) → b ≤ x → All (λ y. b ≤ y) ys → All (λ y. b ≤ y) (insert_sorted x ys)
unfolding insert_sorted
insert_sorted-All b x [] h a = (h, tt)
insert_sorted-All b x (y ∷ ys) h a = elim (Bool-cases (leb x y)) [
  | inl e ↦ rw e (h, a)
  | inr e ↦ rw e (a.0, insert_sorted-All b x ys h a.1)
]

insert_sorted-IsSorted : (x : ℕ) (ys : List ℕ) → IsSorted ys → IsSorted (insert_sorted x ys)
unfolding insert_sorted
insert_sorted-IsSorted x [] s = (tt, tt)
insert_sorted-IsSorted x (y ∷ ys) s = elim (Bool-cases (leb x y)) [
  | inl e ↦ rw e ((ground arith, All-weaken x y ys (ground arith) s.0), s)
  | inr e ↦ rw e (insert_sorted-All y x ys (ground arith) s.0, insert_sorted-IsSorted x ys s.1)
]

sort-IsSorted : (xs : List ℕ) → IsSorted (sort xs)
unfolding sort
sort-IsSorted [] = tt
sort-IsSorted (x ∷ xs) = insert_sorted-IsSorted x (sort xs) (sort-IsSorted xs)

occurrences-insert_sorted :
    (v x : ℕ) (ys : List ℕ) → occurrences v (insert_sorted x ys) ≡ occurrences v (x ∷ ys)
unfolding insert_sorted
occurrences-insert_sorted v x [] = refl
occurrences-insert_sorted v x (y ∷ ys) = ground (arith, occurrences-insert_sorted v x ys)

occurrences-sort : (v : ℕ) (xs : List ℕ) → occurrences v (sort xs) ≡ occurrences v xs
unfolding sort
occurrences-sort v [] = refl
occurrences-sort v (x ∷ xs) =
    omega (arith, occurrences-insert_sorted v x (sort xs), occurrences-sort v xs)

-- What is below every number of a list does not stand in it.
occurrences_below :
    (v b : ℕ) (xs : List ℕ) → All (λ y. b ≤ y) xs → ltb v b ≡ true → occurrences v xs ≡ 0
occurrences_below v b [] a h = refl
occurrences_below v b (x ∷ xs) a h = ground (arith, occurrences_below v b xs a.1 h)

occurrences-set_difference :
    (v : ℕ) (xs ys : List ℕ)
    → IsSorted xs
    → IsSorted ys
    → occurrences v (set_difference xs ys) ≡ occurrences v xs - occurrences v ys
unfolding set_difference
occurrences-set_difference v [] ys s t = omega arith
occurrences-set_difference v (x ∷ xs) [] s t = omega arith
occurrences-set_difference v (x ∷ xs) (y ∷ ys) s t = ground (
  arith,
  occurrences-set_difference v xs (y ∷ ys),
  occurrences-set_difference v (x ∷ xs) ys,
  occurrences-set_difference v xs ys,
  occurrences_below v y ys t.0,
  occurrences_below v x xs s.0,
)

pub occurrences-find_removed_session_ids :
    (v : ℕ) (active updated : List ℕ)
    → occurrences v (find_removed_session_ids active updated)
      ≡ occurrences v active - occurrences v updated
unfolding find_removed_session_ids
occurrences-find_removed_session_ids v active updated = omega (
  arith,
  occurrences-set_difference v (sort active) (sort updated) (sort-IsSorted active)
      (sort-IsSorted updated),
  occurrences-sort v active,
  occurrences-sort v updated,
)
