-- ===== src/Sort/Laws.antt =====
-- The binary search finds what a scan from the front finds.
use shard_db.Base.{
  ℕ, zero, suc, ◌+◌, ◌-◌, ◌/◌, ◌≤◌, ◌<◌, ◌≡◌, Bool, true, List, [], ◌∷◌, All, arith, length,
  get_elem?, leb, if◌then◌else◌,
}
use shard_db.Sort.{search_loop, search, test}

search_loop_lem :
    (fuel : ℕ) (f : ℕ → Bool) (c n i j : ℕ)
    → ((h : ℕ) → h < n → f h ≡ leb c h)
    → i ≤ c
    → c ≤ j
    → j ≤ n
    → j - i ≤ fuel
    → search_loop fuel f i j ≡ c
unfolding search_loop
search_loop_lem zero f c n i j t lo hi jn w = omega arith
search_loop_lem (suc fuel) f c n i j t lo hi jn w =
    let h = (i + j) / 2 in
    ground (arith, t h, search_loop_lem fuel f c n (h + 1) j t, search_loop_lem fuel f c n i h t)

module _ {ℓ} {A : Type ℓ} (p : A → Bool) where
  abbrev pub find_index : List A → ℕ
  find_index [] = 0
  find_index (a ∷ as') = if p a then 0 else suc (find_index as')

  -- Once the test holds, it holds for all that follows.
  abbrev pub IsMonotone : List A → Type ℓ
  IsMonotone [] = Unit
  IsMonotone (a ∷ as') = (p a ≡ true → All (λ b. p b ≡ true) as') × IsMonotone as'

  pub find_index-le : (l : List A) → find_index l ≤ length l
  find_index-le [] = omega arith
  find_index-le (a ∷ l) = ground (arith, find_index-le l)

  All-true :
      (l : List A) (h : ℕ) → All (λ b. p b ≡ true) l → h < length l → test p (get_elem? l h) ≡ true
  All-true [] h a lt = absurd (omega arith)
  All-true (x ∷ l) zero a lt = a.0
  All-true (x ∷ l) (suc h) a lt = All-true l h a.1 (omega arith)

  test-get_elem? :
      (l : List A) (h : ℕ)
      → IsMonotone l
      → h < length l
      → test p (get_elem? l h) ≡ leb (find_index l) h
  test-get_elem? [] h m lt = absurd (omega arith)
  test-get_elem? (x ∷ l) zero m lt = ground arith
  test-get_elem? (x ∷ l) (suc h) m lt = ground (arith, test-get_elem? l h m.1, All-true l h)

  pub search-find_index :
      (l : List A) → IsMonotone l → search (length l) (λ i. test p (get_elem? l i)) ≡ find_index l
  unfolding search
  search-find_index l m =
      search_loop_lem (length l) (λ i. test p (get_elem? l i)) (find_index l) (length l) 0
        (length l) (λ h lt. test-get_elem? l h m lt) (omega arith) (find_index-le l) (omega arith)
        (omega arith)
