-- ===== src/Strings/Split.antt =====
-- Fields joined by a separator that none of them contains, and split again.
use shard_db.Base.{
  ℕ, ◌+◌, length, leb, Bool-cases, inl, inr, ◌≡◌, refl, ap, ◌∙◌, true, false, List, [], ◌∷◌, ◌++◌,
  ◌==◌, All, arith,
}
use shard_db.Bytes.{Bytes}
use shard_db.Strings.{has_prefix, split, split_two, join}

-- The separator does not occur.
abbrev pub Lacks : ℕ → Bytes → Type 0
Lacks sep b = All (λ c. (c == sep) ≡ false) b

pub has_prefix-append : (p s : Bytes) → has_prefix (p ++ s) p ≡ true
unfolding has_prefix
has_prefix-append [] [] = refl
has_prefix-append [] (c ∷ cs) = refl
has_prefix-append (c ∷ p) s = ground (arith, has_prefix-append p s)

pub split-field : (f s : Bytes) (sep : ℕ) → Lacks sep f → split (f ++ sep ∷ s) sep ≡ f ∷ split s sep
unfolding split
split-field [] s sep h = ground arith
split-field (c ∷ f) s sep h = ground (arith, split-field f s sep h.1, h.0)

pub split-last : (f : Bytes) (sep : ℕ) → Lacks sep f → split f sep ≡ f ∷ []
unfolding split
split-last [] sep h = refl
split-last (c ∷ f) sep h = ground (arith, split-last f sep h.1, h.0)

join-cons :
    (f g : Bytes) (fs : List Bytes) (sep : ℕ)
    → join (f ∷ g ∷ fs) (sep ∷ []) ≡ f ++ sep ∷ join (g ∷ fs) (sep ∷ [])
unfolding join
join-cons f g fs sep = refl

-- Fields that lack the separator are what Split finds in their join.
pub split-join :
    (f : Bytes) (fs : List Bytes) (sep : ℕ)
    → All (Lacks sep) (f ∷ fs)
    → split (join (f ∷ fs) (sep ∷ [])) sep ≡ f ∷ fs
unfolding join
split-join f [] sep h = split-last f sep h.0
split-join f (g ∷ fs) sep h =
    ap (λ b. split b sep) (join-cons f g fs sep)
    ∙ split-field f (join (g ∷ fs) (sep ∷ [])) sep h.0
    ∙ ap (λ l. f ∷ l) (split-join g fs sep h.1)

pub split_two-field :
    (f s : Bytes) (sep : ℕ) → Lacks sep f → split_two (f ++ sep ∷ s) sep ≡ f ∷ s ∷ []
unfolding split_two
split_two-field [] s sep h = ground arith
split_two-field (c ∷ f) s sep h = ground (arith, split_two-field f s sep h.1, h.0)

split-cons : (s : Bytes) (sep : ℕ) → (f : Bytes) × (fs : List Bytes) × (split s sep ≡ f ∷ fs)
unfolding split
split-cons [] sep = ([], [], refl)
split-cons (c ∷ s) sep =
    let (f, fs, e) = split-cons s sep in
    elim (Bool-cases (c == sep)) [
      | inl here ↦ ([], split s sep, ground arith)
      | inr there ↦ (c ∷ f, fs, ground (arith, e))
    ]

-- A separator makes one field more.
pub length-split :
    (a b : Bytes) (sep : ℕ)
    → length (split (a ++ sep ∷ b) sep) ≡ length (split a sep) + length (split b sep)
unfolding split
length-split [] b sep = ground arith
length-split (c ∷ a) b sep =
    let (f, fs, e) = split-cons a sep in
    let (g, gs, e') = split-cons (a ++ sep ∷ b) sep in ground (arith, length-split a b sep, e, e')

pub split-nonempty : (s : Bytes) (sep : ℕ) → leb 1 (length (split s sep)) ≡ true
split-nonempty s sep = let (f, fs, e) = split-cons s sep in ground (arith, e)
