-- ===== src/PyStager/Scanner/Order.antt =====
-- `sort` sorts.
use mathlib.Core.List.{Perm}
use mathlib.Core.List.Perm
use container_hackathon.Prelude.{
  ◌+◌, length, ◌≡◌, refl, true, false, List, [], ◌∷◌, arith, All, Bool-cases, inl, inr,
}
use container_hackathon.Prelude.Text.{Text}
use container_hackathon.PyStager.Scanner.{text_leb, insert_sorted, sort}

-- No text stands behind a greater one.
abbrev pub IsSorted : List Text → Type 0
IsSorted [] = Unit
IsSorted (x ∷ xs) = All (λ y. text_leb x y ≡ true) xs × IsSorted xs

text_leb_total : (s t : Text) → text_leb s t ≡ false → text_leb t s ≡ true
text_leb_total [] t h = cc
text_leb_total (c ∷ s) [] h = refl
text_leb_total (c ∷ s) (d ∷ t) h = ground (arith, text_leb_total s t)

text_leb_trans : (s t u : Text) → text_leb s t ≡ true → text_leb t u ≡ true → text_leb s u ≡ true
text_leb_trans [] t u h k = refl
text_leb_trans (c ∷ s) [] u h k = cc
text_leb_trans (c ∷ s) (d ∷ t) [] h k = cc
text_leb_trans (c ∷ s) (d ∷ t) (e ∷ u) h k = ground (arith, text_leb_trans s t u)

All-leb_trans :
    (x y : Text) (ys : List Text)
    → text_leb x y ≡ true
    → All (λ z. text_leb y z ≡ true) ys
    → All (λ z. text_leb x z ≡ true) ys
All-leb_trans x y [] h all = tt
All-leb_trans x y (z ∷ zs) h all = (text_leb_trans x y z h all.0, All-leb_trans x y zs h all.1)

All-insert_sorted :
    (x y : Text) (ys : List Text)
    → text_leb x y ≡ true
    → All (λ z. text_leb x z ≡ true) ys
    → All (λ z. text_leb x z ≡ true) (insert_sorted y ys)
unfolding insert_sorted
All-insert_sorted x y [] h all = (h, tt)
All-insert_sorted x y (z ∷ zs) h all = elim (Bool-cases (text_leb y z)) [
  | inl le ↦ rw le (h, all)
  | inr gt ↦ rw gt (all.0, All-insert_sorted x y zs h all.1)
]

insert_sorted-IsSorted : (x : Text) (ys : List Text) → IsSorted ys → IsSorted (insert_sorted x ys)
unfolding insert_sorted
insert_sorted-IsSorted x [] s = (tt, tt)
insert_sorted-IsSorted x (y ∷ ys) s = elim (Bool-cases (text_leb x y)) [
  | inl le ↦ rw le ((le, All-leb_trans x y ys le s.0), s)
  | inr gt ↦
      rw gt (All-insert_sorted y x ys (text_leb_total x y gt) s.0, insert_sorted-IsSorted x ys s.1)
]

pub sort-IsSorted : (xs : List Text) → IsSorted (sort xs)
unfolding sort
sort-IsSorted [] = tt
sort-IsSorted (x ∷ xs) = insert_sorted-IsSorted x (sort xs) (sort-IsSorted xs)

insert_sorted-perm : (x : Text) (ys : List Text) → Perm (insert_sorted x ys) (x ∷ ys)
unfolding insert_sorted
insert_sorted-perm x [] = Perm.refl (x ∷ [])
insert_sorted-perm x (y ∷ ys) = elim (Bool-cases (text_leb x y)) [
  | inl le ↦ rw le (Perm.refl (x ∷ y ∷ ys))
  | inr gt ↦ rw gt (Perm.trans (Perm.cons y (insert_sorted-perm x ys)) (Perm.swap x y ys))
]

pub sort-perm : (xs : List Text) → Perm (sort xs) xs
unfolding sort
sort-perm [] = Perm.refl []
sort-perm (x ∷ xs) = Perm.trans (insert_sorted-perm x (sort xs)) (Perm.cons x (sort-perm xs))

length-insert_sorted : (x : Text) (ys : List Text) → length (insert_sorted x ys) ≡ length ys + 1
unfolding insert_sorted
length-insert_sorted x [] = refl
length-insert_sorted x (y ∷ ys) = ground (arith, length-insert_sorted x ys)

pub length-sort : (xs : List Text) → length (sort xs) ≡ length xs
unfolding sort
length-sort [] = refl
length-sort (x ∷ xs) = omega (arith, length-insert_sorted x (sort xs), length-sort xs)
