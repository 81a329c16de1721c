-- ===== src/Nemo/Columns.antt =====
-- The columns of a table of NEMO/report, and the charts that can be made of it.
use native.Mathlib.Omega.{arith}
use mathlib.Core.Path.{ap, sym, ◌∙◌}
use container_hackathon.Prelude.{
  ◌>>◌, guard, Error, ◌≡◌, ◌↔◌, refl, Bool, true, false, ◌||◌, ◌&&◌, List, [], ◌∷◌, ◌++◌, inl, inr,
  ok, Bool-cases,
}
use container_hackathon.Prelude.Text.{Text, codes, text_eq, text_eq_iff}
use container_hackathon.Nemo.{Row, has_name, add_new, columns_from, data_frame, Figure, bar}

-- Some row has a value under the name.
abbrev has_key : Text → Row → Bool
has_key name [] = false
has_key name ((key, cell) ∷ row) = text_eq name key || has_key name row

abbrev is_key : Text → List Row → Bool
is_key name [] = false
is_key name (row ∷ rows) = has_key name row || is_key name rows

has_name-append :
    (name key : Text) (names : List Text)
    → has_name name (names ++ (key ∷ [])) ≡ (has_name name names || text_eq name key)
has_name-append name key [] = ground arith
has_name-append name key (n ∷ names) = ground (arith, has_name-append name key names)

has_name-add_new :
    (name : Text) (names : List Text) (row : Row)
    → has_name name (add_new names row) ≡ (has_name name names || has_key name row)
has_name-add_new name names [] = ground arith
has_name-add_new name names ((key, cell) ∷ row) = elim (Bool-cases (has_name key names)) [
  | inl e ↦
      let kept : text_eq name key ≡ true → has_name name names ≡ true = λ h.
        let same : name ≡ key = (text_eq_iff name key).0 h in ap (λ n. has_name n names) same ∙ e in
      let rest = has_name-add_new name names row in rw e (ground arith)
  | inr e ↦
      let added = has_name-append name key names in
      let rest = has_name-add_new name (names ++ (key ∷ [])) row in rw e (ground arith)
]

has_name-columns_from :
    (name : Text) (names : List Text) (rows : List Row)
    → has_name name (columns_from names rows) ≡ (has_name name names || is_key name rows)
has_name-columns_from name names [] = ground arith
has_name-columns_from name names (row ∷ rows) =
    let rest = has_name-columns_from name (add_new names row) rows in
    let first = has_name-add_new name names row in ground arith

guard-done {ℓ} :
    {A : Type ℓ} (test : Bool) (error : Error) (made : A)
    → ((a : A) × ((guard test error >> ok made) ≡ ok a)) ↔ (test ≡ true)
guard-done true error made = (λ h. refl, λ h. (made, refl))
guard-done false error made = (λ h. let stopped = h.1 in absurd cc, λ h. absurd cc)

-- The chart of the rows can be made if and only if each of the three columns has a value in some row.
bar-data_frame :
    (rows : List Row) (y title : Text)
    → ((figure : Figure) × (bar (data_frame rows) y title ≡ ok figure))
      ↔ ((is_key (codes "mpi") rows && is_key y rows && is_key (codes "container") rows) ≡ true)
unfolding bar
bar-data_frame rows y title =
    let mpi = sym (has_name-columns_from (codes "mpi") [] rows) in
    let value = sym (has_name-columns_from y [] rows) in
    let container = sym (has_name-columns_from (codes "container") [] rows) in
    rw (mpi, value, container) (guard-done _ _ _)
