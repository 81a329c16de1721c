-- ===== src/Files/Written.antt =====
-- What is read from a file that has been written.
use container_hackathon.Prelude.{
  ℕ, ◌≡◌, refl, sym, ap, ◌∙◌, Bool-cases, Option-cases, inl, inr, Option, none, some, List, [], ◌∷◌,
  ok, raise, os_error,
}
use container_hackathon.Prelude.Text.{Text, text_eq, text_eq_iff}
use container_hackathon.Files.{
  Node, file, dir, Entries, end, entry, World, find_entry, find, locate, read_file,
}
use container_hackathon.Files.Edit.{set_entry, edit, writing, edited, write_file}

pub find_entry-set_entry :
    (name : Text) (node : Node) (es : Entries)
    → find_entry name (set_entry name node es) ≡ some node
find_entry-set_entry name node end = rw ((text_eq_iff name name).1 refl) refl
find_entry-set_entry name node (entry n old es) = elim (Bool-cases (text_eq name n)) [
  | inl e ↦ rw (e, e) refl
  | inr e ↦ rw (e, e) (find_entry-set_entry name node es)
]

find-edit_here :
    (bytes name : Text) (es : Entries) (old : Option Node) (new : Node)
    → (elim old as (λ o. Option Node) [
      | none ↦ some (dir (writing bytes name es))
      | some old ↦ elim old [ file b ↦ some (dir (writing bytes name es)) | dir sub ↦ none ]
    ])
      ≡ some new
    → find (name ∷ []) new ≡ some (file bytes)
find-edit_here bytes name es none new h =
    let same : dir (writing bytes name es) ≡ new = cc in
    ap (find (name ∷ [])) (sym same) ∙ rw (find_entry-set_entry name (file bytes) es, find) refl
find-edit_here bytes name es (some (file b)) new h =
    let same : dir (writing bytes name es) ≡ new = cc in
    ap (find (name ∷ [])) (sym same) ∙ rw (find_entry-set_entry name (file bytes) es, find) refl
find-edit_here bytes name es (some (dir sub)) new h = absurd cc

find-edit :
    (bytes : Text) (names : List Text) (node new : Node)
    → edit (writing bytes) names node ≡ some new
    → find names new ≡ some (file bytes)
find-edit bytes [] node new h = absurd cc
find-edit bytes (name ∷ []) (file b) new h = absurd cc
find-edit bytes (name ∷ []) (dir es) new h = find-edit_here bytes name es (find_entry name es) new h
find-edit bytes (name ∷ next ∷ names) (file b) new h = absurd cc
find-edit bytes (name ∷ next ∷ names) (dir es) new h = elim (Option-cases (find_entry name es)) [
  | inl missing ↦ let bad : none ≡ some new = rw (missing, edit) at h in absurd cc
  | inr (child, found) ↦ elim (Option-cases (edit (writing bytes) (next ∷ names) child)) [
    | inl failed ↦ let bad : none ≡ some new = rw (found, failed, edit) at h in absurd cc
    | inr (child', done) ↦
        let made : some (dir (set_entry name child' es)) ≡ some new = rw (found, done, edit) at h in
        let same : dir (set_entry name child' es) ≡ new = cc in
        ap (find (name ∷ next ∷ names)) (sym same)
        ∙ rw (find_entry-set_entry name child' es, find)
            (find-edit bytes (next ∷ names) child child' done)
  ]
]

-- A file that has been written holds what was written.
pub read_file-write_file :
    (c : ℕ) (path bytes : Text) (w w' : World)
    → write_file (c ∷ path) bytes w ≡ ok w'
    → read_file w' (c ∷ path) ≡ ok bytes
read_file-write_file c path bytes w w' h =
    elim (Option-cases (edit (writing bytes) (locate w (c ∷ path)) w.root)) [
      | inl failed ↦ let bad : raise os_error ≡ ok w' = rw (failed, edited) at h in absurd cc
      | inr (new, done) ↦
          let made : ok (record w { root = new }) ≡ ok w' = rw (done, edited) at h in
          let same : record w { root = new } ≡ w' = cc in
          ap (λ v. read_file v (c ∷ path)) (sym same)
          ∙ rw (find-edit bytes (locate w (c ∷ path)) w.root new done, read_file) refl
    ]
