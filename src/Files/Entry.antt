-- ===== src/Files/Entry.antt =====
-- The names in a directory, and a new entry of it.
use native.Mathlib.Omega.{arith}
use mathlib.Core.Path.{ap, ◌∙◌}
use container_hackathon.Prelude.{
  ◌≡◌, refl, Bool, true, false, ◌||◌, List, [], ◌∷◌, ◌++◌, inl, inr, Bool-cases, none, some,
  Option-cases,
}
use container_hackathon.Prelude.Text.{Text, text_eq, text_eq_iff}
use container_hackathon.Files.{
  Node, file, dir, Entries, end, entry, World, find_entry, find, locate, node_at,
}
use container_hackathon.Files.Written.{find_entry-set_entry}
use container_hackathon.Files.Edit.{set_entry, edit, edit_here}

abbrev pub has_entry : Text → Entries → Bool
has_entry name end = false
has_entry name (entry n node es) = text_eq name n || has_entry name es

pub has_entry-found :
    (name : Text) (node : Node) (es : Entries)
    → find_entry name es ≡ some node
    → has_entry name es ≡ true
has_entry-found name node end h = absurd cc
has_entry-found name node (entry n old es) h = ground (arith, has_entry-found name node es)

pub has_entry-held :
    (asked name : Text) (es : Entries)
    → has_entry name es ≡ true
    → has_entry asked es ≡ (text_eq asked name || has_entry asked es)
has_entry-held asked name es h = elim (Bool-cases (text_eq asked name)) [
  | inl e ↦
      let same : asked ≡ name = (text_eq_iff asked name).0 e in
      let held : has_entry asked es ≡ true = ap (λ n. has_entry n es) same ∙ h in ground arith
  | inr e ↦ ground arith
]

pub has_entry-set_entry :
    (asked name : Text) (node : Node) (es : Entries)
    → has_entry asked (set_entry name node es) ≡ (text_eq asked name || has_entry asked es)
has_entry-set_entry asked name node end = ground arith
has_entry-set_entry asked name node (entry n old es) = elim (Bool-cases (text_eq name n)) [
  | inl e ↦
      let same : name ≡ n = (text_eq_iff name n).0 e in
      let asks : text_eq asked name ≡ text_eq asked n = ap (text_eq asked) same in
      rw e (ground arith)
  | inr e ↦ rw e (ground (arith, has_entry-set_entry asked name node es))
]

pub found-node_at :
    (path : Text) (w : World) (node : Node)
    → node_at w path ≡ some node
    → find (locate w path) w.root ≡ some node
found-node_at [] w node h = absurd cc
found-node_at (c ∷ path) w node h = h

-- Where a directory is found, its entries are.
pub find-append :
    (ps : List Text) (name : Text) (node : Node) (es : Entries)
    → find ps node ≡ some (dir es)
    → find (ps ++ (name ∷ [])) node ≡ find_entry name es
find-append [] name node es h =
    let same : node ≡ dir es = cc in
    ap (find (name ∷ [])) same ∙ elim (Option-cases (find_entry name es)) [
      | inl e ↦ rw (e, find) refl
      | inr (child, e) ↦ rw (e, find) refl
    ]
find-append (p ∷ ps) name (file b) es h = absurd cc
find-append (p ∷ ps) name (dir sub) es h = elim (Option-cases (find_entry p sub)) [
  | inl missing ↦ let bad : none ≡ some (dir es) = rw (missing, find) at h in absurd cc
  | inr (child, found) ↦
      let below : find ps child ≡ some (dir es) = rw (found, find) at h in
      rw (found, find) (find-append ps name child es below)
]

edit-below :
    (f : Text → Entries → Entries) (ps : List Text) (p name : Text) (sub : Entries)
    (child new : Node)
    → find_entry p sub ≡ some child
    → edit f (ps ++ (name ∷ [])) child ≡ some new
    → edit f (p ∷ (ps ++ (name ∷ []))) (dir sub) ≡ some (dir (set_entry p new sub))
edit-below f [] p name sub child new found done = rw (found, done, edit) refl
edit-below f (q ∷ ps) p name sub child new found done = rw (found, done, edit) refl

-- A new entry of a directory.
pub edit-append :
    (f : Text → Entries → Entries) (ps : List Text) (name : Text) (node : Node) (es : Entries)
    → find ps node ≡ some (dir es)
    → find_entry name es ≡ none
    → (new : Node) × (edit f (ps ++ (name ∷ [])) node ≡ some new)
      × (find ps new ≡ some (dir (f name es)))
edit-append f [] name (file b) es h free = absurd cc
edit-append f [] name (dir sub) es h free =
    let same : sub ≡ es = cc in
    let here : find_entry name sub ≡ none = ap (find_entry name) same ∙ free in
    (dir (f name sub), rw (here, edit, edit_here) refl, ap (λ d. some (dir (f name d))) same)
edit-append f (p ∷ ps) name (file b) es h free = absurd cc
edit-append f (p ∷ ps) name (dir sub) es h free = elim (Option-cases (find_entry p sub)) [
  | inl missing ↦ let bad : none ≡ some (dir es) = rw (missing, find) at h in absurd cc
  | inr (child, found) ↦
      let below : find ps child ≡ some (dir es) = rw (found, find) at h in
      let made = edit-append f ps name child es below free in
      (
        dir (set_entry p made.0 sub),
        edit-below f ps p name sub child made.0 found made.1,
        rw (find_entry-set_entry p made.0 sub, find) made.2,
      )
]
