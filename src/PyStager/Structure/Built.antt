-- ===== src/PyStager/Structure/Built.antt =====
-- What `data_structure_builder` leaves at the destination (load level 0).
use native.Mathlib.Omega.{arith}
use mathlib.Core.Path.{ap, sym, subst, ◌∙◌}
use container_hackathon.Prelude.{
  ◌≡◌, refl, Bool, true, false, ◌||◌, List, [], ◌∷◌, ◌++◌, inl, inr, ok, none, some, Option-cases,
  All,
}
use container_hackathon.Prelude.Int.{pos}
use container_hackathon.Prelude.Text.{Text, codes, text_eq}
use container_hackathon.Files.{
  dir, Entries, end, World, find_entry, find, locate, node_at, exists, is_dir, chdir,
}
use container_hackathon.Files.Edit.{set_entry, edit, edited, make_directory}
use container_hackathon.PyStager.System.{System}
use container_hackathon.PyStager.Structure.{make_dir, build_dir, build_dirs, data_structure_builder}
use container_hackathon.Files.Entry.{
  has_entry, has_entry-found, has_entry-held, has_entry-set_entry, found-node_at, find-append,
  edit-append,
}

abbrev pub is_among : Text → List Text → Bool
is_among name [] = false
is_among name (n ∷ ns) = text_eq name n || is_among name ns

-- The working directory is at `ps`, and has these entries.
record IsAt (ps : List Text) (es : Entries) (w : World) : Type 0 where
  cwd : w.cwd ≡ ps
  entries : find ps w.root ≡ some (dir es)

module _ (sys : System) (destination_dir : Text) where
  -- The path of an item leads to the entry of its name, and `mkdir` makes such a directory.
  pub record IsItem (name : Text) : Type 0 where
    pub below : (w : World) → locate w name ≡ w.cwd ++ (name ∷ [])
    pub seen : (w : World) → node_at w name ≡ find (w.cwd ++ (name ∷ [])) w.root
    pub tested :
        (w : World)
        → node_at w (destination_dir ++ name)
          ≡ find (locate w destination_dir ++ (name ∷ [])) w.root
    pub makes :
        (w w' : World) → make_directory name w ≡ ok w' → sys.shell (codes "mkdir " ++ name) w ≡ w'

  module _ (ps : List Text) (absolute : (w : World) → locate w destination_dir ≡ ps) where
    make_dir_lem :
        (name : Text) (es : Entries) (w : World)
        → IsItem name
        → IsAt ps es w
        → find_entry name es ≡ none
        → IsAt ps (set_entry name (dir end) es) (make_dir sys destination_dir name w)
    make_dir_lem name es w item at free =
        let new = edit-append (λ n. set_entry n (dir end)) ps name w.root es at.entries free in
        let path : locate w name ≡ ps ++ (name ∷ []) =
          item.below w ∙ ap (λ c. c ++ (name ∷ [])) at.cwd in
        let missing : node_at w name ≡ none =
          item.seen w
          ∙ ap (λ c. find (c ++ (name ∷ [])) w.root) at.cwd
          ∙ find-append ps name w.root es at.entries
          ∙ free in
        let absent : exists w name ≡ false = rw (missing, exists) refl in
        let done : edit (λ n. set_entry n (dir end)) (locate w name) w.root ≡ some new.0 =
          ap (λ q. edit (λ n. set_entry n (dir end)) q w.root) path ∙ new.1 in
        let made : make_directory name w ≡ ok (record w { root = new.0 }) =
          rw (absent, done, edited, make_directory) refl in
        subst (λ v. IsAt ps (set_entry name (dir end) es) v)
          (sym (item.makes w (record w { root = new.0 }) made))
          (record { cwd = at.cwd; entries = new.2 })

    build_dir_lem :
        (name : Text) (es : Entries) (w : World)
        → IsItem name
        → IsAt ps es w
        → (es' : Entries) × IsAt ps es' (build_dir sys destination_dir name w)
          × ((n : Text) → has_entry n es' ≡ (text_eq n name || has_entry n es))
    unfolding build_dir
    build_dir_lem name es w item at =
        let tested : node_at w (destination_dir ++ name) ≡ find_entry name es =
          item.tested w
          ∙ ap (λ q. find (q ++ (name ∷ [])) w.root) (absolute w)
          ∙ find-append ps name w.root es at.entries in
        elim (Option-cases (find_entry name es)) [
          | inl free ↦
              let absent : exists w (destination_dir ++ name) ≡ false =
                rw (tested ∙ free, exists) refl in
              (
                set_entry name (dir end) es,
                rw absent (make_dir_lem name es w item at free),
                λ n. has_entry-set_entry n name (dir end) es,
              )
          | inr (node, held) ↦
              let present : exists w (destination_dir ++ name) ≡ true =
                rw (tested ∙ held, exists) refl in
              (es, rw present at, λ n. has_entry-held n name es (has_entry-found name node es held))
        ]

    build_dirs_lem :
        (names : List Text) (es : Entries) (w : World)
        → All IsItem names
        → IsAt ps es w
        → (es' : Entries) × IsAt ps es' (build_dirs sys destination_dir names w)
          × ((n : Text) → has_entry n es' ≡ (is_among n names || has_entry n es))
    unfolding build_dirs
    build_dirs_lem [] es w items at = (es, at, λ n. refl)
    build_dirs_lem (name ∷ names) es w items at =
        let one = build_dir_lem name es w items.0 at in
        let all = build_dirs_lem names one.0 (build_dir sys destination_dir name w) items.1 one.1 in
        (all.0, all.1, λ n. let a = one.2 n in let b = all.2 n in ground arith)

    -- Where the destination is a directory, each item's path leads to the entry of its name, and mkdir
    -- makes the directories of the items, the loop ends without an error in the destination, and
    -- the names there are the old ones and the items.
    pub data_structure_builder_lem :
        (names : List Text) (es : Entries) (w : World)
        → All IsItem names
        → node_at w destination_dir ≡ some (dir es)
        → (w' : World) × (es' : Entries) × (data_structure_builder sys destination_dir names
              (pos 0)
              w
            ≡ ok w')
          × (w'.cwd ≡ ps)
          × (find ps w'.root ≡ some (dir es'))
          × ((n : Text) → has_entry n es' ≡ (is_among n names || has_entry n es))
    unfolding data_structure_builder
    data_structure_builder_lem names es w items opened =
        let there : exists w destination_dir ≡ true = rw (opened, exists) refl in
        let is_directory : is_dir w destination_dir ≡ true = rw (opened, is_dir) refl in
        let start : IsAt ps es (record w { cwd = locate w destination_dir }) = record {
          cwd = absolute w;
          entries =
              ap (λ q. find q w.root) (sym (absolute w))
              ∙ found-node_at destination_dir w (dir es) opened;
        } in
        let all =
          build_dirs_lem names es (record w { cwd = locate w destination_dir }) items start in
        (
          build_dirs sys destination_dir names (record w { cwd = locate w destination_dir }),
          all.0,
          rw (there, is_directory, chdir) refl,
          all.1.cwd,
          all.1.entries,
          all.2,
        )
