-- ===== src/PyStager/Master/Built.antt =====
-- The destination when the master begins to send (load level 0).
use native.Mathlib.Omega.{arith}
use mathlib.Core.Bool.{Bool-set}
use mathlib.Core.Logic.{∥∥₁_elim}
use mathlib.Core.List.{Perm, Permᴰ}
use container_hackathon.Prelude.{
  ℕ, suc, ◌<◌, ◌≡◌, refl, sym, ap, ◌∙◌, subst, Bool, ◌||◌, List, All, ok, some, ok-injective,
}
use container_hackathon.Prelude.Int.{pos}
use container_hackathon.Prelude.Text.{Text, text_eq}
use container_hackathon.Files.{World, Entries, dir, node_at, find, locate, list_dir}
use container_hackathon.Files.Entry.{has_entry}
use container_hackathon.PyStager.System.{System}
use container_hackathon.PyStager.Parameters.{Settings}
use container_hackathon.PyStager.Structure.{data_structure_builder}
use container_hackathon.PyStager.Structure.Built.{IsItem, is_among, data_structure_builder_lem}
use container_hackathon.PyStager.Master.{Plan, prepare}
use container_hackathon.PyStager.Master.Directories.{prepare-directories}

or_swap : (x y z : Bool) → (x || (y || z)) ≡ (y || (x || z))
or_swap x y z = ground arith

is_among-derivation : (n : Text) {xs ys : List Text} → Permᴰ xs ys → is_among n xs ≡ is_among n ys
is_among-derivation n Permᴰ.nil = refl
is_among-derivation n (Permᴰ.cons e p) = λ i. text_eq n (e i) || is_among-derivation n p i
is_among-derivation n (Permᴰ.swap {a' = c} {b' = d} {l} e f) =
    (λ i. text_eq n (e i) || (text_eq n (f i) || is_among n l))
    ∙ or_swap (text_eq n d) (text_eq n c) (is_among n l)
is_among-derivation n (Permᴰ.trans p q) = is_among-derivation n p ∙ is_among-derivation n q

is_among-perm : (n : Text) {xs ys : List Text} → Perm xs ys → is_among n xs ≡ is_among n ys
is_among-perm n p = ∥∥₁_elim p (Bool-set _ _) (is_among-derivation n)

module _ (sys : System) (settings : Settings) where
  open settings use {source_dir, destination_dir, load_level}

  prepare-world :
      (p : ℕ) (w : World) (plan : Plan)
      → prepare sys settings p w ≡ ok plan
      → data_structure_builder sys destination_dir plan.scan.list_items_to_process load_level w
        ≡ ok plan.world
  unfolding prepare
  prepare-world p w plan h = ground arith

  -- At load level 0 and with a slave, where a plan was made for the entries of the source, the destination is a
  -- directory in an absolute place, each item's path leads to the entry of its name there, and mkdir makes
  -- the directories of the items: when the master begins to send, it is in the destination, and the names
  -- there are the old ones and those of the entries of the source.
  pub prepare-built :
      (k : ℕ) (w : World) (names : List Text) (plan : Plan) (ps : List Text) (es : Entries)
      → 0 < k
      → load_level ≡ pos 0
      → list_dir w source_dir ≡ ok names
      → prepare sys settings (suc k) w ≡ ok plan
      → ((v : World) → locate v destination_dir ≡ ps)
      → node_at w destination_dir ≡ some (dir es)
      → All (IsItem sys destination_dir) plan.scan.list_items_to_process
      → (es' : Entries) × (plan.world.cwd ≡ ps)
        × (find ps plan.world.root ≡ some (dir es'))
        × ((n : Text) → has_entry n es' ≡ (is_among n names || has_entry n es))
  prepare-built k w names plan ps es many level listed prepared absolute opened items =
      let is_plan = prepare-directories sys settings k w names plan many level listed prepared in
      let (w', es', run, cwd, found, all) =
        data_structure_builder_lem sys destination_dir ps absolute plan.scan.list_items_to_process
          es w items opened in
      let built =
        subst
          (λ l.
            data_structure_builder sys destination_dir plan.scan.list_items_to_process l w
            ≡ ok plan.world)
          level (prepare-world (suc k) w plan prepared) in
      let same : w' ≡ plan.world = ok-injective (sym run ∙ built) in
      (
        es',
        subst (λ v. v.cwd ≡ ps) same cwd,
        subst (λ v. find ps v.root ≡ some (dir es')) same found,
        λ n. all n ∙ ap (λ b. b || has_entry n es) (is_among-perm n is_plan.perm),
      )
