-- ===== src/PyStager/Master/Directories.antt =====
-- The plan for the directories of a source (load level 0).
use mathlib.Core.List.{Perm}
use native.Mathlib.Decide.{dec_lt}
use container_hackathon.Prelude.{ℕ, suc, ◌<◌, ◌≤◌, ◌≡◌, sym, ◌∙◌, subst, inl, arith}
use container_hackathon.Prelude.{List, length, ok, raise, index_error, ok-injective}
use container_hackathon.Prelude.{Option}
use container_hackathon.Prelude.Dict.{Dict}
use container_hackathon.Prelude.Int.{pos}
use container_hackathon.Prelude.Text.{Text}
use container_hackathon.Files.{World, list_dir}
use container_hackathon.PyStager.System.{System}
use container_hackathon.PyStager.Parameters.{Settings}
use container_hackathon.PyStager.Scanner.{directory_scanner}
use container_hackathon.PyStager.Scanner.Order.{IsSorted}
use container_hackathon.PyStager.Scanner.Directories.{
  subdirectories, directory_scanner-directories, length-subdirectories_le, AllDirs, AllDirs-iff,
  subdirectories_all,
}
use container_hackathon.PyStager.Distributor.{load_distributor}
use container_hackathon.PyStager.Distributor.Jobs.{IsDistribution, load_distributor_lem}
use container_hackathon.PyStager.Distributor.Failures.{load_distributor-overrun}
use container_hackathon.PyStager.Master.{Plan, prepare}

module _ (sys : System) (settings : Settings) where
  open settings use {source_dir, destination_dir, load_level}

  -- The parts of a plan that was made.
  record Parts (p : ℕ) (w : World) (plan : Plan) : Type 0 where
    scanned : directory_scanner sys w source_dir load_level ≡ ok plan.scan
    shared :
        load_distributor plan.scan.list_items_to_process plan.scan.total_num_files
          plan.scan.total_num_directories load_level p
        ≡ ok plan.transfer_dict

  prepare-Parts :
      (p : ℕ) (w : World) (plan : Plan) → prepare sys settings p w ≡ ok plan → Parts p w plan
  unfolding prepare
  prepare-Parts p w plan h = ground arith

  -- A plan for the directories of a source, whose entries are `names`, among `k` slaves.
  pub record IsDirectoryPlan (k : ℕ) (w : World) (names : List Text) (plan : Plan) : Type 0 where
    pub all_dirs : AllDirs sys w source_dir names
    pub perm : Perm plan.scan.list_items_to_process names
    pub sorted : IsSorted plan.scan.list_items_to_process
    pub given : IsDistribution k plan.scan.list_items_to_process plan.transfer_dict

  module _ (k : ℕ) (w : World) (names : List Text) (plan : Plan) where
    count_fits :
        0 < k
        → load_level ≡ pos 0
        → Parts (suc k) w plan
        → plan.scan.total_num_directories ≤ length plan.scan.list_items_to_process
    count_fits many level parts =
        elim (dec_lt (length plan.scan.list_items_to_process) plan.scan.total_num_directories) [
          | yes over ↦ absurd (
              never (
                sym (
                  load_distributor-overrun plan.scan.list_items_to_process plan.scan.total_num_files
                    plan.scan.total_num_directories load_level k many (inl (level, over)))
                ∙ parts.shared))
          | no fits ↦ omega arith
        ]
      where
        never : raise index_error ≡ ok plan.transfer_dict → ⊥
        never e = cc

    -- At load level 0 and with a slave, a plan is made only if every entry of the source is a
    -- directory; its items are then these entries, in order, and each slave has its share of them.
    pub prepare-directories :
        0 < k
        → load_level ≡ pos 0
        → list_dir w source_dir ≡ ok names
        → prepare sys settings (suc k) w ≡ ok plan
        → IsDirectoryPlan k w names plan
    prepare-directories many level listed prepared = record {
      all_dirs = all;
      perm =
          subst (λ ds. Perm plan.scan.list_items_to_process ds)
            (subdirectories_all sys w source_dir names all) found.0;
      sorted = found.1;
      given =
          subst (λ d. IsDistribution k plan.scan.list_items_to_process d)
            (ok-injective (sym dealt.1 ∙ parts.shared)) dealt.2;
    }
      where
        parts : Parts (suc k) w plan
        parts = prepare-Parts (suc k) w plan prepared

        found :
            Perm plan.scan.list_items_to_process (subdirectories sys w source_dir names)
            × IsSorted plan.scan.list_items_to_process
            × (length plan.scan.list_items_to_process
                ≡ length (subdirectories sys w source_dir names))
            × (plan.scan.total_num_directories ≡ length names)
        found =
            directory_scanner-directories sys w source_dir names plan.scan listed
              (subst (λ l. directory_scanner sys w source_dir l ≡ ok plan.scan) level parts.scanned)

        full : length (subdirectories sys w source_dir names) ≡ length names
        full = omega (
          arith,
          found.2,
          found.3,
          count_fits many level parts,
          length-subdirectories_le sys w source_dir names,
        )

        all : AllDirs sys w source_dir names
        all = (AllDirs-iff sys w source_dir names).0 full

        dealt :
            (d : Dict (Option Text)) × (load_distributor plan.scan.list_items_to_process
                plan.scan.total_num_files plan.scan.total_num_directories load_level
                (suc k)
              ≡ ok d)
            × IsDistribution k plan.scan.list_items_to_process d
        dealt =
            load_distributor_lem plan.scan.list_items_to_process plan.scan.total_num_files
              plan.scan.total_num_directories load_level k many
              (inl (level, omega (arith, found.2, found.3, full)))
