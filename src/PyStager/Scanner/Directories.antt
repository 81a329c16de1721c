-- ===== src/PyStager/Scanner/Directories.antt =====
-- What the scan of a directory of directories finds (load level 0).
use mathlib.Core.List.{Perm, append-nil, append_assoc}
use mathlib.Core.List.Perm
use container_hackathon.Prelude.{◌+◌, ◌↔◌, ◌≡◌, refl, ◌∙◌, true, false, List, [], ◌∷◌, ◌++◌, arith}
use container_hackathon.Prelude.{
  if◌then◌else◌, length, length-append, Bool-cases, inl, inr, All, ◌≤◌,
}
use container_hackathon.Prelude.{ok, >>=-eq-ok, ok-injective, subst}
use container_hackathon.Prelude.Int.{pos}
use container_hackathon.Prelude.Text.{Text}
use container_hackathon.Files.{World, is_dir, list_dir}
use container_hackathon.PyStager.System.{System}
use container_hackathon.PyStager.Scanner.{
  Scan, sort, scan_directory, scan_directories, nothing_scanned, directory_scanner,
}
use container_hackathon.PyStager.Scanner.Order.{IsSorted, sort-IsSorted, sort-perm, length-sort}

sorted_then :
    (xs : List Text) (d : Text) (ys : List Text)
    → Perm (sort (xs ++ (d ∷ [])) ++ ys) (xs ++ (d ∷ ys))
sorted_then xs d ys =
    let p : Perm (sort (xs ++ (d ∷ [])) ++ ys) ((xs ++ (d ∷ [])) ++ ys) =
      Perm.append_right ys (sort-perm (xs ++ (d ∷ []))) in
    rw append_assoc at p

module _ (sys : System) (w : World) (source_path : Text) where
  -- The names among `ds` that lead to directories.
  unfoldable pub subdirectories : List Text → List Text
  subdirectories [] = []
  subdirectories (d ∷ ds) =
      let rest = subdirectories ds in if is_dir w (source_path ++ d) then d ∷ rest else rest

  scan_directory_lem :
      (d : Text) (s s' : Scan)
      → scan_directory sys w source_path d s ≡ ok s'
      → (s'.list_items_to_process ≡ (
          if is_dir w (source_path ++ d)
          then sort (s.list_items_to_process ++ (d ∷ []))
          else s.list_items_to_process))
        × (s'.total_num_directories ≡ s.total_num_directories)
  unfolding scan_directory
  scan_directory_lem d s s' h = ground arith

  -- What the loop makes of the items `xs`, with `ds` the names that are left.
  record Found (ds xs : List Text) (s' : Scan) : Type 0 where
    perm : Perm s'.list_items_to_process (xs ++ subdirectories ds)
    count : length s'.list_items_to_process ≡ length xs + length (subdirectories ds)
    sorted : IsSorted xs → IsSorted s'.list_items_to_process

  Found-nil : (s : Scan) → Found [] s.list_items_to_process s
  unfolding subdirectories
  Found-nil s = record {
    perm = rw append-nil (Perm.refl s.list_items_to_process);
    count = omega arith;
    sorted = λ h. h;
  }

  Found-dir :
      (d : Text) (ds xs : List Text) (s' : Scan)
      → is_dir w (source_path ++ d) ≡ true
      → Found ds (sort (xs ++ (d ∷ []))) s'
      → Found (d ∷ ds) xs s'
  unfolding subdirectories
  Found-dir d ds xs s' here f = record {
    perm = rw here (Perm.trans f.perm (sorted_then xs d (subdirectories ds)));
    count = ground (arith, f.count, length-sort (xs ++ (d ∷ [])), length-append xs (d ∷ []));
    sorted = λ h. f.sorted (sort-IsSorted (xs ++ (d ∷ [])));
  }

  Found-other :
      (d : Text) (ds xs : List Text) (s' : Scan)
      → is_dir w (source_path ++ d) ≡ false
      → Found ds xs s'
      → Found (d ∷ ds) xs s'
  unfolding subdirectories
  Found-other d ds xs s' other f = record {
    perm = rw other f.perm;
    count = rw other f.count;
    sorted = f.sorted;
  }

  scan_directories_lem :
      (ds : List Text) (s s' : Scan)
      → scan_directories sys w source_path ds s ≡ ok s'
      → Found ds s.list_items_to_process s' × (s'.total_num_directories ≡ s.total_num_directories)
  unfolding scan_directories
  scan_directories_lem [] s s' h =
      subst
        (λ t.
          Found [] s.list_items_to_process t × (t.total_num_directories ≡ s.total_num_directories))
        (ok-injective h) (Found-nil s, refl)
  scan_directories_lem (d ∷ ds) s s' h =
      let (s1, step, rest) =
        >>=-eq-ok (scan_directory sys w source_path d s) (scan_directories sys w source_path ds)
          h in
      let (items, same) = scan_directory_lem d s s1 step in
      let f = scan_directories_lem ds s1 s' rest in
      elim (Bool-cases (is_dir w (source_path ++ d))) [
        | inl here ↦ (
          Found-dir d ds s.list_items_to_process s' here
              (subst (λ xs. Found ds xs s') (rw here at items) f.0),
          f.1 ∙ same,
        )
        | inr other ↦ (
          Found-other d ds s.list_items_to_process s' other
              (subst (λ xs. Found ds xs s') (rw other at items) f.0),
          f.1 ∙ same,
        )
      ]

  -- A scan at load level 0 that raises nothing lists the directories of the source, each once, in
  -- order; its count of directories is that of all the entries of the source, files too.
  pub directory_scanner-directories :
      (names : List Text) (s : Scan)
      → list_dir w source_path ≡ ok names
      → directory_scanner sys w source_path (pos 0) ≡ ok s
      → Perm s.list_items_to_process (subdirectories names)
        × IsSorted s.list_items_to_process
        × (length s.list_items_to_process ≡ length (subdirectories names))
        × (s.total_num_directories ≡ length names)
  unfolding directory_scanner
  directory_scanner-directories names s listed h =
      let f =
        scan_directories_lem names (nothing_scanned sys w source_path (length names)) s
          (rw listed at h) in
      (f.0.perm, f.0.sorted tt, omega (arith, f.0.count), f.1)

  pub length-subdirectories_le : (ds : List Text) → length (subdirectories ds) ≤ length ds
  unfolding subdirectories
  length-subdirectories_le [] = omega arith
  length-subdirectories_le (d ∷ ds) = ground (arith, length-subdirectories_le ds)

  -- Every name leads to a directory.
  abbrev pub AllDirs : List Text → Type 0
  AllDirs = All (λ d. is_dir w (source_path ++ d) ≡ true)

  pub AllDirs-iff : (ds : List Text) → (length (subdirectories ds) ≡ length ds) ↔ AllDirs ds
  unfolding subdirectories
  AllDirs-iff [] = (λ h. tt, λ h. refl)
  AllDirs-iff (d ∷ ds) = (
    λ h. ground (arith, length-subdirectories_le ds, (AllDirs-iff ds).0),
    λ h. ground (arith, (AllDirs-iff ds).1),
  )

  pub subdirectories_all : (ds : List Text) → AllDirs ds → subdirectories ds ≡ ds
  unfolding subdirectories
  subdirectories_all [] all = refl
  subdirectories_all (d ∷ ds) all = rw (all.0, subdirectories_all ds all.1)
