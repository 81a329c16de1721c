-- ===== src/PyStager/Hashing/Digests.antt =====
-- What ends up in a hash file.
use mathlib.Core.List.{flatten, append-nil, append_assoc}
use container_hackathon.Prelude.{
  ℕ, zero, suc, ◌≤◌, ◌≡◌, refl, ap, sym, ◌∙◌, some, List, [], ◌∷◌, ◌++◌, arith,
}
use container_hackathon.Prelude.{
  length, take, drop, take-append-drop, length-drop, ok, raise, name_error,
}
use container_hackathon.Prelude.Text.{Text}
use container_hackathon.Files.{World, read_file}
use container_hackathon.PyStager.System.{System}
use container_hackathon.PyStager.Hashing.{
  read_blocks, blocks, block_size, Hasher, new_hasher, update_all, hash_files, md5,
}

flatten-read_blocks :
    (rounds : ℕ) (bytes : Text) → length bytes ≤ rounds → flatten (read_blocks rounds bytes) ≡ bytes
unfolding read_blocks flatten
flatten-read_blocks zero [] h = refl
flatten-read_blocks zero (c ∷ bytes) h = absurd (omega arith)
flatten-read_blocks (suc rounds) [] h = refl
flatten-read_blocks (suc rounds) (c ∷ bytes) h =
    rw
      (flatten-read_blocks rounds (drop block_size (c ∷ bytes))
        (omega (arith, length-drop 4095 bytes)))
      (take-append-drop block_size (c ∷ bytes))

-- The blocks that the reads yield are the file, cut into pieces.
pub flatten-blocks : (bytes : Text) → flatten (blocks bytes) ≡ bytes
flatten-blocks bytes = flatten-read_blocks (length bytes) bytes (omega arith)

module _ (sys : System) where
  taken-update_all :
      (bs : List Text) (h : Hasher) → (update_all sys bs h).taken ≡ h.taken ++ flatten bs
  unfolding update_all flatten
  taken-update_all [] h = sym (append-nil h.taken)
  taken-update_all (b ∷ bs) h =
      taken-update_all bs
        (record { taken = h.taken ++ b; hashed_file = some (sys.md5_hex (h.taken ++ b)) })
      ∙ append_assoc h.taken b (flatten bs)

  -- `hashed_file` is the digest of all that was taken in.
  abbrev IsCurrent : Hasher → Type 0
  IsCurrent h = h.hashed_file ≡ some (sys.md5_hex h.taken)

  update_all-IsCurrent :
      (bs : List Text) (h : Hasher) → IsCurrent h → IsCurrent (update_all sys bs h)
  unfolding update_all
  update_all-IsCurrent [] h current = current
  update_all-IsCurrent (b ∷ bs) h current =
      update_all-IsCurrent bs
        (record { taken = h.taken ++ b; hashed_file = some (sys.md5_hex (h.taken ++ b)) }) refl

  taken-blocks :
      (bytes : Text) (h : Hasher) → (update_all sys (blocks bytes) h).taken ≡ h.taken ++ bytes
  taken-blocks bytes h =
      taken-update_all (blocks bytes) h ∙ ap (λ s. h.taken ++ s) (flatten-blocks bytes)

  -- The digest of a file, read in blocks, is that of all its bytes.
  pub md5_lem :
      (fname bytes : Text) (w : World)
      → read_file w fname ≡ ok bytes
      → md5 sys fname w ≡ ok (sys.md5_hex bytes)
  unfolding md5
  md5_lem fname bytes w h = rw (h, taken-blocks)

  -- The files `fs` have the contents `cs`.
  abbrev pub Contents : World → List Text → List Text → Type 0
  Contents w [] [] = Unit
  Contents w [] (c ∷ cs) = ⊥
  Contents w (f ∷ fs) [] = ⊥
  Contents w (f ∷ fs) (c ∷ cs) = (read_file w f ≡ ok c) × Contents w fs cs

  -- The digests of `taken` with the first of some contents behind it, with the first two, and so on.
  unfoldable pub prefix_digests : Text → List Text → Text
  prefix_digests taken [] = []
  prefix_digests taken (c ∷ cs) = sys.md5_hex (taken ++ c) ++ prefix_digests (taken ++ c) cs

  hash_files-step :
      (w : World) (f c : Text) (fs : List Text) (h : Hasher) (written : Text)
      → read_file w f ≡ ok c
      → IsCurrent (update_all sys (blocks c) h)
      → hash_files sys w (f ∷ fs) h written
        ≡ hash_files sys w fs (update_all sys (blocks c) h) (written ++ sys.md5_hex (h.taken ++ c))
  unfolding hash_files
  hash_files-step w f c fs h written held current = rw (held, current, taken-blocks c h)

  hash_files_rest :
      (w : World) (fs cs : List Text) (h : Hasher) (written : Text)
      → IsCurrent h
      → Contents w fs cs
      → hash_files sys w fs h written ≡ ok (written ++ prefix_digests h.taken cs)
  unfolding hash_files prefix_digests
  hash_files_rest w [] [] h written current held = ap ok (sym (append-nil written))
  hash_files_rest w [] (c ∷ cs) h written current held = absurd held
  hash_files_rest w (f ∷ fs) [] h written current held = absurd held
  hash_files_rest w (f ∷ fs) (c ∷ cs) h written current held =
      let current' = update_all-IsCurrent (blocks c) h current in
      hash_files-step w f c fs h written held.0 current'
      ∙ hash_files_rest w fs cs (update_all sys (blocks c) h)
          (written ++ sys.md5_hex (h.taken ++ c)) current' held.1
      ∙ rw (taken-blocks, append_assoc)

  update_all-first :
      (c : ℕ) (bytes : Text) → IsCurrent (update_all sys (blocks (c ∷ bytes)) new_hasher)
  unfolding update_all read_blocks
  update_all-first c bytes =
      update_all-IsCurrent (read_blocks (length bytes) (drop block_size (c ∷ bytes)))
        (record {
          taken = take block_size (c ∷ bytes);
          hashed_file = some (sys.md5_hex (take block_size (c ∷ bytes)));
        })
        refl

  -- Where the first of the files is not empty, the digests that are written are those of the
  -- contents up to and with each file, since one hash object takes in all files.
  pub hash_files_lem :
      (w : World) (f : Text) (fs : List Text) (c : ℕ) (bytes : Text) (cs : List Text)
      → read_file w f ≡ ok (c ∷ bytes)
      → Contents w fs cs
      → hash_files sys w (f ∷ fs) new_hasher [] ≡ ok (prefix_digests [] ((c ∷ bytes) ∷ cs))
  unfolding prefix_digests
  hash_files_lem w f fs c bytes cs held rest =
      hash_files-step w f (c ∷ bytes) fs new_hasher [] held (update_all-first c bytes)
      ∙ hash_files_rest w fs cs (update_all sys (blocks (c ∷ bytes)) new_hasher)
          (sys.md5_hex (c ∷ bytes)) (update_all-first c bytes) rest
      ∙ rw (taken-blocks)

  -- Where the first of the files is empty, the name `hashed_file` is read before it is set.
  pub hash_files-empty :
      (w : World) (f : Text) (fs : List Text)
      → read_file w f ≡ ok []
      → hash_files sys w (f ∷ fs) new_hasher [] ≡ raise name_error
  unfolding hash_files
  hash_files-empty w f fs held = rw held
