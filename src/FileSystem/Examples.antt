-- ===== src/FileSystem/Examples.antt =====
-- `print_tree` of kernel/fs/fstest.c on a volume with a file in a directory.
use sky_os.Base.{ℕ, true, ◌≡◌, refl, [], ◌∷◌, ◌==◌, ◌++◌, arith, if◌then◌else◌}
use sky_os.Base.Runs.{Run, done, fault}
use sky_os.FileSystem.{Text, Dirent, OpenFat, print_tree}
use sky_os.FileSystem.Tree.{plain, Listing, paths, Reads, steps, print_tree_lem}

abbrev entry : (name attr : ℕ) → Dirent
entry name attr = record { d_name = name ∷ []; fat_attr = attr }

-- A volume is the depth of its working directory, a handle the depth and the place in the directory:
-- ".", the directory "d" at depth 0 with ".", "..", the file "f", and the end.
abbrev small : OpenFat
small = record {
  Volume = ℕ;
  File = ℕ × ℕ;
  fat_type = λ v. 12;
  fat_vol_init = λ dev v. (0, 0);
  fat_mkdir = λ name v. (0, v);
  fat_chdir = λ name v. (0, if v == 0 then 1 else 0);
  fat_create = λ name flags v. (1, (v, 0), v);
  fat_open = λ name flags v. (0, (v, 0), v);
  fat_write = λ file text v. (0, file, v);
  fat_readdir = λ file v.
      let (depth, i) = file in
      if i == 0
      then (0, entry 46 16, (depth, 1), v)
      else if i == 1
      then (if depth == 0
          then (0, entry 100 16, (depth, 2), v)
          else (0, entry 102 0, (depth, 2), v))
      else (1, entry 0 0, file, v);
}

-- A format with a conversion asks for an argument that is not there.
abbrev verbatim : Text → Run Text
verbatim t = if plain t then done t else fault

verbatim_done : (t : Text) → plain t ≡ true → verbatim t ≡ done t
verbatim_done t ok = rw ok refl

printed :
    print_tree small verbatim 10 (0, 0) [] (record { volume = 0; messages = [] })
    ≡ done (record { volume = 0; messages = (47 ∷ 100 ∷ []) ∷ (47 ∷ 100 ∷ 47 ∷ 102 ∷ []) ∷ [] })
unfolding print_tree
printed = refl

-- The directory "d" with the file "f".
abbrev tree : Listing
tree = Listing.directory (100 ∷ []) (Listing.file (102 ∷ []) Listing.nothing) Listing.nothing

abbrev reads : Reads small [] (0, 0) 0 tree
reads =
    Reads.at_dots {h = (0, 0)} {v = 0} (entry 46 16) (0, 1) refl refl
      (Reads.at_directory {h = (0, 1)} {v = 0} (entry 100 16) (0, 2) (1, 0) 1 0 0 refl refl refl
        (omega arith) refl refl refl
        (Reads.at_dots {h = (1, 0)} {v = 1} (entry 46 16) (1, 1) refl refl
          (Reads.at_file {h = (1, 1)} {v = 1} (entry 102 0) (1, 2) refl refl refl (omega arith) refl
            (Reads.at_end {h = (1, 2)} {v = 1} 1 (entry 0 0) (1, 2) refl refl)))
        refl (Reads.at_end {h = (0, 2)} {v = 0} 1 (entry 0 0) (0, 2) refl refl))

steps-reads : steps small reads ≡ 6
steps-reads = refl

print_tree_lem_example :
    print_tree small verbatim 10 (0, 0) [] (record { volume = 0; messages = [] })
    ≡ done (record { volume = 0; messages = [] ++ paths [] tree })
print_tree_lem_example =
    print_tree_lem small verbatim verbatim_done 10 [] reads (omega (arith, steps-reads))
