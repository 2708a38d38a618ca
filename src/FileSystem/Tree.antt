-- ===== src/FileSystem/Tree.antt =====
-- `print_tree` of kernel/fs/fstest.c on a directory, as the openfat library shows it.
use sky_os.Base.{
  ℕ, zero, suc, ◌+◌, ◌≤◌, ◌<◌, ◌≡◌, refl, arith, Bool, true, false, ◌||◌, ◌&&◌, not, ◌==◌, List, [],
  ◌∷◌, ◌++◌, length, lt→ltb,
}
use mathlib.Core.List.{append_assoc, append-nil}
use sky_os.Base.Runs.{Run, done}
use sky_os.FileSystem.{
  Text, Dirent, OpenFat, same_text, dot, dot_dot, fat_attr_directory, print_tree,
}

-- What a directory holds, less "." and "..".
pub data Listing : Type 0 where
  nothing : Listing
  file : Text → Listing → Listing
  directory : Text → (inner rest : Listing) → Listing

abbrev pub is_dots : Text → Bool
is_dots name = same_text name dot || same_text name dot_dot

-- A text without a conversion of printf: no character is '%'.
abbrev pub plain : Text → Bool
plain [] = true
plain (c ∷ cs) = not (c == 37) && plain cs

-- The path of an entry.
abbrev pub below : (path name : Text) → Text
below path name = path ++ 47 ∷ name

-- The paths of all entries, a directory before what it holds.
abbrev pub paths : Text → Listing → List Text
paths path nothing = []
paths path (file name rest) = below path name ∷ paths path rest
paths path (directory name inner rest) =
    below path name ∷ paths (below path name) inner ++ paths path rest

module _ (fat : OpenFat) where
  open fat use {File, Volume, fat_readdir, fat_chdir, fat_open}

  -- A handle that reads a directory entry by entry, where reading and opening change no volume, and ".."
  -- leads back. Every path has its place in the buffer and is plain.
  pub data Reads : (path : Text) → File → Volume → Listing → Type 0 where
    at_end :
        {path : Text} {h : File} {v : Volume} (r : ℕ) (ent : Dirent) (h1 : File)
        → fat_readdir h v ≡ (r, ent, h1, v)
        → (r == 0) ≡ false
        → Reads path h v Listing.nothing
    at_dots :
        {path : Text} {h : File} {v : Volume} {l : Listing} (ent : Dirent) (h1 : File)
        → fat_readdir h v ≡ (0, ent, h1, v)
        → is_dots ent.d_name ≡ true
        → Reads path h1 v l
        → Reads path h v l
    at_file :
        {path : Text} {h : File} {v : Volume} {l : Listing} (ent : Dirent) (h1 : File)
        → fat_readdir h v ≡ (0, ent, h1, v)
        → is_dots ent.d_name ≡ false
        → (ent.fat_attr == fat_attr_directory) ≡ false
        → length (below path ent.d_name) < 1024
        → plain (below path ent.d_name) ≡ true
        → Reads path h1 v l
        → Reads path h v (Listing.file ent.d_name l)
    at_directory :
        {path : Text} {h : File} {v : Volume} {inner l : Listing} (ent : Dirent) (h1 subdir : File)
        (v1 : Volume) (r r' : ℕ)
        → fat_readdir h v ≡ (0, ent, h1, v)
        → is_dots ent.d_name ≡ false
        → (ent.fat_attr == fat_attr_directory) ≡ true
        → length (below path ent.d_name) < 1024
        → plain (below path ent.d_name) ≡ true
        → fat_chdir ent.d_name v ≡ (r, v1)
        → fat_open dot 0 v1 ≡ (0, subdir, v1)
        → Reads (below path ent.d_name) subdir v1 inner
        → fat_chdir dot_dot v1 ≡ (r', v)
        → Reads path h1 v l
        → Reads path h v (Listing.directory ent.d_name inner l)

  -- The entries that are read, with the ends of the directories.
  abbrev pub steps : {path : Text} {h : File} {v : Volume} {l : Listing} → Reads path h v l → ℕ
  steps (Reads.at_end r ent h1 e failed) = 1
  steps (Reads.at_dots ent h1 e dots rest) = suc (steps rest)
  steps (Reads.at_file ent h1 e dots attr fits text rest) = suc (steps rest)
  steps
        (Reads.at_directory ent h1 subdir v1 r r' e dots attr fits text into opened inner back
          rest) =
      suc (steps inner + steps rest)

  -- On a directory that the library reads entry by entry, where reading and opening change no
  -- volume, ".." leads back from each directory and every path has fewer than 1024 characters and
  -- no "%", and where printf prints a format without "%" as it is, print_tree ends, after a round
  -- for each entry and each end of a directory; it prints the path of every entry once, a
  -- directory before what it holds, and leaves the volume as it was.
  pub print_tree_lem :
      (format : Text → Run Text) (prints : (t : Text) → plain t ≡ true → format t ≡ done t)
      (fuel : ℕ) {path : Text} {h : File} {v : Volume} {l : Listing} (messages : List Text)
      (r : Reads path h v l)
      → steps r ≤ fuel
      → print_tree fat format fuel h path (record { volume = v; messages = messages })
        ≡ done (record { volume = v; messages = messages ++ paths path l })
  unfolding print_tree
  print_tree_lem format prints zero messages (Reads.at_end r ent h1 e failed) le =
      absurd (omega arith)
  print_tree_lem format prints zero messages (Reads.at_dots ent h1 e dots rest) le =
      absurd (omega arith)
  print_tree_lem format prints zero messages (Reads.at_file ent h1 e dots attr fits text rest) le =
      absurd (omega arith)
  print_tree_lem format prints zero messages
        (Reads.at_directory ent h1 subdir v1 r r' e dots attr fits text into opened inner back rest)
        le =
      absurd (omega arith)
  print_tree_lem format prints (suc fuel) messages (Reads.at_end r ent h1 e failed) le =
      rw (e, failed, append-nil messages) refl
  print_tree_lem format prints (suc fuel) messages (Reads.at_dots ent h1 e dots rest) le =
      rw (e, dots) (print_tree_lem format prints fuel messages rest (omega arith))
  print_tree_lem format prints (suc fuel) messages
        (Reads.at_file {path} {h} {v} {l} ent h1 e dots attr fits text rest) le =
      let p = below path ent.d_name in
      let room = lt→ltb (length p) 1024 fits in
      rw
        (
          e,
          dots,
          room,
          prints p text,
          attr,
          print_tree_lem format prints fuel (messages ++ p ∷ []) rest (omega arith),
          append_assoc messages (p ∷ []) (paths path l),
        )
        refl
  print_tree_lem format prints (suc fuel) messages
        (Reads.at_directory {path = path} {inner = in_it} {l = l} ent h1 subdir v1 r r' e dots attr
          fits text into opened inner back rest)
        le =
      let p = below path ent.d_name in
      let room = lt→ltb (length p) 1024 fits in
      let m1 = messages ++ p ∷ [] in
      let m2 = m1 ++ paths p in_it in
      rw
        (
          e,
          dots,
          room,
          prints p text,
          attr,
          into,
          opened,
          print_tree_lem format prints fuel m1 inner (omega arith),
          back,
          print_tree_lem format prints fuel m2 rest (omega arith),
          append_assoc m1 (paths p in_it) (paths path l),
          append_assoc messages (p ∷ []) (paths p in_it ++ paths path l),
        )
        refl
