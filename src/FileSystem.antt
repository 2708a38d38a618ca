-- ===== src/FileSystem.antt =====
-- kernel/fs/fstest.c with kernel/include/fcntl.h: the trial of the file system and the start of the volume. The openfat library is
-- a parameter. A string is the list of its characters, less the NUL.
mod Examples
pub mod Tree
use sky_os.Base.{
  ℕ, zero, suc, ◌+◌, Bool, true, false, ◌&&◌, ◌||◌, ◌==◌, ltb, if◌then◌else◌, List, [], ◌∷◌, ◌++◌,
  length, u32,
}
use sky_os.Base.Runs.{Run, done, panic, out_of_fuel, ◌>>=◌, ◌>>◌, inside, require}
use sky_os.BlockDevice.{BlockDevice, block_device_new, block_device_destroy}

abbrev pub Text : Type 0
Text = List ℕ

-- The fields of `struct dirent` that are read.
pub record Dirent : Type 0 where
  pub d_name : Text
  pub fat_attr : ℕ

-- What is used of openfat: a call returns an `int`, which is 0 where it succeeds, and changes the
-- volume, its working directory included, or a handle.
pub record OpenFat : Type 1 where
  pub Volume : Type 0
  pub File : Type 0
  pub fat_type : Volume → ℕ
  pub fat_vol_init : BlockDevice → Volume → ℕ × Volume
  pub fat_mkdir : Text → Volume → ℕ × Volume
  pub fat_chdir : Text → Volume → ℕ × Volume
  pub fat_create : Text → (flags : ℕ) → Volume → ℕ × File × Volume
  pub fat_open : Text → (flags : ℕ) → Volume → ℕ × File × Volume
  pub fat_write : File → Text → Volume → ℕ × File × Volume
  pub fat_readdir : File → Volume → ℕ × Dirent × File × Volume

abbrev pub o_rdonly : ℕ
o_rdonly = 0

abbrev pub o_wronly : ℕ
o_wronly = 1

abbrev pub o_accmode : ℕ
o_accmode = 3

abbrev pub o_rdwr : ℕ
o_rdwr = 2

abbrev pub o_creat : ℕ
o_creat = 64

abbrev pub o_append : ℕ
o_append = 1024

abbrev pub seek_set : ℕ
seek_set = 0

abbrev pub seek_cur : ℕ
seek_cur = 1

abbrev pub seek_end : ℕ
seek_end = 2

abbrev pub fat_attr_directory : ℕ
fat_attr_directory = 0x10

-- `assert(x)` of kernel/include/log.h, which loops for ever where `x` is not 1.
abbrev pub assert : ℕ → Run (Unit {0})
assert x = require (u32 x == 1)

-- An `int` that is the value of a test.
abbrev pub truth : Bool → ℕ
truth true = 1
truth false = 0

-- "." and ".."
abbrev pub dot : Text
dot = 46 ∷ []

abbrev pub dot_dot : Text
dot_dot = 46 ∷ 46 ∷ []

-- `strcmp(a, b) == 0`
abbrev pub same_text : Text → Text → Bool
same_text [] [] = true
same_text [] (b ∷ bs) = false
same_text (a ∷ xs) [] = false
same_text (a ∷ xs) (b ∷ bs) = (a == b) && same_text xs bs

module _ (fat : OpenFat) where
  -- The volume, and the messages of `log_info`.
  pub record Disk : Type 0 where
    pub volume : fat.Volume
    pub messages : List Text

  -- `log_info(message)`, where the message is the format; `format` is what printf makes of a format
  -- that has no arguments, which is done only where it asks for none.
  abbrev pub log_info : (format : Text → Run Text) (message : Text) → Disk → Run Disk
  log_info format message d = do
    text ← format message
    done (record d { messages = d.messages ++ text ∷ [] })

  -- A call whose result is not looked at.
  abbrev pub mkdir : Text → Disk → Disk
  mkdir name d = record d { volume = (fat.fat_mkdir name d.volume).1 }

  abbrev pub chdir : Text → Disk → ℕ × Disk
  chdir name d = let (r, v) = fat.fat_chdir name d.volume in (r, record d { volume = v })

  -- Into a directory, through `work` on its handle, and out again.
  abbrev pub visit : Text → (fat.File → Disk → Run Disk) → Disk → Run Disk
  visit name work d =
      let d1 = (chdir name d).1 in
      let (r, subdir, v) = fat.fat_open dot 0 d1.volume in
      assert (truth (r == 0))
      >> (work subdir (record d1 { volume = v }) >>= λ d2. done (chdir dot_dot d2).1)

  -- `tmppath` has 1024 characters, and `sprintf` does not look. A step of fuel is one entry of a
  -- directory, or its end.
  unfoldable pub print_tree :
      (format : Text → Run Text) (fuel : ℕ) → fat.File → (path : Text) → Disk → Run Disk
  print_tree format zero dir path d = out_of_fuel
  print_tree format (suc fuel) dir path d =
      let (r, ent, dir1, v) = fat.fat_readdir dir d.volume in
      let d1 = record d { volume = v } in
      let tmppath = path ++ 47 ∷ ent.d_name in
      let next : Disk → Run Disk = print_tree format fuel dir1 path in
      let down : fat.File → Disk → Run Disk = λ subdir. print_tree format fuel subdir tmppath in
      let entry =
        inside (ltb (length tmppath) 1024)
        >> (log_info format tmppath d1 >>= λ d2.
            if ent.fat_attr == fat_attr_directory
            then visit ent.d_name down d2 >>= next
            else next d2) in
      if r == 0
      then (if same_text ent.d_name dot || same_text ent.d_name dot_dot then next d1 else entry)
      else done d1

  module _ {S : Type 0} (kalloc : ℕ → S → Run (ℕ × S)) (base : ℕ) where
    -- The volume on the new device.
    unfoldable pub filesystem_init : Disk × S → Run (Disk × S)
    filesystem_init (d, heap) = do
      (bldev, heap1) ← block_device_new kalloc base heap
      let (r, v) = fat.fat_vol_init bldev d.volume
      assert (truth (r == 0))
      done (record d { volume = v }, heap1)

    -- The loop that writes the messages, with `rest` rounds left at `i`; `sprintf` is a parameter.
    unfoldable pub write_messages : (ℕ → Text) → (rest i : ℕ) → fat.File → Disk → Run Disk
    write_messages sprintf zero i file d = done d
    write_messages sprintf (suc rest) i file d =
        let message = sprintf i in
        let (r, file1, v) = fat.fat_write file message d.volume in
        inside (ltb (length message) 80)
        >> (assert (truth (r == length message))
            >> write_messages sprintf rest (suc i) file1 (record d { volume = v }))

    -- The directories are named by a parameter, as is the file.
    unfoldable pub make_directories : (directory : ℕ → Text) → Disk → Disk
    make_directories directory d = mkdir (directory 3) (mkdir (directory 2) (mkdir (directory 1) d))

    unfoldable pub fstest :
        (format : Text → Run Text) (fuel : ℕ) (directory : ℕ → Text) (long_name idle : Text)
        (sprintf : ℕ → Text)
        → Disk × S
        → Run (Disk × S)
    fstest format fuel directory long_name idle sprintf (d, heap) = do
      (bldev, heap1) ← block_device_new kalloc base heap
      let (r0, v) = fat.fat_vol_init bldev d.volume
      assert (truth (r0 == 0))
      let d1 = make_directories directory (record d { volume = v })
      let (r1, d2) = chdir (directory 1) d1
      assert (truth (r1 == 0))
      let d3 = make_directories directory d2
      let (r2, file, v1) = fat.fat_create long_name o_wronly d3.volume
      let d4 = record d3 { volume = v1 }
      d5 ← (if r2 == 0 then write_messages sprintf 100 0 file d4 else done d4)
      let (r3, d6) = chdir dot_dot d5
      assert (truth (r3 == 0))
      let (r4, dir, v2) = fat.fat_open dot o_rdonly d6.volume
      assert (truth (r4 == 0))
      d7 ← print_tree format fuel dir [] (record d6 { volume = v2 })
      let (r5, idle_file, v3) = fat.fat_open idle o_rdonly d7.volume
      assert (truth (r5 == 0))
      done (record d7 { volume = v3 }, block_device_destroy bldev heap1)
