-- ===== src/Korokd/Files/Disk.antt =====
-- What the handlers rely on in the operating system.
use agentland.Base.{ℕ, true, some, ◌≡◌, length}
use agentland.Text.{Bytes}
use agentland.Korokd.Files.{Os, regular, Stat, found, missing}

-- A regular file, or nothing yet.
pub data IsPlain : Stat → Type 0 where
  new : IsPlain missing
  old : (size : ℕ) → IsPlain (found (record { mode = regular; size = size }))

-- Making directories puts nothing but directories on the disk. A file that was written has what was
-- written, and is a regular file of that length if it was one or was not there.
pub record IsSound (os : Os) : Type 0 where
  pub mkdir_plain :
      (d p content : Bytes) (s : os.State)
      → IsPlain (os.lstat s p)
      → (os.write_file p content (os.mkdir_all d s).1).0 ≡ true
      → IsPlain (os.lstat (os.mkdir_all d s).1 p)
  pub write_read :
      (p content : Bytes) (s : os.State)
      → (os.write_file p content s).0 ≡ true
      → IsPlain (os.lstat s p)
      → os.read_file (os.write_file p content s).1 p ≡ some content
  pub write_stat :
      (p content : Bytes) (s : os.State)
      → (os.write_file p content s).0 ≡ true
      → IsPlain (os.lstat s p)
      → os.lstat (os.write_file p content s).1 p
        ≡ found (record { mode = regular; size = length content })
