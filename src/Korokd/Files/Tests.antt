-- ===== src/Korokd/Files/Tests.antt =====
-- The theorems on files at concrete inputs: a disk is a list of paths with what they hold.
use agentland.Text.Search.{bytes_eq_refl}
use agentland.Text.Utf8
use agentland.Base.{
  true, Option, none, some, List, [], ◌∷◌, ◌≡◌, refl, length, if◌then◌else◌, inr, arith,
}
use agentland.Text.{Bytes, bytes, bytes_eq}
use agentland.Korokd.Files.{
  Os, FsHandler, regular, Stat, found, missing, success, form_error, forbidden, write_fs_file,
  get_fs_file, WriteResp, download_fs_file,
}
use agentland.Korokd.Files.Disk.{IsPlain, new, old, IsSound}
use agentland.Korokd.Files.RoundTrip.{Agrees, write-read}

abbrev Disk : Type 0
Disk = List (Bytes × Bytes)

abbrev read : Disk → Bytes → Option Bytes
read [] p = none
read ((q, c) ∷ s) p = if bytes_eq q p then some c else read s p

abbrev stat_of : Option Bytes → Stat
stat_of none = missing
stat_of (some c) = found (record { mode = regular; size = length c })

abbrev listed : Os
listed = record {
  State = Disk;
  stat = λ s p. stat_of (read s p);
  lstat = λ s p. stat_of (read s p);
  read_file = read;
  mkdir_all = λ d s. (true, s);
  write_file = λ p c s. (true, (p, c) ∷ s);
  open_file = λ p s. (true, (p, []) ∷ s);
  copy = λ p c s. (some (length c), (p, c) ∷ s);
}

stat_of-IsPlain : (o : Option Bytes) → IsPlain (stat_of o)
stat_of-IsPlain none = new
stat_of-IsPlain (some c) = old (length c)

read_back : (p c : Bytes) (s : Disk) → read ((p, c) ∷ s) p ≡ some c
read_back p c s = rw (bytes_eq_refl p) refl

listed-IsSound : IsSound listed
listed-IsSound = record {
  mkdir_plain = λ d p c s h w. h;
  write_read = λ p c s w h. read_back p c s;
  write_stat = λ p c s w h. rw (read_back p c s) refl;
}

abbrev handler : FsHandler
handler = record { workspace_root = bytes "/workspace"; max_file_bytes = 10 }

test_write :
    write_fs_file listed handler (some (bytes " a/b.txt", bytes "aGk=", bytes "base64")) [] ≡ (
      success (record { path = bytes "a/b.txt"; size = 2; encoding = bytes "base64" }),
      (bytes "/workspace/a/b.txt", bytes "hi") ∷ [],
    )
unfolding write_fs_file
test_write = refl

test_read : get_fs_file listed handler (some (bytes "../etc/passwd")) none [] ≡ forbidden
unfolding get_fs_file
test_read = refl

test_too_large :
    get_fs_file listed handler (some (bytes "/a")) none ((bytes "/a", bytes "12345678901") ∷ [])
    ≡ form_error
unfolding get_fs_file
test_too_large = refl

test_download :
    download_fs_file listed handler
      (bytes "a/b.txt")
      ((bytes "/workspace/a/b.txt", bytes "hi") ∷ [])
    ≡ success (record {
      file = bytes "/workspace/a/b.txt";
      file_name = bytes "b.txt";
      header_path = bytes "a/b.txt";
    })
unfolding download_fs_file
test_download = refl

abbrev written : WriteResp
written = record { path = bytes "a.txt"; size = 2; encoding = bytes "utf8" }

write_hi :
    (write_fs_file listed handler (some (bytes "a.txt", bytes "hi", [])) []).0 ≡ success written
unfolding write_fs_file
write_hi = refl

valid_hi : Utf8.valid (bytes "hi") ≡ true
unfolding Utf8.valid
valid_hi = refl

write-read_example : Agrees (bytes "hi") written (
    get_fs_file listed handler
      (some (bytes "a.txt"))
      (some [])
      (write_fs_file listed handler (some (bytes "a.txt", bytes "hi", [])) []).1)
write-read_example =
    write-read listed listed-IsSound handler (bytes "a.txt") (bytes "hi") [] [] written write_hi
      (λ target cleaned e. stat_of-IsPlain (read [] target)) (inr (omega arith)) valid_hi
