-- ===== src/Korokd/Files.antt =====
-- The file handlers of the daemon (pkg/korokd/handlers/fs.go): the parameters of a request, and
-- reading, writing, uploading and downloading one file. The operating system is an argument, `Os`,
-- with a state of its own.
pub mod Parameters
pub mod Disk
pub mod RoundTrip
mod Tests
use agentland.Base.{
  ℕ, Bool, true, false, not, ◌&&◌, ◌||◌, Option, none, some, List, [], ◌∷◌, ltb, length,
  if◌then◌else◌, ◌==◌,
}
use agentland.Text.{Bytes, bytes, bytes_eq, trim_space}
use agentland.Text.Base64
use agentland.Text.Utf8
use agentland.FilePath.{dir, base}
use agentland.Korokd.Workspace.{Resolved, resolved, not_relative, escapes, resolve_workspace_path}
use agentland.Korokd.Files.Parameters.{parse_encoding, decode_content, default_file_encoding}

-- What a handler answers: a result, response.FormError, response.ServerError, or status 403.
pub data Response {ℓ} (A : Type ℓ) : Type ℓ where
  success : A → Response A
  form_error server_error forbidden : Response A

pub data Mode : Type 0 where
  regular directory symlink special : Mode

pub record FileInfo : Type 0 where
  pub mode : Mode
  pub size : ℕ

pub data Stat : Type 0 where
  found : FileInfo → Stat
  missing failed : Stat

-- The package `os` on the state of the disk; `lstat` follows no link. `write` is os.WriteFile, `copy`
-- opens a file to truncate it and copies a stream into it, with the number of bytes that were written.
pub record Os : Type 1 where
  pub State : Type 0
  pub stat : State → Bytes → Stat
  pub lstat : State → Bytes → Stat
  pub read_file : State → Bytes → Option Bytes
  pub mkdir_all : Bytes → State → Bool × State
  pub write_file : Bytes → Bytes → State → Bool × State
  pub open_file : Bytes → State → Bool × State
  pub copy : Bytes → Bytes → State → Option ℕ × State

pub record FsHandler : Type 0 where
  pub workspace_root : Bytes
  pub max_file_bytes : ℕ

pub record FileResp : Type 0 where
  pub path : Bytes
  pub size : ℕ
  pub encoding : Bytes
  pub content : Bytes

pub record WriteResp : Type 0 where
  pub path : Bytes
  pub size : ℕ
  pub encoding : Bytes

pub record UploadResp : Type 0 where
  pub source_path : Bytes
  pub target_path : Bytes
  pub size : ℕ

-- The file that is sent, the name that it is sent under, and the header with its path.
pub record Download : Type 0 where
  pub file : Bytes
  pub file_name : Bytes
  pub header_path : Bytes

-- gin's DefaultQuery and Query.
abbrev pub or_default : Bytes → Option Bytes → Bytes
or_default d none = d
or_default d (some v) = v

abbrev pub is_directory : Mode → Bool
is_directory directory = true
is_directory regular = false
is_directory symlink = false
is_directory special = false

abbrev pub is_symlink : Mode → Bool
is_symlink symlink = true
is_symlink regular = false
is_symlink directory = false
is_symlink special = false

-- A file within the limit, neither a directory nor a link, where there is one.
abbrev pub readable : FsHandler → Stat → Response FileInfo
readable h missing = form_error
readable h failed = server_error
readable h (found info) =
    if is_directory info.mode || is_symlink info.mode
    then form_error
    else if ltb 0 h.max_file_bytes && ltb h.max_file_bytes info.size
    then form_error
    else success info

abbrev pub file_resp : Bytes → Bytes → ℕ → Bytes → FileResp
file_resp path encoding size content = record {
  path = path;
  size = size;
  encoding = encoding;
  content = content;
}

-- What is read, in the encoding that was asked for.
abbrev pub encoded : Bytes → Bytes → Option Bytes → Response FileResp
unfolding Utf8.valid Base64.encode
encoded cleaned encoding none = server_error
encoded cleaned encoding (some content) =
    if bytes_eq encoding default_file_encoding
    then if Utf8.valid content
      then success (file_resp cleaned encoding (length content) content)
      else form_error
    else success (file_resp cleaned encoding (length content) (Base64.encode content))

abbrev pub and_then {ℓ κ} : {A : Type ℓ} {B : Type κ} → Response A → (A → Response B) → Response B
and_then (success a) f = f a
and_then form_error f = form_error
and_then server_error f = server_error
and_then forbidden f = forbidden

abbrev pub of_resolved : Resolved → Response (Bytes × Bytes)
of_resolved (resolved target cleaned) = success (target, cleaned)
of_resolved not_relative = forbidden
of_resolved escapes = forbidden

-- A path that the handlers work on, with its cleaned form.
abbrev pub workspace_path : FsHandler → Bytes → Response (Bytes × Bytes)
workspace_path h path = of_resolved (resolve_workspace_path h.workspace_root path)

abbrev pub required : Bytes → Response Bytes
required [] = form_error
required (c ∷ s) = success (c ∷ s)

abbrev pub or_form_error {ℓ} : {A : Type ℓ} → Option A → Response A
or_form_error none = form_error
or_form_error (some a) = success a

-- The name under which a file is sent.
abbrev pub sent_name : Bytes → Bytes
sent_name name =
    if bytes_eq name (bytes ".") || bytes_eq name (bytes "/") || bytes_eq name []
    then bytes "download.bin"
    else name

module _ (os : Os) (h : FsHandler) where
  open os use {State, lstat, read_file, mkdir_all, write_file, open_file, copy}

  -- The path and the encoding of the query.
  unfoldable pub get_fs_file : Option Bytes → Option Bytes → State → Response FileResp
  unfolding trim_space parse_encoding resolve_workspace_path encoded
  get_fs_file path encoding s = and_then (required (trim_space (or_default [] path))) λ file_path.
      and_then (or_form_error (parse_encoding (or_default default_file_encoding encoding))) λ enc.
        and_then (workspace_path h file_path) λ (target, cleaned).
          and_then (readable h (lstat s target)) λ info. encoded cleaned enc (read_file s target)

  -- ensureParentDir
  unfoldable pub ensure_parent_dir : Bytes → State → Bool × State
  unfolding dir
  ensure_parent_dir path s =
      let parent = dir path in
      if bytes_eq parent (bytes ".") || bytes_eq parent [] then (true, s) else mkdir_all parent s

  -- A step on the disk, and what follows where it succeeds.
  abbrev pub then_on {ℓ} :
      {A : Type ℓ} → Bool × State → (State → Response A × State) → Response A × State
  then_on (true, s) f = f s
  then_on (false, s) f = (server_error, s)

  -- What follows a check, and the state where the check fails.
  abbrev pub checked {ℓ κ} :
      {A : Type ℓ} {B : Type κ} → Response A → State → (A → Response B × State) → Response B × State
  checked (success a) s f = f a
  checked form_error s f = (form_error, s)
  checked server_error s f = (server_error, s)
  checked forbidden s f = (forbidden, s)

  abbrev pub write_resp : Bytes → Bytes → ℕ → WriteResp
  write_resp path encoding size = record { path = path; encoding = encoding; size = size }

  abbrev pub write_to : Bytes → Bytes → Bytes → Bytes → State → Response WriteResp × State
  unfolding ensure_parent_dir
  write_to target cleaned enc content s = then_on (ensure_parent_dir target s) λ s'.
      then_on (write_file target content s')
        λ s''. (success (write_resp cleaned enc (length content)), s'')

  -- The body's path, content and encoding, where it is JSON that fits.
  unfoldable pub write_fs_file : Option (Bytes × Bytes × Bytes) → State → Response WriteResp × State
  unfolding trim_space parse_encoding resolve_workspace_path decode_content write_to
  write_fs_file body s = checked (or_form_error body) s λ (path, text, encoding).
      checked (required (trim_space path)) s λ path'.
        checked (or_form_error (parse_encoding encoding)) s λ enc.
          checked (workspace_path h path') s λ (target, cleaned).
            checked (or_form_error (decode_content text enc)) s
              λ content. write_to target cleaned enc content s

  abbrev pub upload_resp : Bytes → Bytes → ℕ → UploadResp
  upload_resp source target size = record {
    source_path = source;
    target_path = target;
    size = size;
  }

  abbrev pub copied : Bytes → Bytes → Option ℕ × State → Response UploadResp × State
  copied source cleaned (none, s) = (server_error, s)
  copied source cleaned (some size, s) = (success (upload_resp source cleaned size), s)

  abbrev pub upload_to : Bytes → Bytes → Bytes × Bytes → State → Response UploadResp × State
  unfolding ensure_parent_dir
  upload_to target cleaned (source, stream) s =
      then_on (ensure_parent_dir target s)
        λ s'. then_on (open_file target s') λ s''. copied source cleaned (copy target stream s'')

  abbrev pub or_query : Bytes → Bytes → Bytes
  or_query [] query = query
  or_query (c ∷ s) query = c ∷ s

  -- The path of the form, else of the query; the name and the bytes of the file, where it is there.
  unfoldable pub upload_fs_file :
      Bytes → Bytes → Option (Bytes × Bytes) → State → Response UploadResp × State
  unfolding trim_space resolve_workspace_path upload_to
  upload_fs_file form query file s =
      checked (required (or_query (trim_space form) (trim_space query))) s λ path.
        checked (or_form_error file) s λ sent.
          checked (workspace_path h path) s λ (target, cleaned). upload_to target cleaned sent s

  abbrev download : Bytes → Bytes → Download
  download target cleaned = record {
    file = target;
    file_name = sent_name (base cleaned);
    header_path = cleaned;
  }

  unfoldable pub download_fs_file : Bytes → State → Response Download
  unfolding trim_space resolve_workspace_path base
  download_fs_file path s = and_then (required (trim_space path)) λ source.
      and_then (workspace_path h source) λ (target, cleaned).
        and_then (readable h (lstat s target)) λ info. success (download target cleaned)
