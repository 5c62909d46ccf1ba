-- ===== src/Korokd/Files/RoundTrip.antt =====
-- Reading a file that was written.
use agentland.Text.Base64
use agentland.Text.Utf8
use agentland.Text.Base64.RoundTrip.{decode-encode, decode-AreBytes}
use agentland.Base.{
  ℕ, ◌≤◌, ◌||◌, Bool, true, false, Option, none, some, [], ◌∷◌, ◌≡◌, refl, arith, ap, sym, subst,
  ◌∙◌, length, if-cases, Bool-cases, inl, inr, ◌⊎◌,
}
use agentland.Text.{Bytes, bytes, bytes_eq, trim_space}
use agentland.FilePath.{dir}
use agentland.Korokd.Files.Parameters.{parse_encoding, decode_content, default_file_encoding}
use agentland.Korokd.Files.{
  Response, success, form_error, server_error, forbidden, Os, FsHandler, FileResp, WriteResp,
  workspace_path, required, or_form_error, checked, then_on, write_fs_file, readable, encoded,
  get_fs_file, ensure_parent_dir, regular, found, file_resp, write_resp,
}
use agentland.Korokd.Files.Disk.{IsPlain, IsSound}

pub or_form_error-success :
    {A : Type 0} (o : Option A) (a : A) → or_form_error o ≡ success a → o ≡ some a
or_form_error-success none a h = absurd (ground (arith, h))
or_form_error-success (some x) a h = ground (arith, h)

module _ (os : Os) (h : FsHandler) where
  -- A check that is passed on the way to a success.
  checked-success :
      {A B C : Type 0} (r : Response A) (s : os.State) (f : A → Response B × os.State) (b : B)
      → (checked os h r s f).0 ≡ success b
      → ((a : A) → r ≡ success a → (f a).0 ≡ success b → checked os h r s f ≡ f a → C)
      → C
  checked-success (success a) s f b e k = k a refl e refl
  checked-success form_error s f b e k = absurd (ground (arith, e))
  checked-success server_error s f b e k = absurd (ground (arith, e))
  checked-success forbidden s f b e k = absurd (ground (arith, e))

  then_on-success :
      {B C : Type 0} (r : Bool × os.State) (f : os.State → Response B × os.State) (b : B)
      → (then_on os h r f).0 ≡ success b
      → (r.0 ≡ true → (f r.1).0 ≡ success b → then_on os h r f ≡ f r.1 → C)
      → C
  then_on-success (true, s) f b e k = k refl e refl
  then_on-success (false, s) f b e k = absurd (ground (arith, e))

  -- How a write that succeeds went.
  record Written (path text encoding : Bytes) (s : os.State) : Type 0 where
    path' : Bytes
    enc : Bytes
    target : Bytes
    cleaned : Bytes
    content : Bytes
    named : required (trim_space path) ≡ success path'
    parsed : parse_encoding encoding ≡ some enc
    inside : workspace_path h path' ≡ success (target, cleaned)
    decoded : decode_content text enc ≡ some content
    wrote : (os.write_file target content (ensure_parent_dir os h target s).1).0 ≡ true
    result : write_fs_file os h (some (path, text, encoding)) s ≡ (
      success (write_resp os h cleaned enc (length content)),
      (os.write_file target content (ensure_parent_dir os h target s).1).1,
    )

  write_fs_file-Written :
      (path text encoding : Bytes) (s : os.State) (w : WriteResp)
      → (write_fs_file os h (some (path, text, encoding)) s).0 ≡ success w
      → Written path text encoding s
  unfolding write_fs_file
  write_fs_file-Written path text encoding s w e =
      checked-success (required (trim_space path)) s _ w e λ p ep hp fp.
        checked-success (or_form_error (parse_encoding encoding)) s _ w hp λ enc ee he fe.
          checked-success (workspace_path h p) s _ w he λ t et ht ft.
            checked-success (or_form_error (decode_content text enc)) s _ w ht λ c ec hc fc.
              then_on-success (ensure_parent_dir os h t.0 s) _ w hc λ made hm fm.
                then_on-success (os.write_file t.0 c (ensure_parent_dir os h t.0 s).1) _ w hm
                  λ wrote hw fw. record {
                    path' = p;
                    enc = enc;
                    target = t.0;
                    cleaned = t.1;
                    content = c;
                    named = ep;
                    parsed = or_form_error-success (parse_encoding encoding) enc ee;
                    inside = et;
                    decoded = or_form_error-success (decode_content text enc) c ec;
                    wrote = wrote;
                    result = fp ∙ fe ∙ ft ∙ fc ∙ fm ∙ fw;
                  }

success_eq : {A : Type 0} (a b : A) → Response.success a ≡ success b → a ≡ b
success_eq a b h = ground (arith, h)

some_eq : {A : Type 0} (a b : A) → Option.some a ≡ some b → a ≡ b
some_eq a b h = ground (arith, h)

required-success : (p q : Bytes) → required p ≡ success q → p ≡ q
required-success [] q h = absurd (ground (arith, h))
required-success (c ∷ p) q h = success_eq (c ∷ p) q h

-- What is shown of a content decodes to it, and is the text itself where it is not encoded.
record Shows (cleaned enc text content : Bytes) : Type 0 where
  resp : FileResp
  shown : encoded cleaned enc (some content) ≡ success resp
  path : resp.path ≡ cleaned
  size : resp.size ≡ length content
  encoding : resp.encoding ≡ enc
  back : decode_content resp.content enc ≡ some content
  same : enc ≡ default_file_encoding → resp.content ≡ text

encoded-Shows :
    (cleaned enc text content : Bytes)
    → Utf8.valid text ≡ true
    → decode_content text enc ≡ some content
    → Shows cleaned enc text content
unfolding decode_content encoded
encoded-Shows cleaned enc text content v d =
    elim (Bool-cases (bytes_eq enc default_file_encoding)) [
      | inl e ↦
          let same : text ≡ content = some_eq text content (rw e at d) in
          record {
            resp = file_resp cleaned enc (length content) content;
            shown = rw (e, ← same, v) refl;
            path = refl;
            size = refl;
            encoding = refl;
            back = rw e refl;
            same = λ _. sym same;
          }
      | inr e ↦ elim (Bool-cases (bytes_eq enc (bytes "base64"))) [
        | inl f ↦
            let d' : Base64.decode text ≡ some content = rw (e, f) at d in
            record {
              resp = file_resp cleaned enc (length content) (Base64.encode content);
              shown = rw e refl;
              path = refl;
              size = refl;
              encoding = refl;
              back = rw (e, f) (decode-encode content (decode-AreBytes text content d'));
              same =
                  λ is. absurd (ground (arith, e, ap (λ x. bytes_eq x default_file_encoding) is));
            }
        | inr f ↦
            let no : Option.none ≡ some content = rw (e, f) at d in absurd (ground (arith, no))
      ]
    ]

-- What a read after a write answers, beside the answer of the write.
pub record Agrees (text : Bytes) (w : WriteResp) (answer : Response FileResp) : Type 0 where
  pub resp : FileResp
  pub answered : answer ≡ success resp
  pub path : resp.path ≡ w.path
  pub size : resp.size ≡ w.size
  pub encoding : resp.encoding ≡ w.encoding
  pub back : decode_content resp.content w.encoding ≡ decode_content text w.encoding
  pub same : w.encoding ≡ default_file_encoding → resp.content ≡ text

module _ (os : Os) (sound : IsSound os) (h : FsHandler) where
  parent-IsPlain :
      (target content : Bytes) (s : os.State)
      → IsPlain (os.lstat s target)
      → (os.write_file target content (ensure_parent_dir os h target s).1).0 ≡ true
      → IsPlain (os.lstat (ensure_parent_dir os h target s).1 target)
  unfolding ensure_parent_dir
  parent-IsPlain target content s p =
      if-cases
        (λ (r : Bool × os.State).
          (os.write_file target content r.1).0 ≡ true → IsPlain (os.lstat r.1 target))
        (bytes_eq (dir target) (bytes ".") || bytes_eq (dir target) []) (true, s)
        (os.mkdir_all (dir target) s) (λ e w. p)
        (λ e w. sound.mkdir_plain (dir target) target content s p w)

  readable_fits :
      (n : ℕ)
      → (h.max_file_bytes ≡ 0) ⊎ (n ≤ h.max_file_bytes)
      → readable h (found (record { mode = regular; size = n }))
        ≡ success (record { mode = regular; size = n })
  readable_fits n (inl e) = ground (arith, e)
  readable_fits n (inr l) = ground (arith, l)

  read_back :
      (path text encoding : Bytes) (s : os.State) (v : Written os h path text encoding s)
      → IsPlain (os.lstat s v.target)
      → (h.max_file_bytes ≡ 0) ⊎ (length v.content ≤ h.max_file_bytes)
      → get_fs_file os h
          (some path)
          (some encoding)
          (os.write_file v.target v.content (ensure_parent_dir os h v.target s).1).1
        ≡ encoded v.cleaned v.enc (some v.content)
  unfolding get_fs_file
  read_back path text encoding s v p fits =
      let after = (ensure_parent_dir os h v.target s).1 in
      let plain = parent-IsPlain v.target v.content s p v.wrote in
      rw
        (
          v.named,
          v.parsed,
          v.inside,
          sound.write_stat v.target v.content after v.wrote plain,
          readable_fits (length v.content) fits,
          sound.write_read v.target v.content after v.wrote plain,
        )
        refl

  agrees :
      (path text encoding : Bytes) (s : os.State) (w : WriteResp)
      (v : Written os h path text encoding s)
      → w ≡ write_resp os h v.cleaned v.enc (length v.content)
      → Utf8.valid text ≡ true
      → (answer : Response FileResp) → answer ≡ encoded v.cleaned v.enc (some v.content)
      → Agrees text w answer
  agrees path text encoding s w v ew valid answer ea =
      let x = encoded-Shows v.cleaned v.enc text v.content valid v.decoded in
      let enc_eq : w.encoding ≡ v.enc = ap (λ u. u.encoding) ew in
      record {
        resp = x.resp;
        answered = ea ∙ x.shown;
        path = x.path ∙ sym (ap (λ u. u.path) ew);
        size = x.size ∙ sym (ap (λ u. u.size) ew);
        encoding = x.encoding ∙ sym enc_eq;
        back = rw enc_eq (x.back ∙ sym v.decoded);
        same = λ e. x.same (sym enc_eq ∙ e);
      }

  -- After a write that succeeds, of a text in UTF-8 to a path where a regular file or nothing is, a
  -- read of the same path in the same encoding succeeds where the size is within the limit, and
  -- answers the path, size and encoding of the write and a content that decodes to what was written:
  -- the very text, where it is not base64.
  pub write-read :
      (path text encoding : Bytes) (s : os.State) (w : WriteResp)
      → (write_fs_file os h (some (path, text, encoding)) s).0 ≡ success w
      → ((target cleaned : Bytes)
          → workspace_path h (trim_space path) ≡ success (target, cleaned)
          → IsPlain (os.lstat s target))
      → (h.max_file_bytes ≡ 0) ⊎ (w.size ≤ h.max_file_bytes)
      → Utf8.valid text ≡ true
      → Agrees text w (
          get_fs_file os h
            (some path)
            (some encoding)
            (write_fs_file os h (some (path, text, encoding)) s).1)
  write-read path text encoding s w e plain fits valid =
      let v = write_fs_file-Written os h path text encoding s w e in
      let ew : w ≡ write_resp os h v.cleaned v.enc (length v.content) =
        success_eq w (write_resp os h v.cleaned v.enc (length v.content))
          (sym e ∙ ap (λ r. r.0) v.result) in
      let p : IsPlain (os.lstat s v.target) =
        plain v.target v.cleaned
          (ap (workspace_path h) (required-success (trim_space path) v.path' v.named) ∙ v.inside) in
      let fits' : (h.max_file_bytes ≡ 0) ⊎ (length v.content ≤ h.max_file_bytes) =
        subst (λ (n : ℕ). (h.max_file_bytes ≡ 0) ⊎ (n ≤ h.max_file_bytes)) (ap (λ u. u.size) ew)
          fits in
      agrees path text encoding s w v ew valid _ (
        ap (λ r. get_fs_file os h (some path) (some encoding) r.1) v.result
        ∙ read_back path text encoding s v p fits')
