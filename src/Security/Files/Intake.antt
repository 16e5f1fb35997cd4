-- ===== src/Security/Files/Intake.antt =====
-- `store_stream` of src/acip/core/security/files.py: the upload is staged, checked, and moved to the path
-- of its digest. `name` is the random name of the staging file, and `broken` says that the source of the
-- chunks raises behind them.
pub mod Outcome
use agentic_cyber_investigat.Prelude.{
  ℕ, ◌+◌, ◌-◌, String, Bool, true, false, not, ◌||◌, Option, none, some, List, [], ◌∷◌, ◌++◌,
  length, take, select, any, if◌then◌else◌, ltb, ◌==◌,
}
use agentic_cyber_investigat.Prelude.Result.{Result, ok, err, ◌>>=◌, ◌>>◌, raise_if}
use agentic_cyber_investigat.Types.{ArtifactKind}
use agentic_cyber_investigat.Security.Files.{Files, sanitize_filename}
use agentic_cyber_investigat.Security.Files.Kinds.{
  IntakeFault, too_large, empty_artifact, escapes_directory, source_failed, detect_artifact_kind,
}

-- Files by their names; the path of a stored file is its digest.
abbrev pub Directory : Type 0
Directory = List (ℕ × List ℕ)

pub record Storage : Type 0 where
  pub staging : Directory
  pub stored : Directory

pub record StoredArtifact : Type 0 where
  pub sha256 : ℕ
  pub size_bytes : ℕ
  pub safe_filename : String
  pub detected_kind : ArtifactKind
  pub mime_type : String

-- The loop variables, and what is written to the staging file.
pub record Upload : Type 0 where
  pub header_bytes : List ℕ
  pub size : ℕ
  pub content : List ℕ

abbrev pub header_limit : ℕ
header_limit = 4096

abbrev pub extend_header : ℕ → List ℕ → List ℕ → List ℕ
extend_header limit header chunk =
    if ltb (length header) limit then header ++ take (limit - length header) chunk else header

-- The loop over the chunks, with the exception that ends it.
pub receive : ℕ → Upload → List (List ℕ) → Bool → Upload × Option IntakeFault
receive max_bytes up [] broken = (up, if broken then some source_failed else none)
receive max_bytes up ([] ∷ chunks) broken = receive max_bytes up chunks broken
receive max_bytes up ((b ∷ bytes) ∷ chunks) broken =
    let chunk = b ∷ bytes in
    let counted = record up {
      header_bytes = extend_header header_limit up.header_bytes chunk;
      size = up.size + length chunk;
    } in
    let rest = receive max_bytes (record counted { content = up.content ++ chunk }) chunks broken in
    if ltb max_bytes counted.size then (counted, some too_large) else rest

abbrev pub exists_at : ℕ → Directory → Bool
exists_at name = any (λ file. file.0 == name)

-- `path.unlink(missing_ok=True)`
abbrev pub unlink : ℕ → Directory → Directory
unlink name = select (λ file. not (file.0 == name))

-- The staging file with what was written to it.
abbrev pub written : ℕ → List ℕ → Storage → Storage
written name content st = record st { staging = (name, content) ∷ unlink name st.staging }

abbrev pub drop_staged : ℕ → Storage → Storage
drop_staged name st = record st { staging = unlink name st.staging }

-- The move to the path of the digest, unless that exists.
abbrev pub place : ℕ → ℕ → List ℕ → Storage → Storage
place name digest content st =
    if exists_at digest st.stored
    then drop_staged name st
    else record (drop_staged name st) { stored = (digest, content) ∷ st.stored }

module _ (env : Files) (max_bytes : ℕ) (original_filename : String)
    (declared_kind : ArtifactKind) where
  -- The checks of an upload that was received, with its kind.
  pub verify : Upload → Result IntakeFault (ArtifactKind × String)
  verify up = do
    raise_if (up.size == 0) empty_artifact
    kind ← detect_artifact_kind env up.header_bytes original_filename declared_kind
    raise_if (not (env.is_contained (env.sha256 up.content))) escapes_directory
    ok kind

  abbrev pub artifact_of : Upload → ArtifactKind × String → StoredArtifact
  unfolding sanitize_filename
  artifact_of up kind = record {
    sha256 = env.sha256 up.content;
    size_bytes = up.size;
    safe_filename = sanitize_filename env.normalize original_filename;
    detected_kind = kind.0;
    mime_type = kind.1;
  }

  abbrev pub conclude_with :
      ℕ
      → Upload
      → Result IntakeFault (ArtifactKind × String)
      → Storage
      → Result IntakeFault StoredArtifact × Storage
  conclude_with name up (err e) st = (err e, drop_staged name st)
  conclude_with name up (ok kind) st =
      (ok (artifact_of up kind), place name (env.sha256 up.content) up.content st)

  pub conclude :
      ℕ → Upload × Option IntakeFault → Storage → Result IntakeFault StoredArtifact × Storage
  unfolding verify artifact_of
  conclude name (up, some e) st = (err e, drop_staged name st)
  conclude name (up, none) st = conclude_with name up (verify up) st

  unfoldable pub store_stream :
      ℕ → List (List ℕ) → Bool → Storage → Result IntakeFault StoredArtifact × Storage
  unfolding receive conclude
  store_stream name chunks broken st =
      let received =
        receive max_bytes (record { header_bytes = []; size = 0; content = [] }) chunks broken in
      conclude name received (written name received.0.content st)
