-- ===== src/Security/Files/Examples.antt =====
-- Uploads to a directory with one file; the digest of bytes is their number.
use agentic_cyber_investigat.Prelude.{
  ℕ, ◌≡◌, ◌≤◌, refl, true, false, not, some, List, [], ◌∷◌, length,
}
use agentic_cyber_investigat.Prelude.Result.{ok, err, is_ok}
use agentic_cyber_investigat.Prelude.Text.{has_text}
use agentic_cyber_investigat.Types.{ArtifactKind}
use agentic_cyber_investigat.Security.Files.{
  Files, is_plain, is_mark, sanitize_filename, detect_text,
}
use agentic_cyber_investigat.Security.Files.Names.{Chars, Begins, size, sanitize_filename_lem}
use agentic_cyber_investigat.Security.Files.Kinds.{
  no_pcap_magic, binary_payload, too_large, empty_artifact, source_failed, is_executable,
  detect_artifact_kind, detect_artifact_kind_lem,
}
use agentic_cyber_investigat.Security.Files.Intake.{Storage, unlink, store_stream}
use agentic_cyber_investigat.Security.Files.Intake.Outcome.{
  IsAddressed, Keeps, join, is_stored, store_stream_lem, store_stream-IsAddressed,
}

abbrev env : Files
env = record {
  sha256 = length;
  decode_utf8 = λ header. some "GET /";
  lower = λ s. s;
  normalize = λ s. s;
  is_contained = λ digest. true;
}

abbrev held : Storage
held = record { staging = []; stored = (1, 7 ∷ []) ∷ [] }

abbrev after : Storage
after = record { staging = []; stored = (3, 1 ∷ 2 ∷ 3 ∷ []) ∷ (1, 7 ∷ []) ∷ [] }

abbrev log : ArtifactKind
log = ArtifactKind.generic_log

abbrev chunks : List (List ℕ)
chunks = (1 ∷ 2 ∷ []) ∷ [] ∷ (3 ∷ []) ∷ []

sanitize_filename_runs :
    (sanitize_filename (λ s. s) "../../etc/.pass wd!!.log" ≡ "pass_wd_.log")
    × (sanitize_filename (λ s. s) "a\\..." ≡ "artifact")
unfolding sanitize_filename
sanitize_filename_runs = (refl, refl)

store_stream_runs :
    ((store_stream env 9 "x.log" log 40 chunks false held).1 ≡ after)
    × ((store_stream env 9 "x.log" log 40 ((5 ∷ []) ∷ []) false held).1 ≡ held)
    × (store_stream env 2 "x.log" log 40 chunks false held ≡ (err too_large, held))
    × (store_stream env 9 "x.log" log 40 [] false held ≡ (err empty_artifact, held))
    × (store_stream env 9 "x.log" log 40 chunks true held ≡ (err source_failed, held))
    × (store_stream env 9 "x.log" log 40 ((b'M' ∷ b'Z' ∷ []) ∷ []) false held
        ≡ (err binary_payload, held))
    × (store_stream env 9 "x.pcap" ArtifactKind.pcap 40 chunks false held
        ≡ (err no_pcap_magic, held))
unfolding store_stream detect_artifact_kind detect_text sanitize_filename has_text
store_stream_runs = (refl, refl, refl, refl, refl, refl, refl)

-- The snippet of the sample decodes to a request.
detect_artifact_kind_runs :
    detect_artifact_kind env (1 ∷ []) "" ArtifactKind.unknown
    ≡ ok (ArtifactKind.web_server_log, "text/plain")
unfolding detect_artifact_kind detect_text has_text
detect_artifact_kind_runs = refl

detect_artifact_kind_lem_example :
    is_ok (detect_artifact_kind env (b'M' ∷ b'Z' ∷ []) "x.log" log)
    ≡ not (is_executable (b'M' ∷ b'Z' ∷ []))
detect_artifact_kind_lem_example = detect_artifact_kind_lem env (b'M' ∷ b'Z' ∷ []) "x.log" log

store_stream_lem_example :
    ((store_stream env 9 "x.log" log 40 chunks false held).1.staging ≡ unlink 40 held.staging)
    × (is_ok (store_stream env 9 "x.log" log 40 chunks false held).0
        ≡ is_stored env 9 "x.log" log false (join chunks))
    × Keeps env
        (join chunks)
        held.stored
        (store_stream env 9 "x.log" log 40 chunks false held).0
        (store_stream env 9 "x.log" log 40 chunks false held).1.stored
store_stream_lem_example = store_stream_lem env 9 "x.log" log 40 chunks false held

held-IsAddressed : IsAddressed env held.stored
held-IsAddressed = ((refl, tt), (tt, tt))

store_stream-IsAddressed_example :
    IsAddressed env (store_stream env 9 "x.log" log 40 chunks false held).1.stored
store_stream-IsAddressed_example =
    store_stream-IsAddressed env 9 "x.log" log 40 chunks false held held-IsAddressed

sanitize_filename_lem_example :
    Chars is_plain (sanitize_filename (λ s. s) "../a b")
    × Begins is_mark (sanitize_filename (λ s. s) "../a b")
    × (size (sanitize_filename (λ s. s) "../a b") ≤ 128)
sanitize_filename_lem_example = sanitize_filename_lem (λ s. s) "../a b"
