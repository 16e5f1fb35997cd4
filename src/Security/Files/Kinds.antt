-- ===== src/Security/Files/Kinds.antt =====
-- `detect_artifact_kind` of src/acip/core/security/files.py, and what a declared kind says of the bytes.
use agentic_cyber_investigat.Prelude.{
  ℕ, ◌≡◌, refl, sym, String, Bool, true, false, not, ◌||◌, none, some, List, [], ◌∷◌, if◌then◌else◌,
  arith,
}
use agentic_cyber_investigat.Prelude.Result.{Result, ok, err, is_ok}
use agentic_cyber_investigat.Prelude.Text.{ends_with}
use agentic_cyber_investigat.Types.{ArtifactKind}
use agentic_cyber_investigat.Security.Files.{
  Files, Detected, starts_with, starts_any, pcap_magics, pcap_ng_magic, elf_magic, pe_magic,
  macho_magics, lnk_magic, detect_text, detect_magic_bytes,
}

pub data IntakeFault : Type 0 where
  no_pcap_magic binary_payload too_large empty_artifact escapes_directory source_failed :
      IntakeFault

abbrev is_capture_kind : ArtifactKind → Bool
is_capture_kind ArtifactKind.pcap = true
is_capture_kind ArtifactKind.pcap_ng = true
is_capture_kind _ = false

abbrev is_text : ArtifactKind → Bool
is_text ArtifactKind.linux_auth_log = true
is_text ArtifactKind.sys_log = true
is_text ArtifactKind.web_server_log = true
is_text ArtifactKind.generic_log = true
is_text ArtifactKind.generic_text = true
is_text _ = false

abbrev is_undeclared : ArtifactKind → Bool
is_undeclared ArtifactKind.unknown = true
is_undeclared _ = false

abbrev is_binary : ArtifactKind → Bool
is_binary ArtifactKind.binary_file = true
is_binary _ = false

-- `detected_kind in …`, where a kind was detected at all
abbrev detects : (ArtifactKind → Bool) → Detected → Bool
detects p (none, mime) = false
detects p (some kind, mime) = p kind

-- The kind by the extension of the lower case name.
abbrev by_extension : String → String → ArtifactKind × String
by_extension name mime =
    if ends_with ".pcap" name || ends_with ".cap" name
    then (ArtifactKind.pcap, "application/vnd.tcpdump.pcap")
    else if ends_with ".pcapng" name
    then (ArtifactKind.pcap_ng, "application/x-pcapng")
    else if ends_with ".log" name || ends_with ".txt" name
    then (ArtifactKind.generic_text, "text/plain")
    else (ArtifactKind.unknown, mime)

infer : Files → String → Detected → ArtifactKind × String
unfolding ends_with
infer env filename (some kind, mime) = (kind, mime)
infer env filename (none, mime) = by_extension (env.lower filename) mime

unfoldable pub detect_artifact_kind :
    Files → List ℕ → String → ArtifactKind → Result IntakeFault (ArtifactKind × String)
unfolding detect_magic_bytes infer
detect_artifact_kind env header filename declared =
    let detected = detect_magic_bytes env header in
    if is_capture_kind declared
    then (if detects is_capture_kind detected then ok (declared, detected.1) else err no_pcap_magic)
    else if is_text declared
    then (if detects is_binary detected then err binary_payload else ok (declared, detected.1))
    else if is_undeclared declared
    then ok (infer env filename detected)
    else ok (declared, detected.1)

-- The first bytes are those of a network capture, and of a program or shortcut.
pub is_capture : List ℕ → Bool
is_capture = starts_any (pcap_ng_magic ∷ pcap_magics)

pub is_executable : List ℕ → Bool
is_executable = starts_any (elf_magic ∷ pe_magic ∷ lnk_magic ∷ macho_magics)

capture-executable : (header : List ℕ) → is_capture header ≡ true → is_executable header ≡ false
unfolding is_capture is_executable starts_with
capture-executable [] h = refl
capture-executable (a ∷ []) h = ground arith
capture-executable (a ∷ b ∷ header) h = ground arith

detect_text-neither :
    (env : Files) (header : List ℕ)
    → (detects is_capture_kind (detect_text env header) ≡ false)
      × (detects is_binary (detect_text env header) ≡ false)
unfolding detect_text
detect_text-neither env [] = (refl, refl)
detect_text-neither env (b ∷ header) = (ground arith, ground arith)

-- What the tests for magic bytes make of each other's outcomes.
abbrev by_magic : Bool → Bool → Bool → Bool → Bool → Bool → Detected → Detected
by_magic p q e m w l text =
    if p
    then (some ArtifactKind.pcap, "application/vnd.tcpdump.pcap")
    else if q
    then (some ArtifactKind.pcap_ng, "application/x-pcapng")
    else if e
    then (some ArtifactKind.binary_file, "application/x-executable")
    else if m
    then (some ArtifactKind.binary_file, "application/x-mach-binary")
    else if w
    then (some ArtifactKind.binary_file, "application/x-dosexec")
    else if l
    then (some ArtifactKind.binary_file, "application/x-ms-shortcut")
    else text

by_magic-capture :
    (p q e m w l : Bool) (text : Detected)
    → detects is_capture_kind text ≡ false
    → detects is_capture_kind (by_magic p q e m w l text) ≡ (q || p)
by_magic-capture p q e m w l text h = ground arith

by_magic-binary :
    (p q e m w l : Bool) (text : Detected)
    → detects is_binary text ≡ false
    → ((q || p) ≡ true → (e || (w || (l || m))) ≡ false)
    → detects is_binary (by_magic p q e m w l text) ≡ (e || (w || (l || m)))
by_magic-binary p q e m w l text h apart = ground arith

detects-capture :
    (env : Files) (header : List ℕ)
    → detects is_capture_kind (detect_magic_bytes env header) ≡ is_capture header
unfolding detect_magic_bytes is_capture starts_any
detects-capture env header =
    by_magic-capture (starts_any pcap_magics header) (starts_with pcap_ng_magic header)
      (starts_with elf_magic header) (starts_any macho_magics header) (starts_with pe_magic header)
      (starts_with lnk_magic header) (detect_text env header) (detect_text-neither env header).0

detects-binary :
    (env : Files) (header : List ℕ)
    → detects is_binary (detect_magic_bytes env header) ≡ is_executable header
unfolding detect_magic_bytes is_capture is_executable starts_any
detects-binary env header =
    by_magic-binary (starts_any pcap_magics header) (starts_with pcap_ng_magic header)
      (starts_with elf_magic header) (starts_any macho_magics header) (starts_with pe_magic header)
      (starts_with lnk_magic header) (detect_text env header) (detect_text-neither env header).1
      (capture-executable header)

-- An artifact that is declared to be a capture is accepted exactly if it begins with a capture's magic
-- bytes, one that is declared to be a log or a text exactly if it does not begin with those of a program
-- or a shortcut, and any other is accepted.
pub detect_artifact_kind_lem :
    (env : Files) (header : List ℕ) (filename : String) (declared : ArtifactKind)
    → is_ok (detect_artifact_kind env header filename declared) ≡ (
        if is_capture_kind declared
        then is_capture header
        else if is_text declared
        then not (is_executable header)
        else true)
unfolding detect_artifact_kind
detect_artifact_kind_lem env header filename declared =
    rw (sym (detects-capture env header)) (rw (sym (detects-binary env header)) (ground arith))
