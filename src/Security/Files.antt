-- ===== src/Security/Files.antt =====
-- src/acip/core/security/files.py: the intake of an artifact. A byte and a digest are numbers. A stored
-- file is kept under its digest, since that alone makes its path; a staging file under its name. SHA-256,
-- the decoding of UTF-8, the lower case and the normalisation of texts, and whether a path stays inside
-- of the directory are parameters. Modes of files and faults of the disk are left out.
pub mod Names
pub mod Kinds
pub mod Intake
mod Examples
use Prim.Native.Char.{Char, code}
use Prim.Native.String.{◌∷◌ as ◌∷∷◌}
use agentic_cyber_investigat.Prelude.{
  ℕ, zero, suc, ◌+◌, ◌-◌, String, Bool, true, false, not, ◌&&◌, ◌||◌, Option, none, some, is_some,
  List, [], ◌∷◌, ◌++◌, length, take, select, any, if◌then◌else◌, ltb, leb, ◌==◌,
}
use agentic_cyber_investigat.Prelude.Result.{Result, ok, err, ◌>>=◌, ◌>>◌, raise_if}
use agentic_cyber_investigat.Prelude.Text.{is_empty, drop_left, drop_right, before_suffix, has_text}
use agentic_cyber_investigat.Types.{ArtifactKind}

-- The letters, digits, dot, underscore and dash of `_UNSAFE_CHARS`.
abbrev pub is_plain : ℕ → Bool
is_plain c =
    leb b'A' c && leb c b'Z'
    || (leb b'a' c && leb c b'z'
        || (leb b'0' c && leb c b'9' || (c == b'.' || (c == b'_' || c == b'-'))))

abbrev pub is_mark : ℕ → Bool
is_mark c = c == b'.' || (c == b'_' || c == b'-')

abbrev pub is_separator : ℕ → Bool
is_separator c = c == b'/' || c == 92

pub has_separator : String → Bool
has_separator String.[] = false
has_separator (String.◌∷◌ c s) = is_separator (code c) || has_separator s

-- `name.replace("\\", "/").rsplit("/", 1)[-1]`
pub base_name : String → String
unfolding has_separator
base_name String.[] = String.[]
base_name (String.◌∷◌ c s) =
    let later = base_name s in
    if has_separator s then later else if is_separator (code c) then s else String.◌∷◌ c s

-- `_UNSAFE_CHARS.sub("_", name)`; `in_run` says that the character before was replaced.
pub replace_unsafe : Bool → String → String
replace_unsafe in_run String.[] = String.[]
replace_unsafe in_run (String.◌∷◌ c s) =
    let kept = String.◌∷◌ c (replace_unsafe false s) in
    let again = replace_unsafe true s in
    if is_plain (code c) then kept else if in_run then again else String.◌∷◌ "_" again

-- `name[:n]`
pub first_chars : ℕ → String → String
first_chars zero s = String.[]
first_chars (suc n) String.[] = String.[]
first_chars (suc n) (String.◌∷◌ c s) = String.◌∷◌ c (first_chars n s)

abbrev pub max_filename : ℕ
max_filename = 128

unfoldable pub sanitize_filename : (String → String) → String → String
unfolding base_name replace_unsafe drop_left drop_right first_chars
sanitize_filename normalize name =
    let candidate =
      drop_right is_mark (drop_left is_mark (replace_unsafe false (base_name (normalize name)))) in
    first_chars max_filename (if is_empty candidate then "artifact" else candidate)

-- `header[:len(magic)] == magic`, where the header is long enough
pub starts_with : List ℕ → List ℕ → Bool
starts_with [] header = true
starts_with (m ∷ magic) [] = false
starts_with (m ∷ magic) (b ∷ header) = m == b && starts_with magic header

abbrev pub pcap_magics : List (List ℕ)
pcap_magics =
    (0xa1 ∷ 0xb2 ∷ 0xc3 ∷ 0xd4 ∷ [])
    ∷ (0xd4 ∷ 0xc3 ∷ 0xb2 ∷ 0xa1 ∷ [])
    ∷ (0xa1 ∷ 0xb2 ∷ 0x3c ∷ 0x4d ∷ [])
    ∷ (0x4d ∷ 0x3c ∷ 0xb2 ∷ 0xa1 ∷ [])
    ∷ []

abbrev pub pcap_ng_magic : List ℕ
pcap_ng_magic = 0x0a ∷ 0x0d ∷ 0x0d ∷ 0x0a ∷ []

abbrev pub elf_magic : List ℕ
elf_magic = 0x7f ∷ b'E' ∷ b'L' ∷ b'F' ∷ []

abbrev pub pe_magic : List ℕ
pe_magic = b'M' ∷ b'Z' ∷ []

abbrev pub macho_magics : List (List ℕ)
macho_magics =
    (0xfe ∷ 0xed ∷ 0xfa ∷ 0xce ∷ [])
    ∷ (0xfe ∷ 0xed ∷ 0xfa ∷ 0xcf ∷ [])
    ∷ (0xce ∷ 0xfa ∷ 0xed ∷ 0xfe ∷ [])
    ∷ (0xcf ∷ 0xfa ∷ 0xed ∷ 0xfe ∷ [])
    ∷ []

abbrev pub lnk_magic : List ℕ
lnk_magic = 0x4c ∷ 0 ∷ 0 ∷ 0 ∷ 1 ∷ 0x14 ∷ 2 ∷ 0 ∷ []

abbrev pub starts_any : List (List ℕ) → List ℕ → Bool
unfolding starts_with
starts_any magics header = any (λ magic. starts_with magic header) magics

-- What the module uses of the libraries and the file system.
pub record Files : Type 0 where
  pub sha256 : List ℕ → ℕ
  pub decode_utf8 : List ℕ → Option String
  pub lower : String → String
  pub normalize : String → String
  pub is_contained : ℕ → Bool

abbrev pub Detected : Type 0
Detected = Option ArtifactKind × String

-- The kinds of text by the words in the snippet.
abbrev pub kind_of_text : String → ArtifactKind
unfolding has_text
kind_of_text snippet =
    if has_text "sshd[" snippet
      || (has_text "sudo:" snippet
          || (has_text "pam_unix" snippet || has_text "systemd-logind" snippet))
    then ArtifactKind.linux_auth_log
    else if has_text "GET /" snippet
        || (has_text "POST /" snippet || (has_text "HTTP/1." snippet || has_text "HTTP/2." snippet))
    then ArtifactKind.web_server_log
    else ArtifactKind.generic_text

abbrev pub no_kind : Detected
no_kind = (none, "application/octet-stream")

-- What is left when no magic bytes fit.
pub detect_text : Files → List ℕ → Detected
unfolding kind_of_text
detect_text env [] = no_kind
detect_text env (b ∷ header) =
    if any (λ c. c == 0) (b ∷ header) then no_kind else elim (env.decode_utf8 (b ∷ header)) [
      | none ↦ no_kind
      | some snippet ↦ (some (kind_of_text snippet), "text/plain")
    ]

pub detect_magic_bytes : Files → List ℕ → Detected
unfolding starts_with starts_any
detect_magic_bytes env header =
    if starts_any pcap_magics header
    then (some ArtifactKind.pcap, "application/vnd.tcpdump.pcap")
    else if starts_with pcap_ng_magic header
    then (some ArtifactKind.pcap_ng, "application/x-pcapng")
    else if starts_with elf_magic header
    then (some ArtifactKind.binary_file, "application/x-executable")
    else if starts_any macho_magics header
    then (some ArtifactKind.binary_file, "application/x-mach-binary")
    else if starts_with pe_magic header
    then (some ArtifactKind.binary_file, "application/x-dosexec")
    else if starts_with lnk_magic header
    then (some ArtifactKind.binary_file, "application/x-ms-shortcut")
    else detect_text env header
