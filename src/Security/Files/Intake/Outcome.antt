-- ===== src/Security/Files/Intake/Outcome.antt =====
-- What `store_stream` of src/acip/core/security/files.py leaves in the storage.
use mathlib.Core.List.{append-nil, append_assoc}
use agentic_cyber_investigat.Prelude.{
  ℕ, zero, suc, ◌+◌, ◌-◌, ◌≤◌, ◌≡◌, ◌≢◌, ◌⊎◌, inl, inr, refl, ap, sym, String, Bool, true, false,
  not, ◌||◌, ◌&&◌, Option, none, some, List, [], ◌∷◌, ◌++◌, length, take, length-append, All,
  if◌then◌else◌, ltb, ◌==◌, arith, Bool-cases,
}
use agentic_cyber_investigat.Prelude.Result.{Result, ok, err, is_ok, Result-cases}
use agentic_cyber_investigat.Prelude.Sort.{IsApart}
use agentic_cyber_investigat.Types.{ArtifactKind}
use agentic_cyber_investigat.Security.Files.{Files}
use agentic_cyber_investigat.Security.Files.Kinds.{
  IntakeFault, too_large, source_failed, detect_artifact_kind,
}
use agentic_cyber_investigat.Security.Files.Intake.{
  Directory, Storage, StoredArtifact, Upload, header_limit, extend_header, receive, exists_at,
  unlink, written, verify, artifact_of, conclude_with, conclude, store_stream,
}

-- The bytes of the chunks.
pub join : List (List ℕ) → List ℕ
join [] = []
join (chunk ∷ chunks) = chunk ++ join chunks

extend_header-take :
    (limit : ℕ) (content chunk : List ℕ)
    → extend_header limit (take limit content) chunk ≡ take limit (content ++ chunk)
extend_header-take zero content chunk = refl
extend_header-take (suc n) [] chunk =
    let e : suc n - 0 ≡ suc n = omega arith in
    let room : ltb 0 (suc n) ≡ true = ground arith in rw (room, e) refl
extend_header-take (suc n) (c ∷ content) chunk =
    let e : suc n - suc (length (take n content)) ≡ n - length (take n content) = omega arith in
    elim (Bool-cases (ltb (length (take n content)) n)) [
      | inl room ↦
          let room' : ltb (suc (length (take n content))) (suc n) ≡ true = ground arith in
          rw (room', e) (ap (◌∷◌ c) (rw room at (extend_header-take n content chunk)))
      | inr full ↦
          let full' : ltb (suc (length (take n content))) (suc n) ≡ false = ground arith in
          rw full' (ap (◌∷◌ c) (rw full at (extend_header-take n content chunk)))
    ]

-- The loop variables after these bytes.
abbrev tracked : List ℕ → Upload
tracked content = record {
  header_bytes = take header_limit content;
  size = length content;
  content = content;
}

-- Why the bytes are not taken: their source raises, or they are too many.
abbrev refused : ℕ → Bool → List ℕ → Bool
refused max_bytes broken content = broken || ltb max_bytes (length content)

abbrev Ends : ℕ → Bool → List ℕ → Upload × Option IntakeFault → Type 0
Ends max_bytes broken content r =
    ((e : IntakeFault) × (r.1 ≡ some e) × (refused max_bytes broken content ≡ true))
    ⊎ ((r ≡ (tracked content, none)) × (refused max_bytes broken content ≡ false))

tracked-append :
    (max_bytes : ℕ) (content chunk : List ℕ)
    → record {
      header_bytes = extend_header header_limit (take header_limit content) chunk;
      size = length content + length chunk;
      content = content ++ chunk;
    }
      ≡ tracked (content ++ chunk)
tracked-append max_bytes content chunk i = record {
  header_bytes = extend_header-take header_limit content chunk i;
  size = sym (length-append content chunk) i;
  content = content ++ chunk;
}

receive-Ends :
    (max_bytes : ℕ) (content : List ℕ) (chunks : List (List ℕ)) (broken : Bool)
    → length content ≤ max_bytes
    → Ends max_bytes broken
        (content ++ join chunks)
        (receive max_bytes (tracked content) chunks broken)
unfolding join receive
receive-Ends max_bytes content [] true h = inl (source_failed, refl, refl)
receive-Ends max_bytes content [] false h = rw (append-nil content) (inr (refl, ground arith))
receive-Ends max_bytes content ([] ∷ chunks) broken h =
    receive-Ends max_bytes content chunks broken h
receive-Ends max_bytes content ((b ∷ bytes) ∷ chunks) broken h =
    let chunk = b ∷ bytes in
    elim (Bool-cases (ltb max_bytes (length content + length chunk))) [
      | inl over ↦ rw over (
          inl (
            too_large,
            refl,
            ground (
              arith,
              length-append content (b ∷ (bytes ++ join chunks)),
              length-append bytes (join chunks),
            ),
          ))
      | inr within ↦
          rw
            (
              within,
              tracked-append max_bytes content chunk,
              sym (append_assoc content chunk (join chunks)),
            )
            (receive-Ends max_bytes (content ++ chunk) chunks broken
              (ground (arith, length-append content chunk)))
    ]

unlink-unlink : (name : ℕ) (d : Directory) → unlink name (unlink name d) ≡ unlink name d
unlink-unlink name [] = refl
unlink-unlink name (f ∷ d) = ground (arith, unlink-unlink name d)

unlink-written :
    (name : ℕ) (content : List ℕ) (d : Directory)
    → unlink name ((name, content) ∷ unlink name d) ≡ unlink name d
unlink-written name content d =
    let same : (name == name) ≡ true = ground arith in rw same (unlink-unlink name d)

-- The stored files after an upload of these bytes.
abbrev pub Keeps :
    Files → List ℕ → Directory → Result IntakeFault StoredArtifact → Directory → Type 0
Keeps env content before (err e) after = after ≡ before
Keeps env content before (ok a) after =
    (a.sha256 ≡ env.sha256 content)
    × (a.size_bytes ≡ length content)
    × (after ≡ (
        if exists_at (env.sha256 content) before
        then before
        else (env.sha256 content, content) ∷ before))

module _ (env : Files) (max_bytes : ℕ) (filename : String) (declared : ArtifactKind) where
  -- An upload of these bytes is to be stored.
  pub is_stored : Bool → List ℕ → Bool
  is_stored broken content =
      not (refused max_bytes broken content)
      && (not (length content == 0)
          && (is_ok (detect_artifact_kind env (take header_limit content) filename declared)
              && env.is_contained (env.sha256 content)))

  abbrev Outcome :
      ℕ → Bool → List ℕ → Storage → Result IntakeFault StoredArtifact × Storage → Type 0
  Outcome name broken content st r =
      (r.1.staging ≡ unlink name st.staging)
      × (is_ok r.0 ≡ is_stored broken content)
      × Keeps env content st.stored r.0 r.1.stored

  is_ok-verify :
      (content : List ℕ)
      → is_ok (verify env max_bytes filename declared (tracked content)) ≡ (
          not (length content == 0)
          && (is_ok (detect_artifact_kind env (take header_limit content) filename declared)
              && env.is_contained (env.sha256 content)))
  unfolding verify
  is_ok-verify content =
      elim (Result-cases (detect_artifact_kind env (take header_limit content) filename declared)) [
        | inl (e, f) ↦ rw f (ground arith)
        | inr (k, f) ↦ rw f (ground arith)
      ]

  conclude_with-Outcome :
      (name : ℕ) (broken : Bool) (content : List ℕ) (st : Storage)
      → refused max_bytes broken content ≡ false
      → Outcome name broken content st (
          conclude_with env max_bytes filename declared name
            (tracked content)
            (verify env max_bytes filename declared (tracked content))
            (written name content st))
  unfolding is_stored artifact_of
  conclude_with-Outcome name broken content st h =
      let verdict = is_ok-verify content in
      elim (Result-cases (verify env max_bytes filename declared (tracked content))) [
        | inl (e, f) ↦ rw (f, h) (unlink-written name content st.staging, rw f at verdict, refl)
        | inr (k, f) ↦ elim (Bool-cases (exists_at (env.sha256 content) st.stored)) [
          | inl old ↦
              rw (f, h, old)
                (unlink-written name content st.staging, rw f at verdict, (refl, refl, refl))
          | inr new ↦
              rw (f, h, new)
                (unlink-written name content st.staging, rw f at verdict, (refl, refl, refl))
        ]
      ]

  -- An upload is stored exactly if its source does not raise, its bytes are neither none nor more than
  -- the limit, their first 4096 fit the declared kind, and the path of their digest stays inside of the
  -- directory. Then they are kept under their digest, unless something is already there. If not, the
  -- stored files are as before. No staging file of its name is left, and no other file changes.
  pub store_stream_lem :
      (name : ℕ) (chunks : List (List ℕ)) (broken : Bool) (st : Storage)
      → ((store_stream env max_bytes filename declared name chunks broken st).1.staging
          ≡ unlink name st.staging)
        × (is_ok (store_stream env max_bytes filename declared name chunks broken st).0
            ≡ is_stored broken (join chunks))
        × Keeps env
            (join chunks)
            st.stored
            (store_stream env max_bytes filename declared name chunks broken st).0
            (store_stream env max_bytes filename declared name chunks broken st).1.stored
  unfolding store_stream is_stored
  store_stream_lem name chunks broken st =
      elim (receive-Ends max_bytes [] chunks broken (omega arith)) [
        | inl (e, fault, over) ↦
            rw (fault, conclude, over) (unlink-written name _ st.staging, refl, refl)
        | inr (whole, within) ↦ rw whole (conclude_with-Outcome name broken (join chunks) st within)
      ]

-- Every file lies under its digest, and no two lie under the same.
abbrev pub IsAddressed : Files → Directory → Type 0
IsAddressed env d = All (λ f. f.0 ≡ env.sha256 f.1) d × IsApart (λ f g. f.0 ≢ g.0) d

new_path : (digest : ℕ) (d : Directory) → exists_at digest d ≡ false → All (λ f. digest ≢ f.0) d
new_path digest [] h = tt
new_path digest (f ∷ d) h = (λ e. ground arith, new_path digest d (ground arith))

Keeps-IsAddressed :
    (env : Files) (content : List ℕ) (before after : Directory)
    (r : Result IntakeFault StoredArtifact)
    → Keeps env content before r after
    → IsAddressed env before
    → IsAddressed env after
Keeps-IsAddressed env content before after (err e) k h = rw k h
Keeps-IsAddressed env content before after (ok a) k h =
    elim (Bool-cases (exists_at (env.sha256 content) before)) [
      | inl old ↦ rw (rw old at k.2) h
      | inr new ↦ rw (rw new at k.2) ((refl, h.0), (new_path (env.sha256 content) before new, h.1))
    ]

-- Every call keeps the stored files under their digests, and no two under the same.
pub store_stream-IsAddressed :
    (env : Files) (max_bytes : ℕ) (filename : String) (declared : ArtifactKind) (name : ℕ)
    (chunks : List (List ℕ)) (broken : Bool) (st : Storage)
    → IsAddressed env st.stored
    → IsAddressed env (store_stream env max_bytes filename declared name chunks broken st).1.stored
store_stream-IsAddressed env max_bytes filename declared name chunks broken st h =
    let r = store_stream env max_bytes filename declared name chunks broken st in
    Keeps-IsAddressed env (join chunks) st.stored r.1.stored r.0
      (store_stream_lem env max_bytes filename declared name chunks broken st).2 h
