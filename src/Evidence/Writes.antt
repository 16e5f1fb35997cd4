-- ===== src/Evidence/Writes.antt =====
-- The theorems about `add_evidence` as a whole.
use mathlib.Core.List.{append-nil}
use agentic_cyber_investigat.Prelude.{
  ℕ, suc, ◌+◌, ◌-◌, ◌≤◌, ◌≡◌, refl, ap, ◌∙◌, true, none, some, List, [], ◌∷◌, ◌++◌, map, max, ◌==◌,
  select, any, All, All_mono, contains, length, length-append, arith, select-append, length-select,
}
use agentic_cyber_investigat.Evidence.Contracts.{EvidenceDraft, Platform, content_hash}
use agentic_cyber_investigat.Evidence.Rows.{Evidence, Session}
use agentic_cyber_investigat.Evidence.Store.{
  Store, Source, Batch, own, headroom, hashed, batch, add_evidence, count_evidence, has_kind,
}
use agentic_cyber_investigat.Evidence.Dedupe.{
  holds, IsDeduplicated, Inv, loop-Inv, loop-held, loop-counts, loop-fits, loop_known,
}

module _ (env : Platform) (st : Store) (src : Source) where
  abbrev pub digest_of : EvidenceDraft → ℕ
  digest_of d = content_hash env d src.source_tool

  listed :
      (ds : List EvidenceDraft)
      → All (λ p. contains p.1 (map digest_of ds) ≡ true) (hashed env st src ds)
  listed [] = tt
  listed (d ∷ ds) = (
    ground arith,
    All_mono (λ p. contains p.1 (map digest_of ds) ≡ true) _ (λ p h. ground arith)
        (hashed env st src ds) (listed ds),
  )

  length-hashed : (ds : List EvidenceDraft) → length (hashed env st src ds) ≡ length ds
  length-hashed [] = refl
  length-hashed (d ∷ ds) = ap suc (length-hashed ds)

  abbrev start : Batch
  start = record { created = []; seen_in_batch = []; dropped = 0 }

  start-Inv : (cand : List ℕ) → IsDeduplicated st.session.evidence → Inv env st src cand start
  start-Inv cand d = record { apart = rw append-nil d; seen = λ h k. cc; backed = λ h k. cc }

  All_unpair :
      (P : ℕ → Type 0) (ds : List EvidenceDraft)
      → All (λ p. P p.1) (hashed env st src ds)
      → All (λ d. P (digest_of d)) ds
  All_unpair P [] h = tt
  All_unpair P (d ∷ ds) h = (h.0, All_unpair P ds h.1)

  All_pair :
      (P : ℕ → Type 0) (ds : List EvidenceDraft)
      → All (λ d. P (digest_of d)) ds
      → All (λ p. P p.1) (hashed env st src ds)
  All_pair P [] h = tt
  All_pair P (d ∷ ds) h = (h.0, All_pair P ds h.1)

-- `add_evidence` keeps the digests of each investigation apart, whatever the drafts.
pub add_evidence-IsDeduplicated :
    (env : Platform) (st : Store) (src : Source) (drafts : List EvidenceDraft)
    → IsDeduplicated st.session.evidence
    → IsDeduplicated (add_evidence env st src drafts).1.session.evidence
unfolding add_evidence
add_evidence-IsDeduplicated env st src [] d = d
add_evidence-IsDeduplicated env st src (x ∷ xs) d =
    let cand = map (digest_of env st src) (x ∷ xs) in
    (loop-Inv env st src cand (headroom env st src) (start env st src) (hashed env st src (x ∷ xs))
      (listed env st src (x ∷ xs)) (start-Inv env st src cand d)).apart

-- Where the quota dropped nothing, the digest of every draft is held by the investigation after.
pub add_evidence_held :
    (env : Platform) (st : Store) (src : Source) (drafts : List EvidenceDraft)
    → IsDeduplicated st.session.evidence
    → (add_evidence env st src drafts).1.last_quota_dropped ≡ 0
    → All
        (λ d.
          any
            (holds st.investigation_id (content_hash env d src.source_tool))
            (add_evidence env st src drafts).1.session.evidence
          ≡ true)
        drafts
unfolding add_evidence
add_evidence_held env st src [] d z = tt
add_evidence_held env st src (x ∷ xs) d z =
    let cand = map (digest_of env st src) (x ∷ xs) in
    All_unpair env st src _ (x ∷ xs) (
      loop-held env st src cand (headroom env st src) (start env st src)
        (hashed env st src (x ∷ xs)) (listed env st src (x ∷ xs)) (start-Inv env st src cand d) z)

session_of : Store → Batch → Session
session_of st b = record st.session {
  evidence = st.session.evidence ++ b.created;
  drawn = st.session.drawn + length b.created;
}

session_of_start :
    (st : Store)
    → session_of st (record { created = []; seen_in_batch = []; dropped = 0 }) ≡ st.session
unfolding session_of
session_of_start st = ground (arith, append-nil st.session.evidence)

-- A tool that is run again over the same input records nothing new, under any tool run and with any
-- quota: drafts whose digests the investigation holds leave the session as it was.
pub add_evidence_known :
    (env : Platform) (st : Store) (src : Source) (drafts : List EvidenceDraft)
    → All
        (λ d.
          any (holds st.investigation_id (content_hash env d src.source_tool)) st.session.evidence
          ≡ true)
        drafts
    → ((add_evidence env st src drafts).0 ≡ [])
      × ((add_evidence env st src drafts).1.session ≡ st.session)
unfolding add_evidence session_of
add_evidence_known env st src [] k = (refl, refl)
add_evidence_known env st src (x ∷ xs) k =
    let cand = map (digest_of env st src) (x ∷ xs) in
    let same =
      loop_known env st src cand (headroom env st src) (start env st src)
        (hashed env st src (x ∷ xs)) (listed env st src (x ∷ xs))
        (All_pair env st src _ (x ∷ xs) k) in
    (ap (λ (b : Batch). b.created) same, ap (session_of st) same ∙ session_of_start st)

select-true : (rows : List Evidence) → select (has_kind none) rows ≡ rows
select-true [] = refl
select-true (e ∷ rows) = ap (◌∷◌ e) (select-true rows)

-- With a quota, the rows of the investigation afterwards are at most the quota, or as many as they
-- were if they were more before.
pub add_evidence-le_quota :
    (env : Platform) (st : Store) (src : Source) (drafts : List EvidenceDraft) (quota : ℕ)
    → st.max_evidence ≡ some quota
    → count_evidence (add_evidence env st src drafts).1 none ≤ max quota (count_evidence st none)
unfolding add_evidence count_evidence
add_evidence-le_quota env st src [] quota q = omega arith
add_evidence-le_quota env st src (x ∷ xs) quota q =
    let cand = map (digest_of env st src) (x ∷ xs) in
    let rows = st.session.evidence in
    let b = batch env st src (x ∷ xs) in
    let room : headroom env st src ≡ some (quota - count_evidence st none) = rw q in
    let fits : length b.created ≤ quota - count_evidence st none = rw room (
      loop-fits env st src cand (quota - count_evidence st none) (start env st src)
        (hashed env st src (x ∷ xs)) (omega arith)) in
    rw (select-true, select-true, select-append)
      (omega (
        arith,
        ap length (select-true (own st.investigation_id st.session)),
        length-append (own st.investigation_id st.session)
            (select (λ e. e.investigation_id == st.investigation_id) b.created),
        length-select (λ e. e.investigation_id == st.investigation_id) b.created,
        fits,
      ))

-- Stored and dropped drafts together are at most the drafts given: the count of duplicates that
-- the log line reports is never negative.
pub add_evidence_counts :
    (env : Platform) (st : Store) (src : Source) (d : EvidenceDraft) (ds : List EvidenceDraft)
    → let out = add_evidence env st src (d ∷ ds) in
      length out.0 + out.1.last_quota_dropped ≤ length (d ∷ ds)
unfolding add_evidence
add_evidence_counts env st src d ds =
    let cand = map (digest_of env st src) (d ∷ ds) in
    omega (
      arith,
      loop-counts env st src cand (headroom env st src) (start env st src)
          (hashed env st src (d ∷ ds)),
      length-hashed env st src (d ∷ ds),
    )

-- A call with no drafts leaves the count of dropped rows of the call before.
pub add_evidence_stale :
    (env : Platform) (st : Store) (src src' : Source) (drafts : List EvidenceDraft)
    → let after = (add_evidence env st src drafts).1 in
      (add_evidence env after src' []).1.last_quota_dropped ≡ after.last_quota_dropped
unfolding add_evidence
add_evidence_stale env st src src' drafts = refl
