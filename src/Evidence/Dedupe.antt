-- ===== src/Evidence/Dedupe.antt =====
-- `add_evidence`: deduplication by digest, the quota, and what is dropped.
use agentic_cyber_investigat.Prelude.{
  ℕ, ◌+◌, ◌≤◌, ◌≡◌, refl, subst, ◌∙◌, Bool, true, false, ◌&&◌, ◌||◌, Option, some, List, [], ◌∷◌,
  ◌++◌, map, ◌==◌, select, any, any-append, All, contains, length, length-append, arith, Bool-cases,
  inl, inr,
}
use mathlib.Core.List.{append_assoc}
use agentic_cyber_investigat.Evidence.Contracts.{EvidenceDraft, Platform}
use agentic_cyber_investigat.Evidence.Rows.{Evidence}
use agentic_cyber_investigat.Evidence.Store.{
  Store, Source, Batch, new_row, record_draft, record_drafts, full,
}

-- A row of the investigation with the digest.
abbrev pub holds : ℕ → ℕ → Evidence → Bool
holds inv h e = e.investigation_id == inv && e.content_hash == h

-- No two rows of one investigation have the same digest.
abbrev pub IsDeduplicated : List Evidence → Type 0
IsDeduplicated [] = Unit
IsDeduplicated (e ∷ es) =
    (any (holds e.investigation_id e.content_hash) es ≡ false) × IsDeduplicated es

IsDeduplicated-snoc :
    (es : List Evidence) (e : Evidence)
    → IsDeduplicated es
    → any (holds e.investigation_id e.content_hash) es ≡ false
    → IsDeduplicated (es ++ e ∷ [])
IsDeduplicated-snoc [] e d fresh = (refl, tt)
IsDeduplicated-snoc (x ∷ es) e d fresh =
    (rw any-append (ground arith), IsDeduplicated-snoc es e d.1 (ground arith))

-- The digests that the query finds, for any table.
abbrev pub hits : ℕ → List ℕ → List Evidence → List ℕ
hits inv cand rows =
    select (λ h. contains h cand)
      (map (λ (e : Evidence). e.content_hash) (select (λ e. e.investigation_id == inv) rows))

-- A candidate that the query does not find is in no row of the investigation, and conversely.
pub hits_lem :
    (inv h : ℕ) (cand : List ℕ) (rows : List Evidence)
    → contains h cand ≡ true
    → contains h (hits inv cand rows) ≡ any (holds inv h) rows
hits_lem inv h cand [] c = refl
hits_lem inv h cand (e ∷ rows) c = elim (Bool-cases (contains e.content_hash cand)) [
  | inl q ↦ ground (arith, hits_lem inv h cand rows c)
  | inr q ↦ elim (Bool-cases (e.content_hash == h)) [
    | inl same ↦
        let is_h : h ≡ e.content_hash = ground arith in
        cc (subst (λ x. contains x cand ≡ true) is_h c)
    | inr other ↦ ground (arith, hits_lem inv h cand rows c)
  ]
]

module _ (env : Platform) (st : Store) (src : Source) (cand : List ℕ) where
  abbrev pub inv : ℕ
  inv = st.investigation_id

  abbrev pub old : List Evidence
  old = st.session.evidence

  pub record Inv (b : Batch) : Type 0 where
    pub apart : IsDeduplicated (old ++ b.created)
    pub seen : (h : ℕ) → any (holds inv h) b.created ≡ true → contains h b.seen_in_batch ≡ true
    pub backed : (h : ℕ) → contains h b.seen_in_batch ≡ true → any (holds inv h) b.created ≡ true

  abbrev known : Batch → ℕ → Bool
  known b h = contains h (hits inv cand old) || contains h b.seen_in_batch

  not_created :
      (b : Batch) (h : ℕ) → Inv b → known b h ≡ false → any (holds inv h) b.created ≡ false
  not_created b h i new = elim (Bool-cases (any (holds inv h) b.created)) [
    | inl e ↦ let k = i.seen h e in absurd (ground arith)
    | inr e ↦ e
  ]

  -- One round of the loop keeps the digests apart.
  step-Inv :
      (room : Option ℕ) (b : Batch) (d : EvidenceDraft) (h : ℕ)
      → contains h cand ≡ true
      → Inv b
      → Inv (record_draft env st src (hits inv cand old) room b (d, h))
  unfolding record_draft
  step-Inv room b d h c i = elim (Bool-cases (known b h)) [
    | inl e ↦ rw e i
    | inr e ↦ elim (Bool-cases (full room (length b.created))) [
      | inl f ↦ rw (e, f) (record { apart = i.apart; seen = i.seen; backed = i.backed })
      | inr f ↦
          let row = new_row env st src (st.session.drawn + length b.created) d h in
          rw (e, f)
            (record {
              apart = subst IsDeduplicated (append_assoc old b.created (row ∷ [])) (
                  IsDeduplicated-snoc (old ++ b.created) row i.apart (
                    rw any-append
                      (ground (arith, not_created b h i e, hits_lem inv h cand old c))));
              seen = λ h' k. let k' = rw any-append at k in ground (arith, i.seen h');
              backed = λ h' k. rw any-append (ground (arith, i.backed h'));
            })
    ]
  ]

  pub loop-Inv :
      (room : Option ℕ) (b : Batch) (ds : List (EvidenceDraft × ℕ))
      → All (λ d. contains d.1 cand ≡ true) ds
      → Inv b
      → Inv (record_drafts env st src (hits inv cand old) room b ds)
  unfolding record_drafts
  loop-Inv room b [] c i = i
  loop-Inv room b ((d, h) ∷ ds) c i =
      loop-Inv room (record_draft env st src (hits inv cand old) room b (d, h)) ds c.1
        (step-Inv room b d h c.0 i)

  -- Rows stay and the count of dropped drafts only grows.
  step-grows :
      (room : Option ℕ) (b : Batch) (d : EvidenceDraft) (h k : ℕ)
      → let b' = record_draft env st src (hits inv cand old) room b (d, h) in
        (b.dropped ≤ b'.dropped)
        × (any (holds inv k) b.created ≡ true → any (holds inv k) b'.created ≡ true)
  unfolding record_draft
  step-grows room b d h k = ground (
    arith,
    any-append (holds inv k) b.created
        (new_row env st src (st.session.drawn + length b.created) d h ∷ []),
  )

  pub loop-grows :
      (room : Option ℕ) (b : Batch) (ds : List (EvidenceDraft × ℕ)) (k : ℕ)
      → let b' = record_drafts env st src (hits inv cand old) room b ds in
        (b.dropped ≤ b'.dropped)
        × (any (holds inv k) b.created ≡ true → any (holds inv k) b'.created ≡ true)
  unfolding record_drafts
  loop-grows room b [] k = (omega arith, λ h. h)
  loop-grows room b ((d, h) ∷ ds) k =
      let b' = record_draft env st src (hits inv cand old) room b (d, h) in
      let now = step-grows room b d h k in
      let later = loop-grows room b' ds k in (omega arith, λ e. later.1 (now.1 e))

  -- After a round that drops nothing, the digest is held.
  step-held :
      (room : Option ℕ) (b : Batch) (d : EvidenceDraft) (h : ℕ)
      → contains h cand ≡ true
      → Inv b
      → let b' = record_draft env st src (hits inv cand old) room b (d, h) in
        b'.dropped ≡ b.dropped → any (holds inv h) (old ++ b'.created) ≡ true
  unfolding record_draft
  step-held room b d h c i e = rw any-append (
      ground (
        arith,
        i.backed h,
        hits_lem inv h cand old c,
        any-append (holds inv h) b.created
            (new_row env st src (st.session.drawn + length b.created) d h ∷ []),
      ))

  -- If no draft is dropped in the end, every draft's digest is held in the end.
  pub loop-held :
      (room : Option ℕ) (b : Batch) (ds : List (EvidenceDraft × ℕ))
      → All (λ d. contains d.1 cand ≡ true) ds
      → Inv b
      → let b' = record_drafts env st src (hits inv cand old) room b ds in
        b'.dropped ≡ b.dropped → All (λ d. any (holds inv d.1) (old ++ b'.created) ≡ true) ds
  unfolding record_drafts
  loop-held room b [] c i e = tt
  loop-held room b ((d, h) ∷ ds) c i e =
      let b' = record_draft env st src (hits inv cand old) room b (d, h) in
      let b'' = record_drafts env st src (hits inv cand old) room b' ds in
      let now = step-grows room b d h h in
      let later = loop-grows room b' ds h in
      let kept : b'.dropped ≡ b.dropped = omega arith in
      let kept' : b''.dropped ≡ b'.dropped = omega arith in
      let held = step-held room b d h c.0 i kept in
      (
        rw any-append (let held' = rw any-append at held in ground (arith, later.1)),
        loop-held room b' ds c.1 (step-Inv room b d h c.0 i) kept',
      )

  -- What is stored, dropped or skipped adds up, and the stored rows fit.
  pub loop-counts :
      (room : Option ℕ) (b : Batch) (ds : List (EvidenceDraft × ℕ))
      → let b' = record_drafts env st src (hits inv cand old) room b ds in
        length b'.created + b'.dropped ≤ length b.created + b.dropped + length ds
  unfolding record_drafts record_draft
  loop-counts room b [] = omega arith
  loop-counts room b ((d, h) ∷ ds) =
      let b' = record_draft env st src (hits inv cand old) room b (d, h) in
      ground (
        arith,
        loop-counts room b' ds,
        length-append b.created (new_row env st src (st.session.drawn + length b.created) d h ∷ []),
      )

  pub loop-fits :
      (n : ℕ) (b : Batch) (ds : List (EvidenceDraft × ℕ))
      → length b.created ≤ n
      → length (record_drafts env st src (hits inv cand old) (some n) b ds).created ≤ n
  unfolding record_drafts record_draft
  loop-fits n b [] f = f
  loop-fits n b ((d, h) ∷ ds) f =
      loop-fits n (record_draft env st src (hits inv cand old) (some n) b (d, h)) ds (
        ground (
          arith,
          length-append b.created
              (new_row env st src (st.session.drawn + length b.created) d h ∷ []),
        ))

  -- Drafts whose digests the investigation holds change nothing.
  pub loop_known :
      (room : Option ℕ) (b : Batch) (ds : List (EvidenceDraft × ℕ))
      → All (λ d. contains d.1 cand ≡ true) ds
      → All (λ d. any (holds inv d.1) old ≡ true) ds
      → record_drafts env st src (hits inv cand old) room b ds ≡ b
  unfolding record_drafts record_draft
  loop_known room b [] c k = refl
  loop_known room b ((d, h) ∷ ds) c k =
      let hit = hits_lem inv h cand old c.0 ∙ k.0 in rw hit (loop_known room b ds c.1 k.1)
