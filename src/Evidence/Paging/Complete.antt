-- ===== src/Evidence/Paging/Complete.antt =====
-- The pages of `all_evidence` join up to the ordered rows of the investigation, cut at the cap.
use mathlib.Core.List.{append-nil, append_assoc}
use agentic_cyber_investigat.Prelude.{
  ℕ, zero, suc, ◌-◌, ◌≤◌, ◌<◌, ◌≡◌, refl, ◌∙◌, ap, sym, subst, min, String, Bool, true, false, not,
  ◌||◌, Option, none, some, List, [], ◌∷◌, ◌++◌, ◌==◌, ltb, arith, length, last?, length-take,
  take-take, length-append, length-drop, take_all, take, drop, take-append-drop, select, Bool-cases,
  inl, inr,
}
use agentic_cyber_investigat.Prelude.Sort.{sort, IsSorted, select-sort}
use agentic_cyber_investigat.Prelude.Result.{ok}
use agentic_cyber_investigat.Evidence.Rows.{Evidence}
use agentic_cyber_investigat.Evidence.Store.{Store}
use agentic_cyber_investigat.Evidence.Paging.{
  Codec, IsFaithful, row_leb, evidence_cursor, cursor_filter, matching, page_of, clamp,
  list_evidence, read_pages, all_evidence, max_evidence_page,
}
use agentic_cyber_investigat.Evidence.Paging.Cursor.{row_total, row_trans, cursor_filter-cursor}
use agentic_cyber_investigat.Evidence.Paging.Timeline.{
  HasDistinctIds, timeline, IsStrict, timeline-IsSorted, timeline-IsStrict, select_behind,
  select-true, take_join, last_split,
}

module _ {Token : Type 0} (codec : Codec Token) (faithful : IsFaithful codec) where
  -- The cursor that stands behind the rows `xs` that were read.
  pub data At (xs : List Evidence) (c : Option Token) : Type 0 where
    start : xs ≡ [] → c ≡ none → At xs c
    behind :
        (zs : List Evidence) (r : Evidence)
        → xs ≡ zs ++ r ∷ []
        → c ≡ some (evidence_cursor codec r)
        → At xs c

  module _ (st : Store) (kinds : Option (List String))
      (ids : HasDistinctIds st.session.evidence) where
    rest_of :
        (xs ys : List Evidence) (c : Option Token)
        → timeline st kinds ≡ xs ++ ys
        → At xs c
        → (p : Evidence → Bool) × (cursor_filter codec c ≡ ok p)
          × (sort row_leb (select p (matching st kinds)) ≡ ys)
    unfolding timeline
    rest_of xs ys c e (start f g) = (
      (λ _. true),
      rw g refl,
      ap (sort row_leb) (select-true (matching st kinds)) ∙ e ∙ ap (λ l. l ++ ys) f,
    )
    rest_of xs ys c e (behind zs r f g) =
        let whole : timeline st kinds ≡ zs ++ r ∷ ys =
          e ∙ ap (λ l. l ++ ys) f ∙ append_assoc zs (r ∷ []) ys in
        (
          (λ x. not (row_leb x r)),
          rw g (cursor_filter-cursor codec faithful r),
          sym (select-sort row_leb row_total row_trans (λ x. not (row_leb x r)) (matching st kinds))
              ∙ ap (select (λ x. not (row_leb x r))) whole
              ∙ select_behind zs r ys (subst (IsSorted row_leb) whole (timeline-IsSorted st kinds))
                  (subst IsStrict whole (timeline-IsStrict st kinds ids)),
        )

    -- A page holds the next rows, and its cursor says whether there are more.
    pub page_lem :
        (xs ys : List Evidence) (c : Option Token) (limit : ℕ)
        → timeline st kinds ≡ xs ++ ys
        → At xs c
        → list_evidence codec st limit c kinds
          ≡ ok (page_of codec (clamp limit) (take (suc (clamp limit)) ys))
    unfolding list_evidence
    page_lem xs ys c limit e at_c =
        let (p, filtered, behind_c) = rest_of xs ys c e at_c in
        rw (filtered, list_evidence)
          (ap (λ l. ok (page_of codec (clamp limit) (take (suc (clamp limit)) l))) behind_c)

  page_short :
      (n : ℕ) (ys : List Evidence)
      → length ys ≤ n
      → page_of codec n (take (suc n) ys) ≡ record { rows = take n ys; next_cursor = none }
  page_short n ys h =
      let e : ltb n (length (take (suc n) ys)) ≡ false = ground (arith, length-take (suc n) ys) in
      rw (e, take-take n ys) refl

  page_long :
      (n : ℕ) (ys zs : List Evidence) (r : Evidence)
      → n < length ys
      → take n ys ≡ zs ++ r ∷ []
      → last? (take n ys) ≡ some r
      → page_of codec n (take (suc n) ys)
        ≡ record { rows = take n ys; next_cursor = some (evidence_cursor codec r) }
  page_long n ys zs r h split l =
      let e : ltb n (length (take (suc n) ys)) ≡ true = ground (arith, length-take (suc n) ys) in
      rw (e, take-take n ys, l) refl

  module _ (st : Store) (kinds : Option (List String)) (ids : HasDistinctIds st.session.evidence)
      (cap : ℕ) where
    -- What the loop still has to return, from the rows read and the rows that are left.
    abbrev expected : List Evidence → List Evidence → List Evidence × Bool
    expected xs ys =
        let room = cap - length xs in (xs ++ take room ys, room == 0 || ltb room (length ys))

    abbrev limit : List Evidence → ℕ
    limit xs = clamp (min max_evidence_page (cap - length xs))

    expected_join :
        (xs ys : List Evidence) (n : ℕ)
        → 0 < n
        → n < length ys
        → n ≤ cap - length xs
        → expected (xs ++ take n ys) (drop n ys) ≡ expected xs ys
    expected_join xs ys n pos longer le =
        let room = cap - length xs in
        let k : cap - length (xs ++ take n ys) ≡ room - n =
          omega (arith, length-append xs (take n ys), length-take n ys) in
        let flag : (room - n == 0 || ltb (room - n) (length (drop n ys)))
            ≡ (room == 0 || ltb room (length ys)) =
          ground (arith, length-drop n ys) in
        rw k (λ i. (
          (append_assoc xs (take n ys) (take (room - n) (drop n ys))
                ∙ ap (λ l. xs ++ l) (take_join n room ys le))
              i,
          flag i,
        ))

    abbrev Rest : ℕ → Type 0
    Rest fuel =
        (xs ys : List Evidence) (c : Option Token)
        → timeline st kinds ≡ xs ++ ys
        → At xs c
        → cap - length xs < fuel
        → read_pages codec fuel st cap kinds xs c ≡ some (ok (expected xs ys))

    step :
        (fuel : ℕ) (xs ys : List Evidence) (c : Option Token)
        → timeline st kinds ≡ xs ++ ys
        → At xs c
        → cap - length xs < suc fuel
        → (cap - length xs == 0) ≡ false
        → Rest fuel
        → read_pages codec (suc fuel) st cap kinds xs c ≡ some (ok (expected xs ys))
    unfolding read_pages
    step fuel xs ys c e at_c h more rest =
        let n = limit xs in
        let room = cap - length xs in
        let some_left : 0 < room = ground arith in
        let page = page_lem st kinds ids xs ys c (min max_evidence_page room) e at_c in
        elim (Bool-cases (ltb n (length ys))) [
          | inr short ↦
              let fits : length ys ≤ n = ground arith in
              let fits' : length ys ≤ room = omega arith in
              let whole : ltb room (length ys) ≡ false = ground arith in
              let last_page = page ∙ ap ok (page_short n ys fits) in
              rw (more, last_page, read_pages, whole, take_all n ys fits, take_all room ys fits')
                refl
          | inl long ↦
              let longer : n < length ys = ground arith in
              let (zs, r, split, l) = last_split (take n ys) (omega (arith, length-take n ys)) in
              let next_page = page ∙ ap ok (page_long n ys zs r longer split l) in
              rw (more, next_page, read_pages)
                (rest (xs ++ take n ys) (drop n ys) (some (evidence_cursor codec r))
                    (e
                      ∙ ap (λ l. xs ++ l) (sym (take-append-drop n ys))
                      ∙ sym (append_assoc xs (take n ys) (drop n ys)))
                    (behind (xs ++ zs) r
                      (ap (λ l. xs ++ l) split ∙ sym (append_assoc xs zs (r ∷ []))) refl)
                    (omega (arith, length-append xs (take n ys), length-take n ys))
                  ∙ ap (λ p. some (ok p)) (expected_join xs ys n (omega arith) longer (omega arith))
                  ∙ ap (λ b. some (ok (xs ++ take room ys, b || ltb room (length ys)))) more)
        ]

    read_lem :
        (fuel : ℕ) (xs ys : List Evidence) (c : Option Token)
        → timeline st kinds ≡ xs ++ ys
        → At xs c
        → cap - length xs < fuel
        → read_pages codec fuel st cap kinds xs c ≡ some (ok (expected xs ys))
    unfolding read_pages
    read_lem zero xs ys c e at_c h = absurd (omega arith)
    read_lem (suc fuel) xs ys c e at_c h = elim (Bool-cases (cap - length xs == 0)) [
      | inl done ↦
          let none_left : cap - length xs ≡ 0 = ground arith in
          rw (none_left, read_pages) (ap (λ l. some (ok (l, true))) (sym (append-nil xs)))
      | inr more ↦
          step fuel xs ys c e at_c h more (λ xs' ys' c' e' a' h'. read_lem fuel xs' ys' c' e' a' h')
    ]

  -- Reading every page gives exactly the rows of the investigation and kinds in timeline order, cut at
  -- the cap, in at most cap + 1 rounds, whatever the page boundaries; and the flag is set exactly if
  -- there are more rows than the cap, or the cap is 0. The rows have distinct ids.
  pub all_evidence_lem :
      (st : Store) (cap : ℕ) (kinds : Option (List String))
      → HasDistinctIds st.session.evidence
      → all_evidence codec st cap kinds
        ≡ some (ok (take cap (timeline st kinds), cap == 0 || ltb cap (length (timeline st kinds))))
  unfolding all_evidence
  all_evidence_lem st cap kinds ids =
      let e : cap - 0 ≡ cap = omega arith in
      rw e at (
        read_lem st kinds ids cap (suc cap) [] (timeline st kinds) none refl (start refl refl)
          (omega arith))
