-- ===== src/Evidence/Paging/Timeline.antt =====
-- The rows of an investigation in the order that `list_evidence` of
-- src/acip/core/evidence/store.py reads them in, and how a list of rows falls into what was read and
-- what is left.
use agentic_cyber_investigat.Prelude.{
  ℕ, zero, suc, ◌-◌, ◌≤◌, ◌<◌, ◌≡◌, refl, ◌≢◌, ap, sym, String, true, false, not, Option, some,
  List, [], ◌∷◌, ◌++◌, ◌==◌, arith, length, last?, take, drop, select, All,
}
use agentic_cyber_investigat.Prelude.Sort.{
  sort, IsSorted, IsApart, sort-IsSorted, sort-IsApart, select-IsApart,
}
use agentic_cyber_investigat.Evidence.Rows.{Evidence}
use agentic_cyber_investigat.Evidence.Store.{Store, own, has_kind}
use agentic_cyber_investigat.Evidence.Paging.{row_leb, matching}
use agentic_cyber_investigat.Evidence.Paging.Cursor.{row_total, row_trans, row_refl, row_strict}

-- The primary key.
abbrev pub HasDistinctIds : List Evidence → Type 0
HasDistinctIds = IsApart (λ (a b : Evidence). a.id ≢ b.id)

-- The rows of the investigation of the given kinds, in timeline order: what all pages promise.
unfoldable pub timeline : Store → Option (List String) → List Evidence
timeline st kinds = sort row_leb (matching st kinds)

abbrev pub IsStrict : List Evidence → Type 0
IsStrict = IsApart (λ a b. row_leb b a ≡ false)

sorted-IsStrict : (xs : List Evidence) → IsSorted row_leb xs → HasDistinctIds xs → IsStrict xs
sorted-IsStrict [] s d = tt
sorted-IsStrict (x ∷ xs) s d = (go xs s.0 d.0, sorted-IsStrict xs s.1 d.1)
  where
    go :
        (ys : List Evidence)
        → All (λ y. row_leb x y ≡ true) ys
        → All (λ y. x.id ≢ y.id) ys
        → All (λ y. row_leb y x ≡ false) ys
    go [] h k = tt
    go (y ∷ ys) h k = (row_strict x y h.0 k.0, go ys h.1 k.1)

pub timeline-IsSorted :
    (st : Store) (kinds : Option (List String)) → IsSorted row_leb (timeline st kinds)
unfolding timeline
timeline-IsSorted st kinds = sort-IsSorted row_leb row_total row_trans (matching st kinds)

pub timeline-IsStrict :
    (st : Store) (kinds : Option (List String))
    → HasDistinctIds st.session.evidence
    → IsStrict (timeline st kinds)
unfolding timeline
timeline-IsStrict st kinds d =
    sorted-IsStrict (sort row_leb (matching st kinds))
      (sort-IsSorted row_leb row_total row_trans (matching st kinds))
      (sort-IsApart row_leb _ (λ a b ne e. ne (sym e)) (matching st kinds)
        (select-IsApart _ (has_kind kinds) (own st.investigation_id st.session) (
          select-IsApart _ (λ e. e.investigation_id == st.investigation_id) st.session.evidence d)))

All_last {κ} :
    (P : Evidence → Type κ) (zs : List Evidence) (r : Evidence) (ys : List Evidence)
    → All P (zs ++ r ∷ ys)
    → P r
All_last P [] r ys h = h.0
All_last P (z ∷ zs) r ys h = All_last P zs r ys h.1

keep_all :
    (r : Evidence) (ys : List Evidence)
    → All (λ y. row_leb y r ≡ false) ys
    → select (λ e. not (row_leb e r)) ys ≡ ys
keep_all r [] h = refl
keep_all r (y ∷ ys) h = rw h.0 (ap (◌∷◌ y) (keep_all r ys h.1))

-- What lies behind a row of an ordered list is the rest of the list.
pub select_behind :
    (zs : List Evidence) (r : Evidence) (ys : List Evidence)
    → IsSorted row_leb (zs ++ r ∷ ys)
    → IsStrict (zs ++ r ∷ ys)
    → select (λ e. not (row_leb e r)) (zs ++ r ∷ ys) ≡ ys
select_behind [] r ys s t = rw (row_refl r) (keep_all r ys t.0)
select_behind (z ∷ zs) r ys s t =
    rw (All_last (λ y. row_leb z y ≡ true) zs r ys s.0) (select_behind zs r ys s.1 t.1)

pub select-true : (xs : List Evidence) → select (λ _. true) xs ≡ xs
select-true [] = refl
select-true (x ∷ xs) = ap (◌∷◌ x) (select-true xs)

take_nil : (n : ℕ) → [] ≡ take {A = Evidence} n []
take_nil zero = refl
take_nil (suc n) = refl

pub take_join :
    (n rem : ℕ) (ys : List Evidence)
    → n ≤ rem
    → take n ys ++ take (rem - n) (drop n ys) ≡ take rem ys
take_join zero rem ys h = let e : rem - 0 ≡ rem = omega arith in rw e refl
take_join (suc n) zero ys h = absurd (omega arith)
take_join (suc n) (suc rem) [] h =
    let e : suc rem - suc n ≡ rem - n = omega arith in rw e (sym (take_nil (rem - n)))
take_join (suc n) (suc rem) (y ∷ ys) h =
    let e : suc rem - suc n ≡ rem - n = omega arith in
    rw e (ap (◌∷◌ y) (take_join n rem ys (omega arith)))

pub last_split :
    (xs : List Evidence)
    → 0 < length xs
    → (zs : List Evidence) × (r : Evidence) × (xs ≡ zs ++ r ∷ []) × (last? xs ≡ some r)
last_split [] h = absurd (omega arith)
last_split (x ∷ []) h = ([], x, refl, refl)
last_split (x ∷ y ∷ ys) h =
    let (zs, r, e, l) = last_split (y ∷ ys) (omega arith) in (x ∷ zs, r, ap (◌∷◌ x) e, l)
