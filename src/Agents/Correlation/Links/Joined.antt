-- ===== src/Agents/Correlation/Links/Joined.antt =====
-- The ends of the edges that `_derive_edges_for_evidence` of src/acip/agents/correlation.py derives.
use agentic_cyber_investigat.Prelude.{
  ℕ, ◌≡◌, refl, String, Bool, true, false, Option, none, some, List, [], ◌∷◌, ◌++◌, All, All-append,
  arith, if◌then◌else◌, ◌==◌, Bool-cases, Option-cases, inl, inr,
}
use agentic_cyber_investigat.Prelude.Text.{is_empty}
use agentic_cyber_investigat.Types.{EntityType}
use agentic_cyber_investigat.Evidence.Contracts.{EntityRef, Platform}
use agentic_cyber_investigat.Evidence.Rows.{Evidence}
use agentic_cyber_investigat.Agents.Correlation.{
  DataReader, extract_entity_refs, Key, Link, link, link_apart, or_given,
}
use agentic_cyber_investigat.Agents.Correlation.Links.{
  key_of, get_ent_id, auth_links, web_links, flow_links, answer_links, dns_links, tag_links,
  intel_links, by_kind, pair_links, derive_edges_for_evidence, IsFound, Joins,
}

module _ (env : Platform) (view : DataReader) (id_of : Key → Option ℕ) where
  abbrev Fits : Option ℕ → Type 0
  Fits o = (id : ℕ) → o ≡ some id → IsFound env view id_of id

  record AllJoin (ls : List Link) : Type 0 where
    joined : All (Joins env view id_of) ls

  abbrev ent : EntityType → Option String → Option ℕ
  ent = get_ent_id env view id_of

  get_ent_id-Fits : (type : EntityType) (raw : Option String) → Fits (ent type raw)
  unfolding get_ent_id
  get_ent_id-Fits type none id h = absurd (ground arith)
  get_ent_id-Fits type (some raw) id h = elim (Bool-cases (is_empty raw)) [
    | inl e ↦ let never : none ≡ some id = rw e at h in absurd (ground arith)
    | inr e ↦ (key_of env type raw, rw e at h)
  ]

  nothing : AllJoin []
  nothing = record { joined = tt }

  link-AllJoin :
      (a b : Option ℕ) (relation : String) → Fits a → Fits b → AllJoin (link a b relation)
  link-AllJoin none b relation p q = nothing
  link-AllJoin (some a) none relation p q = nothing
  link-AllJoin (some a) (some b) relation p q = record { joined = ((p a refl, q b refl), tt) }

  link_apart-AllJoin :
      (a b : Option ℕ) (relation : String) → Fits a → Fits b → AllJoin (link_apart a b relation)
  link_apart-AllJoin none b relation p q = nothing
  link_apart-AllJoin (some a) none relation p q = nothing
  link_apart-AllJoin (some a) (some b) relation p q = elim (Bool-cases (a == b)) [
    | inl e ↦ rw e nothing
    | inr e ↦ rw e (link-AllJoin (some a) (some b) relation p q)
  ]

  ents :
      (s t : EntityType) (a b : Option String) (relation : String)
      → AllJoin (link (ent s a) (ent t b) relation)
  ents s t a b relation =
      link-AllJoin (ent s a) (ent t b) relation (get_ent_id-Fits s a) (get_ent_id-Fits t b)

  ents_apart :
      (s t : EntityType) (a b : Option String) (relation : String)
      → AllJoin (link_apart (ent s a) (ent t b) relation)
  ents_apart s t a b relation =
      link_apart-AllJoin (ent s a) (ent t b) relation (get_ent_id-Fits s a) (get_ent_id-Fits t b)

  both : (xs ys : List Link) → AllJoin xs → AllJoin ys → AllJoin (xs ++ ys)
  both xs ys p q = record { joined = All-append (Joins env view id_of) xs ys p.joined q.joined }

  choice : (b : Bool) (xs ys : List Link) → AllJoin xs → AllJoin ys → AllJoin (if b then xs else ys)
  choice true xs ys p q = p
  choice false xs ys p q = q

  auth_links-AllJoin : (e : Evidence) → AllJoin (auth_links env view id_of e)
  auth_links-AllJoin e = search (both, choice, ents, ents_apart, nothing)

  web_links-AllJoin : (e : Evidence) → AllJoin (web_links env view id_of e)
  web_links-AllJoin e = search (both, ents)

  flow_links-AllJoin : (e : Evidence) → AllJoin (flow_links env view id_of e)
  flow_links-AllJoin e = search (both, ents)

  answer_links-AllJoin :
      (domain_id : Option ℕ)
      → Fits domain_id
      → (answers : List String) → AllJoin (answer_links env view id_of domain_id answers)
  unfolding answer_links
  answer_links-AllJoin domain_id p [] = nothing
  answer_links-AllJoin domain_id p (a ∷ answers) =
      both _ _ (link-AllJoin domain_id _ "RESOLVES_TO" p (get_ent_id-Fits EntityType.ip (some a)))
        (answer_links-AllJoin domain_id p answers)

  dns_links-AllJoin : (e : Evidence) → AllJoin (dns_links env view id_of e)
  unfolding dns_links
  dns_links-AllJoin e =
      both _ _ (ents _ _ _ _ _) (answer_links-AllJoin _ (get_ent_id-Fits EntityType.domain _) _)

  tag_links-AllJoin :
      (indicator_id : Option ℕ)
      → Fits indicator_id
      → (tags : List String) → AllJoin (tag_links env view id_of indicator_id tags)
  unfolding tag_links
  tag_links-AllJoin indicator_id p [] = nothing
  tag_links-AllJoin indicator_id p (t ∷ tags) =
      both _ _
        (link-AllJoin indicator_id _ "ASSOCIATED_WITH" p
          (get_ent_id-Fits EntityType.malware (some t)))
        (tag_links-AllJoin indicator_id p tags)

  intel_links-AllJoin : (e : Evidence) → AllJoin (intel_links env view id_of e)
  unfolding intel_links
  intel_links-AllJoin e =
      elim (Option-cases
        (or_given (view.given e.payload "indicator") (view.given e.payload "query"))) [
          | inl absent ↦ rw (intel_links, absent) nothing
          | inr (indicator, given) ↦
              rw (intel_links, given)
                (search (both, ents_apart, tag_links-AllJoin, get_ent_id-Fits))
        ]

  by_kind-AllJoin : (e : Evidence) → AllJoin (by_kind env view id_of e)
  unfolding by_kind
  by_kind-AllJoin e = choice _ _ _ (auth_links-AllJoin e) (
      choice _ _ _ (web_links-AllJoin e) (
        choice _ _ _ (flow_links-AllJoin e)
          (choice _ _ _ (dns_links-AllJoin e) (choice _ _ _ (intel_links-AllJoin e) nothing))))

  pair_links-AllJoin : (refs : List EntityRef) → AllJoin (pair_links env view id_of refs)
  pair_links-AllJoin [] = nothing
  pair_links-AllJoin (a ∷ []) = nothing
  pair_links-AllJoin (a ∷ b ∷ []) = ents_apart _ _ _ _ _
  pair_links-AllJoin (a ∷ b ∷ c ∷ refs) = nothing

  first_given :
      (xs ys : List Link)
      → AllJoin xs
      → AllJoin ys
      → AllJoin (elim xs as (λ _. List Link) [ [] ↦ ys | l ∷ ls ↦ l ∷ ls ])
  first_given [] ys p q = q
  first_given (x ∷ xs) ys p q = p

  -- Each edge that is derived joins ids which stand for a key.
  pub derive_edges-AllJoin :
      (e : Evidence) → All (Joins env view id_of) (derive_edges_for_evidence env view id_of e)
  unfolding derive_edges_for_evidence
  derive_edges-AllJoin e =
      (first_given (by_kind env view id_of e)
        (pair_links env view id_of (extract_entity_refs env view e)) (by_kind-AllJoin e)
        (pair_links-AllJoin (extract_entity_refs env view e))).joined
