-- ===== src/Graph/Paths/Routes.antt =====
-- What a path of src/acip/core/graph/traversal.py is, and that `paths_between` builds such paths.
use agentic_cyber_investigat.Prelude.{
  ℕ, ◌≤◌, ◌<◌, ◌≡◌, ◌≢◌, refl, sym, ap, subst, ◌∙◌, true, false, List, [], ◌∷◌, ◌++◌, length,
  length-append, contains, All, All-append, ◌==◌, arith,
}
use agentic_cyber_investigat.Prelude.Sort.{IsApart}
use agentic_cyber_investigat.Graph.{EntityEdge}
use agentic_cyber_investigat.Graph.Paths.{Partial, step_along}

-- The edges lead from one entity to another.
abbrev pub Chain : ℕ → List EntityEdge → ℕ → Type 0
Chain src [] dst = src ≡ dst
Chain src (e ∷ es) dst = (e.src_entity_id ≡ src) × Chain e.dst_entity_id es dst

-- The entities that are reached, the last one first, in front of those that were.
abbrev pub trail : List ℕ → List EntityEdge → List ℕ
trail seen [] = seen
trail seen (e ∷ es) = trail (e.dst_entity_id ∷ seen) es

abbrev pub AllDiffer : List ℕ → Type 0
AllDiffer = IsApart (λ a b. a ≢ b)

Chain-snoc :
    (src entity : ℕ) (es : List EntityEdge) (e : EntityEdge)
    → Chain src es entity
    → e.src_entity_id ≡ entity
    → Chain src (es ++ e ∷ []) e.dst_entity_id
Chain-snoc src entity [] e c h = (h ∙ sym c, refl)
Chain-snoc src entity (f ∷ es) e c h = (c.0, Chain-snoc f.dst_entity_id entity es e c.1 h)

trail-snoc :
    (seen : List ℕ) (es : List EntityEdge) (e : EntityEdge)
    → trail seen (es ++ e ∷ []) ≡ e.dst_entity_id ∷ trail seen es
trail-snoc seen [] e = refl
trail-snoc seen (f ∷ es) e = trail-snoc (f.dst_entity_id ∷ seen) es e

contains-differ : (a : ℕ) (xs : List ℕ) → contains a xs ≡ false → All (λ x. a ≢ x) xs
contains-differ a [] h = tt
contains-differ a (x ∷ xs) h = (ground arith, contains-differ a xs (ground arith))

module _ (P : EntityEdge → Type 0) (table : List EntityEdge)
    (investigation src dst bound cap : ℕ) where
  abbrev pub Q : EntityEdge → Type 0
  Q e = P e × (e.investigation_id ≡ investigation)

  -- A path from `src` to `dst` that visits no entity twice.
  abbrev pub IsRoute : List EntityEdge → Type 0
  IsRoute path =
      Chain src path dst
      × AllDiffer (trail (src ∷ []) path)
      × All (λ e. P e × (e.investigation_id ≡ investigation)) path
      × (length path ≤ bound)

  pub record IsPartial (p : Partial) : Type 0 where
    pub chain : Chain src p.path p.entity
    pub followed : p.visited ≡ trail (src ∷ []) p.path
    pub apart : AllDiffer p.visited
    pub avoids : All (λ v. dst ≢ v) p.visited
    pub edges : All Q p.path
    pub short : length p.path ≤ bound

  pub step_along-IsPartial :
      (p : Partial) (e : EntityEdge)
      → IsPartial p
      → e.src_entity_id ≡ p.entity
      → Q e
      → length p.path < bound
      → (e.dst_entity_id == dst) ≡ false
      → contains e.dst_entity_id p.visited ≡ false
      → IsPartial (step_along p e)
  step_along-IsPartial p e h from q room other new = record {
    chain = Chain-snoc src p.entity p.path e h.chain from;
    followed = ap (◌∷◌ e.dst_entity_id) h.followed ∙ sym (trail-snoc (src ∷ []) p.path e);
    apart = (contains-differ e.dst_entity_id p.visited new, h.apart);
    avoids = ((λ same. ground arith), h.avoids);
    edges = All-append Q p.path (e ∷ []) h.edges (q, tt);
    short = omega (arith, length-append p.path (e ∷ []));
  }

  pub found-IsRoute :
      (p : Partial) (e : EntityEdge)
      → IsPartial p
      → e.src_entity_id ≡ p.entity
      → Q e
      → length p.path < bound
      → (e.dst_entity_id == dst) ≡ true
      → IsRoute (p.path ++ e ∷ [])
  found-IsRoute p e h from q room same =
      let there : e.dst_entity_id ≡ dst = ground arith in
      let steps : e.dst_entity_id ∷ p.visited ≡ trail (src ∷ []) (p.path ++ e ∷ []) =
        ap (◌∷◌ e.dst_entity_id) h.followed ∙ sym (trail-snoc (src ∷ []) p.path e) in
      (
        subst (Chain src (p.path ++ e ∷ [])) there (Chain-snoc src p.entity p.path e h.chain from),
        subst AllDiffer steps
            (subst (λ d. All (λ v. d ≢ v) p.visited) (sym there) h.avoids, h.apart),
        All-append Q p.path (e ∷ []) h.edges (q, tt),
        omega (arith, length-append p.path (e ∷ [])),
      )
