-- ===== src/Prelude/Dict.antt =====
-- A dictionary with text keys, in the order of their first insertion.
use text.Mathlib.Text.{◌==◌ as str_eq}
use text.Mathlib.TextEquality.{eq_iff}
use Prim.Native.String.{String}
use mathlib.Core.Path.{◌≡◌, refl, sym, ap, ◌∙◌}
use mathlib.Core.Logic.{inl, inr}
use mathlib.Core.Bool.{true, false, false≢true}
use mathlib.Core.List.{List, [], ◌∷◌}
use agentic_cyber_investigat.Prelude.Tests.{if◌then◌else◌, Bool-cases}
use agentic_cyber_investigat.Prelude.Lists.{All}
use agentic_cyber_investigat.Prelude.Sort.{IsApart}

differ :
    (other key k : String) → str_eq key k ≡ false → str_eq other k ≡ true → str_eq other key ≡ false
differ other key k apart same = elim (Bool-cases (str_eq other key)) [
  | inl e ↦ absurd (
      false≢true
        (sym apart ∙ (eq_iff key k).1 (sym ((eq_iff other key).0 e) ∙ (eq_iff other k).0 same)))
  | inr e ↦ e
]

module _ {V : Type 0} where
  -- `d.get(key, default)`
  abbrev pub get_or : V → String → List (String × V) → V
  get_or default key [] = default
  get_or default key ((k, v) ∷ d) =
      let later = get_or default key d in if str_eq key k then v else later

  -- `d[key] = change(d.get(key, default))`
  abbrev pub alter : V → (V → V) → String → List (String × V) → List (String × V)
  alter default change key [] = (key, change default) ∷ []
  alter default change key ((k, v) ∷ d) =
      let later = alter default change key d in
      if str_eq key k then (k, change v) ∷ d else (k, v) ∷ later

  pub get_or-alter :
      (default : V) (change : V → V) (key other : String) (d : List (String × V))
      → get_or default other (alter default change key d)
        ≡ (if str_eq other key then change (get_or default other d) else get_or default other d)
  get_or-alter default change key other [] = refl
  get_or-alter default change key other ((k, v) ∷ d) = elim (Bool-cases (str_eq key k)) [
    | inl e ↦ elim (Bool-cases (str_eq other key)) [
      | inl same ↦
          rw (e, same, (eq_iff other k).1 ((eq_iff other key).0 same ∙ (eq_iff key k).0 e)) refl
      | inr apart ↦ rw (e, apart, ap (str_eq other) (sym ((eq_iff key k).0 e)) ∙ apart) refl
    ]
    | inr e ↦ elim (Bool-cases (str_eq other k)) [
      | inl same ↦ rw (e, same, differ other key k e same) refl
      | inr apart ↦ rw (e, apart) (get_or-alter default change key other d)
    ]
  ]

-- The keys are different.
abbrev pub IsKeyed : {V : Type 0} → List (String × V) → Type 0
IsKeyed = IsApart (λ x y. str_eq x.0 y.0 ≡ false)

str_eq_sym : (s t : String) → str_eq s t ≡ false → str_eq t s ≡ false
str_eq_sym s t apart = elim (Bool-cases (str_eq t s)) [
  | inl e ↦ absurd (false≢true (sym apart ∙ (eq_iff s t).1 (sym ((eq_iff t s).0 e))))
  | inr e ↦ e
]

module _ {V : Type 0} (default : V) (change : V → V) (key : String) where
  alter_apart :
      (k : String) (d : List (String × V))
      → str_eq k key ≡ false
      → All (λ y. str_eq k y.0 ≡ false) d
      → All (λ y. str_eq k y.0 ≡ false) (alter default change key d)
  alter_apart k [] apart h = (apart, tt)
  alter_apart k ((j, v) ∷ d) apart h = elim (Bool-cases (str_eq key j)) [
    | inl e ↦ rw e h
    | inr e ↦ rw e (h.0, alter_apart k d apart h.1)
  ]

  pub alter-IsKeyed : (d : List (String × V)) → IsKeyed d → IsKeyed (alter default change key d)
  alter-IsKeyed [] h = (tt, tt)
  alter-IsKeyed ((j, v) ∷ d) h = elim (Bool-cases (str_eq key j)) [
    | inl e ↦ rw e h
    | inr e ↦ rw e (alter_apart j d (str_eq_sym key j e) h.0, alter-IsKeyed d h.1)
  ]

  pub All-alter :
      (P : String × V → Type 0)
      → P (key, change default)
      → ((k : String) (v : V) → P (k, v) → P (k, change v))
      → (d : List (String × V)) → All P d
      → All P (alter default change key d)
  All-alter P fresh kept [] h = (fresh, tt)
  All-alter P fresh kept ((j, v) ∷ d) h = elim (Bool-cases (str_eq key j)) [
    | inl e ↦ rw e (kept j v h.0, h.1)
    | inr e ↦ rw e (h.0, All-alter P fresh kept d h.1)
  ]

pub All-get_or :
    {V : Type 0} (P : V → Type 0) (default : V) (key : String) (d : List (String × V))
    → P default
    → All (λ x. P x.1) d
    → P (get_or default key d)
All-get_or P default key [] p h = p
All-get_or P default key ((k, v) ∷ d) p h = elim (Bool-cases (str_eq key k)) [
  | inl e ↦ rw e h.0
  | inr e ↦ rw e (All-get_or P default key d p h.1)
]
