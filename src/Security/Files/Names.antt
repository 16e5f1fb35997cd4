-- ===== src/Security/Files/Names.antt =====
-- What `sanitize_filename` of src/acip/core/security/files.py makes of a client's name.
use Prim.Native.Char.{code}
use agentic_cyber_investigat.Prelude.{
  ℕ, zero, suc, ◌≡◌, ◌≤◌, ◌⊎◌, refl, String, Bool, true, false, ◌&&◌, if◌then◌else◌, arith,
  Bool-cases, inl, inr,
}
use agentic_cyber_investigat.Prelude.Text.{is_empty, drop_left, drop_right}
use agentic_cyber_investigat.Security.Files.{
  is_plain, is_mark, base_name, replace_unsafe, first_chars, sanitize_filename,
}

-- Every character satisfies the test.
abbrev pub Chars : (ℕ → Bool) → String → Type 0
Chars p String.[] = Unit
Chars p (String.◌∷◌ c s) = (p (code c) ≡ true) × Chars p s

abbrev pub size : String → ℕ
size String.[] = 0
size (String.◌∷◌ c s) = suc (size s)

-- There is a first character, and it does not satisfy the test.
abbrev pub Begins : (ℕ → Bool) → String → Type 0
Begins p String.[] = ⊥
Begins p (String.◌∷◌ c s) = p (code c) ≡ false

replace_unsafe-Chars : (in_run : Bool) (s : String) → Chars is_plain (replace_unsafe in_run s)
unfolding replace_unsafe
replace_unsafe-Chars in_run String.[] = tt
replace_unsafe-Chars in_run (String.◌∷◌ c s) = elim (Bool-cases (is_plain (code c))) [
  | inl plain ↦ rw plain (plain, replace_unsafe-Chars false s)
  | inr other ↦ elim (Bool-cases in_run) [
    | inl running ↦ rw (other, running) (replace_unsafe-Chars true s)
    | inr fresh ↦ rw (other, fresh) (refl, replace_unsafe-Chars true s)
  ]
]

module _ (p q : ℕ → Bool) where
  drop_left-Chars : (s : String) → Chars q s → Chars q (drop_left p s)
  unfolding drop_left
  drop_left-Chars String.[] h = tt
  drop_left-Chars (String.◌∷◌ c s) h = elim (Bool-cases (p (code c))) [
    | inl e ↦ rw e (drop_left-Chars s h.1)
    | inr e ↦ rw e h
  ]

  drop_right-Chars : (s : String) → Chars q s → Chars q (drop_right p s)
  unfolding drop_right
  drop_right-Chars String.[] h = tt
  drop_right-Chars (String.◌∷◌ c s) h =
      elim (Bool-cases (is_empty (drop_right p s) && p (code c))) [
        | inl e ↦ rw e tt
        | inr e ↦ rw e (h.0, drop_right-Chars s h.1)
      ]

module _ (p : ℕ → Bool) where
  first_chars-Chars : (n : ℕ) (s : String) → Chars p s → Chars p (first_chars n s)
  unfolding first_chars
  first_chars-Chars zero s h = tt
  first_chars-Chars (suc n) String.[] h = tt
  first_chars-Chars (suc n) (String.◌∷◌ c s) h = (h.0, first_chars-Chars n s h.1)

  drop_left-Begins : (s : String) → (is_empty (drop_left p s) ≡ true) ⊎ Begins p (drop_left p s)
  unfolding drop_left
  drop_left-Begins String.[] = inl refl
  drop_left-Begins (String.◌∷◌ c s) = elim (Bool-cases (p (code c))) [
    | inl e ↦ rw e (drop_left-Begins s)
    | inr e ↦ rw e (inr e)
  ]

  drop_right-Begins : (s : String) → Begins p s → Begins p (drop_right p s)
  unfolding drop_right
  drop_right-Begins String.[] h = h
  drop_right-Begins (String.◌∷◌ c s) h =
      let kept : (is_empty (drop_right p s) && p (code c)) ≡ false = ground arith in rw kept h

  first_chars-Begins : (n : ℕ) (s : String) → Begins p s → Begins p (first_chars (suc n) s)
  unfolding first_chars
  first_chars-Begins n String.[] h = h
  first_chars-Begins n (String.◌∷◌ c s) h = h

  drop_right-empty : (s : String) → is_empty s ≡ true → is_empty (drop_right p s) ≡ true
  unfolding drop_right
  drop_right-empty String.[] h = refl
  drop_right-empty (String.◌∷◌ c s) h = cc

  Begins-is_empty : (s : String) → Begins p s → is_empty s ≡ false
  Begins-is_empty String.[] h = absurd h
  Begins-is_empty (String.◌∷◌ c s) h = refl

size-first_chars : (n : ℕ) (s : String) → size (first_chars n s) ≤ n
unfolding first_chars
size-first_chars zero s = omega arith
size-first_chars (suc n) String.[] = omega arith
size-first_chars (suc n) (String.◌∷◌ c s) = omega (arith, size-first_chars n s)

-- Plain characters, the first of them a letter or a digit.
abbrev IsLabel : String → Type 0
IsLabel s = Chars is_plain s × Begins is_mark s

stripped-IsLabel :
    (s : String)
    → Chars is_plain s
    → IsLabel (
        if is_empty (drop_right is_mark (drop_left is_mark s))
        then "artifact"
        else drop_right is_mark (drop_left is_mark s))
stripped-IsLabel s h =
    let plain =
      drop_right-Chars is_mark is_plain (drop_left is_mark s)
        (drop_left-Chars is_mark is_plain s h) in
    elim (drop_left-Begins is_mark s) [
      | inl e ↦ rw (drop_right-empty is_mark (drop_left is_mark s) e) (ground arith)
      | inr begins ↦
          let begins' = drop_right-Begins is_mark (drop_left is_mark s) begins in
          rw (Begins-is_empty is_mark (drop_right is_mark (drop_left is_mark s)) begins')
            (plain, begins')
    ]

-- A file name of a client becomes one to 128 letters, digits, dots, underscores and dashes, the first of
-- them a letter or a digit, whatever the name.
pub sanitize_filename_lem :
    (normalize : String → String) (name : String)
    → Chars is_plain (sanitize_filename normalize name)
      × Begins is_mark (sanitize_filename normalize name)
      × (size (sanitize_filename normalize name) ≤ 128)
unfolding sanitize_filename
sanitize_filename_lem normalize name =
    let label =
      stripped-IsLabel (replace_unsafe false (base_name (normalize name)))
        (replace_unsafe-Chars false (base_name (normalize name))) in
    (
      first_chars-Chars is_plain 128 _ label.0,
      first_chars-Begins is_mark 127 _ label.1,
      size-first_chars 128 _,
    )
