-- ===== src/Prelude/Text.antt =====
-- The operations of Python's `str` that the program uses, on the native texts.
use Prim.Native.Char.{code}
use Prim.Native.Nat.{Ordering}
use Prim.Native.String.{String, compare, ◌++◌}
use mathlib.Core.Bool.{Bool, true, false, ◌&&◌, ◌||◌}
use mathlib.Core.Option.{Option, none, some}
use Prim.Native.Nat.{ℕ, zero, suc, ◌/◌, ◌%◌}
use agentic_cyber_investigat.Prelude.Tests.{leb, ltb, if◌then◌else◌, ◌==◌}

-- `c.isspace()`
unfoldable pub is_space : ℕ → Bool
is_space c =
    leb 9 c && leb c 13
    || leb 28 c && leb c 32
    || c == 133
    || c == 160
    || c == 0x1680
    || leb 0x2000 c && leb c 0x200a
    || c == 0x2028
    || c == 0x2029
    || c == 0x202f
    || c == 0x205f
    || c == 0x3000

abbrev pub is_empty : String → Bool
is_empty String.[] = true
is_empty (String.◌∷◌ c s) = false

unfoldable pub drop_left : (ℕ → Bool) → String → String
drop_left p String.[] = String.[]
drop_left p (String.◌∷◌ c s) =
    let rest = drop_left p s in if p (code c) then rest else String.◌∷◌ c s

unfoldable pub drop_right : (ℕ → Bool) → String → String
drop_right p String.[] = String.[]
drop_right p (String.◌∷◌ c s) =
    let rest = drop_right p s in
    if is_empty rest && p (code c) then String.[] else String.◌∷◌ c rest

-- `s.strip()`
unfoldable pub strip : String → String
unfolding drop_left drop_right is_space
strip s = drop_right is_space (drop_left is_space s)

-- `not (s or "").strip()`
unfoldable pub is_blank : Option String → Bool
unfolding strip
is_blank none = true
is_blank (some s) = is_empty (strip s)

-- `s <= t`, by code points
abbrev pub str_leb : String → String → Bool
str_leb s t = elim (compare s t) [ Ordering.gt ↦ false | _ ↦ true ]

-- `s == t`
abbrev pub same_text : String → String → Bool
same_text s t = elim (compare s t) [ Ordering.eq ↦ true | _ ↦ false ]

-- `s.startswith(p)`, with what follows the prefix
unfoldable pub after_prefix : String → String → Option String
after_prefix String.[] s = some s
after_prefix (String.◌∷◌ c p) String.[] = none
after_prefix (String.◌∷◌ c p) (String.◌∷◌ d s) = if code c == code d then after_prefix p s else none

-- `s.endswith(p)`, with what stands before the suffix
unfoldable pub before_suffix : String → String → Option String
before_suffix p String.[] = if is_empty p then some String.[] else none
before_suffix p (String.◌∷◌ c s) =
    let longer : Option String = elim (before_suffix p s) [
      | none ↦ none
      | some rest ↦ some (String.◌∷◌ c rest)
    ] in
    if same_text p (String.◌∷◌ c s) then some String.[] else longer

unfoldable pub ends_with : String → String → Bool
unfolding before_suffix
ends_with suffix s = elim (before_suffix suffix s) [ none ↦ false | some rest ↦ true ]

-- `s.partition(sep)`, for a separator that is not empty: what stands before and after it
unfoldable pub partition : String → String → Option (String × String)
unfolding after_prefix
partition sep String.[] = none
partition sep (String.◌∷◌ c s) = elim (after_prefix sep (String.◌∷◌ c s)) [
  | some rest ↦ some (String.[], rest)
  | none ↦ elim (partition sep s) [
    | none ↦ none
    | some (before, rest) ↦ some (String.◌∷◌ c before, rest)
  ]
]

-- `t in s`
unfoldable pub has_text : String → String → Bool
unfolding partition
has_text t s = is_empty t || elim (partition t s) [ some parts ↦ true | none ↦ false ]

digit : ℕ → String
digit n =
    if n == 0
    then "0"
    else if n == 1
    then "1"
    else if n == 2
    then "2"
    else if n == 3
    then "3"
    else if n == 4
    then "4"
    else if n == 5
    then "5"
    else if n == 6
    then "6"
    else if n == 7
    then "7"
    else if n == 8
    then "8"
    else "9"

show_from : ℕ → ℕ → String
unfolding digit
show_from zero n = ""
show_from (suc fuel) n =
    let rest = show_from fuel (n / 10) in if ltb n 10 then digit n else rest ++ digit (n % 10)

-- `str(n)`; the fuel is enough, since each round divides by ten
unfoldable pub show : ℕ → String
unfolding show_from
show n = show_from (suc n) n
