-- ===== src/Evidence/Paging/Cursor.antt =====
-- The order of the evidence queries is total, and a cursor cuts it exactly behind its row.
use agentic_cyber_investigat.Prelude.{
  ℕ, ◌≡◌, ◌≢◌, ap, fun_ext, true, false, not, ◌&&◌, ◌||◌, Option, none, some, [], ◌∷◌, ◌==◌, ltb,
  arith, is_some, if◌then◌else◌,
}
use agentic_cyber_investigat.Prelude.Result.{ok}
use agentic_cyber_investigat.Evidence.Rows.{Evidence}
use agentic_cyber_investigat.Evidence.Paging.{
  Codec, IsFaithful, key_leb, row_leb, evidence_cursor, decode_cursor, evidence_after,
  cursor_filter, after_dated, optional_time, int, text,
}

key_total :
    (o : Option ℕ) (c i : ℕ) (o' : Option ℕ) (c' i' : ℕ)
    → key_leb o c i o' c' i' ≡ false
    → key_leb o' c' i' o c i ≡ true
key_total o c i o' c' i' h = ground arith

key_trans :
    (o : Option ℕ) (c i : ℕ) (o' : Option ℕ) (c' i' : ℕ) (o'' : Option ℕ) (c'' i'' : ℕ)
    → key_leb o c i o' c' i' ≡ true
    → key_leb o' c' i' o'' c'' i'' ≡ true
    → key_leb o c i o'' c'' i'' ≡ true
key_trans none c i none c' i' none c'' i'' h k = ground arith
key_trans none c i none c' i' (some o'') c'' i'' h k = ground arith
key_trans none c i (some o') c' i' o'' c'' i'' h k = ground arith
key_trans (some o) c i none c' i' none c'' i'' h k = ground arith
key_trans (some o) c i none c' i' (some o'') c'' i'' h k = ground arith
key_trans (some o) c i (some o') c' i' none c'' i'' h k = ground arith
key_trans (some o) c i (some o') c' i' (some o'') c'' i'' h k = ground arith

pub row_total : (a b : Evidence) → row_leb a b ≡ false → row_leb b a ≡ true
unfolding row_leb
row_total a b h = key_total a.observed_at a.collected_at a.id b.observed_at b.collected_at b.id h

pub row_trans : (a b c : Evidence) → row_leb a b ≡ true → row_leb b c ≡ true → row_leb a c ≡ true
unfolding row_leb
row_trans a b c h k =
    key_trans a.observed_at a.collected_at a.id b.observed_at b.collected_at b.id c.observed_at
      c.collected_at c.id h k

pub row_refl : (a : Evidence) → row_leb a a ≡ true
unfolding row_leb
row_refl a = ground arith

-- Rows with distinct ids are strictly ordered.
pub row_strict : (a b : Evidence) → row_leb a b ≡ true → a.id ≢ b.id → row_leb b a ≡ false
unfolding row_leb
row_strict a b h ne = ground (arith, ne)

-- The filters of an undated and of a dated key say that a row lies behind the key.
undated_beyond :
    (c i : ℕ) (o : Option ℕ) (c' i' : ℕ)
    → (not (is_some o) && (ltb c c' || c' == c && ltb i i')) ≡ not (key_leb o c' i' none c i)
undated_beyond c i o c' i' = ground arith

dated_beyond :
    (t c i : ℕ) (o : Option ℕ) (c' i' : ℕ)
    → after_dated t (ltb c c' || c' == c && ltb i i') o ≡ not (key_leb o c' i' (some t) c i)
dated_beyond t c i o c' i' = ground arith

module _ {Token : Type 0} (codec : Codec Token) (faithful : IsFaithful codec) where
  open faithful use {loads-dumps, blank-dumps, parse-isoformat, parse-uuid_text}

  key_after :
      (o : Option ℕ) (c i : ℕ)
      → evidence_after codec (
          codec.dumps (
            int (if is_some o then 0 else 1)
            ∷ optional_time codec o
            ∷ text (codec.isoformat c)
            ∷ text (codec.uuid_text i)
            ∷ []))
        ≡ ok (λ e. not (key_leb e.observed_at e.collected_at e.id o c i))
  unfolding evidence_after decode_cursor
  key_after none c i =
      simp (evidence_after, decode_cursor, loads-dumps, parse-isoformat, parse-uuid_text)
        (ap ok (fun_ext λ e. undated_beyond c i e.observed_at e.collected_at e.id))
  key_after (some t) c i =
      simp (evidence_after, decode_cursor, loads-dumps, parse-isoformat, parse-uuid_text)
        (ap ok (fun_ext λ e. dated_beyond t c i e.observed_at e.collected_at e.id))

  -- The cursor of a row lets through exactly the rows that come behind it in the order.
  pub cursor_filter-cursor :
      (r : Evidence)
      → cursor_filter codec (some (evidence_cursor codec r)) ≡ ok (λ e. not (row_leb e r))
  unfolding row_leb
  cursor_filter-cursor r = rw blank-dumps (key_after r.observed_at r.collected_at r.id)
