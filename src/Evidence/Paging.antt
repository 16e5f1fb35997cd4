-- ===== src/Evidence/Paging.antt =====
-- src/acip/core/pagination.py and the reading half of src/acip/core/evidence/store.py: pages of
-- evidence by keyset, and the loop that reads them all.
pub mod Cursor
pub mod Timeline
pub mod Complete
use agentic_cyber_investigat.Prelude.{
  ℕ, zero, suc, ◌+◌, ◌-◌, min, max, String, Bool, true, false, not, ◌&&◌, ◌||◌, Option, none, some,
  List, [], ◌∷◌, ◌++◌, if◌then◌else◌, ◌==◌, ◌≡◌, leb, ltb, length, take, select, last?, is_some,
}
use agentic_cyber_investigat.Prelude.Sort.{sort}
use agentic_cyber_investigat.Prelude.Result.{Result, ok, err, ◌>>=◌, ◌>>◌, raise_if}
use agentic_cyber_investigat.Evidence.Rows.{Evidence, StoreError, malformed_cursor, wrong_sort_key}
use agentic_cyber_investigat.Evidence.Store.{Store, own, has_kind}

-- The JSON values of a cursor. `other` is any further value, with its truth and its text.
pub data Cell : Type 0 where
  null : Cell
  int : ℕ → Cell
  text : String → Cell
  other : Bool → String → Cell

-- What the repository takes from libraries: base64 of a JSON text as a token (`none` where it
-- cannot be decoded, `some none` where it is no array), whether the token is empty, and the printing
-- and parsing of times, ids and integers.
pub record Codec (Token : Type 0) : Type 0 where
  pub dumps : List Cell → Token
  pub loads : Token → Option (Option (List Cell))
  pub blank : Token → Bool
  pub isoformat : ℕ → String
  pub fromisoformat : String → Option ℕ
  pub uuid_text : ℕ → String
  pub uuid_parse : String → Option ℕ
  pub int_text : ℕ → String

-- The documented behaviour that paging relies on: what is printed is parsed back, and the text of an
-- array is not empty.
pub record IsFaithful {Token : Type 0} (codec : Codec Token) : Type 0 where
  pub loads-dumps : (cells : List Cell) → codec.loads (codec.dumps cells) ≡ some (some cells)
  pub blank-dumps : (cells : List Cell) → codec.blank (codec.dumps cells) ≡ false
  pub parse-isoformat : (t : ℕ) → codec.fromisoformat (codec.isoformat t) ≡ some t
  pub parse-uuid_text : (i : ℕ) → codec.uuid_parse (codec.uuid_text i) ≡ some i

abbrev pub max_evidence_page : ℕ
max_evidence_page = 500

abbrev sort_key_length : ℕ
sort_key_length = 4

-- ORDER BY collected_at, id
abbrev tie_leb : ℕ → ℕ → ℕ → ℕ → Bool
tie_leb c i c' i' = ltb c c' || c == c' && leb i i'

-- ORDER BY observed_at IS NULL, observed_at, collected_at, id
abbrev pub key_leb : Option ℕ → ℕ → ℕ → Option ℕ → ℕ → ℕ → Bool
key_leb none c i none c' i' = tie_leb c i c' i'
key_leb none c i (some o') c' i' = false
key_leb (some o) c i none c' i' = true
key_leb (some o) c i (some o') c' i' = ltb o o' || o == o' && tie_leb c i c' i'

unfoldable pub row_leb : Evidence → Evidence → Bool
row_leb a b = key_leb a.observed_at a.collected_at a.id b.observed_at b.collected_at b.id

abbrev pub tie : ℕ → ℕ → Evidence → Bool
tie collected_at cursor_id e =
    ltb collected_at e.collected_at || e.collected_at == collected_at && ltb cursor_id e.id

abbrev pub after_dated : ℕ → Bool → Option ℕ → Bool
after_dated observed_at ties none = true
after_dated observed_at ties (some o) = ltb observed_at o || o == observed_at && ties

-- The rows of the investigation of the given kinds, before the cursor's filter.
abbrev pub matching : Store → Option (List String) → List Evidence
matching st kinds = select (has_kind kinds) (own st.investigation_id st.session)

abbrev pub clamp : ℕ → ℕ
clamp limit = max 1 (min limit max_evidence_page)

module _ {Token : Type 0} (codec : Codec Token) where
  abbrev pub optional_time : Option ℕ → Cell
  optional_time none = null
  optional_time (some t) = text (codec.isoformat t)

  -- `_evidence_cursor`, with `encode_cursor`
  abbrev pub evidence_cursor : Evidence → Token
  evidence_cursor row = codec.dumps (
      int (if is_some row.observed_at then 0 else 1)
      ∷ optional_time row.observed_at
      ∷ text (codec.isoformat row.collected_at)
      ∷ text (codec.uuid_text row.id)
      ∷ [])

  unfoldable pub decode_cursor : Token → ℕ → Result StoreError (List Cell)
  decode_cursor cursor expected_length = elim (codec.loads cursor) [
    | none ↦ err malformed_cursor
    | some none ↦ err wrong_sort_key
    | some (some values) ↦
        if length values == expected_length then ok values else err wrong_sort_key
  ]

  -- `str(value)` and `bool(value)`
  abbrev cell_text : Cell → String
  cell_text null = "None"
  cell_text (int n) = codec.int_text n
  cell_text (text s) = s
  cell_text (other b s) = s

  abbrev truthy : Cell → Bool
  truthy null = false
  truthy (int n) = not (n == 0)
  truthy (text String.[]) = false
  truthy (text (String.◌∷◌ c s)) = true
  truthy (other b s) = b

  abbrev observed_cell : Cell → Option (Option ℕ)
  observed_cell null = some none
  observed_cell c = elim (codec.fromisoformat (cell_text c)) [
    | none ↦ none
    | some t ↦ some (some t)
  ]

  -- The row filter that `_evidence_after` builds from the parsed key.
  abbrev filter_after : Bool → Option ℕ → ℕ → ℕ → Result StoreError (Evidence → Bool)
  filter_after true observed collected i =
      ok (λ e. not (is_some e.observed_at) && tie collected i e)
  filter_after false none collected i = err malformed_cursor
  filter_after false (some o) collected i =
      ok (λ e. after_dated o (tie collected i e) e.observed_at)

  abbrev parsed_key :
      Cell → Option (Option ℕ) → Option ℕ → Option ℕ → Result StoreError (Evidence → Bool)
  parsed_key undated (some observed) (some collected) (some i) =
      filter_after (truthy undated) observed collected i
  parsed_key undated _ _ _ = err malformed_cursor

  abbrev pub after_cells : List Cell → Result StoreError (Evidence → Bool)
  after_cells (undated ∷ observed ∷ collected ∷ row_id ∷ []) =
      parsed_key undated (observed_cell observed) (codec.fromisoformat (cell_text collected))
        (codec.uuid_parse (cell_text row_id))
  after_cells _ = err wrong_sort_key

  unfoldable pub evidence_after : Token → Result StoreError (Evidence → Bool)
  unfolding decode_cursor
  evidence_after cursor = do cells ← decode_cursor cursor sort_key_length; after_cells cells

  -- `if cursor: stmt = stmt.where(...)`
  abbrev pub cursor_filter : Option Token → Result StoreError (Evidence → Bool)
  cursor_filter none = ok (λ e. true)
  cursor_filter (some cursor) =
      let after = evidence_after cursor in if codec.blank cursor then ok (λ e. true) else after

  pub record EvidencePage : Type 0 where
    pub rows : List Evidence
    pub next_cursor : Option Token

  abbrev pub page_of : ℕ → List Evidence → EvidencePage
  page_of limit fetched =
      let rows = take limit fetched in
      record {
        rows = rows;
        next_cursor =
            if ltb limit (length fetched)
            then elim (last? rows) [ none ↦ none | some r ↦ some (evidence_cursor r) ]
            else none;
      }

  unfoldable pub list_evidence :
      Store → ℕ → Option Token → Option (List String) → Result StoreError EvidencePage
  list_evidence st limit cursor kinds = do
    after ← cursor_filter cursor
    ok (
        page_of (clamp limit)
          (take (suc (clamp limit)) (sort row_leb (select after (matching st kinds)))))

  -- The loop of `all_evidence`; `none` means that the fuel ran out.
  unfoldable pub read_pages :
      ℕ
      → Store
      → ℕ
      → Option (List String)
      → List Evidence
      → Option Token
      → Option (Result StoreError (List Evidence × Bool))
  read_pages zero st cap kinds collected cursor = none
  read_pages (suc fuel) st cap kinds collected cursor =
      let remaining = cap - length collected in
      elim (remaining == 0) [
        | true ↦ some (ok (collected, true))
        | false ↦ elim (list_evidence st (min max_evidence_page remaining) cursor kinds) [
          | err e ↦ some (err e)
          | ok page ↦ elim page.next_cursor [
            | none ↦ some (ok (collected ++ page.rows, false))
            | some next ↦ read_pages fuel st cap kinds (collected ++ page.rows) (some next)
          ]
        ]
      ]

  unfoldable pub all_evidence :
      Store → ℕ → Option (List String) → Option (Result StoreError (List Evidence × Bool))
  unfolding read_pages
  all_evidence st cap kinds = read_pages (suc cap) st cap kinds [] none
