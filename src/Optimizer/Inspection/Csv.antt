-- ===== src/Optimizer/Inspection/Csv.antt =====
-- `encoding/csv` on one line, as internal/optimizer/inspect.go uses it: commas, quoted fields with
-- doubled quotes, no lazy quotes. The reader runs over the characters with the state of the field.
pub mod RoundTrip
use Prim.Native.Char.{Char, code}
use geul_asset_optimizer.Base.{
  ℕ, String, ◌<>◌, Option, none, some, List, [], ◌∷◌, ◌==◌, if◌then◌else◌,
}

-- Before a field, in a plain one, inside quotes, and after a quote inside a quoted field.
pub data FieldState : Type 0 where
  at_start plain quoted after_quote : FieldState

-- What a character does: it ends the field, joins it, or only changes the state.
pub data Step : Type 0 where
  ends joins skips : FieldState → Step
  breaks : Step

abbrev in_plain : ℕ → Step
in_plain c = if c == b',' then ends at_start else if c == b'"' then breaks else joins plain

abbrev pub step : FieldState → ℕ → Step
step at_start c = if c == b'"' then skips quoted else in_plain c
step plain c = in_plain c
step quoted c = if c == b'"' then skips after_quote else joins quoted
step after_quote c = if c == b',' then ends at_start else if c == b'"' then joins quoted else breaks

abbrev after : Step → FieldState
after (ends st) = st
after (joins st) = st
after (skips st) = st
after breaks = plain

abbrev join_first : Char → List String → List String
join_first c [] = []
join_first c (field ∷ fields) = String.◌∷◌ c field ∷ fields

abbrev record_step : Step → Char → Option (List String) → Option (List String)
record_step breaks c rest = none
record_step (ends st) c (some fields) = some ("" ∷ fields)
record_step (joins st) c (some fields) = some (join_first c fields)
record_step (skips st) c (some fields) = some fields
record_step _ c none = none

-- At the end of the line an open quote is an error.
abbrev at_end : FieldState → Option (List String)
at_end quoted = none
at_end _ = some ("" ∷ [])

unfoldable pub read_fields : FieldState → String → Option (List String)
read_fields st String.[] = at_end st
read_fields st (String.◌∷◌ c s) =
    let next = step st (code c) in record_step next c (read_fields (after next) s)

-- A field as a writer quotes it, without the opening quote.
unfoldable pub quote_rest : String → String
quote_rest String.[] = "\""
quote_rest (String.◌∷◌ c s) =
    let rest = quote_rest s in
    if code c == b'"' then String.◌∷◌ c (String.◌∷◌ c rest) else String.◌∷◌ c rest

unfoldable pub write_fields : String → List String → String
unfolding quote_rest
write_fields field [] = "\"" <> quote_rest field
write_fields field (next ∷ fields) = "\"" <> quote_rest field <> "," <> write_fields next fields
