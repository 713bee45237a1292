-- ===== src/Optimizer/Inspection/Printed/Lines.antt =====
-- That the parser reads a printed line as what it was printed from.
use Prim.Native.Char.{code}
use text.Mathlib.TextLemmas.{nil-append, cons-append}
use geul_asset_optimizer.Base.{
  sym, subst, inl, inr, Bool-cases, String, ◌<>◌, List, [], ◌∷◌, ◌≡◌, ap, refl, map, true, false,
  ◌||◌, ◌==◌, str_eq, starts_with, arith, some,
}
use geul_asset_optimizer.Base.Text.{is_space, trim_space, contains_char}
use geul_asset_optimizer.Base.Text.Absent.{Lacks, Lacks-append}
use geul_asset_optimizer.Base.Text.Heads.{str_eq-first, starts_with-first}
use geul_asset_optimizer.Base.Text.Trim.{
  AllLack, EndsTight, EndsTight-cons, EndsTight-append, EndsTight-one, trim_space_tight,
  contains_char-append_left, contains_char-append_right, split-join,
}
use geul_asset_optimizer.Errors.{Error, ok, ◌>>=◌}
use geul_asset_optimizer.Optimizer.Inspection.Csv.{at_start, read_fields, quote_rest, write_fields}
use geul_asset_optimizer.Optimizer.Inspection.Csv.RoundTrip.{read-write_fields}
use geul_asset_optimizer.Optimizer.Inspection.Report.{
  InspectParser, consume, consume_all, parse_csv_line, take_fields, is_inspection_section,
  parse_inspect_csv, new_parser, finish,
}
use geul_asset_optimizer.Optimizer.Inspection.Printed.{
  Section, overview, scenes, meshes, materials, textures, animations, title, Line, titled, listed,
  write_line, write_lines, IsOneLine, AllOneLine, read_line, read_lines,
}

quote_rest-EndsTight : (s : String) → EndsTight is_space (quote_rest s)
unfolding quote_rest is_space
quote_rest-EndsTight String.[] = EndsTight-one is_space "\"" refl
quote_rest-EndsTight (String.◌∷◌ c s) = elim (Bool-cases (code c == b'"')) [
  | inl quote ↦
      rw (quote, quote_rest)
        (EndsTight-cons is_space c _ (EndsTight-cons is_space c _ (quote_rest-EndsTight s)))
  | inr other ↦ rw (other, quote_rest) (EndsTight-cons is_space c _ (quote_rest-EndsTight s))
]

write_fields-EndsTight :
    (field : String) (fields : List String) → EndsTight is_space (write_fields field fields)
unfolding write_fields
write_fields-EndsTight field [] =
    EndsTight-append is_space "\"" (quote_rest field) (quote_rest-EndsTight field)
write_fields-EndsTight field (next ∷ fields) = EndsTight-append is_space "\"" _ (
    EndsTight-append is_space (quote_rest field) _
      (EndsTight-append is_space "," _ (write_fields-EndsTight next fields)))

-- What follows the quote that a line of fields begins with.
abbrev after_quote : String → List String → String
after_quote field [] = quote_rest field
after_quote field (next ∷ fields) = quote_rest field <> "," <> write_fields next fields

write_fields-opens :
    (field : String) (fields : List String)
    → write_fields field fields ≡ String.◌∷◌ "\"" (after_quote field fields)
unfolding write_fields
write_fields-opens field [] =
    rw (cons-append "\"" "" (quote_rest field), nil-append (quote_rest field)) refl
write_fields-opens field (next ∷ fields) =
    let rest = quote_rest field <> "," <> write_fields next fields in
    rw (cons-append "\"" "" rest, nil-append rest) refl

write_fields-comma :
    (field next : String) (fields : List String)
    → contains_char b',' (write_fields field (next ∷ fields)) ≡ true
unfolding write_fields contains_char
write_fields-comma field next fields =
    let rest = write_fields next fields in
    contains_char-append_right b',' "\"" (quote_rest field <> "," <> rest) (
      contains_char-append_right b',' (quote_rest field) ("," <> rest)
        (contains_char-append_left b',' "," rest refl))

quote_rest-Lacks : (s : String) → Lacks b'\n' s → Lacks b'\n' (quote_rest s)
unfolding quote_rest contains_char
quote_rest-Lacks String.[] h = refl
quote_rest-Lacks (String.◌∷◌ c s) h = ground (arith, quote_rest-Lacks s)

write_fields-Lacks :
    (field : String) (fields : List String)
    → AllLack b'\n' (field ∷ fields)
    → Lacks b'\n' (write_fields field fields)
unfolding write_fields contains_char
write_fields-Lacks field [] (h, u) =
    Lacks-append b'\n' "\"" (quote_rest field) refl (quote_rest-Lacks field h)
write_fields-Lacks field (next ∷ fields) (h, lack) =
    let rest = write_fields next fields in
    Lacks-append b'\n' "\"" (quote_rest field <> "," <> rest) refl (
      Lacks-append b'\n' (quote_rest field) ("," <> rest) (quote_rest-Lacks field h)
        (Lacks-append b'\n' "," rest refl (write_fields-Lacks next fields lack)))

-- Nothing but a quoted field begins with a quote.
opened_line :
    (s : String)
    → let line = String.◌∷◌ "\"" s in
      ((str_eq line "" || starts_with line "─" || starts_with line "No ") ≡ false)
      × (is_inspection_section line ≡ false)
unfolding is_inspection_section
opened_line s =
    let line = String.◌∷◌ "\"" s in
    (
      ground (
        arith,
        str_eq-first line "" (λ e. absurd (omega (arith, e))),
        starts_with-first line "─" "" (λ e. absurd (omega (arith, e))),
        starts_with-first line "N" "o " (λ e. absurd (omega (arith, e))),
      ),
      ground (
        arith,
        str_eq-first line "OVERVIEW" (λ e. absurd (omega (arith, e))),
        str_eq-first line "SCENES" (λ e. absurd (omega (arith, e))),
        str_eq-first line "MESHES" (λ e. absurd (omega (arith, e))),
        str_eq-first line "MATERIALS" (λ e. absurd (omega (arith, e))),
        str_eq-first line "TEXTURES" (λ e. absurd (omega (arith, e))),
        str_eq-first line "ANIMATIONS" (λ e. absurd (omega (arith, e))),
      ),
    )

module _ (line_error : String → Error) (p : InspectParser) where
  consume-title :
      (s : Section)
      → consume line_error p (title s) ≡ ok (record p { section = title s; headers = [] })
  unfolding consume trim_space is_inspection_section
  consume-title overview = refl
  consume-title scenes = refl
  consume-title meshes = refl
  consume-title materials = refl
  consume-title textures = refl
  consume-title animations = refl

  parse-csv_line :
      (line : String) (fields : List String)
      → read_fields at_start line ≡ some fields
      → parse_csv_line line_error line ≡ ok fields
  unfolding parse_csv_line
  parse-csv_line line fields read = rw (read, parse_csv_line) refl

  consume_opened :
      (s : String) (fields : List String)
      → let line = String.◌∷◌ "\"" s in
        EndsTight is_space line
        → contains_char b',' line ≡ true
        → read_fields at_start line ≡ some fields
        → consume line_error p line ≡ ok (take_fields line_error p fields)
  unfolding consume
  consume_opened s fields tight comma read =
      let (plain, untitled) = opened_line s in
      rw (trim_space_tight "\"" s refl tight, consume)
        (rw (plain, untitled, comma, parse-csv_line _ fields read) refl)

  consume-write_line :
      (line : Line) → consume line_error p (write_line line) ≡ ok (read_line line_error p line)
  unfolding write_line
  consume-write_line (titled s) = consume-title s
  consume-write_line (listed field next fields) =
      let all = next ∷ fields in
      let result = ok (take_fields line_error p (field ∷ all)) in
      let opens = write_fields-opens field all in
      subst (λ text. consume line_error p text ≡ result) (sym opens)
        (consume_opened (after_quote field all) (field ∷ all)
          (subst (EndsTight is_space) opens (write_fields-EndsTight field all))
          (subst (λ text. contains_char b',' text ≡ true) opens
            (write_fields-comma field next fields))
          (subst (λ text. read_fields at_start text ≡ some (field ∷ all)) opens
            (read-write_fields field all)))

write_line-Lacks : (line : Line) → IsOneLine line → Lacks b'\n' (write_line line)
unfolding write_line contains_char
write_line-Lacks (titled overview) h = refl
write_line-Lacks (titled scenes) h = refl
write_line-Lacks (titled meshes) h = refl
write_line-Lacks (titled materials) h = refl
write_line-Lacks (titled textures) h = refl
write_line-Lacks (titled animations) h = refl
write_line-Lacks (listed field next fields) h = write_fields-Lacks field (next ∷ fields) h

map-write_line-AllLack :
    (lines : List Line) → AllOneLine lines → AllLack b'\n' (map write_line lines)
map-write_line-AllLack [] h = tt
map-write_line-AllLack (line ∷ lines) (h, rest) =
    (write_line-Lacks line h, map-write_line-AllLack lines rest)

module _ (line_error : String → Error) where
  consume_all-write_lines :
      (p : InspectParser) (lines : List Line)
      → consume_all line_error p (map write_line lines) ≡ ok (read_lines line_error p lines)
  unfolding consume_all ◌>>=◌
  consume_all-write_lines p [] = refl
  consume_all-write_lines p (line ∷ lines) =
      rw (consume-write_line line_error p line)
        (consume_all-write_lines (read_line line_error p line) lines)

  -- A report is parsed as the lines that it was printed from, whatever their fields are but line feeds.
  pub parse_inspect_csv-write_lines :
      (line : Line) (lines : List Line)
      → AllOneLine (line ∷ lines)
      → parse_inspect_csv line_error (write_lines (line ∷ lines))
        ≡ finish line_error (
            ok (
              read_lines line_error
                (new_parser line_error (write_lines (line ∷ lines)))
                (line ∷ lines)))
  unfolding parse_inspect_csv write_lines
  parse_inspect_csv-write_lines line lines h =
      rw
        (split-join (write_line line) (map write_line lines)
          (map-write_line-AllLack (line ∷ lines) h))
        (ap (finish line_error) (consume_all-write_lines _ (line ∷ lines)))
