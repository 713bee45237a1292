-- ===== src/Optimizer/Inspection/Csv/RoundTrip.antt =====
-- Quoted fields are read back.
use Prim.Native.Char.{Char, code}
use text.Mathlib.TextLemmas.{nil-append, cons-append, append-nil}
use geul_asset_optimizer.Base.{
  String, ◌<>◌, true, false, some, List, [], ◌∷◌, ◌≡◌, refl, ◌==◌, arith, Bool-cases, inl, inr,
}
use geul_asset_optimizer.Optimizer.Inspection.Csv.{
  at_start, quoted, after_quote, read_fields, quote_rest, write_fields,
}

opening :
    (s : String) (fields : List String)
    → read_fields quoted s ≡ some fields
    → read_fields at_start ("\"" <> s) ≡ some fields
unfolding read_fields
opening s fields h = rw (cons-append "\"" "" s, nil-append s, read_fields, h) refl

closing :
    (t : String) (fields : List String)
    → read_fields after_quote t ≡ some ("" ∷ fields)
    → read_fields quoted ("\"" <> t) ≡ some ("" ∷ fields)
unfolding read_fields
closing t fields h = rw (cons-append "\"" "" t, nil-append t, read_fields, h) refl

comma :
    (t : String) (fields : List String)
    → read_fields at_start t ≡ some fields
    → read_fields after_quote ("," <> t) ≡ some ("" ∷ fields)
unfolding read_fields
comma t fields h = rw (cons-append "," "" t, nil-append t, read_fields, h) refl

end_of_line : read_fields after_quote "" ≡ some ("" ∷ [])
unfolding read_fields
end_of_line = refl

module _ (c : Char) (s : String) (field : String) (fields : List String) where
  read-doubled :
      (code c == b'"') ≡ true
      → read_fields quoted s ≡ some (field ∷ fields)
      → read_fields quoted (String.◌∷◌ c (String.◌∷◌ c s)) ≡ some (String.◌∷◌ c field ∷ fields)
  unfolding read_fields
  read-doubled quote h = ground arith

  read-joined :
      (code c == b'"') ≡ false
      → read_fields quoted s ≡ some (field ∷ fields)
      → read_fields quoted (String.◌∷◌ c s) ≡ some (String.◌∷◌ c field ∷ fields)
  unfolding read_fields
  read-joined other h = ground arith

read-quote_rest :
    (s t : String) (fields : List String)
    → read_fields after_quote t ≡ some ("" ∷ fields)
    → read_fields quoted (quote_rest s <> t) ≡ some (s ∷ fields)
unfolding quote_rest
read-quote_rest String.[] t fields h = closing t fields h
read-quote_rest (String.◌∷◌ c s) t fields h = elim (Bool-cases (code c == b'"')) [
  | inl quote ↦
      rw
        (
          quote,
          quote_rest,
          cons-append c (String.◌∷◌ c (quote_rest s)) t,
          cons-append c (quote_rest s) t,
        )
        (read-doubled c (quote_rest s <> t) s fields quote (read-quote_rest s t fields h))
  | inr other ↦
      rw (other, quote_rest, cons-append c (quote_rest s) t)
        (read-joined c (quote_rest s <> t) s fields other (read-quote_rest s t fields h))
]

-- A line of quoted fields, their quotes doubled and with commas between them, is read as the fields.
pub read-write_fields :
    (field : String) (fields : List String)
    → read_fields at_start (write_fields field fields) ≡ some (field ∷ fields)
unfolding write_fields
read-write_fields field [] =
    opening (quote_rest field) (field ∷ [])
      (rw (append-nil (quote_rest field)) at (read-quote_rest field "" [] end_of_line))
read-write_fields field (next ∷ fields) =
    opening (quote_rest field <> "," <> write_fields next fields) (field ∷ next ∷ fields) (
      read-quote_rest field ("," <> write_fields next fields) (next ∷ fields)
        (comma (write_fields next fields) (next ∷ fields) (read-write_fields next fields)))
