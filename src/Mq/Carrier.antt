-- ===== src/Mq/Carrier.antt =====
-- internal/mq/telemetry.go: the headers of a message as the carrier of the correlation. What the
-- telemetry library puts into a carrier and takes out of it is a program of the calls that it makes,
-- so that it can do with the headers what `Get`, `Set` and `Keys` do, and nothing else.
use geul_asset_optimizer.Base.{String, Option, none, some, List, [], ◌∷◌, str_eq, if◌then◌else◌}

-- `pgmqHeaderCarrier`, a map of texts by its entries; the order of a map is any.
abbrev pub Headers : Type 0
Headers = List (String × String)

-- A missing key reads as the empty text.
unfoldable pub get : Headers → String → String
get [] key = ""
get ((k, value) ∷ headers) key = let rest = get headers key in if str_eq k key then value else rest

unfoldable pub set : String → String → Headers → Headers
set key value [] = (key, value) ∷ []
set key value ((k, old) ∷ headers) =
    let rest = set key value headers in
    if str_eq k key then (k, value) ∷ headers else (k, old) ∷ rest

unfoldable pub keys : Headers → List String
keys [] = []
keys ((k, value) ∷ headers) = k ∷ keys headers

pub data Program (A : Type 0) : Type 0 where
  returns : A → Program A
  gets : String → (String → Program A) → Program A
  sets : String → String → Program A → Program A
  lists : (List String → Program A) → Program A

module _ {A : Type 0} where
  unfoldable pub run : Program A → Headers → A × Headers
  unfolding get set keys
  run (returns a) headers = (a, headers)
  run (gets key next) headers = run (next (get headers key)) headers
  run (sets key value next) headers = run next (set key value headers)
  run (lists next) headers = run (next (keys headers)) headers

-- A nil map becomes an empty one; the argument is `sharedtelemetry.InjectCorrelation`.
unfoldable pub inject_message_correlation : Program (Unit {0}) → Option Headers → Headers
unfolding run
inject_message_correlation inject none = (run inject []).1
inject_message_correlation inject (some headers) = (run inject headers).1

-- The argument is `sharedtelemetry.ExtractCorrelation`, with the service as its system actor.
unfoldable pub extract_delivery_correlation :
    {Context : Type 0} → Program Context → Headers → Context
unfolding run
extract_delivery_correlation extract headers = (run extract headers).0
