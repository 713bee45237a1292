-- ===== src/Base/FilePath.antt =====
-- Go's `path/filepath` on Unix: `Clean`, `Join` of two elements, and `Dir`.
pub mod Children
use Prim.Native.Char.{code}
use Prim.Native.String.{String, ◌++◌ as ◌<>◌}
use mathlib.Core.Path.{◌≡◌, refl}
use mathlib.Core.Bool.{Bool, true, false, ◌||◌}
use mathlib.Core.List.{List, [], ◌∷◌, reverse}
use text.Mathlib.Text.{◌==◌ as str_eq}
use geul_asset_optimizer.Base.Tests.{◌==◌, if◌then◌else◌}
use geul_asset_optimizer.Base.Text.{is_empty, split, join}

abbrev pub separator : String
separator = "/"

abbrev pub is_rooted : String → Bool
is_rooted String.[] = false
is_rooted (String.◌∷◌ c s) = code c == b'/'

-- `..` takes back the element before it, if that is a real one.
abbrev go_up : Bool → List String → List String
go_up true [] = []
go_up false [] = ".." ∷ []
go_up rooted (top ∷ stack) = if str_eq top ".." then ".." ∷ top ∷ stack else stack

-- One element of the path; the elements so far stand newest first.
unfoldable pub push_element : Bool → List String → String → List String
push_element rooted stack element =
    if is_empty element || str_eq element "."
    then stack
    else if str_eq element ".."
    then go_up rooted stack
    else element ∷ stack

unfoldable pub push_elements : Bool → List String → List String → List String
unfolding push_element
push_elements rooted stack [] = stack
push_elements rooted stack (element ∷ rest) =
    push_elements rooted (push_element rooted stack element) rest

abbrev pub render : Bool → List String → String
render true elements = separator <> join elements separator
render false [] = "."
render false (element ∷ rest) = join (element ∷ rest) separator

-- The elements of a path that cleaning leaves.
unfoldable pub elements : String → List String
unfolding push_elements split
elements path = reverse (push_elements (is_rooted path) [] (split b'/' path))

unfoldable pub clean : String → String
unfolding join
clean path = render (is_rooted path) (elements path)

unfoldable pub join_path : String → String → String
unfolding clean
join_path a b =
    if is_empty a then (if is_empty b then "" else clean b) else clean (a <> separator <> b)

clean_test : clean "/tmp//x/./y/../z/" ≡ "/tmp/x/z"
unfolding clean elements
clean_test = refl

clean_relative_test : clean "./a/../../b" ≡ "../b"
unfolding clean elements
clean_relative_test = refl

join_path_test : join_path "/tmp/job" "source.glb" ≡ "/tmp/job/source.glb"
unfolding join_path elements
join_path_test = refl
