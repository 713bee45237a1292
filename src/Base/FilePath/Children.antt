-- ===== src/Base/FilePath/Children.antt =====
-- The cleaned path of an entry of a directory.
use Prim.Native.String.{String, ◌++◌ as ◌<>◌}
use text.Mathlib.TextLemmas.{cons-append, append_assoc}
use text.Mathlib.Text.{◌==◌ as str_eq}
use mathlib.Core.Path.{sym, ◌≡◌, refl, ap, ◌∙◌}
use mathlib.Core.Bool.{Bool, true, false}
use mathlib.Core.List.{List, [], ◌∷◌, ◌++◌, reverse-cons}
use geul_asset_optimizer.Base.Text.{is_empty, split, join}
use geul_asset_optimizer.Base.Text.Absent.{Lacks}
use geul_asset_optimizer.Base.Text.Parts.{split-append, join-snoc}
use geul_asset_optimizer.Base.FilePath.{
  is_rooted, push_element, push_elements, render, elements, clean, separator,
}

-- An element that cleaning keeps: a name with no separator that is not `.` or `..`.
pub record IsName (name : String) : Type 0 where
  pub not_empty : is_empty name ≡ false
  pub not_here : str_eq name "." ≡ false
  pub not_up : str_eq name ".." ≡ false
  pub one_part : Lacks b'/' name

push_elements-snoc :
    (rooted : Bool) (stack parts : List String) (last : String)
    → push_elements rooted stack (parts ++ (last ∷ []))
      ≡ push_element rooted (push_elements rooted stack parts) last
unfolding push_elements
push_elements-snoc rooted stack [] last = refl
push_elements-snoc rooted stack (part ∷ parts) last =
    push_elements-snoc rooted (push_element rooted stack part) parts last

push_element-IsName :
    (rooted : Bool) (stack : List String) (name : String)
    → IsName name
    → push_element rooted stack name ≡ name ∷ stack
unfolding push_element
push_element-IsName rooted stack name h = rw (h.not_empty, h.not_here, h.not_up) refl

is_rooted-append :
    (root s : String) → is_empty root ≡ false → is_rooted (root <> s) ≡ is_rooted root
is_rooted-append String.[] s h = cc
is_rooted-append (String.◌∷◌ c root) s h = rw (cons-append c root s) refl

pub elements-append :
    (root name : String)
    → is_empty root ≡ false
    → IsName name
    → elements (root <> "/" <> name) ≡ elements root ++ (name ∷ [])
unfolding elements
elements-append root name h n =
    rw
      (
        is_rooted-append root ("/" <> name) h,
        split-append root name n.one_part,
        push_elements-snoc (is_rooted root) [] (split b'/' root) name,
        push_element-IsName (is_rooted root) (push_elements (is_rooted root) [] (split b'/' root))
            name n,
        elements,
      )
      (reverse-cons name (push_elements (is_rooted root) [] (split b'/' root)))

pub render-snoc :
    (rooted : Bool) (element : String) (rest : List String) (name : String)
    → render rooted ((element ∷ rest) ++ (name ∷ []))
      ≡ render rooted (element ∷ rest) <> "/" <> name
render-snoc true element rest name =
    ap (λ (s : String). separator <> s) (join-snoc element rest name separator)
    ∙ sym (append_assoc separator (join (element ∷ rest) separator) (separator <> name))
render-snoc false element rest name = join-snoc element rest name separator

-- An entry of a directory, by the elements of the directory.
pub clean-append :
    (root name : String)
    → is_empty root ≡ false
    → IsName name
    → clean (root <> "/" <> name) ≡ render (is_rooted root) (elements root ++ (name ∷ []))
unfolding clean
clean-append root name h n =
    rw (is_rooted-append root ("/" <> name) h, elements-append root name h n) refl
