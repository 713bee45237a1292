-- ===== src/Workdir/Containment.antt =====
-- What the cleanup of a work directory removes.
use Prim.Native.Char.{code}
use mathlib.Core.Bool.{false≢true}
use text.Mathlib.TextLemmas.{append_assoc, cons-append}
use geul_asset_optimizer.Base.{
  ◌==◌, is_none, String, ◌<>◌, Bool, true, false, some, List, [], ◌∷◌, ◌++◌, ◌≡◌, ◌≢◌, refl, sym,
  arith, ap, ◌∙◌, ◌⊎◌, inl, inr, Bool-cases, starts_with, starts_with_iff, starts_with-append,
  str_eq, eq_iff,
}
use geul_asset_optimizer.Base.Text.{split, is_empty, contains_char}
use geul_asset_optimizer.Base.Text.Absent.{Lacks, Lacks-append}
use geul_asset_optimizer.Base.Text.Marked.{behind_prefix, Lacks-parts}
use geul_asset_optimizer.Base.FilePath.{
  push_elements, push_element, clean, render, is_rooted, elements, separator,
}
use geul_asset_optimizer.Base.FilePath.Children.{IsName, clean-append, render-snoc}
use geul_asset_optimizer.Errors.{message, Result, ok}
use geul_asset_optimizer.Workdir.{
  removed, Trace, Env, sanitize, create_job_work_dir, cleanup_job_work_dir,
}
use geul_asset_optimizer.Workdir.Names.{sanitize-one_element}

-- The parts of a pattern around its last star; one without a star has nothing behind its part.
pub data IsSplit (pattern before after : String) : Type 0 where
  at_star :
      pattern ≡ before <> String.◌∷◌ "*" after → Lacks b'*' after → IsSplit pattern before after
  at_end : Lacks b'*' pattern → before ≡ pattern → after ≡ "" → IsSplit pattern before after

module _ (env : Env) (root : String) where
  -- The cleanup removes a path only if, once cleaned, it continues the cleaned root and a separator;
  -- it then removes that path and answers what the removal answers. In every other case it is an
  -- error and nothing is removed.
  pub cleanup_job_work_dir-contained :
      (path : String) (tr : Trace)
      → let (e, tr') = cleanup_job_work_dir env root path tr in
        ((rest : String) × (clean path ≡ (clean root <> separator) <> rest)
          × (e ≡ env.remove_all tr path)
          × (tr' ≡ removed path e ∷ tr))
        ⊎ ((is_none e ≡ false) × (tr' ≡ tr))
  unfolding cleanup_job_work_dir
  cleanup_job_work_dir-contained path tr =
      elim (Bool-cases (starts_with (clean path) (clean root <> separator))) [
        | inl inside ↦
            let (rest, continues) =
              (starts_with_iff (clean path) (clean root <> separator)).0 inside in
            inl (
              rest,
              sym continues,
              rw (inside, cleanup_job_work_dir) refl,
              rw (inside, cleanup_job_work_dir) refl,
            )
        | inr outside ↦
            inr (rw (outside, cleanup_job_work_dir) refl, rw (outside, cleanup_job_work_dir) refl)
      ]

  -- `os.MkdirTemp` for a root with no separator at its end: the path is that of an entry of the root,
  -- whose name has a random text with no separator at the end of the pattern, or in place of the
  -- pattern's last star.
  pub record MakesTemp : Type 0 where
    pub named :
        (tr : Trace) (pattern path : String)
        → env.mkdir_temp tr root pattern ≡ ok path
        → (before after random : String) × IsSplit pattern before after
          × Lacks b'/' random
          × (path ≡ root <> "/" <> before <> random <> after)

is_empty-append : (s t : String) → is_empty s ≡ false → is_empty (s <> t) ≡ false
is_empty-append String.[] t h = cc
is_empty-append (String.◌∷◌ c s) t h = rw (cons-append c s t) refl

unlike : (s t p : String) → starts_with s p ≡ true → starts_with t p ≡ false → str_eq s t ≡ false
unlike s t p h h' = elim (Bool-cases (str_eq s t)) [
  | inl same ↦ cc ((eq_iff s t).0 same)
  | inr other ↦ other
]

-- The name of a directory that was made for a job.
IsName-append : (rest : String) → Lacks b'/' rest → IsName ("mesh-" <> rest)
unfolding contains_char
IsName-append rest h = record {
  not_empty = is_empty-append "mesh-" rest refl;
  not_here = unlike ("mesh-" <> rest) "." "mesh-" (starts_with-append "mesh-" rest) refl;
  not_up = unlike ("mesh-" <> rest) ".." "mesh-" (starts_with-append "mesh-" rest) refl;
  one_part = Lacks-append b'/' "mesh-" rest refl h;
}

-- The path of an entry of a root that has an element of its own.
clean-entry :
    (root name element : String) (rest : List String)
    → is_empty root ≡ false
    → IsName name
    → elements root ≡ element ∷ rest
    → clean (root <> "/" <> name) ≡ (clean root <> separator) <> name
unfolding clean
clean-entry root name element rest h n es =
    let rooted = is_rooted root in
    clean-append root name h n
    ∙ ap (λ (parts : List String). render rooted (parts ++ (name ∷ []))) es
    ∙ render-snoc rooted element rest name
    ∙ sym (append_assoc (render rooted (element ∷ rest)) separator name)
    ∙ ap (λ (parts : List String). (render rooted parts <> separator) <> name) (sym es)

-- A root that cleans to neither `/` nor `.` has an element.
elements-some :
    (root : String) (parts : List String)
    → elements root ≡ parts
    → clean root ≢ "/"
    → clean root ≢ "."
    → (element : String) × (rest : List String) × (elements root ≡ element ∷ rest)
unfolding clean
elements-some root (element ∷ rest) es not_slash not_here = (element, rest, es)
elements-some root [] es not_slash not_here = elim (Bool-cases (is_rooted root)) [
  | inl rooted ↦ absurd (not_slash (rw (rooted, es, clean) refl))
  | inr relative ↦ absurd (not_here (rw (relative, es, clean) refl))
]

not_empty_root : (root : String) → clean root ≢ "." → is_empty root ≡ false
unfolding clean elements
not_empty_root String.[] h = absurd (h refl)
not_empty_root (String.◌∷◌ c root) h = refl

-- The cleanup accepts every entry of the root under a name that starts with `mesh-`.
pub cleanup_of_entry :
    (env : Env) (root path rest : String) (later : Trace)
    → clean root ≢ "/"
    → clean root ≢ "."
    → Lacks b'/' rest
    → path ≡ root <> "/" <> "mesh-" <> rest
    → cleanup_job_work_dir env root path later
      ≡ (env.remove_all later path, removed path (env.remove_all later path) ∷ later)
unfolding cleanup_job_work_dir
cleanup_of_entry env root path rest later not_slash not_here plain at =
    let (element, parts, es) = elements-some root (elements root) refl not_slash not_here in
    let entry =
      clean-entry root ("mesh-" <> rest) element parts (not_empty_root root not_here)
        (IsName-append rest plain) es in
    rw
      (
        at,
        entry,
        starts_with-append (clean root <> separator) ("mesh-" <> rest),
        cleanup_job_work_dir,
      )
      refl

-- What the random text is put into still starts with `mesh-`, and has no separator.
split_name :
    (name before after : String)
    → Lacks b'/' name
    → IsSplit ("mesh-" <> name) before after
    → (more : String) × (before ≡ "mesh-" <> more) × Lacks b'/' more × Lacks b'/' after
unfolding contains_char
split_name name before after plain (at_end starless whole nothing) =
    (name, whole, plain, rw nothing refl)
split_name name before after plain (at_star parts starless) =
    let (more, begins, ends) = behind_prefix "*" "mesh-" name before after refl parts in
    let (front, back) =
      Lacks-parts b'/' more (String.◌∷◌ "*" after) (ap (contains_char b'/') (sym ends) ∙ plain) in
    (more, begins, front, ground (arith, back))

module _ (env : Env) (root job_id : String) (temp : MakesTemp env root) where
  -- The directory of a job is an entry of the root, under a name that starts with `mesh-`.
  pub created_entry :
      (path : String) (tr tr' : Trace)
      → create_job_work_dir env root job_id tr ≡ (ok path, tr')
      → (rest : String) × Lacks b'/' rest × (path ≡ root <> "/" <> "mesh-" <> rest)
  unfolding create_job_work_dir contains_char
  created_entry path tr tr' made =
      let name = sanitize job_id <> "-" in
      let (before, after, random, split, plain, named) =
        temp.named tr ("mesh-" <> name) path (ap (λ (r : Result String × Trace). r.0) made) in
      let (more, begins, front, back) =
        split_name name before after
          (Lacks-append b'/' (sanitize job_id) "-" (sanitize-one_element job_id).0 refl) split in
      (
        more <> (random <> after),
        Lacks-append b'/' more (random <> after) front (Lacks-append b'/' random after plain back),
        rw (named, begins, append_assoc "mesh-" more (random <> after)) refl,
      )

  -- The cleanup accepts every directory that the manager made for a job: it removes it and answers
  -- what the removal answers. The root must clean to neither `/` nor `.`.
  pub cleanup_of_created :
      (path : String) (tr tr' later : Trace)
      → clean root ≢ "/"
      → clean root ≢ "."
      → create_job_work_dir env root job_id tr ≡ (ok path, tr')
      → cleanup_job_work_dir env root path later
        ≡ (env.remove_all later path, removed path (env.remove_all later path) ∷ later)
  cleanup_of_created path tr tr' later not_slash not_here made =
      let (rest, plain, at) = created_entry path tr tr' made in
      cleanup_of_entry env root path rest later not_slash not_here plain at

abbrev starts_with_dot : String → Bool
starts_with_dot String.[] = false
starts_with_dot (String.◌∷◌ c s) = code c == b'.'

not_under_dot : (rest : String) → starts_with ("mesh-" <> rest) "./" ≡ false
not_under_dot rest = elim (Bool-cases (starts_with ("mesh-" <> rest) "./")) [
  | inl under ↦
      let (more, same) = (starts_with_iff ("mesh-" <> rest) "./").0 under in
      absurd (
        false≢true (
          sym (ap starts_with_dot (cons-append "m" "esh-" rest))
          ∙ ap starts_with_dot (sym same)
          ∙ ap starts_with_dot (cons-append "." "/" more)))
  | inr apart ↦ apart
]

-- With the root `.` the cleanup refuses every directory that the manager made for a job, and removes
-- nothing: a cleaned path has no leading `./`. The condition is that os.MkdirTemp makes its directory
-- in the root, under the pattern's name with a random text at its end or in place of its last star.
pub cleanup_refuses_here :
    (env : Env) (job_id path : String) (tr tr' later : Trace)
    → MakesTemp env "."
    → create_job_work_dir env "." job_id tr ≡ (ok path, tr')
    → cleanup_job_work_dir env "." path later
      ≡ (some (message ("refusing to remove path outside temp root: " <> path)), later)
unfolding cleanup_job_work_dir clean elements push_elements push_element split
cleanup_refuses_here env job_id path tr tr' later temp made =
    let (rest, plain, at) = created_entry env "." job_id temp path tr tr' made in
    rw
      (
        at,
        clean-append "." ("mesh-" <> rest) refl (IsName-append rest plain),
        not_under_dot rest,
        cleanup_job_work_dir,
      )
      refl
