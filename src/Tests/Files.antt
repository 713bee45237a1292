-- ===== src/Tests/Files.antt =====
-- The work directory manager on a small file system.
use mathlib.Core.Bool.{false≢true}
use geul_asset_optimizer.Base.{
  String, ◌<>◌, true, false, none, some, [], ◌∷◌, ◌≡◌, ◌≢◌, refl, ap, str_eq, List, ◌⊎◌, is_none,
  Bool,
}
use geul_asset_optimizer.Base.Text.{is_empty, split, contains_char}
use geul_asset_optimizer.Base.Text.Absent.{Lacks}
use geul_asset_optimizer.Base.FilePath.{clean, elements, push_elements, push_element, separator}
use geul_asset_optimizer.Errors.{Result, ok, err, message}
use geul_asset_optimizer.Workdir.{
  Env, DirEntry, removed, create_job_work_dir, cleanup_job_work_dir, sanitize,
}
use geul_asset_optimizer.Workdir.Names.{sanitize-one_element}
use geul_asset_optimizer.Workdir.Containment.{
  IsSplit, at_end, MakesTemp, cleanup_of_created, cleanup_refuses_here,
  cleanup_job_work_dir-contained,
}

abbrev entries : List DirEntry
entries =
    record { name = "mesh-a"; is_dir = true }
    ∷ record { name = "mesh-notes"; is_dir = false }
    ∷ record { name = "mesh-b"; is_dir = true }
    ∷ []

-- The directories of patterns without a star; the others cannot be made.
abbrev temp_path : String → String → Bool → Result String
temp_path root pattern true = err (message "no space left on device")
temp_path root pattern false = ok (root <> "/" <> pattern <> "42")

abbrev pub files : Env
files = record {
  mkdir_all = λ tr path. none;
  mkdir_temp = λ tr root pattern. temp_path root pattern (contains_char b'*' pattern);
  read_dir = λ tr root. ok entries;
  remove_all = λ tr path. none;
  is_not_exist = λ e. false;
}

temp_path-split :
    (root pattern path : String) (starred : Bool)
    → contains_char b'*' pattern ≡ starred
    → temp_path root pattern starred ≡ ok path
    → (before after random : String) × IsSplit pattern before after
      × Lacks b'/' random
      × (path ≡ root <> "/" <> before <> random <> after)
unfolding contains_char
temp_path-split root pattern path true h made = cc made
temp_path-split root pattern path false h made =
    (pattern, "", "42", at_end h refl refl, refl, cc made)

pub files-MakesTemp : (root : String) → MakesTemp files root
files-MakesTemp root = record {
  named = λ tr pattern path made. temp_path-split root pattern path _ refl made;
}

pub work_not_slash : clean "/tmp/work" ≢ "/"
unfolding clean elements push_elements push_element split
work_not_slash h = false≢true (ap (λ (s : String). str_eq s "/") h)

pub work_not_here : clean "/tmp/work" ≢ "."
unfolding clean elements push_elements push_element split
work_not_here h = false≢true (ap (λ (s : String). str_eq s ".") h)

sanitize-one_element_test : Lacks b'/' (sanitize "a/b") × (is_empty (sanitize "a/b") ≡ false)
sanitize-one_element_test = sanitize-one_element "a/b"

cleanup_of_created_test :
    cleanup_job_work_dir files "/tmp/work" "/tmp/work/mesh-j1-42" []
    ≡ (none, removed "/tmp/work/mesh-j1-42" none ∷ [])
unfolding create_job_work_dir sanitize contains_char
cleanup_of_created_test =
    cleanup_of_created files "/tmp/work" "j1" (files-MakesTemp "/tmp/work") "/tmp/work/mesh-j1-42"
      [] _ [] work_not_slash work_not_here refl

cleanup_refuses_here_example :
    cleanup_job_work_dir files "." "./mesh-j1-42" []
    ≡ (some (message ("refusing to remove path outside temp root: " <> "./mesh-j1-42")), [])
unfolding create_job_work_dir sanitize contains_char
cleanup_refuses_here_example =
    cleanup_refuses_here files "j1" "./mesh-j1-42" [] _ [] (files-MakesTemp ".") refl

cleanup_job_work_dir-contained_example :
    let (e, tr') = cleanup_job_work_dir files "/tmp/work" "/tmp/work/x" [] in
    ((rest : String) × (clean "/tmp/work/x" ≡ (clean "/tmp/work" <> separator) <> rest)
      × (e ≡ none)
      × (tr' ≡ removed "/tmp/work/x" e ∷ []))
    ⊎ ((is_none e ≡ false) × (tr' ≡ []))
cleanup_job_work_dir-contained_example =
    cleanup_job_work_dir-contained files "/tmp/work" "/tmp/work/x" []
