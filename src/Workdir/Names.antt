-- ===== src/Workdir/Names.antt =====
-- The names that a job id becomes.
use geul_asset_optimizer.Base.{ℕ, String, ◌≡◌, refl, false, arith}
use geul_asset_optimizer.Base.Text.{is_empty, contains_char, trim_char}
use geul_asset_optimizer.Base.Text.Absent.{Lacks, Lacks-trim_char}
use geul_asset_optimizer.Workdir.{or_job, replace_special, sanitize}

Lacks-replace_special : (s : String) → Lacks b'/' (replace_special s)
unfolding replace_special contains_char
Lacks-replace_special String.[] = refl
Lacks-replace_special (String.◌∷◌ c s) = ground (arith, Lacks-replace_special s)

Lacks-or_job : (d : ℕ) (s : String) → Lacks d "job" → Lacks d s → Lacks d (or_job s)
Lacks-or_job d String.[] hj h = hj
Lacks-or_job d (String.◌∷◌ c s) hj h = h

or_job-not_empty : (s : String) → is_empty (or_job s) ≡ false
or_job-not_empty String.[] = refl
or_job-not_empty (String.◌∷◌ c s) = refl

-- A sanitized job id is a single path element: it has no separator and is not empty.
pub sanitize-one_element :
    (job_id : String) → Lacks b'/' (sanitize job_id) × (is_empty (sanitize job_id) ≡ false)
unfolding sanitize contains_char
sanitize-one_element job_id =
    let special = replace_special job_id in
    (
      Lacks-or_job b'/' (trim_char b'-' special) refl
          (Lacks-trim_char b'-' b'/' special (Lacks-replace_special job_id)),
      or_job-not_empty (trim_char b'-' special),
    )
