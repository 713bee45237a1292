-- ===== src/Storage.antt =====
-- internal/storage/s3.go: the client of the object store. The store, the files and the AWS library
-- are an environment, whose replies are functions of the calls so far.
pub mod Handles
pub mod Success
use geul_asset_optimizer.Base.{
  ◌==◌, String, ◌<>◌, Bool, Option, none, some, List, [], ◌∷◌, ◌≡◌, refl, if◌then◌else◌,
}
use Prim.Native.Char.{code}
use Prim.Native.String.{String as Text}
use geul_asset_optimizer.Base.Int.{ℤ, pos}
use geul_asset_optimizer.Base.Text.{is_empty}
use geul_asset_optimizer.Base.FilePath.{clean}
use geul_asset_optimizer.Errors.{Error, Result, ok}
use geul_asset_optimizer.Config.{Config}
use geul_asset_optimizer.Effects.{
  M, pure, ◌>>=◌, ◌>>◌, ask, call, deferring, Keeps, Keeps-bind, Keeps-ask, Keeps-call,
  Keeps-acquire, Keeps-pure,
}

pub data Event : Type 0 where
  config_loaded : String → String → String → Option Error → Event
  client_made : String → Bool → Event
  dir_made : String → Option Error → Event
  object_got : String → String → Option Error → Event
  file_made : String → Option Error → Event
  copied : Result ℤ → Event
  body_closed : Event
  file_opened : String → Option Error → Event
  file_statted : Result ℤ → Event
  object_put : String → String → String → ℤ → Option Error → Event
  file_closed : Event
  object_deleted : String → String → Option Error → Event
  object_headed : String → String → Result (Option ℤ) → Event

abbrev pub Trace : Type 0
Trace = List Event

pub record Env : Type 0 where
  -- `%q`
  pub quote : String → String
  -- `config.LoadDefaultConfig`, with the region and the static credentials
  pub load_default_config : Trace → String → String → String → Option Error
  pub mkdir_all : Trace → String → Option Error
  pub get_object : Trace → String → String → Option Error
  pub create_file : Trace → String → Option Error
  pub copy_stream : Trace → Result ℤ
  pub open_file : Trace → String → Option Error
  pub stat_file : Trace → Result ℤ
  pub put_object : Trace → String → String → String → ℤ → Option Error
  pub delete_object : Trace → String → String → Option Error
  pub head_object : Trace → String → String → Result (Option ℤ)

-- The path up to its last separator, with it.
unfoldable pub through_last_separator : String → String
through_last_separator Text.[] = ""
through_last_separator (Text.◌∷◌ c s) =
    let rest = through_last_separator s in
    if code c == b'/' then Text.◌∷◌ c rest else if is_empty rest then "" else Text.◌∷◌ c rest

-- `filepath.Dir`
unfoldable pub dir : String → String
unfolding through_last_separator
dir path = clean (through_last_separator path)

abbrev pub or_zero : Option ℤ → ℤ
or_zero none = pos 0
or_zero (some n) = n

module _ (env : Env) where
  -- The client is its bucket.
  unfoldable pub new_s3_client : Config → M Event String
  new_s3_client cfg =
      call "load AWS config: "
        (config_loaded cfg.s3_region cfg.s3_access_key_id cfg.s3_secret_access_key)
        (λ tr.
          env.load_default_config tr cfg.s3_region cfg.s3_access_key_id cfg.s3_secret_access_key)
      >>= λ _ tr. (ok cfg.s3_bucket, client_made cfg.s3_endpoint cfg.s3_force_path_style ∷ tr)

module _ (env : Env) (bucket : String) where
  unfoldable pub write_local : M Event (Unit {0})
  write_local = do written ← ask "write local file: " copied env.copy_stream; pure tt

  unfoldable pub save_body : String → M Event (Unit {0})
  unfolding write_local
  save_body local_path =
      call "create local file: " (file_made local_path) (λ tr. env.create_file tr local_path)
      >>= λ _. deferring write_local (λ r tr. file_closed ∷ tr)

  unfoldable pub fetch : String → String → M Event (Unit {0})
  unfolding save_body
  fetch key local_path =
      call ("get object " <> env.quote key <> ": ") (object_got bucket key)
        (λ tr. env.get_object tr bucket key)
      >>= λ _. deferring (save_body local_path) (λ r tr. body_closed ∷ tr)

  unfoldable pub download : String → String → M Event (Unit {0})
  unfolding fetch dir
  download key local_path = do
    call "create download directory: " (dir_made (dir local_path))
        (λ tr. env.mkdir_all tr (dir local_path))
    fetch key local_path

  unfoldable pub put_file : String → String → M Event (Unit {0})
  put_file key content_type = do
    size ← ask "stat upload file: " file_statted env.stat_file
    call ("put object " <> env.quote key <> ": ") (object_put bucket key content_type size)
        (λ tr. env.put_object tr bucket key content_type size)

  unfoldable pub upload : String → String → String → M Event (Unit {0})
  unfolding put_file
  upload key local_path content_type =
      call "open upload file: " (file_opened local_path) (λ tr. env.open_file tr local_path)
      >>= λ _. deferring (put_file key content_type) (λ r tr. file_closed ∷ tr)

  unfoldable pub delete : String → M Event (Unit {0})
  delete key =
      call ("delete object " <> env.quote key <> ": ") (object_deleted bucket key)
        (λ tr. env.delete_object tr bucket key)

  unfoldable pub get_object_size : String → M Event ℤ
  get_object_size key = do
    length ←
        ask ("head object " <> env.quote key <> ": ") (object_headed bucket key)
          (λ tr. env.head_object tr bucket key)
    pure (or_zero length)
