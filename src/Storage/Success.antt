-- ===== src/Storage/Success.antt =====
-- internal/storage/s3.go: the calls behind a transfer that succeeds.
use geul_asset_optimizer.Base.{String, Option, none, some, List, ◌∷◌, ◌≡◌, refl}
use geul_asset_optimizer.Base.Int.{ℤ}
use geul_asset_optimizer.Errors.{Error, Result, ok, err}
use geul_asset_optimizer.Effects.{M, ◌>>=◌, ask, call, deferring, continue, as_result, with_prefix}
use geul_asset_optimizer.Storage.{
  dir_made, object_got, file_made, file_opened, file_statted, Trace, Env, dir, write_local,
  save_body, fetch, download, put_file, upload,
}

module _ {E B : Type 0} (before : String) (tr : List E) (b : B) where
  -- What a call that went well hands to the rest.
  pub called_ok :
      (event : Option Error → E) (reply : List E → Option Error) (f : Unit {0} → M E B)
      → ((call before event reply >>= f) tr).0 ≡ ok b
      → (reply tr ≡ none) × ((f tt (event none ∷ tr)).0 ≡ ok b)
  unfolding ◌>>=◌ call
  called_ok event reply f h = answered_ok (reply tr) h
    where
      answered_ok :
          (e : Option Error)
          → (continue (with_prefix before (as_result e)) f (event e ∷ tr)).0 ≡ ok b
          → (e ≡ none) × ((f tt (event none ∷ tr)).0 ≡ ok b)
      answered_ok none h = (refl, h)
      answered_ok (some e) h = cc

  pub asked_ok :
      {A : Type 0} (event : Result A → E) (reply : List E → Result A) (f : A → M E B)
      → ((ask before event reply >>= f) tr).0 ≡ ok b
      → (a : A) × (reply tr ≡ ok a) × ((f a (event (ok a) ∷ tr)).0 ≡ ok b)
  unfolding ◌>>=◌ ask
  asked_ok {A} event reply f h = answered_ok (reply tr) h
    where
      answered_ok :
          (r : Result A)
          → (continue (with_prefix before r) f (event r ∷ tr)).0 ≡ ok b
          → (a : A) × (r ≡ ok a) × ((f a (event (ok a) ∷ tr)).0 ≡ ok b)
      answered_ok (ok a) h = (a, refl, h)
      answered_ok (err e) h = cc

last_ok :
    (before : String) (e : Option Error) (u : Unit {0})
    → with_prefix before (as_result e) ≡ ok u
    → e ≡ none
last_ok before none u h = refl
last_ok before (some e) u h = cc

module _ (env : Env) (bucket : String) where
  -- The object was got, the file was made, and the one was copied to the other.
  pub record IsFetched (key local_path : String) (tr : Trace) : Type 0 where
    pub got : env.get_object (dir_made (dir local_path) none ∷ tr) bucket key ≡ none
    pub made :
        env.create_file
          (object_got bucket key none ∷ dir_made (dir local_path) none ∷ tr)
          local_path
        ≡ none
    pub written : ℤ
    pub copy :
        env.copy_stream (
          file_made local_path none
          ∷ object_got bucket key none
          ∷ dir_made (dir local_path) none
          ∷ tr)
        ≡ ok written

  -- The file was opened and measured, and put under the key with its type and size.
  pub record IsStored (key local_path content_type : String) (tr : Trace) : Type 0 where
    pub opened : env.open_file tr local_path ≡ none
    pub size : ℤ
    pub measured : env.stat_file (file_opened local_path none ∷ tr) ≡ ok size
    pub stored :
        env.put_object
          (file_statted (ok size) ∷ file_opened local_path none ∷ tr)
          bucket
          key
          content_type
          size
        ≡ none

  pub download-IsFetched :
      (key local_path : String) (tr : Trace)
      → (download env bucket key local_path tr).0 ≡ ok tt
      → IsFetched key local_path tr
  unfolding download fetch save_body write_local deferring
  download-IsFetched key local_path tr h =
      let (prepared, h1) = called_ok _ tr tt _ _ _ h in
      let (got, h2) = called_ok _ _ tt _ _ _ h1 in
      let (made, h3) = called_ok _ _ tt _ _ _ h2 in
      let (written, copy, done) = asked_ok _ _ tt _ _ _ h3 in
      record { got = got; made = made; written = written; copy = copy }

  pub upload-IsStored :
      (key local_path content_type : String) (tr : Trace)
      → (upload env bucket key local_path content_type tr).0 ≡ ok tt
      → IsStored key local_path content_type tr
  unfolding upload put_file deferring call
  upload-IsStored key local_path content_type tr h =
      let (opened, h1) = called_ok _ tr tt (file_opened local_path) _ _ h in
      let (size, measured, h2) = asked_ok _ _ tt file_statted _ _ h1 in
      record { opened = opened; size = size; measured = measured; stored = last_ok _ _ tt h2 }
