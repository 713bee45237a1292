-- ===== src/Storage/Handles.antt =====
-- That the client of internal/storage/s3.go closes what it opens.
use geul_asset_optimizer.Base.{String, Option, none, some, List, [], ◌∷◌, ◌≡◌, refl}
use geul_asset_optimizer.Effects.{
  Keeps, Keeps-bind, Keeps-ask, Keeps-call, Keeps-acquire, Keeps-pure,
}
use geul_asset_optimizer.Storage.{
  Env, Event, Trace, body_closed, delete, download, fetch, file_closed, file_made, file_opened,
  get_object_size, object_got, or_zero, put_file, save_body, upload, write_local,
}

-- What is open: the body of an object, or a file.
pub data Handle : Type 0 where
  body file : Handle

-- The open handles, the newest first; `none` if one was closed that is not the newest.
abbrev pub next_handles : Event → List Handle → Option (List Handle)
next_handles (object_got bucket key none) s = some (body ∷ s)
next_handles (file_made path none) s = some (file ∷ s)
next_handles (file_opened path none) s = some (file ∷ s)
next_handles body_closed (body ∷ s) = some s
next_handles body_closed _ = none
next_handles file_closed (file ∷ s) = some s
next_handles file_closed _ = none
next_handles _ s = some s

abbrev add_handles : Event → Option (List Handle) → Option (List Handle)
add_handles e none = none
add_handles e (some s) = next_handles e s

unfoldable pub handles : Trace → Option (List Handle)
handles [] = some []
handles (e ∷ tr) = add_handles e (handles tr)

module _ (env : Env) (bucket : String) where
  Keeps-save_body :
      (local_path : String) (s : List Handle)
      → Keeps handles (some s) (save_body env bucket local_path)
  unfolding save_body write_local handles
  Keeps-save_body local_path s =
      Keeps-acquire _ _ _ _ (some (file ∷ s)) (write_local env bucket) _ (λ e tr h. rw h refl)
        (λ tr h. rw h refl)
        (Keeps-bind _ _ (Keeps-ask _ _ _ _ _ (λ r tr h. rw h refl)) (λ n. Keeps-pure _ _ tt))
        (λ r tr h. rw h refl) _

  Keeps-fetch :
      (key local_path : String) (s : List Handle)
      → Keeps handles (some s) (fetch env bucket key local_path)
  unfolding fetch handles
  Keeps-fetch key local_path s =
      Keeps-acquire _ _ _ _ (some (body ∷ s)) (save_body env bucket local_path) _
        (λ e tr h. rw h refl) (λ tr h. rw h refl) (Keeps-save_body local_path (body ∷ s))
        (λ r tr h. rw h refl) _

  -- However a download ends, it has closed what it opened, and nothing else.
  pub Keeps-download :
      (key local_path : String) (s : List Handle)
      → Keeps handles (some s) (download env bucket key local_path)
  unfolding download handles
  Keeps-download key local_path s =
      Keeps-bind _ _ (Keeps-call _ _ _ _ _ (λ e tr h. rw h refl))
        (λ _. Keeps-fetch key local_path s)

  pub Keeps-upload :
      (key local_path content_type : String) (s : List Handle)
      → Keeps handles (some s) (upload env bucket key local_path content_type)
  unfolding upload put_file handles
  Keeps-upload key local_path content_type s =
      Keeps-acquire _ _ _ _ (some (file ∷ s)) (put_file env bucket key content_type) _
        (λ e tr h. rw h refl) (λ tr h. rw h refl)
        (Keeps-bind _ _ (Keeps-ask _ _ _ _ _ (λ r tr h. rw h refl))
          (λ n. Keeps-call _ _ _ _ _ (λ e tr h. rw h refl)))
        (λ r tr h. rw h refl) _

pub data Request : Type 0 where
  download_to : String → String → Request
  upload_from : String → String → String → Request
  delete_of : String → Request
  size_of : String → Request

module _ (env : Env) (bucket : String) where
  abbrev pub serve : Request → Trace → Trace
  serve (download_to key local_path) tr = (download env bucket key local_path tr).1
  serve (upload_from key local_path content_type) tr =
      (upload env bucket key local_path content_type tr).1
  serve (delete_of key) tr = (delete env bucket key tr).1
  serve (size_of key) tr = (get_object_size env bucket key tr).1

  unfoldable pub serve_all : List Request → Trace → Trace
  serve_all [] tr = tr
  serve_all (request ∷ requests) tr = serve_all requests (serve request tr)

  Keeps-delete : (key : String) (s : List Handle) → Keeps handles (some s) (delete env bucket key)
  unfolding delete handles
  Keeps-delete key s = Keeps-call _ _ _ _ _ (λ e tr h. rw h refl)

  Keeps-get_object_size :
      (key : String) (s : List Handle) → Keeps handles (some s) (get_object_size env bucket key)
  unfolding get_object_size handles
  Keeps-get_object_size key s =
      Keeps-bind _ _ (Keeps-ask _ _ _ _ _ (λ r tr h. rw h refl)) (λ n. Keeps-pure _ _ (or_zero n))

  serve-closes :
      (request : Request) (tr : Trace) → handles tr ≡ some [] → handles (serve request tr) ≡ some []
  serve-closes (download_to key local_path) tr h =
      (Keeps-download env bucket key local_path []).keeps tr h
  serve-closes (upload_from key local_path content_type) tr h =
      (Keeps-upload env bucket key local_path content_type []).keeps tr h
  serve-closes (delete_of key) tr h = (Keeps-delete key []).keeps tr h
  serve-closes (size_of key) tr h = (Keeps-get_object_size key []).keeps tr h

  serve_all-from :
      (requests : List Request) (tr : Trace)
      → handles tr ≡ some []
      → handles (serve_all requests tr) ≡ some []
  unfolding serve_all
  serve_all-from [] tr h = h
  serve_all-from (request ∷ requests) tr h =
      serve_all-from requests (serve request tr) (serve-closes request tr h)

  -- Whatever a client of the store is asked for and whatever fails, each object body and each file
  -- that it opened is closed exactly once, the newest first, and nothing stays open.
  pub serve_all-closes : (requests : List Request) → handles (serve_all requests []) ≡ some []
  unfolding handles
  serve_all-closes requests = serve_all-from requests [] refl
