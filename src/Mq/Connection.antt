-- ===== src/Mq/Connection.antt =====
-- internal/mq/connection.go: opening the database, and the life of an open connection as steps of
-- the callers that share it. `Close` and `Healthy` each take two steps, since the flag is read, or
-- swapped, before the database is called.
use geul_asset_optimizer.Base.{
  ℕ, suc, ◌+◌, ◌-◌, ◌≤◌, String, Bool, true, false, Option, none, some, List, [], ◌∷◌, str_eq, ◌≡◌,
  refl, arith, if◌then◌else◌,
}
use geul_asset_optimizer.Errors.{one_if_ok, Error, message, wrap, ok, err}
use geul_asset_optimizer.Effects.{M}

pub data Event : Type 0 where
  opened : String → Option Error → Event
  limited : ℕ → ℕ → Event
  pinged : Option Error → Event
  closed : Option Error → Event

abbrev pub Trace : Type 0
Trace = List Event

pub record Env : Type 0 where
  pub open_postgres : Trace → String → Option Error
  pub ping : Trace → Option Error
  pub close_db : Trace → Option Error

module _ (env : Env) where
  unfoldable pub check_ping : Option Error → M Event (Unit {0})
  check_ping none tr = (ok tt, tr)
  check_ping (some e) tr =
      (err (wrap "connect to PostgreSQL: " e ""), closed (env.close_db tr) ∷ tr)

  unfoldable pub limit_and_ping : Option Error → M Event (Unit {0})
  unfolding check_ping
  limit_and_ping (some e) tr = (err (wrap "open PostgreSQL: " e ""), tr)
  limit_and_ping none tr =
      let e = env.ping (limited 4 2 ∷ tr) in check_ping e (pinged e ∷ limited 4 2 ∷ tr)

  unfoldable pub new_connection : String → M Event (Unit {0})
  unfolding limit_and_ping
  new_connection dsn tr =
      if str_eq dsn ""
      then (err (message "database DSN is required"), tr)
      else let e = env.open_postgres tr dsn in limit_and_ping e (opened dsn e ∷ tr)

  -- `Close` of one caller alone, by the flag before.
  unfoldable pub close : Bool → Trace → Option Error × Trace
  close true tr = (none, tr)
  close false tr = let e = env.close_db tr in (e, closed e ∷ tr)

-- The databases that the events have left open.
abbrev pub add_open : Event → ℕ → ℕ
add_open (opened dsn none) n = suc n
add_open (opened dsn (some e)) n = n
add_open (limited open_conns idle_conns) n = n
add_open (pinged e) n = n
add_open (closed e) n = n - 1

unfoldable pub open_databases : Trace → ℕ
open_databases [] = 0
open_databases (e ∷ tr) = add_open e (open_databases tr)

module _ (env : Env) where
  check_ping-open :
      (e : Option Error) (n : ℕ) (tr : Trace)
      → open_databases tr ≡ suc n
      → open_databases (check_ping env e (pinged e ∷ limited 4 2 ∷ tr)).1
        ≡ n + one_if_ok (check_ping env e (pinged e ∷ limited 4 2 ∷ tr)).0
  unfolding check_ping open_databases
  check_ping-open none n tr h = omega (arith, h)
  check_ping-open (some e) n tr h = omega (arith, h)

  opened_open :
      (dsn : String) (e : Option Error) (tr : Trace)
      → let r = limit_and_ping env e (opened dsn e ∷ tr) in
        open_databases r.1 ≡ open_databases tr + one_if_ok r.0
  unfolding limit_and_ping open_databases
  opened_open dsn none tr =
      check_ping-open (env.ping _) (open_databases tr) (opened dsn none ∷ tr) refl
  opened_open dsn (some e) tr = omega arith

  dialled_open :
      (b : Bool) (dsn : String) (tr : Trace)
      → let r =
          if b
          then (err (message "database DSN is required"), tr)
          else let e = env.open_postgres tr dsn in limit_and_ping env e (opened dsn e ∷ tr) in
        open_databases r.1 ≡ open_databases tr + one_if_ok r.0
  dialled_open true dsn tr = omega arith
  dialled_open false dsn tr = opened_open dsn (env.open_postgres tr dsn) tr

  -- A connection that is made has opened one database, and one that is refused has left none open.
  pub new_connection-open :
      (dsn : String) (tr : Trace)
      → let r = new_connection env dsn tr in open_databases r.1 ≡ open_databases tr + one_if_ok r.0
  unfolding new_connection
  new_connection-open dsn tr = dialled_open (str_eq dsn "") dsn tr

-- The flag, the callers of `Close` that swapped it and have not closed the database yet, the calls
-- of `db.Close`, and the callers of `Healthy` that found the flag down and have not pinged yet.
pub record State : Type 0 where
  pub closed : Bool
  pub closing : ℕ
  pub closes : ℕ
  pub probing : ℕ

abbrev pub open_state : State
open_state = record { closed = false; closing = 0; closes = 0; probing = 0 }

pub data Step : State → State → Type 0 where
  close_swapped :
      (s : State) → s.closed ≡ false → Step s (record s { closed = true; closing = suc s.closing })
  close_refused : (s : State) → s.closed ≡ true → Step s s
  db_closed :
      (s : State) (n : ℕ)
      → s.closing ≡ suc n
      → Step s (record s { closing = n; closes = suc s.closes })
  healthy_refused : (s : State) → s.closed ≡ true → Step s s
  healthy_checked : (s : State) → s.closed ≡ false → Step s (record s { probing = suc s.probing })
  db_pinged : (s : State) (n : ℕ) → s.probing ≡ suc n → Step s (record s { probing = n })

pub data Run : State → State → Type 0 where
  here : (s : State) → Run s s
  next : {s t u : State} → Run s t → Step t u → Run s u

-- The database has been closed, or is about to be, as often as the flag has been raised.
pub record IsSwapped (s : State) : Type 0 where
  pub swapped : s.closing + s.closes ≡ (if s.closed then 1 else 0)

Step-IsSwapped : {s t : State} → Step s t → IsSwapped s → IsSwapped t
Step-IsSwapped (close_swapped s h) w = ground (arith, w)
Step-IsSwapped (close_refused s h) w = w
Step-IsSwapped (db_closed s n h) w = ground (arith, w)
Step-IsSwapped (healthy_refused s h) w = w
Step-IsSwapped (healthy_checked s h) w = ground (arith, w)
Step-IsSwapped (db_pinged s n h) w = ground (arith, w)

Run-IsSwapped : {s t : State} → Run s t → IsSwapped s → IsSwapped t
Run-IsSwapped (here s) w = w
Run-IsSwapped (next r st) w = Step-IsSwapped st (Run-IsSwapped r w)

-- However its callers interleave, an open connection closes its database at most once, and only after
-- the flag is raised.
pub Run-closes_once : (s : State) → Run open_state s → s.closes ≤ (if s.closed then 1 else 0)
Run-closes_once s r = omega (arith, (Run-IsSwapped r (record { swapped = refl })).swapped)
