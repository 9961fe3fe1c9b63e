-- ===== src/Connection/Work.antt =====
-- `connection::filter` and `connection::work` of bsd/connection.cc: one round of a worker.
pub mod Balance
pub mod Frame
pub mod Events
use librascal.Prelude.{
  ℕ, Bool, true, false, ◌&&◌, ◌||◌, not, Option, none, some, ltb, ◌==◌, if◌then◌else◌,
}
use librascal.Object.{incref, less_one, kills}
use librascal.Connection.{Connection, ◌>>=◌, need_to_write}

-- `if (msec == 0 || msec > 100) msec = 100;`
abbrev pub delay : ℕ → ℕ
delay msec = if (msec == 0) || ltb 100 msec then 100 else msec

-- What `select` says of a connection's socket: a failed `getsockopt` with what psec then holds, for
-- a socket in `exs`; and whether it is in `rds` and in `wrs`.
pub record Ready : Type 0 where
  pub failed : Option ℕ
  pub readable : Bool
  pub writable : Bool

-- The handlers of a connection, by its class.
pub record Handlers : Type 0 where
  pub on_failure : ℕ → Connection → Option Connection
  pub on_readable : Connection → Option Connection
  pub on_writable : Connection → Option Connection

-- `conn->selected = false; conn->decref();`: whether that deletes it, and what it leaves.
abbrev pub let_go : Connection → Bool × Connection
let_go c = (kills c.object, record c { selected = false; object = less_one c.object })

-- `if (!conn->is_cancelled() && FD_ISSET(…)) handler`
abbrev pub unless_cancelled :
    Bool → (Connection → Option Connection) → Connection → Option Connection
unless_cancelled ready handler c = if not c.object.cancelled && ready then handler c else some c

-- The body of the loop over the connections picked, `rc` being what `select` returned. A socket is
-- in `wrs` only if it was put there.
unfoldable pub serve : Handlers → ℕ → Ready → Connection → Option (Bool × Connection)
serve h rc ready c =
    let asked = need_to_write c in
    let handled : Option Connection = elim ready.failed [
      | some psec ↦ h.on_failure psec c
      | none ↦ do
        c' ← unless_cancelled ready.readable h.on_readable c
        unless_cancelled (asked && ready.writable) h.on_writable c'
    ] in
    (if rc == 0 then some c else handled) >>= (λ (c' : Connection). some (let_go c'))

-- `connection::filter` at a connection, where `pulse` is `on_pulse`: whether it is picked.
unfoldable pub pick : (Connection → Option Connection) → Connection → Option (Bool × Connection)
pick pulse c =
    let picked : Option (Bool × Connection) = pulse c >>= (λ (c' : Connection).
      some (true, record c' { object = incref c'.object; selected = true })) in
    if c.object.cancelled || c.selected then some (false, c) else picked

-- What `work` does to a connection of the table: it may be passed by, picked and, as `select`
-- failed, left alone; or picked and served, and then deleted or not.
pub data Worked : Type 0 where
  passed : Connection → Worked
  left : Connection → Worked
  served : (deleted : Bool) → Connection → Worked

-- `connection::work` at one of the connections that it comes to; `status` is what `select` returns,
-- none for -1.
unfoldable pub work_one :
    (Connection → Option Connection) → Handlers → Option ℕ → Ready → Connection → Option Worked
work_one pulse h status ready c = do
  (picked, c') ← pick pulse c
  (if not picked then some (passed c') else elim status [
    | none ↦ some (left c')
    | some rc ↦ serve h rc ready c' >>= (λ (r : Bool × Connection). some (served (r.0) (r.1)))
  ])
