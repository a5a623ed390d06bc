-- ===== src/Server/Steps.antt =====
-- The control plane as a step relation: whatever may happen to it, in any order and at any time.
pub mod Ownership
pub mod Everywhere
pub mod Backoff
pub mod Shape
use meshezia.Common.{ℕ, ◌≤◌, Text, Bool, Option, some, ◌≡◌, List}
use meshezia.Shared.Types.{NegotiateMessage, ForceMode}
use meshezia.Shared.Protocol.{Utf8}
use meshezia.Server.Db.{Db}
use meshezia.Server.State.{Timer, Server}
use meshezia.Server.Negotiate.Force.{handle_force_mode}
use meshezia.Server.Negotiate.Router.{stale_sweep, fire}
use meshezia.Server.Relay.{ws_open, ws_text, ws_binary, ws_close, heartbeat}
use meshezia.Server.Reaper.{reap}

-- One event: a socket opens, sends or closes, a timer that is due goes off, an interval's callback
-- runs, the administrator forces a mode, or a request changes the database in any way.
pub data Step (utf8 : Utf8) (s : Server) : Server → Type 0 where
  open_socket : (peer_id : Text) (ws : ℕ) → Step utf8 s (ws_open peer_id ws s)
  text :
      (now : ℕ) (peer_id : Text) (msg : Option NegotiateMessage)
      → Step utf8 s (ws_text now peer_id msg s)
  binary : (peer_id : Text) (msg : List ℕ) → Step utf8 s (ws_binary utf8 peer_id msg s)
  close_socket : (peer_id : Text) (ws : ℕ) → Step utf8 s (ws_close peer_id ws s)
  timer :
      (now i : ℕ) (t : Timer) → s.probes.timers i ≡ some t → t.due ≤ now → Step utf8 s (fire i t s)
  sweep : (now : ℕ) → Step utf8 s (stale_sweep now s)
  beat : Step utf8 s (heartbeat s)
  reaper : (now : ℕ) (commits : Bool) → Step utf8 s (reap now commits s)
  force :
      (peer_a peer_b : Text) (mode : ForceMode)
      → Step utf8 s (handle_force_mode peer_a peer_b mode s)
  request : (db : Db) → Step utf8 s (record s { db = db })

pub data Reach (utf8 : Utf8) (s : Server) : Server → Type 0 where
  here : Reach utf8 s s
  next : {t u : Server} → Reach utf8 s t → Step utf8 t u → Reach utf8 s u
