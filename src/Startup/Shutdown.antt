-- ===== src/Startup/Shutdown.antt =====
-- cmd/server/main.go: from the signal to the end of the process.
use shortlink_system.Base.{◌≡◌, refl, none, some, Bool, false, if◌then◌else◌}
use shortlink_system.Redis.{Redis}
use shortlink_system.OutboxWorker.{stop}
use shortlink_system.Queue.{Closing, close}
use shortlink_system.Startup.{Process}

-- How the process ends. `aborted` is `log.Fatalf`, which runs no deferred call; `closed` is the return
-- of `main`, with what the deferred `mqClient.Close` has closed.
pub data Shutdown : Type 0 where
  aborted : Shutdown
  panicked : Shutdown
  closed : Closing → Shutdown

-- `shuts_down` says whether `srv.Shutdown` returns without an error within its five seconds, the
-- others whether the channel and the connection of the broker can be closed. `stopped` is the state of
-- `stopCh`.
unfoldable pub shutdown : (r : Redis) → Bool → Bool → Bool → Bool → Process r → Shutdown
unfolding stop close
shutdown r shuts_down channel_closes conn_closes stopped p =
    if shuts_down
    then (elim (stop stopped) [
      | none ↦ panicked
      | some _ ↦ closed (close channel_closes conn_closes p.mq_client)
    ])
    else aborted

-- A server that does not shut down in time leaves the worker and the broker as they are.
shutdown-aborted :
    (r : Redis) (channel_closes conn_closes stopped : Bool) (p : Process r)
    → shutdown r false channel_closes conn_closes stopped p ≡ aborted
unfolding shutdown
shutdown-aborted r channel_closes conn_closes stopped p = refl
