-- ===== src/Core/Handle.antt =====
-- `handle` of the server: one connection of the worker from its first request to its end
-- (device/core/src/server.rs). The time-outs, the shutdown signal, the monitor of the connection and
-- the lock are answers of the surroundings; the descriptor that the monitor needs is there.
use donkeywork_desktop.Base.{
  ℕ, zero, suc, Bool, false, not, Option, none, some, List, if◌then◌else◌,
}
use donkeywork_desktop.Core.Types.{Core, Backend, Connection, Request, Reply, Frame}
use donkeywork_desktop.Core.Lifecycle.{disconnect}
use donkeywork_desktop.Core.Requests.{Env}
use donkeywork_desktop.Core.Screen.{Shutter}
use donkeywork_desktop.Core.Process.{process}

pub record Surroundings (X B : Type 0) : Type 0 where
  -- The next request: none at a shutdown, after 30 seconds, or where the read fails.
  pub receive : X → X × Option Request
  -- Whether the lock is taken: not where another thread failed inside it.
  pub locked : X → X × Bool
  -- What other connections did to the worker before the lock was taken.
  pub meanwhile : X → Core B → Core B
  pub environment : X → X × (Env × Shutter)
  -- The flag that the monitor sets.
  pub is_cancelled : X → X × Bool
  -- Whether the reply was written within 5 seconds.
  pub send : Reply → X → X × Bool
  pub now : X → X × ℕ
  -- The schema, the equality of requests, and the PNG encoder.
  pub is_valid : Request → Bool
  pub is_same : Request → Request → Bool
  pub encode_png : Frame → Option (List (List ℕ))

module _ {X B : Type 0} ⦃K : Backend B⦄ (U : Surroundings X B) (connection : Connection) where
  -- The surroundings, the worker, and whether the loop goes on.
  pub record Handled : Type 0 where
    pub world : X
    pub core : Core B
    pub goes_on : Bool

  -- The reply is sent unless the connection was cancelled.
  abbrev pub answer_with : X × Bool → Core B × Reply → Handled
  answer_with (x, cancelled) (c, reply) =
      if cancelled
      then record { world = x; core = c; goes_on = false }
      else record { world = (U.send reply x).0; core = c; goes_on = (U.send reply x).1 }

  abbrev pub process_with : X × (Env × Shutter) → Request → Core B → Handled
  process_with (x, (env, shutter)) request c =
      answer_with (U.is_cancelled x)
        (process U.is_valid U.is_same U.encode_png env shutter connection request c)

  -- Under the lock, if it is taken.
  abbrev pub serve_locked : X × Bool → Request → Core B → Handled
  serve_locked (x, taken) request c =
      if not taken
      then record { world = x; core = U.meanwhile x c; goes_on = false }
      else process_with (U.environment x) request (U.meanwhile x c)

  abbrev pub serve_request : X × Option Request → Core B → Handled
  serve_request (x, none) c = record { world = x; core = c; goes_on = false }
  serve_request (x, some request) c = serve_locked (U.locked x) request c

  -- The loop, for a number of rounds.
  unfoldable pub serve_requests : ℕ → X → Core B → X × Core B
  serve_requests zero x c = (x, c)
  serve_requests (suc rounds) x c =
      let h = serve_request (U.receive x) c in
      let rest = serve_requests rounds h.world h.core in
      if h.goes_on then rest else (h.world, h.core)

  -- The end of every connection, however the loop was left.
  abbrev pub depart_locked : X × Bool → Core B → X × Core B
  depart_locked (x, taken) c =
      if not taken
      then (x, U.meanwhile x c)
      else ((U.now x).0, disconnect connection (U.now x).1 (U.meanwhile x c))

  unfoldable pub handle : ℕ → X → Core B → X × Core B
  handle rounds x c =
      let served = serve_requests rounds x c in depart_locked (U.locked served.0) served.1
