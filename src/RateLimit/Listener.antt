-- ===== src/RateLimit/Listener.antt =====
-- src/collectmind/ratelimit/config_cache.py: TenantConfigCacheConsumer as a relation between its
-- states. Seconds are numbers.
pub mod Backoff
pub mod Dropped
mod Examples
use snts_collectmind.Prelude.{
  ℕ, ◌*◌, ◌≤◌, Bool, true, false, Option, none, some, String, min, if◌then◌else◌, ◌==◌, ◌≡◌,
}
use snts_collectmind.Registry.TenantConfig.{TtlCache, invalidate}

-- Where the task is: there is none; it connects; it is parked on an event that nobody sets; it
-- sleeps after an exception.
pub data Phase : Type 0 where
  no_task connecting parked sleeping : Phase

pub data Connection : Type 0 where
  opened closed : Connection

pub record Listener : Type 0 where
  pub phase : Phase
  pub conn : Option Connection
  pub stopping : Bool
  pub backoff : ℕ
  pub cache : TtlCache

abbrev pub new_listener : TtlCache → Listener
new_listener cache = record {
  phase = no_task;
  conn = none;
  stopping = false;
  backoff = 1;
  cache = cache;
}

-- if self._task is not None: return
abbrev pub start_from : Phase → Listener → Listener
start_from no_task l = record l { phase = connecting; stopping = false; backoff = 1 }
start_from _ l = l

unfoldable pub start : Listener → Listener
start l = start_from l.phase l

-- if self._conn is not None and not self._conn.is_closed()
abbrev pub closed_conn : Option Connection → Option Connection
closed_conn (some opened) = none
closed_conn (some closed) = some closed
closed_conn none = none

unfoldable pub stop : Listener → Listener
stop l = record l { phase = no_task; conn = closed_conn l.conn; stopping = true }

-- Both calls of the try block return.
unfoldable pub connected : Listener → Listener
connected l = record l { phase = parked; conn = some opened; backoff = 1 }

-- One of them raises: connect with the old connection still there, or add_listener with the new
-- one. `attempt` is the connection at that time.
unfoldable pub attempt_failed : Option Connection → Listener → Listener
attempt_failed attempt l = record l { phase = sleeping; conn = closed_conn attempt }

-- await asyncio.sleep(backoff), the doubling, and the test of the loop.
unfoldable pub woken : Listener → Listener
woken l = record l {
  phase = if l.stopping then no_task else connecting;
  backoff = min (l.backoff * 2) 30;
}

-- _on_notify
unfoldable pub on_notify : String → Listener → Listener
on_notify payload l = if payload == "" then l else record l { cache = invalidate payload l.cache }

-- The connection is lost: nobody sets the event, so the task stays where it is.
unfoldable pub lost : Listener → Listener
lost l = record l { conn = some closed }

pub data Step (l m : Listener) : Type 0 where
  start_called : m ≡ start l → Step l m
  stop_called : m ≡ stop l → Step l m
  connects : l.phase ≡ connecting → m ≡ connected l → Step l m
  connect_raises : l.phase ≡ connecting → m ≡ attempt_failed l.conn l → Step l m
  add_listener_raises :
      (attempt : Connection) → l.phase ≡ connecting → m ≡ attempt_failed (some attempt) l → Step l m
  wakes : l.phase ≡ sleeping → m ≡ woken l → Step l m
  notified : (payload : String) → l.conn ≡ some opened → m ≡ on_notify payload l → Step l m
  loses : l.conn ≡ some opened → m ≡ lost l → Step l m

pub data Reach (l : Listener) : Listener → Type 0 where
  here : Reach l l
  next : {m n : Listener} → Reach l m → Step m n → Reach l n
