-- ===== src/RateLimit/Listener/Backoff.antt =====
-- How long the listener waits between attempts.
use native.Mathlib.Numerals.{unary_clauses}
use snts_collectmind.Prelude.{
  ℕ, zero, suc, ◌*◌, ◌^◌, ◌≤◌, Bool, true, false, Option, none, some, min, ◌≡◌, refl, ap, ◌∙◌,
  arith, String, ◌==◌, Bool-cases, inl, inr, if◌then◌else◌,
}
use snts_collectmind.Registry.TenantConfig.{TtlCache}
use snts_collectmind.RateLimit.Listener.{
  Listener, Phase, no_task, connecting, parked, sleeping, Connection, opened, closed, new_listener,
  start, start_from, stop, closed_conn, connected, attempt_failed, woken, on_notify, lost, Step,
  start_called, stop_called, connects, connect_raises, add_listener_raises, wakes, notified, loses,
  Reach, here, next,
}

-- The wait is between 1 and 30 seconds, and no connection is open while the task sleeps or there
-- is none.
abbrev pub Quiet : Phase → Option Connection → Type 0
Quiet no_task (some opened) = ⊥
Quiet sleeping (some opened) = ⊥
Quiet _ _ = Unit

pub record IsSound (l : Listener) : Type 0 where
  pub low : 1 ≤ l.backoff
  pub high : l.backoff ≤ 30
  pub quiet : Quiet l.phase l.conn

start_from-IsSound : (p : Phase) (l : Listener) → l.phase ≡ p → IsSound l → IsSound (start_from p l)
start_from-IsSound no_task l e h = record { low = omega arith; high = omega arith; quiet = tt }
start_from-IsSound connecting l e h = h
start_from-IsSound parked l e h = h
start_from-IsSound sleeping l e h = h

closed_conn-Quiet : (p : Phase) (c : Option Connection) → Quiet p (closed_conn c)
closed_conn-Quiet no_task (some opened) = tt
closed_conn-Quiet no_task (some closed) = tt
closed_conn-Quiet no_task none = tt
closed_conn-Quiet connecting c = tt
closed_conn-Quiet parked c = tt
closed_conn-Quiet sleeping (some opened) = tt
closed_conn-Quiet sleeping (some closed) = tt
closed_conn-Quiet sleeping none = tt

closed-Quiet : (p : Phase) → Quiet p (some closed)
closed-Quiet no_task = tt
closed-Quiet connecting = tt
closed-Quiet parked = tt
closed-Quiet sleeping = tt

woken-Quiet :
    (b : Bool) (p : Phase) (c : Option Connection)
    → p ≡ sleeping
    → Quiet p c
    → Quiet (if b then no_task else connecting) c
woken-Quiet false p c e h = tt
woken-Quiet true p none e h = tt
woken-Quiet true p (some closed) e h = tt
woken-Quiet true p (some opened) e h = rw e at h

min-le : (a b : ℕ) → min a b ≤ b
min-le a b = ground arith

le-min : (n a b : ℕ) → n ≤ a → n ≤ b → n ≤ min a b
le-min n a b h k = ground arith

on_notify-kept :
    (payload : String) (l : Listener)
    → ((on_notify payload l).phase ≡ l.phase)
      × ((on_notify payload l).conn ≡ l.conn)
      × ((on_notify payload l).backoff ≡ l.backoff)
unfolding on_notify
on_notify-kept payload l = elim (Bool-cases (payload == "")) [
  | inl e ↦ rw e (refl, refl, refl)
  | inr e ↦ rw e (refl, refl, refl)
]

Step-IsSound : (l m : Listener) → Step l m → IsSound l → IsSound m
unfolding start stop connected attempt_failed woken lost
Step-IsSound l m (start_called e) h = rw e (start_from-IsSound l.phase l refl h)
Step-IsSound l m (stop_called e) h =
    rw e (record { low = h.low; high = h.high; quiet = closed_conn-Quiet no_task l.conn })
Step-IsSound l m (connects c e) h =
    rw e (record { low = omega arith; high = omega arith; quiet = tt })
Step-IsSound l m (connect_raises c e) h =
    rw e (record { low = h.low; high = h.high; quiet = closed_conn-Quiet sleeping l.conn })
Step-IsSound l m (add_listener_raises attempt c e) h =
    rw e (record { low = h.low; high = h.high; quiet = closed_conn-Quiet sleeping (some attempt) })
Step-IsSound l m (wakes c e) h = rw e (record {
  low = le-min 1 (l.backoff * 2) 30 (omega (arith, h.low)) (omega arith);
  high = min-le (l.backoff * 2) 30;
  quiet = woken-Quiet l.stopping l.phase l.conn c h.quiet;
})
Step-IsSound l m (notified payload c e) h =
    let k = on_notify-kept payload l in
    rw e (record {
      low = omega (arith, h.low, k.2);
      high = omega (arith, h.high, k.2);
      quiet = rw (k.0, k.1) h.quiet;
    })
Step-IsSound l m (loses c e) h =
    rw e (record { low = h.low; high = h.high; quiet = closed-Quiet l.phase })

-- From the start, whatever is called and whatever fails, in any order: the wait is between 1 and 30
-- seconds, and while the listener sleeps or is stopped it holds no open connection.
pub Reach-IsSound : (cache : TtlCache) (l : Listener) → Reach (new_listener cache) l → IsSound l
Reach-IsSound cache l here = record { low = omega arith; high = omega arith; quiet = tt }
Reach-IsSound cache l (next {m = m} reach step) =
    Step-IsSound m l step (Reach-IsSound cache m reach)

capped : (a : ℕ) → min (min a 30 * 2) 30 ≡ min (a * 2) 30
capped a = ground arith

pow_suc : (n : ℕ) → 2 ^ n * 2 ≡ 2 ^ suc n
pow_suc n = simp unary_clauses (omega arith)

-- An attempt that fails, and the wait after it.
abbrev pub retried : Listener → Listener
retried l = woken (attempt_failed l.conn l)

abbrev pub retries : ℕ → Listener → Listener
retries zero l = l
retries (suc n) l = retried (retries n l)

-- After any number of failed attempts in a row from a fresh start, the next wait is two to that
-- power, at most 30 seconds.
pub backoff_doubles :
    (n : ℕ) (cache : TtlCache) → (retries n (start (new_listener cache))).backoff ≡ min (2 ^ n) 30
unfolding start woken attempt_failed
backoff_doubles zero cache = refl
backoff_doubles (suc n) cache =
    ap (λ b. min (b * 2) 30) (backoff_doubles n cache)
    ∙ capped (2 ^ n)
    ∙ ap (λ b. min b 30) (pow_suc n)
