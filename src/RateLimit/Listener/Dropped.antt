-- ===== src/RateLimit/Listener/Dropped.antt =====
-- What follows when the connection of the listener is lost.
use snts_collectmind.Prelude.{some, ◌≡◌, refl, ap, ◌∙◌, arith, false}
use snts_collectmind.RateLimit.Listener.{
  Listener, parked, closed, start, start_from, stop, lost, Step, start_called, stop_called,
  connects, connect_raises, add_listener_raises, wakes, notified, loses,
}

-- Steps that are no call of `stop`.
pub data Runs (l : Listener) : Listener → Type 0 where
  here : Runs l l
  next : {m n : Listener} → Runs l m → Step m n → n.stopping ≡ m.stopping → Runs l n

-- The task is parked, its connection is closed, and the cache is that one.
pub record IsDeaf (l m : Listener) : Type 0 where
  pub phase : m.phase ≡ parked
  pub conn : m.conn ≡ some closed
  pub cache : m.cache ≡ l.cache
  pub stopping : m.stopping ≡ l.stopping

lost-IsDeaf : (l : Listener) → l.phase ≡ parked → IsDeaf l (lost l)
unfolding lost
lost-IsDeaf l e = record { phase = e; conn = refl; cache = refl; stopping = refl }

parked-start : (m : Listener) → m.phase ≡ parked → start m ≡ m
unfolding start
parked-start m e = ap (λ p. start_from p m) e

Step-IsDeaf :
    (l m n : Listener)
    → l.stopping ≡ false
    → IsDeaf l m
    → Step m n
    → n.stopping ≡ m.stopping
    → IsDeaf l n
Step-IsDeaf l m n f d (start_called e) k = rw (e ∙ parked-start m d.phase) d
Step-IsDeaf l m n f d (stop_called e) k =
    absurd (unfold stop in ground (arith, ap (λ x. x.stopping) e, d.stopping))
Step-IsDeaf l m n f d (connects c e) k = absurd (ground (arith, d.phase))
Step-IsDeaf l m n f d (connect_raises c e) k = absurd (ground (arith, d.phase))
Step-IsDeaf l m n f d (add_listener_raises attempt c e) k = absurd (ground (arith, d.phase))
Step-IsDeaf l m n f d (wakes c e) k = absurd (ground (arith, d.phase))
Step-IsDeaf l m n f d (notified payload c e) k = absurd (ground (arith, d.conn))
Step-IsDeaf l m n f d (loses c e) k = absurd (ground (arith, d.conn))

-- Once a parked listener has lost its connection, it stays parked with the connection closed,
-- and no notification reaches the cache any more, whatever happens until `stop` is called.
pub IsDeaf-after_loss :
    (l m : Listener) → l.phase ≡ parked → l.stopping ≡ false → Runs (lost l) m → IsDeaf l m
IsDeaf-after_loss l m p f here = lost-IsDeaf l p
IsDeaf-after_loss l m p f (next {m = q} runs step k) =
    Step-IsDeaf l q m f (IsDeaf-after_loss l q p f runs) step k
