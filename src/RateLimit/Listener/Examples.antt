-- ===== src/RateLimit/Listener/Examples.antt =====
-- The listener at concrete steps: started, connected, its connection lost, and started again.
use snts_collectmind.Prelude.{[], refl}
use snts_collectmind.Registry.TenantConfig.{TtlCache}
use snts_collectmind.RateLimit.Listener.{
  Listener, new_listener, start, connected, lost, start_called,
}
use snts_collectmind.RateLimit.Listener.Dropped.{Runs, here, next, IsDeaf, IsDeaf-after_loss}

abbrev empty_cache : TtlCache
empty_cache = record { ttl = 5; capacity = 2; entries = [] }

abbrev listening : Listener
listening = connected (start (new_listener empty_cache))

started_again : Runs (lost listening) (start (lost listening))
unfolding start connected lost
started_again = next here (start_called refl) refl

IsDeaf-after_loss_example : IsDeaf listening (start (lost listening))
unfolding start connected
IsDeaf-after_loss_example =
    IsDeaf-after_loss listening (start (lost listening)) refl refl started_again
