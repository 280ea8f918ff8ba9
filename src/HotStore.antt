-- ===== src/HotStore.antt =====
-- src/collectmind/redis/client.py: the keys of the hot store, and its reads and writes by tenant.
pub mod Keys
mod Examples
use snts_collectmind.Prelude.{Option, none, some, List, [], ◌∷◌, ◌++◌, Text, ◌⊎◌, inl, inr}
use snts_collectmind.Prelude.Dict.{lookup, insert, text_key}

-- f"{tenant_id}:{vehicle_id}:{signal_name}"
unfoldable pub hot_store_key : Text → Text → Text → Text
hot_store_key tenant_id vehicle_id signal_name =
    tenant_id ++ (b':' ∷ (vehicle_id ++ (b':' ∷ signal_name)))

-- What is raised: the client is not connected, or the call is of the API without tenants.
pub data HotStoreError : Type 0 where
  not_initialized legacy_key_shape : HotStoreError

-- The values that Redis holds and that have not expired; none before `connect`.
pub record HotStore : Type 0 where
  pub client : Option (List (Text × Text))

abbrev pub put_at : Text → Text → Option (List (Text × Text)) → HotStoreError ⊎ HotStore
put_at key value none = inl not_initialized
put_at key value (some values) = inr (record { client = some (insert key value values) })

unfoldable pub put_signal_for_tenant :
    Text → Text → Text → Text → HotStore → HotStoreError ⊎ HotStore
unfolding insert
put_signal_for_tenant tenant_id vehicle_id signal_name value store =
    put_at (hot_store_key tenant_id vehicle_id signal_name) value store.client

abbrev pub get_at : Text → Option (List (Text × Text)) → HotStoreError ⊎ Option Text
get_at key none = inl not_initialized
get_at key (some values) = inr (lookup key values)

unfoldable pub get_signal_for_tenant : Text → Text → Text → HotStore → HotStoreError ⊎ Option Text
unfolding lookup
get_signal_for_tenant tenant_id vehicle_id signal_name store =
    get_at (hot_store_key tenant_id vehicle_id signal_name) store.client

-- get_signal and put_signal: the store plays no part.
abbrev pub get_signal : Text → Text → HotStore → HotStoreError ⊎ Option Text
get_signal vehicle_id signal_name store = inl legacy_key_shape

abbrev pub put_signal : Text → Text → Text → HotStore → HotStoreError ⊎ HotStore
put_signal vehicle_id signal_name value store = inl legacy_key_shape
