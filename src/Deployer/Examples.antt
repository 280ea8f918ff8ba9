-- ===== src/Deployer/Examples.antt =====
-- The deployment check at concrete inputs: a Redis that is an association list, and one vehicle.
use snts_collectmind.Prelude.{none, some, List, [], ◌∷◌, String, Text, arith}
use snts_collectmind.Prelude.Dict.{
  lookup, insert, erase, lookup-insert, lookup-erase, text_key, text_eq_iff, beq_refl,
}
use snts_collectmind.Prelude.Json.{end}
use snts_collectmind.Deployer.Ownership.{
  Vehicles, VehicleOwnership, RedisCalls, IsRedis, IsFresh, Answered, get_owner_lem,
}
use snts_collectmind.Deployer.Scope.{
  ScopedPolicy, DeployState, DeployContext, deploy_with_tenant_scope_check,
}
use snts_collectmind.Deployer.Scope.Gate.{Gated, deploy-Gated}

abbrev Store : Type 0
Store = List (Text × String)

abbrev assoc : RedisCalls Store
assoc = record {
  get = λ r k. some (lookup k r);
  set = λ r k v ttl. some (insert k v r);
  delete = λ r k. erase k r;
}

assoc-IsRedis : IsRedis assoc
assoc-IsRedis = record {
  set_own = λ r after k v w ttl h g. ground (arith, lookup-insert k k v r, beq_refl k);
  set_other = λ r after k j v w ttl h n g. ground (arith, lookup-insert k j v r, text_eq_iff k j);
  delete_own = λ r k w g. absurd (ground (arith, lookup-erase k k r, beq_refl k));
  delete_other = λ r k j w g. ground (arith, lookup-erase k j r);
}

abbrev of_acme : VehicleOwnership
of_acme = record {
  tenant_id = "acme";
  assigned_at = "t0";
  assigned_by_subject = "ops";
  reason_code = "initial_provisioning";
}

abbrev table : Vehicles
table = ("v1", of_acme) ∷ []

empty-IsFresh : IsFresh assoc [] table
unfolding lookup
empty-IsFresh v owner h = absurd (ground arith)

get_owner_lem_example : Answered assoc [] table "v1"
get_owner_lem_example = get_owner_lem assoc assoc-IsRedis [] table "v1" empty-IsFresh

abbrev a_policy : ScopedPolicy
a_policy = record {
  tenant_id = some "globex";
  policy_id = some "p1";
  version = none;
  vehicle_scope = some ("v1" ∷ []);
  payload = end;
}

abbrev a_context : DeployContext assoc
a_context = record { event_id = "e1"; now = "t1"; collector = λ call. none }

abbrev at_start : DeployState assoc
at_start = record { cache = []; audit = []; calls = [] }

deploy-Gated_example :
    Gated assoc a_context table a_policy "globex" "c1" at_start
      (deploy_with_tenant_scope_check assoc a_context table a_policy "globex" "c1" at_start)
deploy-Gated_example =
    deploy-Gated assoc assoc-IsRedis a_context table a_policy "globex" "c1" at_start empty-IsFresh
