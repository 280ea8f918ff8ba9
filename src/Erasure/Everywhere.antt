-- ===== src/Erasure/Everywhere.antt =====
-- What a completed erasure has removed, and when one cannot complete.
use snts_collectmind.Prelude.{
  Bool, true, false, ◌&&◌, Option, none, some, List, [], ◌∷◌, String, any, is_empty, All, ◌==◌, ◌≡◌,
  refl, sym, arith, Bool-cases, inl, inr,
}
use snts_collectmind.Erasure.{
  vehicle, ErasureRequest, StoreStatus, erased, failed, completed, partial, PerStore, PolicyScope,
  Observation, Stores, Outage, covers, non_null, without, update_scope, cons_some, update_scopes,
  erase_registry, observed, delete_telemetry, erase_telemetry, attempted, registry_status,
  succeeded, status_of, dispatch,
}

any-without : (id : String) (vs : List String) → any (λ v. v == id) (without id vs) ≡ false
unfolding without
any-without id [] = refl
any-without id (v ∷ vs) = ground (arith, any-without id vs)

non_null-uncovered :
    (tenant id : String) (p q : PolicyScope) (vs : List String)
    → any (λ v. v == id) vs ≡ false
    → non_null p vs ≡ some q
    → covers tenant id q ≡ false
non_null-uncovered tenant id p q [] h e = absurd (ground arith)
non_null-uncovered tenant id p q (v ∷ vs) h e = ground arith

update_scope-uncovered :
    (tenant id : String) (p q : PolicyScope)
    → update_scope tenant id p ≡ some q
    → covers tenant id q ≡ false
unfolding update_scope
update_scope-uncovered tenant id p q h = elim (Bool-cases (covers tenant id p)) [
  | inl e ↦
      non_null-uncovered tenant id p q (without id p.vehicle_scope) (any-without id p.vehicle_scope)
        (rw e at h)
  | inr e ↦ let r : p ≡ q = ground arith in rw (sym r) e
]

cons_some-both :
    (o : Option PolicyScope) (os : Option (List PolicyScope)) (qs : List PolicyScope)
    → cons_some o os ≡ some qs
    → (q : PolicyScope) × (rest : List PolicyScope) × (o ≡ some q)
      × (os ≡ some rest)
      × (qs ≡ (q ∷ rest))
cons_some-both none os qs h = absurd (ground arith)
cons_some-both (some q) none qs h = absurd (ground arith)
cons_some-both (some q) (some rest) qs h = (q, rest, refl, refl, ground arith)

update_scopes-uncovered :
    (tenant id : String) (ps qs : List PolicyScope)
    → update_scopes tenant id ps ≡ some qs
    → All (λ q. covers tenant id q ≡ false) qs
unfolding update_scopes
update_scopes-uncovered tenant id [] qs h = let e : qs ≡ [] = ground arith in rw e tt
update_scopes-uncovered tenant id (p ∷ ps) qs h =
    let (q, rest, f, g, e) =
      cons_some-both (update_scope tenant id p) (update_scopes tenant id ps) qs h in
    rw e (update_scope-uncovered tenant id p q f, update_scopes-uncovered tenant id ps rest g)

delete_telemetry-unobserved :
    (tenant id : String) (os : List Observation)
    → All (λ o. observed tenant id o ≡ false) (delete_telemetry tenant id os)
unfolding delete_telemetry
delete_telemetry-unobserved tenant id [] = tt
delete_telemetry-unobserved tenant id (o ∷ os) = elim (Bool-cases (observed tenant id o)) [
  | inl e ↦ rw (e, All) (delete_telemetry-unobserved tenant id os)
  | inr e ↦ rw (e, All) (e, delete_telemetry-unobserved tenant id os)
]

-- A store whose attempt succeeded holds what the statement left.
attempted-succeeded :
    {A : Type 0} (done : StoreStatus) (before : List A) (o : Option (List A))
    → succeeded (attempted done before o).1 ≡ true
    → (after : List A) × (o ≡ some after) × ((attempted done before o).0 ≡ after)
attempted-succeeded done before none h = absurd (ground arith)
attempted-succeeded done before (some after) h = (after, refl, refl)

all_succeeded :
    (p : PerStore)
    → status_of p ≡ completed
    → (succeeded p.registry ≡ true) × (succeeded p.telemetry ≡ true)
all_succeeded p h = ground arith

registry_uncovered :
    (down : Bool) (tenant : String) (request : ErasureRequest) (ps qs : List PolicyScope)
    → request.subject_kind ≡ vehicle
    → erase_registry down tenant request ps ≡ some qs
    → All (λ q. covers tenant request.subject_identifier q ≡ false) qs
unfolding erase_registry
registry_uncovered true tenant request ps qs k h = absurd (ground arith)
registry_uncovered false tenant request ps qs k h =
    update_scopes-uncovered tenant request.subject_identifier ps qs (rw k at h)

telemetry_unobserved :
    (down : Bool) (tenant : String) (request : ErasureRequest) (os after : List Observation)
    → request.subject_kind ≡ vehicle
    → erase_telemetry down tenant request os ≡ some after
    → All (λ o. observed tenant request.subject_identifier o ≡ false) after
unfolding erase_telemetry
telemetry_unobserved true tenant request os after k h = absurd (ground arith)
telemetry_unobserved false tenant request os after k h =
    let e : after ≡ delete_telemetry tenant request.subject_identifier os = ground arith in
    rw e (delete_telemetry-unobserved tenant request.subject_identifier os)

-- If the erasure of a vehicle is written as completed, no policy of the tenant has the vehicle
-- in its scope any more, and no observation of the tenant is of it.
pub erased_everywhere :
    (down : Outage) (tenant request_id : String) (request : ErasureRequest) (s : Stores)
    → request.subject_kind ≡ vehicle
    → status_of (dispatch down tenant request_id request s).0 ≡ completed
    → All
        (λ p. covers tenant request.subject_identifier p ≡ false)
        (dispatch down tenant request_id request s).1.policies
      × All
          (λ o. observed tenant request.subject_identifier o ≡ false)
          (dispatch down tenant request_id request s).1.telemetry
unfolding dispatch
erased_everywhere down tenant request_id request s k h =
    let done = all_succeeded (dispatch down tenant request_id request s).0 h in
    let (ps, e, f) =
      attempted-succeeded (registry_status request.mode) s.policies
        (erase_registry down.registry tenant request s.policies) done.0 in
    let (os, g, x) =
      attempted-succeeded erased s.telemetry
        (erase_telemetry down.telemetry tenant request s.telemetry) done.1 in
    (
      rw f (registry_uncovered down.registry tenant request s.policies ps k e),
      rw x (telemetry_unobserved down.telemetry tenant request s.telemetry os k g),
    )

-- The vehicle is the only one in the scope of a policy of the tenant.
abbrev pub only_in : String → String → PolicyScope → Bool
only_in tenant id p = covers tenant id p && is_empty (without id p.vehicle_scope)

update_scope_blocked :
    (tenant id : String) (p : PolicyScope)
    → only_in tenant id p ≡ true
    → update_scope tenant id p ≡ none
unfolding update_scope
update_scope_blocked tenant id p h = elim (Bool-cases (covers tenant id p)) [
  | inl e ↦ rw e (ground arith)
  | inr e ↦ absurd (ground arith)
]

cons_some-none : (o : Option PolicyScope) → cons_some o none ≡ none
cons_some-none none = refl
cons_some-none (some p) = refl

update_scopes_blocked :
    (tenant id : String) (ps : List PolicyScope)
    → any (only_in tenant id) ps ≡ true
    → update_scopes tenant id ps ≡ none
unfolding update_scopes
update_scopes_blocked tenant id [] h = absurd (ground arith)
update_scopes_blocked tenant id (p ∷ ps) h = elim (Bool-cases (only_in tenant id p)) [
  | inl e ↦ rw (update_scope_blocked tenant id p e) refl
  | inr e ↦
      let rest = update_scopes_blocked tenant id ps (ground arith) in
      rw rest (cons_some-none (update_scope tenant id p))
]

registry_blocked :
    (down : Bool) (tenant : String) (request : ErasureRequest) (ps : List PolicyScope)
    → request.subject_kind ≡ vehicle
    → any (only_in tenant request.subject_identifier) ps ≡ true
    → erase_registry down tenant request ps ≡ none
unfolding erase_registry
registry_blocked true tenant request ps k h = rw k refl
registry_blocked false tenant request ps k h =
    rw k (update_scopes_blocked tenant request.subject_identifier ps h)

-- If a policy of the tenant has the vehicle alone in its scope, the erasure of the vehicle
-- changes no policy at all and is never completed: it is written as partial, with the registry
-- failed.
pub last_vehicle_blocks_erasure :
    (down : Outage) (tenant request_id : String) (request : ErasureRequest) (s : Stores)
    → request.subject_kind ≡ vehicle
    → any (only_in tenant request.subject_identifier) s.policies ≡ true
    → ((dispatch down tenant request_id request s).1.policies ≡ s.policies)
      × ((dispatch down tenant request_id request s).0.registry ≡ failed)
      × (status_of (dispatch down tenant request_id request s).0 ≡ partial)
unfolding dispatch
last_vehicle_blocks_erasure down tenant request_id request s k h =
    rw (registry_blocked down.registry tenant request s.policies k h) (refl, refl, refl)
