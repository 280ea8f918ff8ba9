-- ===== src/Registry/Integrity.antt =====
-- The registry over its life: policies are inserted, deployments are inserted, deployments expire.
mod Examples
use mathlib.Core.Path.{subst}
use snts_collectmind.Prelude.{
  ℕ, Bool, true, false, ◌&&◌, Option, none, some, List, [], ◌∷◌, ◌++◌, String, any, if◌then◌else◌,
  ◌==◌, ◌≡◌, refl, sym, ap, ◌∙◌, arith, All, All-append, All-mono, Bool-cases, Option-cases, inl,
  inr, eq_iff,
}
use snts_collectmind.Prelude.Json.{Fields}
use snts_collectmind.Graph.Session.{DeploymentRecord}
use snts_collectmind.Graph.Runner.{AuditMeta}
use snts_collectmind.Registry.Policies
use snts_collectmind.Registry.Policies.{
  CollectionPolicyRow, Casts, policy_key, add_policy, row_of_policy, ◌>>=◌,
}
use snts_collectmind.Registry.Deployments
use snts_collectmind.Registry.Deployments.{
  DeploymentRow, default_tenant, expire, mark_expired, add_deployment, row_of_deployment,
}

pub record Registry : Type 0 where
  pub policies : List CollectionPolicyRow
  pub deployments : List DeploymentRow

abbrev pub has_policy : List CollectionPolicyRow → DeploymentRow → Bool
has_policy policies d = any (policy_key d.tenant_id d.policy_id d.version) policies

-- One change of the registry: a call that does not raise.
pub data Step (casts : Casts) (r s : Registry) : Type 0 where
  policy_inserted :
      (tenant_id : String) (now : ℕ) (policy : Fields) (meta : AuditMeta)
      (policies : List CollectionPolicyRow)
      → Policies.insert casts tenant_id now policy meta r.policies ≡ some policies
      → s ≡ record r { policies = policies }
      → Step casts r s
  deployment_inserted :
      (tenant_id : String) (d : DeploymentRecord) (deployments : List DeploymentRow)
      → Deployments.insert casts tenant_id d r.policies r.deployments ≡ some deployments
      → s ≡ record r { deployments = deployments }
      → Step casts r s
  deployment_expired :
      (deployment_id : String)
      → s ≡ record r { deployments = mark_expired deployment_id r.deployments }
      → Step casts r s

pub data Reach (casts : Casts) (r : Registry) : Registry → Type 0 where
  here : Reach casts r r
  next : {s t : Registry} → Reach casts r s → Step casts s t → Reach casts r t

-- No two policies share their key, no two deployments their id, and each deployment is one of a
-- policy that is there.
abbrev pub UniqueKeys : List CollectionPolicyRow → Type 0
UniqueKeys [] = Unit
UniqueKeys (r ∷ table) =
    All (λ q. policy_key r.tenant_id r.policy_id r.version q ≡ false) table × UniqueKeys table

abbrev pub UniqueIds : List DeploymentRow → Type 0
UniqueIds [] = Unit
UniqueIds (d ∷ table) =
    All (λ e. (e.deployment_id == d.deployment_id) ≡ false) table × UniqueIds table

pub record IsIntegral (r : Registry) : Type 0 where
  pub keys : UniqueKeys r.policies
  pub ids : UniqueIds r.deployments
  pub linked : All (λ d. has_policy r.policies d ≡ true) r.deployments

any-false : {A : Type 0} (p : A → Bool) (l : List A) → any p l ≡ false → All (λ x. p x ≡ false) l
any-false p [] h = tt
any-false p (x ∷ l) h = elim (Bool-cases (p x)) [
  | inl e ↦ absurd (ground arith)
  | inr e ↦ (e, any-false p l (ground arith))
]

policy_key-sym :
    (r q : CollectionPolicyRow)
    → policy_key q.tenant_id q.policy_id q.version r ≡ false
    → policy_key r.tenant_id r.policy_id r.version q ≡ false
policy_key-sym r q h = ground (
  arith,
  eq_iff r.tenant_id q.tenant_id,
  eq_iff q.tenant_id r.tenant_id,
  eq_iff r.policy_id q.policy_id,
  eq_iff q.policy_id r.policy_id,
  eq_iff r.version q.version,
  eq_iff q.version r.version,
)

append-UniqueKeys :
    (table : List CollectionPolicyRow) (q : CollectionPolicyRow)
    → All (λ r. policy_key q.tenant_id q.policy_id q.version r ≡ false) table
    → UniqueKeys table
    → UniqueKeys (table ++ (q ∷ []))
append-UniqueKeys [] q h u = (tt, tt)
append-UniqueKeys (r ∷ table) q h u = (
  All-append _ table (q ∷ []) u.0 (policy_key-sym r q h.0, tt),
  append-UniqueKeys table q h.1 u.1,
)

append-UniqueIds :
    (table : List DeploymentRow) (d : DeploymentRow)
    → All (λ e. (e.deployment_id == d.deployment_id) ≡ false) table
    → UniqueIds table
    → UniqueIds (table ++ (d ∷ []))
append-UniqueIds [] d h u = (tt, tt)
append-UniqueIds (e ∷ table) d h u = (
  All-append _ table (d ∷ []) u.0 (
    ground (
      arith,
      h.0,
      eq_iff e.deployment_id d.deployment_id,
      eq_iff d.deployment_id e.deployment_id,
    ),
    tt,
  ),
  append-UniqueIds table d h.1 u.1,
)

any-append :
    {A : Type 0} (p : A → Bool) (xs ys : List A) → any p xs ≡ true → any p (xs ++ ys) ≡ true
any-append p [] ys h = absurd (ground arith)
any-append p (x ∷ xs) ys h = ground (arith, any-append p xs ys)

insert_policy-IsIntegral :
    (row : CollectionPolicyRow) (r : Registry) (policies : List CollectionPolicyRow)
    → add_policy row r.policies ≡ some policies
    → IsIntegral r
    → IsIntegral (record r { policies = policies })
unfolding add_policy
insert_policy-IsIntegral row r policies h k =
    elim (Bool-cases (any (policy_key row.tenant_id row.policy_id row.version) r.policies)) [
      | inl e ↦ absurd (ground arith)
      | inr e ↦
          let q : r.policies ++ (row ∷ []) ≡ policies = ground arith in
          record {
            keys = rw (sym q) (append-UniqueKeys r.policies row (any-false _ r.policies e) k.keys);
            ids = k.ids;
            linked = rw (sym q) (
                All-mono r.deployments
                  (λ d l.
                    any-append (policy_key d.tenant_id d.policy_id d.version) r.policies (row ∷ [])
                      l)
                  k.linked);
          }
    ]

insert_deployment-IsIntegral :
    (row : DeploymentRow) (r : Registry) (deployments : List DeploymentRow)
    → add_deployment row r.policies r.deployments ≡ some deployments
    → IsIntegral r
    → IsIntegral (record r { deployments = deployments })
unfolding add_deployment
insert_deployment-IsIntegral row r deployments h k =
    elim (Bool-cases (any (λ d. d.deployment_id == row.deployment_id) r.deployments)) [
      | inl e ↦ absurd (ground arith)
      | inr e ↦ elim (Bool-cases (has_policy r.policies row)) [
        | inl f ↦
            let q : r.deployments ++ (row ∷ []) ≡ deployments = ground arith in
            record {
              keys = k.keys;
              ids =
                  rw (sym q)
                    (append-UniqueIds r.deployments row (any-false _ r.deployments e) k.ids);
              linked = rw (sym q) (All-append _ r.deployments (row ∷ []) k.linked (f, tt));
            }
        | inr f ↦ absurd (ground arith)
      ]
    ]

expire-kept :
    (deployment_id : String) (d : DeploymentRow)
    → ((expire deployment_id d).deployment_id ≡ d.deployment_id)
      × ((expire deployment_id d).tenant_id ≡ d.tenant_id)
      × ((expire deployment_id d).policy_id ≡ d.policy_id)
      × ((expire deployment_id d).version ≡ d.version)
expire-kept deployment_id d =
    elim (Bool-cases ((d.tenant_id == default_tenant) && (d.deployment_id == deployment_id))) [
      | inl e ↦ rw e (refl, refl, refl, refl)
      | inr e ↦ rw e (refl, refl, refl, refl)
    ]

mark_expired-fresh :
    (deployment_id id : String) (table : List DeploymentRow)
    → All (λ e. (e.deployment_id == id) ≡ false) table
    → All (λ e. (e.deployment_id == id) ≡ false) (mark_expired deployment_id table)
unfolding mark_expired
mark_expired-fresh deployment_id id [] h = tt
mark_expired-fresh deployment_id id (d ∷ table) h = (
  ap (λ x. x == id) (expire-kept deployment_id d).0 ∙ h.0,
  mark_expired-fresh deployment_id id table h.1,
)

mark_expired-UniqueIds :
    (deployment_id : String) (table : List DeploymentRow)
    → UniqueIds table
    → UniqueIds (mark_expired deployment_id table)
unfolding mark_expired
mark_expired-UniqueIds deployment_id [] u = tt
mark_expired-UniqueIds deployment_id (d ∷ table) u = (
  subst (λ x. All (λ e. (e.deployment_id == x) ≡ false) (mark_expired deployment_id table))
      (sym (expire-kept deployment_id d).0)
      (mark_expired-fresh deployment_id d.deployment_id table u.0),
  mark_expired-UniqueIds deployment_id table u.1,
)

mark_expired-linked :
    (deployment_id : String) (policies : List CollectionPolicyRow) (table : List DeploymentRow)
    → All (λ d. has_policy policies d ≡ true) table
    → All (λ d. has_policy policies d ≡ true) (mark_expired deployment_id table)
unfolding mark_expired
mark_expired-linked deployment_id policies [] h = tt
mark_expired-linked deployment_id policies (d ∷ table) h =
    let k = expire-kept deployment_id d in
    (
      (λ i. any (policy_key (k.1 i) (k.2 i) (k.3 i)) policies) ∙ h.0,
      mark_expired-linked deployment_id policies table h.1,
    )

bind-some :
    {A B : Type 0} (o : Option A) (f : A → Option B) (b : B)
    → (o >>= f) ≡ some b
    → (a : A) × (f a ≡ some b)
bind-some none f b h = absurd (ground arith)
bind-some (some a) f b h = (a, h)

Step-IsIntegral : (casts : Casts) (r s : Registry) → Step casts r s → IsIntegral r → IsIntegral s
unfolding Policies.insert Deployments.insert
Step-IsIntegral casts r s (policy_inserted tenant_id now policy meta policies h e) k =
    let b =
      bind-some (row_of_policy casts tenant_id now policy meta) (λ row. add_policy row r.policies)
        policies h in
    rw e (insert_policy-IsIntegral b.0 r policies b.1 k)
Step-IsIntegral casts r s (deployment_inserted tenant_id d deployments h e) k =
    let b =
      bind-some (row_of_deployment casts tenant_id d)
        (λ row. add_deployment row r.policies r.deployments) deployments h in
    rw e (insert_deployment-IsIntegral b.0 r deployments b.1 k)
Step-IsIntegral casts r s (deployment_expired deployment_id e) k = rw e (record {
  keys = k.keys;
  ids = mark_expired-UniqueIds deployment_id r.deployments k.ids;
  linked = mark_expired-linked deployment_id r.policies r.deployments k.linked;
})

-- Whatever is inserted and expires, in any order and with any inputs, no two policies of the
-- registry share tenant, id and version, no two deployments share their id, and each deployment
-- is of a policy that is there.
pub Reach-IsIntegral :
    (casts : Casts) (r s : Registry) → IsIntegral r → Reach casts r s → IsIntegral s
Reach-IsIntegral casts r s k here = k
Reach-IsIntegral casts r s k (next {s = u} reach step) =
    Step-IsIntegral casts u s step (Reach-IsIntegral casts r u k reach)
