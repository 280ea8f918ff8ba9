-- ===== src/Routes/Examples.antt =====
-- The route labels at a concrete request.
use snts_collectmind.Prelude.{codes, ◌≡◌, refl}
use snts_collectmind.Routes.{normalize_route}

-- The label is GET /api/:id/policies/:id.
label :
    normalize_route (codes "get") (codes "/api/v1/policies/p-17")
    ≡ codes "GET /api/:id/policies/:id"
unfolding normalize_route
label = refl
