-- ===== src/Populator/Publishing.antt =====
-- What a publisher prepares and sends.
use mathlib.Core.List.{append-nil, append_assoc}
use cf_app_sd_release.Base.{
  List, Option, Str, [], none, refl, some, suc, zero, ℕ, ◌++◌, ◌+◌, ◌∙◌, ◌∷◌, ◌≡◌,
}
use cf_app_sd_release.Populator.Job.{Job, RouteData, route_data}
use cf_app_sd_release.Populator.Publisher.{marshal_routes}

-- The messages of the routes from `i` on, if each can be encoded.
unfoldable pub encoded : (RouteData → Str) → Job → ℕ → ℕ → List Str
encoded encode j zero i = []
encoded encode j (suc rounds) i = encode (route_data j i) ∷ encoded encode j rounds (i + 1)

pub marshal_routes-encoded :
    (marshal : RouteData → Option Str) (encode : RouteData → Str) (j : Job) (rounds i : ℕ)
    (acc : List Str)
    → ((r : RouteData) → marshal r ≡ some (encode r))
    → marshal_routes marshal j rounds i acc ≡ (acc ++ encoded encode j rounds i, none)
unfolding marshal_routes encoded
marshal_routes-encoded marshal encode j zero i acc h = rw append-nil refl
marshal_routes-encoded marshal encode j (suc rounds) i acc h =
    rw (h (route_data j i), marshal_routes)
      (marshal_routes-encoded marshal encode j rounds (i + 1) _ h ∙ (rw append_assoc refl))
