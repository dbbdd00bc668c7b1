-- ===== src/Health.antt =====
-- health/health.go: the answers of the two endpoints. The server around them is left out.
use orchard_gh_bridge.Base.{ℕ, Text, codes, List, [], ◌∷◌, Error, ok, err}
use orchard_gh_bridge.Orchard.{Client}

-- The status of the response, and the JSON object of its body as its entries; `message` is the
-- text of an error.
pub record Response : Type 0 where
  pub status : ℕ
  pub body : List (Text × Text)

-- handleHealthz
pub handle_healthz : Response
handle_healthz = record { status = 200; body = (codes "status", codes "ok") ∷ [] }

-- handleReadyz
pub handle_readyz : {W : Type 0} → (Error → Text) → Client W → W → Response × W
handle_readyz message client w =
    let (r, w') = client.ping w in
    elim r [
      | err e ↦ (
        record {
          status = 503;
          body = (codes "status", codes "not ready") ∷ (codes "error", message e) ∷ [];
        },
        w',
      )
      | ok _ ↦ (record { status = 200; body = (codes "status", codes "ready") ∷ [] }, w')
    ]
