-- ===== src/Orchard/Official/Dial.antt =====
-- orchard/client.go: NewClient. The constructor of the client library is a parameter, as are its
-- options, of which it gets those that the configuration asks for; the warning for `insecure` is a
-- log line.
use orchard_gh_bridge.Base.{
  ◌||◌, not, if◌then◌else◌, Text, codes, is_empty, List, [], ◌∷◌, wrapped, Result, ok, err,
}
use orchard_gh_bridge.Config.{OrchardConfig}
use orchard_gh_bridge.Orchard.{Client}
use orchard_gh_bridge.Orchard.Official.{V1Client, V1Names, official_client}

pub data ClientOption : Type 0 where
  with_address : Text → ClientOption
  with_credentials : Text → Text → ClientOption

pub client_options : OrchardConfig → List ClientOption
client_options cfg =
    with_address cfg.address
    ∷ (if not (is_empty cfg.username) || not (is_empty cfg.password)
        then with_credentials cfg.username cfg.password ∷ []
        else [])

-- NewClient
pub new_client :
    {W : Type 0}
    → V1Names
    → (List ClientOption → Result (V1Client W))
    → OrchardConfig
    → Result (Client W)
new_client v1 make cfg = elim (make (client_options cfg)) [
  | err e ↦ err (wrapped (codes "creating orchard client") e)
  | ok inner ↦ ok (official_client v1 inner)
]
