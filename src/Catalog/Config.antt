-- ===== src/Catalog/Config.antt =====
-- The catalog's configuration, of catalog/services.py: the secrets of the pushovers are masked for a
-- reader, and kept where a writer sends the mask back.
use fox_runner_server.Prelude.{
  String, Option, none, some, Bool, true, false, not, ◌&&◌, [], ◌∷◌, get_or, is_truthy,
  if◌then◌else◌, append_str,
}
use fox_runner_server.Prelude.Dict.{Dict, get, put, pop, has}
use fox_runner_server.Prelude.Json.{Json, is_text, truth}
use fox_runner_server.Backend.Exec.{done, Action, ◌>>=◌, ◌>>◌, require}
use fox_runner_server.Catalog.Tables.{CatalogConfig, Db, Store, set_config, transaction}
use fox_runner_server.Catalog.Files.{Outside, write_scenarios_file}
use fox_runner_server.Catalog.Scenarios.{ask, on_db}

abbrev pub masked_secret : String
masked_secret = "••••••••"

-- `bool(d.get(key))`
unfoldable pub is_filled : Option Json → Bool
is_filled none = false
is_filled (some v) = truth v

unfoldable pub mask : String → Dict Json → Dict Json
mask secret entry =
    if is_filled (get entry secret) then put entry secret (Json.text masked_secret) else entry

-- over `_PUSHOVER_SECRETS`
unfoldable pub mask_entry : Dict Json → Dict Json
mask_entry entry = mask "user_key" (mask "token" entry)

module _ {V : Type 0} where
  unfoldable pub map_values : (V → V) → Dict V → Dict V
  map_values f [] = []
  map_values f ((key, v) ∷ d) = (key, f v) ∷ map_values f d

-- what a reader gets
unfoldable pub masked : CatalogConfig → CatalogConfig
masked cfg = record {
  pushovers = map_values mask_entry cfg.pushovers;
  networks = cfg.networks;
  default_pushover = cfg.default_pushover;
  default_network = cfg.default_network;
}

unfoldable pub get_catalog_config : Action Store CatalogConfig
get_catalog_config = ask (λ (db : Db). done (masked db.config))

-- `entry[secret] = previous[secret]` where there is one, else `entry.pop(secret, None)`
unfoldable pub restore : String → Option Json → Dict Json → Dict Json
restore secret none entry = pop entry secret
restore secret (some v) entry = if truth v then put entry secret v else pop entry secret

unfoldable pub merge_secret : Dict Json → String → Dict Json → Dict Json
merge_secret previous secret entry =
    if is_filled (get entry secret) && not (is_text (get entry secret) masked_secret)
    then entry
    else restore secret (get previous secret) entry

unfoldable pub merge_entry : Dict Json → Dict Json → Dict Json
merge_entry previous entry = merge_secret previous "user_key" (merge_secret previous "token" entry)

unfoldable pub merge_pushovers : Dict (Dict Json) → Dict (Dict Json) → Dict (Dict Json)
merge_pushovers existing [] = []
merge_pushovers existing ((key, entry) ∷ d) =
    (key, merge_entry (get_or (get existing key) []) entry) ∷ merge_pushovers existing d

module _ {V : Type 0} where
  -- `default and default not in values`, negated
  unfoldable pub names_one : String → Dict V → Bool
  names_one default values = if is_truthy default then has values default else true

unfoldable pub update_catalog_config : Outside → CatalogConfig → Action Store CatalogConfig
update_catalog_config c payload = transaction (do
  cfg ← ask (λ (db : Db). done db.config)
  let merged = merge_pushovers cfg.pushovers payload.pushovers
  require (names_one payload.default_pushover merged) 422 (
      append_str "Le pushover par défaut « "
        (append_str payload.default_pushover " » n'existe pas."))
  require (names_one payload.default_network payload.networks) 422
      (append_str "Le réseau par défaut « " (append_str payload.default_network " » n'existe pas."))
  let saved : CatalogConfig = record {
    pushovers = merged;
    networks = payload.networks;
    default_pushover = payload.default_pushover;
    default_network = payload.default_network;
  }
  on_db (set_config saved)
  write_scenarios_file c
  get_catalog_config)
