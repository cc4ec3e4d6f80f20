-- ===== src/Catalog/ConfigLaws.antt =====
-- What an update of the catalog's configuration (catalog/services.py) leaves in the tables.
use fox_runner_server.Prelude.{
  String, ◌≡◌, refl, sym, ap, ◌∙◌, subst, Option, none, some, true, false, [], ◌∷◌, get_or, eq_refl,
  str_eq, arith,
}
use fox_runner_server.Prelude.Dict.{Dict, get, get-put, get-pop}
use fox_runner_server.Prelude.Json.{Json, is_text}
use fox_runner_server.Backend.Exec.{Reply, done, http, Action}
use fox_runner_server.Backend.Laws.{
  Gives, Returned, Gives-bind, Gives-seq, Gives-asked, Gives-weaken, Gives-query, Gives-change,
  Gives-require,
}
use fox_runner_server.Catalog.Tables.{
  CatalogConfig, Db, Store, set_db, set_config, transaction, commit,
}
use fox_runner_server.Catalog.Files.{Outside, write_scenarios_file, reject, set_scenarios_file}
use fox_runner_server.Catalog.Scenarios.{ask, on_db}
use fox_runner_server.Catalog.Config.{
  masked_secret, is_filled, mask, mask_entry, map_values, masked, get_catalog_config, restore,
  merge_secret, merge_entry, merge_pushovers, update_catalog_config,
}
use fox_runner_server.Catalog.Secrets.{IsStored, merge_pushovers-masked}

config_or : CatalogConfig → Reply CatalogConfig → CatalogConfig
config_or default (done cfg) = cfg
config_or default (http code message) = default

-- `P` holds of the stored configuration
abbrev Holds : (CatalogConfig → Type 0) → Store → Type 0
Holds P s = P s.db.config

module _ {A : Type 0} (P : CatalogConfig → Type 0) where
  commit-Holds :
      (db : Db) (r : Reply A × Store) → Returned (Holds P) r → Returned (Holds P) (commit db r)
  unfolding commit
  commit-Holds db (done a, s) h = ground arith
  commit-Holds db (http code message, s) h = tt

  transaction-Holds :
      (Q : Store → Type 0) (f : Action Store A)
      → Gives Q f (Holds P)
      → Gives Q (transaction f) (Holds P)
  unfolding transaction
  transaction-Holds Q f h = record { after = λ s p. commit-Holds s.db (f s) (h.after s p) }

module _ (P : CatalogConfig → Type 0) (c : Outside) where
  reject-Holds : (o : Option String) → Gives (Holds P) (reject o) (Holds P)
  unfolding reject
  reject-Holds none = record { after = λ s h. h }
  reject-Holds (some message) = record { after = λ s h. tt }

  write-Holds : Gives (Holds P) (write_scenarios_file c) (Holds P)
  unfolding write_scenarios_file set_scenarios_file
  write-Holds = Gives-bind (Holds P) (Holds P) (Holds P) _ _ (Gives-query (Holds P) _) (λ old.
      Gives-bind (Holds P) (Holds P) (Holds P) _ _ (Gives-query (Holds P) _) (λ new.
        Gives-seq (Holds P) (Holds P) (Holds P) _ _ (reject-Holds _)
          (Gives-change (Holds P) (Holds P) _ (λ s h. h))))

  -- the payload with its secrets restored
  abbrev restored : CatalogConfig → CatalogConfig → CatalogConfig
  restored cfg payload = record {
    pushovers = merge_pushovers cfg.pushovers payload.pushovers;
    networks = payload.networks;
    default_pushover = payload.default_pushover;
    default_network = payload.default_network;
  }

  -- an update leaves what holds of the payload merged with the configuration
  update_catalog_config-Holds :
      (payload cfg : CatalogConfig)
      → P (restored cfg payload)
      → Gives (λ (s : Store). s.db.config ≡ cfg) (update_catalog_config c payload) (Holds P)
  unfolding update_catalog_config ask on_db set_config set_db get_catalog_config config_or
  update_catalog_config-Holds payload cfg h = transaction-Holds P _ _ (
      Gives-asked _ (Holds P) _ _ (λ old.
        Gives-weaken _ (λ t. P (restored old payload)) (Holds P) _
          (λ t e.
            subst (λ (x : CatalogConfig). P (restored x payload)) (sym e.0 ∙ ap (config_or cfg) e.1)
              h)
          (Gives-seq _ (λ t. P (restored old payload)) (Holds P) _ _ (Gives-require _ _ _ _)
            (Gives-seq _ (λ t. P (restored old payload)) (Holds P) _ _ (Gives-require _ _ _ _)
              (Gives-seq _ (Holds P) (Holds P) _ _ (Gives-change _ (Holds P) _ (λ s k. k)) (
                Gives-seq (Holds P) (Holds P) (Holds P) _ _ write-Holds
                  (Gives-query (Holds P) _)))))))

module _ {A : Type 0} (P : CatalogConfig → Type 0) where
  returned-Holds :
      (r : Reply A × Store) (a : A) → Returned (Holds P) r → r.0 ≡ done a → P r.1.db.config
  returned-Holds (done b, s) a h e = h
  returned-Holds (http code message, s) a h e = cc

-- If the keys of the stored pushovers are unique and no secret is stored empty, an update with the
-- masked configuration that returns leaves the stored configuration as it was.
pub update_catalog_config-masked :
    (c : Outside) (s : Store) (answer : CatalogConfig)
    → IsStored s.db.config.pushovers s.db.config.pushovers
    → (update_catalog_config c (masked s.db.config) s).0 ≡ done answer
    → (update_catalog_config c (masked s.db.config) s).1.db.config ≡ s.db.config
unfolding masked
update_catalog_config-masked c s answer h e =
    returned-Holds (λ (cfg : CatalogConfig). cfg ≡ s.db.config)
      (update_catalog_config c (masked s.db.config) s) answer
      ((update_catalog_config-Holds (λ (cfg : CatalogConfig). cfg ≡ s.db.config) c
          (masked s.db.config) s.db.config
          (ap (λ (p : Dict (Dict Json)). record s.db.config { pushovers = p })
            (merge_pushovers-masked s.db.config.pushovers s.db.config.pushovers h))).after
        s refl)
      e

-- no secret of the entry is the mask
abbrev pub NoMask : Dict Json → Type 0
NoMask entry =
    (is_text (get entry "token") masked_secret ≡ false)
    × (is_text (get entry "user_key") masked_secret ≡ false)

abbrev pub NoMasks : Dict (Dict Json) → Type 0
NoMasks [] = Unit
NoMasks ((key, entry) ∷ d) = NoMask entry × NoMasks d

NoMask-get : (d : Dict (Dict Json)) (key : String) → NoMasks d → NoMask (get_or (get d key) [])
unfolding get is_text
NoMask-get [] key h = (refl, refl)
NoMask-get ((k, entry) ∷ d) key h = ground (arith, NoMask-get d key h.1, h.0.0, h.0.1)

restored-NoMask :
    (o : Option Json) (k : String) (q : Dict Json)
    → is_text o masked_secret ≡ false
    → is_text (get (restore k o q) k) masked_secret ≡ false
unfolding restore is_text
restored-NoMask none k q h = ground (arith, get-pop q k k, eq_refl k)
restored-NoMask (some v) k q h = ground (arith, h, get-put q k k v, get-pop q k k, eq_refl k)

restored-other :
    (o : Option Json) (k j : String) (q : Dict Json)
    → str_eq k j ≡ false
    → get (restore k o q) j ≡ get q j
unfolding restore
restored-other none k j q n = ground (arith, n, get-pop q k j)
restored-other (some v) k j q n = ground (arith, n, get-put q k j v, get-pop q k j)

-- a merged secret is not the mask, whatever was sent
merge_secret-NoMask :
    (p : Dict Json) (k : String) (q : Dict Json)
    → is_text (get p k) masked_secret ≡ false
    → is_text (get (merge_secret p k q) k) masked_secret ≡ false
unfolding merge_secret
merge_secret-NoMask p k q h = ground (arith, restored-NoMask (get p k) k q h)

merge_secret-other :
    (p : Dict Json) (k j : String) (q : Dict Json)
    → str_eq k j ≡ false
    → get (merge_secret p k q) j ≡ get q j
unfolding merge_secret
merge_secret-other p k j q n = ground (arith, restored-other (get p k) k j q n)

merge_entry-NoMask : (p q : Dict Json) → NoMask p → NoMask (merge_entry p q)
unfolding merge_entry
merge_entry-NoMask p q h = (
  ap (λ (o : Option Json). is_text o masked_secret)
        (merge_secret-other p "user_key" "token" (merge_secret p "token" q) refl)
      ∙ merge_secret-NoMask p "token" q h.0,
  merge_secret-NoMask p "user_key" (merge_secret p "token" q) h.1,
)

merge_pushovers-NoMasks :
    (existing d : Dict (Dict Json)) → NoMasks existing → NoMasks (merge_pushovers existing d)
unfolding merge_pushovers
merge_pushovers-NoMasks existing [] h = tt
merge_pushovers-NoMasks existing ((key, entry) ∷ d) h = (
  merge_entry-NoMask (get_or (get existing key) []) entry (NoMask-get existing key h),
  merge_pushovers-NoMasks existing d h,
)

-- If the mask is no stored secret, then after an update that returns, with any payload, it is none.
pub update_catalog_config-NoMasks :
    (c : Outside) (s : Store) (payload answer : CatalogConfig)
    → NoMasks s.db.config.pushovers
    → (update_catalog_config c payload s).0 ≡ done answer
    → NoMasks (update_catalog_config c payload s).1.db.config.pushovers
update_catalog_config-NoMasks c s payload answer h e =
    returned-Holds (λ (cfg : CatalogConfig). NoMasks cfg.pushovers)
      (update_catalog_config c payload s) answer
      ((update_catalog_config-Holds (λ (cfg : CatalogConfig). NoMasks cfg.pushovers) c payload
          s.db.config (merge_pushovers-NoMasks s.db.config.pushovers payload.pushovers h)).after
        s refl)
      e

-- every secret of the entry that is set is the mask
abbrev pub IsMasked : Dict Json → Type 0
IsMasked entry =
    (is_filled (get entry "token") ≡ true → get entry "token" ≡ some (Json.text masked_secret))
    × (is_filled (get entry "user_key") ≡ true
        → get entry "user_key" ≡ some (Json.text masked_secret))

abbrev pub AreMasked : Dict (Dict Json) → Type 0
AreMasked [] = Unit
AreMasked ((key, entry) ∷ d) = IsMasked entry × AreMasked d

mask-masks :
    (k : String) (entry : Dict Json)
    → is_filled (get (mask k entry) k) ≡ true
    → get (mask k entry) k ≡ some (Json.text masked_secret)
unfolding mask
mask-masks k entry h = ground (arith, h, get-put entry k k (Json.text masked_secret), eq_refl k)

mask-other :
    (k j : String) (entry : Dict Json) → str_eq k j ≡ false → get (mask k entry) j ≡ get entry j
unfolding mask
mask-other k j entry n = ground (arith, n, get-put entry k j (Json.text masked_secret))

mask_entry-IsMasked : (entry : Dict Json) → IsMasked (mask_entry entry)
unfolding mask_entry
mask_entry-IsMasked entry = (
  subst (λ (o : Option Json). is_filled o ≡ true → o ≡ some (Json.text masked_secret))
      (sym (mask-other "user_key" "token" (mask "token" entry) refl)) (mask-masks "token" entry),
  mask-masks "user_key" (mask "token" entry),
)

-- In the pushovers that a reader gets, every token and user key that is set is the mask.
pub masked-AreMasked : (d : Dict (Dict Json)) → AreMasked (map_values mask_entry d)
unfolding map_values
masked-AreMasked [] = tt
masked-AreMasked ((key, entry) ∷ d) = (mask_entry-IsMasked entry, masked-AreMasked d)
