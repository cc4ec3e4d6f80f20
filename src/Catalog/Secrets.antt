-- ===== src/Catalog/Secrets.antt =====
-- The secrets of the catalog's configuration (catalog/services.py): a reader never sees one, the mask
-- is never stored, and sending the masked configuration back changes nothing.
use fox_runner_server.Prelude.{
  String, ◌≡◌, refl, sym, ap, ◌∙◌, Option, none, some, Bool, true, false, ◌⊎◌, inl, inr, [], ◌∷◌,
  get_or, str_eq, eq_iff, eq_refl, arith, if◌then◌else◌,
}
use fox_runner_server.Prelude.Dict.{Dict, get, put, pop, get-put}
use fox_runner_server.Prelude.Json.{Json, is_text, truth}
use fox_runner_server.Catalog.Config.{
  masked_secret, is_filled, mask, mask_entry, map_values, restore, merge_secret, merge_entry,
  merge_pushovers,
}
use fox_runner_server.Catalog.EditLaws.{put-put, put-get}

abbrev mark : Json
mark = Json.text masked_secret

pop-absent : (d : Dict Json) (k : String) → get d k ≡ none → pop d k ≡ d
unfolding pop get
pop-absent [] k h = refl
pop-absent ((j, u) ∷ d) k h = ground (arith, pop-absent d k)

-- two keys, of which the first is there
put-swap :
    (d : Dict Json) (k j : String) (v w t : Json)
    → str_eq k j ≡ false
    → get d k ≡ some t
    → put (put d k v) j w ≡ put (put d j w) k v
unfolding put get
put-swap [] k j v w t n h = cc
put-swap ((i, u) ∷ d) k j v w t n h =
    ground (arith, put-swap d k j v w t n, eq_iff i k, eq_iff i j, eq_iff k j)

-- a secret of a stored pushover is there, or it is not; an empty one is not stored
abbrev pub Present : Dict Json → String → Type 0
Present entry secret =
    (get entry secret ≡ none) ⊎ ((v : Json) × (get entry secret ≡ some v) × (truth v ≡ true))

mask-absent : (k : String) (p : Dict Json) → get p k ≡ none → mask k p ≡ p
unfolding mask is_filled
mask-absent k p h = ground (arith, h)

mask-present :
    (k : String) (p : Dict Json) (v : Json)
    → get p k ≡ some v
    → truth v ≡ true
    → mask k p ≡ put p k mark
unfolding mask is_filled
mask-present k p v h t = ground (arith, h, t)

get-put_same : (d : Dict Json) (k : String) (v : Json) → get (put d k v) k ≡ some v
get-put_same d k v = get-put d k k v ∙ ap (λ (b : Bool). if b then some v else get d k) (eq_refl k)

get-put_other :
    (d : Dict Json) (k j : String) (v : Json) → str_eq k j ≡ false → get (put d k v) j ≡ get d j
get-put_other d k j v n = get-put d k j v ∙ ap (λ (b : Bool). if b then some v else get d j) n

merge_secret-absent :
    (p : Dict Json) (k : String) (q : Dict Json)
    → get p k ≡ none
    → get q k ≡ none
    → merge_secret p k q ≡ q
unfolding merge_secret restore is_filled is_text
merge_secret-absent p k q h g = ground (arith, h, g, pop-absent q k g)

merge_secret-mark :
    (p : Dict Json) (k : String) (q : Dict Json) (v : Json)
    → get p k ≡ some v
    → truth v ≡ true
    → merge_secret p k (put q k mark) ≡ put q k v
unfolding merge_secret restore is_filled is_text
merge_secret-mark p k q v h t =
    ground (arith, h, t, get-put_same q k mark, put-put q k mark v, eq_refl masked_secret)

merge_entry-mask_entry :
    (p : Dict Json) → Present p "token" → Present p "user_key" → merge_entry p (mask_entry p) ≡ p
unfolding merge_entry mask_entry
merge_entry-mask_entry p (inl a) (inl b) =
    ap (λ (e : Dict Json). merge_secret p "user_key" (merge_secret p "token" e))
      (ap (mask "user_key") (mask-absent "token" p a) ∙ mask-absent "user_key" p b)
    ∙ ap (merge_secret p "user_key") (merge_secret-absent p "token" p a a)
    ∙ merge_secret-absent p "user_key" p b b
merge_entry-mask_entry p (inl a) (inr (u, b, tb)) =
    ap (λ (e : Dict Json). merge_secret p "user_key" (merge_secret p "token" e))
      (ap (mask "user_key") (mask-absent "token" p a) ∙ mask-present "user_key" p u b tb)
    ∙ ap (merge_secret p "user_key") (
        merge_secret-absent p "token" (put p "user_key" mark) a
          (get-put_other p "user_key" "token" mark refl ∙ a))
    ∙ merge_secret-mark p "user_key" p u b tb
    ∙ put-get p "user_key" u b
merge_entry-mask_entry p (inr (t, a, ta)) (inl b) =
    ap (λ (e : Dict Json). merge_secret p "user_key" (merge_secret p "token" e))
      (ap (mask "user_key") (mask-present "token" p t a ta)
        ∙ mask-absent "user_key" (put p "token" mark)
            (get-put_other p "token" "user_key" mark refl ∙ b))
    ∙ ap (merge_secret p "user_key") (merge_secret-mark p "token" p t a ta ∙ put-get p "token" t a)
    ∙ merge_secret-absent p "user_key" p b b
merge_entry-mask_entry p (inr (t, a, ta)) (inr (u, b, tb)) =
    ap (λ (e : Dict Json). merge_secret p "user_key" (merge_secret p "token" e))
      (ap (mask "user_key") (mask-present "token" p t a ta)
        ∙ mask-present "user_key" (put p "token" mark) u
            (get-put_other p "token" "user_key" mark refl ∙ b) tb
        ∙ put-swap p "token" "user_key" mark mark t refl a)
    ∙ ap (merge_secret p "user_key") (
        merge_secret-mark p "token" (put p "user_key" mark) t a ta
        ∙ sym (put-swap p "token" "user_key" t mark t refl a)
        ∙ ap (λ (e : Dict Json). put e "user_key" mark) (put-get p "token" t a))
    ∙ merge_secret-mark p "user_key" p u b tb
    ∙ put-get p "user_key" u b

-- every pushover of `d` is the one that `existing` has under its key, with its secrets there or not
abbrev pub IsStored : Dict (Dict Json) → Dict (Dict Json) → Type 0
IsStored existing [] = Unit
IsStored existing ((key, entry) ∷ d) =
    (get existing key ≡ some entry)
    × Present entry "token"
    × Present entry "user_key"
    × IsStored existing d

pub merge_pushovers-masked :
    (existing d : Dict (Dict Json))
    → IsStored existing d
    → merge_pushovers existing (map_values mask_entry d) ≡ d
unfolding merge_pushovers map_values
merge_pushovers-masked existing [] h = refl
merge_pushovers-masked existing ((key, entry) ∷ d) (g, t, u, rest) =
    ap
      (λ (o : Option (Dict Json)).
        (key, merge_entry (get_or o []) (mask_entry entry))
        ∷ merge_pushovers existing (map_values mask_entry d))
      g
    ∙ ap (λ (e : Dict Json). (key, e) ∷ merge_pushovers existing (map_values mask_entry d))
        (merge_entry-mask_entry entry t u)
    ∙ ap (λ (r : Dict (Dict Json)). (key, entry) ∷ r) (merge_pushovers-masked existing d rest)
