-- ===== src/Api/Pages.antt =====
-- foxrunner/pagination.py: the page of a list that a request asks for.
use fox_runner_server.Prelude.{
  ℕ, zero, suc, ◌+◌, ◌≤◌, ◌≡◌, refl, sym, ap, ◌∙◌, List, [], ◌∷◌, ◌++◌, map, length, take,
  length-take-le, min, max, ℤ, pos, negsuc, arith,
}

pub record PageQuery : Type 0 where
  pub limit : ℤ
  pub offset : ℤ

-- `page_response`
pub record Page (B : Type 0) : Type 0 where
  pub items : List B
  pub total : ℕ
  pub limit : ℕ
  pub offset : ℕ

-- `max(1, min(page.limit, 500))`
unfoldable pub page_limit : ℤ → ℕ
page_limit (pos n) = max 1 (min n 500)
page_limit (negsuc n) = 1

-- `max(0, page.offset)`
unfoldable pub page_offset : ℤ → ℕ
page_offset (pos n) = n
page_offset (negsuc n) = 0

module _ {A : Type 0} where
  unfoldable pub drop : ℕ → List A → List A
  drop zero xs = xs
  drop (suc n) [] = []
  drop (suc n) (x ∷ xs) = drop n xs

module _ {A B : Type 0} (serialize : A → B) where
  -- `qs[offset : offset + limit]`
  unfoldable pub paginate : List A → PageQuery → Page B
  paginate qs page =
      let limit = page_limit page.limit in
      let offset = page_offset page.offset in
      record {
        items = map serialize (take limit (drop offset qs));
        total = length qs;
        limit = limit;
        offset = offset;
      }

length-map {ℓ} : {A B : Type ℓ} (f : A → B) (xs : List A) → length (map f xs) ≡ length xs
length-map f [] = refl
length-map f (x ∷ xs) = ap suc (length-map f xs)

suc_add : (n k : ℕ) → suc (n + k) ≡ suc n + k
suc_add n k = omega arith

module _ {A : Type 0} where
  take-nil : (k : ℕ) → Path (List A) (take k []) []
  take-nil zero = refl
  take-nil (suc k) = refl

  drop-nil : (k : ℕ) → Path (List A) (drop k []) []
  unfolding drop
  drop-nil zero = refl
  drop-nil (suc k) = refl

  drop-drop : (n k : ℕ) (xs : List A) → drop (n + k) xs ≡ drop k (drop n xs)
  unfolding drop
  drop-drop zero k xs = ap (λ (m : ℕ). drop m xs) (omega arith)
  drop-drop (suc n) k [] = ap (λ (m : ℕ). drop m []) (sym (suc_add n k)) ∙ sym (drop-nil k)
  drop-drop (suc n) k (x ∷ xs) =
      ap (λ (m : ℕ). drop m (x ∷ xs)) (sym (suc_add n k)) ∙ drop-drop n k xs

  take-append : (n k : ℕ) (xs : List A) → take n xs ++ take k (drop n xs) ≡ take (n + k) xs
  unfolding drop
  take-append zero k xs = ap (λ (m : ℕ). take m xs) (omega arith)
  take-append (suc n) k [] = take-nil k ∙ sym (take-nil (suc n + k))
  take-append (suc n) k (x ∷ xs) =
      ap (λ (ys : List A). x ∷ ys) (take-append n k xs)
      ∙ ap (λ (m : ℕ). take m (x ∷ xs)) (suc_add n k)

map-append : {A B : Type 0} (f : A → B) (xs ys : List A) → map f xs ++ map f ys ≡ map f (xs ++ ys)
map-append f [] ys = refl
map-append f (x ∷ xs) ys = ap (λ (zs : List _). f x ∷ zs) (map-append f xs ys)

module _ {A B : Type 0} (serialize : A → B) where
  -- For a limit from 1 to 500, a page holds at most as many items as its limit; and the page whose
  -- offset is that of another plus the limit continues it: the two hold, serialized and in their
  -- order, the items of the list from the first offset on, up to twice the limit.
  pub paginate-continues :
      (qs : List A) (limit offset : ℕ)
      → 1 ≤ limit
      → limit ≤ 500
      → let first = paginate serialize qs (record { limit = pos limit; offset = pos offset }) in
        let second =
          paginate serialize qs (record { limit = pos limit; offset = pos (offset + limit) }) in
        (length first.items ≤ limit)
        × (first.items ++ second.items ≡ map serialize (take (limit + limit) (drop offset qs)))
  unfolding paginate page_limit page_offset
  paginate-continues qs limit offset low high =
      let here = take limit (drop offset qs) in
      let exact : max 1 (min limit 500) ≡ limit = omega (arith, low, high) in
      rw exact (
        omega (arith, length-map serialize here, length-take-le limit (drop offset qs)),
        map-append serialize here (take limit (drop (offset + limit) qs))
            ∙ ap (λ (rest : List A). map serialize (here ++ take limit rest))
                (drop-drop offset limit qs)
            ∙ ap (map serialize) (take-append limit limit (drop offset qs)),
      )
