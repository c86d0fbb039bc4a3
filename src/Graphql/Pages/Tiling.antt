-- ===== src/Graphql/Pages/Tiling.antt =====
-- That the pages of packages/web/graphql-client/src/pagination.ts cover the rows of a server.
use predictor_common.Prelude.Text.{Text}
use predictor_common.Prelude.Digits.{decimal}
use predictor_common.Prelude.Int.{pos}
use mathlib.Core.Path.{ap₂}
use native.Mathlib.Nat.{suc-mul, div-add-mod', mod-lt}
use predictor_common.Prelude.{
  ℕ, zero, suc, ◌+◌, ◌*◌, ◌/◌, ◌≤◌, ◌<◌, ◌%◌, ◌≡◌, refl, sym, ap, ◌∙◌, ◌⊎◌, inl, inr, Option-cases,
  Option, none, some, List, [], ◌∷◌, ◌++◌, length, take, drop, arith,
}
use predictor_common.Graphql.Pages.{
  PaginationOptions, ItemsConnection, ItemsResponse, finite, page_count, after_offset,
  pagination_to_connection_cursor, prepend, transform_all, response_of, extract_connection_items,
}

-- A server whose cursors are offsets: an answer holds the rows after the cursor, as many as are asked
-- for or are left, and counts all rows.
pub record Serves {ℓ} {T : Type ℓ} (rows : List T) (server : ℕ → Option Text → ItemsConnection T)
    : Type ℓ where
  pub from_start : (first : ℕ) → (server first none).nodes ≡ take first rows
  pub from_cursor :
      (first offset : ℕ)
      → (server first (some (decimal offset))).nodes ≡ take first (drop offset rows)
  pub counts :
      (first : ℕ) (after : Option Text) → (server first after).total_count ≡ some (length rows)

abbrev pub then {ℓ} : {A : Type ℓ} → Option (List A) → Option (List A) → Option (List A)
then none b = none
then (some xs) none = none
then (some xs) (some ys) = some (xs ++ ys)

-- Each row transforms, to the row at its place.
pub data Images {ℓ κ} {T : Type ℓ} {R : Type κ} (transform : T → Option R)
    : List T → List R → Type (ℓ ⊔ κ) where
  done : Images transform [] []
  image :
      {x : T} {xs : List T} {y : R} {ys : List R}
      → transform x ≡ some y
      → Images transform xs ys
      → Images transform (x ∷ xs) (y ∷ ys)

-- The transform of some row rejects.
pub data SomeRejects {ℓ κ} {T : Type ℓ} {R : Type κ} (transform : T → Option R)
    : List T → Type (ℓ ⊔ κ) where
  at_once : {x : T} {xs : List T} → transform x ≡ none → SomeRejects transform (x ∷ xs)
  further : {x : T} {xs : List T} → SomeRejects transform xs → SomeRejects transform (x ∷ xs)

abbrev pub data_of {ℓ} : {A : Type ℓ} → Option (ItemsResponse A) → Option (List A)
data_of none = none
data_of (some response) = some response.items

module _ {ℓ κ} {T : Type ℓ} {R : Type κ} (server : ℕ → Option Text → ItemsConnection T)
    (transform : T → Option R) where
  -- One page, fetched and extracted.
  abbrev pub fetch_page : PaginationOptions → Option (ItemsResponse R)
  fetch_page p =
      let cursor = pagination_to_connection_cursor p in
      extract_connection_items (server cursor.first cursor.after) p transform

  -- The rows of so many pages, from the given one on.
  abbrev pub walk : ℕ → ℕ → ℕ → Option (List R)
  walk size page zero = some []
  walk size page (suc n) =
      then (data_of (fetch_page (record { page = page; page_size = size })))
        (walk size (suc page) n)

  prepend-then :
      (row : Option R) (xs ys : Option (List R))
      → prepend row (then xs ys) ≡ then (prepend row xs) ys
  prepend-then none xs ys = refl
  prepend-then (some row) none ys = refl
  prepend-then (some row) (some xs) none = refl
  prepend-then (some row) (some xs) (some ys) = refl

  then-start : (ys : Option (List R)) → ys ≡ then (some []) ys
  then-start none = refl
  then-start (some ys) = refl

  transform_all-append :
      (xs ys : List T)
      → transform_all transform (xs ++ ys)
        ≡ then (transform_all transform xs) (transform_all transform ys)
  unfolding transform_all
  transform_all-append [] ys = then-start (transform_all transform ys)
  transform_all-append (x ∷ xs) ys =
      ap (prepend (transform x)) (transform_all-append xs ys)
      ∙ prepend-then (transform x) (transform_all transform xs) (transform_all transform ys)

  transform_all-cases :
      (xs : List T)
      → ((ys : List R) × Images transform xs ys × (transform_all transform xs ≡ some ys))
        ⊎ (SomeRejects transform xs × (transform_all transform xs ≡ none))
  unfolding transform_all
  transform_all-cases [] = inl ([], done, refl)
  transform_all-cases (x ∷ xs) = elim (Option-cases (transform x)) [
    | inl rejects ↦ inr (at_once rejects, rw rejects refl)
    | inr (y, e) ↦ elim (transform_all-cases xs) [
      | inl (ys, each, es) ↦ inl (y ∷ ys, image e each, rw (e, es) refl)
      | inr (some_row, es) ↦ inr (further some_row, rw (e, es) refl)
    ]
  ]

  transform_all-take :
      (n : ℕ) (xs : List T) (ys : List R)
      → Images transform xs ys
      → transform_all transform (take n xs) ≡ some (take n ys)
  unfolding transform_all
  transform_all-take zero xs ys each = refl
  transform_all-take (suc n) [] [] done = refl
  transform_all-take (suc n) [] (y ∷ ys) each = elim each [ ]
  transform_all-take (suc n) (x ∷ xs) [] each = elim each [ ]
  transform_all-take (suc n) (x ∷ xs) (y ∷ ys) (image e each) =
      rw (e, transform_all-take n xs ys each) refl

  data-response_of :
      (connection : ItemsConnection T) (p : PaginationOptions) (o : Option (List R))
      → data_of (response_of connection p o) ≡ o
  data-response_of connection p none = refl
  data-response_of connection p (some rows) = refl

module _ {ℓ} {A : Type ℓ} where
  drop-by : (m n : ℕ) (xs : List A) → m ≡ n → drop m xs ≡ drop n xs
  drop-by m n xs e = ap (λ k. drop k xs) e

  take-by : (m n : ℕ) (xs : List A) → m ≡ n → take m xs ≡ take n xs
  take-by m n xs e = ap (λ k. take k xs) e

  drop-nil : (n : ℕ) → drop {A = A} n [] ≡ []
  drop-nil zero = refl
  drop-nil (suc n) = refl

  take-nil : (n : ℕ) → take {A = A} n [] ≡ []
  take-nil zero = refl
  take-nil (suc n) = refl

  drop-drop : (m n : ℕ) (xs : List A) → drop m (drop n xs) ≡ drop (n + m) xs
  drop-drop m zero xs = ap (λ k. drop k xs) (omega arith)
  drop-drop m (suc n) [] = drop-nil m ∙ sym (drop-nil (suc n + m))
  drop-drop m (suc n) (x ∷ xs) =
      drop-drop m n xs ∙ drop-by (suc (n + m)) (suc n + m) (x ∷ xs) (omega arith)

  take-add : (m n : ℕ) (xs : List A) → take (m + n) xs ≡ take m xs ++ take n (drop m xs)
  take-add zero n xs = ap (λ k. take k xs) (omega arith)
  take-add (suc m) n [] = take-nil (suc m + n) ∙ sym (take-nil n)
  take-add (suc m) n (x ∷ xs) =
      take-by (suc m + n) (suc (m + n)) (x ∷ xs) (omega arith) ∙ ap (λ ys. x ∷ ys) (take-add m n xs)

  take-all : (n : ℕ) (xs : List A) → length xs ≤ n → take n xs ≡ xs
  take-all n [] h = take-nil n
  take-all zero (x ∷ xs) h = elim h [ ]
  take-all (suc n) (x ∷ xs) h = ap (λ ys. x ∷ ys) (take-all n xs (omega (arith, h)))

module _ {ℓ κ} {T : Type ℓ} {R : Type κ} (rows : List T)
    (server : ℕ → Option Text → ItemsConnection T) (serves : Serves rows server)
    (transform : T → Option R) where
  nodes-after :
      (first offset : ℕ)
      → (server first (after_offset (pos offset))).nodes ≡ take first (drop offset rows)
  nodes-after first zero = serves.from_start first
  nodes-after first (suc offset) = serves.from_cursor first (suc offset)

  items-fetch_page :
      (size p : ℕ)
      → data_of (fetch_page server transform (record { page = suc p; page_size = size }))
        ≡ transform_all transform (take size (drop (p * size) rows))
  unfolding extract_connection_items pagination_to_connection_cursor
  items-fetch_page size p =
      data-response_of server transform (server size (after_offset (pos (p * size))))
        (record { page = suc p; page_size = size })
        (transform_all transform (server size (after_offset (pos (p * size)))).nodes)
      ∙ ap (transform_all transform) (nodes-after size (p * size))

  -- A page whose rows transform reports the count of the server's rows.
  reports-fetch_page :
      (size p : ℕ) (ys : List R)
      → transform_all transform (take size (drop (p * size) rows)) ≡ some ys
      → (response : ItemsResponse R) × (fetch_page server transform
            (record { page = suc p; page_size = size })
          ≡ some response)
        × (response.page_info.total_page_count ≡ page_count (some (length rows)) size)
  unfolding extract_connection_items pagination_to_connection_cursor
  reports-fetch_page size p ys e =
      let connection = server size (after_offset (pos (p * size))) in
      (
        record {
          items = ys;
          page_info = record {
            page = suc p;
            page_size = size;
            total_page_count = page_count connection.total_count size;
            has_previous = connection.page_info.has_previous_page;
            has_next = connection.page_info.has_next_page;
          };
          total_count = connection.total_count;
        },
        ap (response_of connection (record { page = suc p; page_size = size }))
            (ap (transform_all transform) (nodes-after size (p * size)) ∙ e),
        ap (λ total. page_count total size) (serves.counts size (after_offset (pos (p * size)))),
      )

  walk-take :
      (size n p : ℕ)
      → walk server transform size (suc p) n
        ≡ transform_all transform (take (n * size) (drop (p * size) rows))
  unfolding transform_all
  walk-take size zero p =
      ap (transform_all transform) (take-by 0 (0 * size) (drop (p * size) rows) (omega arith))
  walk-take size (suc n) p =
      let here = drop (p * size) rows in
      ap₂ then (items-fetch_page size p) (walk-take size n (suc p))
      ∙ ap
          (λ ys.
            then (transform_all transform (take size here))
              (transform_all transform (take (n * size) ys)))
          (drop-by (suc p * size) (p * size + size) rows (omega (arith, suc-mul p size))
            ∙ sym (drop-drop size (p * size) rows))
      ∙ sym (
          transform_all-append server transform (take size here) (take (n * size) (drop size here)))
      ∙ ap (transform_all transform) (
          sym (take-add size (n * size) here)
          ∙ take-by (size + n * size) (suc n * size) here (omega (arith, suc-mul n size)))

count-le : (n size : ℕ) → n ≤ (n + size) / suc size * suc size
count-le n size =
    let whole = div-add-mod' (n + size) (suc size) in
    let rest : (n + size) % suc size < suc size = mod-lt (n + size) (omega arith) in
    omega (arith, whole, rest)

count-lt : (n size : ℕ) → (n + size) / suc size * suc size < n + suc size
count-lt n size = omega (arith, div-add-mod' (n + size) (suc size))

module _ {ℓ κ} {T : Type ℓ} {R : Type κ} (rows : List T)
    (server : ℕ → Option Text → ItemsConnection T) (transform : T → Option R) (size : ℕ)
    (serves : Serves rows server) where
  abbrev count : ℕ
  count = (length rows + size) / suc size

  walk-count : walk server transform (suc size) 1 count ≡ transform_all transform rows
  walk-count =
      walk-take rows server serves transform (suc size) count 0
      ∙ ap (λ ys. transform_all transform (take (count * suc size) ys))
          (drop-by (0 * suc size) 0 rows (omega arith))
      ∙ ap (transform_all transform)
          (take-all (count * suc size) rows (count-le (length rows) size))

  first_page :
      (ys : List R)
      → Images transform rows ys
      → (response : ItemsResponse R) × (fetch_page server transform
            (record { page = 1; page_size = suc size })
          ≡ some response)
        × (response.page_info.total_page_count ≡ some (finite count))
  first_page ys each =
      reports-fetch_page rows server serves transform (suc size) 0 (take (suc size) ys) (
        ap (λ rest. transform_all transform (take (suc size) rest))
          (drop-by (0 * suc size) 0 rows (omega arith))
        ∙ transform_all-take server transform (suc size) rows ys each)

-- Over a server whose cursors are offsets, and a size of pages that is not zero: for the least number
-- of pages that holds all rows, either each row transforms, the response for page 1 reports that
-- number, and so many pages, fetched in turn from page 1 and put one behind the other, are the
-- transformed rows, each once and in the order of the server; or the transform of some row
-- rejects, and so does that walk.
pub walk-pages {ℓ κ} :
    {T : Type ℓ} {R : Type κ} (rows : List T) (server : ℕ → Option Text → ItemsConnection T)
    (transform : T → Option R) (size : ℕ)
    → Serves rows server
    → (count : ℕ) × (length rows ≤ count * suc size)
      × (count * suc size < length rows + suc size)
      × (((ys : List R) × (response : ItemsResponse R) × Images transform rows ys
            × (fetch_page server transform (record { page = 1; page_size = suc size })
                ≡ some response)
            × (response.page_info.total_page_count ≡ some (finite count))
            × (walk server transform (suc size) 1 count ≡ some ys))
          ⊎ (SomeRejects transform rows × (walk server transform (suc size) 1 count ≡ none)))
walk-pages rows server transform size serves = (
  count rows server transform size serves,
  count-le (length rows) size,
  count-lt (length rows) size,
  elim (transform_all-cases server transform rows) [
    | inl (ys, each, e) ↦
        let (response, fetched, reported) = first_page rows server transform size serves ys each in
        inl
          (ys, response, each, fetched, reported, walk-count rows server transform size serves ∙ e)
    | inr (rejects, e) ↦ inr (rejects, walk-count rows server transform size serves ∙ e)
  ],
)
