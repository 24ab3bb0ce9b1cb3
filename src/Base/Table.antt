-- ===== src/Base/Table.antt =====
-- A table of rows, with the statements that the repository runs on one: SELECT of the first match,
-- UPDATE … WHERE, DELETE … WHERE and INSERT (a new row comes last).
use mathlib.Core.Path.{◌≡◌, refl, subst}
use mathlib.Core.Bool.{Bool, true, false}
use mathlib.Core.Option.{Option, none, some, some-injective}
use mathlib.Core.Option
use mathlib.Core.List.{List, [], ◌∷◌, ◌++◌}
use native.Mathlib.Omega.{arith}
use buzz_server.Base.Tests.{if◌then◌else◌, Bool-cases}
use buzz_server.Base.Lists.{All}
use mathlib.Core.Logic.{inl, inr}

module _ {ℓ} {R : Type ℓ} where
  unfoldable pub find : (R → Bool) → List R → Option R
  find p [] = none
  find p (r ∷ rs) = if p r then some r else find p rs

  unfoldable pub select : (R → Bool) → List R → List R
  select p [] = []
  select p (r ∷ rs) = let rest = select p rs in if p r then r ∷ rest else rest

  unfoldable pub update_where : (R → Bool) → (R → R) → List R → List R
  update_where p f [] = []
  update_where p f (r ∷ rs) = (if p r then f r else r) ∷ update_where p f rs

  unfoldable pub delete_where : (R → Bool) → List R → List R
  delete_where p [] = []
  delete_where p (r ∷ rs) = let rest = delete_where p rs in if p r then rest else r ∷ rest

  unfoldable pub insert_row : R → List R → List R
  insert_row r rs = rs ++ r ∷ []

  -- ORDER BY: a stable insertion sort.
  unfoldable pub insert_by : (R → R → Bool) → R → List R → List R
  insert_by before r [] = r ∷ []
  insert_by before r (x ∷ xs) = if before r x then r ∷ x ∷ xs else x ∷ insert_by before r xs

  unfoldable pub order_by : (R → R → Bool) → List R → List R
  unfolding insert_by
  order_by before [] = []
  order_by before (r ∷ rs) = insert_by before r (order_by before rs)

  pub find-insert_row :
      (p : R → Bool) (r : R) (rs : List R)
      → find p (insert_row r rs)
        ≡ elim (find p rs) [ none ↦ if p r then some r else none | some x ↦ some x ]
  unfolding find insert_row
  find-insert_row p r [] = refl
  find-insert_row p r (x ∷ rs) = ground (arith, find-insert_row p r rs)

  -- A row that nothing matched before is found once it is inserted.
  pub find-insert_row_fresh :
      (p : R → Bool) (r : R) (rs : List R)
      → find p rs ≡ none
      → p r ≡ true
      → find p (insert_row r rs) ≡ some r
  find-insert_row_fresh p r rs e h = rw (find-insert_row, e, h)

  -- What was found before is found after an insertion.
  pub find-insert_row_old :
      (p : R → Bool) (r : R) (rs : List R) {x : R}
      → find p rs ≡ some x
      → find p (insert_row r rs) ≡ some x
  find-insert_row_old p r rs e = rw (find-insert_row, e)

  -- An update that the search cannot see goes through the search.
  pub find-update_where :
      (p q : R → Bool) (f : R → R) (rs : List R)
      → ((r : R) → p (f r) ≡ p r)
      → find p (update_where q f rs) ≡ Option.map (λ r. if q r then f r else r) (find p rs)
  unfolding find update_where
  find-update_where p q f [] h = refl
  find-update_where p q f (x ∷ rs) h = ground (arith, h x, find-update_where p q f rs h)

  pub find-delete_where-none :
      (p q : R → Bool) (rs : List R)
      → ((r : R) → p r ≡ true → q r ≡ true)
      → find p (delete_where q rs) ≡ none
  unfolding find delete_where
  find-delete_where-none p q [] h = refl
  find-delete_where-none p q (x ∷ rs) h = ground (arith, h x, find-delete_where-none p q rs h)

  pub find-delete_where_ne :
      (p q : R → Bool) (rs : List R)
      → ((r : R) → p r ≡ true → q r ≡ false)
      → find p (delete_where q rs) ≡ find p rs
  unfolding find delete_where
  find-delete_where_ne p q [] h = refl
  find-delete_where_ne p q (x ∷ rs) h = ground (arith, h x, find-delete_where_ne p q rs h)

  -- A new row that is deleted leaves no trace.
  pub delete_where-insert_row :
      (q : R → Bool) (r : R) (rs : List R)
      → q r ≡ true
      → delete_where q (insert_row r rs) ≡ delete_where q rs
  unfolding delete_where insert_row
  delete_where-insert_row q r [] h = ground arith
  delete_where-insert_row q r (x ∷ rs) h = ground (arith, delete_where-insert_row q r rs h)

  pub find-delete_where_absent :
      (p q : R → Bool) (rs : List R) → find p rs ≡ none → find p (delete_where q rs) ≡ none
  unfolding find delete_where
  find-delete_where_absent p q [] h = refl
  find-delete_where_absent p q (x ∷ rs) h = ground (arith, find-delete_where_absent p q rs)

  -- The first match stays the first match when other rows go.
  pub find-delete_where_kept :
      (p q : R → Bool) (rs : List R) {r : R}
      → find p rs ≡ some r
      → q r ≡ false
      → find p (delete_where q rs) ≡ some r
  unfolding find delete_where
  find-delete_where_kept p q [] e h = cc
  find-delete_where_kept p q (x ∷ rs) {r} e h =
      ground (arith, find-delete_where_kept p q rs {r = r})

  pub find_sound : (p : R → Bool) (rs : List R) {r : R} → find p rs ≡ some r → p r ≡ true
  unfolding find
  find_sound p [] e = cc
  find_sound p (x ∷ rs) {r} e = ground (arith, find_sound p rs {r = r})

module _ {ℓ κ} {R : Type ℓ} (P : R → Type κ) where
  pub All-insert_row : (r : R) (rs : List R) → All P rs → P r → All P (insert_row r rs)
  unfolding insert_row
  All-insert_row r [] h k = (k, tt)
  All-insert_row r (x ∷ rs) h k = (h.0, All-insert_row r rs h.1 k)

  pub All-update_where :
      (q : R → Bool) (f : R → R) (rs : List R)
      → ((r : R) → q r ≡ true → P r → P (f r))
      → All P rs
      → All P (update_where q f rs)
  unfolding update_where
  All-update_where q f [] keep h = tt
  All-update_where q f (x ∷ rs) keep h = elim (Bool-cases (q x)) [
    | inl e ↦ rw e (keep x e h.0, All-update_where q f rs keep h.1)
    | inr e ↦ rw e (h.0, All-update_where q f rs keep h.1)
  ]

  pub All-delete_where : (q : R → Bool) (rs : List R) → All P rs → All P (delete_where q rs)
  unfolding delete_where
  All-delete_where q [] h = tt
  All-delete_where q (x ∷ rs) h = elim (Bool-cases (q x)) [
    | inl e ↦ rw e (All-delete_where q rs h.1)
    | inr e ↦ rw e (h.0, All-delete_where q rs h.1)
  ]

  pub All-find : (p : R → Bool) (rs : List R) {r : R} → All P rs → find p rs ≡ some r → P r
  unfolding find
  All-find p [] h e = cc
  All-find p (x ∷ rs) {r} h e = elim (Bool-cases (p x)) [
    | inl t ↦ subst P (some-injective x r (rw t at e)) h.0
    | inr t ↦ All-find p rs h.1 (rw t at e)
  ]
