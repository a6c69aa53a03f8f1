-- ===== src/Workflow/Table.antt =====
-- A table of the database with soft deletion: the rows of one model, each with its entity and its
-- flag. `objects.get`, `filter` and `update_or_create` of the ORM are functions on the rows.
use fmms.Prelude.{
  ℕ, ◌+◌, ◌≡◌, Bool, true, false, Option, none, some, List, [], ◌∷◌, ◌==◌, Uuid, DateTime, ltb,
  if◌then◌else◌, arith,
}

pub record Row (A : Type 0) : Type 0 where
  pub entity : A
  pub is_deleted : Bool

-- `filter(is_deleted=False)` on one row.
abbrev pub visible : {A : Type 0} → Option (Row A) → Option A
visible none = none
visible (some r) = if r.is_deleted then none else some r.entity

-- A test counted.
abbrev pub tally : Bool → ℕ
tally true = 1
tally false = 0

module _ {A : Type 0} where
  unfoldable pub count : (Row A → Bool) → List (Row A) → ℕ
  count p [] = 0
  count p (r ∷ rows) = tally (p r) + count p rows

  -- `filter(..., is_deleted=False)`, in the order of the rows.
  unfoldable pub select : (A → Bool) → List (Row A) → List A
  select p [] = []
  select p (r ∷ rows) =
      let rest = select p rows in
      if r.is_deleted then rest else if p r.entity then r.entity ∷ rest else rest

  -- `filter(...).first()`
  unfoldable pub first : (A → Bool) → List (Row A) → Option A
  first p [] = none
  first p (r ∷ rows) =
      let rest = first p rows in
      if r.is_deleted then rest else if p r.entity then some r.entity else rest

  -- The later of two, the first one if they are as late.
  abbrev later : (A → DateTime) → A → Option A → Option A
  later at a none = some a
  later at a (some b) = if ltb (at a) (at b) then some b else some a

  -- `filter(...).order_by("-created_at").first()`
  unfoldable pub latest : (A → DateTime) → (A → Bool) → List (Row A) → Option A
  latest at p [] = none
  latest at p (r ∷ rows) =
      let rest = latest at p rows in
      if r.is_deleted then rest else if p r.entity then later at r.entity rest else rest

module _ {A : Type 0} (id_of : A → Uuid) where
  -- The row with a primary key.
  unfoldable pub row_of : Uuid → List (Row A) → Option (Row A)
  row_of i [] = none
  row_of i (r ∷ rows) = if id_of r.entity == i then some r else row_of i rows

  -- `get(id=..., is_deleted=False)`
  abbrev pub find : Uuid → List (Row A) → Option A
  find i rows = visible (row_of i rows)

  -- `update_or_create(id=a.id, defaults=...)`: `stored` is the row that is written, from the row that
  -- was there, if any. The primary key is the only constraint here: a save that breaks another one,
  -- as a second hand-over of an order, raises `IntegrityError` in the program and is outside the
  -- model.
  unfoldable pub put : (Option (Row A) → A → Row A) → A → List (Row A) → List (Row A)
  put stored a [] = stored none a ∷ []
  put stored a (r ∷ rows) =
      if id_of r.entity == id_of a then stored (some r) a ∷ rows else r ∷ put stored a rows

  pub row_of-id :
      (i : Uuid) (rows : List (Row A)) {r : Row A} → row_of i rows ≡ some r → id_of r.entity ≡ i
  unfolding row_of
  row_of-id i [] h = cc
  row_of-id i (s ∷ rows) {r} h = ground (arith, row_of-id i rows {r = r})

  module _ (stored : Option (Row A) → A → Row A) where
    -- The row of the key is the one that was written, and no other row changes.
    pub row_of-put :
        ((o : Option (Row A)) (a : A) → id_of (stored o a).entity ≡ id_of a)
        → (i : Uuid) (a : A) (rows : List (Row A))
        → row_of i (put stored a rows)
          ≡ (if i == id_of a then some (stored (row_of (id_of a) rows) a) else row_of i rows)
    unfolding row_of put
    row_of-put keeps i a [] = ground (arith, keeps none a)
    row_of-put keeps i a (r ∷ rows) = ground (arith, keeps (some r) a, row_of-put keeps i a rows)

    -- A write of a row that is there.
    pub count-put_old :
        (p : Row A → Bool) (a : A) (rows : List (Row A)) {r : Row A}
        → row_of (id_of a) rows ≡ some r
        → count p (put stored a rows) + tally (p r) ≡ count p rows + tally (p (stored (some r) a))
    unfolding row_of put count
    count-put_old p a [] h = cc
    count-put_old p a (s ∷ rows) {r} h = ground (arith, count-put_old p a rows {r = r})

    -- A new row.
    pub count-put_new :
        (p : Row A → Bool) (a : A) (rows : List (Row A))
        → row_of (id_of a) rows ≡ none
        → count p (put stored a rows) ≡ count p rows + tally (p (stored none a))
    unfolding row_of put count
    count-put_new p a [] h = omega arith
    count-put_new p a (r ∷ rows) h = ground (arith, count-put_new p a rows)
