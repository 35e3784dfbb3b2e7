-- ===== src/Db/Sums.antt =====
-- What the aggregates of internal/db/visualization.sql.go compute: SUM of numeric columns, GROUP BY and
-- ORDER BY on lists of rows.
pub mod Groups
pub mod Keys
use bankstmt_analyzer.Prelude.{
  ℕ, ◌+◌, ◌-◌, ◌≡◌, refl, ◌&&◌, Bool, true, false, List, [], ◌∷◌, map, arith, leb, if◌then◌else◌,
}
use bankstmt_analyzer.Db.{Numeric}
use bankstmt_analyzer.Db.Queries.{where_rows}

-- The part of an amount above zero, and the part below.
abbrev pub plus : Numeric → ℕ
plus n = if n.negative then 0 else n.cents

abbrev pub minus : Numeric → ℕ
minus n = if n.negative then n.cents else 0

-- The difference of two magnitudes.
unfoldable pub net : ℕ → ℕ → Numeric
net p m =
    if leb m p
    then record { negative = false; cents = p - m }
    else record { negative = true; cents = m - p }

pub net-parts : (p m : ℕ) → plus (net p m) + m ≡ minus (net p m) + p
unfolding net
net-parts p m = ground arith

pub net-same : (p m q n : ℕ) → p + n ≡ q + m → net p m ≡ net q n
unfolding net
net-same p m q n h = ground arith

module _ {A : Type 0} where
  -- The sum of a measure of the rows.
  abbrev pub weigh : (A → ℕ) → List A → ℕ
  weigh w [] = 0
  weigh w (a ∷ rest) = w a + weigh w rest

  -- `COALESCE(SUM(column), 0)`
  abbrev pub sum : (A → Numeric) → List A → Numeric
  sum column rows = net (weigh (λ a. plus (column a)) rows) (weigh (λ a. minus (column a)) rows)

  -- `ORDER BY`, where `before a b` says that `a` need not stand behind `b`.
  unfoldable pub insert_row : (A → A → Bool) → A → List A → List A
  insert_row before a [] = a ∷ []
  insert_row before a (b ∷ rest) = if before a b then a ∷ b ∷ rest else b ∷ insert_row before a rest

  unfoldable pub order_by : (A → A → Bool) → List A → List A
  unfolding insert_row
  order_by before [] = []
  order_by before (a ∷ rest) = insert_row before a (order_by before rest)

  weigh-insert_row :
      (w : A → ℕ) (before : A → A → Bool) (a : A) (rows : List A)
      → weigh w (insert_row before a rows) ≡ w a + weigh w rows
  unfolding insert_row
  weigh-insert_row w before a [] = refl
  weigh-insert_row w before a (b ∷ rest) = ground (arith, weigh-insert_row w before a rest)

  pub weigh-order_by :
      (w : A → ℕ) (before : A → A → Bool) (rows : List A)
      → weigh w (order_by before rows) ≡ weigh w rows
  unfolding order_by
  weigh-order_by w before [] = refl
  weigh-order_by w before (a ∷ rest) =
      omega
        (arith, weigh-insert_row w before a (order_by before rest), weigh-order_by w before rest)

  pub weigh-where_rows :
      (w : A → ℕ) (p : A → Bool) (rows : List A)
      → weigh w (where_rows p rows) ≡ weigh (λ a. if p a then w a else 0) rows
  weigh-where_rows w p [] = refl
  weigh-where_rows w p (a ∷ rest) = ground (arith, weigh-where_rows w p rest)

  pub weigh-same :
      (v w : A → ℕ) → ((a : A) → v a ≡ w a) → (rows : List A) → weigh v rows ≡ weigh w rows
  weigh-same v w h [] = refl
  weigh-same v w h (a ∷ rest) = omega (arith, h a, weigh-same v w h rest)

  pub weigh-add :
      (v w : A → ℕ) (rows : List A) → weigh (λ a. v a + w a) rows ≡ weigh v rows + weigh w rows
  weigh-add v w [] = refl
  weigh-add v w (a ∷ rest) = omega (arith, weigh-add v w rest)

-- `WHERE` behind `WHERE`.
pub where_rows-twice :
    {A : Type 0} (p q : A → Bool) (rows : List A)
    → where_rows q (where_rows p rows) ≡ where_rows (λ a. p a && q a) rows
where_rows-twice p q [] = refl
where_rows-twice p q (a ∷ rest) = ground (arith, where_rows-twice p q rest)

pub weigh-map :
    {A B : Type 0} (w : B → ℕ) (f : A → B) (rows : List A)
    → weigh w (map f rows) ≡ weigh (λ a. w (f a)) rows
weigh-map w f [] = refl
weigh-map w f (a ∷ rest) = omega (arith, weigh-map w f rest)

module _ {K A : Type 0} (same : K → K → Bool) where
  -- A row joins the group of its key, which is made if it is not there.
  unfoldable pub join_group : K → A → List (K × List A) → List (K × List A)
  join_group k a [] = (k, a ∷ []) ∷ []
  join_group k a ((l, rows) ∷ rest) =
      if same k l then (l, a ∷ rows) ∷ rest else (l, rows) ∷ join_group k a rest

  -- `GROUP BY key`
  unfoldable pub group_by : (A → K) → List A → List (K × List A)
  unfolding join_group
  group_by key [] = []
  group_by key (a ∷ rest) = join_group (key a) a (group_by key rest)

  weigh-join_group :
      (w : A → ℕ) (k : K) (a : A) (groups : List (K × List A))
      → weigh (λ g. weigh w g.1) (join_group k a groups) ≡ w a + weigh (λ g. weigh w g.1) groups
  unfolding join_group
  weigh-join_group w k a [] = omega arith
  weigh-join_group w k a ((l, rows) ∷ rest) = ground (arith, weigh-join_group w k a rest)

  -- Grouping loses no row and counts none twice.
  pub weigh-group_by :
      (w : A → ℕ) (key : A → K) (rows : List A)
      → weigh (λ g. weigh w g.1) (group_by key rows) ≡ weigh w rows
  unfolding group_by
  weigh-group_by w key [] = refl
  weigh-group_by w key (a ∷ rest) =
      omega (arith, weigh-join_group w (key a) a (group_by key rest), weigh-group_by w key rest)
