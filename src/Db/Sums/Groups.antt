-- ===== src/Db/Sums/Groups.antt =====
-- Sums over the rows that are made from groups: what the queries of internal/db/visualization.sql.go that
-- group have in common.
use bankstmt_analyzer.Prelude.{
  ℕ, ◌+◌, ◌≡◌, refl, sym, ap₂, ◌∙◌, Bool, List, [], ◌∷◌, map, arith, if◌then◌else◌,
}
use bankstmt_analyzer.Db.{Numeric}
use bankstmt_analyzer.Db.Queries.{where_rows}
use bankstmt_analyzer.Db.Sums.{
  plus, minus, net, net-parts, net-same, weigh, sum, order_by, group_by, weigh-order_by,
  weigh-where_rows, weigh-same, weigh-map, weigh-group_by,
}

-- A column of rows that are made one by one and put in order has the sum that it has over what they are
-- made of.
pub sum-order_by-map :
    {A B : Type 0} (column : B → Numeric) (before : B → B → Bool) (f : A → B) (rows : List A)
    → sum column (order_by before (map f rows)) ≡ sum (λ a. column (f a)) rows
sum-order_by-map column before f rows =
    ap₂ net
      (weigh-order_by (λ b. plus (column b)) before (map f rows)
        ∙ weigh-map (λ b. plus (column b)) f rows)
      (weigh-order_by (λ b. minus (column b)) before (map f rows)
        ∙ weigh-map (λ b. minus (column b)) f rows)

module _ {K A : Type 0} where
  -- Differences that are summed: their parts balance.
  weigh-net :
      (f h : List A → ℕ) (groups : List (K × List A))
      → weigh (λ g. plus (net (f g.1) (h g.1))) groups + weigh (λ g. h g.1) groups
        ≡ weigh (λ g. minus (net (f g.1) (h g.1))) groups + weigh (λ g. f g.1) groups
  weigh-net f h [] = refl
  weigh-net f h ((k, rows) ∷ rest) = omega (arith, net-parts (f rows) (h rows), weigh-net f h rest)

  module _ (same : K → K → Bool) (key : A → K) (rows : List A) where
    abbrev groups : List (K × List A)
    groups = group_by same key rows

    -- The differences of the groups sum to the difference of all rows, if both parts do.
    net-group_by :
        (f h : List A → ℕ)
        → weigh (λ g. f g.1) groups ≡ f rows
        → weigh (λ g. h g.1) groups ≡ h rows
        → sum (λ g. net (f g.1) (h g.1)) groups ≡ net (f rows) (h rows)
    net-group_by f h up down =
        net-same _ _ (f rows) (h rows) (omega (arith, weigh-net f h groups, up, down))

    pub sum-group_by : (column : A → Numeric) → sum (λ g. sum column g.1) groups ≡ sum column rows
    sum-group_by column =
        net-group_by (weigh (λ a. plus (column a))) (weigh (λ a. minus (column a)))
          (weigh-group_by same (λ a. plus (column a)) key rows)
          (weigh-group_by same (λ a. minus (column a)) key rows)

    weigh-where-group_by :
        (w : A → ℕ) (p : A → Bool)
        → weigh (λ g. weigh w (where_rows p g.1)) groups ≡ weigh w (where_rows p rows)
    weigh-where-group_by w p =
        weigh-same _ (λ g. weigh (λ a. if p a then w a else 0) g.1) (λ g. weigh-where_rows w p g.1)
          groups
        ∙ (weigh-group_by same (λ a. if p a then w a else 0) key rows
            ∙ sym (weigh-where_rows w p rows))

    -- The same for a sum with a FILTER.
    pub sum-where-group_by :
        (column : A → Numeric) (p : A → Bool)
        → sum (λ g. sum column (where_rows p g.1)) groups ≡ sum column (where_rows p rows)
    sum-where-group_by column p =
        net-group_by (λ as'. weigh (λ a. plus (column a)) (where_rows p as'))
          (λ as'. weigh (λ a. minus (column a)) (where_rows p as'))
          (weigh-where-group_by (λ a. plus (column a)) p)
          (weigh-where-group_by (λ a. minus (column a)) p)
