-- ===== src/Db/Visualization/Balances.antt =====
-- The points of `BalanceOverTime` in internal/db/visualization.sql.go.
use bankstmt_analyzer.Prelude.{
  ◌≡◌, refl, sym, subst, Bool, true, false, ◌&&◌, Option, none, some, List, [], ◌∷◌, All, All-mono,
  In, inl, inr, ◌⊎◌, arith, Bool-cases,
}
use bankstmt_analyzer.Db.{Date, Numeric, Transaction}
use bankstmt_analyzer.Db.Queries.{where_rows, any_row}
use bankstmt_analyzer.Db.Sums.{order_by}
use bankstmt_analyzer.Db.Sums.Keys.{All-order_by, All-from-order_by}
use bankstmt_analyzer.Db.Visualization.{WindowParams, in_window, BalanceOverTimeRow}
use bankstmt_analyzer.Db.Visualization.Series.{
  same_day, day_before, later_first, first_of_day, has_balance, points, add_point, balance_rows,
}
use bankstmt_analyzer.Db.Visualization.Closing.{
  InOrder, After, IsLast, order_by-InOrder, first_of_day-IsLast, first_of_day-All, rest-After,
}

-- The transactions of the window that have a balance.
abbrev pub with_balance : WindowParams → List Transaction → List Transaction
with_balance p ts = where_rows (λ t. in_window p t && has_balance t) ts

-- A transaction of the table is in the window, and has the row's day and balance; none of that day in the
-- window that has a balance was recorded later.
pub record IsClosing (p : WindowParams) (ts : List Transaction) (r : BalanceOverTimeRow)
    : Type 0 where
  pub closing : Transaction
  pub recorded : In closing ts
  pub kept : in_window p closing && has_balance closing ≡ true
  pub day : closing.txn_date ≡ r.txn_date
  pub amount : closing.balance_after ≡ some r.balance
  pub last : IsLast (with_balance p ts) closing

-- The days ascend, so that none has two points.
abbrev pub Ascending : List BalanceOverTimeRow → Type 0
Ascending [] = Unit
Ascending (r ∷ rest) = All (λ s. day_before r.txn_date s.txn_date ≡ true) rest × Ascending rest

-- A point has the day of the transaction.
abbrev pub HasPoint : List BalanceOverTimeRow → Transaction → Type 0
HasPoint rows t = any_row (λ r. same_day r.txn_date t.txn_date) rows ≡ true

module _ {A : Type 0} (q : A → Bool) where
  -- What is kept stands in the table, and passes the test.
  where_rows-In : (rows : List A) → All (λ t. In t rows × (q t ≡ true)) (where_rows q rows)
  where_rows-In [] = tt
  where_rows-In (t ∷ rest) =
      let later =
        All-mono (λ u. In u rest × (q u ≡ true)) (λ u. In u (t ∷ rest) × (q u ≡ true))
          (λ u h. (inr h.0, h.1)) (where_rows q rest) (where_rows-In rest) in
      elim (Bool-cases (q t)) [ inl e ↦ rw e ((inl refl, e), later) | inr n ↦ rw n later ]

module _ (p : WindowParams) (ts : List Transaction) where
  abbrev IsSource : Transaction → Type 0
  IsSource t = (In t ts × (in_window p t && has_balance t ≡ true)) × IsLast (with_balance p ts) t

  add-IsClosing :
      (t : Transaction) (b : Option Numeric) (rest : List BalanceOverTimeRow)
      → t.balance_after ≡ b
      → IsSource t
      → All (IsClosing p ts) rest
      → All (IsClosing p ts) (add_point t.txn_date b rest)
  add-IsClosing t none rest e h hs = hs
  add-IsClosing t (some b) rest e h hs = (
    record { closing = t; recorded = h.0.0; kept = h.0.1; day = refl; amount = e; last = h.1 },
    hs,
  )

  points-IsClosing :
      (rows : List Transaction) → All IsSource rows → All (IsClosing p ts) (points rows)
  points-IsClosing [] h = tt
  points-IsClosing (t ∷ rest) h =
      add-IsClosing t t.balance_after (points rest) refl h.0 (points-IsClosing rest h.1)

  abbrev ordered : List Transaction
  ordered = order_by later_first (with_balance p ts)

  sources :
      (rows : List Transaction)
      → All (λ t. In t ts × (in_window p t && has_balance t ≡ true)) rows
      → All (IsLast ordered) rows
      → All IsSource rows
  sources [] h k = tt
  sources (t ∷ rest) h k =
      ((h.0, All-from-order_by _ later_first (with_balance p ts) k.0), sources rest h.1 k.1)

  balance_rows-IsClosing : All (IsClosing p ts) (balance_rows p ts)
  unfolding balance_rows
  balance_rows-IsClosing = points-IsClosing (first_of_day none ordered) (
      sources (first_of_day none ordered)
        (first_of_day-All _ none ordered (
          All-order_by _ later_first (with_balance p ts)
            (where_rows-In (λ t. in_window p t && has_balance t) ts)))
        (first_of_day-IsLast none ordered (order_by-InOrder (with_balance p ts))))

  later-points :
      (d : Date) (rows : List Transaction)
      → All (After d) rows
      → All (λ s. day_before d s.txn_date ≡ true) (points rows)
  later-points d [] h = tt
  later-points d (t ∷ rest) h =
      elim t.balance_after
        as (λ b. All (λ s. day_before d s.txn_date ≡ true) (add_point t.txn_date b (points rest))) [
          | none ↦ later-points d rest h.1
          | some b ↦ (h.0, later-points d rest h.1)
        ]

  add-Ascending :
      (t : Transaction) (b : Option Numeric) (rows : List Transaction)
      → All (After t.txn_date) rows
      → Ascending (points rows)
      → Ascending (add_point t.txn_date b (points rows))
  add-Ascending t none rows h k = k
  add-Ascending t (some b) rows h k = (later-points t.txn_date rows h, k)

  points-Ascending :
      (last : Option Date) (rows : List Transaction)
      → InOrder rows
      → Ascending (points (first_of_day last rows))
  unfolding first_of_day
  points-Ascending last [] h = tt
  points-Ascending none (t ∷ rest) h =
      add-Ascending t t.balance_after (first_of_day (some t.txn_date) rest) (rest-After t rest h)
        (points-Ascending (some t.txn_date) rest h.1)
  points-Ascending (some d) (t ∷ rest) h =
      let after = points-Ascending (some t.txn_date) rest h.1 in
      elim (Bool-cases (same_day d t.txn_date)) [
        | inl e ↦ rw e after
        | inr n ↦ rw n (
            add-Ascending t t.balance_after (first_of_day (some t.txn_date) rest)
              (rest-After t rest h) after)
      ]

  balance_rows-Ascending : Ascending (balance_rows p ts)
  unfolding balance_rows
  balance_rows-Ascending = points-Ascending none ordered (order_by-InOrder (with_balance p ts))

  -- The day has a point, or is that of the row before.
  abbrev Covered : Option Date → List BalanceOverTimeRow → Transaction → Type 0
  Covered none rows t = HasPoint rows t
  Covered (some d) rows t = (same_day d t.txn_date ≡ true) ⊎ HasPoint rows t

  add-HasPoint :
      (d : Date) (b : Option Numeric) (rows : List BalanceOverTimeRow) (t : Transaction)
      → HasPoint rows t
      → HasPoint (add_point d b rows) t
  add-HasPoint d none rows t h = h
  add-HasPoint d (some b) rows t h = ground arith

  head-HasPoint :
      (u : Transaction) (b : Option Numeric) (rows : List BalanceOverTimeRow) (t : Transaction)
      → u.balance_after ≡ b
      → has_balance u ≡ true
      → same_day u.txn_date t.txn_date ≡ true
      → HasPoint (add_point u.txn_date b rows) t
  head-HasPoint u none rows t e h same = absurd (ground arith)
  head-HasPoint u (some b) rows t e h same = ground arith

  same_day_refl : (t : Transaction) → same_day t.txn_date t.txn_date ≡ true
  same_day_refl t = ground arith

  same_day_trans :
      (d : Date) (t u : Transaction)
      → same_day d t.txn_date ≡ true
      → same_day t.txn_date u.txn_date ≡ true
      → same_day d u.txn_date ≡ true
  same_day_trans d t u h k = ground arith

  -- What follows a row that has a point is covered by it.
  by_head :
      (t : Transaction) (rows out : List Transaction)
      → has_balance t ≡ true
      → All (Covered (some t.txn_date) (points out)) rows
      → All (HasPoint (points (t ∷ out))) rows
  by_head t rows out balanced h =
      All-mono (Covered (some t.txn_date) (points out)) (HasPoint (points (t ∷ out)))
        (λ u covered. elim covered [
          | inl same ↦ head-HasPoint t t.balance_after (points out) u refl balanced same
          | inr there ↦ add-HasPoint t.txn_date t.balance_after (points out) u there
        ])
        rows h

  skipped :
      (d : Date) (t : Transaction) (rest : List Transaction)
      → same_day d t.txn_date ≡ true
      → first_of_day (some d) (t ∷ rest) ≡ first_of_day (some t.txn_date) rest
  unfolding first_of_day
  skipped d t rest e = rw e refl

  taken :
      (d : Date) (t : Transaction) (rest : List Transaction)
      → same_day d t.txn_date ≡ false
      → first_of_day (some d) (t ∷ rest) ≡ t ∷ first_of_day (some t.txn_date) rest
  unfolding first_of_day
  taken d t rest n = rw n refl

  first_of_day-Covered :
      (last : Option Date) (rows : List Transaction)
      → All (λ t. has_balance t ≡ true) rows
      → All (Covered last (points (first_of_day last rows))) rows
  unfolding first_of_day
  first_of_day-Covered last [] h = tt
  first_of_day-Covered none (t ∷ rest) h = (
    head-HasPoint t t.balance_after (points (first_of_day (some t.txn_date) rest)) t refl h.0
        (same_day_refl t),
    by_head t rest (first_of_day (some t.txn_date) rest) h.0
        (first_of_day-Covered (some t.txn_date) rest h.1),
  )
  first_of_day-Covered (some d) (t ∷ rest) h =
      let out = first_of_day (some t.txn_date) rest in
      let later = first_of_day-Covered (some t.txn_date) rest h.1 in
      elim (Bool-cases (same_day d t.txn_date)) [
        | inl e ↦
            subst (λ o. All (Covered (some d) (points o)) (t ∷ rest)) (sym (skipped d t rest e))
              (
                inl e,
                All-mono (Covered (some t.txn_date) (points out)) (Covered (some d) (points out))
                    (λ u covered. elim covered [
                      | inl same ↦ inl (same_day_trans d t u e same)
                      | inr there ↦ inr there
                    ])
                    rest later,
              )
        | inr n ↦
            subst (λ o. All (Covered (some d) (points o)) (t ∷ rest)) (sym (taken d t rest n))
              (
                inr (head-HasPoint t t.balance_after (points out) t refl h.0 (same_day_refl t)),
                All-mono (HasPoint (points (t ∷ out))) (Covered (some d) (points (t ∷ out)))
                    (λ u there. inr there) rest (by_head t rest out h.0 later),
              )
      ]

  with_balance-balanced : All (λ t. has_balance t ≡ true) (with_balance p ts)
  with_balance-balanced =
      All-mono (λ t. In t ts × (in_window p t && has_balance t ≡ true)) (λ t. has_balance t ≡ true)
        (λ t h. ground arith) (with_balance p ts)
        (where_rows-In (λ t. in_window p t && has_balance t) ts)

  balance_rows-HasPoint : All (HasPoint (balance_rows p ts)) (with_balance p ts)
  unfolding balance_rows
  balance_rows-HasPoint =
      All-from-order_by (HasPoint (points (first_of_day none ordered))) later_first
        (with_balance p ts)
        (first_of_day-Covered none ordered
          (All-order_by _ later_first (with_balance p ts) with_balance-balanced))

  -- The balance over time has a point for each day on which the window has a transaction with a balance, one a day
  -- and in the order of the days; a point has the balance of a transaction of the window on its day, of which none
  -- that has a balance was recorded later.
  pub balance_rows-closings :
      All (HasPoint (balance_rows p ts)) (with_balance p ts)
      × All (IsClosing p ts) (balance_rows p ts)
      × Ascending (balance_rows p ts)
  balance_rows-closings = (balance_rows-HasPoint, balance_rows-IsClosing, balance_rows-Ascending)
