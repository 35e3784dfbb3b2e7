-- ===== src/Db/Visualization/Closing.antt =====
-- The balances over time of internal/db/visualization.sql.go are the closing balances of the days.
use bankstmt_analyzer.Prelude.{
  ◌≡◌, Bool, true, false, ◌&&◌, Option, none, some, List, [], ◌∷◌, arith, ltb, if◌then◌else◌, All,
  All-mono, inl, inr, Bool-cases,
}
use bankstmt_analyzer.Db.{Date, Transaction}
use bankstmt_analyzer.Db.Sums.{order_by, insert_row}
use bankstmt_analyzer.Db.Sums.Keys.{All-insert_row}
use bankstmt_analyzer.Db.Visualization.Series.{same_day, day_before, later_first, first_of_day}

-- No row has a later day, or a higher serial on the same day, than one behind it.
abbrev pub InOrder : List Transaction → Type 0
InOrder [] = Unit
InOrder (t ∷ rest) = All (λ u. later_first t u ≡ true) rest × InOrder rest

later_first_trans :
    (a b c : Transaction) → later_first a b ≡ true → later_first b c ≡ true → later_first a c ≡ true
later_first_trans a b c p q = ground arith

later_first-total : (a b : Transaction) → later_first a b ≡ false → later_first b a ≡ true
later_first-total a b n = ground arith

insert_row-InOrder :
    (a : Transaction) (rows : List Transaction)
    → InOrder rows
    → InOrder (insert_row later_first a rows)
unfolding insert_row
insert_row-InOrder a [] h = (tt, tt)
insert_row-InOrder a (b ∷ rest) h = elim (Bool-cases (later_first a b)) [
  | inl e ↦ rw e (
    (
      e,
      All-mono (λ u. later_first b u ≡ true) (λ u. later_first a u ≡ true)
          (λ u. later_first_trans a b u e) rest h.0,
    ),
    h,
  )
  | inr n ↦ rw n (
    All-insert_row (λ u. later_first b u ≡ true) later_first a rest (later_first-total a b n) h.0,
    insert_row-InOrder a rest h.1,
  )
]

pub order_by-InOrder : (rows : List Transaction) → InOrder (order_by later_first rows)
unfolding order_by
order_by-InOrder [] = tt
order_by-InOrder (t ∷ rest) =
    insert_row-InOrder t (order_by later_first rest) (order_by-InOrder rest)

-- The transaction is of a later day, or not of an earlier one.
abbrev pub After : Date → Transaction → Type 0
After d t = day_before d t.txn_date ≡ true

abbrev NotBefore : Date → Transaction → Type 0
NotBefore d t = day_before t.txn_date d ≡ false

After-mono : (d : Date) (t u : Transaction) → NotBefore d t → After t.txn_date u → After d u
After-mono d t u p q = ground arith

later-After :
    (d : Date) (t : Transaction) → NotBefore d t → same_day d t.txn_date ≡ false → After d t
later-After d t n o = ground arith

later_first-NotBefore : (t u : Transaction) → later_first t u ≡ true → NotBefore t.txn_date u
later_first-NotBefore t u h = ground arith

first_of_day-After :
    (d : Date) (rows : List Transaction)
    → InOrder rows
    → All (NotBefore d) rows
    → All (After d) (first_of_day (some d) rows)
unfolding first_of_day
first_of_day-After d [] h n = tt
first_of_day-After d (t ∷ rest) h n =
    let later =
      All-mono (After t.txn_date) (After d) (λ u. After-mono d t u n.0)
        (first_of_day (some t.txn_date) rest)
        (first_of_day-After t.txn_date rest h.1
          (All-mono _ (NotBefore t.txn_date) (later_first-NotBefore t) rest h.0)) in
    elim (Bool-cases (same_day d t.txn_date)) [
      | inl e ↦ rw e later
      | inr o ↦ rw o (later-After d t n.0 o, later)
    ]

-- A transaction of the day that was recorded later than `t`.
abbrev pub supersedes : Transaction → Transaction → Bool
supersedes t u = same_day t.txn_date u.txn_date && ltb t.serial u.serial

-- None of the rows does so.
abbrev pub IsLast : List Transaction → Transaction → Type 0
IsLast rows t = All (λ u. supersedes t u ≡ false) rows

first-IsLast : (t u : Transaction) → later_first t u ≡ true → supersedes t u ≡ false
first-IsLast t u h = ground arith

self-IsLast : (t : Transaction) → supersedes t t ≡ false
self-IsLast t = ground arith

After-IsLast : (t y : Transaction) → After t.txn_date y → supersedes y t ≡ false
After-IsLast t y h = ground arith

-- The rows that come later are not superseded by an earlier one.
extend-IsLast :
    (t : Transaction) (rest out : List Transaction)
    → All (After t.txn_date) out
    → All (IsLast rest) out
    → All (IsLast (t ∷ rest)) out
extend-IsLast t rest [] a h = tt
extend-IsLast t rest (y ∷ out) a h = ((After-IsLast t y a.0, h.0), extend-IsLast t rest out a.1 h.1)

pub rest-After :
    (t : Transaction) (rest : List Transaction)
    → InOrder (t ∷ rest)
    → All (After t.txn_date) (first_of_day (some t.txn_date) rest)
rest-After t rest h =
    first_of_day-After t.txn_date rest h.1
      (All-mono _ (NotBefore t.txn_date) (later_first-NotBefore t) rest h.0)

head-IsLast : (t : Transaction) (rest : List Transaction) → InOrder (t ∷ rest) → IsLast (t ∷ rest) t
head-IsLast t rest h =
    (self-IsLast t, All-mono _ (λ u. supersedes t u ≡ false) (first-IsLast t) rest h.0)

pub first_of_day-IsLast :
    (last : Option Date) (rows : List Transaction)
    → InOrder rows
    → All (IsLast rows) (first_of_day last rows)
unfolding first_of_day
first_of_day-IsLast last [] h = tt
first_of_day-IsLast none (t ∷ rest) h = (
  head-IsLast t rest h,
  extend-IsLast t rest (first_of_day (some t.txn_date) rest) (rest-After t rest h)
      (first_of_day-IsLast (some t.txn_date) rest h.1),
)
first_of_day-IsLast (some d) (t ∷ rest) h =
    let tail : All (IsLast (t ∷ rest)) (first_of_day (some t.txn_date) rest) =
      extend-IsLast t rest (first_of_day (some t.txn_date) rest) (rest-After t rest h)
        (first_of_day-IsLast (some t.txn_date) rest h.1) in
    elim (same_day d t.txn_date)
      as (λ c. All (IsLast (t ∷ rest)) (
        if c
        then first_of_day (some t.txn_date) rest
        else t ∷ first_of_day (some t.txn_date) rest)) [
          | true ↦ tail
          | false ↦ (head-IsLast t rest h, tail)
        ]

-- The rows of the result are rows of the table.
pub first_of_day-All :
    (P : Transaction → Type 0) (last : Option Date) (rows : List Transaction)
    → All P rows
    → All P (first_of_day last rows)
unfolding first_of_day
first_of_day-All P last [] h = tt
first_of_day-All P none (t ∷ rest) h = (h.0, first_of_day-All P (some t.txn_date) rest h.1)
first_of_day-All P (some d) (t ∷ rest) h =
    let after = first_of_day-All P (some t.txn_date) rest h.1 in
    elim (same_day d t.txn_date)
      as (λ c. All P (
        if c
        then first_of_day (some t.txn_date) rest
        else t ∷ first_of_day (some t.txn_date) rest)) [ true ↦ after | false ↦ (h.0, after) ]
