-- ===== src/Db/Rows.antt =====
-- The rows that `WHERE` keeps, of tables that were filtered, appended to or changed row by row.
use bankstmt_analyzer.Prelude.{
  ℕ, ◌+◌, ◌≡◌, refl, ◌||◌, Bool, true, false, not, List, [], ◌∷◌, ◌++◌, map, arith, ◌==◌,
  Bool-cases, All, inl, inr,
}
use bankstmt_analyzer.Db.{Uuid, Analysis, Transaction, CreateTransactionsParams}
use bankstmt_analyzer.Db.Queries.{where_rows, any_row, belongs_to, number_rows}
use bankstmt_analyzer.Db.Store.{stamp}

module _ {A : Type 0} (p : A → Bool) where
  pub where_rows-append :
      (xs ys : List A) → where_rows p (xs ++ ys) ≡ where_rows p xs ++ where_rows p ys
  where_rows-append [] ys = refl
  where_rows-append (x ∷ xs) ys = ground (arith, where_rows-append xs ys)

  pub where_rows-not : (xs : List A) → where_rows p (where_rows (λ a. not (p a)) xs) ≡ []
  where_rows-not [] = refl
  where_rows-not (x ∷ xs) = ground (arith, where_rows-not xs)

  pub where_rows_idem : (xs : List A) → where_rows p (where_rows p xs) ≡ where_rows p xs
  where_rows_idem [] = refl
  where_rows_idem (x ∷ xs) = ground (arith, where_rows_idem xs)

  pub where_rows-eq-nil : (xs : List A) → any_row p xs ≡ false → where_rows p xs ≡ []
  where_rows-eq-nil [] h = refl
  where_rows-eq-nil (x ∷ xs) h = ground (arith, where_rows-eq-nil xs)

-- Every transaction names an analysis that is there: the foreign key of `transactions`.
abbrev pub Refers : List Analysis → Transaction → Type 0
Refers analyses t = any_row (λ a. a.id == t.analysis_id) analyses ≡ true

-- Of the analyses that are left, none has the id; so the transaction, which refers to one that is left
-- or is removed itself, has another.
left_over :
    (analyses : List Analysis) (u id : Uuid) (t : Transaction)
    → Refers analyses t
    → any_row
        (λ a. a.id == id || a.upload_id == u)
        (where_rows (λ a. not (a.upload_id == u)) analyses)
      ≡ false
    → belongs_to analyses u t ≡ false
    → (t.analysis_id == id) ≡ false
left_over [] u id t refers fresh kept = cc
left_over (a ∷ analyses) u id t refers fresh kept = ground (arith, left_over analyses u id t)

pub where_rows-left_over :
    (analyses : List Analysis) (u id : Uuid) (ts : List Transaction)
    → All (Refers analyses) ts
    → any_row
        (λ a. a.id == id || a.upload_id == u)
        (where_rows (λ a. not (a.upload_id == u)) analyses)
      ≡ false
    → where_rows (λ t. t.analysis_id == id) (where_rows (λ t. not (belongs_to analyses u t)) ts)
      ≡ []
where_rows-left_over analyses u id [] refers fresh = refl
where_rows-left_over analyses u id (t ∷ ts) refers fresh =
    elim (Bool-cases (belongs_to analyses u t)) [
      | inl gone ↦ rw gone (where_rows-left_over analyses u id ts refers.1 fresh)
      | inr kept ↦
          rw (kept, left_over analyses u id t refers.0 fresh kept)
            (where_rows-left_over analyses u id ts refers.1 fresh)
    ]

pub where_rows-number_rows :
    (id : Uuid) (n : ℕ) (ts : List CreateTransactionsParams)
    → where_rows (λ t. t.analysis_id == id) (number_rows n (map (stamp id) ts))
      ≡ number_rows n (map (stamp id) ts)
where_rows-number_rows id n [] = refl
where_rows-number_rows id n (t ∷ ts) = ground (arith, where_rows-number_rows id (n + 1) ts)
