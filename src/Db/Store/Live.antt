-- ===== src/Db/Store/Live.antt =====
-- `ReplaceAnalysis` (internal/db/store.go) with a server that answers: that it returns a row.
use bankstmt_analyzer.Prelude.{
  ◌+◌, ◌≡◌, refl, ◌||◌, ◌&&◌, true, false, not, List, [], ◌∷◌, ◌++◌, arith, map, ◌==◌, length,
}
use bankstmt_analyzer.Go.{ok}
use bankstmt_analyzer.Db.{Uuid, Analysis, CreateTransactionsParams, Db}
use bankstmt_analyzer.Db.Queries.{
  where_rows, any_row, known_analyses, number_rows, Query, create_transactions,
  delete_analysis_by_upload, create_analysis, send,
}
use bankstmt_analyzer.Db.Store.{
  NewAnalysis, stamp, copy_rows, forget_analysis, insert_analysis, write_analysis, replace_analysis,
  in_tx, finish, commit, conclude,
}

any_row-left :
    (id u : Uuid) (as' : List Analysis)
    → any_row (λ a. a.id == id && not (a.upload_id == u)) as' ≡ false
    → any_row (λ a. a.id == id || a.upload_id == u) (where_rows (λ a. not (a.upload_id == u)) as')
      ≡ false
any_row-left id u [] h = refl
any_row-left id u (a ∷ as') h = ground (arith, any_row-left id u as')

any_row-last :
    (id : Uuid) (as' : List Analysis) (a : Analysis)
    → a.id ≡ id
    → any_row (λ b. b.id == id) (as' ++ a ∷ []) ≡ true
any_row-last id [] a e = ground arith
any_row-last id (b ∷ as') a e = ground (arith, any_row-last id as' a)

known_analyses-stamp :
    (as' : List Analysis) (id : Uuid) (ts : List CreateTransactionsParams)
    → any_row (λ a. a.id == id) as' ≡ true
    → known_analyses as' (map (stamp id) ts) ≡ true
known_analyses-stamp as' id [] h = refl
known_analyses-stamp as' id (t ∷ ts) h = ground (arith, known_analyses-stamp as' id ts)

in_tx-ok :
    {A : Type 0} (fn : Query A) (db : Db) (a : A) (s : Db)
    → db.outages ≡ []
    → fn db ≡ (ok a, s)
    → s.outages ≡ []
    → in_tx fn db ≡ (ok a, s)
unfolding in_tx send finish commit conclude
in_tx-ok fn db a s up e f = ground arith

-- The tables but the transactions are as they were, and no statement to come fails.
pub record Beside (before after : Db) : Type 0 where
  pub quiet : after.outages ≡ []
  pub uploads : after.uploads ≡ before.uploads
  pub upload_files : after.upload_files ≡ before.upload_files
  pub analyses : after.analyses ≡ before.analyses

module _ (new : NewAnalysis) (db : Db) (up : db.outages ≡ []) where
  abbrev pub rest : List Analysis
  rest = where_rows (λ a. not (a.upload_id == new.analysis.upload_id)) db.analyses

  abbrev pub row : Analysis
  row = record { columns = new.analysis; created_at = db.now }

  abbrev pub emptied : Db
  emptied = record db {
    analyses = rest;
    transactions =
        where_rows
          (λ t. not (
            any_row
              (λ (a : Analysis). a.id == t.analysis_id && a.upload_id == new.analysis.upload_id)
              db.analyses))
          db.transactions;
  }

  abbrev pub inserted : Db
  inserted = record emptied { analyses = rest ++ row ∷ [] }

  forgets :
      forget_analysis new db
      ≡ (ok (length (where_rows (λ a. a.upload_id == new.analysis.upload_id) db.analyses)), emptied)
  unfolding forget_analysis delete_analysis_by_upload send
  forgets = ground arith

  inserts :
      any_row (λ u. u.id == new.analysis.upload_id) db.uploads ≡ true
      → any_row (λ a. a.id == new.analysis.id || a.upload_id == new.analysis.upload_id) rest ≡ false
      → insert_analysis new emptied ≡ (ok row, inserted)
  unfolding insert_analysis create_analysis send
  inserts known fresh = ground arith

  copies :
      (ts : List CreateTransactionsParams) (s : Db)
      → s.outages ≡ []
      → known_analyses s.analyses ts ≡ true
      → (s' : Db) × (copy_rows ts s ≡ (ok tt, s')) × Beside s s'
  unfolding copy_rows create_transactions send
  copies [] s e known =
      (s, refl, record { quiet = e; uploads = refl; upload_files = refl; analyses = refl })
  copies (t ∷ ts) s e known = (
    record s {
      transactions = s.transactions ++ number_rows s.next_serial (t ∷ ts);
      next_serial = s.next_serial + length (t ∷ ts);
    },
    ground arith,
    record { quiet = e; uploads = refl; upload_files = refl; analyses = refl },
  )

  writes :
      any_row (λ u. u.id == new.analysis.upload_id) db.uploads ≡ true
      → any_row (λ a. a.id == new.analysis.id || a.upload_id == new.analysis.upload_id) rest ≡ false
      → (s : Db) → copy_rows (map (stamp new.analysis.id) new.transactions) inserted ≡ (ok tt, s)
      → write_analysis new db ≡ (ok row, s)
  unfolding write_analysis
  writes known fresh s e = rw (forgets, inserts known fresh, e) refl

  -- What the upload's rows are when the analysis is replaced.
  pub replace_analysis_passes :
      any_row (λ u. u.id == new.analysis.upload_id) db.uploads ≡ true
      → any_row
          (λ a. a.id == new.analysis.id && not (a.upload_id == new.analysis.upload_id))
          db.analyses
        ≡ false
      → (db' : Db) × (replace_analysis new db ≡ (ok row, db')) × Beside inserted db'
  unfolding replace_analysis
  replace_analysis_passes known fresh =
      let (s, e, f) = copies (map (stamp new.analysis.id) new.transactions) inserted up (
        known_analyses-stamp _ new.analysis.id new.transactions
          (any_row-last new.analysis.id rest row refl)) in
      (
        s,
        in_tx-ok (write_analysis new) db row s up
            (writes known (any_row-left _ _ db.analyses fresh) s e) f.quiet,
        f,
      )

  -- When the server answers, the upload is recorded and no analysis of another upload has the new id,
  -- replacing the upload's analysis returns a row.
  pub replace_analysis-ok :
      any_row (λ u. u.id == new.analysis.upload_id) db.uploads ≡ true
      → any_row
          (λ a. a.id == new.analysis.id && not (a.upload_id == new.analysis.upload_id))
          db.analyses
        ≡ false
      → (db' : Db) × (replace_analysis new db ≡ (ok row, db'))
  replace_analysis-ok known fresh = let (s, e, _) = replace_analysis_passes known fresh in (s, e)
