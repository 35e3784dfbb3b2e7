-- ===== src/Db/Store/Atomic.antt =====
-- A transaction of internal/db/store.go that returns an error has written nothing.
use bankstmt_analyzer.Prelude.{◌≡◌, refl, subst, List, [], ◌∷◌, arith}
use bankstmt_analyzer.Text.{Bytes}
use bankstmt_analyzer.Go.{Error, Result, ok, err}
use bankstmt_analyzer.Go.Monad.{annotate, continue}
use bankstmt_analyzer.Db.{Uuid, Db}
use bankstmt_analyzer.Db.Queries.{Query, send}
use bankstmt_analyzer.Db.Store.{
  NewUploadFile, NewAnalysis, roll_back, conclude, commit, record_upload, write_analysis, finish,
  in_tx, create_upload_with_files, replace_analysis,
}

-- The tables hold the same rows.
pub record SameTables (a b : Db) : Type 0 where
  pub uploads : b.uploads ≡ a.uploads
  pub upload_files : b.upload_files ≡ a.upload_files
  pub analyses : b.analyses ≡ a.analyses
  pub transactions : b.transactions ≡ a.transactions

pub send-SameTables : (db : Db) → SameTables db (send db).1
unfolding send
send-SameTables db = ground arith

-- What holds of the state that a call leaves if it returns an error.
abbrev pub OnError : {S A : Type 0} → (S → Type 0) → Result A × S → Type 0
OnError P (ok a, s) = Unit
OnError P (err e, s) = P s

pub roll_back-SameTables : (before db : Db) → SameTables before (roll_back before db)
unfolding roll_back
roll_back-SameTables before db = record {
  uploads = refl;
  upload_files = refl;
  analyses = refl;
  transactions = refl;
}

OnError-mono :
    {S A : Type 0} (P Q : S → Type 0) (r : Result A × S)
    → ((s : S) → P s → Q s)
    → OnError P r
    → OnError Q r
OnError-mono P Q (ok a, s) f h = tt
OnError-mono P Q (err e, s) f h = f s h

pub SameTables-trans : (a b c : Db) → SameTables a b → SameTables b c → SameTables a c
SameTables-trans a b c p q = ground arith

module _ {A : Type 0} where
  conclude-atomic :
      (before db : Db) (a : A) (r : Result (Unit {0}))
      → OnError (SameTables before) (conclude before a r db)
  unfolding conclude
  conclude-atomic before db a (ok _) = tt
  conclude-atomic before db a (err e) = roll_back-SameTables before db

  finish-atomic : (before db : Db) (r : Result A) → OnError (SameTables before) (finish before r db)
  unfolding finish commit
  finish-atomic before db (ok a) = conclude-atomic before _ a (send db).0
  finish-atomic before db (err e) = roll_back-SameTables before db

  module _ (fn : Query A) where
    begun-atomic :
        (text : Bytes) (r : Result (Unit {0})) (db db' : Db)
        → SameTables db db'
        → OnError
            (SameTables db)
            (continue (annotate text r) (λ _ s. finish s (fn s).0 (fn s).1) db')
    begun-atomic text (ok _) db db' same =
        OnError-mono (SameTables db') (SameTables db) _ (λ s. SameTables-trans db db' s same)
          (finish-atomic db' (fn db').1 (fn db').0)
    begun-atomic text (err e) db db' same = same

    pub in_tx-OnError : (db : Db) → OnError (SameTables db) (in_tx fn db)
    unfolding in_tx
    in_tx-OnError db = begun-atomic _ (send db).0 db (send db).1 (send-SameTables db)

pub create_upload_with_files-OnError :
    (id : Uuid) (files : List NewUploadFile) (db : Db)
    → OnError (SameTables db) (create_upload_with_files id files db)
unfolding create_upload_with_files
create_upload_with_files-OnError id [] db = ground arith
create_upload_with_files-OnError id (f ∷ fs) db = in_tx-OnError (record_upload id (f ∷ fs)) db

-- Whatever a transaction's function does, when an error of it or of the server ends the transaction the
-- tables hold the rows that they held before.
in_tx-atomic :
    {A : Type 0} (fn : Query A) (db : Db) {e : Error} {db' : Db}
    → in_tx fn db ≡ (err e, db')
    → SameTables db db'
in_tx-atomic fn db h = subst (OnError (SameTables db)) h (in_tx-OnError fn db)

-- When recording an upload with its files ends in an error, the tables hold the rows that they held
-- before: no part of the upload is recorded.
create_upload_with_files-atomic :
    (id : Uuid) (files : List NewUploadFile) (db : Db) {e : Error} {db' : Db}
    → create_upload_with_files id files db ≡ (err e, db')
    → SameTables db db'
create_upload_with_files-atomic id files db h =
    subst (OnError (SameTables db)) h (create_upload_with_files-OnError id files db)

-- When replacing an analysis ends in an error, the tables hold the rows that they held before: the
-- upload keeps the analysis and the transactions that it had.
replace_analysis-atomic :
    (new : NewAnalysis) (db : Db) {e : Error} {db' : Db}
    → replace_analysis new db ≡ (err e, db')
    → SameTables db db'
unfolding replace_analysis
replace_analysis-atomic new db h = in_tx-atomic (write_analysis new) db h
