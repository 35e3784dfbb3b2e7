-- ===== src/Db/Reads.antt =====
-- Calls on the database that only read: the selects of internal/db/*.sql.go, and what is built from them.
use bankstmt_analyzer.Prelude.{refl}
use bankstmt_analyzer.Text.{Bytes}
use bankstmt_analyzer.Go.{Result, ok, err}
use bankstmt_analyzer.Go.Monad.{context, pure, gets, ◌>>=◌, ◌>>◌}
use bankstmt_analyzer.Db.{Db}
use bankstmt_analyzer.Db.Queries.{Query, send}
use bankstmt_analyzer.Db.Store.Atomic.{SameTables, SameTables-trans, send-SameTables}

-- The call leaves every table as it is, whatever it returns.
pub record Reads {A : Type 0} (q : Query A) : Type 0 where
  pub kept : (db : Db) → SameTables db (q db).1

module _ {A : Type 0} where
  pub pure-Reads : {a : A} → Reads (pure {S = Db} a)
  pure-Reads = record {
    kept =
        λ db. record { uploads = refl; upload_files = refl; analyses = refl; transactions = refl };
  }

  pub context-Reads : (text : Bytes) {q : Query A} → Reads q → Reads (context text q)
  context-Reads text h = record { kept = h.kept }

module _ {A B : Type 0} where
  bind-kept :
      (f : A → Query B)
      → ((a : A) → Reads (f a))
      → (db s : Db) (r : Result A) → SameTables db s
      → SameTables db (((λ (_ : Db). (r, s)) >>= f) db).1
  bind-kept f k db s (ok a) same = SameTables-trans db s (f a s).1 same ((k a).kept s)
  bind-kept f k db s (err e) same = same

  pub >>=-Reads :
      {q : Query A} {f : A → Query B} → Reads q → ((a : A) → Reads (f a)) → Reads (q >>= f)
  >>=-Reads {q} {f} h k = record { kept = λ db. bind-kept f k db (q db).1 (q db).0 (h.kept db) }

-- A select: the statement is sent, and rows are read.
pub select-Reads : {A : Type 0} (read : Db → A) → Reads (send >> gets read)
select-Reads read =
    >>=-Reads {q = send} {f = λ _. gets read} (record { kept = send-SameTables })
      λ _. record { kept = λ db. (pure-Reads {a = read db}).kept db }
