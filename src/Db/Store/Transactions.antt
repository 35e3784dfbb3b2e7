-- ===== src/Db/Store/Transactions.antt =====
-- What a transaction of internal/db/store.go has done when it returns no error: what its function did.
use bankstmt_analyzer.Prelude.{◌≡◌, arith}
use bankstmt_analyzer.Text.{Bytes}
use bankstmt_analyzer.Go.{Result, ok, err}
use bankstmt_analyzer.Go.Monad.{annotate, continue}
use bankstmt_analyzer.Go.Hoare.{OnOk}
use bankstmt_analyzer.Db.{Db}
use bankstmt_analyzer.Db.Queries.{Query, send}
use bankstmt_analyzer.Db.Store.{conclude, commit, finish, in_tx}
use bankstmt_analyzer.Db.Store.Atomic.{SameTables, send-SameTables}

send-next_serial : (db : Db) → (send db).1.next_serial ≡ db.next_serial
unfolding send
send-next_serial db = ground arith

module _ {A : Type 0} (P : A → Db → Type 0)
    (stable : (a : A) (s t : Db) → SameTables s t → P a s → P a t) where
  finish-OnOk : (before s : Db) (r : Result A) → OnOk P (r, s) → OnOk P (finish before r s)
  unfolding finish commit conclude
  finish-OnOk before s (ok a) h = go (send s).0 (send s).1 (send-SameTables s)
    where
      go : (r : Result (Unit {0})) (s' : Db) → SameTables s s' → OnOk P (conclude before a r s')
      go (ok _) s' same = stable a s s' same h
      go (err e) s' same = tt
  finish-OnOk before s (err e) h = tt

  pub in_tx-OnOk :
      (fn : Query A) (db : Db)
      → ((s : Db) → SameTables db s → s.next_serial ≡ db.next_serial → OnOk P (fn s))
      → OnOk P (in_tx fn db)
  unfolding in_tx
  in_tx-OnOk fn db h = go _ (send db).0 (send db).1 (send-SameTables db) (send-next_serial db)
    where
      go :
          (text : Bytes) (r : Result (Unit {0})) (s : Db)
          → SameTables db s
          → s.next_serial ≡ db.next_serial
          → OnOk P (continue (annotate text r) (λ _ t. finish t (fn t).0 (fn t).1) s)
      go text (ok _) s same n = finish-OnOk s (fn s).1 (fn s).0 (h s same n)
      go text (err e) s same n = tt
