-- ===== src/Migrate.antt =====
-- internal/migrate/migrate.go: applying the migrations at the start. What goose and its locker answer are arguments;
-- the `sql.DB` handles that are open are counted.
use bankstmt_analyzer.Prelude.{ℕ, suc, ◌-◌, ◌≡◌, refl, Bool, true, false, List, arith}
use bankstmt_analyzer.Text.{Bytes, codes}
use bankstmt_analyzer.Go.{plain, wrap, Result, ok, err}
use bankstmt_analyzer.Go.Monad.{Exec, raise, modify, ◌>>◌}

-- The `sql.DB` handles that are open.
abbrev pub Handles : Type 0
Handles = ℕ

-- `db.Close()`
abbrev pub close_handle : Handles → Handles
close_handle n = n - 1

-- `_ = db.Close()` where the provider could not be built
abbrev closing : Bytes → Result (Unit {0}) → Exec Handles (Unit {0})
closing text (ok _) n = (ok tt, n)
closing text (err e) n = (err (wrap text e), close_handle n)

-- `newProvider`, with the pool that may be nil
unfoldable pub new_provider : Bool → Result (Unit {0}) → Result (Unit {0}) → Exec Handles (Unit {0})
new_provider false locker provider = raise (plain (codes "migrate: nil database pool"))
new_provider true locker provider = do
  modify suc
  closing (codes "migrate: build session locker") locker
  closing (codes "migrate: build provider") provider

-- What `Up` does with the provider: the handle is closed however it ends. The migrations that were applied are
-- only logged.
applied : Result (Unit {0}) → Result (List Bytes) → Exec Handles (Unit {0})
applied (err e) results n = (err e, n)
applied (ok _) (err e) n = (err (wrap (codes "migrate: apply migrations") e), close_handle n)
applied (ok _) (ok results) n = (ok tt, close_handle n)

-- `Up`
unfoldable pub up :
    Bool → Result (Unit {0}) → Result (Unit {0}) → Result (List Bytes) → Exec Handles (Unit {0})
unfolding new_provider applied
up pool locker provider results n =
    let (built, n') = new_provider pool locker provider n in applied built results n'

-- However it ends, as many handles are open as before.
pub up-closes :
    (pool : Bool) (locker provider : Result (Unit {0})) (results : Result (List Bytes))
    (n : Handles)
    → (up pool locker provider results n).1 ≡ n
unfolding up
up-closes false locker provider results n = refl
up-closes true (err e) provider results n = omega arith
up-closes true (ok _) (err e) results n = omega arith
up-closes true (ok _) (ok _) (err e) n = omega arith
up-closes true (ok _) (ok _) (ok rs) n = omega arith
