-- ===== src/Go/Float.antt =====
-- float64, of which the program uses a few operations: they are those of the processor and parameters here.
use bankstmt_analyzer.Prelude.{ℕ, Bool}
use bankstmt_analyzer.Db.{Numeric}

-- `of_numeric` is the cast of a column `::float8`, `of_count` the conversion of an integer.
pub record Float64 : Type 1 where
  pub Carrier : Type 0
  pub of_numeric : Numeric → Carrier
  pub of_count : ℕ → Carrier
  pub subtract : Carrier → Carrier → Carrier
  pub divide : Carrier → Carrier → Carrier
  pub is_zero : Carrier → Bool
  pub zero : Carrier
