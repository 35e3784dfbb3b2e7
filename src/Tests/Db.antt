-- ===== src/Tests/Db.antt =====
-- Concrete transactions of internal/db/store.go.
use bankstmt_analyzer.Prelude.{◌≡◌, refl, length}
use bankstmt_analyzer.Db.{Analysis}
use bankstmt_analyzer.Db.Store.{replace_analysis}
use bankstmt_analyzer.Db.Store.Replace.{Replaced, replace_analysis-Replaced}
use bankstmt_analyzer.Tests.Data.{two_uploads, second_analysis, columns}

abbrev second_row : Analysis
second_row = record { columns = columns 11 1; created_at = 9 }

replace_analysis-Replaced_example :
    Replaced second_analysis two_uploads second_row (replace_analysis second_analysis two_uploads).1
unfolding replace_analysis
replace_analysis-Replaced_example =
    replace_analysis-Replaced second_analysis two_uploads (refl, tt) refl

replaced_count : length (replace_analysis second_analysis two_uploads).1.transactions ≡ 2
unfolding replace_analysis
replaced_count = refl
