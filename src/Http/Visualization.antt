-- ===== src/Http/Visualization.antt =====
-- internal/http/visualization.go: the chart data of a completed upload, recomputed from its transactions.
pub mod Charts
pub mod Handler
use bankstmt_analyzer.Prelude.{ℕ, Bool, Option, none, some, List, [], ◌∷◌, ◌++◌, map, if◌then◌else◌}
use bankstmt_analyzer.Text.{Bytes, codes, is_empty}
use bankstmt_analyzer.Go.{Error, wrap, Result, ok, err}
use bankstmt_analyzer.Go.Float.{Float64}
use bankstmt_analyzer.Go.Monad.{Exec, pure, context, ◌>>=◌}
use bankstmt_analyzer.Db.{
  Uuid, Status, pending, processing, completed, failed, Upload, Analysis, Numeric, Db,
}
use bankstmt_analyzer.Db.Months.{Month, Day, date_trunc, day_of, print_date, print_month}
use bankstmt_analyzer.Db.Queries.{Query, get_upload, get_analysis_by_upload}
use bankstmt_analyzer.Db.Store.{is_not_found}
use bankstmt_analyzer.Db.Visualization.{
  WindowParams, GetTransactionMonthBoundsRow, MonthlyIncomeVsSpendingRow, CategoryBreakdownRow,
  MonthlyByCategoryRow, EssentialVsDiscretionaryRow, BalanceOverTimeRow, WindowSummaryRow,
  get_transaction_month_bounds, window_summary,
}
use bankstmt_analyzer.Db.Visualization.Series.{
  monthly_income_vs_spending, category_breakdown, monthly_by_category, essential_vs_discretionary,
  balance_over_time,
}
use bankstmt_analyzer.Http.Problem.{
  new_problem, Response, json, RequestInfo, write_problem, write_error, internal,
}
use bankstmt_analyzer.Http.Status.{upload_id_from_request, not_found_problem}
use bankstmt_analyzer.Http.Window.{
  Checked, accepted, rejected, MonthWindow, period_end, resolve_window,
}

-- `period`
pub record Period : Type 0 where
  pub from : Bytes
  pub to : Bytes

unfoldable pub period : MonthWindow → Period
unfolding print_month
period w = record { from = print_month w.from; to = print_month w.to }

-- `periodStart`, as a day
abbrev pub period_start : MonthWindow → Day
period_start w = record { in_month = w.from; day = 1 }

-- `anchorMonth`, in whole months; `today` is the month of `time.Now()`.
unfoldable pub anchor_month : Month → GetTransactionMonthBoundsRow → Analysis → Month
anchor_month today bounds analysis = elim bounds.last_month [
  | some month ↦ month
  | none ↦ elim analysis.period_end [ some day ↦ date_trunc day | none ↦ today ]
]

-- `jsonOrNull`; `none` is a nil slice.
unfoldable pub json_or_null : Option Bytes → Bytes
json_or_null none = codes "null"
json_or_null (some raw) = if is_empty raw then codes "null" else raw

unfoldable pub status_name : Status → Bytes
status_name pending = codes "pending"
status_name processing = codes "processing"
status_name completed = codes "completed"
status_name failed = codes "failed"

module _ (uuid_text : Uuid → Bytes) where
  -- The analysis of a completed upload.
  found_analysis : Uuid → Result Analysis × Db → Result (Checked Analysis) × Db
  unfolding is_not_found new_problem
  found_analysis id (ok a, db) = (ok (accepted a), db)
  found_analysis id (err e, db) =
      if is_not_found e
      then (
        ok (
            rejected
              (new_problem 409 (codes "Visualization data is not available for this upload."))),
        db,
      )
      else (err (wrap (codes "load analysis for upload " ++ uuid_text id) e), db)

  not_completed : Status → Db → Result (Checked Analysis) × Db
  unfolding new_problem status_name
  not_completed status db = (
    ok (
        rejected (
          new_problem 409 (
            codes
              "Visualization data is available only once analysis has completed; this upload is "
            ++ (status_name status ++ codes ".")))),
    db,
  )

  -- The test of the status.
  by_status : Uuid → Status → Db → Result (Checked Analysis) × Db
  unfolding found_analysis not_completed get_analysis_by_upload
  by_status id completed db = found_analysis id (get_analysis_by_upload id db)
  by_status id other db = not_completed other db

  found_upload : Uuid → Result Upload × Db → Result (Checked Analysis) × Db
  unfolding is_not_found not_found_problem by_status
  found_upload id (ok upload, db) = by_status id upload.status db
  found_upload id (err e, db) =
      if is_not_found e
      then (ok (rejected (not_found_problem uuid_text id)), db)
      else (err (wrap (codes "load upload " ++ uuid_text id) e), db)

  -- `loadCompletedAnalysis`: a value, a problem or an error.
  unfoldable pub load_completed_analysis : Uuid → Db → Result (Checked Analysis) × Db
  unfolding found_upload get_upload
  load_completed_analysis id db = found_upload id (get_upload id db)
