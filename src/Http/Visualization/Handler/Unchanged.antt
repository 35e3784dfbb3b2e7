-- ===== src/Http/Visualization/Handler/Unchanged.antt =====
-- `get` (internal/http/visualization.go) only reads.
use bankstmt_analyzer.Prelude.{inl, inr, Bool, Option, arith, Option-cases}
use bankstmt_analyzer.Text.{Bytes}
use bankstmt_analyzer.Go.{Result, ok, err}
use bankstmt_analyzer.Go.Float.{Float64}
use bankstmt_analyzer.Db.{
  Uuid, Status, pending, processing, completed, failed, Upload, Analysis, Db,
}
use bankstmt_analyzer.Db.Months.{Month}
use bankstmt_analyzer.Db.Queries.{get_upload, get_analysis_by_upload, send}
use bankstmt_analyzer.Db.Reads.{Reads, pure-Reads, context-Reads, >>=-Reads, select-Reads}
use bankstmt_analyzer.Db.Store.Atomic.{SameTables, SameTables-trans}
use bankstmt_analyzer.Db.Visualization.{
  WindowParams, GetTransactionMonthBoundsRow, month_bounds, get_transaction_month_bounds,
  window_summary,
}
use bankstmt_analyzer.Db.Visualization.Series.{
  monthly_income_vs_spending, category_breakdown, monthly_by_category, essential_vs_discretionary,
  balance_over_time,
}
use bankstmt_analyzer.Http.Problem.{RequestInfo}
use bankstmt_analyzer.Http.Status.{upload_id_from_request}
use bankstmt_analyzer.Http.Status.Answers.{get_upload-SameTables}
use bankstmt_analyzer.Http.Window.{Checked, accepted, rejected, MonthWindow, resolve_window}
use bankstmt_analyzer.Http.Visualization.{
  anchor_month, load_completed_analysis, found_upload, found_analysis, by_status, not_completed,
}
use bankstmt_analyzer.Http.Visualization.Charts.{
  VisualizationResponse, build_present, build_response,
}
use bankstmt_analyzer.Http.Visualization.Handler.{
  get, with_analysis, with_bounds, with_window, answer,
}

get_analysis_by_upload-SameTables :
    (id : Uuid) (db : Db) → SameTables db (get_analysis_by_upload id db).1
unfolding get_analysis_by_upload send
get_analysis_by_upload-SameTables id db = ground arith

module _ (F : Float64) (collate : Bytes → Bytes → Bool) where
  income-Reads : (p : WindowParams) → Reads (monthly_income_vs_spending collate p)
  unfolding monthly_income_vs_spending
  income-Reads p = select-Reads _

  categories-Reads : (p : WindowParams) → Reads (category_breakdown collate p)
  unfolding category_breakdown
  categories-Reads p = select-Reads _

  months-Reads : (p : WindowParams) → Reads (monthly_by_category collate p)
  unfolding monthly_by_category
  months-Reads p = select-Reads _

  split-Reads : (p : WindowParams) → Reads (essential_vs_discretionary collate p)
  unfolding essential_vs_discretionary
  split-Reads p = select-Reads _

  balance-Reads : (p : WindowParams) → Reads (balance_over_time p)
  unfolding balance_over_time
  balance-Reads p = select-Reads _

  summary-Reads : (p : WindowParams) → Reads (window_summary p)
  unfolding window_summary
  summary-Reads p = select-Reads _

  build_present-Reads :
      (p : WindowParams) (total : F.Carrier) → Reads (build_present F collate p total)
  unfolding build_present
  build_present-Reads p total = >>=-Reads (context-Reads _ (income-Reads p)) λ income.
      >>=-Reads (context-Reads _ (categories-Reads p)) λ categories.
        >>=-Reads (context-Reads _ (months-Reads p)) λ month_categories.
          >>=-Reads (context-Reads _ (split-Reads p))
            λ split. >>=-Reads (context-Reads _ (balance-Reads p)) λ balances. pure-Reads

  build_response-Reads : (a : Analysis) (w : MonthWindow) → Reads (build_response F collate a w)
  unfolding build_response
  build_response-Reads a w =
      >>=-Reads (context-Reads _ (summary-Reads _))
        λ row. >>=-Reads (build_present-Reads _ _) λ present. pure-Reads

  module _ (uuid_text : Uuid → Bytes) (parse : Bytes → Option Uuid) (r : RequestInfo)
      (query : Bytes → Bytes) (today : Month) where
    answer-SameTables :
        (made : Result (VisualizationResponse F.Carrier)) (db s : Db)
        → SameTables db s
        → SameTables db (answer F collate uuid_text parse r query today (made, s)).1
    unfolding answer
    answer-SameTables (ok v) db s same = same
    answer-SameTables (err e) db s same = same

    with_window-SameTables :
        (a : Analysis) (c : Checked MonthWindow) (db s : Db)
        → SameTables db s
        → SameTables db (with_window F collate uuid_text parse r query today a c s).1
    unfolding with_window answer
    with_window-SameTables a (rejected p) db s same = same
    with_window-SameTables a (accepted w) db s same =
        answer-SameTables (build_response F collate a w s).0 db _
          (SameTables-trans db s _ same ((build_response-Reads a w).kept s))

    with_bounds-SameTables :
        (a : Analysis) (found : Result GetTransactionMonthBoundsRow) (db s : Db)
        → SameTables db s
        → SameTables db (with_bounds F collate uuid_text parse r query today a (found, s)).1
    unfolding with_bounds
    with_bounds-SameTables a (err e) db s same = same
    with_bounds-SameTables a (ok bounds) db s same =
        with_window-SameTables a (resolve_window query (anchor_month today bounds a)) db s same

    with_analysis-SameTables :
        (found : Result (Checked Analysis)) (db s : Db)
        → SameTables db s
        → SameTables db (with_analysis F collate uuid_text parse r query today (found, s)).1
    unfolding with_analysis get_transaction_month_bounds
    with_analysis-SameTables (err e) db s same = same
    with_analysis-SameTables (ok (rejected p)) db s same = same
    with_analysis-SameTables (ok (accepted a)) db s same =
        with_bounds-SameTables a (get_transaction_month_bounds a.id s).0 db _ (
          SameTables-trans db s _ same
            ((select-Reads (λ db. month_bounds a.id db.transactions)).kept s))

    found_analysis-SameTables :
        (id : Uuid) (found : Result Analysis) (db s : Db)
        → SameTables db s
        → SameTables db (found_analysis uuid_text id (found, s)).1
    unfolding found_analysis
    found_analysis-SameTables id (ok a) db s same = same
    found_analysis-SameTables id (err e) db s same = ground arith

    by_status-SameTables :
        (id : Uuid) (st : Status) (db s : Db)
        → SameTables db s
        → SameTables db (by_status uuid_text id st s).1
    unfolding by_status not_completed
    by_status-SameTables id pending db s same = same
    by_status-SameTables id processing db s same = same
    by_status-SameTables id failed db s same = same
    by_status-SameTables id completed db s same =
        found_analysis-SameTables id (get_analysis_by_upload id s).0 db _
          (SameTables-trans db s _ same (get_analysis_by_upload-SameTables id s))

    found_upload-SameTables :
        (id : Uuid) (found : Result Upload) (db s : Db)
        → SameTables db s
        → SameTables db (found_upload uuid_text id (found, s)).1
    unfolding found_upload
    found_upload-SameTables id (ok u) db s same = by_status-SameTables id u.status db s same
    found_upload-SameTables id (err e) db s same = ground arith

    load-SameTables :
        (id : Uuid) (db : Db) → SameTables db (load_completed_analysis uuid_text id db).1
    unfolding load_completed_analysis
    load-SameTables id db =
        found_upload-SameTables id (get_upload id db).0 db _ (get_upload-SameTables id db)

    -- Asking for the visualization data leaves the tables as they are, whatever the answer.
    pub get-SameTables :
        (param : Bytes) (db : Db)
        → SameTables db (get F collate uuid_text parse r query today param db).1
    unfolding get upload_id_from_request
    get-SameTables param db = elim (Option-cases (parse param)) [
      | inl e ↦ rw (get, e) ((pure-Reads {a = tt}).kept db)
      | inr (id, e) ↦
          rw (get, e)
            (with_analysis-SameTables (load_completed_analysis uuid_text id db).0 db _
              (load-SameTables id db))
    ]
