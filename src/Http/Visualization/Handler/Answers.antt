-- ===== src/Http/Visualization/Handler/Answers.antt =====
-- What `get` (internal/http/visualization.go) answers, and that it only reads.
use bankstmt_analyzer.Prelude.{
  none, [], ◌∷◌, if◌then◌else◌, ◌≡◌, ◌≢◌, refl, ◌==◌, Bool, Option, some, map, arith,
}
use bankstmt_analyzer.Text.{Bytes, codes}
use bankstmt_analyzer.Go.{ok}
use bankstmt_analyzer.Go.Float.{Float64}
use bankstmt_analyzer.Db.{
  Uuid, Status, pending, processing, completed, failed, Upload, Analysis, Db,
}
use bankstmt_analyzer.Db.Months.{Month, day_of, print_date, print_month}
use bankstmt_analyzer.Db.Queries.{first_row, get_analysis_by_upload}
use bankstmt_analyzer.Db.Store.Quiet.{IsQuiet, send-eq}
use bankstmt_analyzer.Db.Visualization.{
  WindowParams, WindowSummaryRow, month_bounds, summary_row, get_transaction_month_bounds,
  window_summary,
}
use bankstmt_analyzer.Db.Visualization.Series.{
  income_rows, category_rows, month_category_rows, split_rows, balance_rows,
  monthly_income_vs_spending, category_breakdown, monthly_by_category, essential_vs_discretionary,
  balance_over_time,
}
use bankstmt_analyzer.Http.Problem.{
  json, RequestInfo, status_code, write_problem, fill_problem, new_problem,
}
use bankstmt_analyzer.Http.Status.{upload_id_from_request}
use bankstmt_analyzer.Http.Status.Answers.{get_upload-found}
use bankstmt_analyzer.Http.Window.{accepted, MonthWindow, period_end, resolve_window}
use bankstmt_analyzer.Http.Visualization.{
  period, anchor_month, json_or_null, load_completed_analysis, found_upload, found_analysis,
  by_status, not_completed,
}
use bankstmt_analyzer.Http.Visualization.Charts.{
  VisualizationResponse, PresentCharts, VisualizationSummary, build_present, build_response,
  build_summary, ratio,
}
use bankstmt_analyzer.Http.Visualization.Handler.{
  get, with_analysis, with_bounds, with_window, answer,
}

module _ (F : Float64) (collate : Bytes → Bytes → Bool) where
  -- What the queries are asked for: the analysis, the first day of the first month, and the first day behind the
  -- last.
  abbrev window : Analysis → MonthWindow → WindowParams
  window a w = record {
    analysis = a.id;
    period_start = record { in_month = w.from; day = 1 };
    period_end = day_of (period_end w);
  }

  -- `n` over `d`, and 0 over 0.
  abbrev quotient : F.Carrier → F.Carrier → F.Carrier
  quotient n d = if F.is_zero d then F.zero else F.divide n d

  -- The five series: a month's net is its income less its spending, and a category's share its part of all spending.
  abbrev pub charts : Analysis → MonthWindow → Db → PresentCharts F.Carrier
  charts a w db =
      let p = window a w in
      let txns = db.transactions in
      record {
        monthly_income_vs_spending =
            map
              (λ row. record {
                month = row.month;
                income = F.of_numeric row.income;
                spending = F.of_numeric row.spending;
                net = F.subtract (F.of_numeric row.income) (F.of_numeric row.spending);
              })
              (income_rows collate p txns);
        category_breakdown =
            map
              (λ row. record {
                category = row.category;
                amount = F.of_numeric row.amount;
                transaction_count = row.transaction_count;
                share =
                    quotient (F.of_numeric row.amount)
                      (F.of_numeric (summary_row p txns).total_spending);
              })
              (category_rows collate p txns);
        monthly_by_category =
            map
              (λ row. record {
                month = row.month;
                category = row.category;
                amount = F.of_numeric row.amount;
              })
              (month_category_rows collate p txns);
        essential_vs_discretionary =
            map
              (λ row. record {
                month = row.month;
                essential = F.of_numeric row.essential;
                discretionary = F.of_numeric row.discretionary;
              })
              (split_rows collate p txns);
        balance_over_time =
            map
              (λ row. record { date = print_date row.txn_date; balance = F.of_numeric row.balance })
              (balance_rows p txns);
      }

  -- The totals of the window: what is left of the income, its part of the income, and the averages of a month.
  abbrev pub totals : WindowSummaryRow → VisualizationSummary F.Carrier
  totals row = record {
    total_income = F.of_numeric row.total_income;
    total_spending = F.of_numeric row.total_spending;
    net_savings = F.subtract (F.of_numeric row.total_income) (F.of_numeric row.total_spending);
    savings_rate =
        quotient (F.subtract (F.of_numeric row.total_income) (F.of_numeric row.total_spending))
          (F.of_numeric row.total_income);
    essential_spending = F.of_numeric row.essential_spending;
    discretionary_spending =
        F.subtract (F.of_numeric row.total_spending) (F.of_numeric row.essential_spending);
    recurring_spending = F.of_numeric row.recurring_spending;
    average_monthly_income = quotient (F.of_numeric row.total_income) (F.of_count row.month_count);
    average_monthly_spending =
        quotient (F.of_numeric row.total_spending) (F.of_count row.month_count);
    transaction_count = row.transaction_count;
    month_count = row.month_count;
  }

  -- The stored forecast, or `null` if there is none.
  abbrev pub stored_forecast : Option Bytes → Bytes
  stored_forecast none = codes "null"
  stored_forecast (some []) = codes "null"
  stored_forecast (some (c ∷ cs)) = c ∷ cs

  abbrev pub body : Analysis → MonthWindow → Db → VisualizationResponse F.Carrier
  body a w db = record {
    currency = a.currency;
    period = record { from = print_month w.from; to = print_month w.to };
    present = charts a w db;
    forecast = stored_forecast a.chart_forecast;
    summary = totals (summary_row (window a w) db.transactions);
  }

  json_or_null-eq : (raw : Option Bytes) → json_or_null raw ≡ stored_forecast raw
  unfolding json_or_null
  json_or_null-eq none = refl
  json_or_null-eq (some []) = refl
  json_or_null-eq (some (c ∷ cs)) = refl

  module _ (p : WindowParams) (db : Db) (quiet : IsQuiet db) where
    income-eq :
        monthly_income_vs_spending collate p db ≡ (ok (income_rows collate p db.transactions), db)
    unfolding monthly_income_vs_spending
    income-eq = rw (monthly_income_vs_spending, send-eq db quiet) refl

    categories-eq :
        category_breakdown collate p db ≡ (ok (category_rows collate p db.transactions), db)
    unfolding category_breakdown
    categories-eq = rw (category_breakdown, send-eq db quiet) refl

    months-eq :
        monthly_by_category collate p db ≡ (ok (month_category_rows collate p db.transactions), db)
    unfolding monthly_by_category
    months-eq = rw (monthly_by_category, send-eq db quiet) refl

    split-eq :
        essential_vs_discretionary collate p db ≡ (ok (split_rows collate p db.transactions), db)
    unfolding essential_vs_discretionary
    split-eq = rw (essential_vs_discretionary, send-eq db quiet) refl

    balance-eq : balance_over_time p db ≡ (ok (balance_rows p db.transactions), db)
    unfolding balance_over_time
    balance-eq = rw (balance_over_time, send-eq db quiet) refl

    summary-eq : window_summary p db ≡ (ok (summary_row p db.transactions), db)
    unfolding window_summary
    summary-eq = rw (window_summary, send-eq db quiet) refl

  build_response-eq :
      (a : Analysis) (w : MonthWindow) (db : Db)
      → IsQuiet db
      → build_response F collate a w db ≡ (ok (body a w db), db)
  unfolding build_response build_present build_summary ratio period
  build_response-eq a w db quiet =
      let p = window a w in
      rw
        (
          build_response,
          summary-eq p db quiet,
          build_present,
          income-eq p db quiet,
          categories-eq p db quiet,
          months-eq p db quiet,
          split-eq p db quiet,
          balance-eq p db quiet,
          json_or_null-eq a.chart_forecast,
        )
        refl

  bounds-eq :
      (a : Analysis) (db : Db)
      → IsQuiet db
      → get_transaction_month_bounds a.id db ≡ (ok (month_bounds a.id db.transactions), db)
  unfolding get_transaction_month_bounds
  bounds-eq a db quiet = rw (get_transaction_month_bounds, send-eq db quiet) refl

  analysis-eq :
      (id : Uuid) (a : Analysis) (db : Db)
      → IsQuiet db
      → first_row (λ a. a.upload_id == id) db.analyses ≡ some a
      → get_analysis_by_upload id db ≡ (ok a, db)
  unfolding get_analysis_by_upload
  analysis-eq id a db quiet g = rw (get_analysis_by_upload, send-eq db quiet, g) refl

  module _ (uuid_text : Uuid → Bytes) (parse : Bytes → Option Uuid) (r : RequestInfo)
      (query : Bytes → Bytes) (today : Month) where
    load-eq :
        (id : Uuid) (u : Upload) (a : Analysis) (db : Db)
        → IsQuiet db
        → first_row (λ v. v.id == id) db.uploads ≡ some u
        → u.status ≡ completed
        → first_row (λ a. a.upload_id == id) db.analyses ≡ some a
        → load_completed_analysis uuid_text id db ≡ (ok (accepted a), db)
    unfolding load_completed_analysis found_upload by_status found_analysis
    load-eq id u a db quiet f c g =
        rw
          (
            load_completed_analysis,
            get_upload-found id u db quiet f,
            c,
            analysis-eq id a db quiet g,
          )
          refl

    -- When the server answers and the parameters name a window, the data of a completed upload is a 200
    -- with the currency, the window, the series drawn from the tables, the forecast and the summary.
    pub get-found :
        (param : Bytes) (db : Db) (id : Uuid) (u : Upload) (a : Analysis) (w : MonthWindow)
        → IsQuiet db
        → parse param ≡ some id
        → first_row (λ v. v.id == id) db.uploads ≡ some u
        → u.status ≡ completed
        → first_row (λ a. a.upload_id == id) db.analyses ≡ some a
        → resolve_window query (anchor_month today (month_bounds a.id db.transactions) a)
          ≡ accepted w
        → get F collate uuid_text parse r query today param db ≡ (json 200 (body a w db), db)
    unfolding get upload_id_from_request with_analysis with_bounds with_window answer
    get-found param db id u a w quiet e f c g h =
        rw
          (
            get,
            e,
            load-eq id u a db quiet f c g,
            bounds-eq a db quiet,
            h,
            build_response-eq a w db quiet,
          )
          refl

    other-eq :
        (id : Uuid) (st : Status) (db : Db)
        → st ≢ completed
        → by_status uuid_text id st db ≡ not_completed uuid_text st db
    unfolding by_status
    other-eq id pending db n = refl
    other-eq id processing db n = refl
    other-eq id failed db n = refl
    other-eq id completed db n = ground arith

    -- When the server answers, the data of a recorded upload that is not completed is a 409.
    pub get-not_completed :
        (param : Bytes) (db : Db) (id : Uuid) (u : Upload)
        → IsQuiet db
        → parse param ≡ some id
        → first_row (λ v. v.id == id) db.uploads ≡ some u
        → u.status ≢ completed
        → status_code (get F collate uuid_text parse r query today param db).0 ≡ 409
    unfolding get upload_id_from_request with_analysis load_completed_analysis found_upload
        not_completed write_problem fill_problem new_problem
    get-not_completed param db id u quiet e f n =
        rw
          (
            get,
            e,
            load_completed_analysis,
            get_upload-found id u db quiet f,
            other-eq id u.status db n,
          )
          refl
