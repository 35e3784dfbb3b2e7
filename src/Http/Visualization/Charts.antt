-- ===== src/Http/Visualization/Charts.antt =====
-- internal/http/visualization.go: `buildResponse` and what it assembles, with the DTOs of
-- internal/http/dto.go. Amounts are float64 from here on.
use bankstmt_analyzer.Prelude.{ℕ, Bool, List, map, if◌then◌else◌}
use bankstmt_analyzer.Text.{Bytes, codes}
use bankstmt_analyzer.Go.Float.{Float64}
use bankstmt_analyzer.Go.Monad.{pure, context, ◌>>=◌}
use bankstmt_analyzer.Db.{Analysis}
use bankstmt_analyzer.Db.Months.{day_of, print_date}
use bankstmt_analyzer.Db.Queries.{Query}
use bankstmt_analyzer.Db.Visualization.{
  WindowParams, MonthlyIncomeVsSpendingRow, CategoryBreakdownRow, MonthlyByCategoryRow,
  EssentialVsDiscretionaryRow, BalanceOverTimeRow, WindowSummaryRow, window_summary,
}
use bankstmt_analyzer.Db.Visualization.Series.{
  monthly_income_vs_spending, category_breakdown, monthly_by_category, essential_vs_discretionary,
  balance_over_time,
}
use bankstmt_analyzer.Http.Window.{MonthWindow, period_end}
use bankstmt_analyzer.Http.Visualization.{Period, period, period_start, json_or_null}

pub record MonthlyIncomeSpendingPoint (F : Type 0) : Type 0 where
  pub month : Bytes
  pub income : F
  pub spending : F
  pub net : F

pub record CategorySlice (F : Type 0) : Type 0 where
  pub category : Bytes
  pub amount : F
  pub transaction_count : ℕ
  pub share : F

pub record MonthCategoryPoint (F : Type 0) : Type 0 where
  pub month : Bytes
  pub category : Bytes
  pub amount : F

pub record EssentialSplitPoint (F : Type 0) : Type 0 where
  pub month : Bytes
  pub essential : F
  pub discretionary : F

pub record BalancePoint (F : Type 0) : Type 0 where
  pub date : Bytes
  pub balance : F

pub record PresentCharts (F : Type 0) : Type 0 where
  pub monthly_income_vs_spending : List (MonthlyIncomeSpendingPoint F)
  pub category_breakdown : List (CategorySlice F)
  pub monthly_by_category : List (MonthCategoryPoint F)
  pub essential_vs_discretionary : List (EssentialSplitPoint F)
  pub balance_over_time : List (BalancePoint F)

pub record VisualizationSummary (F : Type 0) : Type 0 where
  pub total_income : F
  pub total_spending : F
  pub net_savings : F
  pub savings_rate : F
  pub essential_spending : F
  pub discretionary_spending : F
  pub recurring_spending : F
  pub average_monthly_income : F
  pub average_monthly_spending : F
  pub transaction_count : ℕ
  pub month_count : ℕ

pub record VisualizationResponse (F : Type 0) : Type 0 where
  pub currency : Bytes
  pub period : Period
  pub present : PresentCharts F
  pub forecast : Bytes
  pub summary : VisualizationSummary F

module _ (F : Float64) where
  -- `ratio`
  unfoldable pub ratio : F.Carrier → F.Carrier → F.Carrier
  ratio numerator denominator =
      if F.is_zero denominator then F.zero else F.divide numerator denominator

  -- The functions that `mapSlice` applies to the rows.
  abbrev pub income_point : MonthlyIncomeVsSpendingRow → MonthlyIncomeSpendingPoint F.Carrier
  income_point row = record {
    month = row.month;
    income = F.of_numeric row.income;
    spending = F.of_numeric row.spending;
    net = F.subtract (F.of_numeric row.income) (F.of_numeric row.spending);
  }

  abbrev pub slice : F.Carrier → CategoryBreakdownRow → CategorySlice F.Carrier
  slice total row = record {
    category = row.category;
    amount = F.of_numeric row.amount;
    transaction_count = row.transaction_count;
    share = ratio (F.of_numeric row.amount) total;
  }

  abbrev pub month_point : MonthlyByCategoryRow → MonthCategoryPoint F.Carrier
  month_point row = record {
    month = row.month;
    category = row.category;
    amount = F.of_numeric row.amount;
  }

  abbrev pub split_point : EssentialVsDiscretionaryRow → EssentialSplitPoint F.Carrier
  split_point row = record {
    month = row.month;
    essential = F.of_numeric row.essential;
    discretionary = F.of_numeric row.discretionary;
  }

  abbrev pub balance_point : BalanceOverTimeRow → BalancePoint F.Carrier
  balance_point row = record { date = print_date row.txn_date; balance = F.of_numeric row.balance }

  -- `buildSummary`
  unfoldable pub build_summary : WindowSummaryRow → VisualizationSummary F.Carrier
  unfolding ratio
  build_summary row =
      let income = F.of_numeric row.total_income in
      let spending = F.of_numeric row.total_spending in
      let net = F.subtract income spending in
      record {
        total_income = income;
        total_spending = spending;
        net_savings = net;
        savings_rate = ratio net income;
        essential_spending = F.of_numeric row.essential_spending;
        discretionary_spending = F.subtract spending (F.of_numeric row.essential_spending);
        recurring_spending = F.of_numeric row.recurring_spending;
        average_monthly_income = ratio income (F.of_count row.month_count);
        average_monthly_spending = ratio spending (F.of_count row.month_count);
        transaction_count = row.transaction_count;
        month_count = row.month_count;
      }

  module _ (collate : Bytes → Bytes → Bool) where
    -- `buildPresent`
    unfoldable pub build_present : WindowParams → F.Carrier → Query (PresentCharts F.Carrier)
    unfolding monthly_income_vs_spending category_breakdown monthly_by_category
        essential_vs_discretionary balance_over_time
    build_present p total = do
      income ←
          context (codes "load monthly income vs spending") (monthly_income_vs_spending collate p)
      categories ← context (codes "load category breakdown") (category_breakdown collate p)
      month_categories ←
          context (codes "load monthly spending by category") (monthly_by_category collate p)
      split ←
          context (codes "load essential vs discretionary split")
            (essential_vs_discretionary collate p)
      balances ← context (codes "load balance over time") (balance_over_time p)
      pure (record {
        monthly_income_vs_spending = map income_point income;
        category_breakdown = map (slice total) categories;
        monthly_by_category = map month_point month_categories;
        essential_vs_discretionary = map split_point split;
        balance_over_time = map balance_point balances;
      })

    abbrev pub params : Analysis → MonthWindow → WindowParams
    params a w = record {
      analysis = a.id;
      period_start = period_start w;
      period_end = day_of (period_end w);
    }

    -- `buildResponse`
    unfoldable pub build_response : Analysis → MonthWindow → Query (VisualizationResponse F.Carrier)
    unfolding window_summary build_present build_summary period json_or_null
    build_response a w = do
      row ← context (codes "summarise window") (window_summary (params a w))
      present ← build_present (params a w) (F.of_numeric row.total_spending)
      pure (record {
        currency = a.currency;
        period = period w;
        present = present;
        forecast = json_or_null a.chart_forecast;
        summary = build_summary row;
      })
