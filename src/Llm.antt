-- ===== src/Llm.antt =====
-- internal/llm: the model's reply (response.go) and the client that asks for it (client.go).
pub mod Reply
pub mod Client
use bankstmt_analyzer.Prelude.{Bool, Option, List}
use bankstmt_analyzer.Text.{Bytes, is_empty}
use bankstmt_analyzer.Text.Space.{trim_space}

pub record Statement : Type 0 where
  pub filename : Bytes
  pub markdown : Bytes

pub record PeriodCovered : Type 0 where
  pub start : Bytes
  pub end : Bytes

pub record Meta : Type 0 where
  pub currency : Bytes
  pub period_covered : PeriodCovered

-- A section that is kept as raw JSON; it is empty if the reply lacks it.
abbrev pub RawMessage : Type 0
RawMessage = Bytes

pub record Analysis : Type 0 where
  pub currency : Bytes
  pub period_start : Bytes
  pub period_end : Bytes
  pub monthly_summary : RawMessage
  pub category_totals : RawMessage
  pub recurring_payments : RawMessage
  pub anomalies : RawMessage
  pub key_insights : RawMessage

pub record ChartData : Type 0 where
  pub present : RawMessage
  pub forecast : RawMessage

-- A `json.Number` is the text that the model wrote.
pub record Transaction : Type 0 where
  pub date : Bytes
  pub description : Bytes
  pub counterparty : Bytes
  pub amount : Bytes
  pub direction : Bytes
  pub balance_after : Option Bytes
  pub category : Bytes
  pub essential : Bool
  pub recurring : Bool

pub record Response : Type 0 where
  pub meta : Meta
  pub analysis : Analysis
  pub savings_plan : RawMessage
  pub chart_data : ChartData
  pub transactions : List Transaction
  pub raw : RawMessage
