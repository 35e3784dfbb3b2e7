-- ===== src/Db.antt =====
-- internal/db: the rows of the tables (models.go) and the values of conventions.go.
pub mod Queries
pub mod Store
pub mod Rows
pub mod Months
pub mod Reads
pub mod Pool
pub mod Sums
pub mod Visualization
use bankstmt_analyzer.Prelude.{ℕ, Bool, Option, List}
use bankstmt_analyzer.Text.{Bytes}

-- A random uuid stands for itself; the program only compares them and prints them.
abbrev pub Uuid : Type 0
Uuid = ℕ

-- The values that the CHECK constraint of `uploads.status` allows.
pub data Status : Type 0 where
  pending processing completed failed : Status

pub data Direction : Type 0 where
  credit debit : Direction

-- A calendar day. `pgtype.Date` is an `Option` of it: `Valid` is false for NULL.
pub record Date : Type 0 where
  pub year : ℕ
  pub month : ℕ
  pub day : ℕ

-- A `numeric` in hundredths, as the columns keep it: a sign and a magnitude.
pub record Numeric : Type 0 where
  pub negative : Bool
  pub cents : ℕ

pub record Upload : Type 0 where
  pub id : Uuid
  pub status : Status
  pub failure_reason : Option Bytes
  pub file_count : ℕ
  pub created_at : ℕ
  pub updated_at : ℕ

pub record UploadFile : Type 0 where
  pub id : Uuid
  pub upload_id : Uuid
  pub position : ℕ
  pub filename : Bytes
  pub content_type : Bytes
  pub size_bytes : ℕ
  pub storage_key : Bytes
  pub page_count : Option ℕ
  pub ocr_markdown : Option Bytes

pub record CreateAnalysisParams : Type 0 where
  pub id : Uuid
  pub upload_id : Uuid
  pub currency : Bytes
  pub period_start : Option Date
  pub period_end : Option Date
  pub monthly_summary : Option Bytes
  pub category_totals : Option Bytes
  pub recurring_payments : Option Bytes
  pub anomalies : Option Bytes
  pub key_insights : Option Bytes
  pub savings_plan : Option Bytes
  pub chart_present : Option Bytes
  pub chart_forecast : Option Bytes
  pub raw_llm_json : Option Bytes

-- A row of `analyses` has the inserted columns and the time.
pub record Analysis : Type 0 where
  pub columns : CreateAnalysisParams
  pub open columns use *
  pub created_at : ℕ

pub record CreateTransactionsParams : Type 0 where
  pub analysis_id : Uuid
  pub txn_date : Date
  pub description : Bytes
  pub counterparty : Bytes
  pub amount : Numeric
  pub direction : Direction
  pub balance_after : Option Numeric
  pub category : Bytes
  pub essential : Bool
  pub recurring : Bool

-- A row of `transactions` has the copied columns and its serial number.
pub record Transaction : Type 0 where
  pub serial : ℕ
  pub columns : CreateTransactionsParams
  pub open columns use *

-- The tables, and what the statements read of the server: the next serial number, the time, and for
-- each statement to come whether it fails, with which message.
pub record Db : Type 0 where
  pub uploads : List Upload
  pub upload_files : List UploadFile
  pub analyses : List Analysis
  pub transactions : List Transaction
  pub next_serial : ℕ
  pub now : ℕ
  pub outages : List (Option Bytes)
