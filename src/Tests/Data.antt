-- ===== src/Tests/Data.antt =====
-- The uploads, files, analyses and stored documents that the concrete runs start from.
use bankstmt_analyzer.Prelude.{true, false, Option, none, List, [], ◌∷◌}
use bankstmt_analyzer.Text.{Bytes, codes}
use bankstmt_analyzer.Db.{
  Uuid, processing, debit, Upload, UploadFile, CreateAnalysisParams, CreateTransactionsParams, Db,
}
use bankstmt_analyzer.Db.Store.{NewUploadFile, NewAnalysis}
use bankstmt_analyzer.World.{World}
use bankstmt_analyzer.Http.Uploads.{UploadConfig, Part}
use bankstmt_analyzer.Http.Problem.{RequestInfo}

abbrev pub upload_row : Uuid → Upload
upload_row id = record {
  id = id;
  status = processing;
  failure_reason = none;
  file_count = 1;
  created_at = 5;
  updated_at = 5;
}

abbrev pub columns : Uuid → Uuid → CreateAnalysisParams
columns id upload = record {
  id = id;
  upload_id = upload;
  currency = codes "EUR";
  period_start = none;
  period_end = none;
  monthly_summary = none;
  category_totals = none;
  recurring_payments = none;
  anomalies = none;
  key_insights = none;
  savings_plan = none;
  chart_present = none;
  chart_forecast = none;
  raw_llm_json = none;
}

abbrev pub rent : Uuid → CreateTransactionsParams
rent analysis = record {
  analysis_id = analysis;
  txn_date = record { year = 2024; month = 2; day = 29 };
  description = codes "Rent";
  counterparty = codes "Landlord";
  amount = record { negative = false; cents = 95000 };
  direction = debit;
  balance_after = none;
  category = codes "housing";
  essential = true;
  recurring = true;
}

abbrev pub scanned : Uuid → Option Bytes → UploadFile
scanned id markdown = record {
  id = id;
  upload_id = 1;
  position = 0;
  filename = codes "march.pdf";
  content_type = codes "application/pdf";
  size_bytes = 8;
  storage_key = codes "k";
  page_count = none;
  ocr_markdown = markdown;
}

-- Upload 1 has analysis 10 with one transaction; upload 2 has analysis 20.
abbrev pub two_uploads : Db
two_uploads = record {
  uploads = upload_row 1 ∷ upload_row 2 ∷ [];
  upload_files = scanned 100 none ∷ [];
  analyses =
      record { columns = columns 10 1; created_at = 6 }
      ∷ record { columns = columns 20 2; created_at = 6 }
      ∷ [];
  transactions = record { serial = 0; columns = rent 10 } ∷ [];
  next_serial = 1;
  now = 9;
  outages = [];
}

abbrev pub failing : List (Option Bytes) → Db
failing outages = record two_uploads { outages = outages }

abbrev pub second_analysis : NewAnalysis
second_analysis = record { analysis = columns 11 1; transactions = rent 0 ∷ rent 0 ∷ [] }

abbrev pub new_file : NewUploadFile
new_file = record {
  id = 300;
  position = 0;
  filename = codes "april.pdf";
  content_type = codes "application/pdf";
  size_bytes = 8;
  storage_key = codes "k3";
}

abbrev pub world : Db → World
world db = record {
  db = db;
  blobs = (codes "k", codes "%PDF-1.7") ∷ [];
  blob_faults = [];
  ocr_requests = [];
}

abbrev pub limits : UploadConfig
limits = record { max_files = 1; max_file_bytes = 8 }

abbrev pub pdf_part : Part
pdf_part = record {
  form_name = codes "files";
  file_name = codes "C:\\docs\\april.pdf";
  content_type = [];
  body = codes "%PDF-1.7";
  broken = none;
  file_id = 300;
}

abbrev pub uuid_text : Uuid → Bytes
uuid_text id = id ∷ []

abbrev pub request : RequestInfo
request = record { path = codes "/v1/uploads"; id = codes "r" }
