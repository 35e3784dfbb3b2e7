-- ===== src/Http/Status/Answers.antt =====
-- What `status` (internal/http/uploads.go) answers, and that it only reads.
use bankstmt_analyzer.Prelude.{
  ◌≡◌, refl, inl, inr, ◌==◌, Option, none, some, List, [], arith, Option-cases,
}
use bankstmt_analyzer.Text.{Bytes}
use bankstmt_analyzer.Go.{Result, ok, err}
use bankstmt_analyzer.Db.{
  Uuid, Status, pending, processing, completed, failed, Upload, Analysis, Db,
}
use bankstmt_analyzer.Db.Queries.{first_row, get_upload, get_analysis_id_by_upload, send}
use bankstmt_analyzer.Db.Store.{is_not_found}
use bankstmt_analyzer.Db.Store.Atomic.{SameTables, SameTables-trans}
use bankstmt_analyzer.Http.Problem.{
  json, RequestInfo, status_code, write_problem, fill_problem, new_problem,
}
use bankstmt_analyzer.Http.Status.{
  UploadStatusResponse, status, load, respond, with_analysis, upload_id_from_request,
  not_found_problem,
}

pub get_upload-SameTables : (id : Uuid) (db : Db) → SameTables db (get_upload id db).1
unfolding get_upload send
get_upload-SameTables id db = ground arith

get_analysis_id_by_upload-SameTables :
    (id : Uuid) (db : Db) → SameTables db (get_analysis_id_by_upload id db).1
unfolding get_analysis_id_by_upload send
get_analysis_id_by_upload-SameTables id db = ground arith

pub get_upload-found :
    (id : Uuid) (u : Upload) (db : Db)
    → db.outages ≡ []
    → first_row (λ v. v.id == id) db.uploads ≡ some u
    → get_upload id db ≡ (ok u, db)
unfolding get_upload send
get_upload-found id u db up f = ground arith

module _ (uuid_text : Uuid → Bytes) (parse : Bytes → Option Uuid) (r : RequestInfo) where
  with_analysis-SameTables :
      (u : Upload) (found : Result Uuid) (db s : Db)
      → SameTables db s
      → SameTables db (with_analysis uuid_text parse r u (found, s)).1
  unfolding with_analysis
  with_analysis-SameTables u (ok id) db s same = same
  with_analysis-SameTables u (err e) db s same = ground arith

  respond-SameTables :
      (id : Uuid) (st : Status) (u : Upload) (db s : Db)
      → SameTables db s
      → SameTables db (respond uuid_text parse r id st u s).1
  unfolding respond
  respond-SameTables id pending u db s same = same
  respond-SameTables id processing u db s same = same
  respond-SameTables id failed u db s same = same
  respond-SameTables id completed u db s same =
      with_analysis-SameTables u (get_analysis_id_by_upload id s).0 db _
        (SameTables-trans db s _ same (get_analysis_id_by_upload-SameTables id s))

  load-SameTables :
      (id : Uuid) (found : Result Upload) (db s : Db)
      → SameTables db s
      → SameTables db (load uuid_text parse r id (found, s)).1
  unfolding load
  load-SameTables id (ok u) db s same = respond-SameTables id u.status u db s same
  load-SameTables id (err e) db s same = ground arith

  -- Asking for the status of an upload leaves the tables as they are, whatever the answer.
  status-SameTables :
      (param : Bytes) (db : Db) → SameTables db (status uuid_text parse r param db).1
  unfolding status upload_id_from_request
  status-SameTables param db = elim (Option-cases (parse param)) [
    | inl e ↦ rw (status, e) (ground arith)
    | inr (id, e) ↦
        rw (status, e) (load-SameTables id (get_upload id db).0 db _ (get_upload-SameTables id db))
  ]

  -- The id that a completed upload's analysis has.
  abbrev pub analysis_of : Status → Uuid → List Analysis → Option Uuid
  analysis_of completed id as' = elim (first_row (λ a. a.upload_id == id) as') [
    | none ↦ none
    | some a ↦ some a.id
  ]
  analysis_of _ id as' = none

  -- What is shown of an upload: its reason if it has failed, its analysis if it is completed.
  abbrev pub view : Uuid → Upload → Db → UploadStatusResponse
  view id u db = record {
    id = u.id;
    status = u.status;
    failure_reason = elim u.status [ failed ↦ u.failure_reason | _ ↦ none ];
    created_at = u.created_at;
    updated_at = u.updated_at;
    analysis_id = analysis_of u.status id db.analyses;
  }

  respond-eq :
      (id : Uuid) (st : Status) (u : Upload) (db : Db)
      → db.outages ≡ []
      → st ≡ u.status
      → respond uuid_text parse r id st u db ≡ (json 200 (view id u db), db)
  unfolding respond with_analysis get_analysis_id_by_upload send is_not_found
  respond-eq id pending u db up e = ground arith
  respond-eq id processing u db up e = ground arith
  respond-eq id failed u db up e = ground arith
  respond-eq id completed u db up e = ground arith

  -- When the server answers, the status of an upload that is recorded is served as it is recorded, with
  -- its failure reason only if it has failed and its analysis only if it is completed.
  pub status-found :
      (param : Bytes) (db : Db) (id : Uuid) (u : Upload)
      → db.outages ≡ []
      → parse param ≡ some id
      → first_row (λ v. v.id == id) db.uploads ≡ some u
      → status uuid_text parse r param db ≡ (json 200 (view id u db), db)
  unfolding status upload_id_from_request load
  status-found param db id u up e f =
      rw (status, e, get_upload-found id u db up f) (respond-eq id u.status u db up refl)

  -- When the server answers, the status of an upload that is not recorded is a 404.
  status-missing :
      (param : Bytes) (db : Db) (id : Uuid)
      → db.outages ≡ []
      → parse param ≡ some id
      → first_row (λ v. v.id == id) db.uploads ≡ none
      → status_code (status uuid_text parse r param db).0 ≡ 404
  unfolding status upload_id_from_request get_upload send load is_not_found write_problem
      fill_problem new_problem not_found_problem
  status-missing param db id up e f = rw (status, e, up, f) refl
