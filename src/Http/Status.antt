-- ===== src/Http/Status.antt =====
-- `status` of internal/http/uploads.go: where an upload has got to.
pub mod Answers
use bankstmt_analyzer.Prelude.{ℕ, Option, none, some, [], ◌∷◌, ◌++◌, if◌then◌else◌}
use bankstmt_analyzer.Text.{Bytes, codes}
use bankstmt_analyzer.Go.{wrap, Result, ok, err}
use bankstmt_analyzer.Db.{Uuid, Status, completed, failed, Upload, Db}
use bankstmt_analyzer.Db.Queries.{get_upload, get_analysis_id_by_upload}
use bankstmt_analyzer.Db.Store.{is_not_found}
use bankstmt_analyzer.Http.Problem.{
  Problem, new_problem, Response, json, RequestInfo, write_problem, write_error, internal,
}

-- `UploadStatusResponse`; `none` is a field that is left out.
pub record UploadStatusResponse : Type 0 where
  pub id : Uuid
  pub status : Status
  pub failure_reason : Option Bytes
  pub created_at : ℕ
  pub updated_at : ℕ
  pub analysis_id : Option Uuid

-- `notFoundProblem`
unfoldable pub not_found_problem : (Uuid → Bytes) → Uuid → Problem
unfolding new_problem
not_found_problem uuid_text id =
    new_problem 404 (codes "No upload with id " ++ (uuid_text id ++ codes " exists."))

-- `uploadIDFromRequest`, where `uuid.Parse` is `parse`.
unfoldable pub upload_id_from_request : (Bytes → Option Uuid) → Bytes → Option Uuid × Option Problem
unfolding new_problem
upload_id_from_request parse param = elim (parse param) [
  | some id ↦ (some id, none)
  | none ↦ (
    none,
    some (record (new_problem 400 (codes "The upload id must be a uuid.")) {
      invalid_params = record { name = codes "id"; reason = codes "not a valid uuid" } ∷ [];
    }),
  )
]

-- The reason is served for a failed upload only.
served_reason : Status → Option Bytes → Option Bytes
served_reason failed reason = reason
served_reason _ reason = none

abbrev base_response : Upload → UploadStatusResponse
unfolding served_reason
base_response u = record {
  id = u.id;
  status = u.status;
  failure_reason = served_reason u.status u.failure_reason;
  created_at = u.created_at;
  updated_at = u.updated_at;
  analysis_id = none;
}

module _ (uuid_text : Uuid → Bytes) (parse : Bytes → Option Uuid) (r : RequestInfo) where
  abbrev Reply : Type 0
  Reply = Response UploadStatusResponse × Db

  -- The lookup of the analysis of a completed upload.
  with_analysis : Upload → Result Uuid × Db → Reply
  unfolding base_response is_not_found write_error
  with_analysis u (ok id, db) = (json 200 (record (base_response u) { analysis_id = some id }), db)
  with_analysis u (err e, db) = if is_not_found e then (json 200 (base_response u), db) else (
    write_error r (internal (wrap (codes "load analysis for upload " ++ uuid_text u.id) e)),
    db,
  )

  -- The response for an upload that was found.
  respond : Uuid → Status → Upload → Db → Reply
  unfolding with_analysis base_response get_analysis_id_by_upload
  respond id completed u db = with_analysis u (get_analysis_id_by_upload id db)
  respond id _ u db = (json 200 (base_response u), db)

  load : Uuid → Result Upload × Db → Reply
  unfolding respond is_not_found write_problem write_error not_found_problem
  load id (ok u, db) = respond id u.status u db
  load id (err e, db) =
      if is_not_found e
      then (write_problem r (some (not_found_problem uuid_text id)), db)
      else (write_error r (internal (wrap (codes "load upload " ++ uuid_text id) e)), db)

  -- `status`
  unfoldable pub status : Bytes → Db → Response UploadStatusResponse × Db
  unfolding load get_upload write_problem upload_id_from_request
  status param db =
      let (id, problem) = upload_id_from_request parse param in
      elim id [
        | none ↦ (write_problem r problem, db)
        | some upload ↦ load upload (get_upload upload db)
      ]
