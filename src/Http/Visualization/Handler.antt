-- ===== src/Http/Visualization/Handler.antt =====
-- internal/http/visualization.go: `get`, from the path's id to the response.
pub mod Answers
pub mod Unchanged
use bankstmt_analyzer.Prelude.{Bool, Option, none, some, ◌++◌}
use bankstmt_analyzer.Text.{Bytes, codes}
use bankstmt_analyzer.Go.{wrap, Result, ok, err}
use bankstmt_analyzer.Go.Float.{Float64}
use bankstmt_analyzer.Go.Monad.{context}
use bankstmt_analyzer.Db.{Uuid, Analysis, Db}
use bankstmt_analyzer.Db.Months.{Month}
use bankstmt_analyzer.Db.Visualization.{GetTransactionMonthBoundsRow, get_transaction_month_bounds}
use bankstmt_analyzer.Http.Problem.{
  Response, json, RequestInfo, write_problem, write_error, internal,
}
use bankstmt_analyzer.Http.Status.{upload_id_from_request}
use bankstmt_analyzer.Http.Window.{Checked, accepted, rejected, MonthWindow, resolve_window}
use bankstmt_analyzer.Http.Visualization.{anchor_month, load_completed_analysis}
use bankstmt_analyzer.Http.Visualization.Charts.{VisualizationResponse, build_response}

module _ (F : Float64) (collate : Bytes → Bytes → Bool) (uuid_text : Uuid → Bytes)
    (parse : Bytes → Option Uuid) (r : RequestInfo) (query : Bytes → Bytes) (today : Month) where
  abbrev pub Reply : Type 0
  Reply = Response (VisualizationResponse F.Carrier) × Db

  -- The last call's outcome.
  answer : Result (VisualizationResponse F.Carrier) × Db → Reply
  unfolding write_error
  answer (ok v, db) = (json 200 v, db)
  answer (err e, db) = (write_error r (internal e), db)

  with_window : Analysis → Checked MonthWindow → Db → Reply
  unfolding answer write_problem build_response
  with_window a (accepted w) db = answer (build_response F collate a w db)
  with_window a (rejected p) db = (write_problem r (some p), db)

  with_bounds : Analysis → Result GetTransactionMonthBoundsRow × Db → Reply
  unfolding with_window write_error resolve_window anchor_month
  with_bounds a (ok bounds, db) =
      with_window a (resolve_window query (anchor_month today bounds a)) db
  with_bounds a (err e, db) = (
    write_error r
        (internal (wrap (codes "load transaction bounds for analysis " ++ uuid_text a.id) e)),
    db,
  )

  with_analysis : Result (Checked Analysis) × Db → Reply
  unfolding with_bounds write_problem write_error get_transaction_month_bounds
  with_analysis (ok (accepted a), db) = with_bounds a (get_transaction_month_bounds a.id db)
  with_analysis (ok (rejected p), db) = (write_problem r (some p), db)
  with_analysis (err e, db) = (write_error r (internal e), db)

  -- `get`
  unfoldable pub get : Bytes → Db → Reply
  unfolding with_analysis write_problem upload_id_from_request load_completed_analysis
  get param db =
      let (id, problem) = upload_id_from_request parse param in
      elim id [
        | none ↦ (write_problem r problem, db)
        | some upload ↦ with_analysis (load_completed_analysis uuid_text upload db)
      ]
