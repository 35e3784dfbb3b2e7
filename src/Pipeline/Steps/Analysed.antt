-- ===== src/Pipeline/Steps/Analysed.antt =====
-- What the analyze step of internal/pipeline/steps.go has recorded when it ends without an error.
use bankstmt_analyzer.Prelude.{
  ◌≡◌, refl, subst, ap, ◌∙◌, true, false, not, List, [], ◌∷◌, arith, ◌==◌, All,
}
use bankstmt_analyzer.Text.{Bytes, codes}
use bankstmt_analyzer.Go.{plain, Result, ok, err}
use bankstmt_analyzer.Go.Monad.{Exec, pure, context, raise_if, lift, ◌>>=◌, ◌>>◌}
use bankstmt_analyzer.Go.Hoare.{OnOk, OnOk-bind, OnOk-context}
use bankstmt_analyzer.Db.{Uuid, Numeric, Analysis, Db}
use bankstmt_analyzer.Db.Rows.{Refers}
use bankstmt_analyzer.Db.Queries.{Query, where_rows, list_upload_files, send}
use bankstmt_analyzer.Db.Store.{NewAnalysis, replace_analysis}
use bankstmt_analyzer.Db.Store.Replace.{Replaced, replace_analysis-OnOk}
use bankstmt_analyzer.Db.Store.Atomic.{SameTables}
use bankstmt_analyzer.World.{World, query}
use bankstmt_analyzer.Llm
use bankstmt_analyzer.Llm.{Statement}
use bankstmt_analyzer.Pipeline.Convert.{build_analysis}
use bankstmt_analyzer.Pipeline.Convert.Rows.{build_analysis-upload}
use bankstmt_analyzer.Pipeline.Steps.{State, statements, analyze}

-- The upload has one analysis, which the state names; the analyses of other uploads are as they were.
pub record Analysed (u : Uuid) (before : Db) (state : State) (after : Db) : Type 0 where
  pub row : Analysis
  pub named : row.id ≡ state.analysis_id
  pub only : where_rows (λ a. a.upload_id == u) after.analyses ≡ row ∷ []
  pub others :
      where_rows (λ a. not (a.upload_id == u)) after.analyses
      ≡ where_rows (λ a. not (a.upload_id == u)) before.analyses

list_upload_files-db :
    (u : Uuid) (before : Db) (w : World)
    → SameTables before w.db
    → OnOk (λ _ v. SameTables before v.db) (query (list_upload_files u) w)
unfolding list_upload_files send
list_upload_files-db u before w same = ground arith

lift_ok-OnOk :
    {S A : Type 0} (P : S → Type 0) (r : Result A) (s : S)
    → P s
    → OnOk (λ a t. (r ≡ ok a) × P t) (lift r s)
lift_ok-OnOk P (ok a) s h = (refl, h)
lift_ok-OnOk P (err e) s h = tt

lift-OnOk : {S A : Type 0} (P : S → Type 0) (r : Result A) (s : S) → P s → OnOk (λ _. P) (lift r s)
lift-OnOk P (ok a) s h = h
lift-OnOk P (err e) s h = tt

query-OnOk :
    {A : Type 0} (P : A → Db → Type 0) (q : Query A) (w : World)
    → OnOk P (q w.db)
    → OnOk (λ a v. P a v.db) (query q w)
query-OnOk {A} P q w h = go (q w.db).0 (q w.db).1 h
  where
    go :
        (r : Result A) (db : Db) → OnOk P (r, db) → OnOk (λ a v. P a v.db) (r, record w { db = db })
    go (ok a) db h = h
    go (err e) db h = tt

Analysed-of_Replaced :
    (state : State) (new : NewAnalysis) (before db after : Db) (row : Analysis)
    → new.analysis.upload_id ≡ state.upload_id
    → SameTables before db
    → Replaced new db row after
    → Analysed state.upload_id before (record state { analysis_id = row.id }) after
Analysed-of_Replaced state new before db after row e same r = record {
  row = row;
  named = refl;
  only = subst (λ u. where_rows (λ a. a.upload_id == u) after.analyses ≡ row ∷ []) e r.only;
  others =
      subst
        (λ u.
          where_rows (λ a. not (a.upload_id == u)) after.analyses
          ≡ where_rows (λ a. not (a.upload_id == u)) db.analyses)
        e r.others
      ∙ ap (where_rows (λ a. not (a.upload_id == state.upload_id))) same.analyses;
}

module _ (before : Db) (refers : All (Refers before.analyses) before.transactions) where
  store-Analysed :
      (state : State) (new : NewAnalysis) (v : World)
      → new.analysis.upload_id ≡ state.upload_id
      → SameTables before v.db
      → OnOk
          (λ s v'. Analysed state.upload_id before s v'.db)
          ((context (codes "store analysis") (query (replace_analysis new)) >>= λ row.
              pure (record state { analysis_id = row.id }))
            v)
  store-Analysed state new v e same =
      OnOk-bind (λ row v'. Replaced new v.db row v'.db)
        (λ s v'. Analysed state.upload_id before s v'.db) (context _ (query (replace_analysis new)))
        _ v
        (OnOk-context _ (λ row v'. Replaced new v.db row v'.db) (query (replace_analysis new)) v
          (query-OnOk (Replaced new v.db) (replace_analysis new) v
            (replace_analysis-OnOk new v.db (rw (same.analyses, same.transactions) refers))))
        λ row v' r. Analysed-of_Replaced state new before v.db v'.db row e same r

  module _ (llm : List Statement → Result Llm.Response) (scan : Bytes → Result Numeric)
      (new_id : Uuid) (state : State) where
    abbrev Same : World → Type 0
    Same v = SameTables before v.db

    abbrev Stored : State → World → Type 0
    Stored s v = Analysed state.upload_id before s v.db

    -- The rest of `analyze` behind the reply, behind the check that there are statements, and behind the
    -- statements.
    abbrev store_reply : Llm.Response → Exec World State
    store_reply resp = lift (build_analysis scan new_id state.upload_id resp) >>= λ new.
        context (codes "store analysis") (query (replace_analysis new)) >>= λ row.
        pure (record state { analysis_id = row.id })

    abbrev ask : List Statement → Exec World State
    ask ss = context (codes "analyse statements") (lift (llm ss)) >>= store_reply

    abbrev check : List Statement → Exec World (Unit {0})
    check ss =
        raise_if (elim ss [ [] ↦ true | _ ∷ _ ↦ false ])
          (plain (codes "upload has no statements to analyse"))

    store_reply-OnOk : (resp : Llm.Response) (v : World) → Same v → OnOk Stored (store_reply resp v)
    store_reply-OnOk resp v same =
        OnOk-bind (λ new v'. (build_analysis scan new_id state.upload_id resp ≡ ok new) × Same v')
          Stored (lift (build_analysis scan new_id state.upload_id resp)) _ v
          (lift_ok-OnOk Same (build_analysis scan new_id state.upload_id resp) v same)
          λ new v' (e, same').
            store-Analysed state new v' (build_analysis-upload scan new_id state.upload_id resp e)
              same'

    ask-OnOk : (ss : List Statement) (v : World) → Same v → OnOk Stored (ask ss v)
    ask-OnOk ss v same =
        OnOk-bind (λ _. Same) Stored (context (codes "analyse statements") (lift (llm ss)))
          store_reply v
          (OnOk-context (codes "analyse statements") (λ _. Same) (lift (llm ss)) v
            (lift-OnOk Same (llm ss) v same))
          store_reply-OnOk

    check-OnOk : (ss : List Statement) (v : World) → Same v → OnOk Stored ((check ss >> ask ss) v)
    check-OnOk [] v same = tt
    check-OnOk (s ∷ ss) v same = ask-OnOk (s ∷ ss) v same

    analyze-OnOk : (w : World) → Same w → OnOk Stored (analyze llm scan new_id state w)
    unfolding analyze
    analyze-OnOk w same =
        OnOk-bind (λ _. Same) Stored
          (context (codes "list upload files") (query (list_upload_files state.upload_id))) _ w
          (OnOk-context (codes "list upload files") (λ _. Same)
            (query (list_upload_files state.upload_id)) w
            (list_upload_files-db state.upload_id before w same))
          λ files w₁ same₁.
            OnOk-bind (λ _. Same) Stored (lift (statements files)) (λ ss. check ss >> ask ss) w₁
              (lift-OnOk Same (statements files) w₁ same₁) check-OnOk

-- In tables whose transactions refer to analyses that are there, when the analyze step of an upload ends
-- without an error, the upload has one analysis, the one that the payload names, and the analyses of all other
-- uploads are as they were.
pub analyze-Analysed :
    (llm : List Statement → Result Llm.Response) (scan : Bytes → Result Numeric) (new_id : Uuid)
    (state : State) (w : World) {state' : State} {w' : World}
    → All (Refers w.db.analyses) w.db.transactions
    → analyze llm scan new_id state w ≡ (ok state', w')
    → Analysed state.upload_id w.db state' w'.db
analyze-Analysed llm scan new_id state w refers h =
    subst (OnOk (λ s v. Analysed state.upload_id w.db s v.db)) h (
      analyze-OnOk w.db refers llm scan new_id state w
        (record { uploads = refl; upload_files = refl; analyses = refl; transactions = refl }))
