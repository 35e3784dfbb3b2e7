-- ===== src/Pipeline/Steps/Progress.antt =====
-- The analyze step of internal/pipeline/steps.go with services that answer: what it returns and leaves.
use bankstmt_analyzer.Prelude.{
  Option-cases, ◌≡◌, refl, sym, subst, ap, ◌∙◌, ◌&&◌, not, true, false, List, [], ◌∷◌, ◌++◌, arith,
  ◌==◌, All, inl, inr,
}
use bankstmt_analyzer.Text.{Bytes, codes}
use bankstmt_analyzer.Go.{Result, ok}
use bankstmt_analyzer.Go.Monad.{Exec, lift, context, pure, ◌>>=◌}
use bankstmt_analyzer.Go.Results.{ok-injective, >>=-eq-ok}
use bankstmt_analyzer.Db.{Uuid, UploadFile, Numeric, Analysis, Db}
use bankstmt_analyzer.Db.Queries.{any_row}
use bankstmt_analyzer.Db.Store.{NewAnalysis, replace_analysis}
use bankstmt_analyzer.Db.Store.Quiet.{send-eq}
use bankstmt_analyzer.Db.Store.Live.{row, rest, replace_analysis_passes}
use bankstmt_analyzer.Pipeline.Steps.Resume.Progress.{IsCalm}
use bankstmt_analyzer.World.{World, query}
use bankstmt_analyzer.Llm
use bankstmt_analyzer.Llm.{Statement}
use bankstmt_analyzer.Pipeline.Convert.{build_analysis, build_transactions}
use bankstmt_analyzer.Pipeline.Convert.Rows.{build_analysis-upload}
use bankstmt_analyzer.Pipeline.Steps.{State, has_ocr, statement_of, statements, analyze}
use bankstmt_analyzer.Pipeline.Steps.Resume.Listing.{files_of, files_of-some}
use bankstmt_analyzer.Pipeline.Steps.Marks.{IsRecorded}

statement_of-some : (f : UploadFile) → has_ocr f ≡ true → (s : Statement) × (statement_of f ≡ ok s)
unfolding statement_of has_ocr
statement_of-some f h = elim (Option-cases f.ocr_markdown) [
  | inl absent ↦ absurd (ground arith)
  | inr (text, given) ↦ (record { filename = f.filename; markdown = text }, ground arith)
]

statements-cons :
    (f : UploadFile) (fs : List UploadFile) {s : Statement} {ss : List Statement}
    → statement_of f ≡ ok s
    → statements fs ≡ ok ss
    → statements (f ∷ fs) ≡ ok (s ∷ ss)
unfolding statements
statements-cons f fs given rest = ground arith

nothing : statements [] ≡ ok []
unfolding statements
nothing = refl

-- Files that all have a text have their statements.
statements-some :
    (f : UploadFile) (fs : List UploadFile)
    → All (λ g. has_ocr g ≡ true) (f ∷ fs)
    → (s : Statement) × (ss : List Statement) × (statements (f ∷ fs) ≡ ok (s ∷ ss))
statements-some f [] h =
    let (s, given) = statement_of-some f h.0 in (s, [], statements-cons f [] given nothing)
statements-some f (g ∷ fs) h =
    let (s, given) = statement_of-some f h.0 in
    let (s', ss, rest) = statements-some g fs h.1 in
    (s, s' ∷ ss, statements-cons f (g ∷ fs) given rest)

build_analysis-id :
    (scan : Bytes → Result Numeric) (id u : Uuid) (resp : Llm.Response) {new : NewAnalysis}
    → build_analysis scan id u resp ≡ ok new
    → new.analysis.id ≡ id
unfolding build_analysis
build_analysis-id scan id u resp h =
    let (rows, e, k) = >>=-eq-ok (build_transactions scan 0 resp.transactions) _ h in
    ap (λ n. n.analysis.id) (sym (ok-injective k))

-- The model answers, and its reply is one that can be converted.
pub record Answers (llm : List Statement → Result Llm.Response) (scan : Bytes → Result Numeric)
    (new_id u : Uuid) (ss : List Statement) : Type 0 where
  pub reply : Llm.Response
  pub new : NewAnalysis
  pub replied : llm ss ≡ ok reply
  pub converted : build_analysis scan new_id u reply ≡ ok new

any_row-appended :
    (id u : Uuid) (as' : List Analysis) (a : Analysis)
    → a.id ≡ id
    → a.upload_id ≡ u
    → any_row (λ b. b.id == id && b.upload_id == u) (as' ++ a ∷ []) ≡ true
any_row-appended id u [] a e f = ground arith
any_row-appended id u (b ∷ as') a e f = ground (arith, any_row-appended id u as' a e f)

-- No analysis of another upload has the id.
abbrev pub IsFree : Uuid → Uuid → Db → Type 0
IsFree new_id u db = any_row (λ a. a.id == new_id && not (a.upload_id == u)) db.analyses ≡ false

module _ (llm : List Statement → Result Llm.Response) (scan : Bytes → Result Numeric)
    (new_id : Uuid) (state : State) (blobs : List (Bytes × Bytes)) where
  -- `ReplaceAnalysis` with rows for the upload and the new id.
  store_passes :
      (new : NewAnalysis) (db : Db)
      → db.outages ≡ []
      → IsRecorded state.upload_id db
      → IsFree new_id state.upload_id db
      → new.analysis.upload_id ≡ state.upload_id
      → new.analysis.id ≡ new_id
      → (stored : Analysis) × (db' : Db) × (replace_analysis new db ≡ (ok stored, db'))
        × (stored.id ≡ new_id)
        × (db'.outages ≡ [])
        × IsRecorded state.upload_id db'
        × (any_row (λ a. a.id == new_id && a.upload_id == state.upload_id) db'.analyses ≡ true)
  store_passes new db quiet known free own named =
      let (db', e, beside) =
        replace_analysis_passes new db quiet (rw own known) (rw (own, named) free) in
      (
        row new db quiet,
        db',
        e,
        named,
        beside.quiet,
        rw beside.uploads known,
        rw beside.analyses (
            any_row-appended new_id state.upload_id (rest new db quiet) (row new db quiet) named
              own),
      )

  abbrev store_reply : Llm.Response → Exec World State
  store_reply resp = lift (build_analysis scan new_id state.upload_id resp) >>= λ new.
      context (codes "store analysis") (query (replace_analysis new)) >>= λ row.
      pure (record state { analysis_id = row.id })

  abbrev ask : List Statement → Exec World State
  ask ss = context (codes "analyse statements") (lift (llm ss)) >>= store_reply

  ask-eq :
      (ss : List Statement) (resp : Llm.Response) (new : NewAnalysis) (w : World)
      (stored : Analysis) (db' : Db)
      → llm ss ≡ ok resp
      → build_analysis scan new_id state.upload_id resp ≡ ok new
      → replace_analysis new w.db ≡ (ok stored, db')
      → ask ss w ≡ (ok (record state { analysis_id = stored.id }), record w { db = db' })
  ask-eq ss resp new w stored db' e f g = rw (e, f, g) refl

  pub analyze_passes :
      (w : World)
      → IsCalm blobs w
      → any_row (λ f. f.upload_id == state.upload_id) w.db.upload_files ≡ true
      → All (λ f. has_ocr f ≡ true) (files_of state.upload_id w)
      → IsRecorded state.upload_id w.db
      → IsFree new_id state.upload_id w.db
      → ((s : Statement) (ss : List Statement) → Answers llm scan new_id state.upload_id (s ∷ ss))
      → (w' : World) × (analyze llm scan new_id state w
          ≡ (ok (record state { analysis_id = new_id }), w'))
        × IsCalm blobs w'
        × IsRecorded state.upload_id w'.db
        × (any_row (λ a. a.id == new_id && a.upload_id == state.upload_id) w'.db.analyses ≡ true)
  unfolding analyze
  analyze_passes w calm some_file texts known free answers =
      let u = state.upload_id in
      let (g, gs, listed) = files_of-some u w some_file in
      let (s, ss, made) = statements-some g gs (subst (All (λ f. has_ocr f ≡ true)) listed texts) in
      let a = answers s ss in
      let (row, db', stored, e, quiet, kept, there) =
        store_passes a.new w.db calm.quiet known free
          (build_analysis-upload scan new_id u a.reply a.converted)
          (build_analysis-id scan new_id u a.reply a.converted) in
      (
        record w { db = db' },
        rw (send-eq w.db calm.quiet, listed, made)
            (ask-eq (s ∷ ss) a.reply a.new w row db' a.replied a.converted stored
              ∙ ap (λ i. (ok (record state { analysis_id = i }), record w { db = db' })) e),
        record { quiet = quiet; reached = calm.reached; stored = calm.stored },
        kept,
        there,
      )
