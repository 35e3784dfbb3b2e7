-- ===== src/Storage/S3/Laws.antt =====
-- What is put into the bucket (internal/storage/s3.go) is what is got from it, and a deletion that succeeds
-- has removed an object.
use bankstmt_analyzer.Prelude.{
  ℕ, suc, take-all, ◌≤◌, ◌≡◌, refl, sym, ap, ◌∙◌, subst, none, some, arith, length, take, ltb,
  Bool-cases, inl, inr,
}
use bankstmt_analyzer.Text.{Bytes, codes}
use bankstmt_analyzer.Go.{ok}
use bankstmt_analyzer.Go.Monad.{pure, ◌>>◌}
use bankstmt_analyzer.Go.Hoare.{OnOk, OnOk-mono}
use bankstmt_analyzer.Storage.Local.{storing}
use bankstmt_analyzer.Storage.S3.{
  Client, Answer, answered, refused, IsLawful, object_key, annotated, or_missing, is_not_found,
  send_body, put, get,
}

some-injective : {A : Type 0} {a b : A} → some a ≡ some b → a ≡ b
some-injective {a} h = ap (λ o. elim o [ none ↦ a | some x ↦ x ]) h

module _ (C : Client) (lawful : IsLawful C) (prefix : Bytes) (max : ℕ) where
  annotated-put :
      (name body text : Bytes) (n : ℕ) (s : C.State) (a : Answer (Unit {0})) (t : C.State)
      → C.put_object name body s ≡ (a, t)
      → OnOk
          (λ m u. (m ≡ n) × (lawful.contents u name ≡ some body))
          (((λ (_ : C.State). annotated C prefix max text (a, t)) >> pure n) s)
  annotated-put name body text n s (answered tt) t h = (refl, lawful.put-contents name body s t h)
  annotated-put name body text n s (refused e) t h = tt

  -- What is stored when `send_body` succeeds.
  abbrev Stored : Bytes → Bytes → ℕ → C.State → Type 0
  Stored name body n t =
      (n ≡ length body) × (length body ≤ max) × (lawful.contents t name ≡ some body)

  sent :
      (key name body : Bytes) (s : C.State)
      → OnOk (Stored name body) (send_body C prefix max key name (ok (take (suc max) body)) s)
  sent key name body s = elim (Bool-cases (ltb max (length (take (suc max) body)))) [
    | inl large ↦ rw large tt
    | inr small ↦
        let whole = take-all (suc max) body (ground (arith, small)) in
        rw small (
          OnOk-mono
            (λ m u.
              (m ≡ length (take (suc max) body))
              × (lawful.contents u name ≡ some (take (suc max) body)))
            (Stored name body) _
            (λ m u h. (
              h.0 ∙ ap length whole,
              subst (λ b. length b ≤ max) whole (ground (arith, small)),
              h.1 ∙ ap some whole,
            ))
            (annotated-put name (take (suc max) body) (storing (codes "put") key)
              (length (take (suc max) body)) s (C.put_object name (take (suc max) body) s).0
              (C.put_object name (take (suc max) body) s).1 refl))
  ]

  got :
      (key name : Bytes) (s t : C.State) (a : Answer Bytes)
      → C.get_object name s ≡ (a, t)
      → OnOk
          (λ b _. lawful.contents s name ≡ some b)
          (or_missing C prefix max (storing (codes "get") key) (a, t))
  got key name s t (answered b) h = lawful.get-contents name b s t h
  got key name s t (refused e) h = elim (Bool-cases (is_not_found e)) [
    | inl missing ↦ rw missing tt
    | inr trouble ↦ rw trouble tt
  ]

  put-contents_lem :
      (key name body : Bytes) (s : C.State) {n : ℕ} {t : C.State}
      → object_key C prefix max key ≡ ok name
      → put C prefix max key body none s ≡ (ok n, t)
      → (n ≡ length body) × (length body ≤ max) × (lawful.contents t name ≡ some body)
  unfolding put
  put-contents_lem key name body s named stored =
      subst (OnOk (Stored name body)) stored (rw (put, named) (sent key name body s))

  get-contents_lem :
      (key name : Bytes) (s : C.State) {b : Bytes} {t : C.State}
      → object_key C prefix max key ≡ ok name
      → get C prefix max key s ≡ (ok b, t)
      → lawful.contents s name ≡ some b
  unfolding get
  get-contents_lem key name s named read =
      subst (OnOk (λ b _. lawful.contents s name ≡ some b)) read
        (rw (get, named) (got key name s (C.get_object name s).1 (C.get_object name s).0 refl))

  -- A `Put` that succeeds has stored a text within the limit and says how long it is, and a `Get` of the key
  -- in the state that it left, if it succeeds, returns that text.
  pub put-get_bucket :
      (key name body : Bytes) (s : C.State) {n : ℕ} {b : Bytes} {t u : C.State}
      → object_key C prefix max key ≡ ok name
      → put C prefix max key body none s ≡ (ok n, t)
      → get C prefix max key t ≡ (ok b, u)
      → (n ≡ length body) × (length body ≤ max) × (b ≡ body)
  put-get_bucket key name body s {t = t} named stored read =
      let kept = put-contents_lem key name body s named stored in
      let found = get-contents_lem key name t named read in
      (kept.0, kept.1, some-injective (sym found ∙ kept.2))
