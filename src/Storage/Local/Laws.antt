-- ===== src/Storage/Local/Laws.antt =====
-- What the store in a directory (internal/storage/local.go) leaves behind.
use bankstmt_analyzer.Prelude.{
  ℕ, ◌≡◌, refl, ◌∙◌, subst, false, Option, none, some, [], arith, length,
}
use bankstmt_analyzer.Text.{Bytes, codes, bytes_eq}
use bankstmt_analyzer.Go.{Error, Result, ok, err}
use bankstmt_analyzer.Go.Monad.{Exec, context, lift, pure, modify, ◌>>=◌, ◌>>◌}
use bankstmt_analyzer.Db.Store.Atomic.{OnError}
use bankstmt_analyzer.World.{find_blob}
use bankstmt_analyzer.Storage.Objects.{Objects, system, set_object, find-other, find-kept}
use bankstmt_analyzer.Storage.Local.{
  storing, resolve, unless_done, read_out, copy, rename, move, write_file, clean_up, tidied, filled,
  create_temp, put,
}

-- A file other than the temporary one is as it was.
abbrev pub Same : Bytes → Objects → Objects → Type 0
Same name s t = find_blob name t.objects ≡ find_blob name s.objects

system-Same : (name : Bytes) (s : Objects) → Same name s (system s).1
unfolding system
system-Same name s = ground arith

set_object-Same :
    (tmp name body : Bytes) (s : Objects)
    → bytes_eq tmp name ≡ false
    → Same name s (set_object tmp body s)
set_object-Same tmp name body s n = find-other tmp name body _ n ∙ find-kept tmp name s.objects n

module _ {A B : Type 0} (name : Bytes) where
  -- Calls that leave the file as it is, before one that does so if it fails.
  bind-OnError :
      (q : Exec Objects A) (f : A → Exec Objects B) (s : Objects)
      → Same name s (q s).1
      → ((a : A) (t : Objects) → OnError (Same name t) (f a t))
      → OnError (Same name s) ((q >>= f) s)
  bind-OnError q f s h k = go (q s).0 (q s).1 h
    where
      go :
          (r : Result A) (t : Objects)
          → Same name s t
          → OnError (Same name s) (((λ (_ : Objects). (r, t)) >>= f) s)
      go (err e) t same = same
      go (ok a) t same = later (f a t).0 (f a t).1 (k a t)
        where
          later :
              (r : Result B) (u : Objects)
              → OnError (Same name t) (r, u)
              → OnError (Same name s) (r, u)
          later (ok b) u h = tt
          later (err e) u h = h ∙ same

  bind-Same :
      (q : Exec Objects A) (f : A → Exec Objects B) (s : Objects)
      → Same name s (q s).1
      → ((a : A) (t : Objects) → Same name t (f a t).1)
      → Same name s ((q >>= f) s).1
  bind-Same q f s h k = go (q s).0 (q s).1 h
    where
      go :
          (r : Result A) (t : Objects)
          → Same name s t
          → Same name s (((λ (_ : Objects). (r, t)) >>= f) s).1
      go (err e) t same = same
      go (ok a) t same = k a t ∙ same

OnError-context-pure :
    {A : Type 0} (P : Objects → Type 0) (text : Bytes) (q : Exec Objects (Unit {0})) (a : A)
    (s : Objects)
    → OnError P (q s)
    → OnError P ((context text q >> pure a) s)
OnError-context-pure P text q a s h = go (q s).0 (q s).1 h
  where
    go :
        (r : Result (Unit {0})) (t : Objects)
        → OnError P (r, t)
        → OnError P ((context text (λ (_ : Objects). (r, t)) >> pure a) s)
    go (ok u) t h = tt
    go (err e) t h = h

module _ (root key tmp path body name : Bytes) (broken : Option Bytes)
    (other : bytes_eq tmp name ≡ false) where
  read_out-Same : (o : Option Bytes) (t : Objects) → Same name t (read_out root o t).1
  read_out-Same none t = refl
  read_out-Same (some text) t = refl

  copy-Same : (s : Objects) → Same name s (copy root tmp body broken s).1
  copy-Same s =
      bind-Same name system (λ _. set >> read_out root broken) s (system-Same name s)
        λ _ t.
          bind-Same name set (λ _. read_out root broken) t (set_object-Same tmp name body t other)
            λ _ u. read_out-Same broken u
    where
      set : Exec Objects (Unit {0})
      set = modify (set_object tmp body)

  abbrev named : Bytes → Bytes
  named what = storing what key

  -- The steps of `write_file` behind the copy.
  abbrev committed : Exec Objects ℕ
  committed = context (named (codes "commit")) (rename root tmp path) >> pure (length body)

  abbrev closed : Exec Objects ℕ
  unfolding system
  closed = context (named (codes "close")) system >> committed

  abbrev synced : Exec Objects ℕ
  unfolding system
  synced = context (named (codes "sync")) system >> closed

  move-OnError :
      (content : Option Bytes) (s : Objects) → OnError (Same name s) (move root tmp path content s)
  move-OnError none s = refl
  move-OnError (some content) s = tt

  rename-OnError : (s : Objects) → OnError (Same name s) (rename root tmp path s)
  rename-OnError s =
      bind-OnError name system (λ _ t. move root tmp path (find_blob tmp t.objects) t) s
        (system-Same name s) λ _ t. move-OnError (find_blob tmp t.objects) t

  committed-OnError : (s : Objects) → OnError (Same name s) (committed s)
  committed-OnError s =
      OnError-context-pure (Same name s) (named (codes "commit")) (rename root tmp path)
        (length body) s (rename-OnError s)

  write_file-OnError :
      (s : Objects) → OnError (Same name s) (write_file root key tmp path body broken s)
  unfolding write_file synced closed
  write_file-OnError s =
      bind-OnError name (context (named (codes "write")) (copy root tmp body broken)) (λ _. synced)
        s (copy-Same s)
        λ _ t.
          bind-OnError name (context (named (codes "sync")) system) (λ _. closed) t
            (system-Same name t)
            λ _ u.
              bind-OnError name (context (named (codes "close")) system) (λ _. committed) u
                (system-Same name u) λ _ v. committed-OnError v

  tidied-OnError :
      (r : Result ℕ) (s : Objects) (gone : Result (Unit {0})) (t : Objects)
      → OnError (Same name s) (r, t)
      → OnError (Same name s) (tidied root tmp r gone t)
  tidied-OnError (ok n) s (ok _) t h = tt
  tidied-OnError (ok n) s (err _) t h = tt
  tidied-OnError (err e) s (ok _) t h = find-kept tmp name t.objects other ∙ h
  tidied-OnError (err e) s (err _) t h = h

  moved :
      (r : Result ℕ) (s t : Objects)
      → OnError (Same name s) (r, t)
      → OnError (Same name s) (r, (system t).1)
  moved (ok n) s t h = tt
  moved (err e) s t h = system-Same name t ∙ h

  clean_up-OnError :
      (r : Result ℕ) (s t : Objects)
      → OnError (Same name s) (r, t)
      → OnError (Same name s) (clean_up root tmp (r, t))
  unfolding clean_up
  clean_up-OnError r s t h = tidied-OnError r s (system t).0 (system t).1 (moved r s t h)

  filled-OnError : (s : Objects) → OnError (Same name s) (filled root tmp key path body broken s)
  filled-OnError s =
      clean_up-OnError (write_file root key tmp path body broken s).0 s
        (write_file root key tmp path body broken s).1 (write_file-OnError s)

  create_temp-Same : (s : Objects) → Same name s (create_temp root tmp s).1
  create_temp-Same s =
      bind-Same name system (λ _. modify (set_object tmp [])) s (system-Same name s)
        λ _ t. set_object-Same tmp name [] t other

  unless_done-Same :
      (done : Option Bytes) (what : Bytes) (s : Objects)
      → Same name s (unless_done root done what key s).1
  unless_done-Same none what s = refl
  unless_done-Same (some text) what s = refl

  abbrev in_place : Exec Objects ℕ
  in_place =
      context (named (codes "create temp file for")) (create_temp root tmp)
      >> filled root tmp key path body broken

  abbrev prepared : Exec Objects ℕ
  unfolding system
  prepared = context (named (codes "create directory for")) system >> in_place

  prepared-OnError :
      (done : Option Bytes) (s : Objects)
      → OnError (Same name s) ((unless_done root done (codes "put") key >> prepared) s)
  unfolding prepared
  prepared-OnError done s =
      bind-OnError name (unless_done root done (codes "put") key) (λ _. prepared) s
        (unless_done-Same done (codes "put") s)
        λ _ t.
          bind-OnError name (context (named (codes "create directory for")) system) (λ _. in_place)
            t (system-Same name t)
            λ _ u.
              bind-OnError name
                (context (named (codes "create temp file for")) (create_temp root tmp))
                (λ _. filled root tmp key path body broken) u (create_temp-Same u)
                λ _ v. filled-OnError v

-- A `Put` that returns an error, wherever it fails, leaves every file but the temporary one as it was: an
-- object that was there is whole, and none is left half written.
pub put-keeps :
    (root : Bytes) (done : Option Bytes) (tmp key body : Bytes) (broken : Option Bytes)
    (s : Objects) (name : Bytes) {e : Error} {t : Objects}
    → bytes_eq tmp name ≡ false
    → put root done tmp key body broken s ≡ (err e, t)
    → find_blob name t.objects ≡ find_blob name s.objects
unfolding put prepared
put-keeps root done tmp key body broken s name other failed =
    subst (OnError (Same name s)) failed (by_path (resolve root key))
  where
    by_path :
        (r : Result Bytes)
        → OnError (Same name s) (
            (lift r >>= λ path.
            unless_done root done (codes "put") key
            >> prepared root key tmp path body name broken other)
              s)
    by_path (err e) = refl
    by_path (ok path) = prepared-OnError root key tmp path body name broken other done s
