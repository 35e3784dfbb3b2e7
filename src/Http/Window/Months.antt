-- ===== src/Http/Window/Months.antt =====
-- Which months a window of internal/http/window.go has.
use bankstmt_analyzer.Prelude.{
  ℕ, ◌+◌, ◌≤◌, ◌≡◌, refl, ap, sym, ◌∙◌, ◌&&◌, ◌==◌, ◌*◌, subst, Bool, Option, none, some, [], ◌∷◌,
  arith, inl, inr, Bool-cases, ltb, ◌||◌, if◌then◌else◌,
}
use bankstmt_analyzer.Text.{Bytes, codes, is_empty}
use bankstmt_analyzer.Pipeline.Convert.{is_digit, digit}
use bankstmt_analyzer.Http.Problem.{Problem}
use bankstmt_analyzer.Http.Window.{
  atoi, parse_month, check_month, months_problem, max_window_months, Month, MonthWindow, ◌>>=◌,
  Checked, accepted, rejected, parse_months, parse_month_param, choose, check_order, resolve_window,
}

-- The window is in order.
abbrev InOrder : Checked MonthWindow → Type 0
InOrder (accepted w) = w.from ≤ w.to
InOrder (rejected p) = Unit

check_order-InOrder : (w : MonthWindow) → InOrder (check_order w)
unfolding check_order
check_order-InOrder w = ground arith

-- The window that is chosen when the parameters have been read.
abbrev chosen :
    Checked ℕ → Checked (Option Month) → Checked (Option Month) → Month → Checked MonthWindow
chosen months from to anchor = do m ← months; f ← from; t ← to; check_order (choose m f t anchor)

chosen-InOrder :
    (months : Checked ℕ) (from to : Checked (Option Month)) (anchor : Month)
    → InOrder (chosen months from to anchor)
chosen-InOrder (rejected p) from to anchor = tt
chosen-InOrder (accepted m) (rejected p) to anchor = tt
chosen-InOrder (accepted m) (accepted f) (rejected p) anchor = tt
chosen-InOrder (accepted m) (accepted f) (accepted t) anchor =
    check_order-InOrder (choose m f t anchor)

-- Whatever the parameters say, the months of a window that is accepted are in order.
pub resolve_window-ordered :
    (query : Bytes → Bytes) (anchor : Month) {w : MonthWindow}
    → resolve_window query anchor ≡ accepted w
    → w.from ≤ w.to
unfolding resolve_window
resolve_window-ordered query anchor h = subst InOrder h (
    chosen-InOrder (parse_months (query (codes "months"))) (parse_month_param query (codes "from"))
      (parse_month_param query (codes "to")) anchor)

-- A number of months that is accepted is between 1 and 12.
abbrev InRange : Checked ℕ → Type 0
InRange (accepted n) = (1 ≤ n) × (n ≤ 12)
InRange (rejected p) = Unit

-- What `parse_months` makes of the number that it has read.
in_range :
    (o : Option ℕ)
    → InRange (elim o as (λ _. Checked ℕ) [
      | none ↦ rejected months_problem
      | some months ↦
          if ltb months 1 || ltb max_window_months months
          then rejected months_problem
          else accepted months
    ])
in_range none = tt
in_range (some n) = ground arith

parse_months-InRange : (raw : Bytes) → InRange (parse_months raw)
unfolding parse_months
parse_months-InRange [] = (omega arith, omega arith)
parse_months-InRange (c ∷ raw) = in_range (atoi (c ∷ raw))

-- A month that is read is in year 0 or later.
abbrev Late : Checked (Option Month) → Type 0
Late (accepted (some m)) = 12 ≤ m
Late (accepted none) = Unit
Late (rejected p) = Unit

IsLate : Option Month → Type 0
IsLate none = Unit
IsLate (some m) = 12 ≤ m

check_month-IsLate : (good : Bool) (year month : ℕ) → IsLate (check_month good year month)
unfolding check_month IsLate
check_month-IsLate good year month = ground arith

parse_month-IsLate : (s : Bytes) → IsLate (parse_month s)
unfolding parse_month IsLate
parse_month-IsLate [] = tt
parse_month-IsLate (a ∷ []) = tt
parse_month-IsLate (a ∷ b ∷ []) = tt
parse_month-IsLate (a ∷ b ∷ c ∷ []) = tt
parse_month-IsLate (a ∷ b ∷ c ∷ d ∷ []) = tt
parse_month-IsLate (a ∷ b ∷ c ∷ d ∷ e ∷ []) = tt
parse_month-IsLate (a ∷ b ∷ c ∷ d ∷ e ∷ f ∷ []) = tt
parse_month-IsLate (a ∷ b ∷ c ∷ d ∷ h ∷ e ∷ f ∷ []) =
    check_month-IsLate
      (is_digit a
        && is_digit b
        && is_digit c
        && is_digit d
        && h == b'-'
        && is_digit e
        && is_digit f)
      (digit a * 1000 + digit b * 100 + digit c * 10 + digit d) (digit e * 10 + digit f)
parse_month-IsLate (a ∷ b ∷ c ∷ d ∷ h ∷ e ∷ f ∷ g ∷ s) = tt

-- What `parse_month_param` makes of a month that it has read.
late :
    (p : Problem) (o : Option Month)
    → IsLate o
    → Late (elim o as (λ _. Checked (Option Month)) [
      | some month ↦ accepted (some month)
      | none ↦ rejected p
    ])
unfolding IsLate
late p none h = tt
late p (some m) h = h

parse_month_param-Late :
    (query : Bytes → Bytes) (name : Bytes) → Late (parse_month_param query name)
unfolding parse_month_param
parse_month_param-Late query name = elim (Bool-cases (is_empty (query name))) [
  | inl absent ↦ rw (parse_month_param, absent) tt
  | inr given ↦
      rw (parse_month_param, given)
        (late _ (parse_month (query name)) (parse_month-IsLate (query name)))
]

-- The window has as many months as were asked for.
abbrev Counted : Checked ℕ → Checked MonthWindow → Type 0
Counted (accepted n) (accepted w) = (1 ≤ n) × (n ≤ 12) × (w.from + n ≡ w.to + 1)
Counted _ (rejected p) = Unit
Counted (rejected p) (accepted w) = ⊥

chosen-Counted :
    (months : Checked ℕ) (to : Checked (Option Month)) (anchor : Month)
    → InRange months
    → Late to
    → 12 ≤ anchor
    → Counted months (chosen months (accepted none) to anchor)
unfolding check_order
chosen-Counted (rejected p) to anchor h late' now = tt
chosen-Counted (accepted n) (rejected p) anchor h late' now = tt
chosen-Counted (accepted n) (accepted none) anchor h late' now = ground arith
chosen-Counted (accepted n) (accepted (some m)) anchor h late' now = ground arith

parse_month_param-absent :
    (query : Bytes → Bytes) (name : Bytes)
    → query name ≡ []
    → parse_month_param query name ≡ accepted none
unfolding parse_month_param
parse_month_param-absent query name h = rw (parse_month_param, h) refl

-- If the request does not say where the window begins, and the data ends in year 0 or later, the window that is
-- accepted has as many months as `months` says, which are between 1 and 12.
pub resolve_window-months :
    (query : Bytes → Bytes) (anchor : Month) {w : MonthWindow} {n : ℕ}
    → 12 ≤ anchor
    → query (codes "from") ≡ []
    → parse_months (query (codes "months")) ≡ accepted n
    → resolve_window query anchor ≡ accepted w
    → (1 ≤ n) × (n ≤ 12) × (w.from + n ≡ w.to + 1)
unfolding resolve_window
resolve_window-months query anchor {w} {n} now no_from e h =
    let months = parse_months (query (codes "months")) in
    let to = parse_month_param query (codes "to") in
    subst (λ m. Counted m (accepted w)) e
      (subst (Counted months)
        (ap (λ f. chosen months f to anchor)
            (sym (parse_month_param-absent query (codes "from") no_from))
          ∙ h)
        (chosen-Counted months to anchor (parse_months-InRange (query (codes "months")))
          (parse_month_param-Late query (codes "to")) now))
