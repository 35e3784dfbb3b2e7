-- ===== src/Db/Sums/Keys.antt =====
-- GROUP BY: one group for each key, which has exactly the rows of that key.
use bankstmt_analyzer.Prelude.{
  ℕ, ◌≤◌, ◌≡◌, refl, sym, ap, ◌∙◌, subst, Bool, true, false, List, [], ◌∷◌, arith, if◌then◌else◌,
  All, inl, inr, Bool-cases,
}
use bankstmt_analyzer.Db.Queries.{where_rows}
use bankstmt_analyzer.Db.Sums.{weigh, group_by, join_group, order_by, insert_row}

-- A test of equality.
pub record Decides {K : Type 0} (same : K → K → Bool) : Type 0 where
  pub reflexive : (k : K) → same k k ≡ true
  pub sound : (k l : K) → same k l ≡ true → k ≡ l

module _ {K : Type 0} (same : K → K → Bool) (decides : Decides same) where
  same-flip : (k l : K) → same l k ≡ false → same k l ≡ false
  same-flip k l n = elim (Bool-cases (same k l)) [
    | inl e ↦
        e ∙ (sym (decides.reflexive l) ∙ subst (λ x. same l x ≡ false) (decides.sound k l e) n)
    | inr m ↦ m
  ]

module _ {K A : Type 0} (same : K → K → Bool) (decides : Decides same) where
  -- How often the key names a group, and the rows of the group that it names.
  abbrev pub occurs : K → List (K × List A) → ℕ
  occurs c groups = weigh (λ g. if same c g.0 then 1 else 0) groups

  abbrev pub lookup : K → List (K × List A) → List A
  lookup c [] = []
  lookup c ((l, rows) ∷ rest) = if same c l then rows else lookup c rest

  occurs-other :
      (c k : K) (a : A) (groups : List (K × List A))
      → same c k ≡ false
      → occurs c (join_group same k a groups) ≡ occurs c groups
  unfolding join_group
  occurs-other c k a [] n = ground arith
  occurs-other c k a ((l, rows) ∷ rest) n = ground (arith, occurs-other c k a rest n)

  occurs-own :
      (k : K) (a : A) (groups : List (K × List A))
      → occurs k groups ≤ 1
      → occurs k (join_group same k a groups) ≤ 1
  unfolding join_group
  occurs-own k a [] h = ground arith
  occurs-own k a ((l, rows) ∷ rest) h = ground (arith, occurs-own k a rest)

  pub occurs-group_by :
      (key : A → K) (c : K) (rows : List A) → occurs c (group_by same key rows) ≤ 1
  unfolding group_by
  occurs-group_by key c [] = omega arith
  occurs-group_by key c (a ∷ rest) = elim (Bool-cases (same c (key a))) [
    | inl h ↦
        subst (λ k. occurs k (group_by same key (a ∷ rest)) ≤ 1) (sym (decides.sound c (key a) h))
          (occurs-own (key a) a (group_by same key rest) (occurs-group_by key (key a) rest))
    | inr n ↦
        subst (λ m. m ≤ 1) (sym (occurs-other c (key a) a (group_by same key rest) n))
          (occurs-group_by key c rest)
  ]

  -- A key names one group if a row has it, and else none.
  abbrev pub one_if_any : List A → ℕ
  one_if_any [] = 0
  one_if_any (a ∷ rest) = 1

  occurs-join_own :
      (k : K) (a : A) (groups : List (K × List A))
      → occurs k groups ≤ 1
      → occurs k (join_group same k a groups) ≡ 1
  unfolding join_group
  occurs-join_own k a [] h = rw (decides.reflexive k) refl
  occurs-join_own k a ((l, rows) ∷ rest) h = elim (Bool-cases (same k l)) [
    | inl e ↦ ground arith
    | inr n ↦ ground (arith, occurs-join_own k a rest)
  ]

  pub occurs-group_by_eq :
      (key : A → K) (c : K) (rows : List A)
      → occurs c (group_by same key rows) ≡ one_if_any (where_rows (λ a. same c (key a)) rows)
  unfolding group_by
  occurs-group_by_eq key c [] = refl
  occurs-group_by_eq key c (a ∷ rest) = elim (Bool-cases (same c (key a))) [
    | inl h ↦ rw h (
        subst (λ k. occurs k (group_by same key (a ∷ rest)) ≡ 1) (sym (decides.sound c (key a) h))
          (occurs-join_own (key a) a (group_by same key rest) (occurs-group_by key (key a) rest)))
    | inr n ↦
        rw n (occurs-other c (key a) a (group_by same key rest) n ∙ occurs-group_by_eq key c rest)
  ]

  lookup-own :
      (k : K) (a : A) (groups : List (K × List A))
      → lookup k (join_group same k a groups) ≡ a ∷ lookup k groups
  unfolding join_group
  lookup-own k a [] = rw (decides.reflexive k) refl
  lookup-own k a ((l, rows) ∷ rest) = ground (arith, lookup-own k a rest)

  lookup-other :
      (c k : K) (a : A) (groups : List (K × List A))
      → same c k ≡ false
      → lookup c (join_group same k a groups) ≡ lookup c groups
  unfolding join_group
  lookup-other c k a [] n = ground arith
  lookup-other c k a ((l, rows) ∷ rest) n = elim (Bool-cases (same k l)) [
    | inl h ↦ rw (h, subst (λ m. same c m ≡ false) (decides.sound k l h) n) refl
    | inr m ↦ rw (m, lookup-other c k a rest n) refl
  ]

  -- The group of a key has the rows of the key, in their order.
  pub lookup-group_by :
      (key : A → K) (c : K) (rows : List A)
      → lookup c (group_by same key rows) ≡ where_rows (λ a. same c (key a)) rows
  unfolding group_by
  lookup-group_by key c [] = refl
  lookup-group_by key c (a ∷ rest) = elim (Bool-cases (same c (key a))) [
    | inl h ↦ rw h (
        subst
          (λ k.
            lookup k (join_group same (key a) a (group_by same key rest))
            ≡ a ∷ lookup k (group_by same key rest))
          (sym (decides.sound c (key a) h)) (lookup-own (key a) a (group_by same key rest))
        ∙ ap (λ t. a ∷ t) (lookup-group_by key c rest))
    | inr n ↦
        rw n (lookup-other c (key a) a (group_by same key rest) n ∙ lookup-group_by key c rest)
  ]

  -- A key that names no group is none of the keys.
  absent :
      (k : K) (groups : List (K × List A))
      → occurs k groups ≤ 0
      → All (λ g. same k g.0 ≡ false) groups
  absent k [] h = tt
  absent k ((l, rows) ∷ rest) h = elim (Bool-cases (same k l)) [
    | inl e ↦ ground arith
    | inr n ↦ (n, absent k rest (ground arith))
  ]

  -- A group found first is found behind a group of another key.
  look-past :
      (l : K) (rows : List A) (rest front : List (K × List A))
      → All (λ g. same l g.0 ≡ false) front
      → All (λ g. g.1 ≡ lookup g.0 rest) front
      → All (λ g. g.1 ≡ lookup g.0 ((l, rows) ∷ rest)) front
  look-past l rows rest [] n h = tt
  look-past l rows rest ((k, found) ∷ front) n h =
      (rw (same-flip same decides k l n.0) h.0, look-past l rows rest front n.1 h.1)

  first-once :
      (l : K) (rows : List A) (rest : List (K × List A))
      → occurs l ((l, rows) ∷ rest) ≤ 1
      → occurs l rest ≤ 0
  first-once l rows rest h = ground (arith, decides.reflexive l)

  rest-once :
      (c l : K) (rows : List A) (rest : List (K × List A))
      → occurs c ((l, rows) ∷ rest) ≤ 1
      → occurs c rest ≤ 1
  rest-once c l rows rest h = omega (arith, h)

  pub found-lookup :
      (groups : List (K × List A))
      → ((c : K) → occurs c groups ≤ 1)
      → All (λ g. g.1 ≡ lookup g.0 groups) groups
  found-lookup [] once = tt
  found-lookup ((l, rows) ∷ rest) once = (
    rw (decides.reflexive l) refl,
    look-past l rows rest rest (absent l rest (first-once l rows rest (once l)))
        (found-lookup rest λ c. rest-once c l rows rest (once c)),
  )

-- What holds of every row holds of the rows in order.
module _ {A : Type 0} (P : A → Type 0) (before : A → A → Bool) where
  pub All-insert_row : (a : A) (rows : List A) → P a → All P rows → All P (insert_row before a rows)
  unfolding insert_row
  All-insert_row a [] h hs = (h, tt)
  All-insert_row a (b ∷ rest) h hs =
      elim (before a b) as (λ c. All P (if c then a ∷ b ∷ rest else b ∷ insert_row before a rest)) [
        | true ↦ (h, hs)
        | false ↦ (hs.0, All-insert_row a rest h hs.1)
      ]

  pub All-order_by : (rows : List A) → All P rows → All P (order_by before rows)
  unfolding order_by
  All-order_by [] hs = tt
  All-order_by (a ∷ rest) hs = All-insert_row a (order_by before rest) hs.0 (All-order_by rest hs.1)

  All-from-insert_row :
      (a : A) (rows : List A) → All P (insert_row before a rows) → P a × All P rows
  unfolding insert_row
  All-from-insert_row a [] h = h
  All-from-insert_row a (b ∷ rest) h = elim (Bool-cases (before a b)) [
    | inl e ↦ subst (λ c. All P (if c then a ∷ b ∷ rest else b ∷ insert_row before a rest)) e h
    | inr n ↦
        let kept : All P (b ∷ insert_row before a rest) =
          subst (λ c. All P (if c then a ∷ b ∷ rest else b ∷ insert_row before a rest)) n h in
        let (pa, ps) = All-from-insert_row a rest kept.1 in (pa, (kept.0, ps))
  ]

  pub All-from-order_by : (rows : List A) → All P (order_by before rows) → All P rows
  unfolding order_by
  All-from-order_by [] h = tt
  All-from-order_by (a ∷ rest) h =
      let (pa, ps) = All-from-insert_row a (order_by before rest) h in
      (pa, All-from-order_by rest ps)
