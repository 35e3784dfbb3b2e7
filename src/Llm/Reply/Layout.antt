-- ===== src/Llm/Reply/Layout.antt =====
-- How `BuildUserMessage` (internal/llm/client.go) lays the statements out.
use bankstmt_analyzer.Prelude.{ℕ, ◌+◌, ◌≡◌, refl, ap, ◌∙◌, List, [], ◌∷◌, ◌++◌, append_assoc, arith}
use bankstmt_analyzer.Text.{Bytes, codes, join}
use bankstmt_analyzer.Text.Decimal.{print_decimal}
use bankstmt_analyzer.Llm.{Statement}
use bankstmt_analyzer.Llm.Reply.{block, gap, write_blocks, build_user_message}

-- The blocks of the statements from index `i` on.
abbrev blocks_from : ℕ → List Statement → List Bytes
blocks_from i [] = []
blocks_from i (s ∷ ss) = block i s ∷ blocks_from (i + 1) ss

gap-add_one : (i : ℕ) → gap (i + 1) ≡ codes "\n\n"
unfolding gap
gap-add_one i = ground arith

write_blocks-eq :
    (i : ℕ) (s : Statement) (ss : List Statement) (out : Bytes)
    → write_blocks i (s ∷ ss) out ≡ out ++ (gap i ++ join (blocks_from i (s ∷ ss)) (codes "\n\n"))
unfolding write_blocks join
write_blocks-eq i s [] out = refl
write_blocks-eq i s (t ∷ ss) out =
    write_blocks-eq (i + 1) t ss (out ++ (gap i ++ block i s)) ∙ simp (gap-add_one, append_assoc)

-- What is to be written of the statements, the first of which has the number `n`.
abbrev pub labelled : ℕ → List Statement → List Bytes
labelled n [] = []
labelled n (s ∷ ss) =
    (codes "--- STATEMENT " ++ (print_decimal n ++ (codes " ---\n" ++ s.markdown)))
    ∷ labelled (n + 1) ss

blocks_from-labelled : (i : ℕ) (ss : List Statement) → blocks_from i ss ≡ labelled (i + 1) ss
unfolding block
blocks_from-labelled i [] = refl
blocks_from-labelled i (s ∷ ss) =
    ap
      (λ rest.
        (codes "--- STATEMENT " ++ (print_decimal (i + 1) ++ (codes " ---\n" ++ s.markdown)))
        ∷ rest)
      (blocks_from-labelled (i + 1) ss)

-- The message has one block for each statement, in the order given, with an empty line between two blocks; a block
-- is a line with three dashes, the word STATEMENT, the statement's number, counted from 1 and in decimal, and three
-- dashes, and then the statement's text.
pub build_user_message-eq :
    (ss : List Statement) → build_user_message ss ≡ join (labelled 1 ss) (codes "\n\n")
unfolding build_user_message join
build_user_message-eq [] = refl
build_user_message-eq (s ∷ ss) =
    write_blocks-eq 0 s ss [] ∙ ap (λ bs. join bs (codes "\n\n")) (blocks_from-labelled 0 (s ∷ ss))
