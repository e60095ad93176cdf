-- ===== src/Lexer/Keeps.antt =====
-- No scan of src/Lexer.cpp gives bytes back: what it leaves is no longer than what it was given.
use cbuf.Base.{
  ℕ, zero, suc, ◌-◌, ◌≤◌, Bool, true, false, ◌||◌, ◌==◌, leb, ltb, List, [], ◌∷◌, ◌++◌, length,
  drop, if◌then◌else◌, arith, if-cases, elim-cases,
}
use cbuf.Token.{TokenType, Token, is}
use cbuf.Ast.Declarations.{Text}
use cbuf.Evaluate.{FloatOps}
use cbuf.Lexer.{Scanned, scanned, exits, overruns, then_scan, is_new_line}
use cbuf.Lexer.Tables.{Table, convert}
use cbuf.Lexer.Numbers.{
  Number, NumberStep, number_step, number_loop, number_from, parse_number, snum_room, first_digit,
}
use cbuf.Lexer.Texts.{
  consume_white_space, name_chars, string_loop, quoted_char, skip_line, Comment, CommentStep,
  comment_step, comment_loop, block_comment, escape, is_name_part, is_name_start,
}
use cbuf.Lexer.Tokens.{scan_name, scan_string, scan_char, scan_directive}

-- A result that leaves at most `n` bytes, or the end of the program
pub data Keeps {ℓ} {A : Type ℓ} (n : ℕ) : Scanned A → Type ℓ where
  kept : (a : A) (rest : List ℕ) → length rest ≤ n → Keeps n (scanned a rest)
  exited : Keeps n exits
  overran : Keeps n overruns

module _ {ℓ κ} {A : Type ℓ} {B : Type κ} (n : ℕ) where
  pub then-Keeps :
      (o : Scanned A) (f : A → List ℕ → Scanned B)
      → Keeps n o
      → ((a : A) (rest : List ℕ) → length rest ≤ n → Keeps n (f a rest))
      → Keeps n (then_scan o f)
  then-Keeps _ f (Keeps.kept a rest h) k = k a rest h
  then-Keeps _ f Keeps.exited k = Keeps.exited
  then-Keeps _ f Keeps.overran k = Keeps.overran

pub Keeps-suc {ℓ} : {A : Type ℓ} (n : ℕ) (o : Scanned A) → Keeps n o → Keeps (suc n) o
Keeps-suc n _ (Keeps.kept a rest h) = Keeps.kept a rest (omega arith)
Keeps-suc n _ Keeps.exited = Keeps.exited
Keeps-suc n _ Keeps.overran = Keeps.overran

pub length-consume_white_space : (rest : List ℕ) → length (consume_white_space rest) ≤ length rest
unfolding consume_white_space
length-consume_white_space [] = omega arith
length-consume_white_space (c ∷ rest) = ground (arith, length-consume_white_space rest)

pub length-drop : (n : ℕ) (rest : List ℕ) → length (drop n rest) ≤ length rest
length-drop zero rest = omega arith
length-drop (suc n) [] = omega arith
length-drop (suc n) (c ∷ rest) = omega (arith, length-drop n rest)

length-name_chars :
    (belongs : ℕ → Bool) (room : ℕ) (rest : List ℕ)
    → length (name_chars belongs room rest).1 ≤ length rest
unfolding name_chars
length-name_chars belongs zero rest = omega arith
length-name_chars belongs (suc room) [] = omega arith
length-name_chars belongs (suc room) (c ∷ rest) =
    ground (arith, length-name_chars belongs room rest)

pub length-skip_line : (rest : List ℕ) → length (skip_line rest) ≤ length rest
unfolding skip_line
length-skip_line [] = omega arith
length-skip_line (c ∷ rest) = ground (arith, length-skip_line rest)

string_loop-Keeps :
    (backslash : Bool) (s : Text) (rest : List ℕ)
    → Keeps (length rest) (string_loop backslash s rest)
unfolding string_loop
string_loop-Keeps backslash s [] = Keeps.kept s [] (omega arith)
string_loop-Keeps backslash s (c ∷ rest) =
    elim-cases (Keeps (suc (length rest))) (c == 34) (λ _. Keeps.kept s rest (omega arith))
      λ _.
        elim-cases (Keeps (suc (length rest)))
          (is_new_line c || leb 1023 (length (if backslash then escape c s else s ++ (c ∷ []))))
          (λ _. Keeps.exited)
          λ _.
            Keeps-suc (length rest) _
              (string_loop-Keeps (c == 92) (if backslash then escape c s else s ++ (c ∷ [])) rest)

quoted_char-Keeps : (rest : List ℕ) → Keeps (length rest) (quoted_char rest)
unfolding quoted_char
quoted_char-Keeps [] = Keeps.exited
quoted_char-Keeps (c ∷ []) = Keeps.exited
quoted_char-Keeps (c ∷ quote ∷ rest) =
    if-cases (Keeps (suc (suc (length rest)))) (quote == 39) (λ _. Keeps.kept _ rest (omega arith))
      λ _. Keeps.exited

-- A comment that is closed leaves at most `n` bytes.
abbrev pub LeavesAtMost : ℕ → Comment → Type 0
LeavesAtMost n (Comment.closed rest) = length rest ≤ n
LeavesAtMost n _ = Unit

pub LeavesAtMost-mono : (m n : ℕ) (o : Comment) → m ≤ n → LeavesAtMost m o → LeavesAtMost n o
LeavesAtMost-mono m n (Comment.closed rest) h k = omega arith
LeavesAtMost-mono m n Comment.unfinished h k = tt
LeavesAtMost-mono m n Comment.too_deep h k = tt

comment_step-LeavesAtMost :
    (step : CommentStep) (rest : List ℕ)
    → ((n : ℕ) → LeavesAtMost (length rest) (comment_loop n rest))
    → LeavesAtMost (suc (suc (length rest))) (elim step as (λ _. Comment) [
      | CommentStep.nests n ↦ comment_loop n rest
      | CommentStep.closes ↦ Comment.closed rest
      | CommentStep.refuses ↦ Comment.too_deep
    ])
comment_step-LeavesAtMost (CommentStep.nests n) rest h =
    LeavesAtMost-mono (length rest) _ (comment_loop n rest) (omega arith) (h n)
comment_step-LeavesAtMost CommentStep.closes rest h = omega arith
comment_step-LeavesAtMost CommentStep.refuses rest h = tt

comment_loop-LeavesAtMost :
    (n : ℕ) (rest : List ℕ) → LeavesAtMost (length rest) (comment_loop n rest)
unfolding comment_loop
comment_loop-LeavesAtMost n [] = tt
comment_loop-LeavesAtMost n (c ∷ []) =
    if-cases (LeavesAtMost 1) (c == b'/' || c == b'*') (λ _. omega arith) λ _. tt
comment_loop-LeavesAtMost n (c ∷ d ∷ rest) =
    elim-cases (LeavesAtMost (suc (suc (length rest)))) (c == b'/' || c == b'*')
      (λ _.
        comment_step-LeavesAtMost (comment_step n c d) rest λ m. comment_loop-LeavesAtMost m rest)
      λ _.
        LeavesAtMost-mono (suc (length rest)) _ (comment_loop n (d ∷ rest)) (omega arith)
          (comment_loop-LeavesAtMost n (d ∷ rest))

pub block_comment-LeavesAtMost : (rest : List ℕ) → LeavesAtMost (length rest) (block_comment rest)
unfolding block_comment
block_comment-LeavesAtMost [] = omega arith
block_comment-LeavesAtMost (c ∷ rest) =
    LeavesAtMost-mono (length rest) _ (comment_loop 1 rest) (omega arith)
      (comment_loop-LeavesAtMost 1 rest)

module _ (ops : FloatOps) where
  number_step-Keeps :
      (n : Number) (step : NumberStep) (c : ℕ) (rest : List ℕ)
      → ((m : Number) → Keeps (length rest) (number_loop ops m rest))
      → Keeps (suc (length rest)) (elim step as (λ _. Scanned Number) [
        | NumberStep.ends ↦ scanned n (c ∷ rest)
        | NumberStep.fails ↦ exits
        | NumberStep.goes n' ↦ elim (ltb (length n.snum) snum_room) as (λ _. Scanned Number) [
          | true ↦ number_loop ops n' rest
          | false ↦ overruns
        ]
      ])
  number_step-Keeps n NumberStep.ends c rest h = Keeps.kept n (c ∷ rest) (omega arith)
  number_step-Keeps n NumberStep.fails c rest h = Keeps.exited
  number_step-Keeps n (NumberStep.goes n') c rest h =
      elim-cases (Keeps (suc (length rest))) (ltb (length n.snum) snum_room)
        (λ _. Keeps-suc (length rest) _ (h n')) λ _. Keeps.overran

  number_loop-Keeps : (n : Number) (rest : List ℕ) → Keeps (length rest) (number_loop ops n rest)
  unfolding number_loop
  number_loop-Keeps n [] = Keeps.kept n [] (omega arith)
  number_loop-Keeps n (c ∷ rest) =
      number_step-Keeps n (number_step ops n c) c rest λ m. number_loop-Keeps m rest

  number_from-Keeps : (c : ℕ) (rest : List ℕ) → Keeps (length rest) (number_from ops c rest)
  unfolding number_from
  number_from-Keeps c [] = number_loop-Keeps _ []
  number_from-Keeps c (x ∷ rest) =
      if-cases (Keeps (suc (length rest))) (x == b'x')
        (λ _.
          if-cases (Keeps (suc (length rest))) (c - b'0' == 0)
            (λ _. Keeps-suc (length rest) _ (number_loop-Keeps _ rest)) λ _. Keeps.exited)
        λ _. number_loop-Keeps (first_digit ops c) (x ∷ rest)

  pub parse_number-Keeps :
      (tok : Token) (c : ℕ) (rest : List ℕ) → Keeps (length rest) (parse_number ops tok c rest)
  unfolding parse_number
  parse_number-Keeps tok c rest =
      then-Keeps (length rest) (number_from ops c rest) _ (number_from-Keeps c rest)
        λ n rest' h. Keeps.kept _ rest' h

pub scan_name-Keeps :
    (tok : Token) (c : ℕ) (rest : List ℕ) → Keeps (length rest) (scan_name tok c rest)
unfolding scan_name
scan_name-Keeps tok c rest = Keeps.kept _ _ (length-name_chars is_name_part 254 rest)

pub scan_string-Keeps : (tok : Token) (rest : List ℕ) → Keeps (length rest) (scan_string tok rest)
unfolding scan_string
scan_string-Keeps tok rest =
    then-Keeps (length rest) (string_loop false [] rest) _ (string_loop-Keeps false [] rest)
      λ s rest' h. Keeps.kept _ rest' h

pub scan_char-Keeps : (tok : Token) (rest : List ℕ) → Keeps (length rest) (scan_char tok rest)
unfolding scan_char
scan_char-Keeps tok rest =
    then-Keeps (length rest) (quoted_char rest) _ (quoted_char-Keeps rest)
      λ c rest' h. Keeps.kept _ rest' h

pub scan_directive-Keeps :
    (table : Table) (tok : Token) (rest : List ℕ)
    → Keeps (length rest) (scan_directive table tok rest)
unfolding scan_directive
scan_directive-Keeps table tok rest =
    if-cases (Keeps (length rest))
      (is (convert table (name_chars is_name_start 255 rest).0 TokenType.invalid) TokenType.invalid)
      (λ _. Keeps.exited) λ _. Keeps.kept _ _ (length-name_chars is_name_start 255 rest)
