-- ===== src/Lexer/Texts.antt =====
-- The texts that the lexer of src/Lexer.cpp reads: names, quoted strings, characters and comments.
use cbuf.Base.{
  ℕ, zero, suc, ◌+◌, ◌-◌, ◌^◌, Bool, true, false, ◌||◌, ◌==◌, leb, ltb, List, [], ◌∷◌, ◌++◌, length,
  if◌then◌else◌,
}
use cbuf.Ast.Declarations.{Text}
use cbuf.Lexer.{Scanned, scanned, exits, is_new_line, is_number, is_alpha, is_white_space}

-- `consumeWhiteSpace`
unfoldable pub consume_white_space : List ℕ → List ℕ
unfolding is_white_space
consume_white_space [] = []
consume_white_space (c ∷ rest) = if is_white_space c then consume_white_space rest else c ∷ rest

unfoldable pub is_name_start : ℕ → Bool
unfolding is_alpha
is_name_start c = is_alpha c || c == b'_'

unfoldable pub is_name_part : ℕ → Bool
unfolding is_alpha is_number
is_name_part c = is_alpha c || is_number c || c == b'_'

-- The loops that fill `buff`: at most as many characters as there is room for.
unfoldable pub name_chars : (ℕ → Bool) → ℕ → List ℕ → Text × List ℕ
name_chars belongs zero rest = ([], rest)
name_chars belongs (suc room) [] = ([], [])
name_chars belongs (suc room) (c ∷ rest) =
    let more = name_chars belongs room rest in
    if belongs c then (c ∷ more.0, more.1) else ([], c ∷ rest)

-- `s[i - 1] = c`
unfoldable pub replace_last : ℕ → Text → Text
replace_last c [] = []
replace_last c (x ∷ []) = c ∷ []
replace_last c (x ∷ y ∷ s) = x ∷ replace_last c (y ∷ s)

-- A character behind a backslash, which stands in `s` already
unfoldable pub escape : ℕ → Text → Text
unfolding replace_last
escape c s =
    if c == b'n'
    then replace_last 10 s
    else if c == b't'
    then replace_last 9 s
    else if c == 92 || c == 39 || c == 34
    then replace_last c s
    else s ++ (c ∷ [])

-- The loop over a quoted string: it stops at the quote, whatever stands before it, and at the end of
-- the file.
unfoldable pub string_loop : Bool → Text → List ℕ → Scanned Text
unfolding is_new_line escape
string_loop backslash s [] = scanned s []
string_loop backslash s (c ∷ rest) =
    let s' = if backslash then escape c s else s ++ (c ∷ []) in
    elim (c == 34) as (λ _. Scanned Text) [
      | true ↦ scanned s rest
      | false ↦ elim (is_new_line c || leb 1023 (length s')) as (λ _. Scanned Text) [
        | true ↦ exits
        | false ↦ string_loop (c == 92) s' rest
      ]
    ]

-- The C string in a buffer
unfoldable pub until_zero : Text → Text
until_zero [] = []
until_zero (c ∷ s) = if c == 0 then [] else c ∷ until_zero s

-- `tok._u64 = c`, where char is signed
unfoldable pub u64_of_char : ℕ → ℕ
u64_of_char c = if ltb c 128 then c else 2 ^ 64 - 256 + c

-- A character between single quotes, from behind the first one
unfoldable pub quoted_char : List ℕ → Scanned ℕ
unfolding u64_of_char
quoted_char (c ∷ quote ∷ rest) = if quote == 39 then scanned (u64_of_char c) rest else exits
quoted_char _ = exits

-- What is left behind a line comment
unfoldable pub skip_line : List ℕ → List ℕ
unfolding is_new_line
skip_line [] = []
skip_line (c ∷ rest) = if is_new_line c then rest else skip_line rest

-- The end of a block comment, the end of the file in one, or `Error`
pub data Comment : Type 0 where
  closed : List ℕ → Comment
  unfinished too_deep : Comment

pub data CommentStep : Type 0 where
  nests : ℕ → CommentStep
  closes refuses : CommentStep

abbrev pub max_nested_comment : ℕ
max_nested_comment = 16

-- A `/` or a `*` with the character behind it, in a comment nested so deep
unfoldable pub comment_step : ℕ → ℕ → ℕ → CommentStep
comment_step num_nested c d =
    if c == b'/'
    then if d == b'*'
      then if leb max_nested_comment (num_nested + 1)
        then CommentStep.refuses
        else CommentStep.nests (num_nested + 1)
      else CommentStep.nests num_nested
    else if d == b'/'
    then if num_nested - 1 == 0 then CommentStep.closes else CommentStep.nests (num_nested - 1)
    else CommentStep.nests num_nested

-- The loop of a block comment: the character behind a `/` or a `*` is consumed with it.
unfoldable pub comment_loop : ℕ → List ℕ → Comment
unfolding comment_step
comment_loop num_nested [] = Comment.unfinished
comment_loop num_nested (c ∷ []) =
    if c == b'/' || c == b'*' then Comment.closed [] else Comment.unfinished
comment_loop num_nested (c ∷ d ∷ rest) = elim (c == b'/' || c == b'*') as (λ _. Comment) [
  | false ↦ comment_loop num_nested (d ∷ rest)
  | true ↦ elim (comment_step num_nested c d) as (λ _. Comment) [
    | CommentStep.nests n ↦ comment_loop n rest
    | CommentStep.closes ↦ Comment.closed rest
    | CommentStep.refuses ↦ Comment.too_deep
  ]
]

-- From behind the opening of a block comment, whose first character is consumed unread
unfoldable pub block_comment : List ℕ → Comment
unfolding comment_loop
block_comment [] = Comment.closed []
block_comment (c ∷ rest) = comment_loop 1 rest
