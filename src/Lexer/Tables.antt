-- ===== src/Lexer/Tables.antt =====
-- The tables of src/Lexer.cpp: directives, tags, keywords and operators, and the searches in them.
use cbuf.Base.{Bool, true, false, ◌&&◌, ◌==◌, Option, none, some, List, [], ◌∷◌, if◌then◌else◌}
use cbuf.Base.Texts.{bytes}
use cbuf.Token.{TokenType}
use cbuf.Ast.Declarations.{Text, same_text}

abbrev pub Table : Type 0
Table = List (Text × TokenType)

-- The loops over the tables of words: the type of the first entry that is the word, or the type that
-- the token has already.
unfoldable pub convert : Table → Text → TokenType → TokenType
unfolding same_text
convert [] word type = type
convert ((entry, type') ∷ table) word type =
    if same_text entry word then type' else convert table word type

unfoldable pub compiler_directives : Table
compiler_directives = (bytes "import", TokenType.import) ∷ []

unfoldable pub compiler_tags : Table
compiler_tags = (bytes "compact", TokenType.compact_array) ∷ (bytes "naked", TokenType.naked) ∷ []

unfoldable pub reserved_keywords : Table
reserved_keywords =
    (bytes "return", TokenType.return)
    ∷ (bytes "struct", TokenType.struct)
    ∷ (bytes "enum", TokenType.enum)
    ∷ (bytes "if", TokenType.kw_if)
    ∷ (bytes "else", TokenType.kw_else)
    ∷ (bytes "while", TokenType.while)
    ∷ (bytes "for", TokenType.for)
    ∷ (bytes "break", TokenType.break)
    ∷ (bytes "continue", TokenType.continue)
    ∷ (bytes "bool", TokenType.bool)
    ∷ (bytes "true", TokenType.kw_true)
    ∷ (bytes "false", TokenType.kw_false)
    ∷ (bytes "new", TokenType.new)
    ∷ (bytes "delete", TokenType.delete)
    ∷ (bytes "null", TokenType.null)
    ∷ (bytes "void", TokenType.void)
    ∷ (bytes "string", TokenType.string_keyword)
    ∷ (bytes "short_string", TokenType.short_string_keyword)
    ∷ (bytes "int", TokenType.s32)
    ∷ (bytes "u8", TokenType.u8)
    ∷ (bytes "u16", TokenType.u16)
    ∷ (bytes "u32", TokenType.u32)
    ∷ (bytes "u64", TokenType.u64)
    ∷ (bytes "s8", TokenType.s8)
    ∷ (bytes "s16", TokenType.s16)
    ∷ (bytes "s32", TokenType.s32)
    ∷ (bytes "s64", TokenType.s64)
    ∷ (bytes "uint8_t", TokenType.u8)
    ∷ (bytes "uint16_t", TokenType.u16)
    ∷ (bytes "uint32_t", TokenType.u32)
    ∷ (bytes "uint64_t", TokenType.u64)
    ∷ (bytes "int8_t", TokenType.s8)
    ∷ (bytes "int16_t", TokenType.s16)
    ∷ (bytes "int32_t", TokenType.s32)
    ∷ (bytes "int64_t", TokenType.s64)
    ∷ (bytes "uint8", TokenType.u8)
    ∷ (bytes "uint16", TokenType.u16)
    ∷ (bytes "uint32", TokenType.u32)
    ∷ (bytes "uint64", TokenType.u64)
    ∷ (bytes "int8", TokenType.s8)
    ∷ (bytes "int16", TokenType.s16)
    ∷ (bytes "int32", TokenType.s32)
    ∷ (bytes "int64", TokenType.s64)
    ∷ (bytes "float", TokenType.f32)
    ∷ (bytes "double", TokenType.f64)
    ∷ (bytes "f32", TokenType.f32)
    ∷ (bytes "f64", TokenType.f64)
    ∷ (bytes "namespace", TokenType.namespace)
    ∷ (bytes "const", TokenType.const)
    ∷ (bytes "class", TokenType.class)
    ∷ []

-- `strTok`
unfoldable pub str_tok : Table
str_tok =
    (bytes "<<", TokenType.lshift)
    ∷ (bytes "<=", TokenType.leq)
    ∷ (bytes "<", TokenType.lt)
    ∷ (bytes "==", TokenType.eq)
    ∷ (bytes "=", TokenType.assign)
    ∷ (bytes ">=", TokenType.geq)
    ∷ (bytes ">", TokenType.gt)
    ∷ (bytes "::", TokenType.double_colon)
    ∷ (bytes ":=", TokenType.implicit_assign)
    ∷ (bytes ":", TokenType.colon)
    ∷ (bytes "*=", TokenType.mul_assign)
    ∷ (bytes "*/", TokenType.close_block_comment)
    ∷ (bytes "*", TokenType.star)
    ∷ (bytes "/=", TokenType.div_assign)
    ∷ (bytes "//", TokenType.line_comment)
    ∷ (bytes "/*", TokenType.open_block_comment)
    ∷ (bytes "/", TokenType.div)
    ∷ (bytes "+=", TokenType.add_assign)
    ∷ (bytes "++", TokenType.double_plus)
    ∷ (bytes "+", TokenType.plus)
    ∷ (bytes "---", TokenType.triple_minus)
    ∷ (bytes "-=", TokenType.sub_assign)
    ∷ (bytes "->", TokenType.return_arrow)
    ∷ (bytes "--", TokenType.double_minus)
    ∷ (bytes "-", TokenType.minus)
    ∷ (bytes "&=", TokenType.and_assign)
    ∷ (bytes "&&", TokenType.double_amp)
    ∷ (bytes "&", TokenType.amp)
    ∷ (bytes "^=", TokenType.xor_assign)
    ∷ (bytes "^", TokenType.hat)
    ∷ (bytes "|=", TokenType.or_assign)
    ∷ (bytes "||", TokenType.double_pipe)
    ∷ (bytes "|", TokenType.pipe)
    ∷ (bytes "..", TokenType.double_period)
    ∷ (bytes ".", TokenType.period)
    ∷ (bytes "!=", TokenType.neq)
    ∷ (bytes "!", TokenType.bang)
    ∷ (bytes ";", TokenType.semicolon)
    ∷ (bytes "(", TokenType.open_paren)
    ∷ (bytes ")", TokenType.close_paren)
    ∷ (bytes "[", TokenType.open_sqbracket)
    ∷ (bytes "]", TokenType.close_sqbracket)
    ∷ (bytes "{", TokenType.open_bracket)
    ∷ (bytes "}", TokenType.close_bracket)
    ∷ (bytes "#", TokenType.hash)
    ∷ (bytes "%", TokenType.modulo)
    ∷ (bytes ",", TokenType.comma)
    ∷ []

-- `!strncmp(st->str, input, strlen(st->str))`
unfoldable pub is_prefix : Text → Text → Bool
is_prefix [] input = true
is_prefix (a ∷ s) [] = false
is_prefix (a ∷ s) (b ∷ input) = a == b && is_prefix s input

-- `input[0] == st->str[0]`
unfoldable pub starts_alike : Text → Text → Bool
starts_alike (a ∷ s) (b ∷ input) = a == b
starts_alike _ _ = false

-- The first loop of `parseStringToken`: to the entries with the first character of the input.
unfoldable pub find_group : Text → Table → Table
unfolding starts_alike
find_group input [] = []
find_group input ((str, token) ∷ table) =
    if starts_alike str input then (str, token) ∷ table else find_group input table

-- The second loop: the first entry of them that the input starts with.
unfoldable pub match_group : Text → Table → Option (Text × TokenType)
unfolding starts_alike is_prefix
match_group input [] = none
match_group input ((str, token) ∷ table) =
    if starts_alike str input
    then if is_prefix str input then some (str, token) else match_group input table
    else none

unfoldable pub string_token : Text → Option (Text × TokenType)
unfolding find_group match_group str_tok
string_token input = match_group input (find_group input str_tok)
