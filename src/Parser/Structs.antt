-- ===== src/Parser/Structs.antt =====
-- `Parser::parseStruct` and `Parser::MustMatchToken` of src/Parser.cpp.
use cbuf.Base.{
  ℕ, zero, suc, Bool, true, false, not, Option, none, some, [], ◌∷◌, ◌++◌, if◌then◌else◌,
}
use cbuf.Token.{TokenType, is, ordinal}
use cbuf.Ast.Declarations.{Element, StructDecl}
use cbuf.Evaluate.{FloatOps}
use cbuf.Parser.{
  null_pointer, out_of_fuel, Parses, ◌>>=◌, ◌>>◌, pure, error, succeeded, get_next_token,
  check_token, consume_token,
}
use cbuf.Parser.Elements.{refuse, get_location, error_with_loc, parse_element_declaration}

-- `MustMatchToken`: a missing semicolon is reported at the token before.
unfoldable pub must_match_token : TokenType → Parses Bool
unfolding check_token consume_token error error_with_loc ordinal
must_match_token type = do
  found ← check_token type
  if found
      then consume_token >> pure true
      else (if is type TokenType.semicolon then error_with_loc else error) >> pure false

unfoldable pub set_naked : StructDecl → Parses StructDecl
unfolding check_token consume_token
set_naked st = do
  naked ← check_token TokenType.naked
  if naked then consume_token >> pure (record st { naked = true }) else pure st

module _ (ops : FloatOps) where
  -- An element is used at once, so that it must not be null.
  unfoldable pub push_element :
      (StructDecl → Parses (Option StructDecl))
      → StructDecl
      → Option Element
      → Parses (Option StructDecl)
  push_element again st none = λ s. null_pointer
  push_element again st (some elem) = again (record st { elements = st.elements ++ (elem ∷ []) })

  -- The loop over the elements, up to the closing brace, which it consumes
  unfoldable pub parse_struct_elements : ℕ → StructDecl → Parses (Option StructDecl)
  unfolding check_token consume_token succeeded parse_element_declaration push_element
  parse_struct_elements zero st s = out_of_fuel
  parse_struct_elements (suc f) st s =
      (do
        close ← check_token TokenType.close_bracket
        if close then consume_token >> pure (some st) else do
          elem ← parse_element_declaration ops f
          ok ← succeeded
          if not ok then pure none else push_element (parse_struct_elements f) st elem)
        s

  unfoldable pub parse_struct_body : ℕ → StructDecl → Parses (Option StructDecl)
  unfolding must_match_token parse_struct_elements
  parse_struct_body f st = do
    found ← must_match_token TokenType.open_bracket
    if found then parse_struct_elements f st else pure none

  -- `parseStruct`
  unfoldable pub parse_struct : ℕ → Parses (Option StructDecl)
  unfolding get_next_token error get_location set_naked parse_struct_body
  parse_struct f = do
    t ← get_next_token
    if not (is t.type TokenType.struct) then refuse else do
      u ← get_next_token
      if not (is u.type TokenType.identifier) then refuse else do
        get_location
        st ← set_naked (record { name = u.string; naked = Bool.false; elements = [] })
        parse_struct_body f st
