-- ===== src/Parser/Namespaces.antt =====
-- `Parser::parseNamespace` and `Parser::find_existing_namespace` of src/Parser.cpp. What a run that
-- fails leaves in the tree is not modelled.
use cbuf.Base.{
  ℕ, zero, suc, Bool, false, not, ◌||◌, Option, none, some, List, [], ◌∷◌, ◌++◌, if◌then◌else◌,
}
use cbuf.Token.{TokenType, is}
use cbuf.Ast.Declarations.{Text, same_text, StructDecl, EnumDecl, ConstDecl, Namespace, Global}
use cbuf.Evaluate.{FloatOps}
use cbuf.Parser.{
  null_pointer, out_of_fuel, Parses, ◌>>=◌, ◌>>◌, pure, error, succeeded, get_next_token,
  lookahead_token, check_token, consume_token,
}
use cbuf.Parser.Elements.{refuse}
use cbuf.Parser.Structs.{must_match_token, parse_struct}
use cbuf.Parser.Enums.{parse_enum}
use cbuf.Parser.Constants.{parse_const}

-- `find_existing_namespace` finds one.
unfoldable pub has_space : Text → List Namespace → Bool
unfolding same_text
has_space name [] = false
has_space name (sp ∷ spaces) = same_text sp.name name || has_space name spaces

abbrev pub new_namespace : Text → Namespace
new_namespace name = record { name = name; structs = []; enums = []; consts = [] }

-- The namespace of the name, which is new if there is none
unfoldable pub open_space : Text → Global → Global
unfolding has_space
open_space name top =
    if has_space name top.spaces
    then top
    else record top { spaces = top.spaces ++ (new_namespace name ∷ []) }

-- A change behind the pointer that `find_existing_namespace` returns
unfoldable pub change_space : (Namespace → Namespace) → Text → List Namespace → List Namespace
unfolding same_text
change_space f name [] = []
change_space f name (sp ∷ spaces) =
    if same_text sp.name name then f sp ∷ spaces else sp ∷ change_space f name spaces

unfoldable pub add_struct : StructDecl → Namespace → Namespace
add_struct st sp = record sp { structs = sp.structs ++ (st ∷ []) }

unfoldable pub add_enum : EnumDecl → Namespace → Namespace
add_enum en sp = record sp { enums = sp.enums ++ (en ∷ []) }

unfoldable pub add_const : ConstDecl → Namespace → Namespace
add_const cst sp = record sp { consts = sp.consts ++ (cst ∷ []) }

unfoldable pub change_global : (Namespace → Namespace) → Text → Global → Global
unfolding change_space
change_global f name top = record top { spaces = change_space f name top.spaces }

-- What follows a declaration, which is used at once, so that it must not be null
unfoldable pub declared {ℓ} :
    {A : Type ℓ} → (A → Parses (Option Global)) → Option A → Parses (Option Global)
unfolding succeeded
declared again o = do
  ok ← succeeded
  if not ok
      then pure none
      else elim o as (λ _. Parses (Option Global)) [ none ↦ λ s. null_pointer | some a ↦ again a ]

module _ (ops : FloatOps) where
  -- A declaration in the namespace `name`, by its first token, and what follows it
  unfoldable pub space_item :
      ℕ → (Global → Parses (Option Global)) → Text → Global → TokenType → Parses (Option Global)
  unfolding parse_struct parse_enum parse_const change_global declared error
  space_item f again name top TokenType.struct =
      parse_struct ops f >>= declared (λ st. again (change_global (add_struct st) name top))
  space_item f again name top TokenType.enum =
      parse_enum ops f >>= declared (λ en. again (change_global (add_enum en) name top))
  space_item f again name top TokenType.const =
      parse_const >>= declared (λ cst. again (change_global (add_const cst) name top))
  space_item f again name top _ = refuse

  -- The loop over the declarations, up to the closing brace, which it consumes
  unfoldable pub space_items : ℕ → Text → Global → Parses (Option Global)
  unfolding check_token consume_token lookahead_token space_item
  space_items zero name top s = out_of_fuel
  space_items (suc f) name top s =
      (do
        close ← check_token TokenType.close_bracket
        if close
            then consume_token >> pure (some top)
            else do t ← lookahead_token; space_item f (space_items f name) name top t.type)
        s

  unfoldable pub space_body : ℕ → Text → Global → Parses (Option Global)
  unfolding must_match_token space_items
  space_body f name top = do
    found ← must_match_token TokenType.open_bracket
    if found then space_items f name top else pure none

  -- `parseNamespace`: the tree with what it has declared
  unfoldable pub parse_namespace : ℕ → Global → Parses (Option Global)
  unfolding get_next_token error open_space space_body
  parse_namespace f top = do
    t ← get_next_token
    if not (is t.type TokenType.namespace) then refuse else do
      u ← get_next_token
      if is u.type TokenType.identifier
          then space_body f u.string (open_space u.string top)
          else refuse
