-- ===== src/Parser/Files.antt =====
-- `Parser::Parse`, `ParseBuffer`, `ParseInternal` and `parseImport` of src/Parser.cpp. The file system
-- is a parameter.
use cbuf.Base.{
  ℕ, zero, suc, ◌+◌, ◌*◌, Bool, true, false, not, ◌||◌, leb, Option, none, some, List, [], ◌∷◌,
  ◌++◌, length, if◌then◌else◌,
}
use cbuf.Base.Texts.{bytes}
use cbuf.Token.{TokenType, Token, is}
use cbuf.Ast.Declarations.{Text, same_text, Global}
use cbuf.Evaluate.{FloatOps}
use cbuf.Lexer.{Scanned, scanned}
use cbuf.Lexer.Files.{parse_file}
use cbuf.Parser.{
  Outcome, done, undefined, exits, out_of_fuel, bind, Parses, ◌>>=◌, ◌>>◌, pure, error, succeeded,
  get_next_token, lookahead_token, check_token,
}
use cbuf.Parser.Elements.{refuse}
use cbuf.Parser.Structs.{parse_struct}
use cbuf.Parser.Enums.{parse_enum}
use cbuf.Parser.Constants.{parse_const}
use cbuf.Parser.Namespaces.{new_namespace, add_struct, declared, parse_namespace}

-- The files: `stat` succeeds, and what `FileData::open` reads, if it can.
pub record FileSystem : Type 0 where
  pub file_exists : Text → Bool
  pub contents : Text → Option (List ℕ)

-- How `Parse` ends: the file cannot be opened, and `success` is not set; or `ParseInternal` ends.
pub data FileResult : Type 0 where
  unopened : FileResult
  ended : Outcome (Option Global) → FileResult

-- The tree that `ParseInternal` starts with
abbrev pub new_global : Global
new_global = record {
  spaces = [];
  enums = [];
  consts = [];
  imported_files = [];
  global_space = new_namespace (bytes "__global_namespace");
}

unfoldable pub has_import : Text → List Text → Bool
unfolding same_text
has_import name [] = false
has_import name (imported ∷ files) = same_text imported name || has_import name files

unfoldable pub note_import : Text → Global → Global
note_import name top = record top { imported_files = top.imported_files ++ (name ∷ []) }

abbrev pub or_else : Option Global → Global → Global
or_else none top = top
or_else (some top') top = top'

-- Behind the `Parse` of an imported file; after a failure, only `success` is looked at.
unfoldable pub imported : Text → Global → FileResult → Parses Global
unfolding note_import
imported name top FileResult.unopened s = undefined
imported name top (FileResult.ended o) s =
    bind o λ r t. done (note_import name (or_else r top)) (record s { success = t.success })

-- `impfile` has 128 bytes.
abbrev pub path_room : ℕ
path_room = 128

abbrev pub import_path : Text → Text → Text
import_path folder name = folder ++ (b'/' ∷ name)

-- The loop over the folders
unfoldable pub find_import :
    FileSystem → (Text → Global → FileResult) → Text → Global → List Text → Parses Global
unfolding imported
find_import fs import name top [] s = done top (record s { success = false })
find_import fs import name top (folder ∷ incs) s =
    elim (leb path_room (length (import_path folder name))) as (λ _. Outcome Global) [
      | true ↦ undefined
      | false ↦ elim (fs.file_exists (import_path folder name)) as (λ _. Outcome Global) [
        | true ↦ imported name top (import (import_path folder name) top) s
        | false ↦ find_import fs import name top incs s
      ]
    ]

-- `parseImport`, where `import` is the `Parse` of another file: the tree that it leaves
unfoldable pub parse_import :
    FileSystem → List Text → (Text → Global → FileResult) → Global → Parses Global
unfolding get_next_token error has_import find_import
parse_import fs incs import top = do
  t ← get_next_token
  if not (is t.type TokenType.import) then error >> pure top else do
    u ← get_next_token
    if not (is u.type TokenType.string_literal)
        then error >> pure top
        else if has_import u.string top.imported_files
        then pure top
        else find_import fs import u.string top incs

unfoldable pub go_on : (Global → Parses (Option Global)) → Global → Parses (Option Global)
unfolding succeeded
go_on again top = do ok ← succeeded; if not ok then pure none else again top

module _ (ops : FloatOps) (fs : FileSystem) (incs : List Text) where
  -- A declaration at the top, by its first token, and what follows it
  unfoldable pub top_item :
      ℕ
      → (Text → Global → FileResult)
      → (Global → Parses (Option Global))
      → Global
      → TokenType
      → Parses (Option Global)
  unfolding parse_import parse_namespace parse_struct parse_enum parse_const add_struct declared
      go_on error
  top_item f import again top TokenType.import = parse_import fs incs import top >>= go_on again
  top_item f import again top TokenType.namespace =
      parse_namespace ops f top >>= λ r. go_on again (or_else r top)
  top_item f import again top TokenType.struct =
      parse_struct ops f
      >>= declared (λ st. again (record top { global_space = add_struct st top.global_space }))
  top_item f import again top TokenType.enum =
      parse_enum ops f >>= declared (λ en. again (record top { enums = top.enums ++ (en ∷ []) }))
  top_item f import again top TokenType.const =
      parse_const >>= declared (λ cst. again (record top { consts = top.consts ++ (cst ∷ []) }))
  top_item f import again top _ = refuse

  -- The loop of `ParseInternal`
  unfoldable pub top_items : ℕ → (Text → Global → FileResult) → Global → Parses (Option Global)
  unfolding check_token lookahead_token top_item
  top_items zero import top s = out_of_fuel
  top_items (suc f) import top s =
      (do
        last ← check_token TokenType.last_token
        if last
            then pure (some top)
            else do t ← lookahead_token; top_item f import (top_items f import) top t.type)
        s

  -- `ParseInternal`, from what `parseFile` gives
  unfoldable pub parse_internal :
      (Text → Global → FileResult) → Global → Scanned (List Token) → Outcome (Option Global)
  unfolding top_items
  parse_internal import top (scanned ts rest) =
      top_items (6 * length ts + 13) import top (record { rest = ts; success = true })
  parse_internal import top Scanned.exits = exits
  parse_internal import top Scanned.overruns = undefined
  parse_internal import top Scanned.out_of_fuel = out_of_fuel

  -- `ParseBuffer`
  unfoldable pub parse_buffer :
      (Text → Global → FileResult) → List ℕ → Global → Outcome (Option Global)
  unfolding parse_file parse_internal
  parse_buffer import buffer top =
      parse_internal import top (parse_file ops (2 + length buffer) buffer)

  -- `Parse`; a unit of fuel for each import that it is in
  unfoldable pub parse : ℕ → Text → Global → FileResult
  unfolding parse_buffer
  parse zero filename top = FileResult.ended out_of_fuel
  parse (suc d) filename top = elim (fs.contents filename) as (λ _. FileResult) [
    | none ↦ FileResult.unopened
    | some data_bytes ↦ FileResult.ended (parse_buffer (parse d) data_bytes top)
  ]
