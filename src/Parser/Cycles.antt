-- ===== src/Parser/Cycles.antt =====
-- Files that import each other, in `Parser::parseImport` of src/Parser.cpp: a file is noted as imported
-- only when its parsing is over.
use cbuf.Base.{
  ℕ, zero, suc, ◌+◌, ◌*◌, ◌≡◌, refl, ap, ap₂, ◌∙◌, arith, Bool, true, false, leb, none, some, List,
  ◌∷◌, length, if◌then◌else◌,
}
use cbuf.Token.{TokenType, Token, ordinal}
use cbuf.Ast.Declarations.{Text, Global}
use cbuf.Evaluate.{FloatOps}
use cbuf.Lexer.{scanned}
use cbuf.Lexer.Files.{parse_file}
use cbuf.Parser.{
  State, Outcome, out_of_fuel, pure, bind, get_next_token, lookahead_token, check_token,
}
use cbuf.Parser.Files.{
  FileSystem, FileResult, has_import, imported, path_room, import_path, find_import, parse_import,
  go_on, top_item, top_items, parse_internal, parse_buffer, parse,
}

-- `parseImport` finds the file `path` for the name: in the first folder that has it.
pub data Finds (fs : FileSystem) (name path : Text) : List Text → Type 0 where
  here :
      (folder : Text) (incs : List Text)
      → leb path_room (length (import_path folder name)) ≡ false
      → fs.file_exists (import_path folder name) ≡ true
      → import_path folder name ≡ path
      → Finds fs name path (folder ∷ incs)
  there :
      (folder : Text) (incs : List Text)
      → leb path_room (length (import_path folder name)) ≡ false
      → fs.file_exists (import_path folder name) ≡ false
      → Finds fs name path incs
      → Finds fs name path (folder ∷ incs)

find_import-tests :
    (fs : FileSystem) (import : Text → Global → FileResult) (name : Text) (top : Global)
    (folder : Text) (incs : List Text) (s : State) {c : Bool}
    → leb path_room (length (import_path folder name)) ≡ false
    → fs.file_exists (import_path folder name) ≡ c
    → find_import fs import name top (folder ∷ incs) s ≡ (elim c as (λ _. Outcome Global) [
      | true ↦ imported name top (import (import_path folder name) top) s
      | false ↦ find_import fs import name top incs s
    ])
unfolding find_import
find_import-tests fs import name top folder incs s short e =
    ap₂
      (λ (b : Bool) (c : Bool). elim b as (λ _. Outcome Global) [
        | true ↦ Outcome.undefined
        | false ↦ elim c as (λ _. Outcome Global) [
          | true ↦ imported name top (import (import_path folder name) top) s
          | false ↦ find_import fs import name top incs s
        ]
      ])
      short e

find_import-fuel :
    (fs : FileSystem) (import : Text → Global → FileResult) (name path : Text) (top : Global)
    (incs : List Text) (s : State)
    → Finds fs name path incs
    → import path top ≡ FileResult.ended out_of_fuel
    → find_import fs import name top incs s ≡ out_of_fuel
unfolding find_import imported
find_import-fuel fs import name path top _ s (Finds.here folder incs short e p) h =
    find_import-tests fs import name top folder incs s short e
    ∙ ap (λ q. imported name top (import q top) s) p
    ∙ ap (λ r. imported name top r s) h
find_import-fuel fs import name path top _ s (Finds.there folder incs short e f) h =
    find_import-tests fs import name top folder incs s short e
    ∙ find_import-fuel fs import name path top incs s f h

-- The tokens of a file that starts with an import
abbrev import_tokens : Token → Token → Text → List Token → List Token
import_tokens t u name ts =
    record t { type = TokenType.import }
    ∷ record u { type = TokenType.string_literal; string = name }
    ∷ ts

module _ (ops : FloatOps) (fs : FileSystem) (incs : List Text) where
  -- The file `path` starts with an import of the file `next`, which is not noted yet.
  pub record StartsWith (files : List Text) (path next : Text) : Type 0 where
    pub data_bytes : List ℕ
    pub name : Text
    pub keyword : Token
    pub file_name : Token
    pub tokens : List Token
    pub rest : List ℕ
    pub reads : fs.contents path ≡ some data_bytes
    pub lexes :
        parse_file ops (2 + length data_bytes) data_bytes
        ≡ scanned (import_tokens keyword file_name name tokens) rest
    pub not_noted : has_import name files ≡ false
    pub finds : Finds fs name next incs

  first_item-fuel :
      (import : Text → Global → FileResult) (top : Global) (next name : Text) (t u : Token)
      (ts : List Token) (f : ℕ)
      → has_import name top.imported_files ≡ false
      → Finds fs name next incs
      → import next top ≡ FileResult.ended out_of_fuel
      → top_items ops fs incs
          (suc f)
          import
          top
          (record { rest = import_tokens t u name ts; success = true })
        ≡ out_of_fuel
  unfolding top_items top_item parse_import get_next_token lookahead_token check_token ordinal
  first_item-fuel import top next name t u ts f new finds h =
      ap
        (λ b.
          bind
            ((if b then pure top else find_import fs import name top incs)
              (record { rest = ts; success = true }))
            (go_on (top_items ops fs incs f import)))
        new
      ∙ ap (λ o. bind o (go_on (top_items ops fs incs f import)))
          (find_import-fuel fs import name next top incs _ finds h)

  first_import-fuel :
      (import : Text → Global → FileResult) (top : Global) (path next : Text)
      (w : StartsWith top.imported_files path next)
      → import next top ≡ FileResult.ended out_of_fuel
      → parse_buffer ops fs incs import w.data_bytes top ≡ out_of_fuel
  unfolding parse_buffer parse_internal
  first_import-fuel import top path next w h =
      ap (parse_internal ops fs incs import top) w.lexes
      ∙ ap
          (λ f.
            top_items ops fs incs f import top (record {
              rest = import_tokens w.keyword w.file_name w.name w.tokens;
              success = true;
            }))
          (fuel (length w.tokens))
      ∙ first_item-fuel import top next w.name w.keyword w.file_name w.tokens
          (6 * (2 + length w.tokens) + 12) w.not_noted w.finds h
    where
      fuel : (n : ℕ) → 6 * suc (suc n) + 13 ≡ suc (6 * (2 + n) + 12)
      fuel n = omega arith

  -- If each file of a set starts with an import of a file of the set, which is found and not noted as
  -- imported yet, then the `Parse` of a file of the set never ends: it runs out of fuel however deep the
  -- imports may be nested.
  pub parse-cyclic :
      (C : Text → Type 0) (top : Global)
      → ((path : Text) → C path → (next : Text) × C next × StartsWith top.imported_files path next)
      → (d : ℕ) (path : Text) → C path
      → parse ops fs incs d path top ≡ FileResult.ended out_of_fuel
  unfolding parse
  parse-cyclic C top starts zero path c = refl
  parse-cyclic C top starts (suc d) path c =
      let (next, c', w) = starts path c in
      ap
        (λ o. elim o as (λ _. FileResult) [
          | none ↦ FileResult.unopened
          | some bytes ↦ FileResult.ended (parse_buffer ops fs incs (parse ops fs incs d) bytes top)
        ])
        w.reads
      ∙ ap (λ o. FileResult.ended o)
          (first_import-fuel (parse ops fs incs d) top path next w
            (parse-cyclic C top starts d next c'))
