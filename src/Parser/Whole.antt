-- ===== src/Parser/Whole.antt =====
-- `Parser::ParseInternal` of src/Parser.cpp on the tokens of a whole file ends, if the files that it
-- imports end, and keeps the tree valid.
use cbuf.Base.{
  ℕ, zero, suc, ◌+◌, ◌*◌, ◌<◌, ◌≤◌, ◌≢◌, refl, Bool, true, false, not, leb, Option, none, some,
  List, [], ◌∷◌, if◌then◌else◌, length, arith, clash, elim-cases, All-append,
}
use cbuf.Token.{TokenType, Token, is, ordinal}
use cbuf.Ast.Declarations.{Text, Global}
use cbuf.Evaluate.{FloatOps}
use cbuf.Lexer.{Scanned}
use cbuf.Lexer.Ends.{Lexed, parse_file-Lexed}
use cbuf.Parser.{
  State, out_of_fuel, Parses, bind, ◌>>◌, pure, error, get_next_token, lookahead_token, check_token,
}
use cbuf.Parser.Streams.{Stream, Taken, Stream-Taken}
use cbuf.Parser.Halting.{Parsed}
use cbuf.Parser.Elements.{refuse}
use cbuf.Parser.Structs.{parse_struct}
use cbuf.Parser.Enums.{parse_enum}
use cbuf.Parser.Constants.{parse_const}
use cbuf.Parser.Declares.{StructValid, struct-Halts}
use cbuf.Parser.ItemValues.{EnumValid}
use cbuf.Parser.Numbered.{enum-Halts}
use cbuf.Parser.ConstKinds.{ConstValid}
use cbuf.Parser.ConstEnds.{const-Halts}
use cbuf.Parser.Namespaces.{add_struct, parse_namespace}
use cbuf.Parser.Files.{
  FileSystem, new_global, has_import, or_else, path_room, import_path, find_import, parse_import,
  top_item, top_items, parse_internal, parse_buffer, parse, FileResult,
}
use cbuf.Parser.Trees.{GlobalValid, add_struct-SpaceValid}
use cbuf.Parser.Spaces.{namespace-Halts}
use cbuf.Parser.Finishing.{
  Finishes, bind-Finishes, bind-Halts-Finishes, if-Finishes, Built, Imports, FileEnds, ImportsEnd,
  Imported, Continues, declared-Finishes, go_on-Finishes, error-Finishes, imported-Finishes,
}

module _ (fs : FileSystem) (import : Imports) {Cut : Type 0} (ends : ImportsEnd Cut import) where
  find_import-Finishes :
      (n : ℕ) (name : Text) (top : Global)
      → GlobalValid top
      → (incs : List Text) (s : State) → Stream s.rest
      → length s.rest < n
      → Finishes Cut (Imported n) (find_import fs import name top incs s)
  unfolding find_import
  find_import-Finishes n name top v [] s st len =
      Finishes.finished top _ (v, λ k. clash false k refl)
  find_import-Finishes n name top v (folder ∷ incs) s st len =
      elim-cases (Finishes Cut (Imported n)) (leb path_room (length (import_path folder name)))
        (λ _. Finishes.meaningless)
        λ _.
          elim-cases (Finishes Cut (Imported n)) (fs.file_exists (import_path folder name))
            (λ _. imported-Finishes n name top v s st len _ (ends (import_path folder name) top v))
            λ _. find_import-Finishes n name top v incs s st len

  import_name-Finishes :
      (n : ℕ) (incs : List Text) (top : Global)
      → GlobalValid top
      → (ts : List Token) (ok : Bool) → Taken ts
      → length ts < suc n
      → Finishes Cut (Imported n) (
          bind (get_next_token (record { rest = ts; success = ok })) λ u.
            if not (is u.type TokenType.string_literal)
            then error >> pure top
            else if has_import u.string top.imported_files
            then pure top
            else find_import fs import u.string top incs)
  unfolding get_next_token ordinal
  import_name-Finishes n incs top v _ ok (Taken.taken u us k rd) len =
      if-Finishes (Imported n) (not (is u.type TokenType.string_literal)) _ _ _
        (λ _. error-Finishes n top v us ok rd)
        λ c.
          if-Finishes (Imported n) (has_import u.string top.imported_files) _ _ _
            (λ _. Finishes.finished top _ (v, λ _. (k (ground arith), omega arith)))
            λ _. find_import-Finishes n u.string top v incs _ (k (ground arith)) (omega arith)

  parse_import-Finishes :
      (n : ℕ) (incs : List Text) (top : Global)
      → GlobalValid top
      → (ts : List Token) (ok : Bool) → Taken ts
      → length ts < suc n
      → Finishes Cut
          (Imported n)
          (parse_import fs incs import top (record { rest = ts; success = ok }))
  unfolding parse_import get_next_token ordinal
  parse_import-Finishes n incs top v _ ok (Taken.taken t ts k rd) len =
      if-Finishes (Imported n) (not (is t.type TokenType.import)) _ _ _
        (λ _. error-Finishes n top v ts ok rd)
        λ c.
          import_name-Finishes n incs top v ts ok (Stream-Taken ts (k (ground arith))) (omega arith)

module _ (ops : FloatOps) (fs : FileSystem) (incs : List Text) (import : Imports) {Cut : Type 0}
    (ends : ImportsEnd Cut import) where
  refuse-Finishes :
      (ts : List Token) (ok : Bool)
      → Stream ts
      → Finishes Cut Built (refuse {A = Global} (record { rest = ts; success = ok }))
  unfolding error
  refuse-Finishes _ ok (Stream.ended e l) = Finishes.finished _ _ (Built.failed _ refl)
  refuse-Finishes _ ok (Stream.next t ts l s) = Finishes.finished _ _ (Built.failed _ refl)

  top_item-Finishes :
      (f n : ℕ)
      → 6 * n + 7 ≤ f
      → (again : Global → Parses (Option Global)) → Continues Cut n again
      → (top : Global) → GlobalValid top
      → (type : TokenType) (ts : List Token) (ok : Bool) → Stream ts
      → length ts < suc n
      → Finishes Cut Built
          (top_item ops fs incs f import again top type (record { rest = ts; success = ok }))
  unfolding top_item add_struct
  top_item-Finishes f n l again h top v TokenType.import ts ok st len =
      bind-Finishes (Imported n) Built
        (parse_import fs incs import top (record { rest = ts; success = ok })) _
        (parse_import-Finishes fs import ends n incs top v ts ok (Stream-Taken ts st) len)
        (go_on-Finishes n again h)
  top_item-Finishes f n l again h top v TokenType.namespace ts ok st len =
      bind-Halts-Finishes (Parsed GlobalValid n) Built
        (parse_namespace ops f top (record { rest = ts; success = ok })) _
        (namespace-Halts ops f n l top v ts ok (Stream-Taken ts st) len)
        λ r s p. go_on-Finishes n again h (or_else r top) s (after r s p)
    where
      after :
          (r : Option Global) (s : State) → Parsed GlobalValid n r s → Imported n (or_else r top) s
      after _ s (Parsed.parsed top' _ w st len) = (w, λ _. (st, len))
      after _ s (Parsed.given_up _ k a) = (v, λ g. clash s.success g k)
  top_item-Finishes f n l again h top v TokenType.struct ts ok st len =
      bind-Halts-Finishes (Parsed StructValid n) Built
        (parse_struct ops f (record { rest = ts; success = ok })) _
        (struct-Halts ops f n l ts ok (Stream-Taken ts st) len)
        (declared-Finishes StructValid n again h _ λ a w. record {
          distinct = v.distinct;
          spaces_valid = v.spaces_valid;
          enums_valid = v.enums_valid;
          consts_valid = v.consts_valid;
          global_valid = add_struct-SpaceValid a w top.global_space v.global_valid;
          no_global_enum = v.no_global_enum;
        })
  top_item-Finishes f n l again h top v TokenType.enum ts ok st len =
      bind-Halts-Finishes (Parsed EnumValid n) Built
        (parse_enum ops f (record { rest = ts; success = ok })) _
        (enum-Halts ops f n (omega arith) ts ok (Stream-Taken ts st) len)
        (declared-Finishes EnumValid n again h _ λ a w. record {
          distinct = v.distinct;
          spaces_valid = v.spaces_valid;
          enums_valid = All-append EnumValid top.enums (a ∷ []) v.enums_valid (w, tt);
          consts_valid = v.consts_valid;
          global_valid = v.global_valid;
          no_global_enum = v.no_global_enum;
        })
  top_item-Finishes f n l again h top v TokenType.const ts ok st len =
      bind-Halts-Finishes (Parsed ConstValid n) Built
        (parse_const (record { rest = ts; success = ok })) _
        (const-Halts n ts ok (Stream-Taken ts st) len)
        (declared-Finishes ConstValid n again h _ λ a w. record {
          distinct = v.distinct;
          spaces_valid = v.spaces_valid;
          enums_valid = v.enums_valid;
          consts_valid = All-append ConstValid top.consts (a ∷ []) v.consts_valid (w, tt);
          global_valid = v.global_valid;
          no_global_enum = v.no_global_enum;
        })
  top_item-Finishes f n l again h top v _ ts ok st len = refuse-Finishes ts ok st

  top_items-Continues : (f n : ℕ) → 6 * n + 7 ≤ f → Continues Cut n (top_items ops fs incs f import)
  unfolding top_items check_token lookahead_token ordinal
  top_items-Continues zero n l top v ts ok st len = absurd (omega arith)
  top_items-Continues (suc f) zero l top v ts ok st len = absurd (omega arith)
  top_items-Continues (suc f) (suc n) l top v _ ok (Stream.ended e k) len =
      if-Finishes Built (is e.type TokenType.last_token) _ _ _
        (λ _. Finishes.finished _ _ (Built.built top _ v)) λ c. clash _ k c
  top_items-Continues (suc f) (suc n) l top v _ ok (Stream.next t ts k st) len =
      if-Finishes Built (is t.type TokenType.last_token) _ _ _ (λ c. clash _ c k)
        λ c.
          top_item-Finishes f n (omega arith) (top_items ops fs incs f import)
            (top_items-Continues f n (omega arith)) top v t.type (t ∷ ts) ok (Stream.next t ts k st)
            len

  -- `ParseBuffer`, where the imports end so.
  buffer-Finishes :
      (buffer : List ℕ) (top : Global)
      → GlobalValid top
      → Finishes Cut Built (parse_buffer ops fs incs import buffer top)
  unfolding parse_buffer parse_internal
  buffer-Finishes buffer top v = from _ (parse_file-Lexed ops buffer)
    where
      from :
          (o : Scanned (List Token))
          → Lexed (length buffer) o
          → Finishes Cut Built (parse_internal ops fs incs import top o)
      from _ (Lexed.lexed ts st len) =
          top_items-Continues (6 * length ts + 13) (suc (length ts)) (omega arith) top v ts true st
            (omega arith)
      from _ Lexed.exited = Finishes.exited
      from _ Lexed.overran = Finishes.meaningless

pub new_global-GlobalValid : GlobalValid new_global
new_global-GlobalValid = record {
  distinct = tt;
  spaces_valid = tt;
  enums_valid = tt;
  consts_valid = tt;
  global_valid = (tt, tt, tt);
  no_global_enum = refl;
}

-- A file that is read, or is not there
read-FileEnds :
    (ops : FloatOps) (fs : FileSystem) (incs : List Text) (import : Imports)
    → ImportsEnd Unit import
    → (top : Global) → GlobalValid top
    → (o : Option (List ℕ))
    → FileEnds Unit (elim o as (λ _. FileResult) [
      | none ↦ FileResult.unopened
      | some data_bytes ↦ FileResult.ended (parse_buffer ops fs incs import data_bytes top)
    ])
read-FileEnds ops fs incs import ends top v none = FileEnds.unopened
read-FileEnds ops fs incs import ends top v (some data_bytes) =
    FileEnds.ended _ (buffer-Finishes ops fs incs import ends data_bytes top v)

pub parse-FileEnds :
    (ops : FloatOps) (fs : FileSystem) (incs : List Text) (depth : ℕ) (filename : Text)
    (top : Global)
    → GlobalValid top
    → FileEnds Unit (parse ops fs incs depth filename top)
unfolding parse
parse-FileEnds ops fs incs zero filename top v = FileEnds.ended _ (Finishes.cut_off tt)
parse-FileEnds ops fs incs (suc depth) filename top v =
    read-FileEnds ops fs incs (parse ops fs incs depth) (parse-FileEnds ops fs incs depth) top v
      (fs.contents filename)

-- An end that has not run out of the depth
uncut-FileEnds :
    (r : FileResult) → FileEnds Unit r → r ≢ FileResult.ended out_of_fuel → FileEnds ⊥ r
uncut-FileEnds _ FileEnds.unopened h = FileEnds.unopened
uncut-FileEnds _ (FileEnds.ended _ (Finishes.finished a s k)) h =
    FileEnds.ended _ (Finishes.finished a s k)
uncut-FileEnds _ (FileEnds.ended _ Finishes.stopped) h = FileEnds.ended _ Finishes.stopped
uncut-FileEnds _ (FileEnds.ended _ Finishes.meaningless) h = FileEnds.ended _ Finishes.meaningless
uncut-FileEnds _ (FileEnds.ended _ Finishes.followed_null) h =
    FileEnds.ended _ Finishes.followed_null
uncut-FileEnds _ (FileEnds.ended _ Finishes.exited) h = FileEnds.ended _ Finishes.exited
uncut-FileEnds _ (FileEnds.ended _ (Finishes.cut_off c)) h = absurd (h refl)

-- Where the imports of files nest no deeper than `depth` (no `Parse` from a valid tree uses it up),
-- `ParseBuffer` on any bytes from a valid tree ends: it builds a valid tree (each struct, enum and
-- constant valid, no two namespaces of one name, no enum in the global namespace), or returns null with
-- `success` cleared, or stops at an assert, at a step that C++ gives no meaning, at a null expression
-- that is evaluated, or at an error of the lexer. It follows no null pointer to a declaration, reads past
-- no token, and does not run out of fuel.
pub parse_buffer-Finishes :
    (ops : FloatOps) (fs : FileSystem) (incs : List Text) (depth : ℕ)
    → ((path : Text) (top : Global)
        → GlobalValid top
        → parse ops fs incs depth path top ≢ FileResult.ended out_of_fuel)
    → (buffer : List ℕ) (top : Global) → GlobalValid top
    → Finishes ⊥ Built (parse_buffer ops fs incs (parse ops fs incs depth) buffer top)
parse_buffer-Finishes ops fs incs depth ends buffer top v =
    buffer-Finishes ops fs incs (parse ops fs incs depth)
      (λ path t w. uncut-FileEnds _ (parse-FileEnds ops fs incs depth path t w) (ends path t w))
      buffer top v
