-- ===== src/Parser/FileTests.antt =====
-- Runs of whole files through the lexer and the parser of src/Parser.cpp.
use cbuf.Base.{
  ℕ, ◌≡◌, ◌≢◌, refl, subst, Bool, true, false, Option, none, some, List, [], ◌∷◌, map, length,
  if◌then◌else◌, All-append,
}
use Prim.Native.String.{String}
use cbuf.Base.Texts.{bytes}
use cbuf.Base.Int.{pos}
use cbuf.Ast.Declarations.{Text, same_text, EnumDecl, Namespace, Global}
use cbuf.Token.{end_token}
use cbuf.Evaluate.{FloatOps}
use cbuf.Lexer.Files.{new_token}
use cbuf.Symbols.{initialize, find_enum}
use cbuf.Parser.{State, Outcome, done, out_of_fuel}
use cbuf.Parser.Files.{FileSystem, FileResult, new_global, parse_buffer, parse}
use cbuf.Parser.Trees.{GlobalValid}
use cbuf.Parser.Finishing.{Finishes, Built}
use cbuf.Parser.Whole.{parse_buffer-Finishes, new_global-GlobalValid}
use cbuf.Parser.Cycles.{Finds, parse-cyclic}
use cbuf.Parser.GlobalEnums.{parse-find_enum}

abbrev ops : FloatOps
ops = record {
  add = λ x y. 0;
  sub = λ x y. 0;
  mul = λ x y. 0;
  div = λ x y. 0;
  neg = λ x. 0;
  of_int = λ n. 0;
  pow_10 = λ k. 0;
}

-- Each file there is imports the same file.
abbrev importing : FileSystem
importing = record {
  file_exists = λ path. Bool.true;
  contents = λ path. some (bytes "#import \"a\"");
}

abbrev folders : List Text
folders = bytes "." ∷ []

parse-cyclic_example :
    parse ops importing folders 1000 (bytes "a") new_global ≡ FileResult.ended out_of_fuel
unfolding cbuf.Lexer.Files.parse_file cbuf.Parser.Files.has_import
parse-cyclic_example =
    parse-cyclic ops importing folders (λ path. Unit) new_global
      (λ path c. (
        bytes "./a",
        tt,
        record {
          data_bytes = bytes "#import \"a\"";
          name = bytes "a";
          keyword = new_token;
          file_name = new_token;
          tokens = end_token ∷ end_token ∷ end_token ∷ end_token ∷ [];
          rest = [];
          reads = refl;
          lexes = refl;
          not_noted = refl;
          finds = Finds.here (bytes ".") [] refl refl refl;
        },
      ))
      1000 (bytes "a") tt

abbrev no_imports : Text → Global → FileResult
no_imports path top = FileResult.unopened

abbrev schema : List ℕ
schema = bytes "namespace n { struct s { u8 x[4]; } } enum e { a, b } const u8 c = 3;"

-- Each file there is declares a constant and imports nothing.
abbrev constants : FileSystem
constants = record {
  file_exists = λ path. Bool.true;
  contents = λ path. some (bytes "const u8 c = 3;");
}

abbrev Returned : FileResult → Type 0
Returned (FileResult.ended out_of_fuel) = ⊥
Returned _ = Unit

constants-End :
    (path : Text) (top : Global)
    → GlobalValid top
    → parse ops constants folders 1 path top ≢ FileResult.ended out_of_fuel
unfolding parse parse_buffer cbuf.Token.ordinal cbuf.Base.Int.s64 cbuf.Base.Int.◌+ℤ◌
constants-End path top v e = subst Returned e tt

parse_buffer-Finishes_example : Finishes ⊥ Built (
    parse_buffer ops constants folders
      (parse ops constants folders 1)
      (bytes "#import \"a\" struct s { u8 x[4]; }")
      new_global)
parse_buffer-Finishes_example =
    parse_buffer-Finishes ops constants folders 1 constants-End
      (bytes "#import \"a\" struct s { u8 x[4]; }") new_global new_global-GlobalValid

abbrev tree : Outcome (Option Global) → Global
tree (done (some top) s) = top
tree _ = new_global

abbrev schema_tree : Global
schema_tree = tree (parse_buffer ops importing folders no_imports schema new_global)

schema_tree_names : map (λ (sp : Namespace). sp.name) schema_tree.spaces ≡ bytes "n" ∷ []
unfolding parse_buffer cbuf.Token.ordinal cbuf.Base.Int.s64 cbuf.Base.Int.◌+ℤ◌
schema_tree_names = refl

-- The file `a` declares an enum; the others import it, and declare one too.
abbrev enum_files : FileSystem
enum_files = record {
  file_exists = λ path. Bool.true;
  contents = λ path. some (
      if same_text path (bytes "./a")
      then bytes "enum e { a }"
      else bytes "#import \"a\" enum f { a }");
}

abbrev enum_e : EnumDecl
enum_e = record {
  name = bytes "e";
  is_class = Bool.false;
  elements = record { item_name = bytes "a"; item_value = pos 0; item_assigned = Bool.false } ∷ [];
}

abbrev two_enums_tree : Global
two_enums_tree = record new_global {
  enums = enum_e ∷ record enum_e { name = bytes "f" } ∷ [];
  imported_files = bytes "a" ∷ [];
}

abbrev last_state : State
last_state = record {
  rest = end_token ∷ end_token ∷ end_token ∷ end_token ∷ [];
  success = Bool.true;
}

enum_files_parsed :
    parse ops enum_files folders 2 (bytes "m") new_global
    ≡ FileResult.ended (done (some two_enums_tree) last_state)
unfolding parse parse_buffer same_text cbuf.Parser.Files.has_import cbuf.Token.ordinal
    cbuf.Base.Int.s64 cbuf.Base.Int.◌+ℤ◌
enum_files_parsed = refl

parse-find_enum_example : find_enum (initialize two_enums_tree).1 (bytes "e") none ≡ none
parse-find_enum_example =
    parse-find_enum ops enum_files folders 2 (bytes "m") two_enums_tree last_state enum_files_parsed
      (bytes "e")

abbrev succeeds : Outcome (Option Global) → Bool
succeeds (done o s) = s.success
succeeds _ = false

abbrev parse_text : String → Bool
parse_text text = succeeds (parse_buffer ops importing folders no_imports (bytes text) new_global)

-- An initializer behind the size of an array, which is decimal or hexadecimal.
decimal_size : parse_text "struct s { u8 x[16]; string t = \"b\"; }" ≡ true
unfolding parse_buffer cbuf.Token.ordinal
decimal_size = refl

hexadecimal_size : parse_text "struct s { u8 x[0x10]; string t = \"b\"; }" ≡ false
unfolding parse_buffer cbuf.Token.ordinal
hexadecimal_size = refl
