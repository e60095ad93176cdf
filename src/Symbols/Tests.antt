-- ===== src/Symbols/Tests.antt =====
-- Runs of the symbol table of src/SymbolTable.cpp.
use cbuf.Base.{◌≡◌, Bool, some, [], ◌∷◌, ◌||◌}
use cbuf.Ast.Declarations.{StructDecl, EnumDecl, Namespace, Global}
use cbuf.Symbols.{
  SymbolTable, initialize, find_struct, find_enum, find_symbol, find_namespace, first_space,
}
use cbuf.Symbols.Lookup.{is_found, find_symbol-either}
use cbuf.Symbols.Spaces.{find_namespace-first}

-- A global enum `e` and a struct `e` in the namespace `n`
abbrev enum_e : EnumDecl
enum_e = record { name = b'e' ∷ []; is_class = Bool.false; elements = [] }

abbrev struct_e : StructDecl
struct_e = record { name = b'e' ∷ []; naked = Bool.false; elements = [] }

abbrev global_space : Namespace
global_space = record { name = b'g' ∷ []; structs = []; enums = enum_e ∷ []; consts = [] }

abbrev space_n : Namespace
space_n = record { name = b'n' ∷ []; structs = struct_e ∷ []; enums = []; consts = [] }

abbrev top : Global
top = record {
  global_space = global_space;
  spaces = space_n ∷ [];
  enums = [];
  consts = [];
  imported_files = [];
}

table : SymbolTable
unfolding initialize
table = (initialize top).1

find_symbol-either_example : find_symbol table (b'e' ∷ []) (some (b'n' ∷ [])) ≡ (
    is_found (find_struct table (b'e' ∷ []) (some (b'n' ∷ [])))
    || is_found (find_enum table (b'e' ∷ []) (some (b'n' ∷ []))))
find_symbol-either_example = find_symbol-either table (b'e' ∷ []) (some (b'n' ∷ []))

find_namespace-first_example :
    find_namespace
      (initialize (record {
        global_space = global_space;
        spaces = space_n ∷ space_n ∷ [];
        enums = [];
        consts = [];
        imported_files = [];
      })).1
      (b'n' ∷ [])
    ≡ first_space (b'n' ∷ []) (global_space ∷ space_n ∷ space_n ∷ [])
find_namespace-first_example =
    find_namespace-first
      (record {
        global_space = global_space;
        spaces = space_n ∷ space_n ∷ [];
        enums = [];
        consts = [];
        imported_files = [];
      })
      (b'n' ∷ [])
