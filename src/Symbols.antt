-- ===== src/Symbols.antt =====
-- The symbol table of src/SymbolTable.cpp: namespaces, searched in order for structs and enums.
pub mod Lookup
pub mod Spaces
mod Tests
use cbuf.Base.{Bool, true, false, ◌||◌, Option, none, some, List, [], ◌∷◌, ◌++◌, if◌then◌else◌}
use cbuf.Ast.Declarations.{Text, same_text, Element, StructDecl, EnumDecl, Namespace, Global}

pub record SymbolTable : Type 0 where
  pub spaces : List Namespace
  pub global_namespace_name : Text

-- The loops over namespaces, structs and enums: the first of the name.
unfoldable pub first_space : Text → List Namespace → Option Namespace
unfolding same_text
first_space name [] = none
first_space name (sp ∷ spaces) = if same_text name sp.name then some sp else first_space name spaces

unfoldable pub first_struct : Text → List StructDecl → Option StructDecl
unfolding same_text
first_struct name [] = none
first_struct name (st ∷ structs) =
    if same_text name st.name then some st else first_struct name structs

unfoldable pub first_enum : Text → List EnumDecl → Option EnumDecl
unfolding same_text
first_enum name [] = none
first_enum name (en ∷ enums) = if same_text name en.name then some en else first_enum name enums

unfoldable pub has_struct : Text → List StructDecl → Bool
unfolding same_text
has_struct name [] = false
has_struct name (st ∷ structs) = if same_text name st.name then true else has_struct name structs

unfoldable pub has_enum : Text → List EnumDecl → Bool
unfolding same_text
has_enum name [] = false
has_enum name (en ∷ enums) = if same_text name en.name then true else has_enum name enums

unfoldable pub find_namespace : SymbolTable → Text → Option Namespace
unfolding first_space
find_namespace t name = first_space name t.spaces

-- `add_namespace`: a second namespace of a name is not added.
unfoldable pub add_namespace : SymbolTable → Namespace → Bool × SymbolTable
unfolding find_namespace
add_namespace t sp = elim (find_namespace t sp.name) as (λ _. Bool × SymbolTable) [
  | none ↦ (true, record t { spaces = t.spaces ++ (sp ∷ []) })
  | some _ ↦ (false, t)
]

unfoldable pub add_namespaces : SymbolTable → List Namespace → SymbolTable
unfolding add_namespace
add_namespaces t [] = t
add_namespaces t (sp ∷ spaces) = add_namespaces (add_namespace t sp).1 spaces

abbrev pub new_table : Text → SymbolTable
new_table name = record { spaces = []; global_namespace_name = name }

-- `initialize` of a fresh table; it returns true.
unfoldable pub initialize : Global → Bool × SymbolTable
unfolding add_namespace add_namespaces
initialize top = (
  true,
  add_namespaces (add_namespace (new_table top.global_space.name) top.global_space).1 top.spaces,
)

-- The search in one namespace, and `otherwise` if it has no such name; nothing if there is no such
-- namespace.
unfoldable pub search_struct : Text → Option StructDecl → Option Namespace → Option StructDecl
unfolding first_struct
search_struct name otherwise none = none
search_struct name otherwise (some sp) =
    elim (first_struct name sp.structs) as (λ _. Option StructDecl) [
      | none ↦ otherwise
      | some st ↦ some st
    ]

unfoldable pub search_enum : Text → Option EnumDecl → Option Namespace → Option EnumDecl
unfolding first_enum
search_enum name otherwise none = none
search_enum name otherwise (some sp) = elim (first_enum name sp.enums) as (λ _. Option EnumDecl) [
  | none ↦ otherwise
  | some en ↦ some en
]

unfoldable pub search_symbol : Text → Bool → Option Namespace → Bool
unfolding has_struct has_enum
search_symbol name otherwise none = false
search_symbol name otherwise (some sp) =
    if has_struct name sp.structs then true else if has_enum name sp.enums then true else otherwise

-- `find_struct(name, current_nspace)`, which falls back to the global namespace.
unfoldable pub find_struct : SymbolTable → Text → Option Text → Option StructDecl
unfolding search_struct find_namespace
find_struct t name none = search_struct name none (find_namespace t t.global_namespace_name)
find_struct t name (some nspace) =
    search_struct name (search_struct name none (find_namespace t t.global_namespace_name))
      (find_namespace t nspace)

unfoldable pub find_enum : SymbolTable → Text → Option Text → Option EnumDecl
unfolding search_enum find_namespace
find_enum t name none = search_enum name none (find_namespace t t.global_namespace_name)
find_enum t name (some nspace) =
    search_enum name (search_enum name none (find_namespace t t.global_namespace_name))
      (find_namespace t nspace)

unfoldable pub find_symbol : SymbolTable → Text → Option Text → Bool
unfolding search_symbol find_namespace
find_symbol t name none = search_symbol name false (find_namespace t t.global_namespace_name)
find_symbol t name (some nspace) =
    search_symbol name (search_symbol name false (find_namespace t t.global_namespace_name))
      (find_namespace t nspace)
