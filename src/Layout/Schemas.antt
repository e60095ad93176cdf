-- ===== src/Layout/Schemas.antt =====
-- The structs of a parsed file, numbered in the order of `loop_all_structs` of src/CBufParser.cpp, and what
-- the overloads of `find_enum` and `find_struct` of src/SymbolTable.cpp find for an element.
use cbuf.Base.{
  ℕ, suc, Bool, ◌&&◌, Option, none, some, List, [], ◌∷◌, ◌++◌, map, get_elem?, if◌then◌else◌,
}
use cbuf.Ast.Declarations.{Text, same_text, Element, StructDecl, Namespace, Global}
use cbuf.Symbols.{find_namespace, find_enum, find_symbol, first_struct, initialize}
use cbuf.Layout.{Found, Schema}

-- A struct, with the name of its namespace
abbrev pub OwnedStruct : Type 0
OwnedStruct = Text × StructDecl

abbrev pub space_structs : Namespace → List OwnedStruct
space_structs sp = map (λ st. (sp.name, st)) sp.structs

unfoldable pub spaces_structs : List Namespace → List OwnedStruct
spaces_structs [] = []
spaces_structs (sp ∷ spaces) = space_structs sp ++ spaces_structs spaces

-- `loop_all_structs`
unfoldable pub all_structs : Global → List OwnedStruct
unfolding spaces_structs
all_structs top = spaces_structs top.spaces ++ space_structs top.global_space

-- The number of the first struct of a name in a namespace
unfoldable pub number_of : Text → Text → List OwnedStruct → Option ℕ
unfolding same_text
number_of nspace name [] = none
number_of nspace name ((space, st) ∷ structs) =
    let rest = number_of nspace name structs in
    if same_text nspace space && same_text name st.name
    then some 0
    else elim rest as (λ _. Option ℕ) [ none ↦ none | some n ↦ some (suc n) ]

-- `find_struct(elem)`
unfoldable pub found_struct : Global → Text → Text → Option ℕ
unfolding find_namespace first_struct initialize number_of all_structs
found_struct top name nspace =
    let table = (initialize top).1 in
    elim (find_namespace table nspace) as (λ _. Option ℕ) [
      | none ↦ none
      | some sp ↦ elim (first_struct name sp.structs) as (λ _. Option ℕ) [
        | some st ↦ number_of nspace name (all_structs top)
        | none ↦ elim (find_namespace table table.global_namespace_name) as (λ _. Option ℕ) [
          | none ↦ none
          | some global ↦ elim (first_struct name global.structs) as (λ _. Option ℕ) [
            | none ↦ none
            | some st ↦ number_of table.global_namespace_name name (all_structs top)
          ]
        ]
      ]
    ]

-- `elem->namespace_name`, or the name of the namespace of the struct
abbrev pub name_or : Text → Option Text → Text
name_or name none = name
name_or name (some nspace) = nspace

abbrev pub struct_at : Global → ℕ → OwnedStruct
struct_at top i = elim (get_elem? (all_structs top) i) as (λ _. OwnedStruct) [
  | some st ↦ st
  | none ↦ ([], record { name = []; naked = Bool.false; elements = [] })
]

-- The name and the namespace that the overloads of the searches for an element take from it
abbrev pub type_of : Global → ℕ → Element → Text × Text
type_of top i elem = (name_or [] elem.custom_name, name_or (struct_at top i).0 elem.namespace_name)

unfoldable pub found_in : Global → ℕ → Element → Found
unfolding find_enum found_struct
found_in top i elem =
    let (name, nspace) = type_of top i elem in
    elim (find_enum (initialize top).1 name (some nspace)) as (λ _. Found) [
      | some en ↦ Found.enum
      | none ↦ elim (found_struct top name nspace) as (λ _. Found) [
        | some k ↦ Found.struct k
        | none ↦ Found.nothing
      ]
    ]

unfoldable pub schema_of : Global → Schema
unfolding found_in find_symbol found_struct
schema_of top = record {
  decl = λ i. (struct_at top i).1;
  space_name = λ i. (struct_at top i).0;
  found = found_in top;
  has_symbol = λ i elem.
      let (name, nspace) = type_of top i elem in find_symbol (initialize top).1 name (some nspace);
  struct_of = λ i elem. let (name, nspace) = type_of top i elem in found_struct top name nspace;
}
