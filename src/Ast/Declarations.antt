-- ===== src/Ast/Declarations.antt =====
-- The declarations of src/ast.h, as the parser builds them. A null pointer or a null text is `none`.
use cbuf.Base.{ℕ, Bool, true, false, ◌&&◌, ◌==◌, Option, List, [], ◌∷◌}
use cbuf.Base.Int.{ℤ}
use cbuf.Ast.{ElementType, Value}

abbrev pub Text : Type 0
Text = List ℕ

-- `ast_element`; `array_suffix` is its array's size, 0 for a dynamic array. The parser never chains a
-- second array behind the first.
pub record Element : Type 0 where
  pub name : Text
  pub type : ElementType
  pub custom_name : Option Text
  pub namespace_name : Option Text
  pub init_value : Option Value
  pub is_dynamic_array : Bool
  pub is_compact_array : Bool
  pub array_suffix : Option ℕ

pub record StructDecl : Type 0 where
  pub name : Text
  pub naked : Bool
  pub elements : List Element

pub record EnumItem : Type 0 where
  pub item_name : Text
  pub item_value : ℤ
  pub item_assigned : Bool

pub record EnumDecl : Type 0 where
  pub name : Text
  pub is_class : Bool
  pub elements : List EnumItem

-- `!strcmp`
unfoldable pub same_text : Text → Text → Bool
same_text [] [] = true
same_text (a ∷ s) (b ∷ t) = a == b && same_text s t
same_text _ _ = false

-- `ast_const` with the fields of its value that `parseConst` sets
pub record ConstDecl : Type 0 where
  pub name : Text
  pub type : ElementType
  pub str_val : Text
  pub float_val : ℕ
  pub int_val : ℤ
  pub is_hex : Bool

-- `ast_namespace`
pub record Namespace : Type 0 where
  pub name : Text
  pub structs : List StructDecl
  pub enums : List EnumDecl
  pub consts : List ConstDecl

-- `ast_global`
pub record Global : Type 0 where
  pub spaces : List Namespace
  pub enums : List EnumDecl
  pub consts : List ConstDecl
  pub imported_files : List Text
  pub global_space : Namespace
