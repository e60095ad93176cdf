-- ===== src/Layout.antt =====
-- What src/CBufParser.cpp computes of each struct, once, and keeps in it: its size and the offsets of its
-- elements, whether it is simple or has a compact array, and its hash. A pointer to a struct is a number.
pub mod Sizes
pub mod Placing
pub mod Offsets
pub mod Reference
pub mod Schemas
pub mod Hashes
pub mod Printed
pub mod Memo
pub mod Flags
pub mod Cycles
mod Tests
use cbuf.Base.{ℕ, Bool, true, false, ◌==◌, List, [], Option, if◌then◌else◌}
use cbuf.Ast.Declarations.{Text, Element, StructDecl}

-- `csize`, `coffset` and `typesize` of an `ast_element`
pub record Place : Type 0 where
  pub csize : ℕ
  pub coffset : ℕ
  pub typesize : ℕ

-- The fields of an `ast_struct` that are computed, with the places of the elements so far
pub record Node : Type 0 where
  pub csize : ℕ
  pub places : List Place
  pub simple : Bool
  pub simple_computed : Bool
  pub has_compact : Bool
  pub compact_computed : Bool
  pub hash_value : ℕ
  pub hash_computed : Bool

abbrev pub new_node : Node
new_node = record {
  csize = 0;
  places = [];
  simple = Bool.false;
  simple_computed = Bool.false;
  has_compact = Bool.false;
  compact_computed = Bool.false;
  hash_value = 0;
  hash_computed = Bool.false;
}

abbrev pub Store : Type 0
Store = ℕ → Node

unfoldable pub set : ℕ → Node → Store → Store
set i node store = λ k. if k == i then node else store k

-- What the symbol table finds for the type of an element: an enum first, or else a struct.
pub data Found : Type 0 where
  enum nothing : Found
  struct : ℕ → Found

-- The structs, and the searches of the symbol table for the elements of each: `find_enum` and then
-- `find_struct`, `find_symbol`, and `find_struct` alone
pub record Schema : Type 0 where
  pub decl : ℕ → StructDecl
  pub space_name : ℕ → Text
  pub found : ℕ → Element → Found
  pub has_symbol : ℕ → Element → Bool
  pub struct_of : ℕ → Element → Option ℕ

-- The sizes of the two classes of the standard library
pub record Platform : Type 0 where
  pub string_size : ℕ
  pub vector_size : ℕ

-- How a recursive function over structs ends; `out_of_fuel` has no counterpart in the program.
pub data Run {ℓ} (A : Type ℓ) : Type ℓ where
  ran : A → Store → Run A
  out_of_fuel : Run A

abbrev pub then_run {ℓ κ} : {A : Type ℓ} {B : Type κ} → Run A → (A → Store → Run B) → Run B
then_run (ran a store) f = f a store
then_run out_of_fuel f = out_of_fuel
