-- ===== src/Layout/Sizes.antt =====
-- `computeElementTypeSize` and `computeSizes` of src/CBufParser.cpp.
use cbuf.Base.{
  ℕ, zero, suc, ◌+◌, ◌*◌, ◌%◌, ◌^◌, Bool, true, false, ltb, Option, none, some, List, [], ◌∷◌, ◌++◌,
  if◌then◌else◌,
}
use cbuf.Ast.{ElementType}
use cbuf.Ast.Declarations.{Element, StructDecl}
use cbuf.Layout.{Place, Node, Store, set, Found, Schema, Platform, Run, ran, out_of_fuel, then_run}

-- The size of a value of a built in type
unfoldable pub basic_size : Platform → ElementType → Option ℕ
basic_size p ElementType.bool = some 1
basic_size p ElementType.u8 = some 1
basic_size p ElementType.s8 = some 1
basic_size p ElementType.u16 = some 2
basic_size p ElementType.s16 = some 2
basic_size p ElementType.f32 = some 4
basic_size p ElementType.u32 = some 4
basic_size p ElementType.s32 = some 4
basic_size p ElementType.f64 = some 8
basic_size p ElementType.u64 = some 8
basic_size p ElementType.s64 = some 8
basic_size p ElementType.string = some p.string_size
basic_size p ElementType.short_string = some 16
basic_size p ElementType.custom = none

-- `sizeof(cbuf_preamble)`
abbrev pub preamble_size : ℕ
preamble_size = 24

abbrev pub header_size : StructDecl → ℕ
header_size st = if st.naked then 0 else preamble_size

-- The place of an element behind `offset`, whose type has this size. An array in an array, which the
-- parser never makes, is left out.
unfoldable pub place_of : Platform → Element → ℕ → ℕ → Place
place_of p elem csize offset = elim elem.array_suffix as (λ _. Place) [
  | none ↦ record { csize = csize; coffset = offset; typesize = csize }
  | some size ↦
      if elem.is_dynamic_array
      then record { csize = p.vector_size; coffset = offset; typesize = 0 }
      else record {
        csize = ((if elem.is_compact_array then 4 else 0) + size * csize) % 2 ^ 64 % 2 ^ 32;
        coffset = offset;
        typesize = csize;
      }
]

unfoldable pub add_place : Place → Node → Node
add_place place node = record node {
  csize = (node.csize + place.csize) % 2 ^ 32;
  places = node.places ++ (place ∷ []);
}

abbrev pub start_node : StructDecl → Node → Node
start_node st node = record node { csize = header_size st; places = [] }

module _ (p : Platform) (schema : Schema) where
  -- `computeElementTypeSize`, where `inner` is `computeSizes`
  unfoldable pub element_type_size : (ℕ → Store → Run Bool) → ℕ → Element → Store → Run (Option ℕ)
  unfolding basic_size
  element_type_size inner i elem store = elim (basic_size p elem.type) as (λ _. Run (Option ℕ)) [
    | some csize ↦ ran (some csize) store
    | none ↦ elim (schema.found i elem) as (λ _. Run (Option ℕ)) [
      | Found.enum ↦ ran (some 4) store
      | Found.nothing ↦ ran none store
      | Found.struct k ↦
          then_run (inner k store)
            λ ok store'. ran (if ok then some (store' k).csize else none) store'
    ]
  ]

  -- The loop over the elements
  unfoldable pub element_sizes : (ℕ → Store → Run Bool) → ℕ → List Element → Store → Run Bool
  unfolding element_type_size place_of add_place set
  element_sizes inner i [] store = ran true store
  element_sizes inner i (elem ∷ elements) store =
      then_run (element_type_size inner i elem store) λ o store'. elim o as (λ _. Run Bool) [
        | none ↦ ran false store'
        | some csize ↦
            element_sizes inner i elements
              (set i (add_place (place_of p elem csize (store' i).csize) (store' i)) store')
      ]

  -- `computeSizes`
  unfoldable pub compute_sizes : ℕ → ℕ → Store → Run Bool
  unfolding element_sizes set
  compute_sizes zero i store = out_of_fuel
  compute_sizes (suc f) i store = elim (ltb 0 (store i).csize) as (λ _. Run Bool) [
    | true ↦ ran true store
    | false ↦
        element_sizes (compute_sizes f) i (schema.decl i).elements
          (set i (start_node (schema.decl i) (store i)) store)
  ]
