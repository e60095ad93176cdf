-- ===== src/Layout/Hashes.antt =====
-- `hash` and `compute_hash` of src/CBufParser.cpp, with the names of types of src/CPrinter.cpp. The
-- buffer is the text that is printed into it.
use cbuf.Base.{
  ℕ, zero, suc, ◌+◌, ◌-◌, ◌*◌, ◌/◌, ◌%◌, ◌^◌, Bool, true, false, ◌==◌, ltb, Option, none, some,
  List, [], ◌∷◌, ◌++◌, if◌then◌else◌,
}
use cbuf.Base.Texts.{bytes}
use cbuf.Ast.{ElementType}
use cbuf.Ast.Declarations.{Text, same_text, Element}
use cbuf.Layout.{Store, set, Found, Schema, Run, ran, out_of_fuel, then_run}

-- The digits of a number in front of a text, at most so many
unfoldable pub digits : ℕ → ℕ → ℕ → Text → Text
digits zero base n text = text
digits (suc room) base n text =
    let d = n % base in
    let more =
      digits room base (n / base) ((if ltb d 10 then b'0' + d else b'A' + d - 10) ∷ text) in
    if n / base == 0 then (if ltb d 10 then b'0' + d else b'A' + d - 10) ∷ text else more

-- `PRIu64` and `PRIX64`
abbrev pub decimal_text : ℕ → Text
decimal_text n = digits 20 10 n []

abbrev pub hexadecimal_text : ℕ → Text
hexadecimal_text n = digits 16 16 n []

-- The loop of `hash`
unfoldable pub hash_from : ℕ → Text → ℕ
hash_from h [] = h
hash_from h (c ∷ text) =
    let more = hash_from ((h * 2 ^ 5 % 2 ^ 64 + h + c) % 2 ^ 64) text in if c == 0 then h else more

unfoldable pub hash : Text → ℕ
unfolding hash_from
hash text = hash_from 5381 text

-- `get_str_for_elem_type`, where there is one
unfoldable pub type_name : ElementType → Option Text
type_name ElementType.u8 = some (bytes "uint8_t")
type_name ElementType.u16 = some (bytes "uint16_t")
type_name ElementType.u32 = some (bytes "uint32_t")
type_name ElementType.u64 = some (bytes "uint64_t")
type_name ElementType.s8 = some (bytes "int8_t")
type_name ElementType.s16 = some (bytes "int16_t")
type_name ElementType.s32 = some (bytes "int32_t")
type_name ElementType.s64 = some (bytes "int64_t")
type_name ElementType.f32 = some (bytes "float")
type_name ElementType.f64 = some (bytes "double")
type_name ElementType.string = some (bytes "std::string")
type_name ElementType.short_string = some (bytes "VString<15>")
type_name ElementType.bool = some (bytes "bool")
type_name ElementType.custom = none

-- What is printed of a struct in front of its elements
unfoldable pub header_text : Text → Text → Text
unfolding same_text
header_text space name =
    bytes "struct "
    ++ (if same_text space (bytes "__global_namespace") then [] else space ++ bytes "::")
    ++ name
    ++ bytes " \n"

abbrev pub suffix_text : Option ℕ → Text
suffix_text none = []
suffix_text (some size) = bytes "[" ++ decimal_text size ++ bytes "] "

abbrev pub text_or : Option Text → Text
text_or none = []
text_or (some text) = text

-- What is printed of an element, behind its array
abbrev pub built_in_text : Text → Element → Text
built_in_text type elem =
    suffix_text elem.array_suffix ++ type ++ bytes " " ++ elem.name ++ bytes "; \n"

abbrev pub custom_text : Text → Element → Text
custom_text type elem =
    suffix_text elem.array_suffix ++ type ++ bytes " " ++ elem.name ++ bytes ";\n"

module _ (schema : Schema) where
  -- The loop over the elements, where `inner` is `compute_hash`, and the hash at its end
  unfoldable pub element_hashes :
      (ℕ → Store → Run Bool) → ℕ → List Element → Text → Store → Run Bool
  unfolding hash digits set
  element_hashes inner i [] text store =
      ran true
        (set i (record (store i) { hash_value = hash text; hash_computed = Bool.true }) store)
  element_hashes inner i (elem ∷ elements) text store =
      elim (type_name elem.type) as (λ _. Run Bool) [
        | some name ↦ element_hashes inner i elements (text ++ built_in_text name elem) store
        | none ↦ elim (schema.found i elem) as (λ _. Run Bool) [
          | Found.enum ↦
              element_hashes inner i elements (text ++ custom_text (text_or elem.custom_name) elem)
                store
          | Found.nothing ↦ ran false store
          | Found.struct k ↦ then_run (inner k store) λ ok store'. elim ok as (λ _. Run Bool) [
            | true ↦
                element_hashes inner i elements
                  (text ++ custom_text (hexadecimal_text (store' k).hash_value) elem) store'
            | false ↦ ran false store'
          ]
        ]
      ]

  -- `compute_hash`
  unfoldable pub compute_hash : ℕ → ℕ → Store → Run Bool
  unfolding element_hashes header_text
  compute_hash zero i store = out_of_fuel
  compute_hash (suc f) i store = elim (store i).hash_computed as (λ _. Run Bool) [
    | true ↦ ran true store
    | false ↦
        element_hashes (compute_hash f) i (schema.decl i).elements
          (header_text (schema.space_name i) (schema.decl i).name) store
  ]
