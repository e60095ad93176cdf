-- ===== src/Layout/Cycles.antt =====
-- Structs that contain each other, also as elements of arrays, in `compute_hash` of src/CBufParser.cpp.
use cbuf.Base.{
  ℕ, zero, suc, ◌≡◌, refl, ap, ap₂, ◌∙◌, Bool, true, false, Option, none, some, List, ◌∷◌, ◌++◌,
}
use cbuf.Ast.Declarations.{Text, Element}
use cbuf.Layout.{Store, Found, Schema, Run, ran, out_of_fuel, then_run}
use cbuf.Layout.Hashes.{
  type_name, header_text, text_or, built_in_text, custom_text, hexadecimal_text, element_hashes,
  compute_hash,
}

module _ (schema : Schema) where
  -- Behind elements of built in types, there is one with the struct `k` as its type or as that of its items.
  pub data Reaches (i k : ℕ) : List Element → Type 0 where
    here :
        (elem : Element) (elements : List Element)
        → type_name elem.type ≡ none
        → schema.found i elem ≡ Found.struct k
        → Reaches i k (elem ∷ elements)
    skip :
        (elem : Element) (elements : List Element) (name : Text)
        → type_name elem.type ≡ some name
        → Reaches i k elements
        → Reaches i k (elem ∷ elements)

  -- What follows the hash of the struct `k`
  abbrev on_struct :
      (ℕ → Store → Run Bool) → ℕ → ℕ → Element → List Element → Text → Run Bool → Run Bool
  on_struct inner i k elem elements text r = then_run r λ ok store'. elim ok as (λ _. Run Bool) [
    | true ↦
        element_hashes schema inner i elements
          (text ++ custom_text (hexadecimal_text (store' k).hash_value) elem) store'
    | false ↦ ran false store'
  ]

  -- What `element_hashes` does with an element, by what it finds
  abbrev on_element :
      (ℕ → Store → Run Bool)
      → ℕ
      → Element
      → List Element
      → Text
      → Store
      → Option Text
      → Found
      → Run Bool
  on_element inner i elem elements text store o g = elim o as (λ _. Run Bool) [
    | some name ↦ element_hashes schema inner i elements (text ++ built_in_text name elem) store
    | none ↦ elim g as (λ _. Run Bool) [
      | Found.enum ↦
          element_hashes schema inner i elements
            (text ++ custom_text (text_or elem.custom_name) elem) store
      | Found.nothing ↦ ran false store
      | Found.struct k ↦ on_struct inner i k elem elements text (inner k store)
    ]
  ]

  element_hashes-fuel :
      (inner : ℕ → Store → Run Bool) (i k : ℕ) (elements : List Element) (text : Text)
      (store : Store)
      → Reaches i k elements
      → inner k store ≡ out_of_fuel
      → element_hashes schema inner i elements text store ≡ out_of_fuel
  unfolding element_hashes
  element_hashes-fuel inner i k _ text store (Reaches.here elem elements b f) h =
      ap₂ (on_element inner i elem elements text store) b f
      ∙ ap (on_struct inner i k elem elements text) h
  element_hashes-fuel inner i k _ text store (Reaches.skip elem elements name b r) h =
      ap (λ o. on_element inner i elem elements text store o (schema.found i elem)) b
      ∙ element_hashes-fuel inner i k elements (text ++ built_in_text name elem) store r h

  -- If each struct of a set has, behind elements of built in types, an element or an array with a struct of
  -- the set, and none of their hashes is kept yet, then `compute_hash` of a struct of the set never ends: it
  -- runs out of any fuel.
  pub compute_hash-cyclic :
      (C : ℕ → Type 0) (store : Store)
      → ((i : ℕ)
          → C i
          → (k : ℕ) × C k
            × Reaches i k (schema.decl i).elements
            × ((store i).hash_computed ≡ false))
      → (f i : ℕ) → C i
      → compute_hash schema f i store ≡ out_of_fuel
  unfolding compute_hash
  compute_hash-cyclic C store next zero i c = refl
  compute_hash-cyclic C store next (suc f) i c =
      let (k, c', reaches, fresh) = next i c in
      ap
        (λ b. elim b as (λ _. Run Bool) [
          | true ↦ ran true store
          | false ↦
              element_hashes schema (compute_hash schema f) i (schema.decl i).elements
                (header_text (schema.space_name i) (schema.decl i).name) store
        ])
        fresh
      ∙ element_hashes-fuel (compute_hash schema f) i k (schema.decl i).elements _ store reaches
          (compute_hash-cyclic C store next f k c')
