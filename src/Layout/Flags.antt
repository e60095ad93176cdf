-- ===== src/Layout/Flags.antt =====
-- `compute_simple`, `compute_compact` and `loop_all_structs` of src/CBufParser.cpp. A result is what the
-- function returns, and whether `interp->Error` was called.
use cbuf.Base.{ℕ, zero, suc, Bool, true, false, ◌||◌, none, some, List, [], ◌∷◌}
use cbuf.Ast.{ElementType}
use cbuf.Ast.Declarations.{Element}
use cbuf.Layout.{Store, set, Schema, Run, ran, out_of_fuel, then_run}

unfoldable pub is_string_type : ElementType → Bool
is_string_type ElementType.string = true
is_string_type _ = false

unfoldable pub is_custom : ElementType → Bool
is_custom ElementType.custom = true
is_custom _ = false

abbrev pub Answer : Type 0
Answer = Bool × Bool

-- An error that was reported before
abbrev pub after_error : Bool → Run Answer → Run Answer
after_error reported r = then_run r λ answer store. ran (answer.0, reported || answer.1) store

abbrev pub not_simple : ℕ → Store → Store
not_simple i store =
    set i (record (store i) { simple = Bool.false; simple_computed = Bool.true }) store

abbrev pub compact : ℕ → Store → Store
compact i store =
    set i (record (store i) { has_compact = Bool.true; compact_computed = Bool.true }) store

module _ (schema : Schema) where
  -- The loop of `compute_simple`, where `inner` is that function
  unfoldable pub simple_elements : (ℕ → Store → Run Answer) → ℕ → List Element → Store → Run Answer
  unfolding set is_string_type is_custom
  simple_elements inner i [] store =
      ran (true, false) (set i (record (store i) { simple_computed = Bool.true }) store)
  simple_elements inner i (elem ∷ elements) store =
      elim (is_string_type elem.type || elem.is_dynamic_array) as (λ _. Run Answer) [
        | true ↦ ran (false, false) (not_simple i store)
        | false ↦ elim (is_custom elem.type) as (λ _. Run Answer) [
          | false ↦ simple_elements inner i elements store
          | true ↦ elim (schema.has_symbol i elem) as (λ _. Run Answer) [
            | false ↦ ran (false, true) store
            | true ↦ elim (schema.struct_of i elem) as (λ _. Run Answer) [
              | none ↦ simple_elements inner i elements store
              | some k ↦ then_run (inner k store) λ answer store'.
                  elim answer.0 as (λ _. Run Answer) [
                    | true ↦ after_error answer.1 (simple_elements inner i elements store')
                    | false ↦ ran (false, answer.1) (not_simple i store')
                  ]
            ]
          ]
        ]
      ]

  -- `compute_simple`
  unfoldable pub compute_simple : ℕ → ℕ → Store → Run Answer
  unfolding simple_elements set
  compute_simple zero i store = out_of_fuel
  compute_simple (suc f) i store = elim (store i).simple_computed as (λ _. Run Answer) [
    | true ↦ ran ((store i).simple, false) store
    | false ↦
        simple_elements (compute_simple f) i (schema.decl i).elements
          (set i (record (store i) { simple = Bool.true }) store)
  ]

  -- The loop of `compute_compact`, which does not look at what the inner call returns
  unfoldable pub compact_elements : (ℕ → Store → Run Answer) → ℕ → List Element → Store → Run Answer
  unfolding set is_string_type is_custom
  compact_elements inner i [] store =
      ran (true, false) (set i (record (store i) { compact_computed = Bool.true }) store)
  compact_elements inner i (elem ∷ elements) store =
      elim (is_string_type elem.type) as (λ _. Run Answer) [
        | true ↦ compact_elements inner i elements store
        | false ↦ elim elem.is_compact_array as (λ _. Run Answer) [
          | true ↦ ran (true, false) (compact i store)
          | false ↦ elim (is_custom elem.type) as (λ _. Run Answer) [
            | false ↦ compact_elements inner i elements store
            | true ↦ elim (schema.has_symbol i elem) as (λ _. Run Answer) [
              | false ↦ ran (false, true) store
              | true ↦ elim (schema.struct_of i elem) as (λ _. Run Answer) [
                | none ↦ compact_elements inner i elements store
                | some k ↦ then_run (inner k store) λ answer store'.
                    elim (store' k).has_compact as (λ _. Run Answer) [
                      | true ↦ ran (true, answer.1) (compact i store')
                      | false ↦ after_error answer.1 (compact_elements inner i elements store')
                    ]
              ]
            ]
          ]
        ]
      ]

  -- `compute_compact`
  unfoldable pub compute_compact : ℕ → ℕ → Store → Run Answer
  unfolding compact_elements set
  compute_compact zero i store = out_of_fuel
  compute_compact (suc f) i store = elim (store i).compact_computed as (λ _. Run Answer) [
    | true ↦ ran ((store i).has_compact, false) store
    | false ↦
        compact_elements (compute_compact f) i (schema.decl i).elements
          (set i (record (store i) { has_compact = Bool.false }) store)
  ]

-- `loop_all_structs` over so many structs from a number on, with whether there was an error
unfoldable pub loop_structs : (ℕ → Store → Run Answer) → ℕ → ℕ → Store → Run Bool
loop_structs func zero i store = ran false store
loop_structs func (suc n) i store = then_run (func i store) λ answer store'.
    then_run (loop_structs func n (suc i) store')
      λ reported store''. ran (answer.1 || reported) store''
