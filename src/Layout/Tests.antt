-- ===== src/Layout/Tests.antt =====
-- Runs of `computeSizes`, `compute_hash`, `compute_simple` and `compute_compact` of src/CBufParser.cpp.
use mathlib.Core.Bool.{true≢false}
use cbuf.Base.{
  ap, subst, sym, ℕ, ◌≡◌, refl, Bool, true, false, Option, none, some, All, zero, suc, [], ◌∷◌, map,
  arith, inl, clash,
}
use cbuf.Base.Texts.{bytes}
use cbuf.Ast.{ElementType}
use cbuf.Ast.Declarations.{Text, Element, StructDecl, Global}
use cbuf.Layout.{Place, Node, new_node, Store, Schema, Platform, Run, ran, out_of_fuel}
use cbuf.Layout.Sizes.{compute_sizes, basic_size}
use cbuf.Layout.Placing.{RefersDown}
use cbuf.Layout.Offsets.{Computes}
use cbuf.Layout.Reference.{size_of, compute_sizes-Reference}
use cbuf.Layout.Hashes.{type_name, compute_hash}
use cbuf.Layout.Memo.{NamesDown, Hashed, struct_text, text_on, compute_hash-Hashed}
use cbuf.Layout.Flags.{Answer, compute_simple, compute_compact}
use cbuf.Layout.Cycles.{Reaches, compute_hash-cyclic}
use cbuf.Layout.Schemas.{schema_of}

abbrev platform : Platform
platform = record { string_size = 32; vector_size = 24 }

abbrev element : ElementType → Option Text → Option ℕ → Bool → Element
element type custom size compact = record {
  name = bytes "x";
  type = type;
  custom_name = custom;
  namespace_name = none;
  init_value = none;
  is_dynamic_array = Bool.false;
  is_compact_array = compact;
  array_suffix = size;
}

abbrev inner : StructDecl
inner = record {
  name = bytes "i";
  naked = Bool.true;
  elements = element ElementType.u16 none none false ∷ element ElementType.u8 none none false ∷ [];
}

abbrev outer : StructDecl
outer = record {
  name = bytes "o";
  naked = Bool.false;
  elements =
      element ElementType.u32 none none false
      ∷ element ElementType.custom (some (bytes "i")) (some 5) true
      ∷ element ElementType.f64 none none false
      ∷ [];
}

-- `namespace n { struct i @naked { u16 x; u8 x; } struct o { u32 x; i x[5] @compact; f64 x; } }`
abbrev top : Global
top = record {
  spaces = record { name = bytes "n"; structs = inner ∷ outer ∷ []; enums = []; consts = [] } ∷ [];
  enums = [];
  consts = [];
  imported_files = [];
  global_space = record {
    name = bytes "__global_namespace";
    structs = [];
    enums = [];
    consts = [];
  };
}

abbrev empty_store : Store
empty_store = λ k. new_node

abbrev node_of : ℕ → Run Bool → Node
node_of i (ran b store) = store i
node_of i _ = new_node

outer_size : (node_of 1 (compute_sizes platform (schema_of top) 2 1 empty_store)).csize ≡ 55
unfolding compute_sizes schema_of
outer_size = refl

outer_offsets :
    map
      (λ (p : Place). p.coffset)
      (node_of 1 (compute_sizes platform (schema_of top) 2 1 empty_store)).places
    ≡ 24 ∷ 28 ∷ 47 ∷ []
unfolding compute_sizes schema_of
outer_offsets = refl

abbrev rank : ℕ → ℕ
rank zero = 0
rank (suc i) = 1

abbrev schema : Schema
schema = schema_of top

not_custom : {A : Type 0} (n : A) → ¬ (some n ≡ none)
not_custom {A} n b =
    true≢false (ap (λ (o : Option A). elim o as (λ _. Bool) [ some _ ↦ true | none ↦ false ]) b)

two_structs-down : (i : ℕ) → All (RefersDown platform schema rank i) (schema.decl i).elements
unfolding schema_of basic_size
two_structs-down zero = (λ b. absurd (not_custom _ b), (λ b. absurd (not_custom _ b), tt))
two_structs-down (suc zero) =
    (λ b. absurd (not_custom _ b), (λ b. omega arith, (λ b. absurd (not_custom _ b), tt)))
two_structs-down (suc (suc i)) = tt

compute_sizes-Reference_example :
    Computes platform schema
      (size_of platform schema rank)
      rank
      1
      empty_store
      (compute_sizes platform schema 2 1 empty_store)
compute_sizes-Reference_example =
    compute_sizes-Reference platform schema rank two_structs-down 2 1 empty_store (omega arith)
      (λ k l. inl refl)

two_structs-named : (i : ℕ) → All (NamesDown schema rank i) (schema.decl i).elements
unfolding schema_of type_name
two_structs-named zero = (λ b. absurd (not_custom _ b), (λ b. absurd (not_custom _ b), tt))
two_structs-named (suc zero) =
    (λ b. absurd (not_custom _ b), (λ b. omega arith, (λ b. absurd (not_custom _ b), tt)))
two_structs-named (suc (suc i)) = tt

compute_hash-Hashed_example : Hashed schema rank 1 (compute_hash schema 2 1 empty_store)
compute_hash-Hashed_example =
    compute_hash-Hashed schema rank two_structs-named 2 1 empty_store (omega arith)
      λ k c. clash (new_node.hash_computed) c refl

-- The text of a struct in a namespace, and its hash
inner_text : struct_text schema (λ k. 0) 0 ≡ bytes "struct n::i \nuint16_t x; \nuint8_t x; \n"
unfolding schema_of struct_text text_on
inner_text = refl

-- A struct that contains itself: the size that it has so far is taken for the size of the element.
abbrev selfish : Global
selfish = record top {
  spaces =
      record {
        name = bytes "n";
        structs =
            record {
              name = bytes "s";
              naked = Bool.false;
              elements = element ElementType.custom (some (bytes "s")) none false ∷ [];
            }
            ∷ [];
        enums = [];
        consts = [];
      }
      ∷ [];
}

selfish_size : (node_of 0 (compute_sizes platform (schema_of selfish) 5 0 empty_store)).csize ≡ 48
unfolding compute_sizes schema_of
selfish_size = refl

-- `namespace n { struct s { s x[]; } }`
abbrev list_of_self : Global
list_of_self = record top {
  spaces =
      record {
        name = bytes "n";
        structs =
            record {
              name = bytes "s";
              naked = Bool.false;
              elements =
                  record (element ElementType.custom (some (bytes "s")) (some 0) false) {
                    is_dynamic_array = Bool.true;
                  }
                  ∷ [];
            }
            ∷ [];
        enums = [];
        consts = [];
      }
      ∷ [];
}

compute_hash-cyclic_example : compute_hash (schema_of list_of_self) 1000 0 empty_store ≡ out_of_fuel
unfolding schema_of type_name
compute_hash-cyclic_example =
    compute_hash-cyclic (schema_of list_of_self) (λ i. i ≡ 0) empty_store
      (λ i c.
        subst
          (λ j.
            (k : ℕ) × (k ≡ 0)
            × Reaches (schema_of list_of_self) j k ((schema_of list_of_self).decl j).elements
            × ((empty_store j).hash_computed ≡ false))
          (sym c) (0, refl, Reaches.here _ _ refl refl, refl))
      1000 0 refl

abbrev answer_of : Run Answer → Answer
answer_of (ran answer store) = answer
answer_of _ = (false, false)

outer_simple : answer_of (compute_simple schema 2 1 empty_store) ≡ (true, false)
unfolding compute_simple schema_of
outer_simple = refl

abbrev compact_store : ℕ → Store
compact_store i = elim (compute_compact schema 2 i empty_store) as (λ _. Store) [
  | ran answer store ↦ store
  | _ ↦ empty_store
]

outer_compact : (compact_store 1 1).has_compact ≡ true
unfolding compute_compact schema_of
outer_compact = refl

-- Without a compact array, the first call returns true and the next one false.
inner_first : answer_of (compute_compact schema 2 0 empty_store) ≡ (true, false)
unfolding compute_compact schema_of
inner_first = refl

inner_again : answer_of (compute_compact schema 2 0 (compact_store 0)) ≡ (false, false)
unfolding compute_compact schema_of
inner_again = refl
