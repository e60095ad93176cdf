-- ===== src/Layout/Placing.antt =====
-- Places of elements one behind the other, as `computeSizes` of src/CBufParser.cpp leaves them.
use cbuf.Base.{
  ℕ, ◌+◌, ◌*◌, ◌/◌, Bool, true, refl, Option, ◌%◌, ◌^◌, ◌<◌, ◌≡◌, ◌≢◌, ◌⊎◌, ap, false, ◌==◌,
  ==-refl, none, some, List, [], ◌∷◌, if◌then◌else◌, arith,
}
use cbuf.Ast.{ElementType}
use cbuf.Ast.Declarations.{Element, StructDecl}
use cbuf.Layout.{Place, Node, Store, set, Found, Schema, Platform}
use cbuf.Layout.Sizes.{basic_size, place_of}

different : (a b : ℕ) → a ≢ b → (a == b) ≡ false
different a b h = ground arith

pub set_same : (i : ℕ) (node : Node) (store : Store) → set i node store i ≡ node
unfolding set
set_same i node store = ap (λ b. if b then node else store i) (==-refl i)

pub set_other : (i k : ℕ) (node : Node) (store : Store) → k ≢ i → set i node store k ≡ store k
unfolding set
set_other i k node store h = ap (λ b. if b then node else store k) (different k i h)

-- The size of a value of a built in type, by the width of its C++ type
abbrev pub value_size : Platform → ElementType → Option ℕ
value_size p ElementType.string = some p.string_size
value_size p ElementType.short_string = some (15 + 1)
value_size p ElementType.bool = some 1
value_size p ElementType.u8 = some (8 / 8)
value_size p ElementType.u16 = some (16 / 8)
value_size p ElementType.u32 = some (32 / 8)
value_size p ElementType.u64 = some (64 / 8)
value_size p ElementType.s8 = some (8 / 8)
value_size p ElementType.s16 = some (16 / 8)
value_size p ElementType.s32 = some (32 / 8)
value_size p ElementType.s64 = some (64 / 8)
value_size p ElementType.f32 = some (32 / 8)
value_size p ElementType.f64 = some (64 / 8)
value_size p ElementType.custom = none

pub basic_size-value : (p : Platform) (type : ElementType) → basic_size p type ≡ value_size p type
unfolding basic_size
basic_size-value p ElementType.custom = refl
basic_size-value p _ = refl

-- What stands in front of the elements: the magic number and the size, the hash and the time
abbrev pub front_size : StructDecl → ℕ
front_size st = if st.naked then 0 else 4 + 4 + 8 + 8

-- The room that an element takes, for a type of this size: one value, a vector, or the items, behind
-- their number where the array is compact. The arguments are the array's size and its two flags.
abbrev pub room : Platform → Option ℕ → Bool → Bool → ℕ → ℕ
room p none dynamic compact size = size
room p (some n) true compact size = p.vector_size
room p (some n) false true size = (4 + n * size) % 2 ^ 32
room p (some n) false false size = n * size % 2 ^ 32

abbrev pub item_size : Option ℕ → Bool → ℕ → ℕ
item_size (some n) true size = 0
item_size _ _ size = size

-- The place of an element that starts at an offset
abbrev pub place_at : Platform → Element → ℕ → ℕ → Place
place_at p elem size offset = record {
  csize = room p elem.array_suffix elem.is_dynamic_array elem.is_compact_array size;
  coffset = offset;
  typesize = item_size elem.array_suffix elem.is_dynamic_array size;
}

pub place_of-place_at :
    (p : Platform) (elem : Element) (size offset : ℕ)
    → place_of p elem size offset ≡ place_at p elem size offset
unfolding place_of
place_of-place_at p elem size offset =
    by_array elem.array_suffix elem.is_dynamic_array elem.is_compact_array
  where
    by_array :
        (o : Option ℕ) (dynamic compact : Bool)
        → (elim o as (λ _. Place) [
          | none ↦ record { csize = size; coffset = offset; typesize = size }
          | some n ↦
              if dynamic
              then record { csize = p.vector_size; coffset = offset; typesize = 0 }
              else record {
                csize = ((if compact then 4 else 0) + n * size) % 2 ^ 64 % 2 ^ 32;
                coffset = offset;
                typesize = size;
              }
        ])
          ≡ record {
            csize = room p o dynamic compact size;
            coffset = offset;
            typesize = item_size o dynamic size;
          }
    by_array none dynamic compact = refl
    by_array (some n) true compact = refl
    by_array (some n) false true =
        ap (λ c. record { csize = c; coffset = offset; typesize = size }) (omega arith)
    by_array (some n) false false =
        ap (λ c. record { csize = c; coffset = offset; typesize = size }) (omega arith)

module _ (p : Platform) (schema : Schema) (size : ℕ → ℕ) where
  -- The size of the type of an element, where the structs have these sizes
  abbrev pub type_size : ℕ → Element → ℕ
  type_size i elem = elim (value_size p elem.type) as (λ _. ℕ) [
    | some n ↦ n
    | none ↦ elim (schema.found i elem) as (λ _. ℕ) [
      | Found.enum ↦ 4
      | Found.nothing ↦ 0
      | Found.struct k ↦ size k
    ]
  ]

  -- Places one behind the other, from an offset to an offset
  abbrev pub Placed : ℕ → ℕ → List Element → List Place → ℕ → Type 0
  Placed i n [] [] total = n ≡ total
  Placed i n (elem ∷ elements) (place ∷ places) total =
      (place ≡ place_at p elem (type_size i elem) n)
      × Placed i ((n + place.csize) % 2 ^ 32) elements places total
  Placed i n _ _ total = ⊥

  -- A struct with its places from the header on, and its size at the end
  abbrev pub LaidOut : ℕ → Node → Type 0
  LaidOut i node =
      Placed i (front_size (schema.decl i)) (schema.decl i).elements node.places node.csize
      × (node.csize ≡ size i)

  -- Every struct of a lower rank than `r` is laid out, or not computed yet.
  abbrev pub LaidBelow : (ℕ → ℕ) → ℕ → Store → Type 0
  LaidBelow rank r store = (k : ℕ) → rank k < r → ((store k).csize ≡ 0) ⊎ LaidOut k (store k)

-- What an element refers to is there, and if it is a struct, of a lower rank.
abbrev pub Down : (ℕ → ℕ) → ℕ → Found → Type 0
Down rank i Found.enum = Unit
Down rank i Found.nothing = ⊥
Down rank i (Found.struct k) = rank k < rank i

abbrev pub RefersDown : Platform → Schema → (ℕ → ℕ) → ℕ → Element → Type 0
RefersDown p schema rank i elem = basic_size p elem.type ≡ none → Down rank i (schema.found i elem)
