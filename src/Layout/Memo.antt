-- ===== src/Layout/Memo.antt =====
-- The hashes that `compute_hash` of src/CBufParser.cpp keeps, and the hash by recursion on the rank of a
-- struct, with nothing kept.
use cbuf.Base.{
  ℕ, zero, suc, ◌<◌, ◌≡◌, refl, sym, ap, ap₂, subst, ◌∙◌, Bool, true, false, Option, none, some,
  List, [], ◌∷◌, ◌++◌, All, arith, ℕ_discrete, elim-cases,
}
use cbuf.Base.Texts.{bytes}
use cbuf.Ast.Declarations.{Text, Element}
use cbuf.Layout.{Node, Store, set, Found, Schema, Run, ran, then_run}
use cbuf.Layout.Hashes.{
  type_name, header_text, text_or, built_in_text, custom_text, hexadecimal_text, hash,
  element_hashes, compute_hash,
}
use cbuf.Layout.Printed.{
  numeral, type_word, title, line, djb2, hexadecimal-numeral, type_name-word, header_text-title,
  built_in_text-line, custom_text-line, hash-djb2,
}
use cbuf.Layout.Placing.{Down, set_same, set_other}

module _ (schema : Schema) where
  -- What stands for an element in the text of its struct, where the structs have these hashes: a line
  -- with the array's size, the name of the type, the enum's name or the hash of the struct, and the
  -- element's name
  abbrev pub element_text : (ℕ → ℕ) → ℕ → Element → Text
  element_text h i elem = elim (type_word elem.type) as (λ _. Text) [
    | some word ↦ line elem.array_suffix word elem.name (bytes "; \n")
    | none ↦ elim (schema.found i elem) as (λ _. Text) [
      | Found.enum ↦ line elem.array_suffix (text_or elem.custom_name) elem.name (bytes ";\n")
      | Found.nothing ↦ []
      | Found.struct k ↦ line elem.array_suffix (numeral 16 16 (h k)) elem.name (bytes ";\n")
    ]
  ]

  unfoldable pub text_on : (ℕ → ℕ) → ℕ → List Element → Text → Text
  text_on h i [] text = text
  text_on h i (elem ∷ elements) text = text_on h i elements (text ++ element_text h i elem)

  unfoldable pub struct_text : (ℕ → ℕ) → ℕ → Text
  unfolding text_on
  struct_text h i =
      text_on h i (schema.decl i).elements (title (schema.space_name i) (schema.decl i).name)

  pub hash_on : ℕ → ℕ → ℕ
  hash_on zero i = 0
  hash_on (suc f) i = djb2 5381 (struct_text (hash_on f) i)

module _ (schema : Schema) (rank : ℕ → ℕ) where
  pub hash_of : ℕ → ℕ
  hash_of i = hash_on schema (suc (rank i)) i

  -- What an element refers to is there, and if it is a struct, of a lower rank.
  abbrev pub NamesDown : ℕ → Element → Type 0
  NamesDown i elem = type_name elem.type ≡ none → Down rank i (schema.found i elem)

  -- Each hash that is kept is the hash of its struct.
  abbrev pub Kept : Store → Type 0
  Kept store = (k : ℕ) → (store k).hash_computed ≡ true → (store k).hash_value ≡ hash_of k

  -- `compute_hash` succeeds, and keeps the hash of the struct.
  pub data Hashed (i : ℕ) : Run Bool → Type 0 where
    hashed :
        (store : Store) → Kept store → (store i).hash_computed ≡ true → Hashed i (ran true store)

  element_text-cases :
      (h : ℕ → ℕ) (i : ℕ) (elem : Element) (o : Option Text) (g : Found)
      → type_name elem.type ≡ o
      → schema.found i elem ≡ g
      → element_text schema h i elem ≡ (elim o as (λ _. Text) [
        | some name ↦ built_in_text name elem
        | none ↦ elim g as (λ _. Text) [
          | Found.enum ↦ custom_text (text_or elem.custom_name) elem
          | Found.nothing ↦ []
          | Found.struct k ↦ custom_text (hexadecimal_text (h k)) elem
        ]
      ])
  element_text-cases h i elem o g b f =
      ap₂
        (λ (o : Option Text) (g : Found). elim o as (λ _. Text) [
          | some word ↦ line elem.array_suffix word elem.name (bytes "; \n")
          | none ↦ elim g as (λ _. Text) [
            | Found.enum ↦ line elem.array_suffix (text_or elem.custom_name) elem.name (bytes ";\n")
            | Found.nothing ↦ []
            | Found.struct k ↦ line elem.array_suffix (numeral 16 16 (h k)) elem.name (bytes ";\n")
          ]
        ])
        (sym (type_name-word elem.type) ∙ b) f
      ∙ printed o g
    where
      printed :
          (o : Option Text) (g : Found)
          → (elim o as (λ _. Text) [
            | some word ↦ line elem.array_suffix word elem.name (bytes "; \n")
            | none ↦ elim g as (λ _. Text) [
              | Found.enum ↦
                  line elem.array_suffix (text_or elem.custom_name) elem.name (bytes ";\n")
              | Found.nothing ↦ []
              | Found.struct k ↦
                  line elem.array_suffix (numeral 16 16 (h k)) elem.name (bytes ";\n")
            ]
          ])
            ≡ (elim o as (λ _. Text) [
              | some name ↦ built_in_text name elem
              | none ↦ elim g as (λ _. Text) [
                | Found.enum ↦ custom_text (text_or elem.custom_name) elem
                | Found.nothing ↦ []
                | Found.struct k ↦ custom_text (hexadecimal_text (h k)) elem
              ]
            ])
      printed (some word) g = sym (built_in_text-line word elem)
      printed none Found.enum = sym (custom_text-line (text_or elem.custom_name) elem)
      printed none Found.nothing = refl
      printed none (Found.struct k) = sym (
          custom_text-line (hexadecimal_text (h k)) elem
          ∙ ap (λ n. line elem.array_suffix n elem.name (bytes ";\n")) (hexadecimal-numeral (h k)))

  element_text-cong :
      (h h' : ℕ → ℕ) (i : ℕ) (elem : Element)
      → NamesDown i elem
      → ((k : ℕ) → rank k < rank i → h k ≡ h' k)
      → element_text schema h i elem ≡ element_text schema h' i elem
  element_text-cong h h' i elem down e =
      by_type (type_name elem.type) refl (schema.found i elem) refl
    where
      by_type :
          (o : Option Text)
          → type_name elem.type ≡ o
          → (g : Found) → schema.found i elem ≡ g
          → element_text schema h i elem ≡ element_text schema h' i elem
      by_type (some name) b g f =
          element_text-cases h i elem (some name) g b f
          ∙ sym (element_text-cases h' i elem (some name) g b f)
      by_type none b Found.enum f =
          element_text-cases h i elem none Found.enum b f
          ∙ sym (element_text-cases h' i elem none Found.enum b f)
      by_type none b Found.nothing f = absurd (subst (Down rank i) f (down b))
      by_type none b (Found.struct k) f =
          element_text-cases h i elem none (Found.struct k) b f
          ∙ ap (λ n. custom_text (hexadecimal_text n) elem) (e k (subst (Down rank i) f (down b)))
          ∙ sym (element_text-cases h' i elem none (Found.struct k) b f)

  text_on-cong :
      (h h' : ℕ → ℕ) (i : ℕ) (elements : List Element)
      → All (NamesDown i) elements
      → ((k : ℕ) → rank k < rank i → h k ≡ h' k)
      → (text : Text) → text_on schema h i elements text ≡ text_on schema h' i elements text
  unfolding text_on
  text_on-cong h h' i [] down e text = refl
  text_on-cong h h' i (elem ∷ elements) (d, down) e text =
      ap (λ t. text_on schema h i elements (text ++ t)) (element_text-cong h h' i elem d e)
      ∙ text_on-cong h h' i elements down e (text ++ element_text schema h' i elem)

  inner-Hashed :
      (i k : ℕ) (elem : Element) (elements : List Element) (text : Text)
      → type_name elem.type ≡ none
      → schema.found i elem ≡ Found.struct k
      → (inner : ℕ → Store → Run Bool)
      → ((t : Text) (s : Store)
          → Kept s
          → hash (text_on schema hash_of i elements t) ≡ hash_of i
          → Hashed i (element_hashes schema inner i elements t s))
      → hash (text_on schema hash_of i (elem ∷ elements) text) ≡ hash_of i
      → (o : Run Bool) → Hashed k o
      → Hashed i (
          then_run o λ ok store'. elim ok as (λ _. Run Bool) [
            | true ↦
                element_hashes schema inner i elements
                  (text ++ custom_text (hexadecimal_text (store' k).hash_value) elem)
                  store'
            | false ↦ ran false store'
          ])
  unfolding text_on
  inner-Hashed i k elem elements text b f inner again e _ (Hashed.hashed s kept c) =
      again _ s kept (
        ap (λ t. hash (text_on schema hash_of i elements (text ++ t)))
          (ap (λ n. custom_text (hexadecimal_text n) elem) (kept k c)
            ∙ sym (element_text-cases hash_of i elem none (Found.struct k) b f))
        ∙ e)

  keep-Kept :
      (i : ℕ) (text : Text) (store : Store)
      → Kept store
      → hash text ≡ hash_of i
      → Kept (set i (record (store i) { hash_value = hash text; hash_computed = Bool.true }) store)
  keep-Kept i text store kept e k c = elim (ℕ_discrete k i) [
    | yes same ↦
        ap (λ node. node.hash_value) (ap (set i node store) same ∙ set_same i node store)
        ∙ e
        ∙ ap hash_of (sym same)
    | no ne ↦
        ap (λ node. node.hash_value) (set_other i k node store ne)
        ∙ kept k (sym (ap (λ node. node.hash_computed) (set_other i k node store ne)) ∙ c)
  ]
    where
      node : Node
      node = record (store i) { hash_value = hash text; hash_computed = Bool.true }

  element_hashes-Hashed :
      (inner : ℕ → Store → Run Bool) (i : ℕ)
      → ((k : ℕ) → rank k < rank i → (s : Store) → Kept s → Hashed k (inner k s))
      → (elements : List Element) → All (NamesDown i) elements
      → (text : Text) (store : Store) → Kept store
      → hash (text_on schema hash_of i elements text) ≡ hash_of i
      → Hashed i (element_hashes schema inner i elements text store)
  unfolding element_hashes text_on
  element_hashes-Hashed inner i ih [] down text store kept e =
      Hashed.hashed _ (keep-Kept i text store kept e)
        (ap (λ node. node.hash_computed) (set_same i _ store))
  element_hashes-Hashed inner i ih (elem ∷ elements) (d, down) text store kept e =
      by_type (element_hashes-Hashed inner i ih elements down) (type_name elem.type) refl
        (schema.found i elem) refl
    where
      by_type :
          ((t : Text) (s : Store)
            → Kept s
            → hash (text_on schema hash_of i elements t) ≡ hash_of i
            → Hashed i (element_hashes schema inner i elements t s))
          → (o : Option Text) → type_name elem.type ≡ o
          → (g : Found) → schema.found i elem ≡ g
          → Hashed i (elim o as (λ _. Run Bool) [
            | some name ↦
                element_hashes schema inner i elements (text ++ built_in_text name elem) store
            | none ↦ elim g as (λ _. Run Bool) [
              | Found.enum ↦
                  element_hashes schema inner i elements
                    (text ++ custom_text (text_or elem.custom_name) elem)
                    store
              | Found.nothing ↦ ran false store
              | Found.struct k ↦ then_run (inner k store) λ ok store'. elim ok as (λ _. Run Bool) [
                | true ↦
                    element_hashes schema inner i elements
                      (text ++ custom_text (hexadecimal_text (store' k).hash_value) elem)
                      store'
                | false ↦ ran false store'
              ]
            ]
          ])
      by_type again (some name) b g f = again _ store kept (
          ap (λ t. hash (text_on schema hash_of i elements (text ++ t)))
            (sym (element_text-cases hash_of i elem (some name) g b f))
          ∙ e)
      by_type again none b Found.enum f = again _ store kept (
          ap (λ t. hash (text_on schema hash_of i elements (text ++ t)))
            (sym (element_text-cases hash_of i elem none Found.enum b f))
          ∙ e)
      by_type again none b Found.nothing f = absurd (subst (Down rank i) f (d b))
      by_type again none b (Found.struct k) f =
          inner-Hashed i k elem elements text b f inner again e (inner k store)
            (ih k (subst (Down rank i) f (d b)) store kept)

  module _ (down : (i : ℕ) → All (NamesDown i) (schema.decl i).elements) where
    hash_on-stable : (f g i : ℕ) → rank i < f → rank i < g → hash_on schema f i ≡ hash_on schema g i
    unfolding hash_on struct_text
    hash_on-stable zero g i l m = absurd (omega arith)
    hash_on-stable (suc f) zero i l m = absurd (omega arith)
    hash_on-stable (suc f) (suc g) i l m = ap (djb2 5381) (
        text_on-cong (hash_on schema f) (hash_on schema g) i (schema.decl i).elements (down i)
          (λ k n. hash_on-stable f g k (omega arith) (omega arith)) _)

    hash_of-solves :
        (i : ℕ)
        → hash (
            text_on schema hash_of i
              (schema.decl i).elements
              (header_text (schema.space_name i) (schema.decl i).name))
          ≡ hash_of i
    unfolding hash_on struct_text hash_of
    hash_of-solves i =
        hash-djb2 _
        ∙ ap (λ t. djb2 5381 (text_on schema hash_of i (schema.decl i).elements t))
            (header_text-title (schema.space_name i) (schema.decl i).name)
        ∙ ap (djb2 5381) (
            text_on-cong hash_of (hash_on schema (rank i)) i (schema.decl i).elements (down i)
              (λ k l. hash_on-stable (suc (rank k)) (rank i) k (omega arith) l) _)

    -- With more fuel than the struct's rank, `compute_hash` succeeds, and keeps the hash of the struct that
    -- the recursion without kept hashes gives: 33 times the hash so far and the next byte, modulo 2 ^ 64, over
    -- the title of the struct with its namespace and name and a line for each element, with the array's size,
    -- the type's word, the enum's name or the hexadecimal hash of the struct that it has as its type, and the
    -- element's name. This is under the conditions that each element has a built in type or refers to an enum
    -- or to a struct of a lower rank, and that the hashes that are kept are so already.
    pub compute_hash-Hashed :
        (f i : ℕ) (store : Store)
        → rank i < f
        → Kept store
        → Hashed i (compute_hash schema f i store)
    unfolding compute_hash text_on struct_text
    compute_hash-Hashed zero i store l kept = absurd (omega arith)
    compute_hash-Hashed (suc f) i store l kept =
        elim-cases (Hashed i) (store i).hash_computed (λ c. Hashed.hashed store kept c)
          λ c.
            element_hashes-Hashed (compute_hash schema f) i
              (λ k m s h. compute_hash-Hashed f k s (omega arith) h) (schema.decl i).elements
              (down i) _ store kept (hash_of-solves i)
