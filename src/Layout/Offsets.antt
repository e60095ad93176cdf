-- ===== src/Layout/Offsets.antt =====
-- The sizes and the offsets that `computeSizes` of src/CBufParser.cpp computes, where no struct contains
-- itself.
use cbuf.Base.{
  ℕ, zero, suc, ◌≤◌, ◌<◌, ◌≡◌, ◌≢◌, ◌⊎◌, inl, inr, refl, sym, ap, ap₂, subst, ◌∙◌, Bool, true,
  false, ltb, Option, none, some, List, [], ◌∷◌, ◌++◌, All, if◌then◌else◌, arith, dec_lt,
  ℕ_discrete, elim-cases,
}
use mathlib.Core.List.{append-nil, append_assoc}
use cbuf.Ast.Declarations.{Element}
use cbuf.Layout.{Place, Node, Store, set, Found, Schema, Platform, Run, ran, then_run}
use cbuf.Layout.Sizes.{
  basic_size, place_of, add_place, start_node, element_type_size, element_sizes, compute_sizes,
}
use cbuf.Layout.Placing.{
  set_same, set_other, basic_size-value, place_of-place_at, front_size, type_size, Placed, LaidOut,
  LaidBelow, Down, RefersDown,
}

module _ (p : Platform) (schema : Schema) (size : ℕ → ℕ) (rank : ℕ → ℕ) where
  -- Below `r`, apart from the struct `i`
  abbrev Others : ℕ → ℕ → Store → Type 0
  Others r i store =
      (k : ℕ) → rank k < r → k ≢ i → ((store k).csize ≡ 0) ⊎ LaidOut p schema size k (store k)

  -- `computeSizes` succeeds on a struct, and changes no struct of a higher rank.
  pub data Computes (i : ℕ) (store : Store) : Run Bool → Type 0 where
    computed :
        (store' : Store)
        → LaidBelow p schema size rank (suc (rank i)) store'
        → LaidOut p schema size i (store' i)
        → ((k : ℕ) → rank i < rank k → store' k ≡ store k)
        → Computes i store (ran true store')

  -- The size of the type of an element of the struct `i` has been found.
  data Typed (i : ℕ) (elem : Element) (store : Store) : Run (Option ℕ) → Type 0 where
    typed :
        (store' : Store)
        → Others (suc (rank i)) i store'
        → ((k : ℕ) → rank i ≤ rank k → k ≢ i → store' k ≡ store k)
        → store' i ≡ store i
        → Typed i elem store (ran (some (type_size p schema size i elem)) store')

  -- The rest of the elements of the struct `i` have been placed.
  data Looped (i : ℕ) (elements : List Element) (store : Store) : Run Bool → Type 0 where
    looped :
        (store' : Store) (places : List Place)
        → (store' i).places ≡ (store i).places ++ places
        → Placed p schema size i (store i).csize elements places (store' i).csize
        → Others (suc (rank i)) i store'
        → ((k : ℕ) → rank i < rank k → store' k ≡ store k)
        → Looped i elements store (ran true store')

  abbrev ComputesBelow : ℕ → (ℕ → Store → Run Bool) → Type 0
  ComputesBelow i inner =
      (k : ℕ)
      → rank k < rank i
      → (store : Store) → LaidBelow p schema size rank (suc (rank k)) store
      → Computes k store (inner k store)

  apart : (i k : ℕ) → rank i < rank k → k ≢ i
  apart i k l e = omega (arith, ap rank e)

  below :
      (i k : ℕ)
      → rank k < rank i
      → (store : Store) → Others (suc (rank i)) i store
      → LaidBelow p schema size rank (suc (rank k)) store
  below i k l store h j m = h j (omega arith) λ e. omega (arith, ap rank e)

  pub type_size-cases :
      (i : ℕ) (elem : Element) (o : Option ℕ) (g : Found)
      → basic_size p elem.type ≡ o
      → schema.found i elem ≡ g
      → type_size p schema size i elem ≡ (elim o as (λ _. ℕ) [
        | some n ↦ n
        | none ↦ elim g as (λ _. ℕ) [ Found.enum ↦ 4 | Found.nothing ↦ 0 | Found.struct j ↦ size j ]
      ])
  type_size-cases i elem o g b f =
      ap₂
        (λ (o : Option ℕ) (g : Found). elim o as (λ _. ℕ) [
          | some n ↦ n
          | none ↦ elim g as (λ _. ℕ) [
            | Found.enum ↦ 4
            | Found.nothing ↦ 0
            | Found.struct j ↦ size j
          ]
        ])
        (sym (basic_size-value p elem.type) ∙ b) f

  same_store :
      (i : ℕ) (elem : Element) (n : ℕ) (store : Store)
      → Others (suc (rank i)) i store
      → type_size p schema size i elem ≡ n
      → Typed i elem store (ran (some n) store)
  same_store i elem n store h e =
      subst (λ m. Typed i elem store (ran (some m) store)) e
        (Typed.typed store h (λ j m ne. refl) refl)

  inner-Typed :
      (inner : ℕ → Store → Run Bool) (i k : ℕ) (elem : Element)
      → basic_size p elem.type ≡ none
      → schema.found i elem ≡ Found.struct k
      → rank k < rank i
      → (store : Store) → Others (suc (rank i)) i store
      → (o : Run Bool) → Computes k store o
      → Typed i elem store
          (then_run o λ ok store'. ran (if ok then some (store' k).csize else none) store')
  inner-Typed inner i k elem b f l store h _ (Computes.computed store' laid (placed, e) frame) =
      subst (λ n. Typed i elem store (ran (some n) store'))
        (type_size-cases i elem none (Found.struct k) b f ∙ sym e)
        (Typed.typed store' others (λ j m ne. frame j (omega arith)) (frame i l))
    where
      others : Others (suc (rank i)) i store'
      others j m ne = elim (dec_lt (rank k) (rank j)) [
        | yes lt ↦
            subst (λ node. (node.csize ≡ 0) ⊎ LaidOut p schema size j node) (sym (frame j lt))
              (h j m ne)
        | no ge ↦ laid j (omega arith)
      ]

  element_type_size-Typed :
      (inner : ℕ → Store → Run Bool) (i : ℕ) (elem : Element)
      → RefersDown p schema rank i elem
      → ComputesBelow i inner
      → (store : Store) → Others (suc (rank i)) i store
      → Typed i elem store (element_type_size p schema inner i elem store)
  unfolding element_type_size
  element_type_size-Typed inner i elem down ih store h =
      by_type (basic_size p elem.type) refl (schema.found i elem) refl
    where
      by_type :
          (o : Option ℕ)
          → basic_size p elem.type ≡ o
          → (g : Found) → schema.found i elem ≡ g
          → Typed i elem store (elim o as (λ _. Run (Option ℕ)) [
            | some csize ↦ ran (some csize) store
            | none ↦ elim g as (λ _. Run (Option ℕ)) [
              | Found.enum ↦ ran (some 4) store
              | Found.nothing ↦ ran none store
              | Found.struct k ↦
                  then_run
                    (inner k store)
                    λ ok store'. ran (if ok then some (store' k).csize else none) store'
            ]
          ])
      by_type (some n) b g f = same_store i elem n store h (type_size-cases i elem (some n) g b f)
      by_type none b Found.enum f =
          same_store i elem 4 store h (type_size-cases i elem none Found.enum b f)
      by_type none b Found.nothing f = absurd (subst (Down rank i) f (down b))
      by_type none b (Found.struct k) f =
          inner-Typed inner i k elem b f (subst (Down rank i) f (down b)) store h (inner k store) (
            ih k (subst (Down rank i) f (down b)) store
              (below i k (subst (Down rank i) f (down b)) store h))

  -- The struct `i` with one more element
  abbrev with_element : ℕ → Element → Node → Node
  with_element i elem node =
      add_place (place_of p elem (type_size p schema size i elem) node.csize) node

  Looped-next :
      (i : ℕ) (elem : Element) (elements : List Element) (store store' : Store)
      → store' i ≡ with_element i elem (store i)
      → ((k : ℕ) → rank i < rank k → store' k ≡ store k)
      → (o : Run Bool) → Looped i elements store' o
      → Looped i (elem ∷ elements) store o
  unfolding add_place
  Looped-next i elem elements store store' e frame _
        (Looped.looped s places q placed others frame') =
      let place = place_of p elem (type_size p schema size i elem) (store i).csize in
      Looped.looped s (place ∷ places)
        (q
          ∙ ap (λ node. node.places ++ places) e
          ∙ append_assoc (store i).places (place ∷ []) places)
        (
          place_of-place_at p elem (type_size p schema size i elem) (store i).csize,
          subst (λ node. Placed p schema size i node.csize elements places (s i).csize) e placed,
        )
        others λ k l. frame' k l ∙ frame k l

  element_sizes-Looped :
      (inner : ℕ → Store → Run Bool) (i : ℕ) (elements : List Element)
      → All (RefersDown p schema rank i) elements
      → ComputesBelow i inner
      → (store : Store) → Others (suc (rank i)) i store
      → Looped i elements store (element_sizes p schema inner i elements store)
  unfolding element_sizes
  element_sizes-Looped inner i [] down ih store h =
      Looped.looped store [] (sym (append-nil (store i).places)) refl h λ k l. refl
  element_sizes-Looped inner i (elem ∷ elements) (d, down) ih store h =
      step (element_type_size p schema inner i elem store)
        (element_type_size-Typed inner i elem d ih store h)
        λ store' h'. element_sizes-Looped inner i elements down ih store' h'
    where
      step :
          (o : Run (Option ℕ))
          → Typed i elem store o
          → ((store' : Store)
              → Others (suc (rank i)) i store'
              → Looped i elements store' (element_sizes p schema inner i elements store'))
          → Looped i (elem ∷ elements) store (
              then_run o λ o store'. elim o as (λ _. Run Bool) [
                | none ↦ ran false store'
                | some csize ↦
                    element_sizes p schema inner i elements
                      (set i (add_place (place_of p elem csize (store' i).csize) (store' i)) store')
              ])
      step _ (Typed.typed store' others frame same) again =
          let node = with_element i elem (store' i) in
          Looped-next i elem elements store (set i node store')
            (set_same i node store' ∙ ap (with_element i elem) same)
            (λ k l. set_other i k node store' (apart i k l) ∙ frame k (omega arith) (apart i k l)) _
            (again (set i node store') λ k l ne.
              subst (λ nd. (nd.csize ≡ 0) ⊎ LaidOut p schema size k nd)
                (sym (set_other i k node store' ne)) (others k l ne))

  module _ (down : (i : ℕ) → All (RefersDown p schema rank i) (schema.decl i).elements)
      (solves : (i : ℕ) (places : List Place) (total : ℕ)
        → Placed p schema size i (front_size (schema.decl i)) (schema.decl i).elements places total
        → total ≡ size i) where
    Looped-Computes :
        (i : ℕ) (store store' : Store)
        → store' i ≡ start_node (schema.decl i) (store i)
        → ((k : ℕ) → rank i < rank k → store' k ≡ store k)
        → (o : Run Bool) → Looped i (schema.decl i).elements store' o
        → Computes i store o
    Looped-Computes i store store' e frame _ (Looped.looped s places q placed others frame') =
        Computes.computed s
          (λ k l. elim (ℕ_discrete k i) [
            | yes same ↦ inr (subst (λ j. LaidOut p schema size j (s j)) (sym same) laid)
            | no ne ↦ others k l ne
          ])
          laid λ k l. frame' k l ∙ frame k l
      where
        from_header :
            Placed p schema size i
              (front_size (schema.decl i))
              (schema.decl i).elements
              places
              (s i).csize
        from_header =
            subst
              (λ node.
                Placed p schema size i node.csize (schema.decl i).elements places (s i).csize)
              e placed

        laid : LaidOut p schema size i (s i)
        laid = (
          subst
              (λ ps.
                Placed p schema size i (front_size (schema.decl i)) (schema.decl i).elements ps
                  (s i).csize)
              (sym (q ∙ ap (λ node. node.places ++ places) e)) from_header,
          solves i places (s i).csize from_header,
        )

    -- With more fuel than the struct's rank, `computeSizes` succeeds, and lays out the struct and all those
    -- that it visits: header, then the elements one behind the other, each as large as its type and its
    -- array say, and the size of the struct where the last one ends (modulo 2 ^ 32). This is under the
    -- conditions that each element refers to a built in type, an enum or a struct of a lower rank, that
    -- `size` gives the sizes that such places end with, and that the structs up to that rank are laid out
    -- so already or not computed yet.
    pub compute_sizes-Computes :
        (f i : ℕ) (store : Store)
        → rank i < f
        → LaidBelow p schema size rank (suc (rank i)) store
        → Computes i store (compute_sizes p schema f i store)
    unfolding compute_sizes
    compute_sizes-Computes zero i store l h = absurd (omega arith)
    compute_sizes-Computes (suc f) i store l h =
        elim-cases (Computes i store) (ltb 0 (store i).csize)
          (λ c. elim (h i (omega arith)) [
            | inl z ↦ absurd (ground arith)
            | inr laid ↦ Computes.computed store h laid λ k l. refl
          ])
          λ c.
            let node = start_node (schema.decl i) (store i) in
            Looped-Computes i store (set i node store) (set_same i node store)
              (λ k l. set_other i k node store (apart i k l)) _
              (element_sizes-Looped (compute_sizes p schema f) i (schema.decl i).elements (down i)
                (λ k m s h'. compute_sizes-Computes f k s (omega arith) h') (set i node store)
                λ k m ne.
                  subst (λ nd. (nd.csize ≡ 0) ⊎ LaidOut p schema size k nd)
                    (sym (set_other i k node store ne)) (h k m))
