-- ===== src/Layout/Reference.antt =====
-- The size of a struct by recursion on its rank, with nothing kept, which `computeSizes` of
-- src/CBufParser.cpp computes.
use cbuf.Base.{
  ℕ, zero, suc, ◌+◌, ◌%◌, ◌^◌, ◌<◌, ◌≡◌, refl, sym, ap, subst, ◌∙◌, Option, none, some, List, [],
  ◌∷◌, All, arith,
}
use cbuf.Ast.Declarations.{Element}
use cbuf.Layout.{Place, Store, Found, Schema, Platform}
use cbuf.Layout.Sizes.{basic_size, compute_sizes}
use cbuf.Layout.Placing.{front_size, place_at, type_size, Placed, LaidBelow, Down, RefersDown}
use cbuf.Layout.Offsets.{Computes, type_size-cases, compute_sizes-Computes}

module _ (p : Platform) (schema : Schema) where
  -- Where elements from an offset on end
  pub end_of : (ℕ → ℕ) → ℕ → ℕ → List Element → ℕ
  end_of size i n [] = n
  end_of size i n (elem ∷ elements) =
      end_of size i ((n + (place_at p elem (type_size p schema size i elem) n).csize) % 2 ^ 32)
        elements

  pub size_on : ℕ → ℕ → ℕ
  size_on zero i = 0
  size_on (suc f) i = end_of (size_on f) i (front_size (schema.decl i)) (schema.decl i).elements

module _ (p : Platform) (schema : Schema) (rank : ℕ → ℕ) where
  pub size_of : ℕ → ℕ
  size_of i = size_on p schema (suc (rank i)) i

  Placed-end_of :
      (size : ℕ → ℕ) (i n : ℕ) (elements : List Element) (places : List Place) (total : ℕ)
      → Placed p schema size i n elements places total
      → total ≡ end_of p schema size i n elements
  unfolding end_of
  Placed-end_of size i n [] [] total h = sym h
  Placed-end_of size i n (elem ∷ elements) (place ∷ places) total (e, h) =
      Placed-end_of size i ((n + place.csize) % 2 ^ 32) elements places total h
      ∙ ap (λ q. end_of p schema size i ((n + q.csize) % 2 ^ 32) elements) e
  Placed-end_of size i n [] (place ∷ places) total h = absurd h
  Placed-end_of size i n (elem ∷ elements) [] total h = absurd h

  type_size-cong :
      (size size' : ℕ → ℕ) (i : ℕ) (elem : Element)
      → RefersDown p schema rank i elem
      → ((k : ℕ) → rank k < rank i → size k ≡ size' k)
      → type_size p schema size i elem ≡ type_size p schema size' i elem
  type_size-cong size size' i elem down h =
      by_type (basic_size p elem.type) refl (schema.found i elem) refl
    where
      by_type :
          (o : Option ℕ)
          → basic_size p elem.type ≡ o
          → (g : Found) → schema.found i elem ≡ g
          → type_size p schema size i elem ≡ type_size p schema size' i elem
      by_type (some n) b g f =
          type_size-cases p schema size rank i elem (some n) g b f
          ∙ sym (type_size-cases p schema size' rank i elem (some n) g b f)
      by_type none b Found.enum f =
          type_size-cases p schema size rank i elem none Found.enum b f
          ∙ sym (type_size-cases p schema size' rank i elem none Found.enum b f)
      by_type none b Found.nothing f = absurd (subst (Down rank i) f (down b))
      by_type none b (Found.struct k) f =
          type_size-cases p schema size rank i elem none (Found.struct k) b f
          ∙ h k (subst (Down rank i) f (down b))
          ∙ sym (type_size-cases p schema size' rank i elem none (Found.struct k) b f)

  end_of-cong :
      (size size' : ℕ → ℕ) (i n : ℕ) (elements : List Element)
      → All (RefersDown p schema rank i) elements
      → ((k : ℕ) → rank k < rank i → size k ≡ size' k)
      → end_of p schema size i n elements ≡ end_of p schema size' i n elements
  unfolding end_of
  end_of-cong size size' i n [] down h = refl
  end_of-cong size size' i n (elem ∷ elements) (d, down) h =
      ap (λ b. end_of p schema size i ((n + (place_at p elem b n).csize) % 2 ^ 32) elements)
        (type_size-cong size size' i elem d h)
      ∙ end_of-cong size size' i
          ((n + (place_at p elem (type_size p schema size' i elem) n).csize) % 2 ^ 32) elements down
          h

  module _ (down : (i : ℕ) → All (RefersDown p schema rank i) (schema.decl i).elements) where
    size_on-stable :
        (f g i : ℕ) → rank i < f → rank i < g → size_on p schema f i ≡ size_on p schema g i
    unfolding size_on
    size_on-stable zero g i l m = absurd (omega arith)
    size_on-stable (suc f) zero i l m = absurd (omega arith)
    size_on-stable (suc f) (suc g) i l m =
        end_of-cong (size_on p schema f) (size_on p schema g) i _ (schema.decl i).elements (down i)
          λ k n. size_on-stable f g k (omega arith) (omega arith)

    size_of-solves :
        (i : ℕ) (places : List Place) (total : ℕ)
        → Placed p schema size_of i
            (front_size (schema.decl i))
            (schema.decl i).elements
            places
            total
        → total ≡ size_of i
    unfolding size_of size_on
    size_of-solves i places total h =
        Placed-end_of size_of i _ (schema.decl i).elements places total h
        ∙ end_of-cong size_of (size_on p schema (rank i)) i _ (schema.decl i).elements (down i)
            λ k l. size_on-stable (suc (rank k)) (rank i) k (omega arith) l

    -- With more fuel than the struct's rank, `computeSizes` succeeds, and lays out the struct and all those
    -- that it visits: the header, then the elements one behind the other, each as large as its type and its
    -- array say, up to the size of the struct (modulo 2 ^ 32), which is the one that the recursion without
    -- kept sizes gives. It changes no struct of a higher rank. This is under the conditions that each element
    -- has a built in type or refers to an enum or to a struct of a lower rank, and that the structs up to
    -- that rank are laid out so already or not computed yet.
    pub compute_sizes-Reference :
        (f i : ℕ) (store : Store)
        → rank i < f
        → LaidBelow p schema size_of rank (suc (rank i)) store
        → Computes p schema size_of rank i store (compute_sizes p schema f i store)
    compute_sizes-Reference = compute_sizes-Computes p schema size_of rank down size_of-solves
