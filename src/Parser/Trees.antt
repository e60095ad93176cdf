-- ===== src/Parser/Trees.antt =====
-- The trees that src/Parser.cpp builds: valid declarations, and namespaces with different names.
use cbuf.Base.{
  ◌≡◌, refl, ap, ◌∙◌, false, ◌||◌, List, [], ◌∷◌, ◌++◌, All, All-append, arith, if-cases,
}
use cbuf.Ast.Declarations.{Text, same_text, StructDecl, EnumDecl, ConstDecl, Namespace, Global}
use cbuf.Ast.Texts.{same_text-sym}
use cbuf.Parser.Declares.{StructValid}
use cbuf.Parser.ItemValues.{EnumValid}
use cbuf.Parser.ConstKinds.{ConstValid}
use cbuf.Parser.Namespaces.{
  has_space, new_namespace, open_space, change_space, change_global, add_struct, add_enum,
  add_const,
}

abbrev pub SpaceValid : Namespace → Type 0
SpaceValid sp = All StructValid sp.structs × All EnumValid sp.enums × All ConstValid sp.consts

-- No namespace has the name of one in front of it.
abbrev pub DistinctNames : List Namespace → Type 0
DistinctNames [] = Unit
DistinctNames (sp ∷ spaces) = (has_space sp.name spaces ≡ false) × DistinctNames spaces

-- Enums at the top are not put into the global namespace.
pub record GlobalValid (top : Global) : Type 0 where
  pub distinct : DistinctNames top.spaces
  pub spaces_valid : All SpaceValid top.spaces
  pub enums_valid : All EnumValid top.enums
  pub consts_valid : All ConstValid top.consts
  pub global_valid : SpaceValid top.global_space
  pub no_global_enum : top.global_space.enums ≡ []

has_space-append :
    (name : Text) (spaces more : List Namespace)
    → has_space name (spaces ++ more) ≡ has_space name spaces || has_space name more
unfolding has_space
has_space-append name [] more = refl
has_space-append name (sp ∷ spaces) more = ground (arith, has_space-append name spaces more)

-- A new namespace behind those that there are
append-DistinctNames :
    (name : Text) (spaces : List Namespace)
    → has_space name spaces ≡ false
    → DistinctNames spaces
    → DistinctNames (spaces ++ (new_namespace name ∷ []))
unfolding has_space
append-DistinctNames name [] h d = (refl, tt)
append-DistinctNames name (sp ∷ spaces) h (n, d) = (
  ground (
    arith,
    has_space-append sp.name spaces (new_namespace name ∷ []),
    same_text-sym sp.name name,
  ),
  append-DistinctNames name spaces (ground arith) d,
)

module _ (f : Namespace → Namespace) (name : Text) where
  has_space-change_space :
      ((sp : Namespace) → (f sp).name ≡ sp.name)
      → (n : Text) (spaces : List Namespace)
      → has_space n (change_space f name spaces) ≡ has_space n spaces
  unfolding has_space change_space
  has_space-change_space k n [] = refl
  has_space-change_space k n (sp ∷ spaces) =
      if-cases (λ r. has_space n r ≡ has_space n (sp ∷ spaces)) (same_text sp.name name)
        (λ _. ap (λ m. same_text m n || has_space n spaces) (k sp))
        λ _. ap (λ b. same_text sp.name n || b) (has_space-change_space k n spaces)

  change_space-DistinctNames :
      ((sp : Namespace) → (f sp).name ≡ sp.name)
      → (spaces : List Namespace) → DistinctNames spaces
      → DistinctNames (change_space f name spaces)
  unfolding change_space
  change_space-DistinctNames k [] d = tt
  change_space-DistinctNames k (sp ∷ spaces) (n, d) =
      if-cases DistinctNames (same_text sp.name name)
        (λ _. (ap (λ m. has_space m spaces) (k sp) ∙ n, d))
        λ _. (has_space-change_space k sp.name spaces ∙ n, change_space-DistinctNames k spaces d)

  change_space-All :
      (P : Namespace → Type 0)
      → ((sp : Namespace) → P sp → P (f sp))
      → (spaces : List Namespace) → All P spaces
      → All P (change_space f name spaces)
  unfolding change_space
  change_space-All P k [] h = tt
  change_space-All P k (sp ∷ spaces) (p, h) =
      if-cases (All P) (same_text sp.name name) (λ _. (k sp p, h))
        λ _. (p, change_space-All P k spaces h)

  pub change_global-GlobalValid :
      ((sp : Namespace) → (f sp).name ≡ sp.name)
      → ((sp : Namespace) → SpaceValid sp → SpaceValid (f sp))
      → (top : Global) → GlobalValid top
      → GlobalValid (change_global f name top)
  unfolding change_global
  change_global-GlobalValid k h top v = record {
    distinct = change_space-DistinctNames k top.spaces v.distinct;
    spaces_valid = change_space-All SpaceValid h top.spaces v.spaces_valid;
    enums_valid = v.enums_valid;
    consts_valid = v.consts_valid;
    global_valid = v.global_valid;
    no_global_enum = v.no_global_enum;
  }

pub open_space-GlobalValid :
    (name : Text) (top : Global) → GlobalValid top → GlobalValid (open_space name top)
unfolding open_space
open_space-GlobalValid name top v =
    if-cases GlobalValid (has_space name top.spaces) (λ _. v)
      λ n. record {
        distinct = append-DistinctNames name top.spaces n v.distinct;
        spaces_valid =
            All-append SpaceValid top.spaces (new_namespace name ∷ []) v.spaces_valid
              ((tt, tt, tt), tt);
        enums_valid = v.enums_valid;
        consts_valid = v.consts_valid;
        global_valid = v.global_valid;
        no_global_enum = v.no_global_enum;
      }

pub add_struct-SpaceValid :
    (st : StructDecl)
    → StructValid st
    → (sp : Namespace) → SpaceValid sp
    → SpaceValid (add_struct st sp)
unfolding add_struct
add_struct-SpaceValid st v sp (s, e, c) =
    (All-append StructValid sp.structs (st ∷ []) s (v, tt), e, c)

pub add_enum-SpaceValid :
    (en : EnumDecl) → EnumValid en → (sp : Namespace) → SpaceValid sp → SpaceValid (add_enum en sp)
unfolding add_enum
add_enum-SpaceValid en v sp (s, e, c) = (s, All-append EnumValid sp.enums (en ∷ []) e (v, tt), c)

pub add_const-SpaceValid :
    (cst : ConstDecl)
    → ConstValid cst
    → (sp : Namespace) → SpaceValid sp
    → SpaceValid (add_const cst sp)
unfolding add_const
add_const-SpaceValid cst v sp (s, e, c) =
    (s, e, All-append ConstValid sp.consts (cst ∷ []) c (v, tt))
