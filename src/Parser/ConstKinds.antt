-- ===== src/Parser/ConstKinds.antt =====
-- The types of constants that `Parser::parseConst` of src/Parser.cpp accepts, and their values.
use cbuf.Base.{◌≡◌, refl, true, false, Option, none, some, arith, clash, if-cases}
use cbuf.Base.Int.{pos}
use cbuf.Token.{TokenType, Token, is, ordinal}
use cbuf.Ast.{ElementType}
use cbuf.Ast.Declarations.{Text, ConstDecl}
use cbuf.Parser.Types.{is_built_in_type}
use cbuf.Parser.Streams.{is_last}
use cbuf.Parser.Elements.{built_in_element_type}
use cbuf.Parser.Constants.{const_type, new_const, const_value}

pub IsConstType : ElementType → Type 0
IsConstType ElementType.short_string = ⊥
IsConstType ElementType.custom = ⊥
IsConstType _ = Unit

-- A string has no number, a float no integer, and what remains no float.
KindFits : ElementType → ConstDecl → Type 0
KindFits ElementType.string cst = (cst.float_val ≡ 0) × (cst.int_val ≡ pos 0)
KindFits ElementType.f32 cst = cst.int_val ≡ pos 0
KindFits ElementType.f64 cst = cst.int_val ≡ pos 0
KindFits _ cst = cst.float_val ≡ 0

pub ConstValid : ConstDecl → Type 0
unfolding IsConstType KindFits
ConstValid cst = IsConstType cst.type × KindFits cst.type cst

abbrev pub OnSome {ℓ κ} : {A : Type ℓ} → (A → Type κ) → Option A → Type κ
OnSome P none = Unit
OnSome P (some a) = P a

pub const_type-OnSome : (t : TokenType) → OnSome IsConstType (const_type t)
unfolding const_type built_in_element_type IsConstType
const_type-OnSome TokenType.short_string_keyword = tt
const_type-OnSome _ = tt

pub const_value-OnSome :
    (type : ElementType)
    → IsConstType type
    → (t : Token) (name text : Text)
    → OnSome ConstValid (const_value type t (record (new_const name type) { str_val = text }))
unfolding const_value ConstValid
const_value-OnSome ElementType.string c t name text =
    if-cases (OnSome ConstValid) (is t.type TokenType.string_literal) (λ k. (tt, (refl, refl)))
      λ k. tt
const_value-OnSome ElementType.f32 c t name text =
    if-cases (OnSome ConstValid) (is t.type TokenType.fnumber) (λ k. (tt, refl)) λ k. tt
const_value-OnSome ElementType.f64 c t name text =
    if-cases (OnSome ConstValid) (is t.type TokenType.fnumber) (λ k. (tt, refl)) λ k. tt
const_value-OnSome ElementType.short_string c t name text = absurd c
const_value-OnSome ElementType.custom c t name text = absurd c
const_value-OnSome _ c t name text =
    if-cases (OnSome ConstValid) (is t.type TokenType.number) (λ k. (tt, refl)) λ k. tt

pub const_value-other :
    (type : ElementType) (t : Token) (cst result : ConstDecl)
    → const_value type t cst ≡ some result
    → is_last t ≡ false
unfolding const_value ordinal
const_value-other ElementType.string t cst result h = ground arith
const_value-other ElementType.f32 t cst result h = ground arith
const_value-other ElementType.f64 t cst result h = ground arith
const_value-other _ t cst result h = ground arith

pub built_in-other : (t : TokenType) → is_built_in_type t ≡ true → is t TokenType.last_token ≡ false
unfolding is_built_in_type ordinal
built_in-other TokenType.last_token h = clash false h refl
built_in-other _ h = refl
