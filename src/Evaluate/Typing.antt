-- ===== src/Evaluate/Typing.antt =====
-- The type that `computeExpressionValue` of src/Parser.cpp gives an expression depends only on the
-- operators and on the types of the literals.
use cbuf.Base.{
  ℕ, ◌==◌, ◌≡◌, refl, Option, none, some, if◌then◌else◌, ◌||◌, ◌&&◌, if-cases, subst, subst₂,
}
use cbuf.Base.Int.{ℤ, div_ℤ, magnitude, s64}
use cbuf.Token.{TokenType, is, ordinal}
use cbuf.Ast.{
  Value, Values, Expression, Expressions, ValueType, value_type, null, literal, unary, binary,
}
use cbuf.Evaluate.{
  FloatOps, Evaluated, value, failed, undefined, null_expression, is_operable, integer_op, float_op,
  binary_op, unary_op, negated, checked, if_divides, compute_expression_value, compute_values,
  ◌>>=◌,
}

integer_type : TokenType → Option ValueType
integer_type TokenType.plus = some ValueType.integer
integer_type TokenType.minus = some ValueType.integer
integer_type TokenType.star = some ValueType.integer
integer_type TokenType.div = some ValueType.integer
integer_type TokenType.modulo = some ValueType.integer
integer_type _ = none

-- There is no remainder of floats.
float_type : TokenType → Option ValueType
float_type TokenType.plus = some ValueType.float
float_type TokenType.minus = some ValueType.float
float_type TokenType.star = some ValueType.float
float_type TokenType.div = some ValueType.float
float_type _ = none

binary_type : TokenType → ValueType → ValueType → Option ValueType
unfolding integer_type float_type is_operable
binary_type op ValueType.integer ValueType.integer = integer_type op
binary_type op l r = if is_operable l && is_operable r then float_type op else none

unary_type : TokenType → ValueType → Option ValueType
unfolding is_operable
unary_type op t =
    if is_operable t && (is op TokenType.plus || is op TokenType.minus) then some t else none

abbrev both : Option ValueType → (ValueType → Option ValueType) → Option ValueType
both none f = none
both (some t) f = f t

-- The type of an expression, `none` where its operators do not take their operands.
unfoldable mutual
  unfolding value_type binary_type unary_type

  pub expression_type : Expression → Option ValueType
  expression_type null = none
  expression_type (literal v) = some (value_type v)
  expression_type (unary op e) = both (expression_type e) (unary_type op)
  expression_type (binary op l r) =
      both (expression_type l) λ t. both (expression_type r) λ u. binary_type op t u
  expression_type (Expression.array es) = both (item_types es) λ _. some ValueType.array

  pub item_types : Expressions → Option ValueType
  item_types Expressions.end = some ValueType.array
  item_types (Expressions.item e es) =
      both (expression_type e) λ _. both (item_types es) λ _. some ValueType.array

-- A value has the type that was found; there is an error only where none was.
pub data Agrees {ℓ} {A : Type ℓ} (P : A → ValueType → Type 0)
    : Option ValueType → Evaluated A → Type ℓ where
  typed : (t : ValueType) (a : A) → P a t → Agrees P (some t) (value a)
  rejected : Agrees P none failed
  stopped : (t : Option ValueType) → Agrees P t undefined
  followed_null : (t : Option ValueType) → Agrees P t null_expression

abbrev pub HasType : Value → ValueType → Type 0
HasType v t = value_type v ≡ t

quotient-Agrees :
    (o : Option ℤ) (result : ℤ)
    → Agrees HasType (some ValueType.integer) (elim o as (λ _. Evaluated Value) [
      | none ↦ undefined
      | some _ ↦ value (Value.integer result)
    ])
unfolding value_type
quotient-Agrees none result = Agrees.stopped _
quotient-Agrees (some n) result = Agrees.typed _ _ refl

checked-Agrees : (o : Option ℤ) → Agrees HasType (some ValueType.integer) (checked o)
unfolding value_type
checked-Agrees none = Agrees.stopped _
checked-Agrees (some n) = Agrees.typed _ _ refl

divides-Agrees : (a b result : ℤ) → Agrees HasType (some ValueType.integer) (if_divides a b result)
unfolding value_type
divides-Agrees a b result =
    if-cases (Agrees HasType (some ValueType.integer)) (magnitude b == 0) (λ _. Agrees.stopped _)
      λ _. quotient-Agrees (s64 (div_ℤ a b)) result

integer_op-Agrees :
    (op : TokenType) (a b : ℤ) → Agrees HasType (integer_type op) (integer_op op a b)
unfolding integer_type integer_op value_type
integer_op-Agrees TokenType.plus a b = checked-Agrees _
integer_op-Agrees TokenType.minus a b = checked-Agrees _
integer_op-Agrees TokenType.star a b = checked-Agrees _
integer_op-Agrees TokenType.div a b = divides-Agrees a b _
integer_op-Agrees TokenType.modulo a b = divides-Agrees a b _
integer_op-Agrees _ a b = Agrees.rejected

module _ (ops : FloatOps) where
  float_op-Agrees :
      (op : TokenType) (x y : ℕ) → Agrees HasType (float_type op) (float_op ops op x y)
  unfolding float_type float_op value_type
  float_op-Agrees TokenType.plus x y = Agrees.typed _ _ refl
  float_op-Agrees TokenType.minus x y = Agrees.typed _ _ refl
  float_op-Agrees TokenType.star x y = Agrees.typed _ _ refl
  float_op-Agrees TokenType.div x y = Agrees.typed _ _ refl
  float_op-Agrees _ x y = Agrees.rejected

  binary_op-Agrees :
      (op : TokenType) (a b : Value)
      → Agrees HasType (binary_type op (value_type a) (value_type b)) (binary_op ops op a b)
  unfolding binary_type binary_op
  binary_op-Agrees op (Value.integer a) (Value.integer b) = integer_op-Agrees op a b
  binary_op-Agrees op (Value.integer a) (Value.float b) = float_op-Agrees op _ _
  binary_op-Agrees op (Value.float a) (Value.integer b) = float_op-Agrees op _ _
  binary_op-Agrees op (Value.float a) (Value.float b) = float_op-Agrees op _ _
  binary_op-Agrees op _ _ = Agrees.rejected

  unary_op-Agrees :
      (op : TokenType) (v : Value)
      → Agrees HasType (unary_type op (value_type v)) (unary_op ops op v)
  unfolding unary_type unary_op negated value_type ordinal
  unary_op-Agrees TokenType.plus (Value.integer a) = Agrees.typed _ _ refl
  unary_op-Agrees TokenType.plus (Value.float a) = Agrees.typed _ _ refl
  unary_op-Agrees TokenType.minus (Value.integer a) = checked-Agrees _
  unary_op-Agrees TokenType.minus (Value.float a) = Agrees.typed _ _ refl
  unary_op-Agrees _ (Value.integer a) = Agrees.rejected
  unary_op-Agrees _ (Value.float a) = Agrees.rejected
  unary_op-Agrees op _ = Agrees.rejected

  both-Agrees :
      {A B : Type 0} (P : A → ValueType → Type 0) (Q : B → ValueType → Type 0)
      (t : Option ValueType) (r : Evaluated A) (f : ValueType → Option ValueType)
      (g : A → Evaluated B)
      → Agrees P t r
      → ((u : ValueType) (a : A) → P a u → Agrees Q (f u) (g a))
      → Agrees Q (both t f) (r >>= g)
  both-Agrees P Q _ _ f g (Agrees.typed t a h) k = k t a h
  both-Agrees P Q _ _ f g Agrees.rejected k = Agrees.rejected
  both-Agrees P Q _ _ f g (Agrees.stopped none) k = Agrees.stopped _
  both-Agrees P Q _ _ f g (Agrees.stopped (some t)) k = Agrees.stopped _
  both-Agrees P Q _ _ f g (Agrees.followed_null none) k = Agrees.followed_null _
  both-Agrees P Q _ _ f g (Agrees.followed_null (some t)) k = Agrees.followed_null _

  abbrev IsArray : Values → ValueType → Type 0
  IsArray vs t = t ≡ ValueType.array

  mutual
    unfolding expression_type compute_expression_value value_type

    expression-Agrees :
        (e : Expression) → Agrees HasType (expression_type e) (compute_expression_value ops e)
    expression-Agrees null = Agrees.followed_null _
    expression-Agrees (literal v) = Agrees.typed _ v refl
    expression-Agrees (unary op e) =
        both-Agrees HasType HasType _ _ (unary_type op) (unary_op ops op) (expression-Agrees e)
          λ t v h.
            subst (λ u. Agrees HasType (unary_type op u) (unary_op ops op v)) h
              (unary_op-Agrees op v)
    expression-Agrees (binary op l r) =
        both-Agrees HasType HasType _ _ _ _ (expression-Agrees l) λ t a h.
          both-Agrees HasType HasType _ _ (binary_type op t) (binary_op ops op a)
            (expression-Agrees r)
            λ u b k.
              subst₂ (λ x y. Agrees HasType (binary_type op x y) (binary_op ops op a b)) h k
                (binary_op-Agrees op a b)
    expression-Agrees (Expression.array es) =
        both-Agrees IsArray HasType _ _ _ _ (items-Agrees es) λ t vs h. Agrees.typed _ _ refl

    items-Agrees : (es : Expressions) → Agrees IsArray (item_types es) (compute_values ops es)
    items-Agrees Expressions.end = Agrees.typed _ _ refl
    items-Agrees (Expressions.item e es) =
        both-Agrees HasType IsArray _ _ _ _ (expression-Agrees e) λ t v h.
          both-Agrees IsArray IsArray _ _ _ (λ vs. value (Values.item v vs)) (items-Agrees es)
            λ u vs k. Agrees.typed _ _ refl

  -- An expression's value has the type that its operators give to the types of its literals, whatever
  -- the numbers are: `failed`, the error, comes out only where these operators do not take such
  -- operands. The evaluation may also reach a step without a meaning, as a division by 0, or follow a null
  -- pointer to an expression.
  pub compute_expression_value-Agrees :
      (e : Expression) → Agrees HasType (expression_type e) (compute_expression_value ops e)
  compute_expression_value-Agrees e = expression-Agrees e
