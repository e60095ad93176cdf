-- ===== src/Parser/Streams.antt =====
-- The token streams that `Lexer::parseFile` of src/Lexer.cpp leaves, and what the steps of the parser
-- do to them: the states before and after an expression, and the outcomes that keep within the array.
use cbuf.Base.{
  ℕ, suc, ◌<◌, ◌≡◌, refl, Bool, true, false, not, Option, none, some, List, [], ◌∷◌, if◌then◌else◌,
  length, arith, clash, if-cases,
}
use cbuf.Token.{TokenType, Token, is}
use cbuf.Ast.{Expression, Expressions}
use cbuf.Parser.{State, Outcome, done, assertion, Parses, bind, error, pure, ◌>>◌}

abbrev pub is_last : Token → Bool
is_last t = is t.type TokenType.last_token

-- `parseFile` reads up to the first last token, and pushes it three more times.
pub data Stream : List Token → Type 0 where
  ended : (e : Token) → is_last e ≡ true → Stream (e ∷ e ∷ e ∷ e ∷ [])
  next : (t : Token) (ts : List Token) → is_last t ≡ false → Stream ts → Stream (t ∷ ts)

-- What is left once the parser went on: a stream, or three last tokens and an error.
pub data Ready : List Token → Bool → Type 0 where
  reading : (ts : List Token) (ok : Bool) → Stream ts → Ready ts ok
  over : (e : Token) → is_last e ≡ true → Ready (e ∷ e ∷ e ∷ []) false

-- The first token, and what is left without it.
pub data Front : List Token → Type 0 where
  front : (t : Token) (ts : List Token) → (is_last t ≡ false → Stream ts) → Front (t ∷ ts)

pub data Taken : List Token → Type 0 where
  taken :
      (t : Token) (ts : List Token)
      → (is_last t ≡ false → Stream ts)
      → Ready ts false
      → Taken (t ∷ ts)

pub Stream-Taken : (ts : List Token) → Stream ts → Taken ts
Stream-Taken _ (Stream.ended e l) = Taken.taken e _ (clash (is_last e) l) (Ready.over e l)
Stream-Taken _ (Stream.next t ts n s) = Taken.taken t ts (λ _. s) (Ready.reading ts false s)

pub Ready-Front : (ts : List Token) (ok : Bool) → Ready ts ok → Front ts
Ready-Front _ _ (Ready.reading _ ok (Stream.ended e l)) = Front.front e _ (clash (is_last e) l)
Ready-Front _ _ (Ready.reading _ ok (Stream.next t ts n s)) = Front.front t ts (λ _. s)
Ready-Front _ _ (Ready.over e l) = Front.front e _ (clash (is_last e) l)

-- Only an error leaves the stream.
pub Ready-Stream : (ts : List Token) (ok : Bool) → Ready ts ok → not ok ≡ false → Stream ts
Ready-Stream ts ok (Ready.reading _ _ s) h = s
Ready-Stream _ _ (Ready.over e l) h = clash true refl h

pub is-other :
    (t a : TokenType)
    → is t a ≡ true
    → is a TokenType.last_token ≡ false
    → is t TokenType.last_token ≡ false
is-other t a h k = ground arith

abbrev pub Before : ℕ → State → Type 0
Before n s = Stream s.rest × (length s.rest < n)

abbrev pub After : ℕ → State → Type 0
After n s = Ready s.rest s.success × (length s.rest < n)

-- The outcome is a result as `P` says, or the assert of `computeDecimal`.
pub data Settles {ℓ} {A : Type ℓ} (P : A → State → Type 0) : Outcome A → Type ℓ where
  settled : (a : A) (s : State) → P a s → Settles P (done a s)
  asserted : Settles P assertion

module _ {ℓ κ} {A : Type ℓ} {B : Type κ} (P : A → State → Type 0) (Q : B → State → Type 0) where
  pub bind-Settles :
      (o : Outcome A) (f : A → Parses B)
      → Settles P o
      → ((a : A) (s : State) → P a s → Settles Q (f a s))
      → Settles Q (bind o f)
  bind-Settles _ f (Settles.settled a s p) h = h a s p
  bind-Settles _ f Settles.asserted h = Settles.asserted

module _ {ℓ} {A : Type ℓ} (P : A → State → Type 0) where
  pub if-Settles :
      (c : Bool) (p q : Parses A) (s : State)
      → (c ≡ true → Settles P (p s))
      → (c ≡ false → Settles P (q s))
      → Settles P ((if c then p else q) s)
  if-Settles c p q s h k = if-cases {A = Parses A} (λ r. Settles P (r s)) c h k

  pub error-Settles :
      (n : ℕ) (a : A) (ts : List Token) (ok : Bool)
      → Ready ts false
      → length ts < n
      → ((t : State) → After n t → P a t)
      → Settles P ((error >> pure a) (record { rest = ts; success = ok }))
  unfolding error
  error-Settles n a _ ok (Ready.reading _ _ (Stream.ended e l)) h k =
      Settles.settled a _ (k _ (Ready.reading _ _ (Stream.ended e l), h))
  error-Settles n a _ ok (Ready.reading _ _ (Stream.next t ts l s)) h k =
      Settles.settled a _ (k _ (Ready.reading _ _ (Stream.next t ts l s), h))
  error-Settles n a _ ok (Ready.over e l) h k = Settles.settled a _ (k _ (Ready.over e l, h))

  pub Option-Settles {κ} :
      {V : Type κ} (o : Option V) (p : V → Parses A) (q : Parses A) (s : State)
      → ((v : V) → o ≡ some v → Settles P (p v s))
      → (o ≡ none → Settles P (q s))
      → Settles P ((elim o as (λ _. Parses A) [ some v ↦ p v | none ↦ q ]) s)
  Option-Settles none p q s h k = k refl
  Option-Settles (some v) p q s h k = h v refl

-- The items of an array are followed by one closing brace.
pub data Items (n : ℕ) : Option Expressions → State → Type 0 where
  gave_up : (s : State) → After n s → Items n none s
  closes :
      (es : Expressions) (t : Token) (ts : List Token) (ok : Bool)
      → Stream ts
      → length ts < n
      → Items n (some es) (record { rest = t ∷ ts; success = ok })

abbrev pub Stays : ℕ → Expression → State → Type 0
Stays n e s = After n s

pub weaken : (n : ℕ) (o : Outcome Expression) → Settles (Stays n) o → Settles (Stays (suc n)) o
weaken n _ (Settles.settled e s a) = Settles.settled e s (a.0, omega (arith, a.1))
weaken n _ Settles.asserted = Settles.asserted
