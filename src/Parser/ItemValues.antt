-- ===== src/Parser/ItemValues.antt =====
-- The values of the items of an enum in `Parser::parseEnum` of src/Parser.cpp: one more than the value of the
-- item before, where none is given.
use cbuf.Base.{
  ℕ, ◌<◌, ◌≡◌, refl, Bool, true, false, Option, none, some, List, [], ◌∷◌, ◌++◌, length, arith,
  clash, sym, ap, ◌∙◌,
}
use cbuf.Base.Int.{ℤ, pos, negsuc, ◌+ℤ◌, s64}
use cbuf.Ast.{Value}
use cbuf.Ast.Declarations.{EnumItem, EnumDecl}
use cbuf.Parser.{State, Outcome, done, Parses, bind, ◌>>=◌, pure}
use cbuf.Parser.Streams.{Stream, Ready, After}
use cbuf.Parser.Halting.{Halts, Parsed, refuse-Halts}
use cbuf.Parser.Enums.{integer_value, last_value, next_value}

-- The value of an item without one, from that of the item before
abbrev pub follows : Option ℤ → ℤ
follows none = pos 0
follows (some n) = n +ℤ pos 1

-- Each item without a value has the one that follows.
unfoldable pub Numbered : Option ℤ → List EnumItem → Type 0
Numbered before [] = Unit
Numbered before (item ∷ items) =
    (item.item_assigned ≡ false → item.item_value ≡ follows before)
    × Numbered (some item.item_value) items

abbrev pub last_of : Option ℤ → List EnumItem → Option ℤ
last_of before [] = before
last_of before (item ∷ items) = last_of (some item.item_value) items

last_of-last_value :
    (before : Option ℤ) (item : EnumItem) (items : List EnumItem)
    → last_of before (item ∷ items) ≡ last_value (item ∷ items)
unfolding last_value
last_of-last_value before item [] = refl
last_of-last_value before item (next ∷ items) = last_of-last_value (some item.item_value) next items

pub last_value-last_of : (items : List EnumItem) → last_of none items ≡ last_value items
unfolding last_value
last_value-last_of [] = refl
last_value-last_of (item ∷ items) = last_of-last_value none item items

pub Numbered-append :
    (before : Option ℤ) (items : List EnumItem) (item : EnumItem)
    → Numbered before items
    → (item.item_assigned ≡ false → item.item_value ≡ follows (last_of before items))
    → Numbered before (items ++ (item ∷ []))
unfolding Numbered
Numbered-append before [] item h k = (k, tt)
Numbered-append before (first ∷ items) item h k =
    (h.0, Numbered-append (some first.item_value) items item h.1 k)

s64_lem : (n m : ℤ) → s64 n ≡ some m → n ≡ m
unfolding s64
s64_lem (pos n) m h = ground arith
s64_lem (negsuc n) m h = ground arith

abbrev pub EnumValid : EnumDecl → Type 0
EnumValid en = Numbered none en.elements

abbrev pub AnyNumber : ℤ → Type 0
AnyNumber n = Unit

abbrev pub AnyValue : Value → Type 0
AnyValue v = Unit

-- A value and whether it was assigned, behind the items
pub data ItemRead (n : ℕ) (items : List EnumItem) : Option ℤ × Bool → State → Type 0 where
  item_read :
      (v : ℤ) (assigned : Bool) (s : State)
      → (assigned ≡ false → v ≡ follows (last_of none items))
      → Stream s.rest
      → length s.rest < n
      → ItemRead n items (some v, assigned) s
  no_item :
      (assigned : Bool) (s : State)
      → s.success ≡ false
      → After n s
      → ItemRead n items (none, assigned) s

module _ (n : ℕ) (items : List EnumItem) where
  next_number :
      (before : ℤ) (r : Option ℤ)
      → s64 (before +ℤ pos 1) ≡ r
      → last_of none items ≡ some before
      → (s : State) → Stream s.rest
      → length s.rest < n
      → Halts (ItemRead n items) (
          bind
            ((elim r as (λ _. Parses (Option ℤ)) [
              | none ↦ λ t. Outcome.undefined
              | some m ↦ pure (some m)
            ])
              s)
            λ v. pure (v, false))
  next_number before none e h s st len = Halts.meaningless
  next_number before (some m) e h s st len =
      Halts.halted _ _
        (ItemRead.item_read m false s (λ _. sym (s64_lem _ m e) ∙ sym (ap follows h)) st len)

  pub next-Halts :
      (o : Option ℤ)
      → last_of none items ≡ o
      → (s : State) → Stream s.rest
      → length s.rest < n
      → Halts (ItemRead n items) ((next_value o >>= λ v. pure (v, false)) s)
  unfolding next_value
  next-Halts none h s st len =
      Halts.halted _ _ (ItemRead.item_read (pos 0) false s (λ _. sym (ap follows h)) st len)
  next-Halts (some before) h s st len = next_number before (s64 (before +ℤ pos 1)) refl h s st len

  pub integer-Halts :
      (o : Option Value) (s : State)
      → Parsed AnyValue n o s
      → Halts (Parsed AnyNumber n) (integer_value o s)
  unfolding integer_value
  integer-Halts _ s (Parsed.given_up _ f a) = Halts.halted _ _ (Parsed.given_up s f a)
  integer-Halts _ s (Parsed.parsed (Value.integer v) _ w st len) =
      Halts.halted _ _ (Parsed.parsed v s tt st len)
  integer-Halts _ s (Parsed.parsed _ _ w st len) =
      refuse-Halts AnyNumber n s.rest s.success (Ready.reading s.rest false st) len

  pub assigned-ItemRead :
      (v : Option ℤ) (s : State)
      → Parsed AnyNumber n v s
      → Halts (ItemRead n items) (done (v, true) s)
  assigned-ItemRead _ s (Parsed.given_up _ f a) = Halts.halted _ _ (ItemRead.no_item true s f a)
  assigned-ItemRead _ s (Parsed.parsed v _ w st len) =
      Halts.halted _ _ (ItemRead.item_read v true s (λ k. clash true refl k) st len)
