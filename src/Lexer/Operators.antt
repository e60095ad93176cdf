-- ===== src/Lexer/Operators.antt =====
-- The search for an operator in `Lexer::parseStringToken` of src/Lexer.cpp: it looks at one group of
-- the table `strTok`, and at the first entry that fits.
use cbuf.Base.{
  ℕ, suc, ◌≤◌, ◌≡◌, ◌⊎◌, inl, inr, refl, Bool, true, false, ◌||◌, ◌&&◌, not, leb, Option, none,
  some, [], ◌∷◌, length, get_elem?, All, arith, if-cases, if◌then◌else◌, clash,
}
use cbuf.Token.{TokenType}
use cbuf.Ast.Declarations.{Text}
use cbuf.Lexer.Tables.{
  Table, is_prefix, starts_alike, find_group, match_group, string_token, str_tok,
}

-- An entry of the table that the input starts with, such that none is longer; or there is none.
pub data Longest (input : Text) (table : Table) : Option (Text × TokenType) → Type 0 where
  longest :
      (i : ℕ) (entry : Text × TokenType)
      → get_elem? table i ≡ some entry
      → is_prefix entry.0 input ≡ true
      → All (λ e. is_prefix e.0 input ≡ true → length e.0 ≤ length entry.0) table
      → Longest input table (some entry)
  unmatched : All (λ e. is_prefix e.0 input ≡ false) table → Longest input table none

-- No entry starts like the input.
none_alike : Text → Table → Bool
none_alike input [] = true
none_alike input ((s, t) ∷ table) = not (starts_alike s input) && none_alike input table

-- The entries that start like the input are the first ones.
in_front : Text → Table → Bool
in_front input [] = true
in_front input ((s, t) ∷ table) =
    if starts_alike s input then in_front input table else none_alike input table

-- No entry is a longer text that starts with this one.
shields : Text → Table → Bool
shields s [] = true
shields s ((s', t) ∷ table) =
    (not (is_prefix s s') || leb (length s') (length s)) && shields s table

-- How the table is laid out
tidy : Table → Bool
tidy [] = true
tidy ((s, t) ∷ table) = starts_alike s s && in_front s table && shields s table && tidy table

str_tok-tidy : tidy str_tok ≡ true
unfolding tidy in_front none_alike shields starts_alike is_prefix str_tok
str_tok-tidy = refl

alike_trans :
    (s input s' : Text) → starts_alike s input ≡ true → starts_alike s' s ≡ starts_alike s' input
unfolding starts_alike
alike_trans [] input s' h = clash _ h refl
alike_trans (a ∷ s) [] s' h = clash _ h refl
alike_trans (a ∷ s) (b ∷ input) [] h = refl
alike_trans (a ∷ s) (b ∷ input) (c ∷ s') h = ground arith

none_alike-cong :
    (s input : Text) (table : Table)
    → starts_alike s input ≡ true
    → none_alike s table ≡ none_alike input table
unfolding none_alike
none_alike-cong s input [] h = refl
none_alike-cong s input ((s', t) ∷ table) h =
    simp (alike_trans s input s' h, none_alike-cong s input table h)

in_front-cong :
    (s input : Text) (table : Table)
    → starts_alike s input ≡ true
    → in_front s table ≡ in_front input table
unfolding in_front
in_front-cong s input [] h = refl
in_front-cong s input ((s', t) ∷ table) h =
    simp (alike_trans s input s' h, none_alike-cong s input table h, in_front-cong s input table h)

prefix-alike :
    (s input : Text)
    → starts_alike s s ≡ true
    → starts_alike s input ≡ false
    → is_prefix s input ≡ false
unfolding starts_alike is_prefix
prefix-alike [] input h k = clash _ h refl
prefix-alike (a ∷ s) [] h k = refl
prefix-alike (a ∷ s) (b ∷ input) h k = ground arith

-- Of two texts that one begins with, one begins with the other.
nested :
    (s s' input : Text)
    → is_prefix s input ≡ true
    → is_prefix s' input ≡ true
    → (is_prefix s s' ≡ true) ⊎ (length s' ≤ length s)
unfolding is_prefix
nested [] s' input h k = inl refl
nested (a ∷ s) [] input h k = inr (omega arith)
nested (a ∷ s) (b ∷ s') [] h k = clash _ h refl
nested (a ∷ s) (b ∷ s') (c ∷ input) h k = elim (nested s s' input (ground arith) (ground arith)) [
  | inl p ↦ inl (ground arith)
  | inr l ↦ inr (omega arith)
]

shields-All :
    (s input : Text) (table : Table)
    → is_prefix s input ≡ true
    → shields s table ≡ true
    → All (λ e. is_prefix e.0 input ≡ true → length e.0 ≤ length s) table
unfolding shields
shields-All s input [] p h = tt
shields-All s input ((s', t) ∷ table) p h = (
  λ q. elim (nested s s' input p q) [ inl r ↦ ground arith | inr l ↦ l ],
  shields-All s input table p (ground arith),
)

none_alike-All :
    (input : Text) (table : Table)
    → none_alike input table ≡ true
    → tidy table ≡ true
    → All (λ e. is_prefix e.0 input ≡ false) table
unfolding none_alike tidy
none_alike-All input [] h k = tt
none_alike-All input ((s, t) ∷ table) h k = (
  prefix-alike s input (ground arith) (ground arith),
  none_alike-All input table (ground arith) (ground arith),
)

Longest-skip :
    (input s : Text) (t : TokenType) (table : Table) (o : Option (Text × TokenType))
    → is_prefix s input ≡ false
    → Longest input table o
    → Longest input ((s, t) ∷ table) o
Longest-skip input s t table _ h (Longest.longest i entry e p all) =
    Longest.longest (suc i) entry e p (λ k. clash _ k h, all)
Longest-skip input s t table _ h (Longest.unmatched all) = Longest.unmatched (h, all)

match_group-Longest :
    (input : Text) (table : Table)
    → in_front input table ≡ true
    → tidy table ≡ true
    → Longest input table (match_group input table)
unfolding match_group in_front tidy
match_group-Longest input [] h k = Longest.unmatched tt
match_group-Longest input ((s, t) ∷ table) h k =
    if-cases (Longest input ((s, t) ∷ table)) (starts_alike s input)
      (λ a.
        if-cases (Longest input ((s, t) ∷ table)) (is_prefix s input)
          (λ p.
            Longest.longest 0 (s, t) refl p
              (λ _. omega arith, shields-All s input table p (ground arith)))
          λ n.
            Longest-skip input s t table _ n
              (match_group-Longest input table (ground arith) (ground arith)))
      λ a. Longest.unmatched (
        prefix-alike s input (ground arith) a,
        none_alike-All input table (ground arith) (ground arith),
      )

find_group-Longest :
    (input : Text) (table : Table)
    → tidy table ≡ true
    → Longest input table (match_group input (find_group input table))
unfolding find_group match_group tidy in_front
find_group-Longest input [] h = Longest.unmatched tt
find_group-Longest input ((s, t) ∷ table) h =
    if-cases (λ g. Longest input ((s, t) ∷ table) (match_group input g)) (starts_alike s input)
      (λ a.
        match_group-Longest input ((s, t) ∷ table) (ground (arith, in_front-cong s input table a))
          h)
      λ a.
        Longest-skip input s t table _ (prefix-alike s input (ground arith) a)
          (find_group-Longest input table (ground arith))

-- The search for an operator finds a longest entry of the table that the input starts with, and fails
-- only where the input starts with none of them.
pub string_token-Longest : (input : Text) → Longest input str_tok (string_token input)
unfolding string_token
string_token-Longest input = find_group-Longest input str_tok str_tok-tidy
