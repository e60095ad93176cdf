-- ===== src/Symbols/Lookup.antt =====
-- What the searches of src/SymbolTable.cpp have to do with each other.
use cbuf.Base.{
  ◌≡◌, refl, ap, ap₂, ◌∙◌, Bool, true, false, ◌||◌, Option, none, some, List, [], ◌∷◌,
  if◌then◌else◌,
}
use cbuf.Ast.Declarations.{Text, same_text, StructDecl, EnumDecl, Namespace}
use cbuf.Symbols.{
  SymbolTable, first_struct, first_enum, has_struct, has_enum, find_namespace, search_struct,
  search_enum, search_symbol, find_struct, find_enum, find_symbol,
}

abbrev pub is_found {ℓ} : {A : Type ℓ} → Option A → Bool
is_found none = false
is_found (some a) = true

is_found-if {ℓ} :
    {A : Type ℓ} (c : Bool) (a : A) (o : Option A) (b : Bool)
    → b ≡ is_found o
    → (if c then true else b) ≡ is_found (if c then some a else o)
is_found-if true a o b h = refl
is_found-if false a o b h = h

has_struct-first :
    (name : Text) (structs : List StructDecl)
    → has_struct name structs ≡ is_found (first_struct name structs)
unfolding has_struct first_struct
has_struct-first name [] = refl
has_struct-first name (st ∷ structs) =
    is_found-if (same_text name st.name) st (first_struct name structs) _
      (has_struct-first name structs)

has_enum-first :
    (name : Text) (enums : List EnumDecl) → has_enum name enums ≡ is_found (first_enum name enums)
unfolding has_enum first_enum
has_enum-first name [] = refl
has_enum-first name (en ∷ enums) =
    is_found-if (same_text name en.name) en (first_enum name enums) _ (has_enum-first name enums)

either :
    (s : Option StructDecl) (e : Option EnumDecl) (s' : Option StructDecl) (e' : Option EnumDecl)
    → (if is_found s then true else if is_found e then true else (is_found s' || is_found e')) ≡ (
        is_found (elim s as (λ _. Option StructDecl) [ none ↦ s' | some st ↦ some st ])
        || is_found (elim e as (λ _. Option EnumDecl) [ none ↦ e' | some en ↦ some en ]))
either none none s' e' = refl
either (some st) e s' e' = refl
either none (some en) none e' = refl
either none (some en) (some st) e' = refl

search_lem :
    (name : Text) (s : Option StructDecl) (e : Option EnumDecl) (space : Option Namespace)
    → search_symbol name (is_found s || is_found e) space
      ≡ (is_found (search_struct name s space) || is_found (search_enum name e space))
unfolding search_symbol search_struct search_enum
search_lem name s e none = refl
search_lem name s e (some sp) =
    ap₂ (λ a b. if a then true else if b then true else (is_found s || is_found e))
      (has_struct-first name sp.structs) (has_enum-first name sp.enums)
    ∙ either (first_struct name sp.structs) (first_enum name sp.enums) s e

-- In every table, and from every namespace, `find_symbol` finds a name if and only if `find_struct` or
-- `find_enum` does, the fallback to the global namespace included.
pub find_symbol-either :
    (t : SymbolTable) (name : Text) (nspace : Option Text)
    → find_symbol t name nspace
      ≡ (is_found (find_struct t name nspace) || is_found (find_enum t name nspace))
unfolding find_symbol find_struct find_enum
find_symbol-either t name none =
    search_lem name none none (find_namespace t t.global_namespace_name)
find_symbol-either t name (some nspace) =
    ap (λ b. search_symbol name b (find_namespace t nspace))
      (search_lem name none none (find_namespace t t.global_namespace_name))
    ∙ search_lem name _ _ (find_namespace t nspace)
