-- ===== src/Symbols/Spaces.antt =====
-- The namespaces that `SymbolTable::initialize` of src/SymbolTable.cpp keeps.
use cbuf.Base.{
  ◌≡◌, refl, ap, sym, ◌∙◌, Bool, true, false, Option, none, some, List, [], ◌∷◌, ◌++◌,
  if◌then◌else◌,
}
use mathlib.Core.List.{append-nil, append_assoc}
use cbuf.Ast.Declarations.{Text, same_text, Namespace, Global}
use cbuf.Ast.Texts.{same_text-eq}
use cbuf.Symbols.{
  SymbolTable, first_space, find_namespace, add_namespace, add_namespaces, initialize, new_table,
}

abbrev or_else : Option Namespace → Option Namespace → Option Namespace
or_else none o = o
or_else (some sp) o = some sp

or_else-if :
    (c : Bool) (sp : Namespace) (o o' : Option Namespace)
    → or_else (if c then some sp else o) o' ≡ (if c then some sp else or_else o o')
or_else-if true sp o o' = refl
or_else-if false sp o o' = refl

or_else_assoc : (a b c : Option Namespace) → or_else (or_else a b) c ≡ or_else a (or_else b c)
or_else_assoc none b c = refl
or_else_assoc (some sp) b c = refl

first_space-append :
    (name : Text) (spaces more : List Namespace)
    → first_space name (spaces ++ more) ≡ or_else (first_space name spaces) (first_space name more)
unfolding first_space
first_space-append name [] more = refl
first_space-append name (sp ∷ spaces) more =
    ap (λ o. if same_text name sp.name then some sp else o) (first_space-append name spaces more)
    ∙ sym (or_else-if (same_text name sp.name) sp (first_space name spaces) (first_space name more))

-- A namespace behind one of its name is not found.
first_space-hidden :
    (name : Text) (spaces more : List Namespace) (sp found : Namespace)
    → first_space sp.name spaces ≡ some found
    → or_else (first_space name spaces) (first_space name more)
      ≡ or_else (first_space name spaces) (first_space name (sp ∷ more))
unfolding first_space
first_space-hidden name spaces more sp found h = hidden (same_text name sp.name) refl
  where
    hidden :
        (c : Bool)
        → same_text name sp.name ≡ c
        → or_else (first_space name spaces) (first_space name more)
          ≡ or_else (first_space name spaces) (if c then some sp else first_space name more)
    hidden false e = refl
    hidden true e =
        ap (λ o. or_else o (first_space name more))
          (ap (λ n. first_space n spaces) (same_text-eq name sp.name e) ∙ h)
        ∙ sym (
            ap (λ o. or_else o (some sp))
              (ap (λ n. first_space n spaces) (same_text-eq name sp.name e) ∙ h))

add_step :
    (name : Text) (t : SymbolTable) (sp : Namespace) (more : List Namespace)
    → first_space name ((add_namespace t sp).1.spaces ++ more)
      ≡ first_space name (t.spaces ++ (sp ∷ more))
unfolding add_namespace find_namespace
add_step name t sp more = step (first_space sp.name t.spaces) refl
  where
    step :
        (o : Option Namespace)
        → first_space sp.name t.spaces ≡ o
        → first_space name (
            (elim o as (λ _. Bool × SymbolTable) [
              | none ↦ (true, record t { spaces = t.spaces ++ (sp ∷ []) })
              | some _ ↦ (false, t)
            ]).1.spaces
            ++ more)
          ≡ first_space name (t.spaces ++ (sp ∷ more))
    step none h = ap (first_space name) (append_assoc t.spaces (sp ∷ []) more)
    step (some found) h =
        first_space-append name t.spaces more
        ∙ first_space-hidden name t.spaces more sp found h
        ∙ sym (first_space-append name t.spaces (sp ∷ more))

add_namespaces-first :
    (name : Text) (t : SymbolTable) (more : List Namespace)
    → first_space name (add_namespaces t more).spaces ≡ first_space name (t.spaces ++ more)
unfolding add_namespaces
add_namespaces-first name t [] = ap (first_space name) (sym (append-nil t.spaces))
add_namespaces-first name t (sp ∷ more) =
    add_namespaces-first name (add_namespace t sp).1 more ∙ add_step name t sp more

-- The table that `initialize` makes finds of each name the first namespace of that name, of the global
-- one and then the others in their order: to leave out those that are there already hides nothing else.
pub find_namespace-first :
    (top : Global) (name : Text)
    → find_namespace (initialize top).1 name ≡ first_space name (top.global_space ∷ top.spaces)
unfolding find_namespace initialize
find_namespace-first top name =
    add_namespaces-first name (add_namespace (new_table top.global_space.name) top.global_space).1
      top.spaces
    ∙ add_step name (new_table top.global_space.name) top.global_space top.spaces
