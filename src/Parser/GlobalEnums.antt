-- ===== src/Parser/GlobalEnums.antt =====
-- The enums at the top of a file, which `ParseInternal` of src/Parser.cpp puts beside the global
-- namespace, and the symbol table of src/SymbolTable.cpp, which searches in namespaces.
use cbuf.Base.{
  ℕ, ◌≡◌, refl, ap, ◌∙◌, Bool, true, false, Option, none, some, List, [], ◌∷◌, ◌++◌, subst,
  if◌then◌else◌,
}
use cbuf.Ast.Declarations.{Text, EnumDecl, Namespace, Global}
use cbuf.Ast.Texts.{same_text_refl}
use cbuf.Evaluate.{FloatOps}
use cbuf.Symbols.{
  SymbolTable, find_enum, search_enum, first_enum, first_space, find_namespace, add_namespace,
  add_namespaces, initialize, new_table,
}
use cbuf.Symbols.Spaces.{find_namespace-first}
use cbuf.Parser.{State, done}
use cbuf.Parser.Files.{FileSystem, FileResult, new_global, parse}
use cbuf.Parser.Finishing.{Finishes, Built, FileEnds}
use cbuf.Parser.Whole.{parse-FileEnds, new_global-GlobalValid}

add_namespace-name :
    (t : SymbolTable) (sp : Namespace)
    → (add_namespace t sp).1.global_namespace_name ≡ t.global_namespace_name
unfolding add_namespace
add_namespace-name t sp = kept (find_namespace t sp.name)
  where
    kept :
        (o : Option Namespace)
        → (elim o as (λ _. Bool × SymbolTable) [
          | none ↦ (true, record t { spaces = t.spaces ++ (sp ∷ []) })
          | some _ ↦ (false, t)
        ]).1.global_namespace_name
          ≡ t.global_namespace_name
    kept none = refl
    kept (some _) = refl

add_namespaces-name :
    (t : SymbolTable) (spaces : List Namespace)
    → (add_namespaces t spaces).global_namespace_name ≡ t.global_namespace_name
unfolding add_namespaces
add_namespaces-name t [] = refl
add_namespaces-name t (sp ∷ spaces) =
    add_namespaces-name (add_namespace t sp).1 spaces ∙ add_namespace-name t sp

initialize-name : (top : Global) → (initialize top).1.global_namespace_name ≡ top.global_space.name
unfolding initialize
initialize-name top =
    add_namespaces-name (add_namespace (new_table top.global_space.name) top.global_space).1
      top.spaces
    ∙ add_namespace-name (new_table top.global_space.name) top.global_space

-- The table's namespace of the global name is the global one.
global_found :
    (top : Global)
    → find_namespace (initialize top).1 (initialize top).1.global_namespace_name
      ≡ some top.global_space
unfolding first_space
global_found top =
    ap (find_namespace (initialize top).1) (initialize-name top)
    ∙ find_namespace-first top top.global_space.name
    ∙ ap (λ b. if b then some top.global_space else first_space top.global_space.name top.spaces)
        (same_text_refl top.global_space.name)

find_enum-none :
    (top : Global) (name : Text)
    → top.global_space.enums ≡ []
    → find_enum (initialize top).1 name none ≡ none
unfolding find_enum search_enum first_enum
find_enum-none top name h =
    ap (search_enum name none) (global_found top)
    ∙ ap
        (λ enums. elim (first_enum name enums) as (λ _. Option EnumDecl) [
          | none ↦ none
          | some en ↦ some en
        ])
        h

-- The tree that a file gives has no enum in the global namespace.
abbrev NoGlobalEnum : FileResult → Type 0
NoGlobalEnum (FileResult.ended (done (some top) s)) = top.global_space.enums ≡ []
NoGlobalEnum _ = Unit

FileEnds-NoGlobalEnum : (r : FileResult) → FileEnds Unit r → NoGlobalEnum r
FileEnds-NoGlobalEnum _ FileEnds.unopened = tt
FileEnds-NoGlobalEnum _ (FileEnds.ended _ (Finishes.finished _ s (Built.built top _ v))) =
    v.no_global_enum
FileEnds-NoGlobalEnum _ (FileEnds.ended _ (Finishes.finished _ s (Built.failed _ k))) = tt
FileEnds-NoGlobalEnum _ (FileEnds.ended _ Finishes.stopped) = tt
FileEnds-NoGlobalEnum _ (FileEnds.ended _ Finishes.meaningless) = tt
FileEnds-NoGlobalEnum _ (FileEnds.ended _ Finishes.followed_null) = tt
FileEnds-NoGlobalEnum _ (FileEnds.ended _ Finishes.exited) = tt
FileEnds-NoGlobalEnum _ (FileEnds.ended _ (Finishes.cut_off c)) = tt

-- Where `Parse` of a file builds a tree from an empty one, with all that the file imports, the symbol
-- table of that tree finds no enum of any name in the global namespace, whatever enums the files declare
-- at their tops.
pub parse-find_enum :
    (ops : FloatOps) (fs : FileSystem) (incs : List Text) (depth : ℕ) (filename : Text)
    (top : Global) (s : State)
    → parse ops fs incs depth filename new_global ≡ FileResult.ended (done (some top) s)
    → (name : Text) → find_enum (initialize top).1 name none ≡ none
parse-find_enum ops fs incs depth filename top s e name = find_enum-none top name (
    subst NoGlobalEnum e (
      FileEnds-NoGlobalEnum _
        (parse-FileEnds ops fs incs depth filename new_global new_global-GlobalValid)))
