-- ===== src/Ast/Texts.antt =====
-- `same_text`, the `!strcmp` of src/, is equality.
use cbuf.Base.{◌≡◌, refl, ap₂, Bool, true, false, ◌&&◌, ◌==◌, ==_iff, [], ◌∷◌, arith, clash}
use cbuf.Ast.Declarations.{Text, same_text}

and_left : (a b : Bool) → a && b ≡ true → a ≡ true
and_left a b h = ground arith

and_right : (a b : Bool) → a && b ≡ true → b ≡ true
and_right a b h = ground arith

pub same_text-eq : (s t : Text) → same_text s t ≡ true → s ≡ t
unfolding same_text
same_text-eq [] [] h = refl
same_text-eq [] (b ∷ t) h = clash false h refl
same_text-eq (a ∷ s) [] h = clash false h refl
same_text-eq (a ∷ s) (b ∷ t) h =
    ap₂ (λ x y. x ∷ y) ((==_iff a b).0 (and_left (a == b) (same_text s t) h))
      (same_text-eq s t (and_right (a == b) (same_text s t) h))

pub same_text_refl : (s : Text) → same_text s s ≡ true
unfolding same_text
same_text_refl [] = refl
same_text_refl (a ∷ s) = ground (arith, same_text_refl s)

pub same_text-sym : (s t : Text) → same_text s t ≡ same_text t s
unfolding same_text
same_text-sym [] [] = refl
same_text-sym [] (b ∷ t) = refl
same_text-sym (a ∷ s) [] = refl
same_text-sym (a ∷ s) (b ∷ t) = ground (arith, same_text-sym s t)
