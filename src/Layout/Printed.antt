-- ===== src/Layout/Printed.antt =====
-- The text of a struct that `compute_hash` of src/CBufParser.cpp takes the hash of, and that hash, written
-- out apart from the code's own steps.
use cbuf.Base.{
  ℕ, zero, suc, Bool, ◌+◌, ◌-◌, ◌*◌, ◌/◌, ◌%◌, ◌^◌, ◌≡◌, refl, sym, ap, ◌∙◌, true, false, ltb, ◌==◌,
  Option, none, some, [], ◌∷◌, ◌++◌, if◌then◌else◌, arith,
}
use mathlib.Core.List.{append-nil, append_assoc}
use cbuf.Base.Texts.{bytes}
use cbuf.Ast.{ElementType}
use cbuf.Ast.Declarations.{Text, same_text, Element}
use cbuf.Layout.Hashes.{
  digits, hexadecimal_text, hash_from, hash, type_name, header_text, suffix_text, built_in_text,
  custom_text,
}

-- The sign of a digit
abbrev pub sign : ℕ → ℕ
sign d = if ltb d 10 then 48 + d else 55 + d

-- A number in a base, its last digit behind the others, with so many digits at most
pub numeral : ℕ → ℕ → ℕ → Text
numeral zero base n = []
numeral (suc room) base n =
    (if n / base == 0 then [] else numeral room base (n / base)) ++ (sign (n % base) ∷ [])

-- The words for the built in types
abbrev pub type_word : ElementType → Option Text
type_word ElementType.bool = some (bytes "bool")
type_word ElementType.s8 = some (bytes "int8_t")
type_word ElementType.u8 = some (bytes "uint8_t")
type_word ElementType.s16 = some (bytes "int16_t")
type_word ElementType.u16 = some (bytes "uint16_t")
type_word ElementType.s32 = some (bytes "int32_t")
type_word ElementType.u32 = some (bytes "uint32_t")
type_word ElementType.s64 = some (bytes "int64_t")
type_word ElementType.u64 = some (bytes "uint64_t")
type_word ElementType.f32 = some (bytes "float")
type_word ElementType.f64 = some (bytes "double")
type_word ElementType.string = some (bytes "std::string")
type_word ElementType.short_string = some (bytes "VString<15>")
type_word ElementType.custom = none

-- `struct space::name`, without the space in the global namespace
abbrev pub title : Text → Text → Text
title space name =
    if same_text space (bytes "__global_namespace")
    then bytes "struct " ++ name ++ bytes " \n"
    else bytes "struct " ++ space ++ bytes "::" ++ name ++ bytes " \n"

-- `[size] type name`, and what ends the line
abbrev pub line : Option ℕ → Text → Text → Text → Text
line none type name ending = type ++ bytes " " ++ name ++ ending
line (some size) type name ending =
    bytes "[" ++ numeral 20 10 size ++ bytes "] " ++ type ++ bytes " " ++ name ++ ending

-- 33 times the hash so far and the next byte, from 5381 on and up to a zero, modulo 2 ^ 64
pub djb2 : ℕ → Text → ℕ
djb2 h [] = h
djb2 h (c ∷ text) = if c == 0 then h else djb2 ((33 * h + c) % 2 ^ 64) text

digit-sign : (d : ℕ) → (if ltb d 10 then b'0' + d else b'A' + d - 10) ≡ sign d
digit-sign d = ground arith

digits-numeral :
    (room base n : ℕ) (text : Text) → digits room base n text ≡ numeral room base n ++ text
unfolding digits numeral
digits-numeral zero base n text = refl
digits-numeral (suc room) base n text =
    ap (λ s. if n / base == 0 then s ∷ text else digits room base (n / base) (s ∷ text))
      (digit-sign (n % base))
    ∙ by_rest (n / base == 0) (digits-numeral room base (n / base) (sign (n % base) ∷ text))
  where
    by_rest :
        (b : Bool)
        → digits room base (n / base) (sign (n % base) ∷ text)
          ≡ numeral room base (n / base) ++ (sign (n % base) ∷ text)
        → (if b
            then sign (n % base) ∷ text
            else digits room base (n / base) (sign (n % base) ∷ text))
          ≡ ((if b then [] else numeral room base (n / base)) ++ (sign (n % base) ∷ [])) ++ text
    by_rest true h = refl
    by_rest false h =
        h ∙ sym (append_assoc (numeral room base (n / base)) (sign (n % base) ∷ []) text)

decimal-numeral : (n : ℕ) → digits 20 10 n [] ≡ numeral 20 10 n
decimal-numeral n = digits-numeral 20 10 n [] ∙ append-nil (numeral 20 10 n)

pub hexadecimal-numeral : (n : ℕ) → hexadecimal_text n ≡ numeral 16 16 n
hexadecimal-numeral n = digits-numeral 16 16 n [] ∙ append-nil (numeral 16 16 n)

pub type_name-word : (type : ElementType) → type_name type ≡ type_word type
unfolding type_name
type_name-word ElementType.custom = refl
type_name-word _ = refl

pub header_text-title : (space name : Text) → header_text space name ≡ title space name
unfolding header_text
header_text-title space name = by_space (same_text space (bytes "__global_namespace"))
  where
    by_space :
        (b : Bool)
        → bytes "struct " ++ (if b then [] else space ++ bytes "::") ++ name ++ bytes " \n" ≡ (
            if b
            then bytes "struct " ++ name ++ bytes " \n"
            else bytes "struct " ++ space ++ bytes "::" ++ name ++ bytes " \n")
    by_space true = refl
    by_space false = refl

suffix_text-line :
    (size : Option ℕ) (type name ending : Text)
    → suffix_text size ++ type ++ bytes " " ++ name ++ ending ≡ line size type name ending
suffix_text-line none type name ending = refl
suffix_text-line (some size) type name ending =
    ap (λ d. bytes "[" ++ d ++ bytes "] " ++ type ++ bytes " " ++ name ++ ending)
      (decimal-numeral size)

pub built_in_text-line :
    (type : Text) (elem : Element)
    → built_in_text type elem ≡ line elem.array_suffix type elem.name (bytes "; \n")
built_in_text-line type elem = suffix_text-line elem.array_suffix type elem.name (bytes "; \n")

pub custom_text-line :
    (type : Text) (elem : Element)
    → custom_text type elem ≡ line elem.array_suffix type elem.name (bytes ";\n")
custom_text-line type elem = suffix_text-line elem.array_suffix type elem.name (bytes ";\n")

hash_from-djb2 : (h : ℕ) (text : Text) → hash_from h text ≡ djb2 h text
unfolding hash_from djb2
hash_from-djb2 h [] = refl
hash_from-djb2 h (c ∷ text) =
    ap (λ r. if c == 0 then h else r)
      (hash_from-djb2 ((h * 2 ^ 5 % 2 ^ 64 + h + c) % 2 ^ 64) text
        ∙ ap (λ n. djb2 n text) (omega arith))

pub hash-djb2 : (text : Text) → hash text ≡ djb2 5381 text
unfolding hash
hash-djb2 text = hash_from-djb2 5381 text
