-- ===== src/Parser/Finishing.antt =====
-- How a whole file that src/Parser.cpp parses may end, and what the steps between two declarations do to it.
use cbuf.Base.{
  ℕ, ◌<◌, ◌≡◌, refl, sym, ap, ◌∙◌, Bool, true, false, not, Option, none, some, List, if◌then◌else◌,
  length, arith, clash, if-cases,
}
use cbuf.Token.{Token}
use cbuf.Ast.Declarations.{Text, Global}
use cbuf.Parser.{
  State, Outcome, done, assertion, undefined, null_expression, exits, out_of_fuel, Parses, bind,
  ◌>>◌, pure, error, succeeded,
}
use cbuf.Parser.Streams.{Stream, Ready}
use cbuf.Parser.Halting.{Halts, Parsed}
use cbuf.Parser.Namespaces.{declared}
use cbuf.Parser.Files.{FileResult, note_import, or_else, imported, go_on}
use cbuf.Parser.Trees.{GlobalValid}

-- A result as `P` says, or one of the ways in which the program may stop; or, where `Cut` holds, the fuel
-- for imports has run out
pub data Finishes {ℓ} (Cut : Type 0) {A : Type ℓ} (P : A → State → Type 0)
    : Outcome A → Type ℓ where
  finished : (a : A) (s : State) → P a s → Finishes Cut P (done a s)
  stopped : Finishes Cut P assertion
  meaningless : Finishes Cut P undefined
  followed_null : Finishes Cut P null_expression
  exited : Finishes Cut P exits
  cut_off : Cut → Finishes Cut P out_of_fuel

module _ {Cut A B : Type 0} (P : A → State → Type 0) (Q : B → State → Type 0) where
  pub bind-Finishes :
      (o : Outcome A) (f : A → Parses B)
      → Finishes Cut P o
      → ((a : A) (s : State) → P a s → Finishes Cut Q (f a s))
      → Finishes Cut Q (bind o f)
  bind-Finishes _ f (Finishes.finished a s p) h = h a s p
  bind-Finishes _ f Finishes.stopped h = Finishes.stopped
  bind-Finishes _ f Finishes.meaningless h = Finishes.meaningless
  bind-Finishes _ f Finishes.followed_null h = Finishes.followed_null
  bind-Finishes _ f Finishes.exited h = Finishes.exited
  bind-Finishes _ f (Finishes.cut_off c) h = Finishes.cut_off c

  pub bind-Halts-Finishes :
      (o : Outcome A) (f : A → Parses B)
      → Halts P o
      → ((a : A) (s : State) → P a s → Finishes Cut Q (f a s))
      → Finishes Cut Q (bind o f)
  bind-Halts-Finishes _ f (Halts.halted a s p) h = h a s p
  bind-Halts-Finishes _ f Halts.stopped h = Finishes.stopped
  bind-Halts-Finishes _ f Halts.meaningless h = Finishes.meaningless
  bind-Halts-Finishes _ f Halts.followed_null h = Finishes.followed_null

pub if-Finishes :
    {Cut A : Type 0} (P : A → State → Type 0) (c : Bool) (p q : Parses A) (s : State)
    → (c ≡ true → Finishes Cut P (p s))
    → (c ≡ false → Finishes Cut P (q s))
    → Finishes Cut P ((if c then p else q) s)
if-Finishes {Cut} {A} P c p q s h k = if-cases {A = Parses A} (λ r. Finishes Cut P (r s)) c h k

-- A valid tree, or an error
pub data Built : Option Global → State → Type 0 where
  built : (top : Global) (s : State) → GlobalValid top → Built (some top) s
  failed : (s : State) → s.success ≡ false → Built none s

-- How the `Parse` of a file ends
pub data FileEnds (Cut : Type 0) : FileResult → Type 0 where
  unopened : FileEnds Cut FileResult.unopened
  ended : (o : Outcome (Option Global)) → Finishes Cut Built o → FileEnds Cut (FileResult.ended o)

abbrev pub Imports : Type 0
Imports = Text → Global → FileResult

abbrev pub ImportsEnd : Type 0 → Imports → Type 0
ImportsEnd Cut import =
    (path : Text) (top : Global) → GlobalValid top → FileEnds Cut (import path top)

-- Behind `parseImport`: where it succeeded, the stream is still open.
abbrev pub Imported : ℕ → Global → State → Type 0
Imported n top s = GlobalValid top × (s.success ≡ true → Stream s.rest × (length s.rest < n))

-- A run that goes on from a valid tree and less than `n` tokens
abbrev pub Continues : Type 0 → ℕ → (Global → Parses (Option Global)) → Type 0
Continues Cut n again =
    (top : Global)
    → GlobalValid top
    → (ts : List Token) (ok : Bool) → Stream ts
    → length ts < n
    → Finishes Cut Built (again top (record { rest = ts; success = ok }))

note_import-GlobalValid :
    (name : Text) (top : Global) → GlobalValid top → GlobalValid (note_import name top)
unfolding note_import
note_import-GlobalValid name top v = record {
  distinct = v.distinct;
  spaces_valid = v.spaces_valid;
  enums_valid = v.enums_valid;
  consts_valid = v.consts_valid;
  global_valid = v.global_valid;
  no_global_enum = v.no_global_enum;
}

pub declared-Finishes :
    {Cut A : Type 0} (W : A → Type 0) (n : ℕ) (again : Global → Parses (Option Global))
    → Continues Cut n again
    → (f : A → Global) → ((a : A) → W a → GlobalValid (f a))
    → (o : Option A) (s : State) → Parsed W n o s
    → Finishes Cut Built (declared (λ a. again (f a)) o s)
unfolding declared succeeded
declared-Finishes W n again h f v _ s (Parsed.given_up _ k a) =
    if-Finishes Built (not s.success) _ _ _ (λ _. Finishes.finished _ _ (Built.failed s k))
      λ g. clash true refl (ap (λ b. not b) (sym k) ∙ g)
declared-Finishes W n again h f v _ s (Parsed.parsed a _ w st len) =
    if-Finishes Built (not s.success) _ _ _
      (λ g. Finishes.finished _ _ (Built.failed s (ground arith)))
      λ g. h (f a) (v a w) s.rest s.success st len

pub go_on-Finishes :
    {Cut : Type 0} (n : ℕ) (again : Global → Parses (Option Global))
    → Continues Cut n again
    → (top : Global) (s : State) → Imported n top s
    → Finishes Cut Built (go_on again top s)
unfolding go_on succeeded
go_on-Finishes n again h top s (v, k) =
    if-Finishes Built (not s.success) _ _ _
      (λ g. Finishes.finished _ _ (Built.failed s (ground arith)))
      λ g.
        let open_stream = k (ground arith) in h top v s.rest s.success open_stream.0 open_stream.1

pub error-Finishes :
    {Cut : Type 0} (n : ℕ) (top : Global)
    → GlobalValid top
    → (ts : List Token) (ok : Bool) → Ready ts false
    → Finishes Cut (Imported n) ((error >> pure top) (record { rest = ts; success = ok }))
unfolding error
error-Finishes n top v _ ok (Ready.reading _ _ (Stream.ended e l)) =
    Finishes.finished top _ (v, λ k. clash false k refl)
error-Finishes n top v _ ok (Ready.reading _ _ (Stream.next t ts l s)) =
    Finishes.finished top _ (v, λ k. clash false k refl)
error-Finishes n top v _ ok (Ready.over e l) = Finishes.finished top _ (v, λ k. clash false k refl)

pub imported-Finishes :
    {Cut : Type 0} (n : ℕ) (name : Text) (top : Global)
    → GlobalValid top
    → (s : State) → Stream s.rest
    → length s.rest < n
    → (r : FileResult) → FileEnds Cut r
    → Finishes Cut (Imported n) (imported name top r s)
unfolding imported
imported-Finishes n name top v s st len _ FileEnds.unopened = Finishes.meaningless
imported-Finishes n name top v s st len _ (FileEnds.ended o h) =
    bind-Finishes Built (Imported n) o _ h λ r t b.
      Finishes.finished _ _
        (note_import-GlobalValid name (or_else r top) (tree r t b), λ _. (st, len))
  where
    tree : (r : Option Global) (t : State) → Built r t → GlobalValid (or_else r top)
    tree _ t (Built.built top' _ w) = w
    tree _ t (Built.failed _ k) = v
