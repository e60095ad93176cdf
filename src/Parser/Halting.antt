-- ===== src/Parser/Halting.antt =====
-- How the methods of src/Parser.cpp that return a pointer end: with what they have built, or with a
-- null pointer and an error.
use cbuf.Base.{
  ℕ, suc, ◌<◌, ◌≡◌, refl, Bool, true, false, Option, none, some, List, if◌then◌else◌, length, arith,
  if-cases,
}
use cbuf.Token.{Token}
use cbuf.Parser.{
  State, Outcome, done, assertion, undefined, null_expression, Parses, bind, ◌>>◌, error,
}
use cbuf.Parser.Streams.{Stream, Ready, Taken, After, Settles}
use cbuf.Parser.Elements.{refuse, get_location}

-- A result as `P` says, a failed assert, a step that C++ gives no meaning, or a null expression that is
-- followed.
pub data Halts {ℓ} {A : Type ℓ} (P : A → State → Type 0) : Outcome A → Type ℓ where
  halted : (a : A) (s : State) → P a s → Halts P (done a s)
  stopped : Halts P assertion
  meaningless : Halts P undefined
  followed_null : Halts P null_expression

-- What has been built is as `W` says, and the stream is still open; or there was an error.
pub data Parsed {A : Type 0} (W : A → Type 0) (n : ℕ) : Option A → State → Type 0 where
  parsed : (a : A) (s : State) → W a → Stream s.rest → length s.rest < n → Parsed W n (some a) s
  given_up : (s : State) → s.success ≡ false → After n s → Parsed W n none s

module _ {A B : Type 0} (P : A → State → Type 0) (Q : B → State → Type 0) where
  pub bind-Halts :
      (o : Outcome A) (f : A → Parses B)
      → Halts P o
      → ((a : A) (s : State) → P a s → Halts Q (f a s))
      → Halts Q (bind o f)
  bind-Halts _ f (Halts.halted a s p) h = h a s p
  bind-Halts _ f Halts.stopped h = Halts.stopped
  bind-Halts _ f Halts.meaningless h = Halts.meaningless
  bind-Halts _ f Halts.followed_null h = Halts.followed_null

  pub bind-Settles-Halts :
      (o : Outcome A) (f : A → Parses B)
      → Settles P o
      → ((a : A) (s : State) → P a s → Halts Q (f a s))
      → Halts Q (bind o f)
  bind-Settles-Halts _ f (Settles.settled a s p) h = h a s p
  bind-Settles-Halts _ f Settles.asserted h = Halts.stopped

module _ {A : Type 0} (P : A → State → Type 0) where
  pub if-Halts :
      (c : Bool) (p q : Parses A) (s : State)
      → (c ≡ true → Halts P (p s))
      → (c ≡ false → Halts P (q s))
      → Halts P ((if c then p else q) s)
  if-Halts c p q s h k = if-cases {A = Parses A} (λ r. Halts P (r s)) c h k

  pub located-Halts :
      (p : Parses A) (ts : List Token) (ok : Bool)
      → Taken ts
      → Halts P (p (record { rest = ts; success = ok }))
      → Halts P ((get_location >> p) (record { rest = ts; success = ok }))
  unfolding get_location
  located-Halts p _ ok (Taken.taken u us st rd) h = h

module _ {A : Type 0} (W : A → Type 0) (n : ℕ) where
  pub refuse-Halts :
      (ts : List Token) (ok : Bool)
      → Ready ts false
      → length ts < n
      → Halts (Parsed W n) (refuse (record { rest = ts; success = ok }))
  unfolding error
  refuse-Halts _ ok (Ready.reading _ _ (Stream.ended e l)) h =
      Halts.halted _ _ (Parsed.given_up _ refl (Ready.reading _ _ (Stream.ended e l), h))
  refuse-Halts _ ok (Ready.reading _ _ (Stream.next t ts l s)) h =
      Halts.halted _ _ (Parsed.given_up _ refl (Ready.reading _ _ (Stream.next t ts l s), h))
  refuse-Halts _ ok (Ready.over e l) h =
      Halts.halted _ _ (Parsed.given_up _ refl (Ready.over e l, h))

  pub Parsed-suc : (o : Outcome (Option A)) → Halts (Parsed W n) o → Halts (Parsed W (suc n)) o
  Parsed-suc _ (Halts.halted _ _ (Parsed.parsed a s w st l)) =
      Halts.halted _ _ (Parsed.parsed a s w st (omega arith))
  Parsed-suc _ (Halts.halted _ _ (Parsed.given_up s f a)) =
      Halts.halted _ _ (Parsed.given_up s f (a.0, omega (arith, a.1)))
  Parsed-suc _ Halts.stopped = Halts.stopped
  Parsed-suc _ Halts.meaningless = Halts.meaningless
  Parsed-suc _ Halts.followed_null = Halts.followed_null
