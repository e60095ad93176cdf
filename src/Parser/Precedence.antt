-- ===== src/Parser/Precedence.antt =====
-- How `parseBinOpExpressionRecursive` of src/Parser.cpp groups a chain of operators between numbers.
use cbuf.Base.{ℕ, ◌≡◌, Bool, false, List, ◌∷◌}
use cbuf.Token.{Token}
use cbuf.Evaluate.{FloatOps}
use cbuf.Parser.{State}
use cbuf.Parser.Types.{is_bin_operator}
use cbuf.Parser.Products.{Operator, chain_tokens}
use cbuf.Parser.Turns.{at}

module _ (ops : FloatOps) (ok : Bool) where
  module _ (stop : Token) (after : List Token)
      (no_operator : is_bin_operator stop.type ≡ false) where
    abbrev chain_at : List (Operator × ℕ) → State
    chain_at chain = at ops ok (chain_tokens chain (stop ∷ after))
