-- ===== src/Types/GoError.antt =====
-- Go errors as chains of messages, and errorIsString of types.go.
use text.Mathlib.Text.{◌==◌ as str_eq}
use evm_firehose_tracer_go.Prelude.{Bool, false, Option, none, some, String, ◌||◌}

-- An error's message, and what `errors.Unwrap` gives of it.
pub data GoError : Type 0 where
  leaf : String → GoError
  wrapped : String → GoError → GoError

abbrev pub message : GoError → String
message (leaf m) = m
message (wrapped m e) = m

-- The walk down the chain from an error that is not nil.
unfoldable pub chain_is_string : GoError → String → Bool
chain_is_string (leaf m) target = str_eq m target
chain_is_string (wrapped m e) target = str_eq m target || chain_is_string e target

unfoldable pub error_is_string : Option GoError → String → Bool
unfolding chain_is_string
error_is_string none target = false
error_is_string (some e) target = chain_is_string e target
