-- ===== src/ChainErrors.antt =====
-- packages/chain/chain-errors/src/index.ts: the two error classes, the patterns of a transient
-- failure, the classifier, the timeout and the retry loop.
pub mod Patterns
pub mod Classify
pub mod Retry
pub mod Timeout
use predictor_common.Prelude.Text.{Text, codes, is_space, lower}
use predictor_common.Prelude.{
  ℕ, zero, suc, ◌+◌, ◌-◌, ◌*◌, ◌^◌, Bool, true, false, ◌&&◌, ◌||◌, not, Option, none, some, List,
  [], ◌∷◌, ◌==◌, leb, if◌then◌else◌, any,
}

-- A thrown value: an error of one of the two classes, another `Error`, or any other value by its
-- `String(…)`. `caused` is a `RetryableError` that keeps what it was made from.
pub data Thrown : Type 0 where
  retryable : Text → Thrown
  caused : Text → Thrown → Thrown
  permanent : Text → Thrown
  error : Text → Thrown
  value : Text → Thrown

-- `instanceof RetryableError`.
abbrev pub is_retryable : Thrown → Bool
is_retryable (retryable m) = true
is_retryable (caused m e) = true
is_retryable (permanent m) = false
is_retryable (error m) = false
is_retryable (value m) = false

-- What the patterns are made of: a letter in either case, an optional letter, and `\s*`.
pub data Atom : Type 0 where
  chr : ℕ → Atom
  opt : ℕ → Atom
  blanks : Atom

abbrev pub literal : Text → List Atom
literal [] = []
literal (c ∷ s) = chr c ∷ literal s

abbrev pub same_letter : ℕ → ℕ → Bool
same_letter p c = lower p == lower c

-- A match at the front of the text.
pub match_here : List Atom → Text → Bool
match_here [] s = true
match_here (chr p ∷ ps) [] = false
match_here (chr p ∷ ps) (c ∷ s) = same_letter p c && match_here ps s
match_here (opt p ∷ ps) [] = match_here ps []
match_here (opt p ∷ ps) (c ∷ s) = match_here ps (c ∷ s) || (same_letter p c && match_here ps s)
match_here (blanks ∷ ps) [] = match_here ps []
match_here (blanks ∷ ps) (c ∷ s) =
    match_here ps (c ∷ s) || (is_space c && match_here (blanks ∷ ps) s)

-- `re.test(message)`.
pub test : List Atom → Text → Bool
test ps [] = match_here ps []
test ps (c ∷ s) = match_here ps (c ∷ s) || test ps s

abbrev pub transient_patterns : List (List Atom)
transient_patterns =
    literal (codes "disconnect")
    ∷ literal (codes "timeout")
    ∷ (chr b't' ∷ chr b'i' ∷ chr b'm' ∷ chr b'e' ∷ opt b'd' ∷ blanks ∷ literal (codes "out"))
    ∷ literal (codes "connection")
    ∷ literal (codes "not connected")
    ∷ literal (codes "socket")
    ∷ literal (codes "network")
    ∷ literal (codes "websocket")
    ∷ literal (codes "unavailable")
    ∷ (chr b'n' ∷ chr b'o' ∷ chr b't' ∷ blanks ∷ literal (codes "ready"))
    ∷ literal (codes "ECONNREFUSED")
    ∷ literal (codes "ECONNRESET")
    ∷ literal (codes "ETIMEDOUT")
    ∷ literal (codes "EAI_AGAIN")
    ∷ []

unfoldable pub is_transient : Text → Bool
unfolding test match_here
is_transient message = any (λ re. test re message) transient_patterns

unfoldable pub classify : Thrown → Thrown
classify (retryable m) = retryable m
classify (caused m e) = caused m e
classify (permanent m) = permanent m
classify (error m) = if is_transient m then caused m (error m) else error m
classify (value m) = if is_transient m then caused m (value m) else error m

-- How an asynchronous call settles.
pub data Outcome (A : Type 0) : Type 0 where
  returned : A → Outcome A
  threw : Thrown → Outcome A
