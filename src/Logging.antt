-- ===== src/Logging.antt =====
-- connectivity/check/logging.go: what a test logs is kept in its buffer until the test fails.
pub mod Marked
pub mod Order
use cilium_cli.Prelude.{
  String, Option, none, some, List, [], ◌∷◌, ◌++◌, Bool, true, false, ◌==◌, string_eq,
  if◌then◌else◌,
}

-- a piece that is written: the test's own text, or a header, a progress dot and the line's end after it
pub data Piece : Type 0 where
  own header : String → Piece
  dot newline : Piece

-- The buffer of a test, what has been written to the suite's writer, and the mark of a failure.
pub record TestLog : Type 0 where
  pub buffer : Option (List Piece)
  pub written : List Piece
  pub failed : Bool

-- the suite's parameters
pub record LogParameters : Type 0 where
  pub verbose : Bool
  pub debug : Bool
  pub timestamp : Bool

-- A call of a test's output methods, with the time as it is printed. The f-variants give the message
-- as it is formatted.
pub data Call : Type 0 where
  log logf debug debugf info infof fail failf fatal fatalf : String → String → Call
  headerf : String → Call
  progress : Call

abbrev pub test_prefix : String
test_prefix = "  "

abbrev pub debug_sign : String
debug_sign = "🐛"

abbrev pub info_sign : String
info_sign = "ℹ\u{fe0f} "

abbrev pub fail_sign : String
fail_sign = "❌"

abbrev pub fatal_sign : String
fatal_sign = "🟥"

abbrev pub write : List Piece → TestLog → TestLog
write pieces t = elim t.buffer [
  | none ↦ record t { written = t.written ++ pieces }
  | some b ↦ record t { buffer = some (b ++ pieces) }
]

module _ (params : LogParameters) where
  abbrev pub stamped : String → List Piece → List Piece
  stamped time pieces = if params.timestamp then own time ∷ pieces else pieces

  -- the pieces of `log` and of `logf`
  abbrev pub line : String → String → String → List Piece
  line time prefix message = stamped time (
      own test_prefix
      ∷ (if prefix == ""
          then own message ∷ own "\n" ∷ []
          else own prefix ∷ own " " ∷ own message ∷ own "\n" ∷ []))

  -- `log` and `logf` of the package
  abbrev pub put : String → String → String → TestLog → TestLog
  put time prefix message = write (line time prefix message)

  -- `flush`
  abbrev pub flush : TestLog → TestLog
  flush t = elim t.buffer [
    | none ↦ t
    | some b ↦ record t { buffer = none; written = (t.written ++ newline ∷ []) ++ b }
  ]

  abbrev pub mark : TestLog → TestLog
  mark t = record t { failed = true }

  abbrev pub put_failure : String → String → String → TestLog → TestLog
  put_failure time prefix message t = put time prefix message (flush (mark t))

  abbrev pub show_progress : TestLog → TestLog
  show_progress t = elim t.buffer [
    | none ↦ t
    | some b ↦ record t { written = t.written ++ dot ∷ [] }
  ]

  -- one call
  unfoldable pub call : Call → TestLog → TestLog
  call (log time message) = put time "" message
  call (logf time message) = put time "" message
  call (debug time message) = λ t. if params.debug then put time debug_sign message t else t
  call (debugf time message) = λ t. if params.debug then put time debug_sign message t else t
  call (info time message) = put time info_sign message
  call (infof time message) = put time info_sign message
  call (fail time message) = put_failure time fail_sign message
  call (failf time message) = put_failure time fail_sign message
  call (fatal time message) = put_failure time fatal_sign message
  call (fatalf time message) = put_failure time fatal_sign message
  call (headerf message) = λ t. record t { written = t.written ++ header message ∷ [] }
  call progress = show_progress

  unfoldable pub calls : List Call → TestLog → TestLog
  calls [] t = t
  calls (c ∷ cs) t = calls cs (call c t)

  -- `NewTest` of the suite
  abbrev pub new_log : TestLog
  new_log = record {
    buffer = if params.verbose then none else if params.debug then none else some [];
    written = [];
    failed = false;
  }
