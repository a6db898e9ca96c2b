-- ===== src/Tests/Logging.antt =====
-- A test that logs, shows its progress and fails.
use cilium_cli.Prelude.{◌≡◌, List, [], ◌∷◌, true, false, any}
use cilium_cli.Logging.{LogParameters, Call, log, debug, progress, fail, headerf, calls, new_log}
use cilium_cli.Logging.Marked.{fails}
use cilium_cli.Logging.Order.{Logged, transcript, new_log-calls-Logged}

abbrev params : LogParameters
params = record { verbose = false; debug = false; timestamp = true }

abbrev some_calls : List Call
some_calls =
    log "[12:00] " "first"
    ∷ progress
    ∷ debug "[12:01] " "hidden"
    ∷ headerf "header"
    ∷ fail "[12:02] " "refused"
    ∷ log "[12:03] " "last"
    ∷ []

new_log-calls-Logged_example :
    Logged params (transcript params some_calls) (calls params some_calls (new_log params))
    × ((calls params some_calls (new_log params)).failed ≡ any (fails params) some_calls)
new_log-calls-Logged_example = new_log-calls-Logged params some_calls
