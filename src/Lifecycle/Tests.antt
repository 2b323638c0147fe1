-- ===== src/Lifecycle/Tests.antt =====
-- A history of one notification, and the theorems on histories applied to it.
use push_it_server.Prelude.{false, none, some, List, [], ◌∷◌, arith}
use push_it_server.Samples.{store_one, env_one}
use push_it_server.Creation.{postgresql, Draft}
use push_it_server.Lifecycle.{IsConsistent, Steps}
use push_it_server.Lifecycle.Operations.{table}
use push_it_server.Lifecycle.History.{
  Op, creates, sends, starts_and_dies, requeues, dispatches, run, run-Steps, run-IsConsistent,
}

abbrev later : Draft
later = record {
  application = 1;
  title = "Later";
  message = "Tomorrow";
  scheduled_for = some 5000;
  idempotency_key = "";
  request_fingerprint = "";
  created_at = 10;
}

-- a notification is created for later, the worker that takes the first one is killed, the watchdog
-- gives it back, and another worker sends it
abbrev day_of_trouble : List Op
day_of_trouble =
    creates postgresql (λ n. none) later
    ∷ starts_and_dies env_one 7
    ∷ requeues 15 2000000000
    ∷ sends env_one 7
    ∷ dispatches 6000 (λ id. false)
    ∷ []

store_one-IsConsistent : IsConsistent (table store_one)
store_one-IsConsistent = record {
  keyed = (omega arith, tt);
  sound = (record { started = λ e. cc; planned = λ e. cc; stamped = λ e. cc }, tt);
}

run-Steps_example : Steps (table store_one) (table (run day_of_trouble store_one))
run-Steps_example = run-Steps day_of_trouble store_one store_one-IsConsistent

run-IsConsistent_example : IsConsistent (table (run day_of_trouble store_one))
run-IsConsistent_example = run-IsConsistent day_of_trouble store_one store_one-IsConsistent
