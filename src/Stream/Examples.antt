-- ===== src/Stream/Examples.antt =====
-- A stream over a supervised run at concrete rounds.
use ocspcrltesting.Schema.{log_line}
use ocspcrltesting.Jobs.{RunStore, append_event}
use ocspcrltesting.Stream.{Round, event_stream}
use ocspcrltesting.Stream.Order.{HasUniqueSeqs}
use ocspcrltesting.Stream.Delivery.{IsDelivery, event_stream-IsDelivery}
use ocspcrltesting.Samples.{store}
use ocspcrltesting.Prelude.{[], ◌∷◌, List, arith}

abbrev first_log : RunStore
first_log = append_event "r1" "log" (log_line "INFO" "started") store

abbrev second_log : RunStore
second_log = append_event "r1" "log" (log_line "INFO" "working") first_log

abbrev rounds : List Round
rounds =
    record { page = first_log; status = first_log; flush = first_log }
    ∷ record { page = second_log; status = second_log; flush = second_log }
    ∷ []

first_log_unique : HasUniqueSeqs "r1" first_log
unfolding append_event ocspcrltesting.Jobs.get_run ocspcrltesting.Jobs.update_run
first_log_unique n = ground arith

second_log_unique : HasUniqueSeqs "r1" second_log
unfolding append_event ocspcrltesting.Jobs.get_run ocspcrltesting.Jobs.update_run
second_log_unique n = ground arith

event_stream-IsDelivery_example : IsDelivery "r1" 0 (event_stream "r1" 0 rounds)
event_stream-IsDelivery_example =
    event_stream-IsDelivery "r1" 0 rounds
      ((first_log_unique, first_log_unique), ((second_log_unique, second_log_unique), tt))
