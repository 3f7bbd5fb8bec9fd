-- ===== src/Examples/Streams.antt =====
-- Streams at concrete inputs.
use wispurr.Base.{◌≡◌, ◌≢◌, refl, List, [], ◌∷◌, true, false, arith}
use wispurr.Stream.State.{Stream, new_stream, panic, signal_conn_ready, dialing, flushing}
use wispurr.Stream.Packets.{
  Action, gives, connects, flushes, drains, shuts, act, run, give_data, abandons_now, data_packet,
  hold_back, connects_now, connected, run_connect_step, connect_step, flush_one, ready, after_queue,
  spend_credit,
}
use wispurr.Stream.Ingress.{
  run_ingress_step, runner_step, take_jobs, write_jobs, queue_ingress_owned, submit_ingress,
  enter_ingress, start_runner,
}
use wispurr.Stream.Invariant.{Inv}
use wispurr.Stream.Safety.{run-new_stream-Safe}
use wispurr.Stream.Races.{give_data-abandoned, Leaks, late_connect-Leaks}
use wispurr.Stream.Line.{line, all_given}
use wispurr.Stream.Order.{run-new_stream-line}
use wispurr.Stream.Forgotten.{Forgets, held_while_flushing-Forgets}

-- Two payloads before the target is connected, and one after, which the writer goroutine writes.
abbrev history : List Action
history =
    gives (1 ∷ 2 ∷ []) true false
    ∷ gives (3 ∷ []) true false
    ∷ connects 1
    ∷ flushes false
    ∷ flushes false
    ∷ flushes false
    ∷ gives (4 ∷ []) true false
    ∷ drains false
    ∷ drains false
    ∷ []

run-new_stream-Safe_example :
    Inv 64 (run 64 128 (new_stream 7) history)
    × ((act 64 128 (run 64 128 (new_stream 7) history) (gives (5 ∷ []) true true)).1 ≢ panic)
run-new_stream-Safe_example = run-new_stream-Safe 64 128 7 history (gives (5 ∷ []) true true)

run-new_stream-line_example : line (run 64 128 (new_stream 7) history) ≡ all_given history
unfolding new_stream act data_packet give_data hold_back connects_now connected run_connect_step
    connect_step flush_one ready after_queue spend_credit run_ingress_step runner_step take_jobs
    write_jobs queue_ingress_owned submit_ingress enter_ingress start_runner signal_conn_ready
run-new_stream-line_example = run-new_stream-line 64 128 7 history (
  (refl, refl),
  refl,
  (
    (refl, refl),
    refl,
    (
      tt,
      refl,
      (
        refl,
        refl,
        (refl, refl, (refl, refl, ((refl, refl), refl, (refl, refl, (refl, refl, tt))))),
      ),
    ),
  ),
)

give_data-abandoned_example :
    (give_data 64 128 (abandons_now dialing (new_stream 7) 0x42).0 (1 ∷ 2 ∷ []) true false).1
    ≡ panic
unfolding new_stream
give_data-abandoned_example =
    give_data-abandoned 64 128 (new_stream 7) 1 (2 ∷ []) true false 0x42 refl refl refl refl

late_connect-Leaks_example :
    Leaks (run 64 128 (new_stream 7) (shuts 2 ∷ connects 1 ∷ flushes false ∷ []))
unfolding new_stream
late_connect-Leaks_example =
    late_connect-Leaks 64 128 1 2 (new_stream 7) (flushes false ∷ []) refl refl

-- The target is connected, and nothing waits.
abbrev flushed : Stream
flushed = record (new_stream 7) { stream_type = 1; has_conn = true; connector = flushing [] }

held_while_flushing-Forgets_example : Forgets ((1 ∷ []) ∷ []) (
    run 64 128
      (run 64 128 flushed (gives (1 ∷ []) true false ∷ flushes false ∷ []))
      (gives (2 ∷ []) true false ∷ drains false ∷ []))
unfolding new_stream
held_while_flushing-Forgets_example =
    held_while_flushing-Forgets 64 128 flushed (1 ∷ []) true false
      (gives (2 ∷ []) true false ∷ drains false ∷ []) refl refl refl refl (omega arith)
