-- ===== src/Examples/Shared.antt =====
-- The shared limits and the terminals at concrete inputs.
use wispurr.Base.{ℕ, ◌^◌, ◌*◌, ◌≡◌, refl, List, [], ◌∷◌, none, true, false, arith}
use wispurr.Runtime.{RuntimeConfig, build_globals, stats, word}
use wispurr.Runtime
use wispurr.Runtime.Maintenance.{Event, asks, maintains, answers, asks_of}
use wispurr.Runtime.Answers.{answers-asks_of}
use wispurr.Runtime.Totals.{no_traffic, book_all, stats-run}
use wispurr.Terminals.{TwispStream}
use wispurr.Terminals
use wispurr.Examples.Settings.{server}

abbrev settings : RuntimeConfig
settings = record {
  config = server;
  allow_loopback_ips = false;
  allow_private_ips = false;
  reputation = none;
}

-- Three calls for one destination, with rounds of maintenance between them.
abbrev calls : List Event
calls =
    asks Runtime.Maintenance.dest_min "target" 5
    ∷ maintains (60 * 10 ^ 9)
    ∷ asks Runtime.Maintenance.dest_min "target" (60 * 10 ^ 9)
    ∷ maintains (8000 * 10 ^ 9)
    ∷ asks Runtime.Maintenance.dest_sec "target" (8000 * 10 ^ 9)
    ∷ []

answers-asks_of_example :
    answers (build_globals settings 0) calls ≡ answers (build_globals settings 0) (asks_of calls)
answers-asks_of_example =
    answers-asks_of settings 0 calls (omega arith)
      (omega arith, (omega arith, (omega arith, (omega arith, (omega arith, tt)))))

-- Two connections, of which one ends.
abbrev traffic : List Runtime.Event
traffic =
    Runtime.begins 1
    ∷ Runtime.begins 2
    ∷ Runtime.carries 1 300 4000
    ∷ Runtime.ends 1
    ∷ Runtime.carries 2 7 8
    ∷ []

stats-run_example :
    let s = stats (Runtime.run (build_globals settings 0) traffic) 9 in
    (s.active_connections ≡ 1) × (s.ingress_bytes ≡ 307) × (s.egress_bytes ≡ 4008)
unfolding wispurr.Runtime.Traffic.has wispurr.Runtime.Totals.book wispurr.Runtime.Traffic.remove
stats-run_example = stats-run settings 0 9 traffic (refl, (refl, (tt, (tt, (tt, tt)))))

-- "sh", opened under the ids 4 and 5, where the first one is closed.
abbrev shell : List ℕ
shell = b's' ∷ b'h' ∷ []

abbrev sessions : List Terminals.Event
sessions =
    Terminals.starts 4 shell true
    ∷ Terminals.starts 5 shell true
    ∷ Terminals.adds 0
    ∷ Terminals.closes 4
    ∷ Terminals.adds 0
    ∷ Terminals.starts 5 shell true
    ∷ []

abbrev ended : TwispStream
ended = record { stream_id = 5; is_open = false; killed = true }

abbrev running : TwispStream
running = record { stream_id = 5; is_open = true; killed = false }
