-- ===== src/Dial/Syns.antt =====
-- The semaphore of dials under way.
use wispurr.Base.{
  List, ℕ, ◌≡◌, refl, Bool, true, false, ◌||◌, not, Option, none, some, ◌==◌, String, arith,
  if_intro, ap, zero, suc,
}
use wispurr.Egress.{ok}
use wispurr.Semaphore
use wispurr.Semaphore.{Semaphore}
use wispurr.Base.Int.{ℤ, pos, negsuc, ◌+ℤ◌}
use wispurr.SlidingWindow
use wispurr.Protocol.StreamType.{tcp}
use wispurr.Dial.{
  Net, DialConfig, Globals, Decision, refuses, dials, resolve, take_syn, ask_reputation,
  after_minute, ask_minute, report_burst, after_second, ask_second, decide_on, decide, add_source,
  is_strict, release_syn,
}

back : (n : ℤ) → (n +ℤ pos 1) +ℤ negsuc 0 ≡ n
back (pos n) = ground arith
back (negsuc zero) = refl
back (negsuc (suc n)) = ground arith

-- A semaphore that was taken and is given back.
released_on :
    (s t : Semaphore) → Semaphore.try_acquire_on s ≡ (t, true) → Semaphore.release_on t ≡ s
unfolding Semaphore.try_acquire_on Semaphore.release_on
released_on s t e = ground (arith, back s.current)

some_pair :
    (q : Semaphore × Bool) (t : Semaphore)
    → ◌≡◌ {A = Option Semaphore × Bool} (some q.0, q.1) (some t, true)
    → q ≡ (t, true)
some_pair (s, ok) t e = cc

released : (s t : Option Semaphore) → Semaphore.try_acquire s ≡ (t, true) → Semaphore.release t ≡ s
unfolding Semaphore.try_acquire Semaphore.release
released none none e = refl
released none (some t) e = cc
released (some s) none e = cc
released (some s) (some t) e =
    ap some (released_on s t (some_pair (Semaphore.try_acquire_on s) t e))

module _ (net : Net) where
  -- The limits refuse the target or keep it, and the semaphore is taken for a dial over TCP alone.
  abbrev pub Settles : Option Semaphore → ℕ → List ℕ → Globals × Decision → Type 0
  Settles syns stream_type target (g, refuses reason blames) = g.in_flight_syns ≡ syns
  Settles syns stream_type target (g, dials t) =
      (t ≡ target)
      × ((stream_type == tcp) ≡ true → Semaphore.try_acquire syns ≡ (g.in_flight_syns, true))
      × ((stream_type == tcp) ≡ false → g.in_flight_syns ≡ syns)

  take_syn-Settles :
      (cfg : DialConfig) (g : Globals) (stream_type : ℕ) (target : List ℕ)
      → Settles g.in_flight_syns stream_type target (take_syn net cfg g stream_type target)
  unfolding take_syn
  take_syn-Settles cfg g stream_type target =
      let P = Settles g.in_flight_syns stream_type target in
      let q = Semaphore.try_acquire g.in_flight_syns in
      if_intro P (stream_type == tcp) _ _
        (λ e.
          if_intro P q.1 _ _
            (λ k. (refl, λ n. ap (λ b. (q.0, b)) k, λ n. absurd (ground (arith, e, n))))
            (λ k. refl))
        (λ e.
          if_intro P (cfg.proxy || not cfg.allow_udp) _ _ (λ k. refl)
            (λ k. (refl, λ n. absurd (ground (arith, e, n)), λ n. refl)))

  reputation-Settles :
      (cfg : DialConfig) (g : Globals) (stream_type : ℕ) (target : List ℕ) (port : ℕ)
      (remote_ip : String) (now : ℕ)
      → Settles g.in_flight_syns stream_type target
          (ask_reputation net cfg g stream_type target port remote_ip now)
  unfolding ask_reputation add_source
  reputation-Settles cfg g stream_type target port remote_ip now =
      if_intro (Settles g.in_flight_syns stream_type target) (is_strict net _) _ _ (λ e. refl)
        (λ e. take_syn-Settles cfg g stream_type target)

  minute-Settles :
      (cfg : DialConfig) (g : Globals) (stream_type : ℕ) (target : List ℕ) (port : ℕ)
      (remote_ip : String) (now : ℕ) (allowed : Bool)
      → Settles g.in_flight_syns stream_type target
          (after_minute net cfg g stream_type target port remote_ip now allowed)
  unfolding after_minute
  minute-Settles cfg g stream_type target port remote_ip now allowed =
      if_intro (Settles g.in_flight_syns stream_type target) allowed _ _
        (λ e. reputation-Settles cfg g stream_type target port remote_ip now) (λ e. refl)

  second-Settles :
      (cfg : DialConfig) (g : Globals) (stream_type : ℕ) (target : List ℕ) (port : ℕ)
      (remote_ip : String) (now : ℕ) (allowed : Bool)
      → Settles g.in_flight_syns stream_type target
          (after_second net cfg g stream_type target port remote_ip now allowed)
  unfolding after_second ask_minute report_burst add_source
  second-Settles cfg g stream_type target port remote_ip now allowed =
      let asked = SlidingWindow.allow g.per_dest_min (net.join_host_port target port) now in
      if_intro (Settles g.in_flight_syns stream_type target) allowed _ _
        (λ e.
          minute-Settles cfg (record g { per_dest_min = asked.0 }) stream_type target port remote_ip
            now asked.1)
        (λ e. refl)

  pub ask-Settles :
      (cfg : DialConfig) (g : Globals) (stream_type : ℕ) (target : List ℕ) (port : ℕ)
      (remote_ip : String) (now : ℕ)
      → Settles g.in_flight_syns stream_type target
          (ask_second net cfg g stream_type target port remote_ip now)
  unfolding ask_second
  ask-Settles cfg g stream_type target port remote_ip now =
      let asked = SlidingWindow.allow g.per_dest_sec (net.join_host_port target port) now in
      second-Settles cfg (record g { per_dest_sec = asked.0 }) stream_type target port remote_ip now
        asked.1

  -- The semaphore once the dial, if there is one, is over.
  abbrev pub syns_after : ℕ → Globals × Decision → Option Semaphore
  syns_after stream_type (g, refuses reason blames) = g.in_flight_syns
  syns_after stream_type (g, dials target) = (release_syn g stream_type).in_flight_syns

  settled_syns :
      (syns : Option Semaphore) (stream_type : ℕ) (target : List ℕ) (g : Globals) (d : Decision)
      → Settles syns stream_type target (g, d)
      → syns_after stream_type (g, d) ≡ syns
  unfolding release_syn
  settled_syns syns stream_type target g (refuses reason blames) s = s
  settled_syns syns stream_type target g (dials t) s =
      if_intro (λ (x : Globals). x.in_flight_syns ≡ syns) (stream_type == tcp) _ _
        (λ e. released syns g.in_flight_syns (s.1 e)) (λ e. s.2 e)

  decide_on_syns :
      (cfg : DialConfig) (g : Globals) (stream_type port : ℕ) (remote_ip : String) (now : ℕ)
      (d : Decision)
      → syns_after stream_type (decide_on net cfg g stream_type port remote_ip now d)
        ≡ g.in_flight_syns
  unfolding decide_on
  decide_on_syns cfg g stream_type port remote_ip now (refuses reason blames) = refl
  decide_on_syns cfg g stream_type port remote_ip now (dials target) =
      let q = ask_second net cfg g stream_type target port remote_ip now in
      settled_syns g.in_flight_syns stream_type target q.0 q.1
        (ask-Settles cfg g stream_type target port remote_ip now)

  -- On every path of handleConnect, refused or dialled over TCP or UDP, the semaphore of dials under way
  -- is in the end as it was, when no other goroutine uses it in between.
  pub decide_syns :
      (cfg : DialConfig) (g : Globals) (stream_type port : ℕ) (host : List ℕ) (remote_ip : String)
      (now : ℕ)
      → syns_after stream_type (decide net cfg g stream_type port host remote_ip now)
        ≡ g.in_flight_syns
  unfolding decide
  decide_syns cfg g stream_type port host remote_ip now =
      decide_on_syns cfg g stream_type port remote_ip now (resolve net cfg stream_type port host)
