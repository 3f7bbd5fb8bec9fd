-- ===== src/Dial/Safety.antt =====
-- What a target that is dialled has passed.
use wispurr.Base.{
  ℕ, ◌≡◌, refl, List, [], ◌∷◌, Bool, true, false, ◌&&◌, ◌||◌, Option, none, some, ◌==◌, String,
  arith, if_intro, ◌∙◌,
}
use wispurr.IpAddress.{Ip}
use wispurr.Semaphore.{Semaphore}
use wispurr.Protocol.StreamType.{tcp, udp}
use wispurr.Dial.{
  Net, DialConfig, Globals, Decision, refuses, dials, blocks_host, blocks_port, blocks_type,
  refused_filter, permits, pick, pick_found, direct, resolve_on, resolve_after, resolve, ask_second,
  decide_on, decide,
}
use wispurr.Dial.Syns.{Settles, ask-Settles}

right_true : (a b : Bool) → (a && b) ≡ true → b ≡ true
right_true a b e = ground arith

module _ (net : Net) where
  -- The text of an address that the policy permits.
  abbrev pub Reaches : DialConfig → Decision → Type 0
  Reaches cfg (refuses reason blames) = Unit {0}
  Reaches cfg (dials target) = (ip : Ip) × (target ≡ net.ip_string ip) × (permits net cfg ip ≡ true)

  pick-Reaches : (cfg : DialConfig) (ips : List Ip) → Reaches cfg (pick net cfg ips)
  unfolding pick
  pick-Reaches cfg [] = tt
  pick-Reaches cfg (ip ∷ ips) =
      let rest = pick-Reaches cfg ips in
      if_intro (Reaches cfg) (permits net cfg ip) _ _ (λ e. (ip, refl, e)) (λ e. rest)

  pick_found-Reaches :
      (cfg : DialConfig) (o : Option (List Ip)) → Reaches cfg (pick_found net cfg o)
  unfolding pick_found
  pick_found-Reaches cfg none = tt
  pick_found-Reaches cfg (some []) = tt
  pick_found-Reaches cfg (some (ip ∷ ips)) = pick-Reaches cfg (ip ∷ ips)

  direct-Reaches : (cfg : DialConfig) (ip : Ip) → Reaches cfg (direct net cfg ip)
  unfolding direct
  direct-Reaches cfg ip =
      if_intro (Reaches cfg) (cfg.allow_direct_ip && permits net cfg ip) _ _
        (λ e. (ip, refl, right_true _ _ e)) (λ e. tt)

  resolve_on-Reaches :
      (cfg : DialConfig) (host : List ℕ) (o : Option Ip)
      → cfg.dns_cache ≡ true
      → Reaches cfg (resolve_on net cfg host o)
  unfolding resolve_on
  resolve_on-Reaches cfg host (some ip) h = direct-Reaches cfg ip
  resolve_on-Reaches cfg host none h =
      if_intro (Reaches cfg) cfg.dns_cache _ _ (λ e. pick_found-Reaches cfg (net.lookup host))
        (λ e. absurd (ground (arith, h, e)))

  -- A target that is dialled has passed the filters too.
  abbrev pub Passes : DialConfig → ℕ → ℕ → List ℕ → Decision → Type 0
  Passes cfg stream_type port host (refuses reason blames) = Unit {0}
  Passes cfg stream_type port host (dials target) =
      (blocks_host cfg host ≡ false)
      × (blocks_port cfg port ≡ false)
      × (blocks_type cfg stream_type ≡ false)
      × (((stream_type == tcp) || (stream_type == udp)) ≡ true)
      × Reaches cfg (dials target)

  filter_none :
      (cfg : DialConfig) (stream_type port : ℕ) (host : List ℕ)
      → refused_filter cfg stream_type port host ≡ none
      → (blocks_host cfg host ≡ false)
        × (blocks_port cfg port ≡ false)
        × (blocks_type cfg stream_type ≡ false)
        × (((stream_type == tcp) || (stream_type == udp)) ≡ true)
  unfolding refused_filter
  filter_none cfg stream_type port host e = ground arith

  reached-Passes :
      (cfg : DialConfig) (stream_type port : ℕ) (host : List ℕ) (d : Decision)
      → refused_filter cfg stream_type port host ≡ none
      → Reaches cfg d
      → Passes cfg stream_type port host d
  reached-Passes cfg stream_type port host (refuses reason blames) e r = tt
  reached-Passes cfg stream_type port host (dials target) e r =
      let (h, p, t, u) = filter_none cfg stream_type port host e in (h, p, t, u, r)

  resolve_after-Passes :
      (cfg : DialConfig) (stream_type port : ℕ) (host : List ℕ) (o : Option ℕ)
      → refused_filter cfg stream_type port host ≡ o
      → cfg.dns_cache ≡ true
      → Passes cfg stream_type port host (resolve_after net cfg host o)
  unfolding resolve_after
  resolve_after-Passes cfg stream_type port host none e h =
      reached-Passes cfg stream_type port host (resolve_on net cfg host (net.parse_ip host)) e
        (resolve_on-Reaches cfg host (net.parse_ip host) h)
  resolve_after-Passes cfg stream_type port host (some reason) e h = tt

  kept-Passes :
      (cfg : DialConfig) (syns : Option Semaphore) (stream_type port : ℕ) (host target : List ℕ)
      (g : Globals) (d : Decision)
      → Passes cfg stream_type port host (dials target)
      → Settles net syns stream_type target (g, d)
      → Passes cfg stream_type port host d
  kept-Passes cfg syns stream_type port host target g (refuses reason blames) p s = tt
  kept-Passes cfg syns stream_type port host target g (dials t) (h, q, u, v, (ip, e, k)) s =
      (h, q, u, v, (ip, s.0 ∙ e, k))

  decide_on-Passes :
      (cfg : DialConfig) (g : Globals) (stream_type port : ℕ) (host : List ℕ) (remote_ip : String)
      (now : ℕ) (d : Decision)
      → Passes cfg stream_type port host d
      → Passes cfg stream_type port host (decide_on net cfg g stream_type port remote_ip now d).1
  unfolding decide_on
  decide_on-Passes cfg g stream_type port host remote_ip now (refuses reason blames) p = tt
  decide_on-Passes cfg g stream_type port host remote_ip now (dials target) p =
      let q = ask_second net cfg g stream_type target port remote_ip now in
      kept-Passes cfg g.in_flight_syns stream_type port host target q.0 q.1 p
        (ask-Settles net cfg g stream_type target port remote_ip now)

  -- With a DNS cache, a dial is only made of a hostname, a port and a stream type that the filters let
  -- through, of TCP or UDP, and to the text of an address that the egress policy permits, whether the
  -- client named the address or the resolver returned it.
  pub decide-Passes :
      (cfg : DialConfig) (g : Globals) (stream_type port : ℕ) (host : List ℕ) (remote_ip : String)
      (now : ℕ)
      → cfg.dns_cache ≡ true
      → Passes cfg stream_type port host (decide net cfg g stream_type port host remote_ip now).1
  unfolding decide resolve
  decide-Passes cfg g stream_type port host remote_ip now h =
      decide_on-Passes cfg g stream_type port host remote_ip now
        (resolve net cfg stream_type port host)
        (resolve_after-Passes cfg stream_type port host (refused_filter cfg stream_type port host)
          refl h)
