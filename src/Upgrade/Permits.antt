-- ===== src/Upgrade/Permits.antt =====
-- The permits of the semaphore and the connections.
use wispurr.Base.{
  ℕ, zero, suc, ◌+◌, ◌≤◌, ◌≡◌, refl, List, [], ◌∷◌, Bool, true, ◌&&◌, not, Option, none, some,
  if_intro, length, arith, sym,
}
use wispurr.Base.Int.{pos}
use wispurr.Base.Map.{contains, nat_key}
use wispurr.SlidingWindow
use wispurr.Semaphore
use wispurr.Semaphore.{Semaphore}
use wispurr.Upgrade.{
  HandlerConfig, Server, Request, Answer, requires_v2, release_permit, after_permit, take_permit,
  after_rate, handle_request, finish_on, finish_upgrade, remove, end_connection, Event, requests,
  upgraded, ends, step, run,
}

-- A semaphore of at least one permit, and as many of them taken as `n`, at most all.
abbrev pub Holds : ℕ → ℕ → Option Semaphore → Type 0
Holds most n none = ⊥
Holds most n (some s) = (s.max ≡ pos (suc most)) × (s.current ≡ pos n) × (n ≤ suc most)

acquire-Holds :
    (most n : ℕ) (o : Option Semaphore)
    → (Semaphore.try_acquire o).1 ≡ true
    → Holds most n o
    → Holds most (suc n) (Semaphore.try_acquire o).0
unfolding Semaphore.try_acquire Semaphore.try_acquire_on
acquire-Holds most n none e v = v
acquire-Holds most n (some s) e v = ground (arith, e, v)

release-Holds :
    (most n : ℕ) (o : Option Semaphore) → Holds most (suc n) o → Holds most n (Semaphore.release o)
unfolding Semaphore.release Semaphore.release_on
release-Holds most n none v = v
release-Holds most n (some s) v = ground (arith, v)

-- As many permits are taken as there are connections and upgrades under way.
abbrev pub Counts : ℕ → Server → Type 0
Counts most s = Holds most (s.upgrading + length s.active) s.connections

length-remove :
    (id : ℕ) (xs : List ℕ) → contains id xs ≡ true → suc (length (remove id xs)) ≡ length xs
length-remove id [] e = cc
length-remove id (j ∷ js) e = ground (arith, e, length-remove id js)

same_number : (most m n : ℕ) (o : Option Semaphore) → m ≡ n → Holds most m o → Holds most n o
same_number most m n o e v = rw (sym e) v

one_more :
    (most m n : ℕ) (o : Option Semaphore) → Holds most (suc (m + n)) o → Holds most ((m + 1) + n) o
one_more most m n o v = same_number most (suc (m + n)) ((m + 1) + n) o (omega arith) v

permit-Counts :
    (most : ℕ) (cfg : HandlerConfig) (s : Server) (r : Request)
    → Holds most (suc (s.upgrading + length s.active)) s.connections
    → Counts most (after_permit cfg s r).0
unfolding after_permit release_permit
permit-Counts most cfg s r v =
    if_intro (λ (q : Server × Answer). Counts most q.0)
      (requires_v2 cfg && not (cfg.enable_v2 && r.has_protocol)) _ _
      (λ e. release-Holds most (s.upgrading + length s.active) s.connections v)
      (λ e. one_more most s.upgrading (length s.active) s.connections v)

take-Counts :
    (most : ℕ) (cfg : HandlerConfig) (s : Server) (r : Request) (q : Option Semaphore × Bool)
    → (q.1 ≡ true → Holds most (suc (s.upgrading + length s.active)) q.0)
    → Counts most s
    → Counts most (take_permit cfg s r q).0
unfolding take_permit
take-Counts most cfg s r (permits, acquired) h v =
    if_intro (λ (q : Server × Answer). Counts most q.0) acquired _ _
      (λ e. permit-Counts most cfg (record s { connections = permits }) r (h e)) (λ e. v)

rate-Counts :
    (most : ℕ) (cfg : HandlerConfig) (s : Server) (r : Request) (allowed : Bool)
    → Counts most s
    → Counts most (after_rate cfg s r allowed).0
unfolding after_rate
rate-Counts most cfg s r allowed v =
    if_intro (λ (q : Server × Answer). Counts most q.0) allowed _ _
      (λ e.
        take-Counts most cfg s r (Semaphore.try_acquire s.connections)
          (λ k. acquire-Holds most (s.upgrading + length s.active) s.connections k v) v)
      (λ e. v)

request-Counts :
    (most : ℕ) (cfg : HandlerConfig) (s : Server) (r : Request) (now : ℕ)
    → Counts most s
    → Counts most (handle_request cfg s r now).0
unfolding handle_request
request-Counts most cfg s r now v =
    let q = SlidingWindow.allow s.connection_rate r.remote_ip now in
    if_intro (λ (q : Server × Answer). Counts most q.0) (not r.websocket) _ _ (λ e. v)
      (λ e. rate-Counts most cfg (record s { connection_rate = q.0 }) r q.1 v)

finish-Counts :
    (most : ℕ) (s : Server) (n : ℕ) (failed : Bool)
    → s.upgrading ≡ n
    → Counts most s
    → Counts most (finish_on s n failed)
unfolding finish_on release_permit
finish-Counts most s zero failed e v = v
finish-Counts most s (suc n) failed e v =
    let w : Holds most (suc (n + length s.active)) s.connections =
      same_number most _ _ s.connections (omega (arith, e)) v in
    if_intro (Counts most) failed _ _
      (λ k. release-Holds most (n + length s.active) s.connections w)
      (λ k. same_number most _ _ s.connections (omega arith) w)

end-Counts : (most : ℕ) (s : Server) (id : ℕ) → Counts most s → Counts most (end_connection s id)
unfolding end_connection release_permit
end-Counts most s id v =
    if_intro (Counts most) (contains id s.active) _ _
      (λ e.
        release-Holds most (s.upgrading + length (remove id s.active)) s.connections
          (same_number most _ _ s.connections (omega (arith, length-remove id s.active e)) v))
      (λ e. v)

step-Counts :
    (most : ℕ) (cfg : HandlerConfig) (s : Server) (e : Event)
    → Counts most s
    → Counts most (step cfg s e)
unfolding step finish_upgrade
step-Counts most cfg s (requests r now) v = request-Counts most cfg s r now v
step-Counts most cfg s (upgraded failed) v = finish-Counts most s s.upgrading failed refl v
step-Counts most cfg s (ends id) v = end-Counts most s id v

-- With a semaphore of one permit or more: after any sequence of requests, upgrades that succeed or
-- fail, and ends of connections, if the permits taken were as many as the connections and the upgrades
-- under way, and at most all, then they still are; so no permit is lost on any path of the handler, and
-- the connections are never more than the configured number.
pub run-Counts :
    (most : ℕ) (cfg : HandlerConfig) (s : Server) (rest : List Event)
    → Counts most s
    → Counts most (run cfg s rest)
unfolding run
run-Counts most cfg s [] v = v
run-Counts most cfg s (e ∷ rest) v =
    run-Counts most cfg (step cfg s e) rest (step-Counts most cfg s e v)
