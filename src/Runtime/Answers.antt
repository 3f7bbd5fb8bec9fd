-- ===== src/Runtime/Answers.antt =====
-- A history of the limiters with its rounds of maintenance, and without.
use mathlib.Core.Path.{subst}
use wispurr.Base.{
  ℕ, ◌^◌, ◌*◌, ◌<◌, true, ◌≡◌, refl, sym, ap, ◌∙◌, List, [], ◌∷◌, ◌&&◌, Option, none, some, arith,
  if_intro,
}
use wispurr.Base.Int.{ℤ, pos, negsuc, pos_part, seconds, ◌≤ℤ◌}
use wispurr.Config.{Config, FloodProtectionConfig}
use wispurr.SlidingWindow.{SlidingWindow, new_sliding_window}
use wispurr.Runtime.Maintenance.{
  Limiter, source, rate, dest_sec, dest_min, limiter_of, put_limiter, Event, asks, maintains, ask,
  answers, asks_of, Ordered, IsShort, int_64_small, Fits, SameOption, same_itself, same_later,
  same_evicted, same_allowed, Fits-evicted, Fits-allowed, limiter_of-maintain,
}
use wispurr.Runtime.{
  RuntimeConfig, Globals, minute, positive, window_of, rate_of, bare_globals, add_flood,
  build_globals, maintain, semaphore_of, signature_of,
}

-- A limiter that was put back, and the others.
put_all :
    (P : Limiter → Option SlidingWindow → Option SlidingWindow → Type 0) (g h : Globals)
    (x y : Option SlidingWindow) (l m : Limiter)
    → P l x y
    → ((n : Limiter) → P n (limiter_of g n) (limiter_of h n))
    → P m (limiter_of (put_limiter g l x) m) (limiter_of (put_limiter h l y) m)
put_all P g h x y source source p q = p
put_all P g h x y source rate p q = q rate
put_all P g h x y source dest_sec p q = q dest_sec
put_all P g h x y source dest_min p q = q dest_min
put_all P g h x y rate source p q = q source
put_all P g h x y rate rate p q = p
put_all P g h x y rate dest_sec p q = q dest_sec
put_all P g h x y rate dest_min p q = q dest_min
put_all P g h x y dest_sec source p q = q source
put_all P g h x y dest_sec rate p q = q rate
put_all P g h x y dest_sec dest_sec p q = p
put_all P g h x y dest_sec dest_min p q = q dest_min
put_all P g h x y dest_min source p q = q source
put_all P g h x y dest_min rate p q = q rate
put_all P g h x y dest_min dest_sec p q = q dest_sec
put_all P g h x y dest_min dest_min p q = p

alike_answers :
    (now : ℕ) (g h : Globals) (rest : List Event)
    → Ordered now rest
    → ((l : Limiter) → Fits l (limiter_of g l))
    → ((l : Limiter) → SameOption now (limiter_of g l) (limiter_of h l))
    → answers g rest ≡ answers h (asks_of rest)
alike_answers now g h [] o f s = refl
alike_answers now g h (asks l key at ∷ rest) o f s =
    let a : (m : Limiter) → SameOption at (limiter_of g m) (limiter_of h m) =
      λ m. same_later now at (limiter_of g m) (limiter_of h m) o.0 (s m) in
    let (r, b) = same_allowed at key (limiter_of g l) (limiter_of h l) (a l) in
    let g' = put_limiter g l (ask g l key at).0 in
    let h' = put_limiter h l (ask h l key at).0 in
    let ih =
      alike_answers at g' h' rest o.1
        (λ m.
          put_all (λ n x y. Fits n x) g h (ask g l key at).0 (ask h l key at).0 l m
            (Fits-allowed l key at (limiter_of g l) (f l)) f)
        (λ m.
          put_all (λ n x y. SameOption at x y) g h (ask g l key at).0 (ask h l key at).0 l m b a) in
    ap (λ x. x ∷ answers g' rest) r ∙ ap (λ xs. (ask h l key at).1 ∷ xs) ih
alike_answers now g h (maintains at ∷ rest) o f s =
    alike_answers at (maintain g at) h rest o.1
      (λ l.
        subst (Fits l) (sym (limiter_of-maintain g at l (f rate)))
          (Fits-evicted l at (limiter_of g l) (f l)))
      (λ l.
        subst (λ x. SameOption at x (limiter_of h l)) (sym (limiter_of-maintain g at l (f rate)))
          (same_evicted l now at (limiter_of g l) (limiter_of h l) o.0 (f l) (s l)))

-- What BuildGlobals builds.
window-Fits :
    (l : Limiter) (n : ℤ) (window : ℕ)
    → ((w : SlidingWindow) → w.window ≡ window → IsShort l w)
    → Fits l (window_of n window)
unfolding window_of new_sliding_window
window-Fits l n window h = if_intro (Fits l) (positive n) _ _ (λ e. h _ refl) (λ e. tt)

-- Windows of connections that can be doubled in an int64.
abbrev pub longest_window : ℤ
longest_window = pos 4611686018

seconds_small :
    (z : ℤ) → z ≤ℤ longest_window → positive z ≡ true → 2 * pos_part (seconds z) < 2 ^ 63
seconds_small (pos n) h p =
    let e : seconds (pos n) ≡ pos (n * 10 ^ 9) = int_64_small (n * 10 ^ 9) (omega arith) in
    omega (arith, ap pos_part e)
seconds_small (negsuc n) h p = absurd (ground arith)

rate-Fits : (c : Config) → c.connection_window_seconds ≤ℤ longest_window → Fits rate (rate_of c)
unfolding rate_of new_sliding_window
rate-Fits c h =
    if_intro (Fits rate)
      (positive c.connections_limit_per_ip && positive c.connection_window_seconds) _ _
      (λ e. seconds_small c.connection_window_seconds h (ground arith)) (λ e. tt)

bare-Fits :
    (cfg : RuntimeConfig) (now : ℕ) (l : Limiter)
    → cfg.config.connection_window_seconds ≤ℤ longest_window
    → Fits l (limiter_of (bare_globals cfg now) l)
unfolding bare_globals
bare-Fits cfg now source h = tt
bare-Fits cfg now rate h = rate-Fits cfg.config h
bare-Fits cfg now dest_sec h = tt
bare-Fits cfg now dest_min h = tt

flooded :
    (g : Globals) (fp : FloodProtectionConfig) (l : Limiter)
    → ((m : Limiter) → Fits m (limiter_of g m))
    → Fits l (
        limiter_of
          (record g {
            per_source = window_of fp.max_connects_per_source_ip_per_second (10 ^ 9);
            per_dest_sec = window_of fp.max_connects_per_dest_per_second (10 ^ 9);
            per_dest_min = window_of fp.max_connects_per_dest_per_minute minute;
          })
          l)
flooded g fp source f =
    window-Fits source fp.max_connects_per_source_ip_per_second (10 ^ 9) (λ w e. omega arith)
flooded g fp rate f = f rate
flooded g fp dest_sec f =
    window-Fits dest_sec fp.max_connects_per_dest_per_second (10 ^ 9) (λ w e. omega arith)
flooded g fp dest_min f =
    window-Fits dest_min fp.max_connects_per_dest_per_minute minute (λ w e. omega arith)

enabled-Fits :
    (g : Globals) (fp : FloodProtectionConfig) (l : Limiter)
    → ((m : Limiter) → Fits m (limiter_of g m))
    → Fits l (
        limiter_of
          (record g {
            per_source = window_of fp.max_connects_per_source_ip_per_second (10 ^ 9);
            per_dest_sec = window_of fp.max_connects_per_dest_per_second (10 ^ 9);
            per_dest_min = window_of fp.max_connects_per_dest_per_minute minute;
            in_flight_syns = semaphore_of fp.max_in_flight_syns;
            connections = semaphore_of fp.max_concurrent_connections;
            signature = some (signature_of fp.syn_flood_signature);
          })
          l)
enabled-Fits g fp source f = flooded g fp source f
enabled-Fits g fp rate f = flooded g fp rate f
enabled-Fits g fp dest_sec f = flooded g fp dest_sec f
enabled-Fits g fp dest_min f = flooded g fp dest_min f

flood-Fits :
    (g : Globals) (o : Option FloodProtectionConfig) (l : Limiter)
    → ((m : Limiter) → Fits m (limiter_of g m))
    → Fits l (limiter_of (add_flood g o) l)
unfolding add_flood
flood-Fits g none l f = f l
flood-Fits g (some fp) l f =
    if_intro (λ (x : Globals). Fits l (limiter_of x l)) fp.enabled _ _ (λ e. enabled-Fits g fp l f)
      (λ e. f l)

-- With a clock that does not go back, and a connectionWindowSeconds of at most 4611686018, the double of
-- which is an int64 of nanoseconds, the rounds of maintenance, whenever they come, change no answer of the
-- four limiters of calls that BuildGlobals makes of the configuration.
pub answers-asks_of :
    (cfg : RuntimeConfig) (now : ℕ) (rest : List Event)
    → cfg.config.connection_window_seconds ≤ℤ longest_window
    → Ordered now rest
    → answers (build_globals cfg now) rest ≡ answers (build_globals cfg now) (asks_of rest)
unfolding build_globals
answers-asks_of cfg now rest h o =
    let g = build_globals cfg now in
    alike_answers now g g rest o
      (λ l. flood-Fits (bare_globals cfg now) cfg.flood_protection l (λ m. bare-Fits cfg now m h))
      (λ l. same_itself now (limiter_of g l))
