-- ===== src/Connection/Shutdown.antt =====
-- What is left of the streams when the connection ends.
use wispurr.Base.{nat_cases, one_some, set-cases}
use wispurr.Base.{
  ℕ, zero, suc, ◌≡◌, ◌<◌, ◌≤◌, ◌⊎◌, refl, sym, ap, ◌∙◌, List, [], ◌∷◌, true, false, Option, none,
  some, ◌==◌, ltb, arith, get_elem?, set, length, if_intro, Bool-cases, inl, inr, ==_iff,
}
use wispurr.Base.Int.{pos}
use wispurr.Protocol.CloseReason
use wispurr.Stream.State.{Stream, Effect, nothing, panic, closes, credit, close_stream}
use wispurr.Stream.Packets
use wispurr.Stream.Packets.{Action, shuts}
use wispurr.Stream.Turns.{TurnsTo, act-Turns}
use wispurr.Connection.State.{
  Connection, ConnectionConfig, id_at, send_packet, send_close_packet, close, delete_wisp_stream,
  settle, put_back, on_found, on_stream, queue_limit,
}
use wispurr.Connection.Handlers.{is_at, listed, shut_listed, shut_below, delete_all_wisp_streams}
use wispurr.Connection.Table.{Inv, open_count}
use wispurr.Base.{get_elem?-set_same}
use wispurr.Connection.Invariant.{on_stream-Inv}

-- No open stream stands at the address.
abbrev Over : List Stream → ℕ → Type 0
Over store b = (s : Stream) → get_elem? store b ≡ some s → s.is_open ≡ false

settle_store :
    (cfg : ConnectionConfig) (c : Connection) (id : ℕ) (e : Effect)
    → (settle cfg c id e).store ≡ c.store
unfolding settle send_packet send_close_packet delete_wisp_stream
settle_store cfg c id nothing = refl
settle_store cfg c id panic = refl
settle_store cfg c id (credit n) =
    if_intro (λ (d : Connection). d.store ≡ c.store) c.is_closed _ _ (λ e. refl) (λ e. refl)
settle_store cfg c id (closes reason) =
    if_intro (λ (d : Connection). d.store ≡ c.store) c.is_closed _ _ (λ e. refl) (λ e. refl)

put_back_store :
    (cfg : ConnectionConfig) (c : Connection) (a id : ℕ) (q : Stream × Effect)
    → (put_back cfg c a id q).store ≡ set c.store a q.0
unfolding put_back
put_back_store cfg c a id (t, e) = settle_store cfg (record c { store = set c.store a t }) id e

-- A stream that is over stays so.
Turns-over :
    (s : Stream) (q : Stream × Effect) → TurnsTo s q → s.is_open ≡ false → q.0.is_open ≡ false
Turns-over s (t, nothing) v o = v.still refl ∙ o
Turns-over s (t, panic) v o = v.still refl ∙ o
Turns-over s (t, credit n) v o = v.still refl ∙ o
Turns-over s (t, closes reason) v o = (v.over refl).1

set-Over :
    (store : List Stream) (a b : ℕ) (s t : Stream)
    → get_elem? store a ≡ some s
    → (s.is_open ≡ false → t.is_open ≡ false)
    → Over store b
    → Over (set store a t) b
set-Over store a b s t e h v u f = elim (set-cases store s t u a b e f) [
  | inr (n, g) ↦ v u g
  | inl (k, g) ↦ sym (ap (λ (x : Stream). x.is_open) g) ∙ h (v s (ap (get_elem? store) k ∙ e))
]

on_found-Over :
    (cfg : ConnectionConfig) (c : Connection) (a b : ℕ) (x : Action) (o : Option Stream)
    → get_elem? c.store a ≡ o
    → Over c.store b
    → Over (on_found cfg c a x o).store b
unfolding on_found
on_found-Over cfg c a b x none e v = v
on_found-Over cfg c a b x (some s) e v =
    let q = Packets.act (queue_limit cfg) cfg.buffer_remaining_length s x in
    let w =
      set-Over c.store a b s q.0 e
        (Turns-over s q (act-Turns (queue_limit cfg) cfg.buffer_remaining_length s x)) v in
    rw (put_back_store cfg c a s.stream_id q) w

on_stream-Over :
    (cfg : ConnectionConfig) (c : Connection) (a b : ℕ) (x : Action)
    → Over c.store b
    → Over (on_stream cfg c a x).store b
unfolding on_stream
on_stream-Over cfg c a b x v = on_found-Over cfg c a b x (get_elem? c.store a) refl v

-- A close ends the stream at its address.
shut_over : (s : Stream) (reason : ℕ) → (close_stream s reason).0.is_open ≡ false
unfolding close_stream
shut_over s reason = ground arith

none_some : (o : Option Stream) (s : Stream) → o ≡ none → o ≡ some s → ⊥
none_some o s e f = cc

shuts-Over :
    (cfg : ConnectionConfig) (c : Connection) (a reason : ℕ) (o : Option Stream)
    → get_elem? c.store a ≡ o
    → Over (on_found cfg c a (shuts reason) o).store a
unfolding on_found Packets.act
shuts-Over cfg c a reason none e = λ s f. absurd (none_some (get_elem? c.store a) s e f)
shuts-Over cfg c a reason (some s) e =
    let q = close_stream s reason in
    let w : Over (set c.store a q.0) a = λ u f.
      sym
        (ap (λ (x : Stream). x.is_open) (one_some _ q.0 u (get_elem?-set_same c.store a s q.0 e) f))
      ∙ shut_over s reason in
    rw (put_back_store cfg c a s.stream_id q) w

unlisted-Over : (c : Connection) (a : ℕ) → Inv c → listed c a ≡ false → Over c.store a
unfolding listed id_at is_at
unlisted-Over c a v n s e = elim (Bool-cases s.is_open) [
  | inr o ↦ o
  | inl o ↦
      let r = v.registered a s e o in
      let k : (a == a) ≡ true = (==_iff a a).1 refl in absurd (ground (arith, n, e, r, k))
]

shut_listed-Over :
    (cfg : ConnectionConfig) (c : Connection) (a : ℕ) → Inv c → Over (shut_listed cfg c a).store a
unfolding shut_listed on_stream
shut_listed-Over cfg c a v =
    if_intro (λ (d : Connection). Over d.store a) (listed c a) _ _
      (λ e. shuts-Over cfg c a CloseReason.unspecified (get_elem? c.store a) refl)
      (λ e. unlisted-Over c a v e)

shut_listed-still :
    (cfg : ConnectionConfig) (c : Connection) (a b : ℕ)
    → Over c.store b
    → Over (shut_listed cfg c a).store b
unfolding shut_listed
shut_listed-still cfg c a b v =
    if_intro (λ (d : Connection). Over d.store b) (listed c a) _ _
      (λ e. on_stream-Over cfg c a b (shuts CloseReason.unspecified) v) (λ e. v)

shut_listed-Inv :
    (cfg : ConnectionConfig) (c : Connection) (a : ℕ) → Inv c → Inv (shut_listed cfg c a)
unfolding shut_listed
shut_listed-Inv cfg c a v =
    if_intro Inv (listed c a) _ _ (λ e. on_stream-Inv cfg c a (shuts CloseReason.unspecified) v)
      (λ e. v)

shut_below-Inv :
    (cfg : ConnectionConfig) (c : Connection) (n : ℕ) → Inv c → Inv (shut_below cfg c n)
unfolding shut_below
shut_below-Inv cfg c zero v = v
shut_below-Inv cfg c (suc n) v =
    shut_listed-Inv cfg (shut_below cfg c n) n (shut_below-Inv cfg c n v)

shut_below-Over :
    (cfg : ConnectionConfig) (c : Connection) (n b : ℕ)
    → (b < n) ⊎ Over c.store b
    → Inv c
    → Over (shut_below cfg c n).store b
unfolding shut_below
shut_below-Over cfg c zero b (inl h) v = absurd (omega (arith, h))
shut_below-Over cfg c zero b (inr h) v = h
shut_below-Over cfg c (suc n) b (inr h) v =
    shut_listed-still cfg (shut_below cfg c n) n b (shut_below-Over cfg c n b (inr h) v)
shut_below-Over cfg c (suc n) b (inl h) v = elim (nat_cases b n) [
  | inl e ↦ rw e (shut_listed-Over cfg (shut_below cfg c n) n (shut_below-Inv cfg c n v))
  | inr k ↦
      shut_listed-still cfg (shut_below cfg c n) n b
        (shut_below-Over cfg c n b (inl (omega (arith, h, k))) v)
]

no_stream : (xs : List Stream) (b : ℕ) → length xs ≤ b → Over xs b
no_stream [] b h s e = cc
no_stream (x ∷ xs) zero h s e = absurd (omega (arith, h))
no_stream (x ∷ xs) (suc b) h s e = no_stream xs b (omega (arith, h)) s e

below_cases : (b n : ℕ) → (b < n) ⊎ (n ≤ b)
below_cases b n = elim (Bool-cases (ltb b n)) [
  | inl e ↦ inl (ground (arith, e))
  | inr e ↦ inr (ground (arith, e))
]

all-Over : (xs : List Stream) → ((b : ℕ) → Over xs b) → open_count xs ≡ 0
all-Over [] h = refl
all-Over (x ∷ xs) h =
    let e : x.is_open ≡ false = h 0 x refl in
    let k = all-Over xs (λ b. h (suc b)) in ground (arith, e, k)

delete_all-Over :
    (cfg : ConnectionConfig) (c : Connection) (b : ℕ)
    → Inv c
    → Over (delete_all_wisp_streams cfg c).store b
unfolding delete_all_wisp_streams close
delete_all-Over cfg c b v = elim (below_cases b (length c.store)) [
  | inl h ↦ shut_below-Over cfg (close c) (length c.store) b (inl h) v
  | inr h ↦ shut_below-Over cfg (close c) (length c.store) b (inr (no_stream c.store b h)) v
]

delete_all-Inv :
    (cfg : ConnectionConfig) (c : Connection) → Inv c → Inv (delete_all_wisp_streams cfg c)
unfolding delete_all_wisp_streams close
delete_all-Inv cfg c v = shut_below-Inv cfg (close c) (length c.store) v

none_listed :
    (c : Connection) (id : ℕ) (o : Option ℕ)
    → c.streams id ≡ o
    → ((b : ℕ) → Over c.store b)
    → Inv c
    → o ≡ none
none_listed c id none e h v = refl
none_listed c id (some a) e h v =
    let (s, f, o, i) = v.linked id a e in absurd (ground (arith, h a s f, o))

-- When the connection ends: if the table, the cache and the open streams agreed, then no stream is
-- open after deleteAllWispStreams, the table lists none under any id, and the count is 0.
pub delete_all_wisp_streams-Over :
    (cfg : ConnectionConfig) (c : Connection)
    → Inv c
    → (open_count (delete_all_wisp_streams cfg c).store ≡ 0)
      × ((delete_all_wisp_streams cfg c).stream_count ≡ pos 0)
      × ((id : ℕ) → (delete_all_wisp_streams cfg c).streams id ≡ none)
delete_all_wisp_streams-Over cfg c v =
    let d = delete_all_wisp_streams cfg c in
    let over : (b : ℕ) → Over d.store b = λ b. delete_all-Over cfg c b v in
    let w = delete_all-Inv cfg c v in
    let zero_open = all-Over d.store over in
    (zero_open, w.counted ∙ ap pos zero_open, λ id. none_listed d id (d.streams id) refl over w)
