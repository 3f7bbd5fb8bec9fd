-- ===== src/Terminals/Registry.antt =====
-- The registry of terminals whose ids are not used twice at a time.
use wispurr.Base.{
  ℕ, ◌≡◌, refl, sym, ap, List, [], ◌∷◌, ◌++◌, Bool, true, false, Option, none, some, arith,
  get_elem?, set, length, if_intro, inl, inr, nat_cases, set-cases, last-cases,
}
use wispurr.Base.Map.{insert, delete, nat_key}
use wispurr.Protocol.CloseReason
use wispurr.Shell.{split_shell}
use wispurr.Terminals.{
  TwispStream, Terminals, no_terminals, send_close, add, start_on, handle_twisp, remove_at,
  register_on, register, adds, close_on, close_terminal, close_found, close_id, listed_below,
  close_each, close_all, Event, starts, exits, closes, ends, step, run,
}
use wispurr.Terminals.Named.{added_linked, ended_linked}

-- The registry lists the open terminals and no other, each under its id; and what is not open is killed.
pub record Tidy (t : Terminals) : Type 0 where
  pub linked :
      (id a : ℕ)
      → t.streams id ≡ some a
      → (s : TwispStream) × (get_elem? t.store a ≡ some s) × (s.is_open ≡ true) × (s.stream_id ≡ id)
  pub registered :
      (a : ℕ) (s : TwispStream)
      → get_elem? t.store a ≡ some s
      → s.is_open ≡ true
      → t.streams s.stream_id ≡ some a
  pub dead :
      (a : ℕ) (s : TwispStream) → get_elem? t.store a ≡ some s → s.is_open ≡ false → s.killed ≡ true

send_close-Tidy : (t : Terminals) (id reason : ℕ) → Tidy t → Tidy (send_close t id reason)
unfolding send_close
send_close-Tidy t id reason v = record {
  linked = v.linked;
  registered = v.registered;
  dead = v.dead;
}

with_starting-Tidy : (t : Terminals) (xs : List ℕ) → Tidy t → Tidy (record t { starting = xs })
with_starting-Tidy t xs v = record { linked = v.linked; registered = v.registered; dead = v.dead }

-- A terminal that is registered under a free id.
module _ (t : Terminals) (id : ℕ) (n : t.streams id ≡ none) (v : Tidy t) where
  new : TwispStream
  new = record { stream_id = id; is_open = true; killed = false }

  added_registered :
      (a : ℕ) (s : TwispStream)
      → get_elem? (t.store ++ (new ∷ [])) a ≡ some s
      → s.is_open ≡ true
      → insert id (length t.store) t.streams s.stream_id ≡ some a
  unfolding new
  added_registered a s f o = elim (last-cases t.store a s new f) [
    | inl g ↦
        let r = v.registered a s g o in
        elim (nat_cases s.stream_id id) [
          | inl h ↦ absurd (let w = ap t.streams h in cc)
          | inr h ↦ ground (arith, r, h)
        ]
    | inr (g, h) ↦ let w = ap (λ (x : TwispStream). x.stream_id) h in ground (arith, g, w)
  ]

  added_dead :
      (a : ℕ) (s : TwispStream)
      → get_elem? (t.store ++ (new ∷ [])) a ≡ some s
      → s.is_open ≡ false
      → s.killed ≡ true
  unfolding new
  added_dead a s f o = elim (last-cases t.store a s new f) [
    | inl g ↦ v.dead a s g o
    | inr (g, h) ↦ absurd (let w = ap (λ (x : TwispStream). x.is_open) h in ground (arith, w, o))
  ]

  add-Tidy : Tidy (add t id)
  unfolding add new
  add-Tidy = record {
    linked = added_linked t id v.linked;
    registered = added_registered;
    dead = added_dead;
  }

-- A terminal that ends.
module _ (t : Terminals) (a : ℕ) (s : TwispStream) (e : get_elem? t.store a ≡ some s) where
  gone : TwispStream
  gone = record s { is_open = false; killed = true }

  ended_registered :
      Tidy t
      → s.is_open ≡ true
      → (b : ℕ) (u : TwispStream) → get_elem? (set t.store a gone) b ≡ some u
      → u.is_open ≡ true
      → delete s.stream_id t.streams u.stream_id ≡ some b
  unfolding gone
  ended_registered v o b u f p = elim (set-cases t.store s gone u a b e f) [
    | inl (k, h) ↦ absurd (let w = ap (λ (x : TwispStream). x.is_open) h in ground (arith, w, p))
    | inr (m, g) ↦
        let r = v.registered b u g p in
        let q = v.registered a s e o in
        elim (nat_cases u.stream_id s.stream_id) [
          | inl h ↦ absurd (m (let w = ap t.streams h in ground (arith, r, q, w)))
          | inr h ↦ ground (arith, r, h)
        ]
  ]

  ended_dead :
      Tidy t
      → (b : ℕ) (u : TwispStream) → get_elem? (set t.store a gone) b ≡ some u
      → u.is_open ≡ false
      → u.killed ≡ true
  unfolding gone
  ended_dead v b u f p = elim (set-cases t.store s gone u a b e f) [
    | inl (k, h) ↦ sym (ap (λ (x : TwispStream). x.killed) h)
    | inr (m, g) ↦ v.dead b u g p
  ]

close_on-Tidy :
    (t : Terminals) (a reason : ℕ) (o : Option TwispStream)
    → get_elem? t.store a ≡ o
    → Tidy t
    → Tidy (close_on t a reason o)
unfolding close_on gone
close_on-Tidy t a reason none e v = v
close_on-Tidy t a reason (some s) e v =
    if_intro Tidy s.is_open _ _
      (λ o.
        send_close-Tidy
          (record t {
            store = set t.store a (record s { is_open = false; killed = true });
            streams = delete s.stream_id t.streams;
          })
          s.stream_id reason
          (record {
            linked = ended_linked t a s e v.linked;
            registered = ended_registered t a s e v o;
            dead = ended_dead t a s e v;
          }))
      (λ o. v)

pub close_terminal-Tidy : (t : Terminals) (a reason : ℕ) → Tidy t → Tidy (close_terminal t a reason)
unfolding close_terminal
close_terminal-Tidy t a reason v = close_on-Tidy t a reason (get_elem? t.store a) refl v

close_each-Tidy : (t : Terminals) (xs : List ℕ) → Tidy t → Tidy (close_each t xs)
unfolding close_each
close_each-Tidy t [] v = v
close_each-Tidy t (a ∷ rest) v =
    close_each-Tidy (close_terminal t a CloseReason.unspecified) rest
      (close_terminal-Tidy t a CloseReason.unspecified v)

-- A history in which a terminal is registered under an id only when the registry has none of that id.
abbrev pub IsFreeOn : Terminals → Option ℕ → Type 0
IsFreeOn t none = Unit {0}
IsFreeOn t (some id) = t.streams id ≡ none

abbrev pub IsFresh : Terminals → Event → Type 0
IsFresh t (starts id command started) = Unit {0}
IsFresh t (adds n) = IsFreeOn t (get_elem? t.starting n)
IsFresh t (exits a reason) = Unit {0}
IsFresh t (closes id) = Unit {0}
IsFresh t ends = Unit {0}

abbrev pub AllFresh : Terminals → List Event → Type 0
AllFresh t [] = Unit {0}
AllFresh t (e ∷ rest) = IsFresh t e × AllFresh (step t e) rest

start-Tidy :
    (t : Terminals) (id : ℕ) (args : Option (List (List ℕ))) (started : Bool)
    → Tidy t
    → Tidy (start_on t id args started)
unfolding start_on
start-Tidy t id none started v = send_close-Tidy t id CloseReason.invalid_info v
start-Tidy t id (some []) started v = send_close-Tidy t id CloseReason.invalid_info v
start-Tidy t id (some (p ∷ args)) started v =
    if_intro Tidy started _ _ (λ e. with_starting-Tidy t _ v)
      (λ e. send_close-Tidy t id CloseReason.network_error v)

register-Tidy :
    (t : Terminals) (n : ℕ) (o : Option ℕ) → IsFreeOn t o → Tidy t → Tidy (register_on t n o)
unfolding register_on
register-Tidy t n none f v = v
register-Tidy t n (some id) f v =
    add-Tidy (record t { starting = remove_at t.starting n }) id f
      (with_starting-Tidy t (remove_at t.starting n) v)

close_found-Tidy : (t : Terminals) (o : Option ℕ) → Tidy t → Tidy (close_found t o)
unfolding close_found
close_found-Tidy t none v = v
close_found-Tidy t (some a) v = close_terminal-Tidy t a CloseReason.voluntary v

step-Tidy : (t : Terminals) (e : Event) → IsFresh t e → Tidy t → Tidy (step t e)
unfolding step handle_twisp register close_id close_all
step-Tidy t (starts id command started) f v = start-Tidy t id (split_shell command) started v
step-Tidy t (adds n) f v = register-Tidy t n (get_elem? t.starting n) f v
step-Tidy t (exits a reason) f v = close_terminal-Tidy t a reason v
step-Tidy t (closes id) f v = close_found-Tidy t (t.streams id) v
step-Tidy t ends f v = close_each-Tidy t (listed_below t (length t.store)) v

pub run-Tidy : (t : Terminals) (rest : List Event) → AllFresh t rest → Tidy t → Tidy (run t rest)
unfolding run
run-Tidy t [] f v = v
run-Tidy t (e ∷ rest) f v = run-Tidy (step t e) rest f.1 (step-Tidy t e f.0 v)

pub no_terminals-Tidy : Tidy no_terminals
unfolding no_terminals
no_terminals-Tidy = record {
  linked = λ id a e. cc;
  registered = λ a s e o. cc;
  dead = λ a s e o. cc;
}
