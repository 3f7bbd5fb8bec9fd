-- ===== src/Terminals/Named.antt =====
-- The registry names only open terminals, each under its id, however ids are used.
use wispurr.Base.{
  ℕ, ◌≡◌, refl, sym, ap, ◌∙◌, List, [], ◌∷◌, ◌++◌, Bool, true, false, Option, none, some, arith,
  get_elem?, set, length, if_intro, inl, inr, nat_cases, one_some, set-cases, get_elem?-set_other,
  get_elem?-append, get_elem?-last, last-cases,
}
use wispurr.Base.Map.{Map, nat_key, delete}
use wispurr.Protocol.CloseReason
use wispurr.Shell.{split_shell}
use wispurr.Terminals.{
  TwispStream, Terminals, no_terminals, send_close, add, start_on, handle_twisp, remove_at,
  register_on, register, close_on, close_terminal, close_found, close_id, listed_below, close_each,
  close_all, Event, starts, adds, exits, closes, ends, step, run,
}

abbrev pub Links : Terminals → Type 0
Links t =
    (id a : ℕ)
    → t.streams id ≡ some a
    → (s : TwispStream) × (get_elem? t.store a ≡ some s) × (s.is_open ≡ true) × (s.stream_id ≡ id)

pub undeleted : (id j a : ℕ) (m : Map ℕ ℕ) → delete id m j ≡ some a → m j ≡ some a
undeleted id j a m f = ground (arith, f)

module _ (t : Terminals) (id : ℕ) (v : Links t) where
  new : TwispStream
  new = record { stream_id = id; is_open = true; killed = false }

  pub added_linked : Links (add t id)
  unfolding new add
  added_linked j a f = elim (nat_cases j id) [
    | inl h ↦
        let k : length t.store ≡ a = ground (arith, f, h) in
        (
          new,
          ap (get_elem? (t.store ++ (new ∷ []))) (sym k) ∙ get_elem?-last t.store new,
          refl,
          sym h,
        )
    | inr m ↦
        let (s, e, o, i) = v j a (ground (arith, f, m)) in
        (s, get_elem?-append t.store a s new e, o, i)
  ]

module _ (t : Terminals) (a : ℕ) (s : TwispStream) (e : get_elem? t.store a ≡ some s) where
  gone : TwispStream
  gone = record s { is_open = false; killed = true }

  pub ended_linked :
      Links t
      → (j b : ℕ) → delete s.stream_id t.streams j ≡ some b
      → (u : TwispStream) × (get_elem?
            (set t.store a (record s { is_open = false; killed = true }))
            b
          ≡ some u)
        × (u.is_open ≡ true)
        × (u.stream_id ≡ j)
  unfolding gone
  ended_linked v j b f = elim (nat_cases j s.stream_id) [
    | inl h ↦ absurd (ground (arith, f, h))
    | inr m ↦
        let (u, g, o, i) = v j b (ground (arith, f, m)) in
        let other : b ≡ a → ⊥ = λ k. m (
          sym i
          ∙ ap (λ (x : TwispStream). x.stream_id)
              (one_some _ u s g (ap (get_elem? t.store) k ∙ e))) in
        (u, get_elem?-set_other t.store a b gone other ∙ g, o, i)
  ]

-- And an open terminal has not been killed.
pub record Linked (t : Terminals) : Type 0 where
  pub linked : Links t
  pub alive :
      (a : ℕ) (s : TwispStream) → get_elem? t.store a ≡ some s → s.is_open ≡ true → s.killed ≡ false

send_close-Linked : (t : Terminals) (id reason : ℕ) → Linked t → Linked (send_close t id reason)
unfolding send_close
send_close-Linked t id reason v = record { linked = v.linked; alive = v.alive }

with_starting-Linked :
    (t : Terminals) (xs : List ℕ) → Linked t → Linked (record t { starting = xs })
with_starting-Linked t xs v = record { linked = v.linked; alive = v.alive }

add-Linked : (t : Terminals) (id : ℕ) → Linked t → Linked (add t id)
unfolding add
add-Linked t id v = record {
  linked = added_linked t id v.linked;
  alive = λ a s f o. elim (last-cases t.store a s _ f) [
    | inl g ↦ v.alive a s g o
    | inr (g, h) ↦ sym (ap (λ (x : TwispStream). x.killed) h)
  ];
}

start-Linked :
    (t : Terminals) (id : ℕ) (args : Option (List (List ℕ))) (started : Bool)
    → Linked t
    → Linked (start_on t id args started)
unfolding start_on
start-Linked t id none started v = send_close-Linked t id CloseReason.invalid_info v
start-Linked t id (some []) started v = send_close-Linked t id CloseReason.invalid_info v
start-Linked t id (some (p ∷ args)) started v =
    if_intro Linked started _ _ (λ e. with_starting-Linked t _ v)
      (λ e. send_close-Linked t id CloseReason.network_error v)

register-Linked : (t : Terminals) (n : ℕ) (o : Option ℕ) → Linked t → Linked (register_on t n o)
unfolding register_on
register-Linked t n none v = v
register-Linked t n (some id) v =
    add-Linked (record t { starting = remove_at t.starting n }) id
      (with_starting-Linked t (remove_at t.starting n) v)

close_on-Linked :
    (t : Terminals) (a reason : ℕ) (o : Option TwispStream)
    → get_elem? t.store a ≡ o
    → Linked t
    → Linked (close_on t a reason o)
unfolding close_on
close_on-Linked t a reason none e v = v
close_on-Linked t a reason (some s) e v =
    let s' : TwispStream = record s { is_open = false; killed = true } in
    if_intro Linked s.is_open _ _
      (λ o.
        send_close-Linked
          (record t { store = set t.store a s'; streams = delete s.stream_id t.streams })
          s.stream_id reason
          (record {
            linked = ended_linked t a s e v.linked;
            alive = λ b u f p. elim (set-cases t.store s s' u a b e f) [
              | inl (k, h) ↦
                  absurd (let w = ap (λ (x : TwispStream). x.is_open) h in ground (arith, w, p))
              | inr (m, g) ↦ v.alive b u g p
            ];
          }))
      (λ o. v)

close_terminal-Linked :
    (t : Terminals) (a reason : ℕ) → Linked t → Linked (close_terminal t a reason)
unfolding close_terminal
close_terminal-Linked t a reason v = close_on-Linked t a reason (get_elem? t.store a) refl v

close_found-Linked : (t : Terminals) (o : Option ℕ) → Linked t → Linked (close_found t o)
unfolding close_found
close_found-Linked t none v = v
close_found-Linked t (some b) v = close_terminal-Linked t b CloseReason.voluntary v

close_each-Linked : (t : Terminals) (xs : List ℕ) → Linked t → Linked (close_each t xs)
unfolding close_each
close_each-Linked t [] v = v
close_each-Linked t (b ∷ rest) v =
    close_each-Linked (close_terminal t b CloseReason.unspecified) rest
      (close_terminal-Linked t b CloseReason.unspecified v)

step-Linked : (t : Terminals) (e : Event) → Linked t → Linked (step t e)
unfolding step handle_twisp register close_id close_all
step-Linked t (starts id command started) v = start-Linked t id (split_shell command) started v
step-Linked t (adds n) v = register-Linked t n (get_elem? t.starting n) v
step-Linked t (exits b reason) v = close_terminal-Linked t b reason v
step-Linked t (closes id) v = close_found-Linked t (t.streams id) v
step-Linked t ends v = close_each-Linked t (listed_below t (length t.store)) v

pub run-Linked : (t : Terminals) (rest : List Event) → Linked t → Linked (run t rest)
unfolding run
run-Linked t [] v = v
run-Linked t (e ∷ rest) v = run-Linked (step t e) rest (step-Linked t e v)

pub no_terminals-Linked : Linked no_terminals
unfolding no_terminals
no_terminals-Linked = record { linked = λ id a e. cc; alive = λ a s e o. cc }
