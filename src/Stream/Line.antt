-- ===== src/Stream/Line.antt =====
-- What of a stream's bytes is where: with the target, in a goroutine's hands, or waiting.
use wispurr.Base.{
  ℕ, ◌≡◌, refl, sym, ap, ◌∙◌, List, [], ◌∷◌, ◌++◌, Bool, true, false, arith, ◌==◌, append_assoc,
  append-nil,
}
use wispurr.Protocol.StreamType.{tcp}
use wispurr.Stream.State.{
  Stream, Connector, dialing, reading, returned, flushing, Effect, close_stream, stopped, running,
  writing, IngressRunner, IngressJob, payloads,
}
use wispurr.Stream.Invariant.{runs}
use wispurr.Stream.Packets.{Action, gives, connects, flushes, drains, abandons, shuts, act}

abbrev pub join : List (List ℕ) → List ℕ
join [] = []
join (d ∷ ds) = d ++ join ds

abbrev pub flush_bytes : Connector → List ℕ
flush_bytes dialing = []
flush_bytes (flushing ds) = join ds
flush_bytes reading = []
flush_bytes returned = []

abbrev pub batch_of : IngressRunner → List ℕ
batch_of stopped = []
batch_of running = []
batch_of (writing batch) = payloads batch

-- What the target has taken, and what is on its way there.
abbrev pub line : Stream → List ℕ
line s =
    s.written
    ++ (flush_bytes s.connector
        ++ (join s.pending_data ++ (batch_of s.runner ++ payloads s.pending_ingress)))

abbrev pub is_flushing : Connector → Bool
is_flushing dialing = false
is_flushing (flushing ds) = true
is_flushing reading = false
is_flushing returned = false

-- An action without a failure or a close, and no data packet while handleConnect writes what waited;
-- and a history of such actions in which the stream stays open.
abbrev pub Calm : Stream → Action → Type 0
Calm s (gives payload bufp failed) = (failed ≡ false) × (is_flushing s.connector ≡ false)
Calm s (connects stream_type) = Unit {0}
Calm s (flushes failed) = failed ≡ false
Calm s (drains failed) = failed ≡ false
Calm s (abandons reason) = ⊥
Calm s (shuts reason) = ⊥

abbrev pub AllCalm : ℕ → ℕ → Stream → List Action → Type 0
AllCalm limit full s [] = Unit {0}
AllCalm limit full s (a ∷ rest) =
    Calm s a
    × ((act limit full s a).0.is_open ≡ true)
    × AllCalm limit full (act limit full s a).0 rest

abbrev pub given : Action → List ℕ
given (gives payload bufp failed) = payload
given (connects stream_type) = []
given (flushes failed) = []
given (drains failed) = []
given (abandons reason) = []
given (shuts reason) = []

abbrev pub all_given : List Action → List ℕ
all_given [] = []
all_given (a ∷ rest) = given a ++ all_given rest

-- Before and after handleConnect has announced the target.
pub record Early (s : Stream) : Type 0 where
  pub unready : s.conn_ready_done ≡ false
  pub inactive : s.ingress_active ≡ false
  pub unrun : s.runner ≡ stopped
  pub unqueued : s.pending_ingress ≡ []
  pub unset : s.ingress_writing ≡ false

pub record Late (s : Stream) : Type 0 where
  pub announced : s.conn_ready_done ≡ true
  pub taken : s.pending_data ≡ []
  pub flagged : s.ingress_writing ≡ runs s.runner
  pub target : s.has_conn ≡ true
  pub by_queue : s.ingress_active ≡ (s.stream_type == tcp)
  pub direct : (s.stream_type == tcp) ≡ false → (s.runner ≡ stopped) × (s.pending_ingress ≡ [])

pub data Tidy (s : Stream) : Type 0 where
  early : s.connector ≡ dialing → Early s → Tidy s
  passing :
      (ds : List (List ℕ))
      → s.connector ≡ flushing ds
      → s.has_conn ≡ true
      → Early s
      → s.pending_data ≡ []
      → Tidy s
  late : s.connector ≡ reading → Late s → Tidy s

-- One step that keeps the order: the line grows by the bytes that it brings.
pub record Advances (bytes : List ℕ) (s t : Stream) : Type 0 where
  pub tidy : Tidy t
  pub grown : line t ≡ line s ++ bytes

join-append : (xs : List (List ℕ)) (d : List ℕ) → join (xs ++ (d ∷ [])) ≡ join xs ++ d
join-append [] d = append-nil d
join-append (x ∷ xs) d = ap (λ ys. x ++ ys) (join-append xs d) ∙ sym (append_assoc x (join xs) d)

payloads-append :
    (xs : List IngressJob) (j : IngressJob) → payloads (xs ++ (j ∷ [])) ≡ payloads xs ++ j.payload
payloads-append [] j = append-nil j.payload
payloads-append (x ∷ xs) j =
    ap (λ ys. x.payload ++ ys) (payloads-append xs j)
    ∙ sym (append_assoc x.payload (payloads xs) j.payload)

-- The end of the line, where nothing is queued; and where only the queue holds anything.
pub line_held :
    (w f : List ℕ) (ps : List (List ℕ)) (d : List ℕ) (r : IngressRunner) (q : List IngressJob)
    → r ≡ stopped
    → q ≡ []
    → w ++ (f ++ (join (ps ++ (d ∷ [])) ++ (batch_of r ++ payloads q)))
      ≡ (w ++ (f ++ (join ps ++ (batch_of r ++ payloads q)))) ++ d
line_held w f ps d r q er eq = rw (er, eq, join-append) (simp (append_assoc, append-nil))

pub line_queued :
    (w f p b : List ℕ) (q : List IngressJob) (j : IngressJob)
    → w ++ (f ++ (p ++ (b ++ payloads (q ++ (j ∷ [])))))
      ≡ (w ++ (f ++ (p ++ (b ++ payloads q)))) ++ j.payload
line_queued w f p b q j = rw payloads-append (simp append_assoc)

pub line_direct :
    (w : List ℕ) (c : Connector) (ps : List (List ℕ)) (d : List ℕ) (r : IngressRunner)
    (q : List IngressJob)
    → c ≡ reading
    → ps ≡ []
    → r ≡ stopped
    → q ≡ []
    → (w ++ d) ++ (flush_bytes c ++ (join ps ++ (batch_of r ++ payloads q)))
      ≡ (w ++ (flush_bytes c ++ (join ps ++ (batch_of r ++ payloads q)))) ++ d
line_direct w c ps d r q ec ep er eq = rw (ec, ep, er, eq) (simp (append_assoc, append-nil))

pub shut_closed : (s : Stream) (reason : ℕ) → (close_stream s reason).0.is_open ≡ true → ⊥
unfolding close_stream
shut_closed s reason e = ground arith

-- What holds of a result if its stream is open.
abbrev pub IfOpen : List ℕ → Stream → Stream × Effect → Type 0
IfOpen bytes s (t, e) = t.is_open ≡ true → Advances bytes s t

pub shut-IfOpen :
    (bytes : List ℕ) (s t : Stream) (reason : ℕ) → IfOpen bytes s (close_stream t reason)
shut-IfOpen bytes s t reason = λ o. absurd (shut_closed t reason o)

-- An open stream whose target is announced: a payload goes to the queue, or to the target at once.
pub idle_batch : (r : IngressRunner) → runs r ≡ false → batch_of r ≡ []
idle_batch stopped e = refl
idle_batch running e = refl
idle_batch (writing batch) e = cc

pub line_taken :
    (w : List ℕ) (ps : List (List ℕ)) (c : Connector) (q : List ℕ)
    → c ≡ dialing
    → w ++ (join ps ++ q) ≡ (w ++ (flush_bytes c ++ (join ps ++ q))) ++ []
line_taken w ps c q e = rw e (sym (append-nil (w ++ (join ps ++ q))))

pub line_flushed :
    (w d : List ℕ) (ds : List (List ℕ)) (c : Connector) (q : List ℕ)
    → c ≡ flushing (d ∷ ds)
    → (w ++ d) ++ (join ds ++ q) ≡ (w ++ (flush_bytes c ++ q)) ++ []
line_flushed w d ds c q e = rw e (simp (append_assoc, append-nil))

pub line_announced :
    (w : List ℕ) (c : Connector) (q : List ℕ)
    → c ≡ flushing []
    → w ++ q ≡ (w ++ (flush_bytes c ++ q)) ++ []
line_announced w c q e = rw e (sym (append-nil (w ++ q)))

pub line_idle :
    (w f p q : List ℕ) (r : IngressRunner)
    → r ≡ running
    → w ++ (f ++ (p ++ q)) ≡ (w ++ (f ++ (p ++ (batch_of r ++ q)))) ++ []
line_idle w f p q r e = rw e (sym (append-nil (w ++ (f ++ (p ++ q)))))

pub line_moved :
    (w f p : List ℕ) (batch : List IngressJob) (r : IngressRunner) (q : List IngressJob)
    → r ≡ running
    → q ≡ batch
    → w ++ (f ++ (p ++ (payloads batch ++ [])))
      ≡ (w ++ (f ++ (p ++ (batch_of r ++ payloads q)))) ++ []
line_moved w f p batch r q er eq = rw (er, eq) (simp append-nil)

pub line_written :
    (w : List ℕ) (c : Connector) (ps : List (List ℕ)) (batch : List IngressJob) (r : IngressRunner)
    (q : List ℕ)
    → c ≡ reading
    → ps ≡ []
    → r ≡ writing batch
    → (w ++ payloads batch) ++ (flush_bytes c ++ (join ps ++ q))
      ≡ (w ++ (flush_bytes c ++ (join ps ++ (batch_of r ++ q)))) ++ []
line_written w c ps batch r q ec ep er = rw (ec, ep, er) (simp (append_assoc, append-nil))

pub unchanged : (s : Stream) → Tidy s → Advances [] s s
unchanged s v = record { tidy = v; grown = sym (append-nil (line s)) }

pub not_idle : (batch : List IngressJob) (r : IngressRunner) → r ≡ writing batch → r ≡ stopped → ⊥
not_idle batch r e f = cc
