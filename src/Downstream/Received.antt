-- ===== src/Downstream/Received.antt =====
-- What readFromConnection hands over.
use mathlib.Core.Path.{subst}
use wispurr.Base.{
  ℕ, ◌+◌, ◌%◌, ◌^◌, ◌<◌, ◌≡◌, refl, sym, ap, ◌∙◌, List, [], ◌∷◌, ◌++◌, false, Option, none, some,
  ◌==◌, if_then, String, arith, length, drop, append_assoc, append-nil, length-append, length-take,
  length-drop, All, Bool-cases, inl, inr,
}
use wispurr.Base.Bytes.{put_le32}
use wispurr.Frames.{data_frame}
use wispurr.Bandwidth
use wispurr.Bandwidth.{BandwidthLimiter}
use wispurr.Bandwidth.Open.{wait_open}
use wispurr.Downstream.{
  ReadError, Read, Ending, closes, Reader, new_reader, reason_of, after_read, hand_over, round,
  step_on, read_from_connection,
}
use wispurr.Downstream.Client.{
  concat, download, framed, download-framed, piece, until, pieces, IsRead, pieces_bound,
  data_frame-piece, length-framed,
}

-- How the loop ends: the reason of the first error.
abbrev pub end_at : Option ReadError → Option Ending → Option Ending
end_at none later = later
end_at (some e) later = some (closes (reason_of e))

abbrev pub ending : List Read → Option Ending
ending [] = none
ending (r ∷ rest) = end_at r.err (ending rest)

abbrev pub open_count : Option Ending → ℕ
open_count none = 1
open_count (some e) = 0

abbrev pub IsOpen : Read → Type 0
IsOpen read = IsRead read × (read.stopped ≡ false)

All-reads : (reads : List Read) → All IsOpen reads → All IsRead reads
All-reads [] h = tt
All-reads (r ∷ rest) h = (h.0.0, All-reads rest h.1)

module _ (cost : ℕ → ℕ → ℕ) (stream_id : ℕ) (remote_ip : String) where
  record Moved (r q : Reader) (bs : List (List ℕ)) (e : Option Ending) : Type 0 where
    frames : q.handed ≡ r.handed ++ framed stream_id bs
    counted :
        r.egress_bytes < 2 ^ 64 → q.egress_bytes ≡ (r.egress_bytes + length (concat bs)) % 2 ^ 64
    gotten : q.got ≡ r.got + length bs
    put : q.put_back + open_count q.ended ≡ r.put_back + 1
    end : q.ended ≡ e

  still : (r : Reader) → r.ended ≡ none → Moved r r [] none
  still r e = record {
    frames = sym (append-nil r.handed);
    counted = λ h. omega arith;
    gotten = omega arith;
    put = omega (arith, ap open_count e);
    end = e;
  }

  ended_stays :
      (r : Reader) (e : Ending) (rest : List Read)
      → r.ended ≡ some e
      → read_from_connection cost stream_id remote_ip r rest ≡ r
  unfolding read_from_connection step_on
  ended_stays r e [] h = refl
  ended_stays r e (x ∷ rest) h =
      ap
        (λ o.
          read_from_connection cost stream_id remote_ip (step_on cost stream_id remote_ip r o x)
            rest)
        h
      ∙ ended_stays r e rest h

  Moves : List Read → Type 0
  Moves rest =
      (r : Reader)
      → r.ended ≡ none
      → Moved r (read_from_connection cost stream_id remote_ip r rest) (pieces rest) (ending rest)

  after_read-Moved :
      (r : Reader) (err : Option ReadError) (rest : List Read)
      → r.ended ≡ none
      → Moves rest
      → Moved r
          (read_from_connection cost stream_id remote_ip (after_read r err) rest)
          (until err (pieces rest))
          (end_at err (ending rest))
  unfolding after_read Moves
  after_read-Moved r none rest e m = m r e
  after_read-Moved r (some x) rest e m =
      subst (λ q. Moved r q [] (some (closes (reason_of x))))
        (sym (ended_stays (after_read r (some x)) (closes (reason_of x)) rest refl))
        (record {
          frames = sym (append-nil r.handed);
          counted = λ h. omega arith;
          gotten = omega arith;
          put = omega arith;
          end = refl;
        })

  advanced : Reader → Option BandwidthLimiter → Read → Reader
  advanced r b read = record r {
    handed = r.handed ++ (data_frame stream_id read.buf read.n ∷ []);
    egress_bytes = (r.egress_bytes + read.n) % 2 ^ 64;
    bandwidth = b;
    got = r.got + 1;
  }

  advanced-Moved :
      (r q : Reader) (b : Option BandwidthLimiter) (read : Read) (bs : List (List ℕ))
      (e : Option Ending)
      → IsRead read
      → Moved (advanced r b read) q bs e
      → Moved r q (piece read ∷ bs) e
  unfolding advanced
  advanced-Moved r q b read bs e h m = record {
    frames =
        m.frames
        ∙ append_assoc r.handed (data_frame stream_id read.buf read.n ∷ []) (framed stream_id bs)
        ∙ ap (λ f. r.handed ++ (f ∷ framed stream_id bs)) (data_frame-piece stream_id read h);
    counted = λ k. omega (
      arith,
      m.counted (omega arith),
      length-append (piece read) (concat bs),
      length-take read.n (drop 15 read.buf),
      length-drop 15 read.buf,
      h.0,
    );
    gotten = omega (arith, m.gotten);
    put = m.put;
    end = m.end;
  }

  hand_over-advanced :
      (r : Reader) (read : Read)
      → read.stopped ≡ false
      → hand_over cost stream_id remote_ip r read
        ≡ after_read
            (advanced r
              (Bandwidth.wait cost r.bandwidth remote_ip read.n read.now read.later read.stopped).0
              read)
            read.err
  unfolding hand_over advanced
  hand_over-advanced r read s = if_then _ _ _ (
      ap (λ b. (Bandwidth.wait cost r.bandwidth remote_ip read.n read.now read.later b).1) s
      ∙ wait_open cost remote_ip read.n read.now read.later r.bandwidth)

  round-Moved :
      (r : Reader) (read : Read) (rest : List Read)
      → r.ended ≡ none
      → IsRead read
      → read.stopped ≡ false
      → Moves rest
      → Moved r
          (read_from_connection cost stream_id remote_ip
            (round cost stream_id remote_ip r read)
            rest)
          (pieces (read ∷ rest))
          (ending (read ∷ rest))
  unfolding round advanced
  round-Moved r read rest e h s m = elim (Bool-cases (read.n == 0)) [
    | inl k ↦ rw k (after_read-Moved r read.err rest e m)
    | inr k ↦
        let b =
          (Bandwidth.wait cost r.bandwidth remote_ip read.n read.now read.later read.stopped).0 in
        let a = after_read-Moved (advanced r b read) read.err rest e m in
        rw (k, hand_over-advanced r read s) (advanced-Moved r _ b read _ _ h a)
  ]

  read-Moved : (reads : List Read) → All IsOpen reads → Moves reads
  unfolding read_from_connection Moves step_on
  read-Moved [] h r e = still r e
  read-Moved (read ∷ rest) h r e =
      subst
        (λ o.
          Moved r
            (read_from_connection cost stream_id remote_ip
              (step_on cost stream_id remote_ip r o read) rest)
            (pieces (read ∷ rest)) (ending (read ∷ rest)))
        (sym e) (round-Moved r read rest e h.0.0 h.0.1 (read-Moved rest h.1))

-- As long as the connection does not close: a client that reads the frames of a stream one after another
-- gets exactly the bytes that came from the target, in their order, up to the first error of a read; all
-- of them are counted, modulo 2^64; the stream is closed at that error with its reason, and not
-- otherwise; and of the buffers taken from the pool, each is behind a frame, given back, or in use.
pub received :
    (cost : ℕ → ℕ → ℕ) (stream_id : ℕ) (remote_ip : String) (bandwidth : Option BandwidthLimiter)
    (reads : List Read)
    → All IsOpen reads
    → let q = read_from_connection cost stream_id remote_ip (new_reader bandwidth) reads in
      (download (length q.handed) (0x02 ∷ put_le32 stream_id) (concat q.handed)
        ≡ some (concat (pieces reads)))
      × (q.egress_bytes ≡ length (concat (pieces reads)) % 2 ^ 64)
      × (q.ended ≡ ending reads)
      × (q.got ≡ length q.handed + (q.put_back + open_count q.ended))
unfolding new_reader Moves
received cost stream_id remote_ip bandwidth reads h =
    let m = read-Moved cost stream_id remote_ip reads h (new_reader bandwidth) refl in
    (
      subst
          (λ fs.
            download (length fs) (0x02 ∷ put_le32 stream_id) (concat fs)
            ≡ some (concat (pieces reads)))
          (sym m.frames)
          (download-framed stream_id (pieces reads) (pieces_bound reads (All-reads reads h))),
      omega (arith, m.counted (omega arith)),
      m.end,
      omega (arith, m.gotten, m.put, ap length m.frames, length-framed stream_id (pieces reads)),
    )
