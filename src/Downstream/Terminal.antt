-- ===== src/Downstream/Terminal.antt =====
-- What readPty hands over.
use mathlib.Core.Path.{subst}
use wispurr.Base.{
  ℕ, ◌≡◌, refl, sym, ap, ◌∙◌, List, [], ◌∷◌, ◌++◌, Option, none, some, ◌==◌, length, append_assoc,
  append-nil, All, Bool-cases, inl, inr,
}
use wispurr.Base.Bytes.{put_le32}
use wispurr.Frames.{data_frame, header_writes, wisp_writes, max_header_len}
use wispurr.Downstream.{ReadError, eof, read_failed, Read, Ending, closes, reason_of}
use wispurr.Downstream.Pty.{
  pty_header, pty_packet, pty_frame, pty_reason, PtyReader, new_pty, pty_after, pty_round, pty_step,
  read_pty,
}
use wispurr.Downstream.Client.{
  concat, download, framed, download-framed, piece, until, pieces, IsRead, pieces_bound,
  data_frame-piece,
}
use wispurr.Downstream.Received.{end_at, ending}

-- The frame that readPty builds is that of readFromConnection, and so is the reason of an error.
pty_frame-data_frame :
    (stream_id : ℕ) (buf : List ℕ) (n : ℕ) → pty_frame stream_id buf n ≡ data_frame stream_id buf n
unfolding pty_frame pty_header pty_packet data_frame header_writes wisp_writes max_header_len
pty_frame-data_frame stream_id buf n = refl

pty_reason-reason_of : (e : ReadError) → pty_reason e ≡ reason_of e
unfolding pty_reason reason_of
pty_reason-reason_of eof = refl
pty_reason-reason_of read_failed = refl

module _ (stream_id : ℕ) where
  abbrev Moved : PtyReader → PtyReader → List (List ℕ) → Option Ending → Type 0
  Moved r q bs e = (q.handed ≡ r.handed ++ framed stream_id bs) × (q.ended ≡ e)

  ended_stays :
      (r : PtyReader) (e : Ending) (rest : List Read)
      → r.ended ≡ some e
      → read_pty stream_id r rest ≡ r
  unfolding read_pty pty_step
  ended_stays r e [] h = refl
  ended_stays r e (x ∷ rest) h =
      ap (λ o. read_pty stream_id (pty_step stream_id r o x) rest) h ∙ ended_stays r e rest h

  Moves : List Read → Type 0
  Moves rest =
      (r : PtyReader)
      → r.ended ≡ none
      → Moved r (read_pty stream_id r rest) (pieces rest) (ending rest)

  after-Moved :
      (r : PtyReader) (err : Option ReadError) (rest : List Read)
      → r.ended ≡ none
      → Moves rest
      → Moved r
          (read_pty stream_id (pty_after r err) rest)
          (until err (pieces rest))
          (end_at err (ending rest))
  unfolding pty_after Moves
  after-Moved r none rest e m = m r e
  after-Moved r (some x) rest e m =
      subst (λ q. Moved r q [] (some (closes (reason_of x))))
        (sym (ended_stays (pty_after r (some x)) (closes (pty_reason x)) rest refl))
        (sym (append-nil r.handed), ap (λ n. some (closes n)) (pty_reason-reason_of x))

  advanced-Moved :
      (r q : PtyReader) (read : Read) (bs : List (List ℕ)) (e : Option Ending)
      → IsRead read
      → Moved (record r { handed = r.handed ++ (pty_frame stream_id read.buf read.n ∷ []) }) q bs e
      → Moved r q (piece read ∷ bs) e
  advanced-Moved r q read bs e h m = (
    m.0
        ∙ append_assoc r.handed (pty_frame stream_id read.buf read.n ∷ []) (framed stream_id bs)
        ∙ ap (λ f. r.handed ++ (f ∷ framed stream_id bs))
            (pty_frame-data_frame stream_id read.buf read.n ∙ data_frame-piece stream_id read h),
    m.1,
  )

  round-Moved :
      (r : PtyReader) (read : Read) (rest : List Read)
      → r.ended ≡ none
      → IsRead read
      → Moves rest
      → Moved r
          (read_pty stream_id (pty_round stream_id r read) rest)
          (pieces (read ∷ rest))
          (ending (read ∷ rest))
  unfolding pty_round
  round-Moved r read rest e h m = elim (Bool-cases (read.n == 0)) [
    | inl k ↦ rw k (after-Moved r read.err rest e m)
    | inr k ↦
        let r' : PtyReader = record r {
          handed = r.handed ++ (pty_frame stream_id read.buf read.n ∷ []);
        } in
        rw k (advanced-Moved r _ read _ _ h (after-Moved r' read.err rest e m))
  ]

  read-Moved : (reads : List Read) → All IsRead reads → Moves reads
  unfolding read_pty Moves pty_step
  read-Moved [] h r e = (sym (append-nil r.handed), e)
  read-Moved (read ∷ rest) h r e =
      subst
        (λ o.
          Moved r (read_pty stream_id (pty_step stream_id r o read) rest) (pieces (read ∷ rest))
            (ending (read ∷ rest)))
        (sym e) (round-Moved r read rest e h.0 (read-Moved rest h.1))

-- A client that reads the frames of a terminal one after another gets exactly the bytes that the terminal
-- put out, in their order, up to the first error of a read; and the terminal is closed at that error, for
-- an error other than the end with the reason of a network error, and not otherwise.
pub read_pty-download :
    (stream_id : ℕ) (reads : List Read)
    → All IsRead reads
    → let q = read_pty stream_id new_pty reads in
      (download (length q.handed) (0x02 ∷ put_le32 stream_id) (concat q.handed)
        ≡ some (concat (pieces reads)))
      × (q.ended ≡ ending reads)
unfolding Moves
read_pty-download stream_id reads h =
    let m = read-Moved stream_id reads h new_pty refl in
    (
      subst
          (λ fs.
            download (length fs) (0x02 ∷ put_le32 stream_id) (concat fs)
            ≡ some (concat (pieces reads)))
          (sym m.0) (download-framed stream_id (pieces reads) (pieces_bound reads h)),
      m.1,
    )
