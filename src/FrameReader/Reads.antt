-- ===== src/FrameReader/Reads.antt =====
-- The reader gives the bytes of the connection in order, however the Reads cut them.
use wispurr.Base.{
  if_intro, ℕ, ◌+◌, ◌-◌, ◌≤◌, ◌<◌, ◌≡◌, refl, sym, ap, ◌∙◌, List, [], ◌++◌, Option, none, some,
  ◌==◌, leb, ltb, length, take, drop, arith, leb→le, take-append_le, take-append_ge, take-take,
  drop-take, drop-drop, drop-append_le, drop-append_ge, Bool-cases, inl, inr,
}
use wispurr.FrameReader.{
  Conn, FrameReader, new_frame_reader, slice, compact, fill, peek, peek_filled, consume, read_full,
  read_rest, read_payload,
}
use wispurr.FrameReader.Fill.{
  Inv, held, stream, length-held, compact-Front, length-stream, Filled, ltb-false, leb-false,
  fill_loop-Filled, enough, short,
}

-- What a peek at `n` bytes gives: the next `n` bytes of the stream, which all stay to be read, or an
-- error on a stream that is shorter.
pub data Peeked (n : ℕ) (f : FrameReader) : Option (List ℕ × FrameReader) → Type 0 where
  sees :
      (g : FrameReader)
      → Inv g
      → stream g ≡ stream f
      → n ≤ g.w - g.r
      → Peeked n f (some (take n (stream f), g))
  short_of : length (stream f) < n → Peeked n f none

take-held :
    (n : ℕ) (g : FrameReader)
    → Inv g
    → n ≤ g.w - g.r
    → slice g.buf g.r (g.r + n) ≡ take n (stream g)
take-held n g v h =
    ap (λ k. take k (drop g.r g.buf)) shift
    ∙ sym (
        take-append_le n (held g) g.conn.incoming (omega (arith, length-held g v, h))
        ∙ take-take n (g.w - g.r) (drop g.r g.buf) h)
  where
    shift : g.r + n - g.r ≡ n
    shift = omega arith

filled-Peeked :
    (n : ℕ) (f g : FrameReader)
    → Inv g
    → stream g ≡ stream f
    → n ≤ g.w - g.r
    → Peeked n f (peek_filled n (some g))
unfolding peek_filled
filled-Peeked n f g v e h = rw (take-held n g v h ∙ ap (take n) e) (sees g v e h)

loop-Peeked :
    (n : ℕ) (f g : FrameReader) (o : Option FrameReader)
    → stream g ≡ stream f
    → Filled n g o
    → Peeked n f (peek_filled n o)
loop-Peeked n f g o e (enough k fr h) = filled-Peeked n f k fr.sound (fr.same ∙ e) h
loop-Peeked n f g o e (short h) = unfold peek_filled in short_of (omega (arith, h, ap length e))

-- A peek at up to 14 bytes of a reader whose indices are in order gives the next bytes of its stream,
-- however the Reads cut them, and loses none; it fails only on a stream that is shorter.
pub peek_lem : (n : ℕ) (f : FrameReader) → Inv f → n ≤ 14 → Peeked n f (peek n f)
unfolding peek fill
peek_lem n f v h =
    if_intro (λ o. Peeked n f (peek_filled n o)) (leb n (f.w - f.r)) (some f) _
      (λ e. filled-Peeked n f f v refl (leb→le n (f.w - f.r) e))
      (λ e.
        let c = compact-Front f v in
        loop-Peeked n f (compact f) _ c.same
          (fill_loop-Filled n n (compact f) c.sound c.front h (omega arith)))

consume_all :
    (n : ℕ) (f : FrameReader) → Inv f → f.r + n ≡ f.w → f.conn.incoming ≡ drop n (stream f)
consume_all n f v e =
    sym (drop-append_ge n 0 (held f) f.conn.incoming (omega (arith, length-held f v, e)))

consume_some :
    (n : ℕ) (f : FrameReader)
    → Inv f
    → n ≤ f.w - f.r
    → slice f.buf (f.r + n) f.w ++ f.conn.incoming ≡ drop n (stream f)
consume_some n f v h = sym (
    drop-append_le n (held f) f.conn.incoming (omega (arith, length-held f v, h))
    ∙ ap (λ xs. xs ++ f.conn.incoming)
        (drop-take n (f.w - f.r) (f.w - (f.r + n)) (drop f.r f.buf) (omega (arith, h, v.ordered))
          ∙ ap (take (f.w - (f.r + n))) (drop-drop f.r n (f.r + n) f.buf refl)))

-- Consuming no more bytes than are held, by a reader whose indices are in order, takes as many off the
-- front of the stream, and no others, and leaves the indices in order.
pub consume_lem :
    (n : ℕ) (f : FrameReader)
    → Inv f
    → n ≤ f.w - f.r
    → Inv (consume n f) × (stream (consume n f) ≡ drop n (stream f))
unfolding consume
consume_lem n f v h = elim (Bool-cases (f.r + n == f.w)) [
  | inl e ↦ ground (arith, consume_all n f v)
  | inr e ↦ ground (arith, consume_some n f v h)
]

-- What reading `n` bytes of payload gives: the next `n` bytes of the stream, which are taken off it, or
-- an error on a stream that is shorter.
pub data PayloadRead (n : ℕ) (f : FrameReader) : Option (List ℕ × FrameReader) → Type 0 where
  reads :
      (g : FrameReader)
      → Inv g
      → stream g ≡ drop n (stream f)
      → PayloadRead n f (some (take n (stream f), g))
  too_short : length (stream f) < n → PayloadRead n f none

-- The bytes that are held first, and `m` of the connection behind them, if nothing stays held.
rest_reads :
    (n m : ℕ) (f g : FrameReader)
    → Inv f
    → Inv g
    → f.w - f.r + m ≡ n
    → held g ≡ []
    → PayloadRead n f (
        some (
          held f ++ take m f.conn.incoming,
          record g { conn = record f.conn { incoming = drop m f.conn.incoming } },
        ))
rest_reads n m f g v gv e z = rw (sym (take-append_ge n m (held f) f.conn.incoming len)) (
    reads _ (record { sized = gv.sized; ordered = gv.ordered; bounded = gv.bounded })
      (ap (λ xs. xs ++ drop m f.conn.incoming) z
        ∙ sym (drop-append_ge n m (held f) f.conn.incoming len)))
  where
    len : length (held f) + m ≡ n
    len = omega (arith, length-held f v, e)

rest-PayloadRead :
    (n m : ℕ) (f g : FrameReader)
    → Inv f
    → Inv g
    → f.w - f.r + m ≡ n
    → held g ≡ []
    → PayloadRead n f (read_rest (held f) g (read_full m f.conn))
unfolding read_rest read_full
rest-PayloadRead n m f g v gv e z = elim (Bool-cases (leb m (length f.conn.incoming))) [
  | inl h ↦ rw (h, read_full) (rest_reads n m f g v gv e z)
  | inr h ↦
      rw (h, read_full)
        (too_short (omega (arith, e, leb-false m (length f.conn.incoming) h, length-stream f v)))
]

-- With `n` bytes held, they are read from the buffer.
held_reads :
    (n : ℕ) (f : FrameReader)
    → Inv f
    → n ≤ f.w - f.r
    → PayloadRead n f (some (slice f.buf f.r (f.r + n), consume n f))
held_reads n f v h =
    let (sound, same) = consume_lem n f v h in
    rw (take-held n f v h) (reads (consume n f) sound same)

nothing_held : (f : FrameReader) → Inv f → f.w - f.r ≡ 0 → held f ≡ []
nothing_held f v e = rw e refl

-- Reading a payload, by a reader whose indices are in order, gives the next bytes of the stream and
-- takes them off it, whether they are all held, in part or not at all; it fails only on a stream that
-- is shorter.
pub read_payload_lem : (n : ℕ) (f : FrameReader) → Inv f → PayloadRead n f (read_payload n f)
unfolding read_payload
read_payload_lem n f v =
    if_intro (PayloadRead n f) (ltb 0 (f.w - f.r)) _ _
      (λ some_held.
        if_intro (PayloadRead n f) (leb n (f.w - f.r)) _ _
          (λ e. held_reads n f v (leb→le n (f.w - f.r) e))
          (λ e.
            rest-PayloadRead n (n - (f.w - f.r)) f (record f { r = 0; w = 0 }) v
              (record { sized = v.sized; ordered = omega arith; bounded = omega arith })
              (omega (arith, leb-false n (f.w - f.r) e)) refl))
      (λ e.
        let none_held = ltb-false 0 (f.w - f.r) e in
        rw (sym (nothing_held f v (omega (arith, none_held)))) (
          rest-PayloadRead n n f f v v (omega (arith, none_held))
            (nothing_held f v (omega (arith, none_held)))))

-- A new reader holds nothing, and its stream is the connection's.
pub new_frame_reader_lem :
    (c : Conn) → Inv (new_frame_reader c) × (stream (new_frame_reader c) ≡ c.incoming)
unfolding new_frame_reader
new_frame_reader_lem c =
    (record { sized = refl; ordered = omega arith; bounded = omega arith }, refl)
