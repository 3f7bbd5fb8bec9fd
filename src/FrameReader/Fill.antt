-- ===== src/FrameReader/Fill.antt =====
-- Filling the buffer: what `fill` holds in the end, however the Reads cut the bytes.
use wispurr.Base.{
  if_intro, ℕ, zero, suc, ◌+◌, ◌-◌, ◌≤◌, ◌<◌, ◌≡◌, refl, sym, ap, ◌∙◌, List, ◌++◌, true, false,
  Option, none, some, leb, ltb, length, take, drop, arith, leb→le, length-take, length-drop,
  length-append, take-append_eq, take-append-drop, append_assoc, Bool-cases, inl, inr,
  if◌then◌else◌, ◌⊎◌,
}
use wispurr.FrameReader.{
  Conn, FrameReader, slice, read_count, read_fails, next_bound, compact, store_read, after_read,
  fill_loop,
}

pub record Inv (f : FrameReader) : Type 0 where
  pub sized : length f.buf ≡ 14
  pub ordered : f.r ≤ f.w
  pub bounded : f.w ≤ 14

-- The bytes that the reader holds, and all that are still to be read.
abbrev pub held : FrameReader → List ℕ
held f = slice f.buf f.r f.w

abbrev pub stream : FrameReader → List ℕ
stream f = held f ++ f.conn.incoming

pub length-held : (f : FrameReader) → Inv f → length (held f) ≡ f.w - f.r
length-held f v = omega (
  arith,
  length-take (f.w - f.r) (drop f.r f.buf),
  length-drop f.r f.buf,
  v.sized,
  v.ordered,
  v.bounded,
)

-- What it takes for a reader to stand at the front of its buffer with the same bytes.
pub record Front (f g : FrameReader) : Type 0 where
  pub sound : Inv g
  pub same : stream g ≡ stream f
  pub front : g.r ≡ 0

pub compact-Front : (f : FrameReader) → Inv f → Front f (compact f)
unfolding compact
compact-Front f v = elim (Bool-cases (ltb 0 f.r)) [
  | inl e ↦ ground (
    arith,
    length-held f v,
    length-append (held f) (drop (f.w - f.r) f.buf),
    length-drop (f.w - f.r) f.buf,
    take-append_eq (f.w - f.r) (held f) (drop (f.w - f.r) f.buf),
  )
  | inr e ↦ ground arith
]

read_count_lem :
    (c : Conn) (room : ℕ)
    → (read_count c room ≤ room)
      × (read_count c room ≤ length c.incoming)
      × (read_count c room ≡ 0 → (room ≡ 0) ⊎ (length c.incoming ≡ 0))
unfolding read_count next_bound
read_count_lem c room = ground arith

-- What stands in front of the buffer once `n` bytes are stored behind its first `w`.
take-stored :
    (w n : ℕ) (buf bytes : List ℕ)
    → w ≤ length buf
    → n ≤ length bytes
    → take (w + n) (take w buf ++ (take n bytes ++ drop (w + n) buf)) ≡ take w buf ++ take n bytes
take-stored w n buf bytes hw hn =
    ap (take (w + n)) (sym (append_assoc (take w buf) (take n bytes) (drop (w + n) buf)))
    ∙ take-append_eq (w + n) (take w buf ++ take n bytes) (drop (w + n) buf) (
        omega (
          arith,
          length-append (take w buf) (take n bytes),
          length-take w buf,
          length-take n bytes,
        ))

length-stored :
    (w n : ℕ) (buf bytes : List ℕ)
    → n ≤ length bytes
    → w + n ≤ length buf
    → length (take w buf ++ (take n bytes ++ drop (w + n) buf)) ≡ length buf
length-stored w n buf bytes hn h = omega (
  arith,
  length-append (take w buf) (take n bytes ++ drop (w + n) buf),
  length-append (take n bytes) (drop (w + n) buf),
  length-take w buf,
  length-take n bytes,
  length-drop (w + n) buf,
)

held_front : (f : FrameReader) → f.r ≡ 0 → held f ≡ take f.w f.buf
held_front f z = rw z (ap (λ k. take k f.buf) minus_zero)
  where
    minus_zero : f.w - 0 ≡ f.w
    minus_zero = omega arith

store_read-Front :
    (f : FrameReader) (n : ℕ)
    → Inv f
    → f.r ≡ 0
    → n ≤ 14 - f.w
    → n ≤ length f.conn.incoming
    → Front f (store_read f n)
unfolding store_read after_read
store_read-Front f n v z room h = record {
  sound = record {
    sized =
        length-stored f.w n f.buf f.conn.incoming h (omega (arith, v.sized, v.bounded, room))
        ∙ v.sized;
    ordered = omega (arith, v.ordered);
    bounded = omega (arith, v.bounded, room);
  };
  same =
      ap (λ xs. xs ++ drop n f.conn.incoming)
        (held_front (store_read f n) z
          ∙ take-stored f.w n f.buf f.conn.incoming (omega (arith, v.sized, v.bounded)) h)
      ∙ append_assoc (take f.w f.buf) (take n f.conn.incoming) (drop n f.conn.incoming)
      ∙ ap (λ xs. take f.w f.buf ++ xs) (take-append-drop n f.conn.incoming)
      ∙ ap (λ xs. xs ++ f.conn.incoming) (sym (held_front f z));
  front = z;
}

pub length-stream :
    (f : FrameReader) → Inv f → length (stream f) ≡ f.w - f.r + length f.conn.incoming
length-stream f v = omega (arith, length-append (held f) f.conn.incoming, length-held f v)

-- How a call that wants `wanted` bytes ends: with that many held of the same stream, or with an error
-- on a stream that is shorter.
pub data Filled (wanted : ℕ) (f : FrameReader) : Option FrameReader → Type 0 where
  enough : (g : FrameReader) → Front f g → wanted ≤ g.w - g.r → Filled wanted f (some g)
  short : length (stream f) < wanted → Filled wanted f none

pub ltb-false : (a b : ℕ) → ltb a b ≡ false → b ≤ a
ltb-false a b h = ground arith

pub leb-false : (a b : ℕ) → leb a b ≡ false → b < a
leb-false a b h = ground arith

-- After a Read that leaves nothing to come, the stream is what is held.
last-Filled :
    (wanted : ℕ) (f g : FrameReader)
    → Front f g
    → length g.conn.incoming ≡ 0
    → Filled wanted f (if leb wanted (g.w - g.r) then some g else none)
last-Filled wanted f g fr e =
    if_intro (Filled wanted f) (leb wanted (g.w - g.r)) (some g) none
      (λ h. enough g fr (leb→le wanted (g.w - g.r) h))
      (λ h. short (
        omega
          (arith, leb-false wanted (g.w - g.r) h, e, length-stream g fr.sound, ap length fr.same)))

Front-trans : {f g k : FrameReader} → Front f g → Front g k → Front f k
Front-trans fr gr = record { sound = gr.sound; same = gr.same ∙ fr.same; front = gr.front }

Filled-Front :
    (wanted : ℕ) (f g : FrameReader) (o : Option FrameReader)
    → Front f g
    → Filled wanted g o
    → Filled wanted f o
Filled-Front wanted f g o fr (enough k kr h) = enough k (Front-trans fr kr) h
Filled-Front wanted f g o fr (short h) = short (omega (arith, h, ap length fr.same))

-- A Read that fails has returned all that was to come.
read_fails_lem :
    (c : Conn) (room : ℕ)
    → 0 < room
    → read_fails c (read_count c room) ≡ true
    → read_count c room ≡ length c.incoming
unfolding read_fails
read_fails_lem c room h e = ground (arith, read_count_lem c room)

read_fails_progress :
    (c : Conn) (room : ℕ) → read_fails c (read_count c room) ≡ false → 0 < read_count c room
unfolding read_fails
read_fails_progress c room e = ground arith

-- A round of the loop that has room: the Read, and what is left to come.
round-Front :
    (f : FrameReader) → Inv f → f.r ≡ 0 → Front f (store_read f (read_count f.conn (14 - f.w)))
round-Front f v z =
    let (room, fits, progress) = read_count_lem f.conn (14 - f.w) in
    store_read-Front f (read_count f.conn (14 - f.w)) v z room fits

store_read_lem :
    (f : FrameReader) (n : ℕ)
    → ((store_read f n).w ≡ f.w + n)
      × (length (store_read f n).conn.incoming ≡ length f.conn.incoming - n)
unfolding store_read after_read
store_read_lem f n = (refl, length-drop n f.conn.incoming)

pub fill_loop-Filled :
    (fuel wanted : ℕ) (f : FrameReader)
    → Inv f
    → f.r ≡ 0
    → wanted ≤ 14
    → wanted ≤ fuel + f.w
    → Filled wanted f (fill_loop fuel wanted f)
unfolding fill_loop
fill_loop-Filled zero wanted f v z h u =
    if_intro (Filled wanted f) (leb wanted (f.w - f.r)) (some f) none
      (λ e. enough f (record { sound = v; same = refl; front = z }) (leb→le wanted (f.w - f.r) e))
      (λ e. absurd (omega (arith, leb-false wanted (f.w - f.r) e)))
fill_loop-Filled (suc fuel) wanted f v z h u =
    let n = read_count f.conn (14 - f.w) in
    let fr = round-Front f v z in
    if_intro (Filled wanted f) (leb wanted (f.w - f.r)) (some f) _
      (λ e. enough f (record { sound = v; same = refl; front = z }) (leb→le wanted (f.w - f.r) e))
      (λ e.
        if_intro (Filled wanted f) (read_fails f.conn n) _ _
          (λ k. last-Filled wanted f (store_read f n) fr (
            omega (
              arith,
              (store_read_lem f n).1,
              read_fails_lem f.conn (14 - f.w) (omega (arith, leb-false wanted (f.w - f.r) e)) k,
            )))
          (λ k. Filled-Front wanted f (store_read f n) _ fr (
            fill_loop-Filled fuel wanted (store_read f n) fr.sound fr.front h
              (omega (arith, (store_read_lem f n).0, read_fails_progress f.conn (14 - f.w) k)))))
