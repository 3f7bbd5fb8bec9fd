-- ===== src/ReadLoop/Decode.antt =====
-- A round of the loop on a frame whose header is given.
use wispurr.Base.{
  ℕ, zero, suc, ◌+◌, ◌-◌, ◌/◌, ◌%◌, ◌≤◌, ◌≡◌, refl, sym, ap, ◌∙◌, List, [], ◌∷◌, ◌++◌, true, false,
  ◌&&◌, ◌||◌, not, Option, some, ◌==◌, leb, ltb, length, take, drop, get_or, if◌then◌else◌, arith,
  All, take-append_eq, drop-append_ge, length-append, take-append, drop-append,
}
use wispurr.Base.Bytes.{IsByte}
use wispurr.Masking.{MaskKey, mask_xor}
use wispurr.Masking.Laws.{IsKey, masked, mask_xor-masked}
use wispurr.FrameReader.{FrameReader, peek, consume, read_payload}
use wispurr.FrameReader.Fill.{Inv, stream}
use wispurr.FrameReader.Reads.{
  Peeked, sees, short_of, PayloadRead, reads, too_short, peek_lem, consume_lem, read_payload_lem,
}
use wispurr.ReadLoop.{
  Loop, Round, round, on_start, on_header, on_payload, read_sized, header_len, payload_len,
  mask_key, dispatch,
}

record Found (n : ℕ) (f : FrameReader) : Type 0 where
  pub reader : FrameReader
  pub sound : Inv reader
  pub same : stream reader ≡ stream f
  pub room : n ≤ reader.w - reader.r
  pub found : peek n f ≡ some (take n (stream f), reader)

sees-Found :
    (n : ℕ) (f : FrameReader) (o : Option (List ℕ × FrameReader))
    → o ≡ peek n f
    → n ≤ length (stream f)
    → Peeked n f o
    → Found n f
sees-Found n f o e h (sees g v s r) = record {
  reader = g;
  sound = v;
  same = s;
  room = r;
  found = sym e;
}
sees-Found n f o e h (short_of l) = absurd (omega (arith, h, l))

peek-Found : (n : ℕ) (f : FrameReader) → Inv f → n ≤ 14 → n ≤ length (stream f) → Found n f
peek-Found n f v h l = sees-Found n f (peek n f) refl l (peek_lem n f v h)

record Taken (n : ℕ) (f : FrameReader) : Type 0 where
  pub reader : FrameReader
  pub sound : Inv reader
  pub same : stream reader ≡ drop n (stream f)
  pub taken : read_sized n f ≡ some (take n (stream f), reader)

reads-Taken :
    (n : ℕ) (f : FrameReader) (o : Option (List ℕ × FrameReader))
    → read_sized n f ≡ o
    → n ≤ length (stream f)
    → PayloadRead n f o
    → Taken n f
reads-Taken n f o e h (reads g v s) = record { reader = g; sound = v; same = s; taken = e }
reads-Taken n f o e h (too_short l) = absurd (omega (arith, h, l))

read_sized-Taken : (n : ℕ) (f : FrameReader) → Inv f → n ≤ length (stream f) → Taken n f
unfolding read_sized
read_sized-Taken zero f v h = record { reader = f; sound = v; same = refl; taken = refl }
read_sized-Taken (suc n) f v h =
    reads-Taken (suc n) f (read_payload (suc n) f) (positive n _ _) h (read_payload_lem (suc n) f v)
  where
    positive : (m : ℕ) (x y : Option (List ℕ × FrameReader)) → (if ltb 0 (suc m) then x else y) ≡ x
    positive m x y = ground arith

unmasked :
    (body : List ℕ) (k : MaskKey)
    → IsKey k
    → All IsByte body
    → (if ltb 0 (length body) then mask_xor body k else body) ≡ masked k body
unmasked [] k h b = refl
unmasked (x ∷ xs) k h b = ground (arith, mask_xor-masked (x ∷ xs) k h b)

-- Where a frame stands at the front of the stream, with its header `hdr` and what the loop has to find.
pub record Stands (limit b0 b1 : ℕ) (k : MaskKey) (hdr body rest : List ℕ) (f : FrameReader)
    : Type 0 where
  pub sound : Inv f
  pub front : stream f ≡ hdr ++ (body ++ rest)
  pub whole : length hdr ≡ header_len (b1 % 128)
  pub fits : header_len (b1 % 128) ≤ 14
  pub sized : payload_len (b1 % 128) hdr ≡ length body
  pub keyed : mask_key (header_len (b1 % 128)) hdr ≡ k
  pub short_length : (b1 % 128 == 127 && leb 128 (get_or hdr 2 0)) ≡ false
  pub control : (leb 8 (b0 % 16) && (not (leb 128 b0) || ltb 125 (length body))) ≡ false
  pub allowed : ltb limit (length body) ≡ false

on_header-on_payload :
    (limit b0 b1 n : ℕ) (l : Loop) (hdr : List ℕ) (f : FrameReader)
    → payload_len (b1 % 128) hdr ≡ n
    → (b1 % 128 == 127 && leb 128 (get_or hdr 2 0)) ≡ false
    → (leb 8 (b0 % 16) && (not (leb 128 b0) || ltb 125 n)) ≡ false
    → ltb limit n ≡ false
    → on_header limit l b0 b1 (some (hdr, f))
      ≡ on_payload limit l
          (leb 128 b0)
          (b0 % 16)
          (mask_key (header_len (b1 % 128)) hdr)
          (read_sized n (consume (header_len (b1 % 128)) f))
unfolding on_header
on_header-on_payload limit b0 b1 n l hdr f e s c a = rw (e, s, c, a) refl

-- What a round does on a frame: it takes the frame off the stream and hands its payload on, unmasked.
pub record Decoded (limit b0 : ℕ) (k : MaskKey) (body rest : List ℕ) (l : Loop) (r : Round)
    : Type 0 where
  pub reader : FrameReader
  pub sound : Inv reader
  pub left : stream reader ≡ rest
  pub handed :
      r ≡ dispatch limit (record l { reader = reader }) (leb 128 b0) (b0 % 16) (masked k body)

on_header-Decoded :
    (limit b0 b1 : ℕ) (k : MaskKey) (hdr body rest : List ℕ) (l : Loop) (f : FrameReader)
    → IsKey k
    → All IsByte body
    → Stands limit b0 b1 k hdr body rest f
    → Decoded limit b0 k body rest l (on_header limit l b0 b1 (peek (header_len (b1 % 128)) f))
unfolding on_payload
on_header-Decoded limit b0 b1 k hdr body rest l f ik ib st = record {
  reader = t.reader;
  sound = t.sound;
  left = t.same ∙ ap (drop (length body)) behind ∙ drop-append body rest;
  handed =
      ap (on_header limit l b0 b1) (p.found ∙ ap (λ h. some (h, p.reader)) header)
      ∙ on_header-on_payload limit b0 b1 (length body) l hdr p.reader st.sized st.short_length
          st.control st.allowed
      ∙ ap (on_payload limit l (leb 128 b0) (b0 % 16) (mask_key (header_len (b1 % 128)) hdr)) (
          t.taken
          ∙ ap (λ xs. some (xs, t.reader)) (ap (take (length body)) behind ∙ take-append body rest))
      ∙ ap (dispatch limit (record l { reader = t.reader }) (leb 128 b0) (b0 % 16)) (
          ap (λ key. if ltb 0 (length body) then mask_xor body key else body) st.keyed
          ∙ unmasked body k ik ib);
}
  where
    enough_bytes : header_len (b1 % 128) + length body ≤ length (stream f)
    enough_bytes = omega (
      arith,
      ap length st.front,
      length-append hdr (body ++ rest),
      length-append body rest,
      st.whole,
    )

    p : Found (header_len (b1 % 128)) f
    p = peek-Found (header_len (b1 % 128)) f st.sound st.fits (omega (arith, enough_bytes))

    header : take (header_len (b1 % 128)) (stream f) ≡ hdr
    header =
        ap (take (header_len (b1 % 128))) st.front
        ∙ take-append_eq (header_len (b1 % 128)) hdr (body ++ rest) (sym st.whole)

    c : FrameReader
    c = consume (header_len (b1 % 128)) p.reader

    consumed : Inv c × (stream c ≡ drop (header_len (b1 % 128)) (stream p.reader))
    consumed = consume_lem (header_len (b1 % 128)) p.reader p.sound p.room

    behind : stream c ≡ body ++ rest
    behind =
        consumed.1
        ∙ ap (drop (header_len (b1 % 128))) (p.same ∙ st.front)
        ∙ drop-append_ge (header_len (b1 % 128)) 0 hdr (body ++ rest) (omega (arith, st.whole))

    t : Taken (length body) c
    t =
        read_sized-Taken (length body) c consumed.0
          (omega (arith, ap length behind, length-append body rest))

on_start-on_header :
    (limit b0 b1 : ℕ) (l : Loop) (f : FrameReader)
    → b0 / 16 % 8 ≡ 0
    → leb 128 b1 ≡ true
    → on_start limit l (some (b0 ∷ b1 ∷ [], f))
      ≡ on_header limit l b0 b1 (peek (header_len (b1 % 128)) f)
unfolding on_start
on_start-on_header limit b0 b1 l f z m = rw (z, m) refl

pub round-Decoded :
    (limit b0 b1 : ℕ) (k : MaskKey) (hdr body rest : List ℕ) (l : Loop)
    → IsKey k
    → All IsByte body
    → b0 / 16 % 8 ≡ 0
    → leb 128 b1 ≡ true
    → Stands limit b0 b1 k (b0 ∷ b1 ∷ hdr) body rest l.reader
    → Decoded limit b0 k body rest l (round limit l)
unfolding round
round-Decoded limit b0 b1 k hdr body rest l ik ib z m st = record {
  reader = d.reader;
  sound = d.sound;
  left = d.left;
  handed =
      ap (on_start limit l) (p.found ∙ ap (λ h. some (h, p.reader)) (ap (take 2) st.front))
      ∙ on_start-on_header limit b0 b1 l p.reader z m
      ∙ d.handed;
}
  where
    p : Found 2 l.reader
    p = peek-Found 2 l.reader st.sound (omega arith) (omega (arith, ap length st.front))

    d :
        Decoded limit b0 k body rest l
          (on_header limit l b0 b1 (peek (header_len (b1 % 128)) p.reader))
    d = on_header-Decoded limit b0 b1 k (b0 ∷ b1 ∷ hdr) body rest l p.reader ik ib (record {
      sound = p.sound;
      front = p.same ∙ st.front;
      whole = st.whole;
      fits = st.fits;
      sized = st.sized;
      keyed = st.keyed;
      short_length = st.short_length;
      control = st.control;
      allowed = st.allowed;
    })
