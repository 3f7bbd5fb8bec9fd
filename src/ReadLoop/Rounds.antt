-- ===== src/ReadLoop/Rounds.antt =====
-- A round of the loop on the frames that a client writes.
use wispurr.Base.{
  ℕ, ◌+◌, ◌/◌, ◌%◌, ◌^◌, ◌≤◌, ◌<◌, ◌≡◌, refl, ap, List, [], ◌∷◌, ◌++◌, leb, length, if◌then◌else◌,
  arith, All, Bool-cases, inl, inr, leb→le,
}
use wispurr.Base.Bytes.{put_be16, put_be64, IsByte, be16-put_be16, be64-put_be64}
use wispurr.Masking.{MaskKey}
use wispurr.Masking.Laws.{IsKey}
use wispurr.FrameReader.Fill.{Inv, stream}
use wispurr.ReadLoop.{Loop, round, header_len, payload_len, mask_key}
use wispurr.ReadLoop.Decode.{Stands, Decoded, round-Decoded}

-- RFC 6455 on the sending side: a masked frame, with the first byte and the masked payload given.
abbrev pub len_bytes : ℕ → List ℕ
len_bytes n =
    if leb n 125 then (128 + n) ∷ [] else if leb n 65535 then 254 ∷ put_be16 n else 255 ∷ put_be64 n

abbrev pub client_frame : ℕ → MaskKey → List ℕ → List ℕ
client_frame b0 k body = b0 ∷ (len_bytes (length body) ++ (k.k0 ∷ k.k1 ∷ k.k2 ∷ k.k3 ∷ body))

-- The frames that the loop takes: no reserved bit, and a control frame is final and short.
pub record IsTaken (limit b0 : ℕ) (body : List ℕ) : Type 0 where
  pub no_reserved : b0 / 16 % 8 ≡ 0
  pub control : 8 ≤ b0 % 16 → (128 ≤ b0) × (length body ≤ 125)
  pub allowed : length body ≤ limit
  pub size : length body < 2 ^ 63

round_small :
    (limit b0 : ℕ) (k : MaskKey) (body rest : List ℕ) (l : Loop)
    → Inv l.reader
    → IsTaken limit b0 body
    → length body ≤ 125
    → stream l.reader ≡ b0 ∷ (128 + length body) ∷ k.k0 ∷ k.k1 ∷ k.k2 ∷ k.k3 ∷ (body ++ rest)
    → Stands limit b0
        (128 + length body)
        k
        (b0 ∷ (128 + length body) ∷ k.k0 ∷ k.k1 ∷ k.k2 ∷ k.k3 ∷ [])
        body
        rest
        l.reader
unfolding header_len payload_len mask_key
round_small limit b0 k body rest l v t h e = record {
  sound = v;
  front = e;
  whole = ground arith;
  fits = ground arith;
  sized = ground arith;
  keyed = ap (λ n. mask_key n (b0 ∷ (128 + length body) ∷ k.k0 ∷ k.k1 ∷ k.k2 ∷ k.k3 ∷ [])) six;
  short_length = ground arith;
  control = ground (arith, t.control);
  allowed = ground (arith, t.allowed);
}
  where
    six : header_len ((128 + length body) % 128) ≡ 6
    six = ground arith

round_medium :
    (limit b0 : ℕ) (k : MaskKey) (body rest : List ℕ) (l : Loop)
    → Inv l.reader
    → IsTaken limit b0 body
    → 125 < length body
    → length body ≤ 65535
    → stream l.reader
      ≡ (b0 ∷ 254 ∷ (put_be16 (length body) ++ (k.k0 ∷ k.k1 ∷ k.k2 ∷ k.k3 ∷ []))) ++ (body ++ rest)
    → Stands limit b0 254 k
        (b0 ∷ 254 ∷ (put_be16 (length body) ++ (k.k0 ∷ k.k1 ∷ k.k2 ∷ k.k3 ∷ [])))
        body
        rest
        l.reader
unfolding header_len payload_len mask_key
round_medium limit b0 k body rest l v t g h e = record {
  sound = v;
  front = e;
  whole = refl;
  fits = omega arith;
  sized = be16-put_be16 (length body) (omega arith);
  keyed = refl;
  short_length = refl;
  control = ground (arith, t.control);
  allowed = ground (arith, t.allowed);
}

round_large :
    (limit b0 : ℕ) (k : MaskKey) (body rest : List ℕ) (l : Loop)
    → Inv l.reader
    → IsTaken limit b0 body
    → 65535 < length body
    → stream l.reader
      ≡ (b0 ∷ 255 ∷ (put_be64 (length body) ++ (k.k0 ∷ k.k1 ∷ k.k2 ∷ k.k3 ∷ []))) ++ (body ++ rest)
    → Stands limit b0 255 k
        (b0 ∷ 255 ∷ (put_be64 (length body) ++ (k.k0 ∷ k.k1 ∷ k.k2 ∷ k.k3 ∷ [])))
        body
        rest
        l.reader
unfolding header_len payload_len mask_key
round_large limit b0 k body rest l v t g e = record {
  sound = v;
  front = e;
  whole = refl;
  fits = omega arith;
  sized = be64-put_be64 (length body) (omega (arith, t.size));
  keyed = refl;
  short_length = ground (arith, t.size);
  control = ground (arith, t.control);
  allowed = ground (arith, t.allowed);
}

-- A round on a frame of bytes that a client wrote, in whichever of the three length encodings, with no
-- reserved bit, at most as long as the limit and shorter than 2 ^ 63, and final and short if it is a
-- control frame: a sound reader takes the frame off the stream, however the Reads cut it, and its
-- payload is dispatched unmasked, for the opcode and the final bit of its first byte.
pub round-client_frame :
    (limit b0 : ℕ) (k : MaskKey) (body rest : List ℕ) (l : Loop)
    → Inv l.reader
    → IsKey k
    → All IsByte body
    → IsTaken limit b0 body
    → stream l.reader ≡ client_frame b0 k body ++ rest
    → Decoded limit b0 k body rest l (round limit l)
round-client_frame limit b0 k body rest l v ik ib t e = elim (Bool-cases (leb (length body) 125)) [
  | inl small ↦
      round-Decoded limit b0 (128 + length body) k (k.k0 ∷ k.k1 ∷ k.k2 ∷ k.k3 ∷ []) body rest l ik
        ib t.no_reserved (ground arith)
        (round_small limit b0 k body rest l v t (leb→le (length body) 125 small) (ground arith))
  | inr over ↦ elim (Bool-cases (leb (length body) 65535)) [
    | inl medium ↦
        round-Decoded limit b0 254 k (put_be16 (length body) ++ (k.k0 ∷ k.k1 ∷ k.k2 ∷ k.k3 ∷ []))
          body rest l ik ib t.no_reserved refl
          (round_medium limit b0 k body rest l v t (ground arith)
            (leb→le (length body) 65535 medium) (ground arith))
    | inr large ↦
        round-Decoded limit b0 255 k (put_be64 (length body) ++ (k.k0 ∷ k.k1 ∷ k.k2 ∷ k.k3 ∷ []))
          body rest l ik ib t.no_reserved refl
          (round_large limit b0 k body rest l v t (ground arith) (ground arith))
  ]
]
