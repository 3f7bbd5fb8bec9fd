-- ===== src/Downstream/Client.antt =====
-- What a client reads of the frames of a target's bytes.
use wispurr.Base.{
  ℕ, zero, suc, ◌+◌, ◌^◌, ◌<◌, ◌≤◌, ◌≡◌, refl, sym, ap, ◌∙◌, List, [], ◌∷◌, ◌++◌, true, Option,
  none, some, ◌==◌, ◌&&◌, if_then, if◌then◌else◌, arith, length, take, drop, take-append-drop,
  length-take, length-drop, All, if_intro,
}
use wispurr.Base.Bytes.{put_le32}
use wispurr.Base.Map.{same_list, same_list_iff}
use wispurr.Frames.{raw_frame, data_frame}
use wispurr.Frames.RoundTrip.{Frame, read_frame, read_frame-raw_frame, data_frame-raw_frame}
use wispurr.Downstream.{ReadError, Read}

abbrev pub concat : List (List ℕ) → List ℕ
concat [] = []
concat (xs ∷ xss) = xs ++ concat xss

-- A client that reads so many frames, all binary ones with a DATA packet of the stream, and nothing more.
abbrev pub strip_frame : List ℕ → Option Frame → Option (List ℕ × List ℕ)
strip_frame want none = none
strip_frame want (some f) =
    if (f.first == 0x82) && same_list (take 5 f.payload) want
    then some (drop 5 f.payload, f.rest)
    else none

abbrev pub join_on : List ℕ → Option (List ℕ) → Option (List ℕ)
join_on chunk none = none
join_on chunk (some rest) = some (chunk ++ rest)

abbrev pub next : (List ℕ → Option (List ℕ)) → Option (List ℕ × List ℕ) → Option (List ℕ)
next rest none = none
next rest (some (chunk, bytes)) = join_on chunk (rest bytes)

unfoldable pub download : ℕ → List ℕ → List ℕ → Option (List ℕ)
download zero want [] = some []
download zero want (b ∷ bs) = none
download (suc count) want bytes =
    next (λ rest. download count want rest) (strip_frame want (read_frame bytes))

abbrev pub framed : ℕ → List (List ℕ) → List (List ℕ)
framed stream_id [] = []
framed stream_id (b ∷ bs) = raw_frame (0x02 ∷ (put_le32 stream_id ++ b)) ∷ framed stream_id bs

pub download-framed :
    (stream_id : ℕ) (bs : List (List ℕ))
    → All (λ b. 5 + length b < 2 ^ 64) bs
    → download
        (length (framed stream_id bs))
        (0x02 ∷ put_le32 stream_id)
        (concat (framed stream_id bs))
      ≡ some (concat bs)
unfolding download
download-framed stream_id [] h = refl
download-framed stream_id (b ∷ bs) h =
    let want = 0x02 ∷ put_le32 stream_id in
    let rest = concat (framed stream_id bs) in
    let e = read_frame-raw_frame (0x02 ∷ (put_le32 stream_id ++ b)) rest (omega (arith, h.0)) in
    let s : same_list want want ≡ true = (same_list_iff want want).1 refl in
    let f : strip_frame want (read_frame (raw_frame (want ++ b) ++ rest)) ≡ some (b, rest) =
      ap (strip_frame want) e ∙ if_then _ (some (b, rest)) none s in
    let go : List ℕ → Option (List ℕ) = λ xs. download (length (framed stream_id bs)) want xs in
    ap (next go) f ∙ ap (join_on b) (download-framed stream_id bs h.1)

-- The bytes that were read, in pieces, up to the first error.
abbrev pub piece : Read → List ℕ
piece r = take r.n (drop 15 r.buf)

abbrev pub until : Option ReadError → List (List ℕ) → List (List ℕ)
until none later = later
until (some e) later = []

abbrev pub pieces : List Read → List (List ℕ)
pieces [] = []
pieces (r ∷ rest) =
    let later = until r.err (pieces rest) in if r.n == 0 then later else piece r ∷ later

-- What a read leaves: it fits into the buffer, and a slice is shorter than 2^63.
abbrev pub IsRead : Read → Type 0
IsRead r = (15 + r.n ≤ length r.buf) × (length r.buf < 2 ^ 63)

until-All :
    (P : List (List ℕ) → Type 0) (e : Option ReadError) (later : List (List ℕ))
    → P []
    → P later
    → P (until e later)
until-All P none later k h = h
until-All P (some e) later k h = k

pub pieces_bound :
    (reads : List Read) → All IsRead reads → All (λ b. 5 + length b < 2 ^ 64) (pieces reads)
pieces_bound [] h = tt
pieces_bound (r ∷ rest) h =
    let P : List (List ℕ) → Type 0 = All (λ b. 5 + length b < 2 ^ 64) in
    let later : P (until r.err (pieces rest)) =
      until-All P r.err (pieces rest) tt (pieces_bound rest h.1) in
    if_intro P (r.n == 0) _ _ (λ e. later)
      (λ e. (omega (arith, length-take r.n (drop 15 r.buf), length-drop 15 r.buf, h.0), later))

pub data_frame-piece :
    (stream_id : ℕ) (r : Read)
    → IsRead r
    → data_frame stream_id r.buf r.n ≡ raw_frame (0x02 ∷ (put_le32 stream_id ++ piece r))
data_frame-piece stream_id r h =
    let header = take 15 r.buf in
    let stale = drop r.n (drop 15 r.buf) in
    let e : r.buf ≡ header ++ (piece r ++ stale) = sym (
      ap (λ xs. header ++ xs) (take-append-drop r.n (drop 15 r.buf)) ∙ take-append-drop 15 r.buf) in
    let n : length (piece r) ≡ r.n =
      omega (arith, length-take r.n (drop 15 r.buf), length-drop 15 r.buf, h) in
    let l : length header ≡ 15 = omega (arith, length-take 15 r.buf, h) in
    ap (λ b. data_frame stream_id b r.n) e
    ∙ ap (data_frame stream_id (header ++ (piece r ++ stale))) (sym n)
    ∙ data_frame-raw_frame stream_id header (piece r) stale l

pub length-framed : (stream_id : ℕ) (bs : List (List ℕ)) → length (framed stream_id bs) ≡ length bs
length-framed stream_id [] = refl
length-framed stream_id (b ∷ bs) = ap suc (length-framed stream_id bs)
