-- ===== src/ReadLoop/Gate.antt =====
-- What passes handleWispFrame.
use wispurr.Base.{
  if_intro, if◌then◌else◌, ℕ, ◌<◌, ◌^◌, ◌≡◌, ap, ◌⊎◌, inl, inr, List, ◌∷◌, ◌++◌, true, false, none,
  some, arith, ◌==◌, ◌||◌, ◌&&◌,
}
use wispurr.Base.Bytes.{put_le32, le32, le32-put_le32}
use wispurr.ReadLoop.{Routed, dropped, to_packet, to_data, handle_wisp_frame, route}

-- What a connection that waits for its INFO packet lets through.
pub data IsEarly : Routed → Type 0 where
  nothing : IsEarly dropped
  info : (stream_id : ℕ) (payload : List ℕ) → IsEarly (to_packet 5 stream_id payload)
  close_all : (payload : List ℕ) → IsEarly (to_packet 4 0 payload)

early_cases : (t id : ℕ) → (t == 5 || (t == 4 && id == 0)) ≡ true → (t ≡ 5) ⊎ ((t ≡ 4) × (id ≡ 0))
early_cases t id e = ground arith

early_packet :
    (t id : ℕ) (payload : List ℕ)
    → (t == 5 || (t == 4 && id == 0)) ≡ true
    → IsEarly (to_packet t id payload)
early_packet t id payload e = elim (early_cases t id e) [
  | inl five ↦ rw five (info id payload)
  | inr (four, zero_id) ↦ rw (four, zero_id) (close_all payload)
]

route-IsEarly : (t id : ℕ) (payload : List ℕ) → IsEarly (route true t id payload)
unfolding route
route-IsEarly t id payload =
    if_intro IsEarly (t == 5 || (t == 4 && id == 0)) (to_packet t id payload) dropped
      (λ e. early_packet t id payload e) (λ e. nothing)

-- Before the handshake of a connection of version 2 is over, no frame gets further than as an INFO
-- packet or as the CLOSE packet of stream 0; afterwards, a DATA packet arrives with its stream and
-- payload, and every other packet with its type, for a stream of 32 bits.
pub handle_wisp_frame-IsEarly :
    (packet payload : List ℕ) (t id : ℕ)
    → id < 2 ^ 32
    → IsEarly (handle_wisp_frame true (some false) packet)
      × (handle_wisp_frame true none (t ∷ (put_le32 id ++ payload))
          ≡ (if t == 2 then to_data id payload else to_packet t id payload))
unfolding handle_wisp_frame
handle_wisp_frame-IsEarly packet payload t id h =
    (early packet, ap (λ i. route false t i payload) (le32-put_le32 id h))
  where
    early : (p : List ℕ) → IsEarly (handle_wisp_frame true (some false) p)
    early (u ∷ s0 ∷ s1 ∷ s2 ∷ s3 ∷ rest) = route-IsEarly u (le32 s0 s1 s2 s3) rest
    early p = nothing
