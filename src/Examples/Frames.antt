-- ===== src/Examples/Frames.antt =====
-- The read loop at concrete inputs.
use wispurr.Base.{refl, [], ◌∷◌, true, arith, replicate}
use wispurr.Masking.{MaskKey}
use wispurr.FrameReader.{FrameReader}
use wispurr.FrameReader.Fill.{Inv}
use wispurr.ReadLoop.{Loop, round}
use wispurr.ReadLoop.Decode.{Decoded}
use wispurr.ReadLoop.Rounds.{round-client_frame}
use wispurr.ReadLoop.Bounds.{RoundFits, round_fits}

abbrev mask : MaskKey
mask = record { k0 = 1; k1 = 2; k2 = 3; k3 = 4 }

-- A final binary frame of three bytes, masked, and the first byte of the next frame; the header's
-- first two bytes are held, and the others come in three Reads.
abbrev waiting_reader : FrameReader
waiting_reader = record {
  conn = record {
    incoming = 1 ∷ 2 ∷ 3 ∷ 4 ∷ 96 ∷ 96 ∷ 96 ∷ 0x89 ∷ [];
    bounds = 0 ∷ 2 ∷ 9 ∷ [];
    ends_early = true;
  };
  buf = 0x82 ∷ 131 ∷ replicate 12 0;
  r = 0;
  w = 2;
}

abbrev loop : Loop
loop = record { reader = waiting_reader; fragmented_opcode = 0; fragmented = [] }

waiting_reader-Inv : Inv waiting_reader
waiting_reader-Inv = record { sized = refl; ordered = omega arith; bounded = omega arith }

round-client_frame_example :
    Decoded 1024 0x82 mask (96 ∷ 96 ∷ 96 ∷ []) (0x89 ∷ []) loop (round 1024 loop)
round-client_frame_example =
    round-client_frame 1024 0x82 mask (96 ∷ 96 ∷ 96 ∷ []) (0x89 ∷ []) loop waiting_reader-Inv
      (record {
        byte0 = omega arith;
        byte1 = omega arith;
        byte2 = omega arith;
        byte3 = omega arith;
      })
      (ground arith)
      (record {
        no_reserved = refl;
        control = λ h. absurd (omega arith);
        allowed = omega arith;
        size = omega arith;
      })
      refl

round_fits_example : RoundFits 1024 (round 1024 loop)
round_fits_example =
    round_fits 1024 loop (omega arith)
      (record { sound = waiting_reader-Inv; fragments = omega arith })
