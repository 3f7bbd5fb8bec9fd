-- ===== src/Downstream.antt =====
-- The bytes of a target on their way to the client: readFromConnection (wisp/wisp-stream.go); Pty has
-- what does the same for a terminal. Each is a list of reads; what Read leaves in the buffer, how much,
-- its error, and the clock are arguments. `handed` are the frames passed to queueWritePooled or
-- queueWrite, which WriteQueue models.
pub mod Client
pub mod Received
pub mod Pty
pub mod Terminal
use wispurr.Base.{
  ℕ, ◌+◌, ◌%◌, ◌^◌, List, [], ◌∷◌, ◌++◌, Bool, true, false, Option, none, some, ◌==◌, if◌then◌else◌,
  String,
}
use wispurr.Protocol.CloseReason
use wispurr.Frames.{data_frame}
use wispurr.Bandwidth
use wispurr.Bandwidth.{BandwidthLimiter}

pub data ReadError : Type 0 where
  eof read_failed : ReadError

-- `buf` is the whole buffer after a read of `n` bytes behind its header; `stopped` says that the
-- connection closes while the limiter waits, `now` and `later` are the clock before and after.
pub record Read : Type 0 where
  pub buf : List ℕ
  pub n : ℕ
  pub err : Option ReadError
  pub now : ℕ
  pub later : ℕ
  pub stopped : Bool

-- How the loop ended: by closing the stream with a reason, or because the connection is closing.
pub data Ending : Type 0 where
  closes : ℕ → Ending
  leaves : Ending

-- `got` and `put_back` count the buffers that the loop takes from the pool and gives back itself.
pub record Reader : Type 0 where
  pub handed : List (List ℕ)
  pub egress_bytes : ℕ
  pub bandwidth : Option BandwidthLimiter
  pub got : ℕ
  pub put_back : ℕ
  pub ended : Option Ending

unfoldable pub new_reader : Option BandwidthLimiter → Reader
new_reader bandwidth = record {
  handed = [];
  egress_bytes = 0;
  bandwidth = bandwidth;
  got = 1;
  put_back = 0;
  ended = none;
}

unfoldable pub reason_of : ReadError → ℕ
reason_of eof = CloseReason.voluntary
reason_of read_failed = CloseReason.network_error

unfoldable pub after_read : Reader → Option ReadError → Reader
after_read r none = r
after_read r (some e) = record r { put_back = r.put_back + 1; ended = some (closes (reason_of e)) }

module _ (cost : ℕ → ℕ → ℕ) (stream_id : ℕ) (remote_ip : String) where
  unfoldable pub hand_over : Reader → Read → Reader
  hand_over r read =
      let (b, ok) =
        Bandwidth.wait cost r.bandwidth remote_ip read.n read.now read.later read.stopped in
      if ok
      then after_read
          (record r {
            handed = r.handed ++ (data_frame stream_id read.buf read.n ∷ []);
            egress_bytes = (r.egress_bytes + read.n) % 2 ^ 64;
            bandwidth = b;
            got = r.got + 1;
          })
          read.err
      else record r { bandwidth = b; put_back = r.put_back + 1; ended = some leaves }

  -- A round of the loop of readFromConnection.
  unfoldable pub round : Reader → Read → Reader
  round r read = if read.n == 0 then after_read r read.err else hand_over r read

  unfoldable pub step_on : Reader → Option Ending → Read → Reader
  step_on r none read = round r read
  step_on r (some e) read = r

  unfoldable pub read_from_connection : Reader → List Read → Reader
  read_from_connection r [] = r
  read_from_connection r (read ∷ rest) = read_from_connection (step_on r r.ended read) rest
