-- ===== src/Handshake/Session.antt =====
-- The handshake of a connection: v2Handshake, handleInfo and sendClosePacketAndWait, of wisp/v2.go and
-- wisp/wisp-connection.go. `handshake_done` is the channel: nil, or open (`some false`), or closed
-- (`some true`); `read_deadline` says that reads still have the deadline of the handshake.
pub mod Admission
use wispurr.Base.{
  ℕ, suc, ◌+◌, List, [], ◌∷◌, Bool, true, false, ◌&&◌, ◌||◌, not, Option, none, some, ◌==◌, ltb,
  length, if◌then◌else◌,
}
use wispurr.Base.Int.{ℤ}
use wispurr.Base.Map.{Map}
use wispurr.Protocol.{wisp_major_version}
use wispurr.Protocol.CloseReason
use wispurr.Frames.{raw_frame, continue_frame, build_close_packet}
use wispurr.WriteQueue
use wispurr.WriteQueue.{WriteQueue, max_pending_queue_bytes, queue_write, write_and_wait, settle}
use wispurr.Handshake.Extensions.{
  Extensions, InfoConfig, Parsed, parsed, error_invalid, panics, out_of_fuel, parse_client_info,
  build_server_info_packet,
}
use wispurr.Handshake.Password.{check_password}

pub record SessionConfig : Type 0 where
  pub info : InfoConfig
  pub open info use *
  pub password_users : Map (List ℕ) (List ℕ)
  pub buffer_remaining_length : ℕ
  pub pending_queue_size : ℤ

pub record Session : Type 0 where
  pub queue : WriteQueue
  pub open queue use {is_closed}
  pub is_v2 : Bool
  pub handshake_done : Option Bool
  pub read_deadline : Bool
  pub stream_confirm : Bool
  pub authenticated : Bool
  pub next_done : ℕ

-- What handleInfo decides, before it acts on it.
pub data Decision : Type 0 where
  refuse : ℕ → Decision
  admit : Bool → Extensions → Decision

is_empty : List ℕ → Bool
is_empty [] = true
is_empty (c ∷ cs) = false

-- handleInfo sends a close packet, waits until the writer has dealt with it, and closes.
close_with : SessionConfig → Session → ℕ → Option ℕ → Session
close_with c s reason failed = if s.is_closed then s else record s {
  queue = WriteQueue.close (
      settle
        (write_and_wait (max_pending_queue_bytes c.pending_queue_size) s.queue
          (build_close_packet 0 reason) s.next_done)
        failed);
  next_done = s.next_done + 1;
}

-- sendPacket
pub send_packet : SessionConfig → Session → ℕ → ℕ → Session
send_packet c s stream_id credit = if s.is_closed then s else record s {
  queue =
      queue_write (max_pending_queue_bytes c.pending_queue_size) s.queue
        (continue_frame stream_id credit);
}

accept : SessionConfig → Session → Bool → Extensions → Session
unfolding send_packet
accept c s auth_passed exts =
    let s' : Session = record s {
      authenticated = auth_passed;
      stream_confirm = exts.stream_confirm;
    } in
    record (send_packet c s' 0 c.buffer_remaining_length) {
      read_deadline = false;
      handshake_done = none;
    }

module _ (bcrypt_matches : List ℕ → List ℕ → Bool) where
  -- userExists && checkPassword(…)
  pub knows : SessionConfig → List ℕ → List ℕ → Bool
  unfolding check_password
  knows c username password = elim (c.password_users username) [
    | none ↦ false
    | some stored ↦ check_password bcrypt_matches stored password
  ]

  decide_auth : SessionConfig → Extensions → Decision
  decide_auth c exts =
      if c.password_auth && not (is_empty exts.password_username)
      then if knows c exts.password_username exts.password_password
        then admit true exts
        else refuse CloseReason.auth_bad_password
      else if c.password_auth_required
      then refuse CloseReason.auth_required
      else admit false exts

  decide_parsed : SessionConfig → Parsed → Decision
  decide_parsed c (parsed exts) = decide_auth c exts
  decide_parsed c error_invalid = refuse CloseReason.incompatible
  decide_parsed c panics = refuse CloseReason.incompatible
  decide_parsed c out_of_fuel = refuse CloseReason.incompatible

  pub judge : SessionConfig → List ℕ → Decision
  unfolding decide_parsed
  judge c (major ∷ minor ∷ rest) =
      if major == wisp_major_version
      then decide_parsed c (parse_client_info (major ∷ minor ∷ rest))
      else refuse CloseReason.incompatible
  judge c payload = refuse CloseReason.incompatible

  carry_out : SessionConfig → Session → Option ℕ → Decision → Session
  carry_out c s failed (refuse reason) = close_with c s reason failed
  carry_out c s failed (admit auth_passed exts) = accept c s auth_passed exts

  handle_open : SessionConfig → Session → List ℕ → Option ℕ → Option Bool → Session
  handle_open c s payload failed none = s
  handle_open c s payload failed (some closed) = carry_out c s failed (judge c payload)

  -- `failed` says that the write of a close packet fails, and after how many bytes.
  pub handle_info : SessionConfig → Session → ℕ → List ℕ → Option ℕ → Session
  unfolding handle_open
  handle_info c s stream_id payload failed =
      if stream_id == 0 then handle_open c s payload failed s.handshake_done else s

-- v2Handshake, up to its read loop: the server speaks first.
pub v2_handshake : SessionConfig → Session → Session
v2_handshake c s = record s {
  handshake_done = some false;
  queue =
      queue_write (max_pending_queue_bytes c.pending_queue_size) s.queue
        (raw_frame (build_server_info_packet c.info));
}
