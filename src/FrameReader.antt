-- ===== src/FrameReader.antt =====
-- The buffered reader of wisp/wsreader.go: frameReader with newFrameReader, fill, peek, consume and
-- readPayload. net.Conn is the stream of bytes still to come and, for each Read, a bound on how much it
-- returns: a Read that has room returns at least one byte, and fails at the end of the stream, with the
-- last bytes or after them. `none` is an error.
pub mod Fill
pub mod Reads
use Prim.Native.Nat.{min}
use wispurr.Base.{
  ℕ, zero, suc, ◌+◌, ◌-◌, List, [], ◌∷◌, ◌++◌, Bool, true, false, Option, none, some, ◌==◌, leb,
  ltb, length, take, drop, replicate, if◌then◌else◌,
}

abbrev pub read_frame_buf_size : ℕ
read_frame_buf_size = 14

-- The peer and the network. `bounds` limits the Reads to come, the first one next.
pub record Conn : Type 0 where
  pub incoming : List ℕ
  pub bounds : List ℕ
  pub ends_early : Bool

pub record FrameReader : Type 0 where
  pub conn : Conn
  pub buf : List ℕ
  pub r : ℕ
  pub w : ℕ

pub new_frame_reader : Conn → FrameReader
new_frame_reader conn = record { conn = conn; buf = replicate read_frame_buf_size 0; r = 0; w = 0 }

-- f.buf[i:j]
abbrev pub slice : List ℕ → ℕ → ℕ → List ℕ
slice buf i j = take (j - i) (drop i buf)

-- How many bytes a Read into `room` bytes returns.
next_bound : List ℕ → ℕ → ℕ
next_bound [] room = room
next_bound (b ∷ bs) room = min room (suc b)

rest_bounds : List ℕ → List ℕ
rest_bounds [] = []
rest_bounds (b ∷ bs) = bs

read_count : Conn → ℕ → ℕ
unfolding next_bound
read_count c room = min (next_bound c.bounds room) (length c.incoming)

after_read : Conn → ℕ → Conn
unfolding rest_bounds
after_read c n = record c { incoming = drop n c.incoming; bounds = rest_bounds c.bounds }

-- The error of a Read that returned `n` bytes.
read_fails : Conn → ℕ → Bool
read_fails c n = if n == 0 then true else (if c.ends_early then n == length c.incoming else false)

-- copy(f.buf, f.buf[f.r:f.w])
pub compact : FrameReader → FrameReader
compact f =
    if ltb 0 f.r
    then record f { buf = slice f.buf f.r f.w ++ drop (f.w - f.r) f.buf; r = 0; w = f.w - f.r }
    else f

-- f.conn.Read(f.buf[f.w:]) of `n` bytes
store_read : FrameReader → ℕ → FrameReader
unfolding after_read
store_read f n = record f {
  conn = after_read f.conn n;
  buf = take f.w f.buf ++ (take n f.conn.incoming ++ drop (f.w + n) f.buf);
  w = f.w + n;
}

-- for f.w-f.r < min: a round without an error reads a byte, so `min` rounds are enough.
pub fill_loop : ℕ → ℕ → FrameReader → Option FrameReader
unfolding read_count read_fails store_read
fill_loop zero wanted f = if leb wanted (f.w - f.r) then some f else none
fill_loop (suc fuel) wanted f =
    let n = read_count f.conn (read_frame_buf_size - f.w) in
    let f' = store_read f n in
    let again = fill_loop fuel wanted f' in
    if leb wanted (f.w - f.r)
    then some f
    else if read_fails f.conn n
    then if leb wanted (f'.w - f'.r) then some f' else none
    else again

fill : ℕ → FrameReader → Option FrameReader
unfolding compact fill_loop
fill wanted f = if leb wanted (f.w - f.r) then some f else fill_loop wanted wanted (compact f)

peek_filled : ℕ → Option FrameReader → Option (List ℕ × FrameReader)
peek_filled n none = none
peek_filled n (some f) = some (slice f.buf f.r (f.r + n), f)

unfoldable pub peek : ℕ → FrameReader → Option (List ℕ × FrameReader)
unfolding fill peek_filled
peek n f = peek_filled n (fill n f)

unfoldable pub consume : ℕ → FrameReader → FrameReader
consume n f = if f.r + n == f.w then record f { r = 0; w = 0 } else record f { r = f.r + n }

-- io.ReadFull(f.conn, dst)
read_full : ℕ → Conn → Option (List ℕ × Conn)
read_full n c =
    if leb n (length c.incoming)
    then some (take n c.incoming, record c { incoming = drop n c.incoming })
    else none

-- The bytes of the buffer first, then those of the connection.
read_rest : List ℕ → FrameReader → Option (List ℕ × Conn) → Option (List ℕ × FrameReader)
read_rest front f none = none
read_rest front f (some (bytes, c)) = some (front ++ bytes, record f { conn = c })

unfoldable pub read_payload : ℕ → FrameReader → Option (List ℕ × FrameReader)
unfolding consume read_full read_rest
read_payload n f =
    if ltb 0 (f.w - f.r)
    then if leb n (f.w - f.r)
      then some (slice f.buf f.r (f.r + n), consume n f)
      else read_rest (slice f.buf f.r f.w) (record f { r = 0; w = 0 })
          (read_full (n - (f.w - f.r)) f.conn)
    else read_rest [] f (read_full n f.conn)
