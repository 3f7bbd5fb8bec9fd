-- ===== src/Lib.antt =====
-- wispurr: a Wisp server (package wisp, written in Go). A client speaks WebSocket to it, and Wisp over
-- WebSocket; each Wisp stream is a TCP or UDP connection that the server opens for the client.
--
-- The parts and their modules:
--   Protocol       the constants of wisp/constants.go
--   Frames         the frames that the server writes: sendRawFrame (wisp/v2.go), sendPacket,
--                  buildClosePacket, writeRawPong (wisp/wisp-connection.go), sendWSClose
--                  (wisp/wsreader.go), and the frame that readFromConnection builds in place
--                  (wisp/wisp-stream.go)
--   Masking        maskXOR (wisp/wsreader.go)
--   FrameReader    frameReader (wisp/wsreader.go): the bytes of a connection behind a small buffer
--   ReadLoop       readLoop, maxPayloadSize and handleWispFrame (wisp/wsreader.go): rounds over
--                  FrameReader, which unmask by Masking
--   WriteQueue     the pending writes of a connection and the goroutine that writes them: close,
--                  runWriter, submitWrite, queueWrite, queueWritePooled, writeAndWait
--                  (wisp/wisp-connection.go)
--   Handshake      Extensions: addExtension, parseClientInfo, buildServerInfoPacket; Password:
--                  checkPassword; Session: v2Handshake and handleInfo (wisp/v2.go), which answer by
--                  Frames over WriteQueue
--   Stream         one stream, from the client to its target: State and Ingress (wisp/types.go,
--                  submitIngress, queueIngressOwned, runIngressWriter, signalConnReady and close of
--                  wisp/wisp-stream.go), Packets (handleDataPacket of wisp/wisp-connection.go, and
--                  handleConnect once it has dialled); the goroutines are actions in any order
--   Connection     the table of streams with its cache and count (wisp/wisp-connection.go):
--                  handlePacket, handleConnectPacket, handleTwispConnect, violation,
--                  handleDataPacket, handleClosePacket, deleteWispStream, deleteAllWispStreams; it
--                  sends over WriteQueue and acts on a Stream at its address
--   Dial           what handleConnect decides before it dials, by Egress, SlidingWindow, Reputation
--                  and Semaphore, mapDialError, and After, what it does after the dial, by Signature
--                  (wisp/wisp-stream.go)
--   Upgrade        the handler of createWispHandler, which lets requests in by SlidingWindow and
--                  Semaphore, and the end of a connection (wisp/wisp.go, wisp/wisp-connection.go)
--   Signature      the detectors of failed dials (wisp/signature.go)
--   SlidingWindow, Semaphore   the limiters of wisp/limits.go
--   Bandwidth      the limiter of wisp/bandwidth.go, which readFromConnection waits for
--   Reputation     scores, tiers, decay and eviction (wisp/reputation.go)
--   IpAddress, Egress   net.IP as the code uses it, and the policy of wisp/egress.go
--   ClientIp       ResolveClientIP (wisp/clientip.go)
--   Shell          splitShell (wisp/twisp.go)
--   Hostname       NormalizeTargetHostname (wisp/wisp-stream.go), which handleConnect and Dns call
--   Dns            DNSCache: LookupIPAddr, expire, reorderIPs and the choice of a server
--                  (wisp/dnscache.go); handleConnect resolves names by it
--   Downstream     the way back: readFromConnection (wisp/wisp-stream.go) and readPty (wisp/twisp.go),
--                  which frame what they read, by Frames; Bandwidth delays it, WriteQueue takes it
--   ProxyDial      dialProxy (wisp/proxy.go), by which handleConnect dials where Config has a proxy
--   Filters        FilterSet.UnmarshalJSON and validPortNumber (wisp/config.go), the lists that Dial asks
--   Terminals      the terminals of a connection: twispRegistry, handleTwisp and close (wisp/twisp.go),
--                  with the calls of them in wisp/wisp-connection.go; it reads commands by Shell
--   Runtime        BuildGlobals, runMaintenance, Stats and Shutdown (wisp/runtime.go): the limiters
--                  that all connections share, their rounds of eviction, and the counts of bytes
--   Config         Validate and validHTTPHeaderName (wisp/config.go), validateProxyURL
--                  (wisp/proxy.go)
--   Base           lists, numbers, bytes, words, and maps as functions
--   Examples       the theorems at concrete inputs
--
-- Conventions. A byte, a port or an index is a native natural number, cut to its width where the code
-- cuts it; int is ℤ where it can be negative. Text that the code reads byte by byte is a list of
-- bytes, in ASCII where strings.ToLower and strings.TrimSpace act on it. A float64 that a configuration
-- gives is a fraction, or `none` for NaN. A clock is an argument, in nanoseconds. A nil pointer is `none`. What a goroutine does under
-- a lock is one step, and the steps of the goroutines come in any order.
--
-- Fuel: parse_extensions takes at least five bytes a round, so the length of the payload is enough;
-- loop_64 takes 64 bytes a round, so the length is enough; fill_loop reads a byte a round or fails, so
-- the number of bytes wanted is enough. The read loop is taken a round at a time.
--
-- Parameters: what encoding/json makes of a list of filters, what Read returns, the answers of a proxy,
-- bcrypt's comparison, the text of an address, the parsers of packages net and net/url, the resolver,
-- utf8.ValidString, strings.Contains, and the float64 computations of a transfer's cost and of a share
-- of samples.
--
-- Not modelled: logging, socket options, the processes of terminals and what is written to them, the
-- files that the reputation is saved to, and the npm wrapper: they are I/O or glue. So are the reading
-- of a configuration from its file and the copying of one.
pub mod Base
pub mod Protocol
pub mod Frames
pub mod Masking
pub mod WriteQueue
pub mod SlidingWindow
pub mod Stream
pub mod Semaphore
pub mod Bandwidth
pub mod Reputation
pub mod IpAddress
pub mod Egress
pub mod ClientIp
pub mod Shell
pub mod Connection
pub mod Hostname
pub mod Runtime
pub mod Terminals
pub mod Dns
pub mod Dial
pub mod Signature
pub mod Upgrade
pub mod Handshake
pub mod FrameReader
pub mod Examples
pub mod Config
pub mod ReadLoop
pub mod Downstream
pub mod Filters
pub mod ProxyDial
