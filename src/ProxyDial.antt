-- ===== src/ProxyDial.antt =====
-- The dialing of a target through a proxy: dialProxy, dialSOCKS5, dialHTTPConnect, setProxyDeadline
-- and withDefaultPort (wisp/proxy.go). Url.Parse, JoinHostPort and base64 are parameters, and so are
-- the answers of the network: whether a dial succeeds, a TLS handshake, the write of the request, the
-- status of the response.
pub mod Leaks
pub mod Validated
use wispurr.Base.{
  ℕ, List, [], ◌∷◌, ◌++◌, Bool, true, false, ◌||◌, not, Option, none, some, ◌==◌, if◌then◌else◌,
}
use wispurr.Base.Int.{ℤ, pos, ltb_ℤ}
use wispurr.Base.Map.{same_list}
use wispurr.Config.{Url}
use wispurr.Config.Text.{to_lower, empty_text}

pub record ProxyUrl : Type 0 where
  pub url : Url
  pub open url use *
  pub host : List ℕ
  pub port : List ℕ
  pub user : Option (List ℕ × List ℕ)

-- The net.Conn to the proxy; `secure` says that it is a tls.Conn.
pub record ProxyConn : Type 0 where
  pub address : List ℕ
  pub secure : Bool
  pub deadline : Bool
  pub closed : Bool

pub record ConnectRequest : Type 0 where
  pub host : List ℕ
  pub authorization : Option (List ℕ)

pub data ProxyError : Type 0 where
  bad_url unsupported_scheme dial_failed handshake_failed write_failed : ProxyError
  bad_response connect_failed socks_failed : ProxyError

-- What a dial returns: an error, the connection of the SOCKS package, or a connection of its own.
pub data ProxyResult : Type 0 where
  failed : ProxyError → ProxyResult
  socks_conn : ProxyResult
  http_conn : ProxyResult

-- `conn` is the connection to the proxy that was opened here, as it is afterwards; `request` is what
-- was written to it.
pub record Attempt : Type 0 where
  pub conn : Option ProxyConn
  pub request : Option ConnectRequest
  pub result : ProxyResult

pub record Network : Type 0 where
  pub timeout : ℤ
  pub parse_url : List ℕ → Option ProxyUrl
  pub join_host_port : List ℕ → List ℕ → List ℕ
  pub base_64 : List ℕ → List ℕ
  pub dials : List ℕ → Bool
  pub socks_dials : List ℕ → Option (List ℕ × List ℕ) → List ℕ → Bool
  pub handshakes : Bool
  pub writes : Bool
  pub status : Option ℕ

abbrev pub socks_5 : List ℕ
socks_5 = b's' ∷ b'o' ∷ b'c' ∷ b'k' ∷ b's' ∷ b'5' ∷ []

abbrev pub socks_5h : List ℕ
socks_5h = b's' ∷ b'o' ∷ b'c' ∷ b'k' ∷ b's' ∷ b'5' ∷ b'h' ∷ []

abbrev pub http : List ℕ
http = b'h' ∷ b't' ∷ b't' ∷ b'p' ∷ []

abbrev pub https : List ℕ
https = b'h' ∷ b't' ∷ b't' ∷ b'p' ∷ b's' ∷ []

unfoldable pub set_proxy_deadline : ProxyConn → ℤ → ProxyConn
set_proxy_deadline c timeout = if ltb_ℤ (pos 0) timeout then record c { deadline = true } else c

unfoldable pub close : ProxyConn → ProxyConn
close c = record c { closed = true }

unfoldable pub gives_up : ProxyConn → Option ConnectRequest → ProxyError → Attempt
gives_up c request e = record { conn = some (close c); request = request; result = failed e }

module _ (net : Network) where
  unfoldable pub with_default_port : ProxyUrl → List ℕ → List ℕ
  with_default_port u default_port =
      if empty_text u.port then net.join_host_port u.hostname default_port else u.host

  unfoldable pub authorization_of : Option (List ℕ × List ℕ) → Option (List ℕ)
  authorization_of none = none
  authorization_of (some (name, password)) =
      some
        ((b'B' ∷ b'a' ∷ b's' ∷ b'i' ∷ b'c' ∷ b' ' ∷ []) ++ net.base_64 (name ++ (b':' ∷ password)))

  unfoldable pub on_status : ProxyConn → ConnectRequest → Option ℕ → Attempt
  on_status c request none = gives_up c (some request) bad_response
  on_status c request (some code) =
      if code == 200
      then record {
        conn = some (record c { deadline = false });
        request = some request;
        result = http_conn;
      }
      else gives_up c (some request) connect_failed

  -- From the first setProxyDeadline of the request on.
  unfoldable pub sends_connect : ProxyConn → ProxyUrl → List ℕ → Attempt
  sends_connect c u destination =
      let c' = set_proxy_deadline c net.timeout in
      let request : ConnectRequest = record {
        host = destination;
        authorization = authorization_of u.user;
      } in
      if net.writes then on_status c' request net.status else gives_up c' none write_failed

  -- A failing handshake closes the connection below, whose deadline is that of the tls.Conn.
  unfoldable pub secures : ProxyConn → ProxyUrl → List ℕ → Attempt
  secures c u destination =
      if net.handshakes
      then sends_connect (record c { secure = true; deadline = false }) u destination
      else gives_up (set_proxy_deadline c net.timeout) none handshake_failed

  unfoldable pub dial_http_connect : ProxyUrl → List ℕ → Attempt
  dial_http_connect u destination =
      let is_https = same_list (to_lower u.scheme) https in
      let address =
        with_default_port u (if is_https then b'4' ∷ b'4' ∷ b'3' ∷ [] else b'8' ∷ b'0' ∷ []) in
      let c : ProxyConn = record {
        address = address;
        secure = false;
        deadline = false;
        closed = false;
      } in
      if net.dials address
      then if is_https then secures c u destination else sends_connect c u destination
      else record { conn = none; request = none; result = failed dial_failed }

  unfoldable pub dial_socks_5 : ProxyUrl → List ℕ → Attempt
  dial_socks_5 u destination =
      let address = with_default_port u (b'1' ∷ b'0' ∷ b'8' ∷ b'0' ∷ []) in
      if net.socks_dials address u.user destination
      then record { conn = none; request = none; result = socks_conn }
      else record { conn = none; request = none; result = failed socks_failed }

  unfoldable pub dial_url : Option ProxyUrl → List ℕ → Attempt
  dial_url none destination = record { conn = none; request = none; result = failed bad_url }
  dial_url (some u) destination =
      let scheme = to_lower u.scheme in
      if same_list scheme socks_5 || same_list scheme socks_5h
      then dial_socks_5 u destination
      else if same_list scheme http || same_list scheme https
      then dial_http_connect u destination
      else record { conn = none; request = none; result = failed unsupported_scheme }

  unfoldable pub dial_proxy : List ℕ → List ℕ → Attempt
  dial_proxy raw destination = dial_url (net.parse_url raw) destination
