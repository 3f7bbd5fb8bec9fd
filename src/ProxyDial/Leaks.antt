-- ===== src/ProxyDial/Leaks.antt =====
-- What a dial through a proxy leaves open.
use wispurr.Base.{
  ℕ, ◌≡◌, ◌≢◌, refl, ◌∙◌, List, true, false, ◌||◌, Option, none, some, arith, if_intro,
  if◌then◌else◌, ◌==◌,
}
use wispurr.Base.Int.{ℤ, pos, ltb_ℤ}
use wispurr.Base.Map.{same_list}
use wispurr.Config.Text.{to_lower, one_of, schemes}
use wispurr.ProxyDial.{
  ProxyUrl, ProxyConn, ConnectRequest, ProxyError, bad_url, unsupported_scheme, ProxyResult, failed,
  socks_conn, http_conn, Attempt, Network, socks_5, socks_5h, http, https, set_proxy_deadline,
  gives_up, with_default_port, on_status, sends_connect, secures, dial_http_connect, dial_socks_5,
  dial_url, dial_proxy,
}

-- What is opened here is closed again.
abbrev pub AllClosed : Option ProxyConn → Type 0
AllClosed none = Unit {0}
AllClosed (some c) = c.closed ≡ true

-- The connection that is returned: open, without a deadline, and with a CONNECT to the target written.
pub record Ready (net : Network) (destination : List ℕ) (a : Attempt) : Type 0 where
  pub conn : (c : ProxyConn) × (a.conn ≡ some c) × (c.closed ≡ false) × (c.deadline ≡ false)
  pub asked : (r : ConnectRequest) × (a.request ≡ some r) × (r.host ≡ destination)
  pub agreed : net.status ≡ some 200

abbrev pub CleanOn : Network → List ℕ → Attempt → ProxyResult → Type 0
CleanOn net destination a (failed e) = AllClosed a.conn
CleanOn net destination a socks_conn = a.conn ≡ none
CleanOn net destination a http_conn = Ready net destination a

abbrev pub Clean : Network → List ℕ → Attempt → Type 0
Clean net destination a = CleanOn net destination a a.result

-- Errors that are none of the URL's.
abbrev pub Dialled : Attempt → Type 0
Dialled a = (a.result ≢ failed bad_url) × (a.result ≢ failed unsupported_scheme)

module _ (net : Network) (destination : List ℕ) where
  gives_up-Clean :
      (c : ProxyConn) (r : Option ConnectRequest) (e : ProxyError)
      → Clean net destination (gives_up c r e)
  unfolding gives_up wispurr.ProxyDial.close
  gives_up-Clean c r e = refl

  on_status-Clean :
      (c : ProxyConn) (r : ConnectRequest) (o : Option ℕ)
      → c.closed ≡ false
      → r.host ≡ destination
      → net.status ≡ o
      → Clean net destination (on_status net c r o)
  unfolding on_status
  on_status-Clean c r none h k s = gives_up-Clean c (some r) _
  on_status-Clean c r (some code) h k s =
      if_intro (Clean net destination) (code == 200) _ _
        (λ e. record {
          conn = (_, refl, h, refl);
          asked = (r, refl, k);
          agreed = ground (arith, s, e);
        })
        (λ e. gives_up-Clean c (some r) _)

  open_deadline : (c : ProxyConn) (t : ℤ) → (set_proxy_deadline c t).closed ≡ c.closed
  unfolding set_proxy_deadline
  open_deadline c t =
      if_intro (λ (x : ProxyConn). x.closed ≡ c.closed) (ltb_ℤ (pos 0) t) _ _ (λ e. refl)
        (λ e. refl)

  sends_connect-Clean :
      (c : ProxyConn) (u : ProxyUrl)
      → c.closed ≡ false
      → Clean net destination (sends_connect net c u destination)
  unfolding sends_connect
  sends_connect-Clean c u h =
      if_intro (Clean net destination) net.writes _ _
        (λ e. on_status-Clean _ _ net.status (open_deadline c net.timeout ∙ h) refl refl)
        (λ e. gives_up-Clean _ none _)

  secures-Clean :
      (c : ProxyConn) (u : ProxyUrl)
      → c.closed ≡ false
      → Clean net destination (secures net c u destination)
  unfolding secures
  secures-Clean c u h =
      if_intro (Clean net destination) net.handshakes _ _ (λ e. sends_connect-Clean _ u h)
        (λ e. gives_up-Clean _ none _)

  dial_http_connect-Clean :
      (u : ProxyUrl) → Clean net destination (dial_http_connect net u destination)
  unfolding dial_http_connect
  dial_http_connect-Clean u =
      if_intro (Clean net destination) (net.dials _) _ _
        (λ e.
          if_intro (Clean net destination) (same_list (to_lower u.scheme) https) _ _
            (λ k. secures-Clean _ u refl) (λ k. sends_connect-Clean _ u refl))
        (λ e. tt)

  dial_socks_5-Clean : (u : ProxyUrl) → Clean net destination (dial_socks_5 net u destination)
  unfolding dial_socks_5
  dial_socks_5-Clean u =
      if_intro (Clean net destination) (net.socks_dials _ u.user destination) _ _ (λ e. refl)
        (λ e. tt)

  pub dial_url-Clean : (o : Option ProxyUrl) → Clean net destination (dial_url net o destination)
  unfolding dial_url
  dial_url-Clean none = tt
  dial_url-Clean (some u) =
      let scheme = to_lower u.scheme in
      let unsupported : Attempt = record {
        conn = none;
        request = none;
        result = failed unsupported_scheme;
      } in
      let by_http : Attempt =
        if same_list scheme http || same_list scheme https
        then dial_http_connect net u destination
        else unsupported in
      if_intro (Clean net destination) (same_list scheme socks_5 || same_list scheme socks_5h)
        (dial_socks_5 net u destination) by_http (λ e. dial_socks_5-Clean u)
        (λ e.
          if_intro (Clean net destination) (same_list scheme http || same_list scheme https)
            (dial_http_connect net u destination) unsupported (λ k. dial_http_connect-Clean u)
            (λ k. tt))

  on_status-Dialled :
      (c : ProxyConn) (r : ConnectRequest) (o : Option ℕ) → Dialled (on_status net c r o)
  unfolding on_status gives_up
  on_status-Dialled c r none = (λ e. cc, λ e. cc)
  on_status-Dialled c r (some code) =
      if_intro Dialled (code == 200) _ _ (λ e. (λ k. cc, λ k. cc)) (λ e. (λ k. cc, λ k. cc))

  sends_connect-Dialled :
      (c : ProxyConn) (u : ProxyUrl) → Dialled (sends_connect net c u destination)
  unfolding sends_connect gives_up
  sends_connect-Dialled c u =
      if_intro Dialled net.writes _ _ (λ e. on_status-Dialled _ _ net.status)
        (λ e. (λ k. cc, λ k. cc))

  secures-Dialled : (c : ProxyConn) (u : ProxyUrl) → Dialled (secures net c u destination)
  unfolding secures gives_up
  secures-Dialled c u =
      if_intro Dialled net.handshakes _ _ (λ e. sends_connect-Dialled _ u) (λ e. (λ k. cc, λ k. cc))

  dial_http_connect-Dialled : (u : ProxyUrl) → Dialled (dial_http_connect net u destination)
  unfolding dial_http_connect
  dial_http_connect-Dialled u =
      if_intro Dialled (net.dials _) _ _
        (λ e.
          if_intro Dialled (same_list (to_lower u.scheme) https) _ _ (λ k. secures-Dialled _ u)
            (λ k. sends_connect-Dialled _ u))
        (λ e. (λ k. cc, λ k. cc))

  dial_socks_5-Dialled : (u : ProxyUrl) → Dialled (dial_socks_5 net u destination)
  unfolding dial_socks_5
  dial_socks_5-Dialled u =
      if_intro Dialled (net.socks_dials _ u.user destination) _ _ (λ e. (λ k. cc, λ k. cc))
        (λ e. (λ k. cc, λ k. cc))

  pub dial_url-Dialled :
      (u : ProxyUrl)
      → one_of schemes (to_lower u.scheme) ≡ true
      → Dialled (dial_url net (some u) destination)
  unfolding dial_url
  dial_url-Dialled u h =
      let scheme = to_lower u.scheme in
      let unsupported : Attempt = record {
        conn = none;
        request = none;
        result = failed unsupported_scheme;
      } in
      let by_http : Attempt =
        if same_list scheme http || same_list scheme https
        then dial_http_connect net u destination
        else unsupported in
      if_intro Dialled (same_list scheme socks_5 || same_list scheme socks_5h)
        (dial_socks_5 net u destination) by_http (λ e. dial_socks_5-Dialled u)
        (λ e.
          if_intro Dialled (same_list scheme http || same_list scheme https)
            (dial_http_connect net u destination) unsupported (λ k. dial_http_connect-Dialled u)
            (λ k. absurd (ground (arith, e, k, h))))
