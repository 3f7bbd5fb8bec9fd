-- ===== src/ProxyDial/Validated.antt =====
-- A dial through the proxy of a configuration that Validate has let pass.
use wispurr.Base.{ℕ, ◌≡◌, sym, ap, ◌∙◌, List, Bool, false, Option, none, some, arith, inl, inr}
use wispurr.Config.{Config, Url, validate}
use wispurr.Config.Text.{to_lower, empty_text, trim_space, one_of, schemes}
use wispurr.Config.Conditions.{UrlFits}
use wispurr.Config.Validity.{validate-Valid, empty_text_iff}
use wispurr.ProxyDial.{ProxyUrl, Network, dial_url, dial_proxy}
use wispurr.ProxyDial.Leaks.{Clean, Dialled, dial_url-Clean, dial_url-Dialled}

-- What Validate sees of a parsed URL.
abbrev pub as_url : Option ProxyUrl → Option Url
as_url none = none
as_url (some u) = some u.url

dial_url-fitting :
    (net : Network) (destination : List ℕ) (o : Option ProxyUrl) (u : Url)
    → as_url o ≡ some u
    → UrlFits u
    → Dialled (dial_url net o destination)
dial_url-fitting net destination none u e f = cc
dial_url-fitting net destination (some p) u e f =
    let same : u ≡ p.url = cc in
    dial_url-Dialled net destination p
      (ap (λ x. one_of schemes (to_lower x.scheme)) (sym same) ∙ f.scheme)

-- When Validate accepts a configuration with a proxy that is not blank, and whatever the network does:
-- dialProxy returns a connection of its own only if it is open, without a deadline, and the proxy has
-- answered 200 to a CONNECT to the target; with an error, what it opened is closed; and the error is
-- never that the URL cannot be parsed or that its scheme is unsupported.
pub dial_proxy-Clean :
    (is_ip is_cidr : List ℕ → Bool) (net : Network) (cfg : Config) (destination : List ℕ)
    → validate is_ip is_cidr (λ raw. as_url (net.parse_url raw)) (some cfg) ≡ none
    → empty_text (trim_space cfg.proxy) ≡ false
    → Clean net destination (dial_proxy net cfg.proxy destination)
      × Dialled (dial_proxy net cfg.proxy destination)
unfolding dial_proxy
dial_proxy-Clean is_ip is_cidr net cfg destination e b =
    let v = (validate-Valid is_ip is_cidr (λ raw. as_url (net.parse_url raw)) cfg).0 e in
    (
      dial_url-Clean net destination (net.parse_url cfg.proxy),
      elim v.proxy [
        | inl s ↦ absurd (ground (arith, b, (empty_text_iff (trim_space cfg.proxy)).1 s))
        | inr (u, p, f) ↦ dial_url-fitting net destination (net.parse_url cfg.proxy) u p f
      ],
    )
