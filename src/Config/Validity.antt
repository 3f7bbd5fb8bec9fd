-- ===== src/Config/Validity.antt =====
-- The configurations that Validate lets through.
use wispurr.Base.{
  ◌||◌, ℕ, ◌≡◌, sym, ◌∙◌, ◌≢◌, ◌↔◌, ◌⊎◌, refl, List, [], ◌∷◌, Bool, true, false, arith, All, Option,
  none, some, if◌then◌else◌, Bool-cases, inl, inr,
}
use wispurr.Config.Header.{IsTokenByte, valid_http_header_name_lem}
use wispurr.Config.{
  refuses_url, trusted_entry, Config, Fraction, below_zero, above_one, not_above_zero, ConfigError,
  FloodProtectionConfig, SynFloodSignature, Url, refuses_proxy, validate, validate_config,
  validate_buffers, validate_limits, validate_words, validate_trusted, validate_auth,
  validate_flood, validate_signature, any_limit_negative, bad_flood_limit, fails,
}
use wispurr.Config.Text.{empty_text, trim_space, valid_http_header_name, every}
use wispurr.Config.Conditions.{
  IsAscii, AsciiTexts, IsPart, IsAbove, BuffersFit, LimitsFit, AuthFits, SignatureFits, FloodFits,
  FloodsFit, WordsFit, UrlFits,
}

validate_buffers_lem :
    (cfg : Config) (rest : Option ConfigError)
    → (validate_buffers cfg rest ≡ none) ↔ (BuffersFit cfg × (rest ≡ none))
unfolding validate_buffers
validate_buffers_lem cfg rest = (λ e. ground arith, λ e. ground arith)

validate_limits_lem :
    (cfg : Config) (rest : Option ConfigError)
    → (validate_limits cfg rest ≡ none) ↔ (LimitsFit cfg × (rest ≡ none))
unfolding validate_limits
validate_limits_lem cfg rest = (λ e. ground arith, λ e. ground arith)

validate_auth_lem :
    (cfg : Config) (rest : Option ConfigError)
    → (validate_auth cfg rest ≡ none) ↔ (AuthFits cfg × (rest ≡ none))
unfolding validate_auth
validate_auth_lem cfg rest = (λ e. ground arith, λ e. ground arith)

ratio_lem : (o : Option Fraction) → ((below_zero o || above_one o) ≡ false) ↔ IsPart o
ratio_lem none = (λ e. tt, λ e. refl)
ratio_lem (some q) = (λ e. ground arith, λ e. ground arith)

above_lem : (o : Option Fraction) → (not_above_zero o ≡ false) ↔ IsAbove o
above_lem none = (λ e. tt, λ e. refl)
above_lem (some q) = (λ e. ground arith, λ e. ground arith)

validate_signature_lem : (s : SynFloodSignature) → (validate_signature s ≡ none) ↔ SignatureFits s
unfolding validate_signature
validate_signature_lem s =
    let r = ratio_lem s.failed_handshake_ratio in
    let a = above_lem s.failed_handshake_ratio in
    (λ e. ground (arith, r, a), λ e. ground (arith, r, a))

any_limit_negative-FloodFits :
    (fp : FloodProtectionConfig) → (any_limit_negative fp ≡ false) ↔ FloodFits fp
unfolding any_limit_negative
any_limit_negative-FloodFits fp = (λ e. ground arith, λ e. ground arith)

fails_none :
    (test : Bool) (err : ConfigError) (rest : Option ConfigError)
    → (fails test err rest ≡ none) ↔ ((test ≡ false) × (rest ≡ none))
fails_none test err rest = (λ e. ground arith, λ e. ground arith)

validate_flood_lem : (o : Option FloodProtectionConfig) → (validate_flood o ≡ none) ↔ FloodsFit o
unfolding validate_flood
validate_flood_lem none = (λ e. tt, λ e. refl)
validate_flood_lem (some fp) = (
  λ e.
      let (l, r) =
        (fails_none (any_limit_negative fp) bad_flood_limit
            (validate_signature fp.syn_flood_signature)).0
          e in
      ((any_limit_negative-FloodFits fp).0 l, (validate_signature_lem fp.syn_flood_signature).0 r),
  λ (l, r).
      (fails_none (any_limit_negative fp) bad_flood_limit
          (validate_signature fp.syn_flood_signature)).1
        (
          (any_limit_negative-FloodFits fp).1 l,
          (validate_signature_lem fp.syn_flood_signature).1 r,
        ),
)

validate_words_lem :
    (cfg : Config) (rest : Option ConfigError)
    → (validate_words cfg rest ≡ none) ↔ (WordsFit cfg × (rest ≡ none))
unfolding validate_words
validate_words_lem cfg rest = (λ e. ground arith, λ e. ground arith)

pub empty_text_iff : (s : List ℕ) → (empty_text s ≡ true) ↔ (s ≡ [])
empty_text_iff [] = (λ e. refl, λ e. refl)
empty_text_iff (c ∷ cs) = (λ e. cc, λ e. cc)

if_true : (b x : Bool) → b ≡ true → (if b then false else x) ≡ false
if_true true x e = refl
if_true false x e = cc

if_false : (b x : Bool) → b ≡ false → (if b then false else x) ≡ x
if_false true x e = cc
if_false false x e = refl

every-All :
    {P : List ℕ → Type 0} (ok : List ℕ → Bool)
    → ((x : List ℕ) → (ok x ≡ true) ↔ P x)
    → (xs : List (List ℕ)) → (every ok xs ≡ true) ↔ All P xs
every-All ok h [] = (λ e. tt, λ e. refl)
every-All ok h (x ∷ xs) =
    (λ e. ground (arith, h x, every-All ok h xs), λ e. ground (arith, h x, every-All ok h xs))

module _ (is_ip is_cidr : List ℕ → Bool) (parse_url : List ℕ → Option Url) where
  pub record TrustedFit (cfg : Config) : Type 0 where
    pub proxies :
        All
          (λ e. (is_ip (trim_space e) ≡ true) ⊎ (is_cidr (trim_space e) ≡ true))
          cfg.trusted_proxies
    pub headers : All (λ name. (name ≢ []) × All IsTokenByte name) cfg.trusted_headers

  abbrev pub ProxyFits : List ℕ → Type 0
  ProxyFits raw = (trim_space raw ≡ []) ⊎ ((u : Url) × (parse_url raw ≡ some u) × UrlFits u)

  refuses_url_lem :
      (o : Option Url)
      → (refuses_url is_ip is_cidr parse_url o ≡ false) ↔ ((u : Url) × (o ≡ some u) × UrlFits u)
  unfolding refuses_url
  refuses_url_lem none = (λ e. cc, λ (u, e, f). cc)
  refuses_url_lem (some u) = (
    λ e. (
      u,
      refl,
      ground (
        arith,
        empty_text_iff u.hostname,
        empty_text_iff u.path,
        empty_text_iff u.raw_query,
        empty_text_iff u.fragment,
      ),
    ),
    λ (v, e, f). ground (
      arith,
      empty_text_iff u.hostname,
      empty_text_iff u.path,
      empty_text_iff u.raw_query,
      empty_text_iff u.fragment,
    ),
  )

  url_of :
      (raw : List ℕ)
      → empty_text (trim_space raw) ≡ false
      → ProxyFits raw
      → (u : Url) × (parse_url raw ≡ some u) × UrlFits u
  url_of raw e (inl s) = absurd (ground (arith, (empty_text_iff (trim_space raw)).1 s))
  url_of raw e (inr u) = u

  refuses_proxy-ProxyFits :
      (raw : List ℕ) → (refuses_proxy is_ip is_cidr parse_url raw ≡ false) ↔ ProxyFits raw
  unfolding refuses_proxy
  refuses_proxy-ProxyFits raw = elim (Bool-cases (empty_text (trim_space raw))) [
    | inl e ↦ (λ h. inl ((empty_text_iff (trim_space raw)).0 e), λ h. if_true _ _ e)
    | inr e ↦ (
      λ h. inr ((refuses_url_lem (parse_url raw)).0 (sym (if_false _ _ e) ∙ h)),
      λ h. if_false _ _ e ∙ (refuses_url_lem (parse_url raw)).1 (url_of raw e h),
    )
  ]

  trusted_entry_iff :
      (e : List ℕ)
      → (trusted_entry is_ip is_cidr parse_url e ≡ true)
        ↔ ((is_ip (trim_space e) ≡ true) ⊎ (is_cidr (trim_space e) ≡ true))
  trusted_entry_iff e = (λ h. ground arith, λ h. ground arith)

  validate_trusted_lem :
      (cfg : Config) (rest : Option ConfigError)
      → (validate_trusted is_ip is_cidr parse_url cfg rest ≡ none)
        ↔ (TrustedFit cfg × (rest ≡ none))
  unfolding validate_trusted
  validate_trusted_lem cfg rest = (
    λ e. ground (
      arith,
      every-All (trusted_entry is_ip is_cidr parse_url) trusted_entry_iff cfg.trusted_proxies,
      every-All valid_http_header_name valid_http_header_name_lem cfg.trusted_headers,
    ),
    λ e. ground (
      arith,
      every-All (trusted_entry is_ip is_cidr parse_url) trusted_entry_iff cfg.trusted_proxies,
      every-All valid_http_header_name valid_http_header_name_lem cfg.trusted_headers,
    ),
  )

  -- Every condition on a configuration, each by itself.
  pub record Valid (cfg : Config) : Type 0 where
    pub buffers : BuffersFit cfg
    pub proxy : ProxyFits cfg.proxy
    pub limits : LimitsFit cfg
    pub words : WordsFit cfg
    pub trusted : TrustedFit cfg
    pub auth : AuthFits cfg
    pub flood : FloodsFit cfg.flood_protection

  pub validate-Valid :
      (cfg : Config) → (validate is_ip is_cidr parse_url (some cfg) ≡ none) ↔ Valid cfg
  unfolding validate validate_config
  validate-Valid cfg = (
    λ e.
        let (buffers, e1) = (validate_buffers_lem cfg _).0 e in
        let (url, e2) = (fails_none _ _ _).0 e1 in
        let (limits, e3) = (validate_limits_lem cfg _).0 e2 in
        let (words, e4) = (validate_words_lem cfg _).0 e3 in
        let (trusted, e5) = (validate_trusted_lem cfg _).0 e4 in
        let (auth, e6) = (validate_auth_lem cfg _).0 e5 in
        record {
          buffers = buffers;
          proxy = (refuses_proxy-ProxyFits cfg.proxy).0 url;
          limits = limits;
          words = words;
          trusted = trusted;
          auth = auth;
          flood = (validate_flood_lem cfg.flood_protection).0 e6;
        },
    λ v. (validate_buffers_lem cfg _).1 (
      v.buffers,
      (fails_none _ _ _).1 (
        (refuses_proxy-ProxyFits cfg.proxy).1 v.proxy,
        (validate_limits_lem cfg _).1 (
          v.limits,
          (validate_words_lem cfg _).1 (
            v.words,
            (validate_trusted_lem cfg _).1 (
              v.trusted,
              (validate_auth_lem cfg _).1
                  (v.auth, (validate_flood_lem cfg.flood_protection).1 v.flood),
            ),
          ),
        ),
      ),
    ),
  )

  -- For a configuration whose words and entries are in ASCII, a parser of URLs that gives ASCII schemes,
  -- and a ratio of failed handshakes that is exact or no number: Validate returns no error exactly for the
  -- configurations whose every field meets its condition. A ratio that is no number is under no condition.
  pub validate_lem :
      (cfg : Config)
      → AsciiTexts cfg
      → ((raw : List ℕ) (u : Url) → parse_url raw ≡ some u → IsAscii u.scheme)
      → (validate is_ip is_cidr parse_url (some cfg) ≡ none) ↔ Valid cfg
  validate_lem cfg ascii schemes_ascii = validate-Valid cfg
