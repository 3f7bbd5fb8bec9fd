-- ===== src/ClientIp/Trust.antt =====
-- Which entries of a header a client can make the server believe.
use wispurr.Base.{
  ℕ, ◌≡◌, refl, ap, ◌∙◌, List, [], ◌∷◌, ◌++◌, true, false, Option, none, some, ◌==◌, arith,
  append_assoc, ◌⊎◌, inl, inr, Bool-cases, All, All-append, Option-cases,
}
use mathlib.Core.List.{reverse, reverse-append, reverse-cons}
use wispurr.IpAddress.{Ip, IpNet, any_contains}
use wispurr.ClientIp.{split_from, split_commas, scan, scan_header, scan_headers, resolve_client_ip}

split_from-append :
    (current xs ys : List ℕ)
    → split_from current (xs ++ (b',' ∷ ys)) ≡ split_from current xs ++ split_from [] ys
unfolding split_from
split_from-append current [] ys = refl
split_from-append current (x ∷ xs) ys = elim (Bool-cases (x == b',')) [
  | inl comma ↦ rw (comma, split_from) (ap (◌∷◌ current) (split_from-append [] xs ys))
  | inr other ↦ rw (other, split_from) (split_from-append (current ++ (x ∷ [])) xs ys)
]

module _ (parse_entry : List ℕ → Option Ip) (trusted : List IpNet) where
  -- An entry that the scan passes over: no address, or a trusted proxy's.
  abbrev pub Skipped : List ℕ → Type 0
  Skipped part =
      (parse_entry part ≡ none)
      ⊎ ((ip : Ip) × (parse_entry part ≡ some ip) × (any_contains trusted ip ≡ true))

  scan-append :
      (xs ys : List (List ℕ))
      → All Skipped xs
      → scan parse_entry trusted (xs ++ ys) ≡ scan parse_entry trusted ys
  unfolding scan
  scan-append [] ys h = refl
  scan-append (x ∷ xs) ys (inl e, hs) = rw (e, scan) (scan-append xs ys hs)
  scan-append (x ∷ xs) ys (inr (ip, e, t), hs) = ground (arith, scan-append xs ys hs)

  scan-untrusted :
      (parts : List (List ℕ)) (ip : Ip)
      → scan parse_entry trusted parts ≡ some ip
      → any_contains trusted ip ≡ false
  unfolding scan
  scan-untrusted [] ip e = cc
  scan-untrusted (part ∷ parts) ip e = ground (arith, scan-untrusted parts ip)

  scan_header-untrusted :
      (v : List ℕ) (ip : Ip)
      → scan_header parse_entry trusted v ≡ some ip
      → any_contains trusted ip ≡ false
  unfolding scan_header
  scan_header-untrusted [] ip e = cc
  scan_header-untrusted (c ∷ cs) ip e = scan-untrusted (reverse (split_commas (c ∷ cs))) ip e

  scan_headers-untrusted :
      (vs : List (List ℕ)) (ip : Ip)
      → scan_headers parse_entry trusted vs ≡ some ip
      → any_contains trusted ip ≡ false
  unfolding scan_headers
  scan_headers-untrusted [] ip e = cc
  scan_headers-untrusted (v ∷ vs) ip e =
      ground (arith, scan_header-untrusted v ip, scan_headers-untrusted vs ip)

  Skipped-reverse : (xs : List (List ℕ)) → All Skipped xs → All Skipped (reverse xs)
  Skipped-reverse [] h = tt
  Skipped-reverse (x ∷ xs) h =
      rw (reverse-cons x xs)
        (All-append Skipped (reverse xs) (x ∷ []) (Skipped-reverse xs h.1) (h.0, tt))

  -- The scan of a header that holds a comma sees its entries from the last to the first.
  scan_header-comma :
      (xs ys : List ℕ)
      → scan_header parse_entry trusted (xs ++ (b',' ∷ ys))
        ≡ scan parse_entry trusted (reverse (split_commas (xs ++ (b',' ∷ ys))))
  unfolding scan_header
  scan_header-comma [] ys = refl
  scan_header-comma (x ∷ xs) ys = refl

  reverse-split :
      (forged tail client : List ℕ) (proxies : List (List ℕ))
      → split_commas tail ≡ client ∷ proxies
      → reverse (split_commas (forged ++ (b',' ∷ tail)))
        ≡ reverse proxies ++ (client ∷ reverse (split_commas forged))
  unfolding split_commas
  reverse-split forged tail client proxies t =
      ap reverse (split_from-append [] forged tail ∙ ap (◌++◌ (split_from [] forged)) t)
      ∙ reverse-append (split_from [] forged) (client ∷ proxies)
      ∙ ap (λ xs. xs ++ reverse (split_from [] forged)) (reverse-cons client proxies)
      ∙ append_assoc (reverse proxies) (client ∷ []) (reverse (split_from [] forged))

  scan_header-forged :
      (forged tail client : List ℕ) (proxies : List (List ℕ)) (ip : Ip)
      → split_commas tail ≡ client ∷ proxies
      → All Skipped proxies
      → parse_entry client ≡ some ip
      → any_contains trusted ip ≡ false
      → scan_header parse_entry trusted (forged ++ (b',' ∷ tail)) ≡ some ip
  unfolding scan
  scan_header-forged forged tail client proxies ip t skip e u =
      scan_header-comma forged tail
      ∙ ap (scan parse_entry trusted) (reverse-split forged tail client proxies t)
      ∙ scan-append (reverse proxies) (client ∷ reverse (split_commas forged))
          (Skipped-reverse proxies skip)
      ∙ rw (e, scan, u)

  -- Behind a trusted peer, the first header's last entry that is an untrusted address is the client,
  -- whatever a client has put in front of the entries that the proxies wrote, and whatever the other
  -- headers hold.
  pub resolve_client_ip-forged :
      (parse_peer : List ℕ → Option Ip) (remote_addr forged tail client : List ℕ)
      (proxies headers : List (List ℕ)) (peer ip : Ip)
      → parse_peer remote_addr ≡ some peer
      → any_contains trusted peer ≡ true
      → split_commas tail ≡ client ∷ proxies
      → All Skipped proxies
      → parse_entry client ≡ some ip
      → any_contains trusted ip ≡ false
      → resolve_client_ip parse_entry trusted parse_peer remote_addr
          ((forged ++ (b',' ∷ tail)) ∷ headers)
        ≡ ip
  unfolding resolve_client_ip
  resolve_client_ip-forged parse_peer remote_addr forged tail client proxies headers peer ip p tp t
        skip e u =
      ground (arith, scan_header-forged forged tail client proxies ip t skip e u)

  -- A peer that is not trusted is taken as it is, whatever the headers say; and the result is the peer
  -- or an address that no trusted network holds, wherever the peer's address can be read.
  pub resolve_client_ip-untrusted :
      (parse_peer : List ℕ → Option Ip) (remote_addr : List ℕ) (headers : List (List ℕ)) (peer : Ip)
      → parse_peer remote_addr ≡ some peer
      → let ip = resolve_client_ip parse_entry trusted parse_peer remote_addr headers in
        (any_contains trusted peer ≡ false → ip ≡ peer)
        × ((ip ≡ peer) ⊎ (any_contains trusted ip ≡ false))
  unfolding resolve_client_ip
  resolve_client_ip-untrusted parse_peer remote_addr headers peer p =
      elim (Option-cases (scan_headers parse_entry trusted headers)) [
        | inl e ↦ ground arith
        | inr (ip, e) ↦ ground (arith, scan_headers-untrusted headers ip e)
      ]
