-- ===== src/Handshake/Extensions.antt =====
-- Extension lists: addExtension, parseClientInfo and buildServerInfoPacket of wisp/v2.go, with
-- Extensions of wisp/types.go. A string is the list of its bytes.
pub mod Bounds
pub mod RoundTrip
use wispurr.Base.{
  ℕ, zero, suc, ◌+◌, ◌%◌, ◌^◌, List, [], ◌∷◌, ◌++◌, Bool, true, false, ◌==◌, ltb, length, take,
  drop, replicate, if◌then◌else◌,
}
use wispurr.Base.Bytes.{le32, put_le32}
use wispurr.Protocol.{wisp_major_version, wisp_minor_version}
use wispurr.Protocol.PacketType
use wispurr.Protocol.Extension

pub record Extensions : Type 0 where
  pub udp : Bool
  pub stream_confirm : Bool
  pub password_username : List ℕ
  pub password_password : List ℕ
  pub certificate_username : List ℕ
  pub certificate_selected : ℕ
  pub certificate_pubkey_hash : List ℕ
  pub certificate_sig : List ℕ

-- &Extensions{}
abbrev pub no_extensions : Extensions
no_extensions = record {
  udp = false;
  stream_confirm = false;
  password_username = [];
  password_password = [];
  certificate_username = [];
  certificate_selected = 0;
  certificate_pubkey_hash = replicate 32 0;
  certificate_sig = [];
}

unfoldable pub add_extension : List ℕ → ℕ → List ℕ → List ℕ
add_extension buf id metadata = buf ++ (id ∷ (put_le32 (length metadata % 2 ^ 32) ++ metadata))

-- What the case of an extension comes to: the fields, errorInvalid, or a slice out of its range, which
-- ends the program.
pub data Read : Type 0 where
  reads : Extensions → Read
  malformed overruns : Read

-- A slice or an index that needs `n` bytes.
abbrev pub within : ℕ → List ℕ → Read → Read
within n bytes r = if ltb (length bytes) n then overruns else r

-- case extensionPasswordAuth; the first byte of the metadata is the length of the user name.
pub read_password : List ℕ → Extensions → Read
read_password [] exts = malformed
read_password (n ∷ rest) exts =
    if ltb (length (n ∷ rest)) (1 + n)
    then malformed
    else within (1 + n) (n ∷ rest)
        (reads (record exts { password_username = take n rest; password_password = drop n rest }))

-- From the byte behind the user name: the key's index, its hash, and a signature if bytes are left.
pub read_key : List ℕ → Extensions → Read
read_key [] exts = overruns
read_key (selected ∷ rest) exts = within 32 rest (
    reads (record exts {
      certificate_selected = selected;
      certificate_pubkey_hash = take 32 rest;
      certificate_sig = if ltb 32 (length rest) then drop 32 rest else exts.certificate_sig;
    }))

-- case extensionCertificateAuth
pub read_certificate : List ℕ → Extensions → Read
unfolding read_key
read_certificate [] exts = malformed
read_certificate (n ∷ rest) exts =
    if ltb (length (n ∷ rest)) (1 + n + 1 + 32)
    then malformed
    else within (1 + n) (n ∷ rest)
        (read_key (drop n rest) (record exts { certificate_username = take n rest }))

-- switch extID
pub read_extension : ℕ → List ℕ → Extensions → Read
unfolding read_password read_certificate
read_extension id meta exts =
    if id == Extension.udp
    then reads (record exts { udp = true })
    else if id == Extension.password_auth
    then read_password meta exts
    else if id == Extension.certificate_auth
    then read_certificate meta exts
    else if id == Extension.stream_confirm
    then reads (record exts { stream_confirm = true })
    else reads exts

-- `panics` is a slice out of its range, and `out_of_fuel` no result of the program.
pub data Parsed : Type 0 where
  parsed : Extensions → Parsed
  error_invalid panics out_of_fuel : Parsed

-- for len(data) >= 5, and the check of what is left behind the loop.
parse_extensions : ℕ → List ℕ → Extensions → Parsed
parse_extensions zero bytes exts = out_of_fuel
parse_extensions (suc fuel) (id ∷ l0 ∷ l1 ∷ l2 ∷ l3 ∷ rest) exts =
    let ext_len = le32 l0 l1 l2 l3 in
    let next : Parsed = elim (read_extension id (take ext_len rest) exts) [
      | malformed ↦ error_invalid
      | overruns ↦ panics
      | reads exts' ↦ parse_extensions fuel (drop ext_len rest) exts'
    ] in
    if ltb (length rest % 2 ^ 32) ext_len
    then error_invalid
    else if ltb (length rest) ext_len
    then panics
    else next
parse_extensions (suc fuel) [] exts = parsed exts
parse_extensions (suc fuel) bytes exts = error_invalid

-- A round takes five bytes at least, so the length is fuel enough.
pub parse_client_info : List ℕ → Parsed
unfolding parse_extensions
parse_client_info payload =
    if ltb (length payload) 2
    then error_invalid
    else parse_extensions (suc (length payload)) (drop 2 payload) no_extensions

pub record InfoConfig : Type 0 where
  pub allow_udp : Bool
  pub password_auth : Bool
  pub password_auth_required : Bool
  pub motd : List ℕ

udp_extension : InfoConfig → List ℕ → List ℕ
unfolding add_extension
udp_extension c buf = if c.allow_udp then add_extension buf Extension.udp [] else buf

password_extension : InfoConfig → List ℕ → List ℕ
unfolding add_extension
password_extension c buf =
    if c.password_auth
    then add_extension buf Extension.password_auth
        ((if c.password_auth_required then 1 else 0) ∷ [])
    else buf

motd_extension : List ℕ → List ℕ → List ℕ
unfolding add_extension
motd_extension [] buf = buf
motd_extension (c ∷ cs) buf = add_extension buf Extension.motd (c ∷ cs)

pub build_server_info_packet : InfoConfig → List ℕ
unfolding udp_extension password_extension motd_extension
build_server_info_packet c =
    PacketType.info
    ∷ 0
    ∷ 0
    ∷ 0
    ∷ 0
    ∷ wisp_major_version
    ∷ wisp_minor_version
    ∷ motd_extension c.motd (password_extension c (udp_extension c []))
