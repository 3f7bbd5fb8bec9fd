-- ===== src/Filters.antt =====
-- The lists of hostnames and ports of a configuration: FilterSet, its UnmarshalJSON, and
-- validPortNumber (wisp/config.go). What encoding/json makes of the data is an argument: the fields,
-- and for each the Go value that it can be decoded to. A set is the list of what was put into it, the
-- last first. A number of JSON is its integral part and whether it is whole.
pub mod Numbers
pub mod Listed
pub mod Blocked
use wispurr.Base.{
  ℕ, zero, suc, ◌+◌, ◌-◌, ◌%◌, ◌^◌, List, [], ◌∷◌, Bool, true, false, ◌&&◌, ◌||◌, not, Option, none,
  some, leb, ltb, ◌==◌, if◌then◌else◌,
}
use wispurr.Base.Int.{ℤ, pos, pos_part, leb_ℤ}
use wispurr.Base.Map.{same_list}
use wispurr.Config.Text.{empty_text}
use wispurr.Hostname.{normalize_target_hostname}

pub record FilterSet : Type 0 where
  pub hostnames : List (List ℕ)
  pub ports : List ℕ

pub data FilterError : Type 0 where
  json_error unknown_field empty_hostname bad_hostnames bad_port : FilterError
  bad_range_length bad_range_element bad_entry bad_ports bad_key : FilterError

pub record Number : Type 0 where
  pub whole : Bool
  pub integral : ℤ

-- An element of the array of ports: a number, an array, where `none` is an element that is no number,
-- or anything else.
pub data PortEntry : Type 0 where
  number : Number → PortEntry
  range : List (Option Number) → PortEntry
  other_entry : PortEntry

-- A field: absent, an array that can be decoded, an object, of which the keys are used, or neither.
pub data Hostnames : Type 0 where
  no_hostnames : Hostnames
  names : List (List ℕ) → Hostnames
  name_keys : List (List ℕ) → Hostnames
  other_hostnames : Hostnames

pub data Ports : Type 0 where
  no_ports : Ports
  entries : List PortEntry → Ports
  port_keys : List (List ℕ) → Ports
  other_ports : Ports

pub record FilterJson : Type 0 where
  pub fields : List (List ℕ)
  pub hostnames : Hostnames
  pub ports : Ports

abbrev pub Outcome : Type 0
Outcome = FilterSet × Option FilterError

-- The next statement, unless the last one has returned an error.
unfoldable pub go_on : Outcome → (FilterSet → Outcome) → Outcome
go_on (f, none) next = next f
go_on (f, some e) next = (f, some e)

unfoldable pub add_hostname : FilterSet → List ℕ → Outcome
add_hostname f name =
    let host = normalize_target_hostname name in
    if empty_text host
    then (f, some empty_hostname)
    else (record f { hostnames = host ∷ f.hostnames }, none)

unfoldable pub add_names : FilterSet → List (List ℕ) → Outcome
add_names f [] = (f, none)
add_names f (name ∷ rest) = go_on (add_hostname f name) (λ g. add_names g rest)

unfoldable pub add_hostnames : FilterSet → Hostnames → Outcome
add_hostnames f no_hostnames = (f, none)
add_hostnames f (names hs) = add_names f hs
add_hostnames f (name_keys hs) = add_names f hs
add_hostnames f other_hostnames = (f, some bad_hostnames)

unfoldable pub valid_port_number : Number → Option ℕ
valid_port_number v =
    if v.whole && leb_ℤ (pos 1) v.integral && leb_ℤ v.integral (pos 65535)
    then some (pos_part v.integral)
    else none

unfoldable pub add_port : FilterSet → ℕ → FilterSet
add_port f port = record f { ports = port ∷ f.ports }

-- The loop of a range, with the number of rounds that are left.
unfoldable pub add_from : FilterSet → ℕ → ℕ → FilterSet
add_from f i zero = f
add_from f i (suc n) = add_from (add_port f (i % 2 ^ 16)) (i + 1) n

unfoldable pub add_bounds : FilterSet → ℕ → ℕ → FilterSet
add_bounds f start end =
    if ltb end start then add_from f end (suc start - end) else add_from f start (suc end - start)

unfoldable pub add_valid : FilterSet → Option ℕ → Option ℕ → Outcome
add_valid f (some start) (some end) = (add_bounds f start end, none)
add_valid f (some start) none = (f, some bad_port)
add_valid f none end = (f, some bad_port)

unfoldable pub add_range : FilterSet → List (Option Number) → Outcome
add_range f (some start ∷ some end ∷ []) =
    add_valid f (valid_port_number start) (valid_port_number end)
add_range f (none ∷ end ∷ []) = (f, some bad_range_element)
add_range f (some start ∷ none ∷ []) = (f, some bad_range_element)
add_range f [] = (f, some bad_range_length)
add_range f (a ∷ []) = (f, some bad_range_length)
add_range f (a ∷ b ∷ c ∷ rest) = (f, some bad_range_length)

unfoldable pub add_one : FilterSet → Option ℕ → Outcome
add_one f none = (f, some bad_port)
add_one f (some port) = (add_port f port, none)

unfoldable pub add_entry : FilterSet → PortEntry → Outcome
add_entry f (number v) = add_one f (valid_port_number v)
add_entry f (range vs) = add_range f vs
add_entry f other_entry = (f, some bad_entry)

unfoldable pub add_entries : FilterSet → List PortEntry → Outcome
add_entries f [] = (f, none)
add_entries f (e ∷ rest) = go_on (add_entry f e) (λ g. add_entries g rest)

unfoldable pub add_parsed : FilterSet → Option ℕ → Outcome
add_parsed f none = (f, some bad_key)
add_parsed f (some n) = if n == 0 then (f, some bad_key) else (add_port f (n % 2 ^ 16), none)

unfoldable pub has_unknown : List (List ℕ) → Bool
has_unknown [] = false
has_unknown (name ∷ rest) =
    not (
      same_list name (b'h' ∷ b'o' ∷ b's' ∷ b't' ∷ b'n' ∷ b'a' ∷ b'm' ∷ b'e' ∷ b's' ∷ [])
      || same_list name (b'p' ∷ b'o' ∷ b'r' ∷ b't' ∷ b's' ∷ []))
    || has_unknown rest

-- strconv.ParseUint of a key, in base 10 and with 16 bits.
module _ (parse_uint : List ℕ → Option ℕ) where
  unfoldable pub add_keys : FilterSet → List (List ℕ) → Outcome
  add_keys f [] = (f, none)
  add_keys f (key ∷ rest) = go_on (add_parsed f (parse_uint key)) (λ g. add_keys g rest)

  unfoldable pub add_ports : FilterSet → Ports → Outcome
  add_ports f no_ports = (f, none)
  add_ports f (entries es) = add_entries f es
  add_ports f (port_keys ks) = add_keys f ks
  add_ports f other_ports = (f, some bad_ports)

  -- UnmarshalJSON; `none` is data that is no JSON object.
  unfoldable pub unmarshal_json : FilterSet → Option FilterJson → Outcome
  unmarshal_json f none = (f, some json_error)
  unmarshal_json f (some j) =
      if has_unknown j.fields
      then (f, some unknown_field)
      else go_on (add_hostnames f j.hostnames) (λ g. add_ports g j.ports)
