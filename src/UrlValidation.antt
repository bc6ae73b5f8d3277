-- ===== src/UrlValidation.antt =====
-- app/services/url_validation.py. `urlparse`, the resolver and the library's classification of an
-- address are parameters.
use ragr.Prelude.{
  if◌then◌else◌, length, any, ◌≤◌, String, ◌≡◌, refl, ◌⊎◌, inl, inr, Bool, true, false, ◌||◌, not,
  Option, none, some, List, [], ◌∷◌, arith, str_eq,
}
use ragr.Models.{truthy}

-- what the code reads of the result of `urlparse`
pub record ParsedUrl : Type 0 where
  pub scheme : String
  pub netloc : String
  pub path : String
  pub hostname : Option String

-- what `ipaddress` says of an address
pub record Address : Type 0 where
  pub is_private : Bool
  pub is_loopback : Bool
  pub is_link_local : Bool
  pub is_reserved : Bool
  pub is_multicast : Bool
  pub is_unspecified : Bool

abbrev pub is_blocked : Address → Bool
is_blocked ip =
    ip.is_private
    || (ip.is_loopback
        || (ip.is_link_local || (ip.is_reserved || (ip.is_multicast || ip.is_unspecified))))

-- What `getaddrinfo` does for a name: addresses, a `socket.gaierror`, or the UnicodeError, with its
-- message, of a name that has no encoding, such as one with an empty or a too long label.
pub data Resolved : Type 0 where
  addresses : List Address → Resolved
  gaierror : Resolved
  bad_name : String → Resolved

abbrev pub Resolver : Type 0
Resolver = String → Resolved

-- What a validation does: it returns, or raises an SSRFError or another ValueError, with a message.
pub data Validity : Type 0 where
  valid : Validity
  ssrf_error : String → Validity
  value_error : String → Validity

-- Only a gaierror is caught.
abbrev pub check_addresses : Resolved → Validity
check_addresses gaierror = ssrf_error "Cannot resolve hostname"
check_addresses (bad_name message) = value_error message
check_addresses (addresses []) = ssrf_error "No addresses found for hostname"
check_addresses (addresses (ip ∷ ips)) =
    if any is_blocked (ip ∷ ips)
    then ssrf_error "Blocked request to private/reserved address"
    else valid

abbrev pub host_of : Option String → String
host_of none = ""
host_of (some hostname) = hostname

abbrev pub is_web : String → Bool
is_web scheme = str_eq scheme "http" || str_eq scheme "https"

module _ (urlparse : String → ParsedUrl) (getaddrinfo : Resolver) where
  unfoldable pub validate_url : String → Validity
  validate_url url =
      let parsed = urlparse url in
      if str_eq parsed.scheme "" || str_eq parsed.netloc ""
      then ssrf_error "Invalid URL: missing scheme or host"
      else if not (is_web parsed.scheme)
      then ssrf_error "Only http and https URLs are allowed"
      else if not (truthy parsed.hostname)
      then ssrf_error "Invalid URL: no hostname"
      else check_addresses (getaddrinfo (host_of parsed.hostname))

  -- An http or https URL with a host, whose name resolves to some address, and to no blocked one.
  pub record IsSafe (url : String) : Type 0 where
    pub web : is_web (urlparse url).scheme ≡ true
    pub found : List Address
    pub resolved : getaddrinfo (host_of (urlparse url).hostname) ≡ addresses found
    pub none_blocked : any is_blocked found ≡ false
    pub non_empty : 1 ≤ length found

  check_addresses-valid :
      (o : Resolved)
      → check_addresses o ≡ valid
      → (ips : List Address) × ((o ≡ addresses ips)
          × ((any is_blocked ips ≡ false) × (1 ≤ length ips)))
  check_addresses-valid gaierror h = ground (arith, h)
  check_addresses-valid (bad_name message) h = ground (arith, h)
  check_addresses-valid (addresses []) h = ground (arith, h)
  check_addresses-valid (addresses (ip ∷ ips)) h =
      (ip ∷ ips, (refl, (ground (arith, h), omega arith)))

  pub validate_url-IsSafe : (url : String) → validate_url url ≡ valid → IsSafe url
  unfolding validate_url
  validate_url-IsSafe url h =
      let found : check_addresses (getaddrinfo (host_of (urlparse url).hostname)) ≡ valid =
        ground (arith, h) in
      let (ips, (resolved, (free, many))) = check_addresses-valid _ found in
      record {
        web = ground (arith, h);
        found = ips;
        resolved = resolved;
        none_blocked = free;
        non_empty = many;
      }

pub Validity-cases :
    (v : Validity)
    → (v ≡ valid)
      ⊎ (((message : String) × (v ≡ ssrf_error message))
          ⊎ ((message : String) × (v ≡ value_error message)))
Validity-cases valid = inl refl
Validity-cases (ssrf_error message) = inr (inl (message, refl))
Validity-cases (value_error message) = inr (inr (message, refl))
