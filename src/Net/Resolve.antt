-- ===== src/Net/Resolve.antt =====
-- IPComm.cc: Init, InitServer, ResolveDNSName, get_reverse_dns and what prints an object.
pub mod Retry
use ip_utils.Base.{
  ℕ, zero, suc, Bool, not, Option, none, some, List, [], ◌∷◌, ◌++◌, ◌==◌, if◌then◌else◌, Bytes,
  codes, take, cstr, decimal,
}
use ip_utils.ErrorHandler
use ip_utils.ErrorHandler.{ErrorHandler, ex_oserr}
use ip_utils.Net.{
  print_fd, is_unspec, software_event, port, set_address_family, hostname, Family, inet, inet6,
  unspec, other_family, SockAddr, Conn,
}

-- `IPCOMM_DNS_RETRY_CNT` less the first round.
abbrev pub dns_retries : ℕ
dns_retries = 2

-- What getaddrinfo(3), getnameinfo(3) and gethostbyname(3) give: a result, "try again", or a failure.
pub data Lookup {ℓ} (A : Type ℓ) : Type ℓ where
  found : A → Lookup A
  again : Lookup A
  no_luck : ℕ → Lookup A

pub record AddrInfo : Type 0 where
  pub family : Family
  pub addrlen : ℕ
  pub addr : SockAddr

-- The resolver, and what the failure of a lookup prints.
pub record Resolver (K : Type 0) : Type 0 where
  pub getaddrinfo : Bytes → Family → K → K × Lookup (List AddrInfo)
  pub getnameinfo : SockAddr → K → K × Lookup Bytes
  pub gethostbyname : Bytes → K → K × Lookup (List Bytes)
  -- `inet_addr(host) != -1`
  pub is_dotted : Bytes → Bool
  -- inet_ntop(3) or "NULL"
  pub ip_address : SockAddr → Bytes
  -- inet_ntoa(3)
  pub inet_ntoa : Bytes → Bytes
  pub gai_strerror : Option ℕ → Bytes

-- A lookup that is made again while it is told to, with the rounds that are left; the first argument
-- is the count of rounds behind the first one.
module _ {K A : Type 0} where
  unfoldable pub retry : ℕ → (K → K × Lookup A) → K → K × Lookup A × ℕ
  retry zero call k = let (k', r) = call k in (k', r, 0)
  retry (suc n) call k =
      let (k', r) = call k in
      let rest = retry n call k' in
      elim r [ again ↦ rest | found a ↦ (k', found a, suc n) | no_luck m ↦ (k', no_luck m, suc n) ]

pub record Resolved (K : Type 0) : Type 0 where
  pub kernel : K
  pub conn : Conn
  pub error : ErrorHandler

module _ {K : Type 0} (net : Resolver K) where
  abbrev lookup_event : ErrorHandler → Bytes → Option ℕ → ErrorHandler
  lookup_event e routine code =
      ErrorHandler.init e ex_oserr
        (some (codes "IPComm::" ++ (routine ++ (codes "(): " ++ net.gai_strerror code))))

  abbrev pub named : Conn → ErrorHandler → K × Lookup Bytes × ℕ → Resolved K
  named c e (k, found host, left) = record {
    kernel = k;
    conn = record c { dns_names = c.dns_names ++ (host ∷ []) };
    error = e;
  }
  named c e (k, again, left) = record {
    kernel = k;
    conn = record c { dns_names = [] };
    error = lookup_event e (codes "ResolveDNSName") none;
  }
  named c e (k, no_luck n, left) = record {
    kernel = k;
    conn = record c { dns_names = [] };
    error = lookup_event e (codes "ResolveDNSName") (some n);
  }

  abbrev pub resolve_in : Family → K → Conn → ErrorHandler → ℕ → Resolved K
  resolve_in inet k c e retries = named c e (retry retries (net.getnameinfo c.sockaddr) k)
  resolve_in inet6 k c e retries = named c e (retry retries (net.getnameinfo c.sockaddr) k)
  resolve_in unspec k c e retries = record {
    kernel = k;
    conn = c;
    error = software_event e (codes "IPComm::ResolveDNSName(): address_family is AF_UNSPEC");
  }
  resolve_in (other_family n) k c e retries = record {
    kernel = k;
    conn = c;
    error =
        software_event e
          (codes "IPComm::ResolveDNSName(): unknown address_family: " ++ (decimal n ++ codes "."));
  }

  -- `IPComm::ResolveDNSName`, for a retry count of `retries + 1`.
  unfoldable pub resolve_dns_name : K → Conn → ErrorHandler → ℕ → Resolved K
  unfolding retry
  resolve_dns_name k c e retries = resolve_in c.family k c e retries

  -- The family that is asked for.
  abbrev hint : Family → Family
  hint family = if is_unspec family then family else unspec

  abbrev mismatch : K → Conn → ErrorHandler → Resolved K
  mismatch k c e = record {
    kernel = k;
    conn = c;
    error = software_event e (codes "IPComm::Init(): ai_addrlen does not match struct size");
  }

  -- Of the addresses that were found the first one is taken.
  abbrev install : Family → AddrInfo → K → Conn → ErrorHandler → ℕ → Resolved K
  install inet a k c e left =
      if a.addrlen == 16
      then resolve_dns_name k (record c { sockaddr = a.addr }) e left
      else mismatch k c e
  install inet6 a k c e left =
      if a.addrlen == 28
      then resolve_dns_name k (record c { sockaddr = a.addr }) e left
      else mismatch k c e
  install family a k c e left = record {
    kernel = k;
    conn = c;
    error = software_event e (codes "IPComm::Init(): unknown address family");
  }

  abbrev addressed : Conn → ErrorHandler → K × Lookup (List AddrInfo) × ℕ → Resolved K
  addressed c e (k, again, left) = record {
    kernel = k;
    conn = c;
    error = lookup_event e (codes "Init") none;
  }
  addressed c e (k, no_luck n, left) = record {
    kernel = k;
    conn = c;
    error = lookup_event e (codes "Init") (some n);
  }
  addressed c e (k, found [], left) = resolve_dns_name k c e left
  addressed c e (k, found (a ∷ rest), left) =
      install a.family a k (set_address_family c a.family) e left

  -- `IPComm::Init`, for a retry count of `retries + 1`.
  unfoldable pub init_conn : K → Conn → ErrorHandler → Bytes → Family → ℕ → Resolved K
  unfolding resolve_dns_name set_address_family retry
  init_conn k c e host family retries =
      addressed c e (retry retries (net.getaddrinfo host (hint family)) k)

  abbrev first_address : K × Lookup (List Bytes) × ℕ → K × Option Bytes
  first_address (k, found (a ∷ rest), left) = (k, some (net.inet_ntoa a))
  first_address (k, r, left) = (k, none)

  -- `get_reverse_dns`, whose loop makes its call once and then again as often as the retry count
  -- says.
  unfoldable pub get_reverse_dns : K → Bytes → K × Option Bytes
  unfolding retry
  get_reverse_dns k host =
      if net.is_dotted host
      then (k, some host)
      else first_address (retry (suc dns_retries) (net.gethostbyname host) k)

-- `IPComm::InitServer`: `any` and `any6` are INADDR_ANY and in6addr_any.
abbrev wildcard : Bytes → Bytes → Family → Conn → ErrorHandler → Conn × ErrorHandler
wildcard any any6 inet c e = (record c { sockaddr = record c.sockaddr { address = any } }, e)
wildcard any any6 inet6 c e = (record c { sockaddr = record c.sockaddr { address = any6 } }, e)
wildcard any any6 unspec c e =
    (c, software_event e (codes "IPComm::InitServer(): unknown address family: 0"))
wildcard any any6 (other_family n) c e =
    (c, software_event e (codes "IPComm::InitServer(): unknown address family: " ++ decimal n))

unfoldable pub init_server : Bytes → Bytes → Conn → ErrorHandler → Family → Conn × ErrorHandler
unfolding set_address_family
init_server any any6 c e family = wildcard any any6 family (set_address_family c family) e

-- `IPComm::print`
unfoldable pub print : (SockAddr → Bytes) → Conn → Bytes
unfolding hostname
print ip_address c = take 1023 (cstr (hostname ip_address c) ++ (b':' ∷ print_fd c.fd))

-- `TCPConn::print_2tuple` and `TCPConn::print_3tuple`
unfoldable pub print_2tuple : (SockAddr → Bytes) → Conn → Bytes
unfolding hostname port
print_2tuple ip_address c = take 4095 (cstr (hostname ip_address c) ++ (b':' ∷ decimal (port c)))

unfoldable pub print_3tuple : (SockAddr → Bytes) → Conn → Bytes
unfolding print_2tuple
print_3tuple ip_address c = take 4095 (print_2tuple ip_address c ++ codes ":tcp")
