-- ===== src/Proxy/Main.antt =====
-- images/5g-ue-http-proxy/main.go: `main`, from the environment to the end of the server. The
-- interfaces, the kernel and the server of net/http are parameters; its time limits are not modelled.
use telco_helm_charts.Common.{
  some-injective, ℕ, zero, suc, String, true, Option, none, some, List, ◌≡◌, ◌<>◌, refl, subst,
  arith, Option-cases, inl, inr,
}
use telco_helm_charts.Mode.{Environment}
use telco_helm_charts.Sockets.{Kernel, DialFunction, Names, dial}
use telco_helm_charts.Sockets.Opened.{Opens}
use telco_helm_charts.Proxy.Startup.{
  env, Match, first_addressed, wait_from, wait_for_interface, Settings, settings,
}
use telco_helm_charts.Proxy.Sockets.{State, new_proxy, IsBound, new_proxy-AreBound}

pub record Server : Type 0 where
  pub address : String
  pub handler : State

-- What `ListenAndServe` returns: `http.ErrServerClosed`, or another error.
pub data Served : Type 0 where
  server_closed : Served
  stopped : String → Served

-- `main` returns, or it ends the process with a text.
pub data Ending : Type 0 where
  returned : Ending
  fatal : String → Ending

abbrev pub ending_of : Served → Ending
ending_of server_closed = returned
ending_of (stopped err) = fatal ("proxy stopped: " <> err)

module _ (names : Names) (kernel : Kernel) (default_resolver : DialFunction)
    (serve : Server → Served) where
  unfoldable pub server_of : Settings → Server
  unfolding new_proxy
  server_of s = record {
    address = s.listen_address;
    handler = new_proxy names kernel default_resolver s.interface s.dns_server;
  }

  -- None if no interface is there in all polls.
  unfoldable pub main :
      Environment → (matches : String → ℕ → List Match) → (count : ℕ) → Option (Server × Ending)
  unfolding server_of settings
  main getenv matches count = elim (settings getenv matches count) [
    | none ↦ none
    | some s ↦ some (server_of s, ending_of (serve (server_of s)))
  ]

wait_from-found :
    (polls : ℕ → List Match) (count n : ℕ) (name : String)
    → wait_from polls count n ≡ some name
    → (m : ℕ) × (first_addressed (polls m) ≡ some name)
unfolding wait_from
wait_from-found polls zero n name h = ground arith
wait_from-found polls (suc count) n name h = elim (Option-cases (first_addressed (polls n))) [
  | inl e ↦ wait_from-found polls count (suc n) name (rw (wait_from, e) at h)
  | inr (found, e) ↦ (n, ground arith)
]

-- A run of `main`: it listens where the environment says, ends as the server does, and opens its
-- sockets through an interface that matches the pattern of the environment.
pub record IsConfined (names : Names) (kernel : Kernel) (serve : Server → Served)
    (getenv : Environment) (matches : String → ℕ → List Match) (dns_address : String)
    (run : Server × Ending) : Type 0 where
  pub address : run.0.address ≡ env getenv "LISTEN_ADDRESS" "0.0.0.0:8118"
  pub end : run.1 ≡ ending_of (serve run.0)
  pub interface :
      (m : ℕ) × (first_addressed (matches (env getenv "UE_INTERFACE_PATTERN" "uesimtun*") m)
        ≡ some run.0.handler.iface)
  pub sockets :
      (target : String)
      → Opens
          (IsBound kernel run.0.handler.iface dns_address)
          (dial names kernel run.0.handler.dialer "tcp" target)
  pub transport_sockets :
      (target : String)
      → Opens
          (IsBound kernel run.0.handler.iface dns_address)
          (run.0.handler.dial_context "tcp" target)
  pub unproxied : run.0.handler.proxy ≡ none

module _ (names : Names) (kernel : Kernel) (default_resolver : DialFunction)
    (serve : Server → Served) (getenv : Environment) (matches : String → ℕ → List Match)
    (count : ℕ) where
  -- If `main` serves, it listens on the address of the environment and ends as the server does, and
  -- an interface that matches the pattern of the environment had an address in some poll; whatever
  -- is dialled over TCP, by the proxy or by its transport, which uses no other proxy, each socket that is connected on the way is bound to that interface by the
  -- kernel, for TCP or for UDP to the DNS server of the environment, which has to be an IP
  -- address with a port.
  pub main-IsConfined :
      (run : Server × Ending) (dns_host dns_port : String)
      → main names kernel default_resolver serve getenv matches count ≡ some run
      → names.split (env getenv "DNS_SERVER" "1.1.1.1:53") ≡ (none, (dns_host, dns_port))
      → names.literal dns_host ≡ true
      → IsConfined names kernel serve getenv matches (names.join dns_host dns_port) run
  unfolding main settings wait_for_interface server_of new_proxy
  main-IsConfined run dns_host dns_port h split literal =
      elim (Option-cases
        (wait_from (matches (env getenv "UE_INTERFACE_PATTERN" "uesimtun*")) count 0)) [
          | inl e ↦ cc
          | inr (iface, e) ↦
              subst (IsConfined names kernel serve getenv matches (names.join dns_host dns_port))
                (some-injective _ _ (rw (main, settings, e) at h))
                (record {
                  address = refl;
                  end = refl;
                  interface =
                      wait_from-found (matches (env getenv "UE_INTERFACE_PATTERN" "uesimtun*"))
                        count 0 iface e;
                  sockets = λ target.
                      new_proxy-AreBound names kernel default_resolver iface _ dns_host dns_port
                        target split literal;
                  transport_sockets = λ target.
                      new_proxy-AreBound names kernel default_resolver iface _ dns_host dns_port
                        target split literal;
                  unproxied = refl;
                })
        ]
