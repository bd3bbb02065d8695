-- ===== src/Socks/RoundTrip.antt =====
-- What a well-formed client asks for is what the SOCKS proxy dials.
use telco_helm_charts.Common.{
  ℕ, ◌+◌, ◌*◌, ◌/◌, ◌%◌, Bool, true, false, List, [], ◌∷◌, ◌++◌, ◌≡◌, refl, ◌∙◌, length, some,
  Option, take-append, drop-append_length, length-append, arith, if◌then◌else◌, leb, ap,
}
use telco_helm_charts.Socks.{
  Bytes, Effect, write, dial, log, relay, close, Handler, read_full, no_auth, ip_string, read_host,
  reply, negotiate, read_request, connect, session, socks, continue, ◌>>=◌,
}
use telco_helm_charts.Socks.Transcript.{IsWebPort}

-- The address in a request.
pub data Address : Type 0 where
  ipv4 : (a b c d : ℕ) → Address
  domain : Bytes → Address

abbrev pub host_of : Address → Bytes
host_of (ipv4 a b c d) = ip_string (a ∷ b ∷ c ∷ d ∷ [])
host_of (domain name) = name

abbrev pub greeting : Bytes → Bytes
greeting methods = 5 ∷ length methods ∷ methods

abbrev pub request_to : Address → ℕ → Bytes → Bytes
request_to (ipv4 a b c d) port rest =
    5 ∷ 1 ∷ 0 ∷ 1 ∷ a ∷ b ∷ c ∷ d ∷ (port / 256) ∷ (port % 256) ∷ rest
request_to (domain name) port rest =
    5 ∷ 1 ∷ 0 ∷ 3 ∷ length name ∷ (name ++ (port / 256) ∷ (port % 256) ∷ rest)

read_full-append : (xs ys : Bytes) → read_full (length xs) (xs ++ ys) ≡ ([], some (xs, ys))
unfolding read_full
read_full-append xs ys =
    let fits : leb (length xs) (length (xs ++ ys)) ≡ true = ground (arith, length-append xs ys) in
    rw (fits, take-append xs ys, drop-append_length xs ys)

negotiate-greeting :
    (methods rest : Bytes)
    → no_auth methods ≡ true
    → negotiate (greeting methods ++ rest) ≡ (write (5 ∷ 0 ∷ []) ∷ [], some (tt, rest))
unfolding negotiate
negotiate-greeting methods rest h =
    rw (
      read_full-append (5 ∷ length methods ∷ []) (methods ++ rest),
      read_full-append methods rest,
      h,
    )

port_bytes : (port : ℕ) → port / 256 * 256 + port % 256 ≡ port
port_bytes port = omega arith

read_request-request_to :
    (to : Address) (port : ℕ) (rest : Bytes)
    → read_request (request_to to port rest) ≡ ([], some ((host_of to, port), rest))
unfolding read_request read_host
read_request-request_to (ipv4 a b c d) port rest =
    let tail = (port / 256) ∷ (port % 256) ∷ rest in
    rw (
      read_full-append (5 ∷ 1 ∷ 0 ∷ 1 ∷ []) (a ∷ b ∷ c ∷ d ∷ tail),
      read_full-append (a ∷ b ∷ c ∷ d ∷ []) tail,
      read_full-append ((port / 256) ∷ (port % 256) ∷ []) rest,
      port_bytes port,
    )
read_request-request_to (domain name) port rest =
    let tail = (port / 256) ∷ (port % 256) ∷ rest in
    rw (
      read_full-append (5 ∷ 1 ∷ 0 ∷ 3 ∷ []) (length name ∷ (name ++ tail)),
      read_full-append (length name ∷ []) (name ++ tail),
      read_full-append name tail,
      read_full-append ((port / 256) ∷ (port % 256) ∷ []) rest,
      port_bytes port,
    )

connect-web :
    (reachable : Bytes → ℕ → Bool) (host : Bytes) (port : ℕ) (rest : Bytes)
    → IsWebPort port
    → (connect reachable host port rest).0
      ≡ dial host port (reachable host port)
        ∷ (if reachable host port
            then write (reply 0) ∷ log host ∷ relay rest ∷ []
            else write (reply 4) ∷ [])
unfolding connect
connect-web reachable host port rest h = ground (arith, h)

bind-read :
    {A B : Type 0} (m : Handler A) (f : A → Handler B) (input : Bytes) {a : A} {rest : Bytes}
    → m input ≡ ([], some (a, rest))
    → (m >>= f) input ≡ f a rest
bind-read m f input h = ap (λ r. continue r f) h

abbrev agreed_then : List Effect → List Effect
agreed_then es = write (5 ∷ 0 ∷ []) ∷ (es ++ close ∷ [])

split-append :
    (e : Effect) (b : Bool) (xs ys : List Effect)
    → agreed_then (e ∷ (if b then xs else ys))
      ≡ write (5 ∷ 0 ∷ []) ∷ e ∷ (if b then xs ++ close ∷ [] else ys ++ close ∷ [])
split-append e true xs ys = refl
split-append e false xs ys = refl

-- A client that offers "no authentication" and asks for a web port of a host gets just that host
-- and that port dialled; the answer says whether the dial succeeded, and what the client sends
-- after the request is relayed unchanged.
pub socks-request_to :
    (reachable : Bytes → ℕ → Bool) (methods : Bytes) (to : Address) (port : ℕ) (rest : Bytes)
    → no_auth methods ≡ true
    → IsWebPort port
    → socks reachable (greeting methods ++ request_to to port rest)
      ≡ write (5 ∷ 0 ∷ [])
        ∷ dial (host_of to) port (reachable (host_of to) port)
        ∷ (if reachable (host_of to) port
            then write (reply 0) ∷ log (host_of to) ∷ relay rest ∷ close ∷ []
            else write (reply 4) ∷ close ∷ [])
unfolding socks session
socks-request_to reachable methods to port rest h web =
    rw (negotiate-greeting methods (request_to to port rest) h) (
      ap (λ (r : List Effect × Option (Unit {0} × Bytes)). agreed_then r.0)
        (bind-read read_request (λ r. connect reachable r.0 r.1) (request_to to port rest)
          (read_request-request_to to port rest))
      ∙ ap agreed_then (connect-web reachable (host_of to) port rest web)
      ∙ split-append _ (reachable (host_of to) port) _ _)
