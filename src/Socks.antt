-- ===== src/Socks.antt =====
-- `socks` of ella-core/ue-phones/app/browser.go: the SOCKS5 proxy of the remote browser.
-- What the client sends is a list of bytes; a handler reads from it, and its writes and calls are
-- recorded in order. `io.ReadFull` fails when the bytes run out. Deadlines are not modelled.
pub mod Relay
pub mod Transcript
pub mod RoundTrip
use telco_helm_charts.Common.{
  ℕ, zero, suc, ◌+◌, ◌-◌, ◌*◌, ◌/◌, ◌%◌, Bool, true, false, not, ◌&&◌, ◌||◌, Option, none, some,
  List, [], ◌∷◌, ◌++◌, length, drop, take, get_or, ltb, leb, nat_eq, if◌then◌else◌,
}

abbrev pub Bytes : Type 0
Bytes = List ℕ

-- `dial` is `transport.DialContext` with the host and the port that `net.JoinHostPort` joins, and
-- whether it succeeds; `log` is the event "Chromium via UE ..." with the host; `relay` copies
-- what the client sends from here on, and the answers, until both sides are closed.
pub data Effect : Type 0 where
  write : Bytes → Effect
  dial : (host : Bytes) (port : ℕ) → Bool → Effect
  log : (host : Bytes) → Effect
  relay : (rest : Bytes) → Effect
  close : Effect

-- A handler that may return early: its effects, and its result with the bytes that are left.
abbrev pub Handler : Type 0 → Type 0
Handler A = Bytes → List Effect × Option (A × Bytes)

abbrev pub continue :
    {A B : Type 0}
    → List Effect × Option (A × Bytes)
    → (A → Handler B)
    → List Effect × Option (B × Bytes)
continue (es, none) f = (es, none)
continue (es, some (a, rest)) f = let (more, r) = f a rest in (es ++ more, r)

infixl 5 ◌>>=◌ ◌>>◌
abbrev pub ◌>>=◌ : {A B : Type 0} → Handler A → (A → Handler B) → Handler B
◌>>=◌ m f input = continue (m input) f

abbrev pub ◌>>◌ : {B : Type 0} → Handler (Unit {0}) → Handler B → Handler B
m >> n = m >>= λ _. n

abbrev pub pure : {A : Type 0} → A → Handler A
pure a input = ([], some (a, input))

-- `return`
abbrev pub stop : {A : Type 0} → Handler A
stop input = ([], none)

abbrev pub require : Bool → Handler (Unit {0})
require true = pure tt
require false = stop

abbrev pub perform : Effect → Handler (Unit {0})
perform e input = (e ∷ [], some (tt, input))

unfoldable pub read_full : ℕ → Handler Bytes
read_full n input =
    if leb n (length input) then ([], some (take n input, drop n input)) else ([], none)

abbrev pub byte : ℕ → Bytes → ℕ
byte i bs = get_or bs i 0

-- The loop over the methods: whether one of them is 0.
unfoldable pub no_auth : Bytes → Bool
no_auth [] = false
no_auth (m ∷ ms) = nat_eq m 0 || no_auth ms

-- A byte in decimal.
unfoldable pub decimal : ℕ → Bytes
decimal n =
    if ltb n 10
    then (48 + n) ∷ []
    else if ltb n 100
    then (48 + n / 10) ∷ (48 + n % 10) ∷ []
    else (48 + n / 100) ∷ (48 + n / 10 % 10) ∷ (48 + n % 10) ∷ []

-- `net.IP(b).String()` of four bytes.
unfoldable pub ip_string : Bytes → Bytes
unfolding decimal
ip_string b =
    decimal (byte 0 b)
    ++ 46 ∷ (decimal (byte 1 b) ++ 46 ∷ (decimal (byte 2 b) ++ 46 ∷ decimal (byte 3 b)))

read_domain : Handler Bytes
read_domain = do n ← read_full 1; read_full (byte 0 n)

-- The switch on the type of the address.
unfoldable pub read_host : ℕ → Handler Bytes
unfolding read_domain
read_host kind =
    if nat_eq kind 1
    then (do b ← read_full 4; pure (ip_string b))
    else if nat_eq kind 3
    then read_domain
    else stop

abbrev pub reply : ℕ → Bytes
reply code = 5 ∷ code ∷ 0 ∷ 1 ∷ 0 ∷ 0 ∷ 0 ∷ 0 ∷ 0 ∷ 0 ∷ []

-- Until the method is agreed.
unfoldable pub negotiate : Handler (Unit {0})
negotiate = do
  greeting ← read_full 2
  require (nat_eq (byte 0 greeting) 5)
  methods ← read_full (byte 1 greeting)
  if no_auth methods then perform (write (5 ∷ 0 ∷ [])) else do perform (write (5 ∷ 255 ∷ [])); stop

-- The request: a host and a port.
unfoldable pub read_request : Handler (Bytes × ℕ)
read_request = do
  header ← read_full 4
  require (nat_eq (byte 0 header) 5 && nat_eq (byte 1 header) 1)
  host ← read_host (byte 3 header)
  port_bytes ← read_full 2
  pure (host, byte 0 port_bytes * 256 + byte 1 port_bytes)

-- From the port check on. `reachable` says whether the dial succeeds.
unfoldable pub connect : (reachable : Bytes → ℕ → Bool) → Bytes → ℕ → Handler (Unit {0})
connect reachable host port =
    if not (nat_eq port 80) && not (nat_eq port 443)
    then (do perform (write (reply 2)); stop)
    else do
      perform (dial host port (reachable host port))
      if reachable host port
          then (do
            perform (write (reply 0))
            perform (log host)
            λ rest. (relay rest ∷ [], some (tt, [])))
          else do perform (write (reply 4)); stop

session : (reachable : Bytes → ℕ → Bool) → Handler (Unit {0})
session reachable = do negotiate; request ← read_request; connect reachable request.0 request.1

-- `defer c.Close()`
unfoldable pub socks : (reachable : Bytes → ℕ → Bool) → Bytes → List Effect
unfolding session
socks reachable input = (session reachable input).0 ++ close ∷ []
