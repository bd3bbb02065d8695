-- ===== src/Tests/Sockets.antt =====
-- The sockets of the two programs, and the tunnel of the proxy, on concrete connections.
use telco_helm_charts.Common.{
  ℕ, zero, suc, ◌%◌, ◌/◌, leb, ◌&&◌, ◌∙◌, ap, Bool, false, Option, Bool-cases, inl, inr, arith,
  Char, String, code, nat_eq, true, none, some, List, [], ◌∷◌, ◌≡◌, refl, All, if◌then◌else◌, ◌==◌,
}
use telco_helm_charts.Sockets.{Names, Kernel, DialFunction, found, undialed}
use telco_helm_charts.Browse.Address.{Addr, v4, v6, quad}
use telco_helm_charts.Browse.Client
use telco_helm_charts.Browse.Client.Sockets.{Parts, web_dial}
use telco_helm_charts.Browse.Client.Sockets.Origin.{IsStandard, IsOfPhone, web_dial-AreOfPhone}
use mathlib.Core.Option
use telco_helm_charts.Proxy.{has_colon}
use telco_helm_charts.Proxy.Startup.{
  Match, env, settings, wait_for_interface, wait_from, first_addressed,
}
use telco_helm_charts.Proxy.Main.{
  Server, Served, server_closed, Ending, returned, server_of, main, IsConfined, main-IsConfined,
}
use telco_helm_charts.Sockets.Copy.{finished, arrive, peer_ends, read, write, reach_end, new_flow}
use telco_helm_charts.Socks.Relay
use telco_helm_charts.Socks.Relay.Half
use telco_helm_charts.Socks.Relay.Half.{Reach-IsSound}
use telco_helm_charts.Proxy.Relay.{copies, upward, Reach, here, next, new_relay}
use telco_helm_charts.Proxy.Relay.Delivery.{IsSound, relay-IsSound}
use telco_helm_charts.Browse.Outline.Words.{trim_space, trim_left, trim_right, is_space}

-- An address is written in binary, the lowest bit first, in 32 bits or 128; its port follows a colon.
abbrev bits : (count : ℕ) → ℕ → String
bits zero n = ""
bits (suc k) n =
    if nat_eq (n % 2) 0 then String.◌∷◌ "0" (bits k (n / 2)) else String.◌∷◌ "1" (bits k (n / 2))

abbrev show : Addr → String
show (v4 n) = bits 32 n
show (v6 n) = bits 128 n

onto : String → String → String
onto String.[] t = t
onto (String.◌∷◌ c s) t = String.◌∷◌ c (onto s t)

-- What stands before the first colon, and after it.
abbrev after_char : ℕ → Char → String → Option (String × String) → Option (String × String)
after_char c d s more =
    if nat_eq c 58
    then some ("", s)
    else Option.map (λ (host, port). (String.◌∷◌ d host, port)) more

cut : String → Option (String × String)
cut String.[] = none
cut (String.◌∷◌ c s) = after_char (code c) c s (cut s)

abbrev parts_of : Option (String × String) → Parts
parts_of none = (some "missing port in address", ("", ""))
parts_of (some (host, port)) =
    if has_colon port then (some "too many colons in address", ("", "")) else (none, (host, port))

abbrev split_text : String → Parts
split_text text = parts_of (cut text)

-- An address begins with a digit, and a name with none.
abbrev is_literal : String → Bool
is_literal String.[] = false
is_literal (String.◌∷◌ c s) = leb 48 (code c) && leb (code c) 57

-- Every name has the same address, which a DNS server is asked for.
abbrev names : Names
names = record {
  split = split_text;
  join = λ host port. onto host (String.◌∷◌ ":" port);
  literal = is_literal;
  parse_ip = λ text. if is_literal text then some text else none;
  queries = λ host. ("udp", "192.0.2.53:53") ∷ [];
  answer = λ host outcomes. found ("93.184.216.34" ∷ []);
}

abbrev kernel : Kernel
kernel = record {
  raw_control = λ s. none;
  setsockopt = λ option value s. none;
  connect = λ s. none;
}

abbrev no_resolver : DialFunction
no_resolver network address = undialed "no such host"

cut-bits :
    (k n : ℕ) (port : String) → cut (onto (bits k n) (String.◌∷◌ ":" port)) ≡ some (bits k n, port)
unfolding cut onto
cut-bits zero n port = refl
cut-bits (suc k) n port = elim (Bool-cases (nat_eq (n % 2) 0)) [
  | inl e ↦ rw (e, cut, onto, cut-bits k (n / 2) port) refl
  | inr e ↦ rw (e, cut, onto, cut-bits k (n / 2) port) refl
]

show-cut :
    (ip : Addr) (port : String) → cut (onto (show ip) (String.◌∷◌ ":" port)) ≡ some (show ip, port)
show-cut (v4 n) port = cut-bits 32 n port
show-cut (v6 n) port = cut-bits 128 n port

bits-is_literal : (k n : ℕ) → is_literal (bits (suc k) n) ≡ true
bits-is_literal k n = elim (Bool-cases (nat_eq (n % 2) 0)) [ inl e ↦ rw e refl | inr e ↦ rw e refl ]

show-is_literal : (ip : Addr) → is_literal (show ip) ≡ true
show-is_literal (v4 n) = bits-is_literal 31 n
show-is_literal (v6 n) = bits-is_literal 127 n

-- A port that was found has no colon.
port-has_colon :
    (found : Option (String × String)) (host port : String)
    → parts_of found ≡ (none, (host, port))
    → has_colon port ≡ false
port-has_colon none host port e = ground arith
port-has_colon (some (h, p)) host port e = ground arith

names-IsStandard : IsStandard names show
unfolding has_colon cut onto
names-IsStandard = record {
  literal = show-is_literal;
  split = λ address host port e ip.
      let plain = port-has_colon (cut address) host port e in
      ap parts_of (show-cut ip port) ∙ rw plain refl;
  dns_literal = refl;
  dns_split = refl;
  dns_join = refl;
}

web_dial-AreOfPhone_example :
    All
      (IsOfPhone names show "10.45.0.2")
      (web_dial names kernel no_resolver "10.45.0.2" show
        (λ host outcomes. Client.found (v4 (quad 93 184 216 34) ∷ []))
        "example.org:443").sockets
web_dial-AreOfPhone_example =
    web_dial-AreOfPhone names-IsStandard kernel no_resolver "10.45.0.2" "10.45.0.2" refl
      (λ host outcomes. Client.found (v4 (quad 93 184 216 34) ∷ [])) "example.org:443"

abbrev proxy_env : String → String
proxy_env name = if name == "DNS_SERVER" then "8.8.8.8:53" else ""

abbrev interfaces : String → ℕ → List Match
interfaces pattern n = record { name = "uesimtun0"; addresses = some ("10.45.0.2" ∷ []) } ∷ []

abbrev serve : Server → Served
serve server = server_closed

abbrev run : Server × Ending
run = (
  server_of names kernel no_resolver serve (record {
    listen_address = "0.0.0.0:8118";
    interface = "uesimtun0";
    dns_server = "8.8.8.8:53";
  }),
  returned,
)

runs : main names kernel no_resolver serve proxy_env interfaces 1 ≡ some run
unfolding main server_of settings env wait_for_interface wait_from first_addressed trim_space
    trim_left trim_right is_space cut has_colon onto
runs = refl

main-IsConfined_example : IsConfined names kernel serve proxy_env interfaces "8.8.8.8:53" run
unfolding env is_space cut has_colon onto
main-IsConfined_example =
    main-IsConfined names kernel no_resolver serve proxy_env interfaces 1 run "8.8.8.8" "53" runs
      refl refl

-- Two bytes arrive from the client, one is written, and the client ends.
one_of_two : Reach new_relay (record new_relay {
  up = record new_flow { arrived = 1 ∷ 2 ∷ []; written = 1 ∷ []; buffer = 2 ∷ []; ended = true };
})
one_of_two =
    next
      (next
        (next (next here (upward (copies (arrive (1 ∷ 2 ∷ []) refl))))
          (upward (copies (read (1 ∷ 2 ∷ []) [] refl refl refl))))
        (upward (copies (write (1 ∷ []) (2 ∷ []) refl refl refl))))
      (upward (copies peer_ends))

relay-IsSound_example : IsSound (record new_relay {
  up = record new_flow { arrived = 1 ∷ 2 ∷ []; written = 1 ∷ []; buffer = 2 ∷ []; ended = true };
})
relay-IsSound_example = relay-IsSound one_of_two

-- The browser sends a byte and ends; the byte is written, and the goroutine is over.
abbrev half_closed : Relay.Relay
half_closed = record Relay.new_relay {
  up = record new_flow {
    arrived = 1 ∷ [];
    written = 1 ∷ [];
    ended = true;
    complete = true;
    phase = finished;
  };
  write_closed = true;
}

to_half_closed : Relay.Reach Relay.new_relay half_closed
to_half_closed =
    Relay.next
      (Relay.next
        (Relay.next
          (Relay.next
            (Relay.next (Relay.next Relay.here (Relay.upward (arrive (1 ∷ []) refl)))
              (Relay.upward (read (1 ∷ []) [] refl refl refl)))
            (Relay.upward (write (1 ∷ []) [] refl refl refl)))
          (Relay.upward peer_ends))
        (Relay.upward (reach_end refl refl refl refl)))
      (Relay.close_write refl)

Reach-IsSound_example : Half.IsSound half_closed
Reach-IsSound_example = Reach-IsSound to_half_closed
