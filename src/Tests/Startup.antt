-- ===== src/Tests/Startup.antt =====
-- The start of the two programs, and the goroutines that the first one starts, on concrete calls.
use telco_helm_charts.Common.{
  inl, ◌++◌, ℕ, ◌≤◌, String, true, false, none, some, List, [], ◌∷◌, length, map, ◌≡◌, ◌↔◌, refl,
  sym, ap, ◌∙◌, arith, All, eq_iff, nat_eq, if◌then◌else◌, ◌==◌,
}
use telco_helm_charts.Exec.{
  Env, invited, confirmed, State, pure, ◌>>=◌, observe, ask, update, locked,
}
use telco_helm_charts.Exec.View.{view, IsSteady}
use telco_helm_charts.Setup.Tunnel
use telco_helm_charts.Setup.Tunnel.{
  Network, opened, index, attach_internet, after_session, remove_stale, make_tunnel, route, try,
  ended,
}
use telco_helm_charts.Setup.Tunnel.Policy.{
  IsUp, up_calls, IsApart, attach_internet-attached_iff, attach_internet-IsApart,
}
use telco_helm_charts.Setup.Registration.{Subscriber, Endpoint, attached}
use telco_helm_charts.Setup.Initialize.{Setup, subscribers, initialize}
use telco_helm_charts.Setup.Initialize.Readiness.{
  lines, ready_with, Settled, IsFaithful, initialize-Settled,
}
use telco_helm_charts.Setup.Initialize.Smooth.{IsSmooth}
use telco_helm_charts.Setup.Initialize.Success.{initialize-ready}
use telco_helm_charts.Media.{
  Voice, silent, tick, packet, advance, transmit, enter_flow, media_round, media_from, media,
}
use telco_helm_charts.Media.Sending.{IsLogged}
use telco_helm_charts.Media.Numbering.{AreNumbered, media-numbered}
use telco_helm_charts.Proxy.Startup.{Match, wait_for_interface}
use telco_helm_charts.Proxy.Startup.Waiting.{IsFound, wait_for_interface-IsFound}
use telco_helm_charts.Tests.Fixtures.{calm_env, two_phones}

-- Numbers up to 2, as they are printed.
abbrev pub number : ℕ → String
number n = if nat_eq n 0 then "0" else if nat_eq n 1 then "1" else "2"

abbrev pub letter : ℕ → String
letter i = if nat_eq i 0 then "A" else "B"

-- A kernel in which every call succeeds, and a tunnel is left over.
abbrev network : Network
network = record {
  session = opened "10.45.0.2";
  stale = true;
  found = index 4;
  failure = λ c. none;
  parse_ip = λ text. some text;
}

attach_internet-attached_iff_example :
    (((attach_internet number network 0).ending ≡ Tunnel.attached "10.45.0.2")
      ↔ IsUp number network 0 "10.45.0.2")
    × (((attach_internet number network 0).ending ≡ Tunnel.attached "10.45.0.2") ↔ (
        (u : IsUp number network 0 "10.45.0.2") × (attach_internet number network 0
          ≡ ended
              (up_calls number network 0 "10.45.0.2" u.link_index)
              (Tunnel.attached "10.45.0.2"))))
attach_internet-attached_iff_example = attach_internet-attached_iff number network 0 "10.45.0.2"

attach_internet-IsApart_example : All (IsApart number 1) (attach_internet number network 0).calls
attach_internet-IsApart_example =
    attach_internet-IsApart number network 0 1 (omega arith) (omega arith) (omega arith)
      (ground (arith, eq_iff "ellaweb0" "ellaweb1"))

-- A process for the first phone without the services of IMS.
abbrev pub getenv : String → String
getenv name =
    if name == "UE_MODE"
    then "internet"
    else if name == "PHONE_ID"
    then "1"
    else if name == "BROWSER_ENABLED"
    then "true"
    else "10.0.0.1"

abbrev pub setup : Setup ℕ
setup = record {
  start_default = λ r w. (none, w);
  start_node = λ id name r w. (none, w);
  wait_setup = λ w. (none, w);
  close_gnb = λ w. w;
  registrar = record {
    new_ue = λ s w. (none, w);
    add_ue = λ id w. w;
    register = λ id w. (none, w);
  };
  first_id = 1;
  attach_ims = λ subs w. (attached (map (λ s. record { subscriber = s; ran_ue = 1 }) subs), w);
  dashboard_ims = λ s w. (none, w);
  watch = λ i w. w;
  network = λ w i. network;
  called = λ calls w. w;
  failure = λ w firewall args. none;
  listen_error = λ w. none;
  commanded = λ effects w. w;
}

map-endpoint :
    (subs : List Subscriber)
    → map (λ (e : Endpoint). e.subscriber) (map (λ s. record { subscriber = s; ran_ue = 1 }) subs)
      ≡ subs
map-endpoint [] = refl
map-endpoint (s ∷ subs) = ap (λ l. s ∷ l) (map-endpoint subs)

setup-IsFaithful : IsFaithful setup
setup-IsFaithful subs es w v h =
    let same : map (λ s. record { subscriber = s; ran_ue = 1 }) subs ≡ es = ground arith in
    ap (map (λ (e : Endpoint). e.subscriber)) (sym same) ∙ map-endpoint subs

abbrev calm_env-IsSteady : IsSteady calm_env
calm_env-IsSteady = record { others = λ d w. refl }

setup-IsSmooth : IsSmooth getenv number letter setup
unfolding subscribers
setup-IsSmooth = record {
  starts_node = λ id name r w. refl;
  starts_default = λ r w. refl;
  waits = λ w. refl;
  attaches = λ subs w. (_, refl);
  makes = λ s w. refl;
  registers = λ id w. refl;
  ims = λ s w. refl;
  opens = λ i w. ("10.45.0.2", refl);
  finds = λ i w. (4, refl);
  calls = λ i w c other. refl;
  single = λ e. refl;
  protects = λ e w. ((refl, refl, refl, refl, inl refl), (refl, refl, refl, refl, inl refl), refl);
}

abbrev empty : State ℕ
empty = record {
  dash = record { phones = []; events = []; ready = false; problem = ""; next = 0 };
  world = 0;
  spawned = [];
}

initialize-ready_example :
    view (initialize getenv number letter setup calm_env empty).1.dash
    ≡ ready_with (lines getenv number letter 0 (subscribers getenv))
initialize-ready_example =
    initialize-ready getenv number letter setup calm_env-IsSteady setup-IsSmooth empty
      setup-IsFaithful refl

initialize-Settled_example :
    Settled getenv number letter
      (lines getenv number letter 0 (subscribers getenv))
      (view (initialize getenv number letter setup calm_env empty).1.dash)
initialize-Settled_example =
    initialize-Settled getenv number letter setup calm_env-IsSteady empty setup-IsFaithful refl

-- A call that goes on, over one flow, in a world that the radio does not change.
abbrev pub voice : Voice ℕ
voice = record {
  wake = λ c w. (tick, w);
  stream =
      λ w c. some (record { local_address = "10.46.0.2:4000"; remote_address = "10.46.0.3:4000" });
  flows = λ w i. 1 ∷ [];
  downlink = λ w i qfi. 0;
  has_upf = λ w i. true;
  send = λ i qfi stream bytes w. (none, w);
}

-- The same call in the world of the packets that the radio got.
abbrev recording : Voice (List (List ℕ))
recording = record {
  wake = λ c w. (tick, w);
  stream =
      λ w c. some (record { local_address = "10.46.0.2:4000"; remote_address = "10.46.0.3:4000" });
  flows = λ w i. 1 ∷ [];
  downlink = λ w i qfi. 0;
  has_upf = λ w i. true;
  send = λ i qfi stream bytes w. (none, w ++ bytes ∷ []);
}

abbrev radio_env : Env (List (List ℕ))
radio_env = record {
  others = λ d w. (d, w);
  pass = λ w. w;
  now = λ w. 0;
  call_state = λ w c. confirmed;
  call_incoming = λ w c. false;
  register = λ i w. (none, w);
  deregister = λ i w. (none, w);
  submit = λ i smsc to text w. (record { rp_error = none; error = none }, w);
  invite = λ i to w. (invited 7, w);
  answer = λ c w. (none, w);
  bye = λ c w. (none, w);
  cancel = λ c w. (none, w);
  reject = λ c code w. (none, w);
  ring = λ c w. (none, w);
  fetch_state = λ w. (none, w);
}

abbrev radio_state : State (List (List ℕ))
radio_state = record { dash = two_phones; world = []; spawned = [] }

recording-IsLogged : IsLogged radio_env recording (λ w. w)
recording-IsLogged = record {
  others = λ d w. refl;
  pass = λ w. refl;
  wake = λ c w. refl;
  send = λ i qfi stream bytes w. refl;
}

-- Two rounds hand over two packets.
media_twice :
    (media radio_env recording 0 7 number 2 radio_state).1.world
    ≡ packet silent ∷ packet (advance silent) ∷ []
unfolding media media_from media_round transmit enter_flow advance pure ◌>>=◌ observe ask update
    locked packet
media_twice = refl

media-numbered_example :
    (ps : List (List ℕ)) × ((media radio_env recording 0 7 number 2 radio_state).1.world ≡ [] ++ ps)
    × (length ps ≤ 2)
    × AreNumbered 0 ps
media-numbered_example =
    media-numbered radio_env recording (λ w. w) recording-IsLogged 0 7 number 2 radio_state

-- The first poll finds an interface without an address.
abbrev polls : ℕ → List Match
polls n =
    record {
      name = "uesimtun0";
      addresses = if nat_eq n 0 then some [] else some ("10.45.0.2" ∷ []);
    }
    ∷ []

wait_for_interface-IsFound_example :
    (m : ℕ) × (found : String) × (m ≤ 1)
    × IsFound polls 0 m found
    × (wait_for_interface polls 2 ≡ some found)
wait_for_interface-IsFound_example =
    wait_for_interface-IsFound polls 1 []
      (record { name = "uesimtun0"; addresses = some ("10.45.0.2" ∷ []) }) [] refl
      ("10.45.0.2", [], refl)
