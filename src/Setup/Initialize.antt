-- ===== src/Setup/Initialize.antt =====
-- `initialize` of server.go, which attaches the phones when the process starts, and
-- `startPhoneGNB` of phone_gnb.go. The tester's gNB and UEs are a parameter.
pub mod Interleaving
pub mod Readiness
pub mod Smooth
pub mod Success
pub mod Identity
use telco_helm_charts.Common.{
  ℕ, pos, ◌+◌, suc, String, Bool, true, false, Option, none, some, List, [], ◌∷◌, ◌++◌, length,
  take, drop, if◌then◌else◌, ◌==◌, ◌<>◌,
}
use telco_helm_charts.Mode.{Environment, services_enabled}
use telco_helm_charts.Dashboard.State.{Phone, Dashboard, event, set_problem}
use telco_helm_charts.Exec.{
  Task, receive_messages, receive_calls, Env, Exec, pure, ◌>>=◌, ◌>>◌, ask, spawn, locked, update,
}
use telco_helm_charts.Browse.Outline.Words.{split_from}
use telco_helm_charts.Browser.Egress.{Result, start_browser_proxy}
use telco_helm_charts.Browser.Egress
use telco_helm_charts.Setup.Tunnel
use telco_helm_charts.Setup.Tunnel.{Network, Attempt, Ending, attach_internet}
use telco_helm_charts.Setup.Registration.{
  Subscriber, Endpoint, Attached, failed, attached, Registrar, attach_internet_ues,
}

-- The radio that is asked for: the addresses of the core, and of the gNB.
pub record Radio : Type 0 where
  pub core_addresses : List String
  pub n2_address : String
  pub n3_address : String

-- What the code asks of the tester's libraries and of the kernel. An error is its text.
pub record Setup (World : Type 0) : Type 0 where
  pub start_default : Radio → World → Option String × World
  pub start_node : (gnb_id name : String) → Radio → World → Option String × World
  pub wait_setup : World → Option String × World
  pub close_gnb : World → World
  pub registrar : Registrar World
  pub first_id : ℕ
  pub attach_ims : List Subscriber → World → Attached × World
  pub dashboard_ims : Subscriber → World → Option String × World
  pub watch : ℕ → World → World
  -- The kernel as the attachment of a phone finds it, and after the calls.
  pub network : World → ℕ → Network
  pub called : List Tunnel.Call → World → World
  -- The firewall and the listener, likewise.
  pub failure : World → (firewall : String) → List String → Option String
  pub listen_error : World → Option String
  pub commanded : List Egress.Effect → World → World

unfoldable pub radio_of : Environment → Radio
radio_of getenv = record {
  core_addresses = split_from 44 "" (getenv "CORE_N2");
  n2_address = getenv "N2N3_ADDRESS";
  n3_address = getenv "N3_ADDRESS";
}

-- The two subscribers, or the one that the process is for.
abbrev pub both : List Subscriber
both =
    record { imsi = "001018400000003"; msisdn = "+15558400003" }
    ∷ record { imsi = "001018400000004"; msisdn = "+15558400004" }
    ∷ []

unfoldable pub subscribers : Environment → List Subscriber
subscribers getenv =
    if getenv "PHONE_ID" == "1"
    then take 1 both
    else if getenv "PHONE_ID" == "2"
    then drop 1 both
    else both

-- `fmt.Sprint(i+1)` and `fmt.Sprintf("Phone %c", 'A'+i)`, unless they are configured.
module _ (getenv : Environment) (number letter : ℕ → String) where
  unfoldable pub phone_id : ℕ → String
  phone_id i = if getenv "PHONE_ID" == "" then number (i + 1) else getenv "PHONE_ID"

  unfoldable pub phone_name : ℕ → String
  phone_name i = if getenv "PHONE_ID" == "" then "Phone " <> letter i else getenv "PHONE_NAME"

  unfoldable pub new_phone : ℕ → Subscriber → (address : String) → Phone
  unfolding phone_id phone_name
  new_phone i s address = record {
    id = phone_id i;
    name = phone_name i;
    imsi = s.imsi;
    msisdn = s.msisdn;
    call = none;
    peer = "";
    incoming = false;
    messages = [];
    tx = 0;
    rx_base = 0;
    rx = pos 0;
    error_text = "";
    internet_ip = address;
  }

  module _ {World : Type 0} (setup : Setup World) where
    unfoldable pub start_phone_gnb : World → Option String × World
    unfolding radio_of
    start_phone_gnb w =
        let (unstarted, w1) =
          setup.start_node (getenv "GNB_ID") ("Ella-Phone-" <> getenv "PHONE_ID") (radio_of getenv)
            w in
        let (unready, w2) = setup.wait_setup w1 in
        if getenv "GNB_ID" == "" then setup.start_default (radio_of getenv) w else elim unstarted [
          | some err ↦ (some err, w1)
          | none ↦ elim unready [
            | some err ↦ (some ("NG setup: " <> err), setup.close_gnb w2)
            | none ↦ (none, w2)
          ]
        ]

    unfoldable pub attach_ues : World → Attached × World
    unfolding services_enabled subscribers attach_internet_ues
    attach_ues w =
        if services_enabled getenv
        then setup.attach_ims (subscribers getenv) w
        else attach_internet_ues setup.registrar setup.first_id (subscribers getenv) w

    unfoldable pub bring_up : ℕ → World → Ending × World
    unfolding attach_internet
    bring_up i w =
        let a = attach_internet number (setup.network w i) i in (a.ending, setup.called a.calls w)

    unfoldable pub protect_browser : (phones : ℕ) → World → Option String × World
    unfolding start_browser_proxy
    protect_browser phones w =
        let r = start_browser_proxy (setup.failure w) phones (setup.listen_error w) in
        (r.error, setup.commanded r.effects w)

    module _ (env : Env World) where
      -- `fail`: two sections.
      unfoldable pub report : String → Exec World (Unit {0})
      report err = do
        update env (λ w. set_problem err)
        update env (λ w. event (env.now w) "network" err)

      unfoldable pub announce : String → String → Exec World (Unit {0})
      announce id text = update env (λ w. event (env.now w) id text)

      unfoldable pub greet : ℕ → Exec World (Unit {0})
      unfolding announce
      greet i =
          if services_enabled getenv
          then (do
            announce (phone_id i) "5G attached; internet and IMS PDU sessions established"
            spawn (receive_messages i)
            spawn (receive_calls i))
          else announce (phone_id i) "5G attached; internet-only PDU session established"

      unfoldable pub add_phone : Phone → Dashboard → Dashboard
      add_phone p d = record d { phones = d.phones ++ p ∷ [] }

      unfoldable pub get_ready : Dashboard → Dashboard
      get_ready d = record d { ready = true }

      -- The end, when nothing has failed.
      unfoldable pub be_ready : Exec World (Unit {0})
      unfolding announce get_ready
      be_ready = do
        update env (λ w. get_ready)
        announce "network" (
            if services_enabled getenv
            then "UE ready. Register IMS to make calls; NAS SMS is available immediately."
            else "Internet-only UE ready; IMS and SMS disabled.")

      abbrev pub or_report : Option String → Exec World (Unit {0}) → Exec World (Unit {0})
      or_report none later = later
      or_report (some err) later = report err

      -- The phones are attached. The code counts them without the lock; only this goroutine adds any.
      unfoldable pub finish : Exec World (Unit {0})
      unfolding be_ready protect_browser report
      finish =
          if getenv "BROWSER_ENABLED" == "true"
          then (do
            phones ← locked env (λ w d. (length d.phones, d))
            err ← ask (protect_browser phones)
            or_report err be_ready)
          else be_ready

      -- A phone whose internet session is up, or not.
      abbrev pub join : ℕ → Subscriber → Exec World (Unit {0}) → Ending → Exec World (Unit {0})
      join i s later (Tunnel.failed err) =
          report ("internet session for " <> phone_name i <> ": " <> err)
      join i s later (Tunnel.attached address) = do
        _ ← ask (λ w. (tt, setup.watch i w))
        update env (λ w. add_phone (new_phone i s address))
        greet i
        later

      abbrev pub ims_of : Subscriber → World → Option String × World
      ims_of s w = if services_enabled getenv then setup.dashboard_ims s w else (none, w)

      -- The loop over the endpoints from index `i` on, and what follows.
      unfoldable pub add_phones : ℕ → List Endpoint → Exec World (Unit {0})
      unfolding finish greet add_phone new_phone bring_up report
      add_phones i [] = finish
      add_phones i (e ∷ rest) =
          let later = add_phones (suc i) rest in
          do
            err ← ask (ims_of e.subscriber)
            or_report err (do ending ← ask (bring_up i); join i e.subscriber later ending)

      abbrev pub with_ues : Attached → Exec World (Unit {0})
      with_ues (failed err) = do _ ← ask (λ w. (tt, setup.close_gnb w)); report err
      with_ues (attached endpoints) = add_phones 0 endpoints

      unfoldable pub initialize : Exec World (Unit {0})
      unfolding start_phone_gnb attach_ues add_phones report
      initialize = do err ← ask start_phone_gnb; or_report err (do a ← ask attach_ues; with_ues a)
