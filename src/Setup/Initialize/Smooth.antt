-- ===== src/Setup/Initialize/Smooth.antt =====
-- What the set-up asks of the tester's library, of the kernel and of the firewall, and that its own
-- parts then end without an error: `startPhoneGNB`, `attachInternetUEs`, `attachInternet` and
-- `startBrowserProxy`.
use telco_helm_charts.Common.{
  ℕ, ◌+◌, suc, String, none, List, [], ◌∷◌, ◌++◌, ◌≡◌, ◌≢◌, inl, inr, refl, length, Bool-cases,
  ◌==◌, ◌<>◌,
}
use telco_helm_charts.Mode.{Environment, services_enabled}
use telco_helm_charts.Setup.Tunnel
use telco_helm_charts.Setup.Tunnel.{
  Rule, Call, delete_rule, opened, index, Network, Attempt, attach_internet,
}
use telco_helm_charts.Setup.Tunnel.Policy.{IsUp, attach_internet-attached_iff}
use telco_helm_charts.Setup.Registration.{
  Subscriber, Endpoint, attached, register_one, attach_from, attach_internet_ues,
}
use telco_helm_charts.Browser.Egress.Rules.{Protects, start_browser_proxy-opens_iff}
use telco_helm_charts.Setup.Initialize.{
  Radio, Setup, radio_of, start_phone_gnb, attach_ues, bring_up, protect_browser, subscribers,
}

module _ (getenv : Environment) (number letter : ℕ → String) {World : Type 0}
    (setup : Setup World) where
  -- The calls of the libraries and of the kernel have no error, but for those that remove rules, and
  -- the commands of the firewall keep the browser on loopback; the browser is for one phone.
  pub record IsSmooth : Type 0 where
    pub starts_node :
        (id name : String) (r : Radio) (w : World) → (setup.start_node id name r w).0 ≡ none
    pub starts_default : (r : Radio) (w : World) → (setup.start_default r w).0 ≡ none
    pub waits : (w : World) → (setup.wait_setup w).0 ≡ none
    pub attaches :
        (subs : List Subscriber) (w : World)
        → (es : List Endpoint) × ((setup.attach_ims subs w).0 ≡ attached es)
    pub makes : (s : Subscriber) (w : World) → (setup.registrar.new_ue s w).0 ≡ none
    pub registers : (id : ℕ) (w : World) → (setup.registrar.register id w).0 ≡ none
    pub ims : (s : Subscriber) (w : World) → (setup.dashboard_ims s w).0 ≡ none
    pub opens :
        (i : ℕ) (w : World) → (address : String) × ((setup.network w i).session ≡ opened address)
    pub finds : (i : ℕ) (w : World) → (l : ℕ) × ((setup.network w i).found ≡ index l)
    pub calls :
        (i : ℕ) (w : World) (c : Call)
        → ((r : Rule) → c ≢ delete_rule r)
        → (setup.network w i).failure c ≡ none
    pub single : getenv "BROWSER_ENABLED" ≡ "true" → length (subscribers getenv) ≡ 1
    pub protects :
        getenv "BROWSER_ENABLED" ≡ "true"
        → (w : World)
        → Protects (setup.failure w) "iptables"
          × Protects (setup.failure w) "ip6tables"
          × (setup.listen_error w ≡ none)

  module _ (smooth : IsSmooth) where
    pub start_phone_gnb-none : (w : World) → (start_phone_gnb getenv number letter setup w).0 ≡ none
    unfolding start_phone_gnb
    start_phone_gnb-none w =
        let name = "Ella-Phone-" <> getenv "PHONE_ID" in
        let node = setup.start_node (getenv "GNB_ID") name (radio_of getenv) w in
        elim (Bool-cases (getenv "GNB_ID" == "")) [
          | inl e ↦ rw e (smooth.starts_default (radio_of getenv) w)
          | inr e ↦
              rw
                (
                  e,
                  smooth.starts_node (getenv "GNB_ID") name (radio_of getenv) w,
                  smooth.waits node.1,
                )
                refl
        ]

    register_one-none :
        (i : ℕ) (s : Subscriber) (w : World)
        → (register_one setup.registrar setup.first_id i s w).0 ≡ none
    unfolding register_one
    register_one-none i s w =
        let id = setup.first_id + i in
        rw
          (
            register_one,
            smooth.makes s w,
            smooth.registers id (setup.registrar.add_ue id (setup.registrar.new_ue s w).1),
          )
          refl

    attach_from-attached :
        (subs : List Subscriber) (i : ℕ) (done : List Endpoint) (w : World)
        → (es : List Endpoint) × ((attach_from setup.registrar setup.first_id i done subs w).0
            ≡ attached es)
    unfolding attach_from
    attach_from-attached [] i done w = (done, refl)
    attach_from-attached (s ∷ rest) i done w =
        let e : Endpoint = record { subscriber = s; ran_ue = setup.first_id + i } in
        let after = (register_one setup.registrar setup.first_id i s w).1 in
        rw (attach_from, register_one-none i s w)
          (attach_from-attached rest (suc i) (done ++ e ∷ []) after)

    pub attach_ues-attached :
        (w : World)
        → (es : List Endpoint) × ((attach_ues getenv number letter setup w).0 ≡ attached es)
    unfolding attach_ues attach_internet_ues
    attach_ues-attached w = elim (Bool-cases (services_enabled getenv)) [
      | inl e ↦ rw e (smooth.attaches (subscribers getenv) w)
      | inr e ↦ rw e (attach_from-attached (subscribers getenv) 0 [] w)
    ]

    network-IsUp : (i : ℕ) (w : World) → IsUp number (setup.network w i) i (smooth.opens i w).0
    network-IsUp i w = record {
      session = (smooth.opens i w).1;
      stale = inr (smooth.calls i w _ (λ r e. cc));
      tunnel = smooth.calls i w _ (λ r e. cc);
      link_index = (smooth.finds i w).0;
      found = (smooth.finds i w).1;
      routed = smooth.calls i w _ (λ r e. cc);
      ruled = smooth.calls i w _ (λ r e. cc);
      closed = smooth.calls i w _ (λ r e. cc);
      fallen = smooth.calls i w _ (λ r e. cc);
    }

    pub bring_up-attached :
        (i : ℕ) (w : World)
        → (address : String) × ((bring_up getenv number letter setup i w).0
            ≡ Tunnel.attached address)
    unfolding bring_up
    bring_up-attached i w =
        let address = (smooth.opens i w).0 in
        let attempt = attach_internet-attached_iff number (setup.network w i) i address in
        (address, attempt.0.1 (network-IsUp i w))

    pub protect_browser-none :
        getenv "BROWSER_ENABLED" ≡ "true"
        → (w : World) → (protect_browser getenv number letter setup 1 w).0 ≡ none
    unfolding protect_browser
    protect_browser-none enabled w =
        let (four, six, listens) = smooth.protects enabled w in
        (start_browser_proxy-opens_iff (setup.failure w) 1 (setup.listen_error w)).1.1
          ((refl, four, six), listens)
