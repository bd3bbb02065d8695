-- ===== src/Serve/Start.antt =====
-- When the server of the dashboard starts.
use telco_helm_charts.Common.{String, ◌≡◌, ◌≢◌, ◌⊎◌, ◌↔◌, arith, if◌then◌else◌, ◌==◌, eq_iff}
use telco_helm_charts.Mode.{Environment, phone_mode}
use telco_helm_charts.Serve.{listening, serve_phones}

-- The server listens on an address exactly if the three addresses of the radio are configured, the
-- mode is one of the two, and the address is the one that was asked for, or ":8080" without one.
serve_phones_iff :
    (getenv : Environment) (asked address : String)
    → (serve_phones getenv asked ≡ listening address) ↔ (
        (getenv "CORE_N2" ≢ "")
        × (getenv "N3_ADDRESS" ≢ "")
        × (getenv "N2N3_ADDRESS" ≢ "")
        × ((phone_mode getenv ≡ "internet") ⊎ (phone_mode getenv ≡ "internet-ims-sms"))
        × (address ≡ (if asked == "" then ":8080" else asked)))
unfolding serve_phones
serve_phones_iff getenv asked address = ground (
  arith,
  eq_iff (getenv "CORE_N2") "",
  eq_iff (getenv "N3_ADDRESS") "",
  eq_iff (getenv "N2N3_ADDRESS") "",
  eq_iff (phone_mode getenv) "internet",
  eq_iff (phone_mode getenv) "internet-ims-sms",
)
