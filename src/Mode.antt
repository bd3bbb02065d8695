-- ===== src/Mode.antt =====
-- mode.go and phone_gnb.go: what the process' environment variables select.
-- The environment is a function from names to values, with "" for a variable that is not set.
use telco_helm_charts.Common.{String, Bool, ◌==◌, if◌then◌else◌}

abbrev pub Environment : Type 0
Environment = String → String

unfoldable pub phone_mode : Environment → String
phone_mode getenv = let m = getenv "UE_MODE" in if m == "" then "internet-ims-sms" else m

unfoldable pub services_enabled : Environment → Bool
unfolding phone_mode
services_enabled getenv = phone_mode getenv == "internet-ims-sms"

unfoldable pub phone_ids : Environment → String
phone_ids getenv =
    if getenv "PHONE_ID" == "1"
    then "['1']"
    else if getenv "PHONE_ID" == "2"
    then "['2']"
    else "['1','2']"
