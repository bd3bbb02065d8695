-- ===== src/Serve.antt =====
-- `ServePhones` of server.go: the conditions under which the server starts, and the page
-- of the dashboard. `strings.Replace` is a parameter.
pub mod Start
pub mod Routes
use telco_helm_charts.Common.{
  ℕ, String, Bool, true, false, not, ◌&&◌, ◌||◌, Option, none, some, List, [], ◌∷◌, ◌++◌,
  if◌then◌else◌, ◌==◌, ◌<>◌,
}
use telco_helm_charts.Mode.{Environment, phone_mode, phone_ids, services_enabled}

-- Why the server does not start, or the address on which it does.
pub data Started : Type 0 where
  refused : String → Started
  listening : (address : String) → Started

abbrev pub lacks_address : Environment → Bool
lacks_address getenv =
    getenv "CORE_N2" == "" || getenv "N3_ADDRESS" == "" || getenv "N2N3_ADDRESS" == ""

unfoldable pub serve_phones : Environment → String → Started
unfolding phone_mode
serve_phones getenv address =
    if lacks_address getenv
    then refused "CORE_N2, N3_ADDRESS and N2N3_ADDRESS are required"
    else if not (phone_mode getenv == "internet") && not (phone_mode getenv == "internet-ims-sms")
    then refused ("invalid UE_MODE: " <> phone_mode getenv)
    else listening (if address == "" then ":8080" else address)

-- The first occurrence of a text is replaced, or each one.
pub data Replacement : Type 0 where
  replace_first : (old new : String) → Replacement
  replace_all : (old new : String) → Replacement

-- The program of main.go: it returns, or it ends with a text. `listen` is `ListenAndServe`, with an
-- error or none.
pub data Exit : Type 0 where
  returned : Exit
  fatal : String → Exit

unfoldable pub main : Environment → (listen : String → Option String) → Exit
unfolding serve_phones
main getenv listen = elim (serve_phones getenv (getenv "HTTP_ADDRESS")) [
  | refused err ↦ fatal err
  | listening address ↦ elim (listen address) [ none ↦ returned | some err ↦ fatal err ]
]

-- One phone in place of two; `quoted` is `fmt.Sprintf` with `%q`.
module _ (getenv : Environment) (quoted : String → String) where
  abbrev pub other : String
  other = if getenv "PHONE_ID" == "2" then "A" else "B"

  unfoldable pub single_phone : List Replacement
  single_phone =
      replace_first "phoneMarkup('1','Phone A','B')+phoneMarkup('2','Phone B','A')" (
        "phoneMarkup("
        <> quoted (getenv "PHONE_ID")
        <> ","
        <> quoted (getenv "PHONE_NAME")
        <> ","
        <> quoted other
        <> ")")
      ∷ replace_all "Register both phones" "Register phone"
      ∷ replace_all "Two subscribers. One private network." "One subscriber. Your private network."
      ∷ replace_first "</style>"
          ".phones{grid-template-columns:minmax(270px,390px);justify-content:center}.sidebar{display:none}.shell{grid-template-columns:1fr}.main{max-width:900px;width:100%;margin:auto}</style>"
      ∷ []

  unfoldable pub internet_only : List Replacement
  internet_only =
      replace_first "<body>" "<body class=\"internet-only\">"
      ∷ replace_all "Your network, in your hands." "Your mobile data connection."
      ∷ replace_all
          "Register your phones, make an IMS call, or send a message.<br>Every action travels through your live Ella Core."
          "Browse and test connectivity through your UE’s internet PDU session."
      ∷ replace_all
          "Lab simulator · Calls use synthetic RTP test packets; browser microphone and speaker audio are not connected. Messages are real NAS SMS through Ella SMSC. Session history resets when this simulator restarts."
          "Internet-only simulator · Website traffic and DNS use this UE’s data session. IMS and SMS are disabled."
      ∷ []

  -- The replacements in the page, in their order.
  unfoldable pub replacements : List Replacement
  unfolding single_phone internet_only phone_ids services_enabled
  replacements =
      replace_all "['1','2']" (phone_ids getenv)
        ∷ (if not (getenv "PHONE_ID" == "") then single_phone else [])
      ++ (if not (services_enabled getenv) then internet_only else [])

module _ (apply : Replacement → String → String) where
  unfoldable pub apply_all : List Replacement → String → String
  apply_all [] page = page
  apply_all (r ∷ rs) page = apply_all rs (apply r page)

  -- GET /: none is the answer that the page is not found.
  unfoldable pub index_page :
      (getenv : Environment) (quoted : String → String) (template path : String) → Option String
  unfolding replacements apply_all
  index_page getenv quoted template path =
      if not (path == "/") then none else some (apply_all (replacements getenv quoted) template)
