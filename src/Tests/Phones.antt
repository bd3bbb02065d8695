-- ===== src/Tests/Phones.antt =====
-- The dashboard's state on concrete data.
use telco_helm_charts.Common.{◌++◌, true, [], ◌∷◌, ◌≡◌, ◌↔◌, inl, refl, arith}
use telco_helm_charts.Dashboard.State.{next_id, on_phone, add_message}
use telco_helm_charts.Dashboard.Number.{valid_phone_number, IsInternational, valid_phone_number_iff}
use telco_helm_charts.Dashboard.Messages.{settle}
use telco_helm_charts.Dashboard.Steps
use telco_helm_charts.Dashboard.Steps.{outgoing, System, Reach, here, next}
use telco_helm_charts.Dashboard.Invariant.{IsValid}
use telco_helm_charts.Dashboard.Safety.{Reach-IsValid}
use telco_helm_charts.Dashboard.History.{Still, stored as stored_in}
use telco_helm_charts.Dashboard.History.Sections.{Reach-Still}
use telco_helm_charts.Exec.Runs.{system}
use telco_helm_charts.Tests.Fixtures.{phone, two_phones, message}

abbrev before : System
before = system [] two_phones

-- Phone 1 takes an id and stores a message, whose submission is answered.
abbrev taken : System
taken = system (outgoing ∷ []) (record two_phones { next = 1 })

abbrev stored : System
stored = system (outgoing ∷ []) (record two_phones {
  phones =
      record (phone "1" "+15551110001") { messages = message 1 "submitting" ∷ [] }
      ∷ phone "2" "+15551110002"
      ∷ [];
  next = 1;
})

abbrev answered : System
answered = system (outgoing ∷ []) (record two_phones {
  phones =
      record (phone "1" "+15551110001") { messages = message 1 "accepted by SMSC" ∷ [] }
      ∷ phone "2" "+15551110002"
      ∷ [];
  next = 1;
})

before-Reach : Reach before answered
unfolding on_phone settle next_id add_message
before-Reach =
    next
      (next (next here (Steps.take_id outgoing))
        (Steps.store 0 (message 1 "submitting") (inl (refl, refl, (0, refl, refl)))))
      (Steps.verdict 0 1 "accepted by SMSC" (inl refl) (0, refl, refl))

before-IsValid : IsValid before
before-IsValid = record {
  events = omega arith;
  phones = ((omega arith, tt), ((omega arith, tt), tt));
}

Reach-IsValid_example : IsValid answered
Reach-IsValid_example = Reach-IsValid before-IsValid before-Reach (omega arith)

Reach-Still_example :
    Still answered.dash.phones 0 (phone "1" "+15551110001") ([] ++ stored_in before-Reach 0)
Reach-Still_example = Reach-Still 0 before-Reach (omega arith) refl

valid_phone_number_iff_example :
    (valid_phone_number "+15551110002" ≡ true) ↔ IsInternational "+15551110002"
valid_phone_number_iff_example = valid_phone_number_iff "+15551110002"
