-- ===== src/Setup/Initialize/Identity.antt =====
-- The ids of the phones, and those that the page of the dashboard is served with.
use telco_helm_charts.Common.{ℕ, String, List, [], ◌∷◌, map, ◌≡◌, ◌⊎◌, inl, inr, ◌<>◌}
use telco_helm_charts.Mode.{Environment, phone_ids}
use telco_helm_charts.Setup.Initialize.{phone_id, subscribers}
use telco_helm_charts.Setup.Initialize.Readiness.{lines}

-- A list of texts, as it stands in a script.
abbrev joined : List String → String
joined [] = ""
joined (id ∷ []) = "'" <> id <> "'"
joined (id ∷ rest) = "'" <> id <> "'," <> joined rest

abbrev literal : List String → String
literal ids = "[" <> joined ids <> "]"

abbrev IsChoice : String → Type 0
IsChoice id = (id ≡ "") ⊎ (id ≡ "1") ⊎ (id ≡ "2")

-- The page is served with the ids of the phones that are set up, in their order, if the process is
-- for phone 1, for phone 2 or for both.
phone_ids-lines :
    (getenv : Environment) (number letter : ℕ → String)
    → number 1 ≡ "1"
    → number 2 ≡ "2"
    → IsChoice (getenv "PHONE_ID")
    → phone_ids getenv
      ≡ literal
          (map (λ (p : String × String). p.0) (lines getenv number letter 0 (subscribers getenv)))
unfolding phone_ids subscribers phone_id
phone_ids-lines getenv number letter one two (inl e) = rw (e, one, two, e)
phone_ids-lines getenv number letter one two (inr (inl e)) = rw (e, phone_id, e)
phone_ids-lines getenv number letter one two (inr (inr e)) = rw (e, phone_id, e)
