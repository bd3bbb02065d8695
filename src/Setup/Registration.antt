-- ===== src/Setup/Registration.antt =====
-- `attachInternetUEs` of mode.go: subscribers are registered one after the other. The tester's gNB is
-- a parameter, and so is `DefaultRANUENGAPID`.
use telco_helm_charts.Common.{
  ℕ, ◌+◌, suc, String, Option, none, some, List, [], ◌∷◌, ◌++◌, map, ◌≡◌, sym, ap, ◌∙◌, arith, ◌<>◌,
  Option-cases, inl, inr,
}
use mathlib.Core.List.{append-nil, append_assoc, map-append}

pub record Subscriber : Type 0 where
  pub imsi : String
  pub msisdn : String

-- An endpoint with the UE that stands in the same place of the second list, as far as the dashboard
-- keeps them: the subscriber, and the UE's number at the gNB.
pub record Endpoint : Type 0 where
  pub subscriber : Subscriber
  pub ran_ue : ℕ

pub data Attached : Type 0 where
  failed : String → Attached
  attached : List Endpoint → Attached

-- An error is its text.
pub record Registrar (World : Type 0) : Type 0 where
  pub new_ue : Subscriber → World → Option String × World
  pub add_ue : ℕ → World → World
  pub register : ℕ → World → Option String × World

module _ {World : Type 0} (gnb : Registrar World) (first_id : ℕ) where
  -- A subscriber: the error, if there is one.
  unfoldable pub register_one : ℕ → Subscriber → World → Option String × World
  register_one i s w =
      let (unmade, w1) = gnb.new_ue s w in
      let id = first_id + i in
      let (unregistered, w3) = gnb.register id (gnb.add_ue id w1) in
      elim unmade [
        | some err ↦ (some err, w1)
        | none ↦ elim unregistered [
          | some err ↦ (some ("internet registration: " <> err), w3)
          | none ↦ (none, w3)
        ]
      ]

  -- The loop over the subscribers from index `i` on, with the endpoints so far.
  unfoldable pub attach_from : ℕ → List Endpoint → List Subscriber → World → Attached × World
  attach_from i done [] w = (attached done, w)
  attach_from i done (s ∷ rest) w =
      let (err, v) = register_one i s w in
      let e : Endpoint = record { subscriber = s; ran_ue = first_id + i } in
      let more = attach_from (suc i) (done ++ e ∷ []) rest v in
      elim err [ some text ↦ (failed text, v) | none ↦ more ]

  unfoldable pub attach_internet_ues : List Subscriber → World → Attached × World
  unfolding attach_from
  attach_internet_ues subscribers w = attach_from 0 [] subscribers w

  -- If all are registered, there is an endpoint for each subscriber, in their order.
  attach_from-subscribers :
      (subscribers : List Subscriber) (i : ℕ) (done es : List Endpoint) (w v : World)
      → attach_from i done subscribers w ≡ (attached es, v)
      → map (λ (e : Endpoint). e.subscriber) es
        ≡ map (λ (e : Endpoint). e.subscriber) done ++ subscribers
  unfolding attach_from
  attach_from-subscribers [] i done es w v h =
      let same : done ≡ es = ground arith in
      ap (map (λ (e : Endpoint). e.subscriber)) (sym same) ∙ sym (append-nil _)
  attach_from-subscribers (s ∷ rest) i done es w v h = elim (Option-cases (register_one i s w).0) [
    | inr (err, e) ↦ ground arith
    | inl e ↦
        let registered : Endpoint = record { subscriber = s; ran_ue = first_id + i } in
        let more : attach_from (suc i) (done ++ registered ∷ []) rest (register_one i s w).1
            ≡ (attached es, v) =
          rw (attach_from, e) at h in
        attach_from-subscribers rest (suc i) (done ++ registered ∷ []) es _ v more
        ∙ ap (λ l. l ++ rest) (map-append _ done (registered ∷ []))
        ∙ append_assoc _ (s ∷ []) rest
  ]

  pub attach_internet_ues-subscribers :
      (subscribers : List Subscriber) (es : List Endpoint) (w v : World)
      → attach_internet_ues subscribers w ≡ (attached es, v)
      → map (λ (e : Endpoint). e.subscriber) es ≡ subscribers
  unfolding attach_internet_ues
  attach_internet_ues-subscribers subscribers es w v h =
      attach_from-subscribers subscribers 0 [] es w v h
