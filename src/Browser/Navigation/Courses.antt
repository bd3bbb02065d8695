-- ===== src/Browser/Navigation/Courses.antt =====
-- The courses of a navigation, and when it succeeds.
use telco_helm_charts.Common.{
  ℕ, String, true, false, not, Option, none, some, List, [], ◌∷◌, ◌++◌, ◌≡◌, ◌⊎◌, inl, inr, refl,
  ap, arith, All, Bool-cases, Option-cases, ◌==◌, ◌≤◌, eq_iff,
}
use telco_helm_charts.Mode.{Environment}
use telco_helm_charts.Action.{same_origin}
use telco_helm_charts.Browse.Client.{Url, Checked, rejected, allowed, public_web_url}
use telco_helm_charts.Browser.Navigation.{
  Request, Command, command_id, commands, Message, Tab, Chromium, list_tabs, dial, Outcome, refuse,
  after, answers, Awaited, answered, stopped, await, Driven, drive_on, drive, sends, conclude,
  visit_tab, visit, checked_visit, navigate,
}

-- The messages answer the commands one after the other: before the answer to a command there are
-- messages with other ids, and no answer has an error.
pub data Drives : List Command → List Message → Type 0 where
  all_done : {input : List Message} → Drives [] input
  one_done :
      {c : Command} {cs : List Command} {input : List Message} (before : List Message) (m : Message)
      (rest : List Message)
      → input ≡ before ++ m ∷ rest
      → All (λ (n : Message). answers n (command_id c) ≡ false) before
      → answers m (command_id c) ≡ true
      → m.error ≡ none
      → Drives cs rest
      → Drives (c ∷ cs) input

-- The answer to a command was found, and it has no error.
pub record IsAnswer (id : ℕ) (input rest : List Message) : Type 0 where
  pub before : List Message
  pub message : Message
  pub order : input ≡ before ++ message ∷ rest
  pub others : All (λ (n : Message). answers n id ≡ false) before
  pub fits : answers message id ≡ true
  pub good : message.error ≡ none

await-IsAnswer :
    (broken : String) (id : ℕ) (input rest : List Message)
    → await broken id input ≡ answered rest
    → IsAnswer id input rest
unfolding await
await-IsAnswer broken id [] rest h = cc
await-IsAnswer broken id (m ∷ ms) rest h = elim (Bool-cases (answers m id)) [
  | inr other ↦
      let r = await-IsAnswer broken id ms rest (rw other at h) in
      record {
        before = m ∷ r.before;
        message = r.message;
        order = ap (λ l. m ∷ l) r.order;
        others = (other, r.others);
        fits = r.fits;
        good = r.good;
      }
  | inl fits ↦ elim (Option-cases m.error) [
    | inr (err, e) ↦ ground arith
    | inl good ↦
        let same : ms ≡ rest = ground arith in
        record {
          before = [];
          message = m;
          order = ap (λ l. m ∷ l) same;
          others = tt;
          fits = fits;
          good = good;
        }
  ]
]

-- The request may be carried out, with `target`.
pub record IsAccepted (parse : String → Option Url) (getenv : Environment)
    (parse_host : String → Option String) (r : Request) (target : Url) : Type 0 where
  pub enabled : getenv "BROWSER_ENABLED" ≡ "true"
  pub same : same_origin parse_host r.origin r.host ≡ true
  pub raw : String
  pub decoded : r.body ≡ some raw
  pub checked : public_web_url parse raw ≡ allowed target

module _ (chromium : Chromium) where
  -- The commands are all sent and answered, or a part of them is sent and there is an error.
  abbrev Ends : List Command → List Message → Driven → Type 0
  Ends cs input d =
      ((d.error ≡ none)
        × (d.sent ≡ cs)
        × All (λ c. chromium.send_error c ≡ none) cs
        × Drives cs input)
      ⊎ ((err : String) × (rest : List Command) × (d.error ≡ some err) × (cs ≡ d.sent ++ rest))

  drive_on-Ends :
      (c : Command) (cs : List Command) (input : List Message) (later : List Message → Driven)
      (e : Option String) (a : Awaited)
      → chromium.send_error c ≡ e
      → await chromium.broken (command_id c) input ≡ a
      → ((rest : List Message) → Ends cs rest (later rest))
      → Ends (c ∷ cs) input (drive_on c later e a)
  drive_on-Ends c cs input later (some err) a f h ends = inr (err, c ∷ cs, refl, refl)
  drive_on-Ends c cs input later none (stopped err) f h ends = inr (err, cs, refl, refl)
  drive_on-Ends c cs input later none (answered rest) f h ends = elim (ends rest) [
    | inl (fine, sent, good, drives) ↦
        let a = await-IsAnswer chromium.broken (command_id c) input rest h in
        inl (
          fine,
          ap (λ l. c ∷ l) sent,
          (f, good),
          one_done a.before a.message rest a.order a.others a.fits a.good drives,
        )
    | inr (err, unsent, failing, part) ↦ inr (err, unsent, failing, ap (λ l. c ∷ l) part)
  ]

  drive-Ends : (cs : List Command) (input : List Message) → Ends cs input (drive chromium cs input)
  unfolding drive
  drive-Ends [] input = inl (refl, refl, tt, all_done)
  drive-Ends (c ∷ cs) input =
      drive_on-Ends c cs input (λ rest. drive chromium cs rest) (chromium.send_error c) _ refl refl
        (λ rest. drive-Ends cs rest)

  -- What a visit of a URL does and answers: there is no tab to visit, it cannot be dialled, the
  -- commands are interrupted, or all of them were sent and answered. A socket that was dialled is
  -- closed.
  pub data Visited (url : String) : Outcome → Type 0 where
    unavailable : (text : String) → Visited url (after list_tabs (refuse 503 text))
    undialled :
        (socket err : String)
        → chromium.dial_error socket ≡ some err
        → Visited url (after list_tabs (after (dial socket) (refuse 502 err)))
    interrupted :
        (socket err : String) (sent rest : List Command)
        → commands url ≡ sent ++ rest
        → Visited url (record {
          effects = list_tabs ∷ dial socket ∷ sends chromium sent;
          status = 502;
          text = err;
        })
    arrived :
        (socket : String)
        → Drives (commands url) chromium.messages
        → Visited url (record {
          effects = list_tabs ∷ dial socket ∷ sends chromium (commands url);
          status = 200;
          text = "{\"ok\":true}";
        })

  conclude-Visited :
      (url socket : String) (d : Driven)
      → Ends (commands url) chromium.messages d
      → Visited url (after list_tabs (after (dial socket) (conclude chromium d)))
  unfolding conclude
  conclude-Visited url socket d (inl (fine, sent, good, drives)) =
      rw (fine, sent) (arrived socket drives)
  conclude-Visited url socket d (inr (err, rest, failing, part)) =
      rw failing (interrupted socket err d.sent rest part)

  visit_tab-Visited :
      (url : String) (tabs : List Tab) → Visited url (after list_tabs (visit_tab chromium url tabs))
  unfolding visit_tab
  visit_tab-Visited url [] = unavailable _
  visit_tab-Visited url (t ∷ ts) = elim (Bool-cases (not (t.kind == "page"))) [
    | inl e ↦ rw e (visit_tab-Visited url ts)
    | inr e ↦ rw e (elim (Option-cases (chromium.dial_error t.socket_url)) [
      | inr (err, f) ↦ rw f (undialled t.socket_url err f)
      | inl f ↦
          rw f (conclude-Visited url t.socket_url _ (drive-Ends (commands url) chromium.messages))
    ])
  ]

  visit-Visited : (url : String) → Visited url (visit chromium url)
  unfolding visit
  visit-Visited url = elim (Option-cases chromium.tabs) [
    | inl e ↦ simp e (unavailable _)
    | inr (tabs, e) ↦ simp e (visit_tab-Visited url tabs)
  ]

  -- It is refused with an error, or it may be carried out and the visit takes one of its courses.
  abbrev Navigated : (Url → String) → (Url → Type 0) → Outcome → Type 0
  Navigated print Accepted o =
      ((status : ℕ) × (text : String) × (400 ≤ status) × (o ≡ refuse status text))
      ⊎ ((target : Url) × Accepted target × Visited (print target) o)

  checked_visit-Navigated :
      (parse : String → Option Url) (print : Url → String) (getenv : Environment)
      (parse_host : String → Option String) (r : Request) (body : Option String)
      → getenv "BROWSER_ENABLED" ≡ "true"
      → same_origin parse_host r.origin r.host ≡ true
      → r.body ≡ body
      → Navigated print
          (IsAccepted parse getenv parse_host r)
          (checked_visit chromium parse print body)
  unfolding checked_visit
  checked_visit-Navigated parse print getenv parse_host r none enabled same e =
      inl (400, "invalid request", omega arith, refl)
  checked_visit-Navigated parse print getenv parse_host r (some raw) enabled same e =
      checked (public_web_url parse raw) refl
    where
      checked :
          (c : Checked)
          → public_web_url parse raw ≡ c
          → Navigated print
              (IsAccepted parse getenv parse_host r)
              (elim c [ rejected err ↦ refuse 400 err | allowed u ↦ visit chromium (print u) ])
      checked (rejected err) f = inl (400, err, omega arith, refl)
      checked (allowed u) f = inr (
        u,
        record { enabled = enabled; same = same; raw = raw; decoded = e; checked = f },
        visit-Visited (print u),
      )

  -- A navigation is refused without an effect, with a status from 400 on; or the browser is enabled,
  -- the origin is the dashboard's, the body has a URL that passes the check, and the visit takes one
  -- of its courses: no tab to visit, a tab that cannot be dialled, the commands interrupted, or all
  -- commands sent and answered one after the other. Only the last one has the status 200, and a
  -- connection that was made is closed on each.
  pub navigate-Visited :
      (parse : String → Option Url) (print : Url → String) (getenv : Environment)
      (parse_host : String → Option String) (r : Request)
      → Navigated print
          (IsAccepted parse getenv parse_host r)
          (navigate chromium parse print getenv parse_host r)
  unfolding navigate
  navigate-Visited parse print getenv parse_host r =
      elim (Bool-cases (getenv "BROWSER_ENABLED" == "true")) [
        | inr e ↦ rw e (inl (409, _, omega arith, refl))
        | inl e ↦ elim (Bool-cases (same_origin parse_host r.origin r.host)) [
          | inr f ↦ rw (e, f) (inl (403, _, omega arith, refl))
          | inl f ↦
              rw (e, f)
                (checked_visit-Navigated parse print getenv parse_host r r.body ((eq_iff _ _).0 e) f
                  refl)
        ]
      ]
