-- ===== src/Socks/Transcript.antt =====
-- Every course that a SOCKS session can take.
use telco_helm_charts.Common.{
  ℕ, Bool, true, false, not, ◌&&◌, Option, none, some, List, [], ◌∷◌, ◌++◌, ◌≡◌, refl, ◌⊎◌, inl,
  inr, Bool-cases, arith, if◌then◌else◌, nat_eq, subst, sym,
}
use telco_helm_charts.Socks.{
  Bytes, Effect, write, dial, log, relay, close, Handler, ◌>>=◌, read_full, no_auth, read_host,
  reply, negotiate, read_request, connect, session, socks, byte, require, stop, continue, pure,
  perform,
}

-- The ports that the proxy serves.
abbrev pub IsWebPort : ℕ → Type 0
IsWebPort port = (port ≡ 80) ⊎ (port ≡ 443)

abbrev agreed : Effect
agreed = write (5 ∷ 0 ∷ [])

-- The six courses of a session.
pub data Transcript (reachable : Bytes → ℕ → Bool) : List Effect → Type 0 where
  no_greeting : Transcript reachable (close ∷ [])
  no_method : Transcript reachable (write (5 ∷ 255 ∷ []) ∷ close ∷ [])
  no_request : Transcript reachable (agreed ∷ close ∷ [])
  wrong_port : Transcript reachable (agreed ∷ write (reply 2) ∷ close ∷ [])
  unreachable :
      (host : Bytes) (port : ℕ)
      → IsWebPort port
      → reachable host port ≡ false
      → Transcript reachable (agreed ∷ dial host port false ∷ write (reply 4) ∷ close ∷ [])
  relayed :
      (host : Bytes) (port : ℕ) (rest : Bytes)
      → IsWebPort port
      → reachable host port ≡ true
      → Transcript reachable
          (agreed ∷ dial host port true ∷ write (reply 0) ∷ log host ∷ relay rest ∷ close ∷ [])

-- A handler that only reads.
pub record IsSilent {A : Type 0} (m : Handler A) : Type 0 where
  pub silent : (input : Bytes) → (m input).0 ≡ []

continue-silent :
    {A B : Type 0} (r : List Effect × Option (A × Bytes)) (f : A → Handler B)
    → r.0 ≡ []
    → ((a : A) → IsSilent (f a))
    → (continue r f).0 ≡ []
continue-silent (es, none) f h hf = h
continue-silent (es, some (a, rest)) f h hf = rw (h, (hf a).silent rest)

bind-IsSilent :
    {A B : Type 0} (m : Handler A) (f : A → Handler B)
    → IsSilent m
    → ((a : A) → IsSilent (f a))
    → IsSilent (m >>= f)
bind-IsSilent m f hm hf = record {
  silent = λ input. continue-silent (m input) f (hm.silent input) hf;
}

read_full-IsSilent : (n : ℕ) → IsSilent (read_full n)
unfolding read_full
read_full-IsSilent n = record { silent = λ input. ground arith }

require-IsSilent : (b : Bool) → IsSilent (require b)
require-IsSilent true = record { silent = λ input. refl }
require-IsSilent false = record { silent = λ input. refl }

pure-IsSilent : {A : Type 0} (a : A) → IsSilent (pure a)
pure-IsSilent a = record { silent = λ input. refl }

stop-IsSilent : {A : Type 0} → IsSilent (stop {A = A})
stop-IsSilent = record { silent = λ input. refl }

if-IsSilent :
    {A : Type 0} (b : Bool) (m n : Handler A)
    → IsSilent m
    → IsSilent n
    → IsSilent (if b then m else n)
if-IsSilent true m n hm hn = hm
if-IsSilent false m n hm hn = hn

ruleset silent_rules =
    (bind-IsSilent, read_full-IsSilent, require-IsSilent, pure-IsSilent, stop-IsSilent, if-IsSilent)

read_host-IsSilent : (kind : ℕ) → IsSilent (read_host kind)
unfolding read_host
read_host-IsSilent kind = search silent_rules

read_request-IsSilent : IsSilent read_request
unfolding read_request
read_request-IsSilent = search (silent_rules, read_host-IsSilent) depth 9

-- What a handler that only reads comes to.
abbrev Comes : {A : Type 0} → List Effect × Option (A × Bytes) → Type 0
Comes {A} r = (r ≡ ([], none)) ⊎ ((a : A) × (rest : Bytes) × (r ≡ ([], some (a, rest))))

silent_result : {A : Type 0} (r : List Effect × Option (A × Bytes)) → r.0 ≡ [] → Comes r
silent_result (es, none) e = inl (rw e)
silent_result (es, some (a, rest)) e = inr (a, rest, rw e)

silent_cases : {A : Type 0} (m : Handler A) (input : Bytes) → IsSilent m → Comes (m input)
silent_cases m input h = silent_result (m input) (h.silent input)

abbrev Negotiated : List Effect × Option (Unit {0} × Bytes) → Type 0
Negotiated r =
    (r ≡ ([], none))
    ⊎ (r ≡ (write (5 ∷ 255 ∷ []) ∷ [], none))
    ⊎ ((rest : Bytes) × (r ≡ (agreed ∷ [], some (tt, rest))))

agree_cases :
    (methods input : Bytes)
    → Negotiated (
        (if no_auth methods then perform agreed else perform (write (5 ∷ 255 ∷ [])) >>= λ _. stop)
          input)
agree_cases methods input = elim (Bool-cases (no_auth methods)) [
  | inl e ↦ rw e (inr (inr (input, refl)))
  | inr e ↦ rw e (inr (inl refl))
]

negotiate_cases : (input : Bytes) → Negotiated (negotiate input)
unfolding negotiate
negotiate_cases input = elim (silent_cases (read_full 2) input (read_full-IsSilent 2)) [
  | inl e ↦ rw e (inl refl)
  | inr (greeting, rest, e) ↦ rw e (elim (Bool-cases (nat_eq (byte 0 greeting) 5)) [
    | inr f ↦ rw f (inl refl)
    | inl f ↦ rw f (elim (silent_cases (read_full (byte 1 greeting)) rest (read_full-IsSilent _)) [
      | inl g ↦ rw g (inl refl)
      | inr (methods, left, g) ↦ rw g (agree_cases methods left)
    ])
  ])
]

-- What comes after the method was agreed.
abbrev Connected : (reachable : Bytes → ℕ → Bool) → List Effect → Type 0
Connected reachable es = Transcript reachable (agreed ∷ es ++ close ∷ [])

connect-Connected :
    (reachable : Bytes → ℕ → Bool) (host : Bytes) (port : ℕ) (input : Bytes)
    → Connected reachable (connect reachable host port input).0
unfolding connect
connect-Connected reachable host port input =
    elim (Bool-cases (not (nat_eq port 80) && not (nat_eq port 443))) [
      | inl e ↦ rw e wrong_port
      | inr e ↦ rw e (elim (Bool-cases (reachable host port)) [
        | inl f ↦ rw f (relayed host port input (ground arith) f)
        | inr f ↦ rw f (unreachable host port (ground arith) f)
      ])
    ]

request-Connected :
    (reachable : Bytes → ℕ → Bool) (input : Bytes)
    → Connected reachable
        ((read_request >>= λ request. connect reachable request.0 request.1) input).0
request-Connected reachable input =
    let connected = λ (r : List Effect × Option ((Bytes × ℕ) × Bytes)).
      Connected reachable (continue r (λ request. connect reachable request.0 request.1)).0 in
    elim (silent_cases read_request input read_request-IsSilent) [
      | inl e ↦ subst connected (sym e) no_request
      | inr (request, rest, e) ↦
          subst connected (sym e) (connect-Connected reachable request.0 request.1 rest)
    ]

-- Whatever a client sends, the session takes one of six courses. The proxy dials only after it
-- agreed on "no authentication", once at most and only to port 80 or 443; it answers success,
-- logs the event and relays exactly if that dial succeeds; it always closes the connection.
pub socks-Transcript :
    (reachable : Bytes → ℕ → Bool) (input : Bytes) → Transcript reachable (socks reachable input)
unfolding socks session
socks-Transcript reachable input = elim (negotiate_cases input) [
  | inl e ↦ rw e no_greeting
  | inr (inl e) ↦ rw e no_method
  | inr (inr (rest, e)) ↦ rw e (request-Connected reachable rest)
]
