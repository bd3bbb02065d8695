-- ===== src/Dashboard/Steps.antt =====
-- The atomic sections of server.go and phone_gnb.go as a step relation. A section runs under one
-- lock (`d.mu`, `p.mu`) or is one atomic operation, so every interleaving of the goroutines of the
-- dashboard is a sequence of these steps.
use telco_helm_charts.Common.{
  ℕ, ℤ, suc, ◌%◌, ◌^◌, String, Bool, true, Option, some, List, [], ◌∷◌, ◌++◌, ◌≡◌, ◌⊎◌, get_elem?,
  get_elem?-append, length, length-append, ◌∙◌, ◌≤◌, arith,
}
use telco_helm_charts.Dashboard.State.{
  Message, Phone, Dashboard, event, set_problem, add_message, next_id, on_phone, start_call,
}
use telco_helm_charts.Dashboard.Messages.{confirm_sender, settle, track_on, set_error}

-- Why an id was taken from the counter.
pub data Ticket : Type 0 where
  outgoing incoming : Ticket

-- The dashboard, and beside it the tickets of all ids that were taken so far, the oldest first. The
-- program does not keep them; they say what an id was taken for. The counter wraps round.
pub record System : Type 0 where
  pub dash : Dashboard
  pub tickets : List Ticket

abbrev pub HasTicket : System → ℕ → Ticket → Type 0
HasTicket s id t = (j : ℕ) × (get_elem? s.tickets j ≡ some t) × (id ≡ suc j % 2 ^ 64)

-- The messages that the handlers build, each with an id that was taken for it.
abbrev pub IsNew : System → Message → Type 0
IsNew s m =
    ((m.direction ≡ "sent") × (m.status ≡ "submitting") × HasTicket s m.id outgoing)
    ⊎ ((m.direction ≡ "received") × (m.status ≡ "received") × HasTicket s m.id incoming)

-- What a submission can end in.
abbrev pub IsVerdict : String → Type 0
IsVerdict status = (status ≡ "accepted by SMSC") ⊎ (status ≡ "failed")

abbrev pub on_dash : (Dashboard → Dashboard) → System → System
on_dash f s = record s { dash = f s.dash }

abbrev pub packets_on : (tx rx_base : Phone → ℕ) (rx : Phone → ℤ) → Phone → Phone
packets_on tx rx_base rx p = record p { tx = tx p; rx_base = rx_base p; rx = rx p }

pub data Step (s : System) : System → Type 0 where
  log : (now : ℕ) (id text : String) → Step s (on_dash (event now id text) s)
  problem : (err : String) → Step s (on_dash (set_problem err) s)
  attach :
      (p : Phone)
      → p.messages ≡ []
      → Step s (on_dash (λ d. record d { phones = d.phones ++ p ∷ [] }) s)
  start : Step s (on_dash (λ d. record d { ready = true }) s)
  take_id :
      (t : Ticket)
      → Step s (record {
        dash = record s.dash { next = next_id s.dash.next };
        tickets = s.tickets ++ t ∷ [];
      })
  store : (i : ℕ) (m : Message) → IsNew s m → Step s (on_dash (on_phone i (add_message m)) s)
  confirm :
      (i : ℕ) (from text to : String)
      → Step s (on_dash (on_phone i (confirm_sender from text to)) s)
  verdict :
      (i id : ℕ) (status : String)
      → IsVerdict status
      → HasTicket s id outgoing
      → Step s (on_dash (on_phone i (settle id status)) s)
  track : (i id : ℕ) → HasTicket s id outgoing → Step s (on_dash (on_phone i (track_on id)) s)
  call :
      (i c : ℕ) (is_incoming : Bool) (peer : String)
      → Step s (on_dash (on_phone i (start_call c is_incoming peer)) s)
  finish : (i : ℕ) (err : Option String) → Step s (on_dash (on_phone i (set_error err)) s)
  packets :
      (i : ℕ) (tx rx_base : Phone → ℕ) (rx : Phone → ℤ)
      → Step s (on_dash (on_phone i (packets_on tx rx_base rx)) s)

pub data Reach (s : System) : System → Type 0 where
  here : Reach s s
  next : {t u : System} → Reach s t → Step t u → Reach s u

pub Reach-trans : {s t u : System} → Reach s t → Reach t u → Reach s u
Reach-trans r here = r
Reach-trans r (next q st) = next (Reach-trans r q) st

-- The counter tells how many ids were taken.
abbrev pub IsCounted : System → Type 0
IsCounted s = s.dash.next ≡ length s.tickets % 2 ^ 64

pub next_id-eq : (s : System) → IsCounted s → next_id s.dash.next ≡ suc (length s.tickets) % 2 ^ 64
unfolding next_id
next_id-eq s counted = rw counted (omega arith)

pub Step-IsCounted : {s t : System} → Step s t → IsCounted s → IsCounted t
Step-IsCounted {s = s} (take_id t) h =
    next_id-eq s h ∙ omega (arith, length-append s.tickets (t ∷ []))
Step-IsCounted (log now id text) h = unfold event in h
Step-IsCounted (problem err) h = unfold set_problem in h
Step-IsCounted (store i m new) h = unfold on_phone in h
Step-IsCounted (confirm i from text to) h = unfold on_phone in h
Step-IsCounted (verdict i id status w k) h = unfold on_phone in h
Step-IsCounted (track i id k) h = unfold on_phone in h
Step-IsCounted (call i c is_incoming peer) h = unfold on_phone in h
Step-IsCounted (finish i err) h = unfold on_phone in h
Step-IsCounted (packets i tx rx_base rx) h = unfold on_phone in h
Step-IsCounted _ h = h

pub Reach-IsCounted : {s t : System} → Reach s t → IsCounted s → IsCounted t
Reach-IsCounted here h = h
Reach-IsCounted (next r st) h = Step-IsCounted st (Reach-IsCounted r h)

pub Step-le : {s t : System} → Step s t → length s.tickets ≤ length t.tickets
Step-le {s = s} (take_id t) = omega (arith, length-append s.tickets (t ∷ []))
Step-le _ = omega arith

-- A ticket is never taken back.
pub Step-HasTicket :
    {s t : System} (id : ℕ) {k : Ticket} → Step s t → HasTicket s id k → HasTicket t id k
Step-HasTicket {s = s} id (take_id t) (j, h, e) = (j, get_elem?-append s.tickets (t ∷ []) j h, e)
Step-HasTicket id _ h = h

pub Reach-HasTicket :
    {s t : System} (id : ℕ) {k : Ticket} → Reach s t → HasTicket s id k → HasTicket t id k
Reach-HasTicket id here h = h
Reach-HasTicket id (next r st) h = Step-HasTicket id st (Reach-HasTicket id r h)
