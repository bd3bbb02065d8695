-- ===== src/Dashboard/History/Sections.antt =====
-- The history of the phones under each section of the goroutines, and under any interleaving.
use telco_helm_charts.Common.{
  true, false, sym, length, ◌≤◌, ◌∙◌, length-keep_last, if◌then◌else◌, ℕ, zero, suc, String, Option,
  none, some, List, [], ◌∷◌, ◌++◌, map, ◌≡◌, refl, get_elem?, modify, Bool-cases, inl, inr, arith,
  get_elem?-append, some-injective, eq_iff, nat_eq, ◌==◌, subst,
}
use telco_helm_charts.Dashboard.State.{
  Message, Phone, event, set_problem, add_message, on_phone, start_call,
}
use telco_helm_charts.Dashboard.Messages.{
  is_awaiting, mark_delivered, confirm_sender, settle_message, settle, mark_tracked, track_on,
  set_error,
}
use telco_helm_charts.Dashboard.Steps.{
  System, Step, log, problem, start, take_id, attach, store, confirm, verdict, track, call, finish,
  packets, Reach, here, next,
}
use telco_helm_charts.Dashboard.History.{
  Becomes, Turns, Follows, Still, added, stored, Becomes-refl, Becomes-delivered, Turns-refl,
  Turns-then, length-Turns, Follows-turned, Follows-refl,
}

mark_delivered-Turns : (to text : String) (ms : List Message) → Turns ms (mark_delivered to text ms)
unfolding mark_delivered
mark_delivered-Turns to text [] = tt
mark_delivered-Turns to text (m ∷ ms) = elim (Bool-cases (is_awaiting to text m)) [
  | inl e ↦ rw e (Becomes-delivered m, Turns-refl ms)
  | inr e ↦ rw e (Becomes-refl m, mark_delivered-Turns to text ms)
]

mark_tracked-Turns : (id : ℕ) (ms : List Message) → Turns ms (mark_tracked id ms)
unfolding mark_tracked
mark_tracked-Turns id [] = tt
mark_tracked-Turns id (m ∷ ms) = elim (Bool-cases (nat_eq m.id id)) [
  | inl e ↦ rw e (Becomes-delivered m, Turns-refl ms)
  | inr e ↦ rw e (Becomes-refl m, mark_tracked-Turns id ms)
]

settle_message-Becomes :
    (id : ℕ) (status : String) (m : Message) → Becomes m (settle_message id status m)
unfolding settle_message
settle_message-Becomes id status m = ground (arith, eq_iff m.status "delivered to UE")

settle-Turns :
    (id : ℕ) (status : String) (ms : List Message) → Turns ms (map (settle_message id status) ms)
settle-Turns id status [] = tt
settle-Turns id status (m ∷ ms) = (settle_message-Becomes id status m, settle-Turns id status ms)

-- A phone that a section changes but stores nothing at.
abbrev IsTurned : Phone → Phone → Type 0
IsTurned p q = length p.messages ≤ 100 → Follows (p.messages ++ []) p q

add_message-Follows : (m : Message) (p : Phone) → Follows (p.messages ++ m ∷ []) p (add_message m p)
unfolding add_message
add_message-Follows m p = record {
  id = refl;
  name = refl;
  imsi = refl;
  msisdn = refl;
  messages = Turns-refl _;
}

settle-IsTurned : (id : ℕ) (status : String) (p : Phone) → IsTurned p (settle id status p)
unfolding settle
settle-IsTurned id status p few =
    Follows-turned p _ few refl refl refl refl (settle-Turns id status p.messages)

track_on-IsTurned : (id : ℕ) (p : Phone) → IsTurned p (track_on id p)
track_on-IsTurned id p few =
    Follows-turned p _ few refl refl refl refl (mark_tracked-Turns id p.messages)

confirm_sender-IsTurned :
    (from text to : String) (p : Phone) → IsTurned p (confirm_sender from text to p)
unfolding confirm_sender
confirm_sender-IsTurned from text to p few = elim (Bool-cases (p.msisdn == from)) [
  | inl e ↦
      rw e (Follows-turned p _ few refl refl refl refl (mark_delivered-Turns to text p.messages))
  | inr e ↦ rw e (Follows-refl p few)
]

set_error-IsTurned : (err : Option String) (p : Phone) → IsTurned p (set_error err p)
unfolding set_error
set_error-IsTurned none p few = Follows-turned p _ few refl refl refl refl (Turns-refl p.messages)
set_error-IsTurned (some e) p few =
    Follows-turned p _ few refl refl refl refl (Turns-refl p.messages)

-- A section on the phone at index `j`, as the phone at index `i` sees it.
Still-modify :
    (ps : List Phone) (i j : ℕ) (f : Phone → Phone) (p : Phone) (ms : List Message)
    → (nat_eq j i ≡ true → Follows ms p (f p))
    → (nat_eq j i ≡ false → Follows ms p p)
    → get_elem? ps i ≡ some p
    → Still (modify ps j f) i p ms
Still-modify [] i j f p ms mine other h = ground arith
Still-modify (q ∷ ps) zero zero f p ms mine other h = record {
  phone = f q;
  there = refl;
  follows = subst (λ x. Follows ms p (f x)) (sym (some-injective _ _ h)) (mine refl);
}
Still-modify (q ∷ ps) zero (suc j) f p ms mine other h = record {
  phone = p;
  there = h;
  follows = other (ground arith);
}
Still-modify (q ∷ ps) (suc i) zero f p ms mine other h = record {
  phone = p;
  there = h;
  follows = other (ground arith);
}
Still-modify (q ∷ ps) (suc i) (suc j) f p ms mine other h =
    let r =
      Still-modify ps i j f p ms (λ e. mine (ground (arith, e))) (λ e. other (ground (arith, e)))
        h in
    record { phone = r.phone; there = r.there; follows = r.follows }

module _ (ps : List Phone) (i : ℕ) (p : Phone) (few : length p.messages ≤ 100)
    (h : get_elem? ps i ≡ some p) where
  Still-turned :
      (j : ℕ) (f : Phone → Phone)
      → ((q : Phone) → IsTurned q (f q))
      → Still (modify ps j f) i p (p.messages ++ [])
  Still-turned j f keep = Still-modify ps i j f p _ (λ e. keep p few) (λ e. Follows-refl p few) h

  Still-stored :
      (j : ℕ) (m : Message)
      → Still (modify ps j (add_message m)) i p (p.messages ++ (if nat_eq j i then m ∷ [] else []))
  Still-stored j m =
      Still-modify ps i j (add_message m) p _ (λ e. rw e (add_message-Follows m p))
        (λ e. rw e (Follows-refl p few)) h

  Still-same : (qs : List Phone) → Still (ps ++ qs) i p (p.messages ++ [])
  Still-same qs = record {
    phone = p;
    there = get_elem?-append ps qs i h;
    follows = Follows-refl p few;
  }

  Still-unchanged : Still ps i p (p.messages ++ [])
  Still-unchanged = record { phone = p; there = h; follows = Follows-refl p few }

same_messages :
    (p q : Phone)
    → p.id ≡ q.id
    → p.name ≡ q.name
    → p.imsi ≡ q.imsi
    → p.msisdn ≡ q.msisdn
    → p.messages ≡ q.messages
    → IsTurned p q
same_messages p q a b c d e few =
    Follows-turned p q few a b c d (subst (Turns p.messages) e (Turns-refl p.messages))

Step-Still :
    {s t : System} (i : ℕ) {p : Phone} (st : Step s t)
    → length p.messages ≤ 100
    → get_elem? s.dash.phones i ≡ some p
    → Still t.dash.phones i p (p.messages ++ added st i)
unfolding event set_problem on_phone start_call
Step-Still {s} i {p} (attach q empty) few h = Still-same s.dash.phones i p few h (q ∷ [])
Step-Still {s} i {p} (store j m new) few h = Still-stored s.dash.phones i p few h j m
Step-Still {s} i {p} (confirm j from text to) few h =
    Still-turned s.dash.phones i p few h j _ (confirm_sender-IsTurned from text to)
Step-Still {s} i {p} (verdict j id status w k) few h =
    Still-turned s.dash.phones i p few h j _ (settle-IsTurned id status)
Step-Still {s} i {p} (track j id k) few h =
    Still-turned s.dash.phones i p few h j _ (track_on-IsTurned id)
Step-Still {s} i {p} (call j c is_incoming peer) few h =
    Still-turned s.dash.phones i p few h j _ (λ q. same_messages q _ refl refl refl refl refl)
Step-Still {s} i {p} (finish j err) few h =
    Still-turned s.dash.phones i p few h j _ (set_error-IsTurned err)
Step-Still {s} i {p} (packets j tx rx_base rx) few h =
    Still-turned s.dash.phones i p few h j _ (λ q. same_messages q _ refl refl refl refl refl)
Step-Still {s} i {p} (log now id text) few h = Still-unchanged s.dash.phones i p few h
Step-Still {s} i {p} (problem err) few h = Still-unchanged s.dash.phones i p few h
Step-Still {s} i {p} start few h = Still-unchanged s.dash.phones i p few h
Step-Still {s} i {p} (take_id k) few h = Still-unchanged s.dash.phones i p few h

-- Under any interleaving a phone with at most 100 messages stays at its index with its id, its name
-- and its numbers; its messages are exactly the last 100 of those that it had, followed by those that
-- were stored at it, in the order in which they were stored, and each of them is as it was but for
-- its status, which does not change any more once it is "delivered to UE".
pub Reach-Still :
    {s t : System} (i : ℕ) {p : Phone} (r : Reach s t)
    → length p.messages ≤ 100
    → get_elem? s.dash.phones i ≡ some p
    → Still t.dash.phones i p (p.messages ++ stored r i)
Reach-Still {s} i {p} here few h = Still-unchanged s.dash.phones i p few h
Reach-Still i {p} (next r st) few h =
    let before = Reach-Still i r few h in
    let f = before.follows in
    let kept : length before.phone.messages ≤ 100 =
      omega (arith, length-Turns _ _ f.messages, length-keep_last 100 (p.messages ++ stored r i)) in
    let after = Step-Still i st kept before.there in
    let g = after.follows in
    record {
      phone = after.phone;
      there = after.there;
      follows = record {
        id = f.id ∙ g.id;
        name = f.name ∙ g.name;
        imsi = f.imsi ∙ g.imsi;
        msisdn = f.msisdn ∙ g.msisdn;
        messages =
            Turns-then 100 p.messages (stored r i) before.phone.messages (added st i) _ f.messages
              g.messages;
      };
    }
