-- ===== src/Dashboard/History.antt =====
-- What the goroutines of the dashboard never take back: phones stay where they are and who they
-- are, messages stay in order until the oldest are dropped, and a delivered message stays delivered.
use telco_helm_charts.Common.{
  ap, false, length-append, drop-append, ℕ, zero, suc, ◌+◌, ◌-◌, ◌≤◌, String, Bool, true, Option,
  none, some, List, [], ◌∷◌, ◌++◌, map, ◌≡◌, refl, sym, ◌≢◌, ◌⊎◌, ◌∙◌, length, length-drop, subst,
  get_elem?, modify, drop, keep_last, Bool-cases, inl, inr, arith, eq_iff, nat_eq, nat_eq_iff,
  get_elem?-modify_self, ltb, if◌then◌else◌,
}
pub mod Sections
use mathlib.Core.List.{append-nil, append_assoc}
use native.Mathlib.Nat.{zero-add, suc-add}
use telco_helm_charts.Dashboard.State.{
  Message, Phone, Dashboard, event, set_problem, add_message, on_phone, start_call,
}
use telco_helm_charts.Dashboard.Messages.{
  is_awaiting, mark_delivered, confirm_sender, settle_message, settle, mark_tracked, track_on,
  set_error,
}
use telco_helm_charts.Dashboard.Steps.{
  System, Step, log, problem, attach, start, take_id, store, confirm, verdict, track, call, finish,
  packets, Reach, here, next,
}

-- A stored message changes in its status alone, and never from "delivered to UE".
pub record Becomes (m n : Message) : Type 0 where
  pub id : m.id ≡ n.id
  pub direction : m.direction ≡ n.direction
  pub peer : m.peer ≡ n.peer
  pub text : m.text ≡ n.text
  pub at : m.at ≡ n.at
  pub status : (m.status ≡ n.status) ⊎ (m.status ≢ "delivered to UE")

-- Two lists of the same length: each message became the one in its place.
abbrev pub Turns : List Message → List Message → Type 0
Turns [] [] = Unit
Turns [] (n ∷ ns) = ⊥
Turns (m ∷ ms) [] = ⊥
Turns (m ∷ ms) (n ∷ ns) = Becomes m n × Turns ms ns

-- What a phone keeps, and its messages: the last 100 of `ms`, which only changed as messages may.
pub record Follows (ms : List Message) (p q : Phone) : Type 0 where
  pub id : p.id ≡ q.id
  pub name : p.name ≡ q.name
  pub imsi : p.imsi ≡ q.imsi
  pub msisdn : p.msisdn ≡ q.msisdn
  pub messages : Turns (keep_last 100 ms) q.messages

-- The messages that a section stores at the phone at index `i`, and those of a whole history in the
-- order in which they are stored.
abbrev pub added : {s t : System} → Step s t → ℕ → List Message
added (store j m new) i = if nat_eq j i then m ∷ [] else []
added _ i = []

abbrev pub stored : {s t : System} → Reach s t → ℕ → List Message
stored here i = []
stored (next r st) i = stored r i ++ added st i

pub Becomes-refl : (m : Message) → Becomes m m
Becomes-refl m = record {
  id = refl;
  direction = refl;
  peer = refl;
  text = refl;
  at = refl;
  status = inl refl;
}

status_trans :
    {l m n : String}
    → (l ≡ m) ⊎ (l ≢ "delivered to UE")
    → (m ≡ n) ⊎ (m ≢ "delivered to UE")
    → (l ≡ n) ⊎ (l ≢ "delivered to UE")
status_trans (inl p) (inl q) = inl (p ∙ q)
status_trans (inl p) (inr q) = inr (λ h. q (sym p ∙ h))
status_trans (inr p) q = inr p

Becomes-trans : {l m n : Message} → Becomes l m → Becomes m n → Becomes l n
Becomes-trans a b = record {
  id = a.id ∙ b.id;
  direction = a.direction ∙ b.direction;
  peer = a.peer ∙ b.peer;
  text = a.text ∙ b.text;
  at = a.at ∙ b.at;
  status = status_trans a.status b.status;
}

-- A message that is delivered now.
pub Becomes-delivered : (m : Message) → Becomes m (record m { status = "delivered to UE" })
Becomes-delivered m = record {
  id = refl;
  direction = refl;
  peer = refl;
  text = refl;
  at = refl;
  status = ground (arith, eq_iff m.status "delivered to UE");
}

pub Turns-refl : (ms : List Message) → Turns ms ms
Turns-refl [] = tt
Turns-refl (m ∷ ms) = (Becomes-refl m, Turns-refl ms)

pub Turns-trans : (ls ms ns : List Message) → Turns ls ms → Turns ms ns → Turns ls ns
Turns-trans [] [] ns a b = b
Turns-trans (l ∷ ls) (m ∷ ms) (n ∷ ns) a b = (Becomes-trans a.0 b.0, Turns-trans ls ms ns a.1 b.1)
Turns-trans (l ∷ ls) (m ∷ ms) [] a b = absurd b
Turns-trans (l ∷ ls) [] ns a b = absurd a
Turns-trans [] (m ∷ ms) ns a b = absurd a

Turns-drop : (k : ℕ) (ms ns : List Message) → Turns ms ns → Turns (drop k ms) (drop k ns)
Turns-drop zero ms ns h = h
Turns-drop (suc k) [] [] h = tt
Turns-drop (suc k) [] (n ∷ ns) h = absurd h
Turns-drop (suc k) (m ∷ ms) [] h = absurd h
Turns-drop (suc k) (m ∷ ms) (n ∷ ns) h = Turns-drop k ms ns h.1

pub Turns-append : (ms ns ls : List Message) → Turns ms ns → Turns (ms ++ ls) (ns ++ ls)
Turns-append [] [] ls h = Turns-refl ls
Turns-append [] (n ∷ ns) ls h = absurd h
Turns-append (m ∷ ms) [] ls h = absurd h
Turns-append (m ∷ ms) (n ∷ ns) ls h = (h.0, Turns-append ms ns ls h.1)

pub length-Turns : (ms ns : List Message) → Turns ms ns → length ms ≡ length ns
length-Turns [] [] h = refl
length-Turns [] (n ∷ ns) h = absurd h
length-Turns (m ∷ ms) [] h = absurd h
length-Turns (m ∷ ms) (n ∷ ns) h = let rest = length-Turns ms ns h.1 in omega arith

drop-nil {ℓ} : {A : Type ℓ} (k : ℕ) → ◌≡◌ {A = List A} (drop k []) []
drop-nil zero = refl
drop-nil (suc k) = refl

drop-drop {ℓ} : {A : Type ℓ} (j k : ℕ) (xs : List A) → drop k (drop j xs) ≡ drop (j + k) xs
drop-drop zero k xs = rw zero-add
drop-drop (suc j) k [] = rw suc-add (drop-nil k)
drop-drop (suc j) k (x ∷ xs) = rw suc-add (drop-drop j k xs)

module _ (n : ℕ) where
  keep_last-drop : (ms : List Message) → keep_last n ms ≡ drop (length ms - n) ms
  unfolding keep_last
  keep_last-drop ms = elim (Bool-cases (ltb n (length ms))) [
    | inl e ↦ rw e
    | inr e ↦ let none_over : length ms - n ≡ 0 = ground arith in rw (e, none_over)
  ]

  pub keep_last-short : (ms : List Message) → length ms ≤ n → keep_last n (ms ++ []) ≡ ms
  unfolding keep_last
  keep_last-short ms few =
      let fits : ltb n (length ms) ≡ false = ground arith in rw (append-nil ms, fits)

  -- What is dropped first does not matter to what is dropped later.
  keep_last-again :
      (ms ns : List Message) → keep_last n (keep_last n ms ++ ns) ≡ keep_last n (ms ++ ns)
  keep_last-again ms ns =
      let k = length ms - n in
      let all = ms ++ ns in
      let size : length (drop k all) - n + k ≡ length all - n =
        omega (arith, length-drop k all, length-append ms ns) in
      let add : k + (length (drop k all) - n) ≡ length all - n = omega arith in
      ap (λ l. keep_last n (l ++ ns)) (keep_last-drop ms)
      ∙ ap (keep_last n) (sym (drop-append k ms ns (omega arith)))
      ∙ keep_last-drop (drop k all)
      ∙ drop-drop k (length (drop k all) - n) all
      ∙ ap (λ j. drop j all) add
      ∙ sym (keep_last-drop all)

  keep_last-Turns : (ms ns : List Message) → Turns ms ns → Turns (keep_last n ms) (keep_last n ns)
  keep_last-Turns ms ns h =
      let same = length-Turns ms ns h in
      rw (keep_last-drop ms, keep_last-drop ns, same) (Turns-drop (length ns - n) ms ns h)

  -- Two histories, one after the other.
  pub Turns-then :
      (ls xs ms ys ns : List Message)
      → Turns (keep_last n (ls ++ xs)) ms
      → Turns (keep_last n (ms ++ ys)) ns
      → Turns (keep_last n (ls ++ (xs ++ ys))) ns
  Turns-then ls xs ms ys ns h k =
      let more = keep_last-Turns _ (ms ++ ys) (Turns-append _ ms ys h) in
      let same : keep_last n (keep_last n (ls ++ xs) ++ ys) ≡ keep_last n (ls ++ (xs ++ ys)) =
        keep_last-again (ls ++ xs) ys ∙ ap (keep_last n) (append_assoc ls xs ys) in
      subst (λ l. Turns l ns) same (Turns-trans _ (keep_last n (ms ++ ys)) ns more k)

-- A phone that nothing is stored at.
pub Follows-turned :
    (p q : Phone)
    → length p.messages ≤ 100
    → p.id ≡ q.id
    → p.name ≡ q.name
    → p.imsi ≡ q.imsi
    → p.msisdn ≡ q.msisdn
    → Turns p.messages q.messages
    → Follows (p.messages ++ []) p q
Follows-turned p q few a b c d h = record {
  id = a;
  name = b;
  imsi = c;
  msisdn = d;
  messages = rw (keep_last-short 100 p.messages few) h;
}

pub Follows-refl : (p : Phone) → length p.messages ≤ 100 → Follows (p.messages ++ []) p p
Follows-refl p few = Follows-turned p p few refl refl refl refl (Turns-refl p.messages)

-- The phone at index `i` is still there, and what it keeps is kept.
pub record Still (qs : List Phone) (i : ℕ) (p : Phone) (ms : List Message) : Type 0 where
  pub phone : Phone
  pub there : get_elem? qs i ≡ some phone
  pub follows : Follows ms p phone
