-- ===== src/Journal/Scan/Opens.antt =====
-- The deliveries that the records of an execution leave open, and the outcome that its deliveries
-- had, read off the records alone; and `find_delivery` of src/journal.c against them.
use mathlib.Core.Option
use hermas.Base.{
  ℕ, zero, suc, ◌<◌, ◌≤◌, ◌≡◌, ◌≢◌, refl, ap, arith, inl, inr, Bool, true, false, ◌&&◌, ◌||◌,
  Option, none, some, List, [], ◌∷◌, ◌++◌, get_or, set, take, length, leb, ltb, ◌==◌, if◌then◌else◌,
  Bool-cases,
}
use hermas.Base.Searches.{past_some}
use hermas.Protocol.Outcome
use hermas.Journal.{JournalRecord}
use hermas.Journal.Kind
use hermas.Journal.Scan.Transition.{
  DeliveryState, delivery_prepared, delivery_sent, OpenDelivery, empty_delivery, route_matches,
  find_delivery, outcome_precedence,
}
use hermas.Journal.Scan.Prefix.{remove}

abbrev pub is_closing : JournalRecord → Bool
is_closing r = leb Kind.action_succeeded r.kind && leb r.kind Kind.action_unknown

-- The delivery that a record prepares.
abbrev pub opened : JournalRecord → OpenDelivery
opened r = record {
  delivery_was_sent = 0;
  request_id = r.request_id;
  node_id = r.node_id;
  app_id = r.app_id;
  action_id = r.action_id;
}

-- The record is about the delivery: request, node, app and action are the same.
abbrev pub IsAbout : JournalRecord → OpenDelivery → Type 0
IsAbout r d =
    (d.request_id ≡ r.request_id)
    × (d.node_id ≡ r.node_id)
    × (d.app_id ≡ r.app_id)
    × (d.action_id ≡ r.action_id)

-- The first delivery that the record is about; the deliveries without it, and with it sent.
abbrev pub first_for : JournalRecord → List OpenDelivery → Option OpenDelivery
first_for r [] = none
first_for r (d ∷ ds) = let rest = first_for r ds in if route_matches d r then some d else rest

abbrev pub without : JournalRecord → List OpenDelivery → List OpenDelivery
without r [] = []
without r (d ∷ ds) = let rest = without r ds in if route_matches d r then ds else d ∷ rest

abbrev pub sent_to : JournalRecord → List OpenDelivery → List OpenDelivery
sent_to r [] = []
sent_to r (d ∷ ds) =
    let rest = sent_to r ds in
    if route_matches d r then record d { delivery_was_sent = 1 } ∷ ds else d ∷ rest

-- The deliveries that records, last first, leave open, in the order in which they were prepared.
abbrev pub opens : List JournalRecord → List OpenDelivery
opens [] = []
opens (r ∷ rs) =
    let before = opens rs in
    if r.kind == Kind.delivery_prepared
    then before ++ (opened r ∷ [])
    else if r.kind == Kind.delivery_sent
    then sent_to r before
    else if is_closing r
    then without r before
    else before

-- The outcomes of the records that close a delivery, last first.
abbrev pub closings : List JournalRecord → List ℕ
closings [] = []
closings (r ∷ rs) = let before = closings rs in if is_closing r then r.outcome ∷ before else before

-- Each delivery that the records prepare has a request id below this one.
abbrev pub Below : ℕ → List JournalRecord → Type 0
Below n [] = Unit
Below n (r ∷ rs) = (r.kind ≡ Kind.delivery_prepared → r.request_id < n) × Below n rs

pub Below-weaken : (n m : ℕ) (rs : List JournalRecord) → n ≤ m → Below n rs → Below m rs
Below-weaken n m [] h b = tt
Below-weaken n m (r ∷ rs) h (first, rest) =
    (λ k. let low = first k in omega (arith, low, h), Below-weaken n m rs h rest)

abbrev has : ℕ → List ℕ → Bool
has o [] = false
has o (p ∷ ps) = o == p || has o ps

abbrev oldest : List ℕ → ℕ
oldest [] = Outcome.unknown
oldest (o ∷ []) = o
oldest (o ∷ p ∷ ps) = oldest (p ∷ ps)

abbrev worst_of : Bool → Bool → Bool → Bool → ℕ → ℕ
worst_of unknown app_error not_sent success other =
    if unknown
    then Outcome.unknown
    else if app_error
    then Outcome.app_error
    else if not_sent
    then Outcome.not_sent
    else if success
    then Outcome.success
    else other

-- The outcome of an execution whose deliveries ended with these, last first: unknown if one of them
-- is unknown or there is none, else an error of the app if there is one, else not sent if there is
-- one, else success if there is one, and else the first.
abbrev pub verdict : List ℕ → ℕ
verdict os =
    worst_of (has Outcome.unknown os) (has Outcome.app_error os) (has Outcome.not_sent os)
      (has Outcome.success os) (oldest os)

has-oldest : (o : ℕ) (os : List ℕ) → has (oldest (o ∷ os)) (o ∷ os) ≡ true
has-oldest o [] = ground arith
has-oldest o (p ∷ ps) = let rest = has-oldest p ps in ground (arith, rest)

absent : (o x : ℕ) (os : List ℕ) → has x os ≡ true → has o os ≡ false → x ≢ o
absent o x os member missing same = let found : has o os ≡ true = rw same at member in cc

-- No outcome but the four has another precedence than the lowest.
lowest :
    (o : ℕ)
    → o ≢ Outcome.unknown
    → o ≢ Outcome.app_error
    → o ≢ Outcome.not_sent
    → o ≢ Outcome.success
    → outcome_precedence o ≡ 0
unfolding outcome_precedence
lowest o a b c d = ground arith

worse_of :
    (u a n s : Bool) (x o : ℕ)
    → (u ≡ false → a ≡ false → n ≡ false → s ≡ false → outcome_precedence x ≡ 0)
    → (if ltb (outcome_precedence (worst_of u a n s x)) (outcome_precedence o)
        then o
        else worst_of u a n s x)
      ≡ worst_of
          (Outcome.unknown == o || u)
          (Outcome.app_error == o || a)
          (Outcome.not_sent == o || n)
          (Outcome.success == o || s)
          x
unfolding outcome_precedence
worse_of true a n s x o low = ground arith
worse_of false true n s x o low = ground arith
worse_of false false true s x o low = ground arith
worse_of false false false true x o low = ground arith
worse_of false false false false x o low =
    let zero_x = low refl refl refl refl in ground (arith, zero_x)

-- The verdict after one more outcome is that outcome or the verdict before it, by precedence.
pub verdict-worse :
    (o p : ℕ) (ps : List ℕ)
    → (if ltb (outcome_precedence (verdict (p ∷ ps))) (outcome_precedence o)
        then o
        else verdict (p ∷ ps))
      ≡ verdict (o ∷ p ∷ ps)
unfolding outcome_precedence
verdict-worse o p ps =
    let os = p ∷ ps in
    let x = oldest os in
    let member = has-oldest p ps in
    worse_of (has Outcome.unknown os) (has Outcome.app_error os) (has Outcome.not_sent os)
      (has Outcome.success os) x o
      (λ u a n s.
        lowest x (absent Outcome.unknown x os member u) (absent Outcome.app_error x os member a)
          (absent Outcome.not_sent x os member n) (absent Outcome.success x os member s))

pub verdict-one : (o : ℕ) → verdict (o ∷ []) ≡ o
verdict-one o = ground arith

abbrev pub state_of : OpenDelivery → DeliveryState
state_of d = if d.delivery_was_sent == 0 then delivery_prepared else delivery_sent

abbrev pub states_of : List OpenDelivery → List DeliveryState
states_of [] = []
states_of (d ∷ ds) = state_of d ∷ states_of ds

route_matches-IsAbout :
    (d : OpenDelivery) (r : JournalRecord) → route_matches d r ≡ true → IsAbout r d
unfolding route_matches
route_matches-IsAbout d r h = (ground arith, ground arith, ground arith, ground arith)

-- What the index that `find_delivery` returns means for the deliveries in use.
pub find_delivery-first :
    (ds : List OpenDelivery) (count i : ℕ) (r : JournalRecord)
    → find_delivery ds count r ≡ some i
    → (i < count)
      × (i < length ds)
      × IsAbout r (get_or ds i empty_delivery)
      × (first_for r (take count ds) ≡ some (get_or ds i empty_delivery))
      × (without r (take count ds) ≡ remove i (take count ds))
      × (sent_to r (take count ds)
          ≡ set (take count ds) i (record (get_or ds i empty_delivery) { delivery_was_sent = 1 }))
unfolding find_delivery
find_delivery-first [] count i r h = cc
find_delivery-first (d ∷ ds) zero i r h = cc
find_delivery-first (d ∷ ds) (suc count) i r h = elim (Bool-cases (route_matches d r)) [
  | inl hit ↦
      let here : some 0 ≡ some i = rw hit at h in
      let zeroth : i ≡ 0 = cc in
      rw (zeroth, hit) (omega arith, omega arith, route_matches-IsAbout d r hit, refl, refl, refl)
  | inr miss ↦
      let past : Option.map suc (find_delivery ds count r) ≡ some i = rw miss at h in
      let (j, next, found) = past_some (find_delivery ds count r) i past in
      let (low, inside, about, first, rest, sent) = find_delivery-first ds count j r found in
      rw (next, miss)
        (
          omega (arith, low),
          omega (arith, inside),
          about,
          first,
          ap (λ (t : List OpenDelivery). d ∷ t) rest,
          ap (λ (t : List OpenDelivery). d ∷ t) sent,
        )
]

pub states_of-push :
    (ds : List OpenDelivery) (d : OpenDelivery)
    → states_of (ds ++ (d ∷ [])) ≡ states_of ds ++ (state_of d ∷ [])
states_of-push [] d = refl
states_of-push (x ∷ ds) d = ap (λ (t : List DeliveryState). state_of x ∷ t) (states_of-push ds d)

pub states_of-set :
    (ds : List OpenDelivery) (i : ℕ) (d : OpenDelivery)
    → states_of (set ds i d) ≡ set (states_of ds) i (state_of d)
states_of-set [] i d = refl
states_of-set (x ∷ ds) zero d = refl
states_of-set (x ∷ ds) (suc i) d =
    ap (λ (t : List DeliveryState). state_of x ∷ t) (states_of-set ds i d)

pub states_of-remove :
    (i : ℕ) (ds : List OpenDelivery) → states_of (remove i ds) ≡ remove i (states_of ds)
states_of-remove i [] = refl
states_of-remove zero (x ∷ ds) = refl
states_of-remove (suc i) (x ∷ ds) =
    ap (λ (t : List DeliveryState). state_of x ∷ t) (states_of-remove i ds)

pub get_or-states_of :
    (ds : List OpenDelivery) (i : ℕ) (s : DeliveryState)
    → i < length ds
    → get_or (states_of ds) i s ≡ state_of (get_or ds i empty_delivery)
get_or-states_of [] i s h = absurd (omega arith)
get_or-states_of (x ∷ ds) zero s h = refl
get_or-states_of (x ∷ ds) (suc i) s h = get_or-states_of ds i s (omega arith)
