-- ===== src/Journal/Scan/Lived.antt =====
-- The entry that `scan_transition` of src/journal.c keeps of a running execution, against the records
-- of that execution so far.
use hermas.Base.{
  ℕ, suc, ◌+◌, ◌-◌, ◌<◌, ◌≤◌, ◌≡◌, ◌≢◌, ◌⊎◌, ◌∙◌, refl, sym, ap, inl, inr, arith, true, false, some,
  List, [], ◌∷◌, ◌++◌, get_or, set, take, length, length-set, ◌==◌,
}
use hermas.Base.Check.{pass}
use hermas.Journal.{JournalRecord}
use hermas.Journal.Kind
use hermas.Journal.Scan.Transition.{
  DeliveryState, delivery_none, delivery_sent, OpenDelivery, empty_delivery, ScanExecution,
  empty_execution, find_delivery, mark_sent, close_delivery, execution_transition, activate,
}
use hermas.Journal.Scan.Prefix.{
  remove, take-set, get_or_prefix, length-prefix, take_shift, length-shift,
}
use hermas.Journal.Scan.Opens.{
  is_closing, opened, IsAbout, first_for, without, sent_to, opens, closings, Below, verdict,
  verdict-worse, verdict-one, state_of, states_of, find_delivery-first, states_of-set,
  states_of-remove, get_or-states_of,
}

-- The records of an execution that runs since `start`, last first, each accepted in its turn, and
-- the entry of the execution after them.
pub data Lived (start : JournalRecord) : List JournalRecord → ScanExecution → Type 0 where
  begun : Lived start [] (activate empty_execution start)
  later :
      {rs : List JournalRecord} {r : JournalRecord} {e e' : ScanExecution}
      → Lived start rs e
      → r.kind ≢ Kind.execution_finished
      → execution_transition e r ≡ pass e'
      → Lived start (r ∷ rs) e'

-- The entry of an execution and the records that made it.
pub record Holds (start : JournalRecord) (rs : List JournalRecord) (e : ScanExecution)
    : Type 0 where
  pub room : length e.value.open_deliveries ≡ 8
  pub states_room : length e.deliveries ≡ 8
  pub count : e.value.open_delivery_count ≤ 8
  pub used : take e.value.open_delivery_count e.value.open_deliveries ≡ opens rs
  pub states : take e.value.open_delivery_count e.deliveries ≡ states_of (opens rs)
  pub below : Below (e.largest_request_id + 1) rs
  pub ended :
      ((e.has_action_outcome ≡ false) × (closings rs ≡ []))
      ⊎ ((e.has_action_outcome ≡ true)
          × ((o : ℕ) × (os : List ℕ) × (closings rs ≡ o ∷ os)
              × (e.terminal_outcome ≡ verdict (o ∷ os))))
  pub own_workflow : e.value.workflow_id ≡ start.workflow_id
  pub own_image : e.value.image_fingerprint ≡ start.image_fingerprint

module _ (start : JournalRecord) (rs : List JournalRecord) (e : ScanExecution)
    (holds : Holds start rs e) (r : JournalRecord) where
  abbrev count_of : ℕ
  count_of = e.value.open_delivery_count

  abbrev delivery : ℕ → OpenDelivery
  delivery i = get_or e.value.open_deliveries i empty_delivery

  -- The state of an open delivery.
  pub state_at :
      (i : ℕ) → i < count_of → get_or e.deliveries i delivery_none ≡ state_of (delivery i)
  state_at i low =
      let known : get_or (take count_of e.deliveries) i delivery_none
          ≡ get_or (states_of (take count_of e.value.open_deliveries)) i delivery_none =
        ap (λ (t : List DeliveryState). get_or t i delivery_none)
          (holds.states ∙ ap states_of (sym holds.used)) in
      let sized =
        length-prefix count_of e.value.open_deliveries
          (let c = holds.count in let room = holds.room in omega (arith, c, room)) in
      sym (get_or_prefix count_of i e.deliveries delivery_none low)
      ∙ known
      ∙ get_or-states_of (take count_of e.value.open_deliveries) i delivery_none
          (omega (arith, sized, low))
      ∙ ap state_of (get_or_prefix count_of i e.value.open_deliveries empty_delivery low)

  -- The delivery that the record is about, as the records before it have it.
  pub about :
      (i : ℕ)
      → find_delivery e.value.open_deliveries count_of r ≡ some i
      → (i < count_of)
        × IsAbout r (delivery i)
        × (first_for r (opens rs) ≡ some (delivery i))
        × (without r (opens rs) ≡ remove i (opens rs))
        × (sent_to r (opens rs) ≡ set (opens rs) i (record (delivery i) { delivery_was_sent = 1 }))
  about i found =
      let (low, _, own, first, rest, sent) =
        find_delivery-first e.value.open_deliveries count_of i r found in
      let used = holds.used in (low, own, rw used at first, rw used at rest, rw used at sent)

  -- What the kind of the record makes of the deliveries and outcomes.
  pub after_prepare :
      r.kind ≡ Kind.delivery_prepared
      → (opens (r ∷ rs) ≡ opens rs ++ (opened r ∷ [])) × (closings (r ∷ rs) ≡ closings rs)
  after_prepare k = rw k (refl, refl)

  pub after_send :
      r.kind ≡ Kind.delivery_sent
      → (opens (r ∷ rs) ≡ sent_to r (opens rs)) × (closings (r ∷ rs) ≡ closings rs)
  after_send k = rw k (refl, refl)

  pub after_close :
      is_closing r ≡ true
      → (opens (r ∷ rs) ≡ without r (opens rs)) × (closings (r ∷ rs) ≡ r.outcome ∷ closings rs)
  after_close k =
      let two : (r.kind == Kind.delivery_prepared) ≡ false = ground (arith, k) in
      let three : (r.kind == Kind.delivery_sent) ≡ false = ground (arith, k) in
      (rw (two, three, k) refl, rw k refl)

  pub sent_Holds :
      r.kind ≡ Kind.delivery_sent
      → (i : ℕ)
      → sent_to r (opens rs) ≡ set (opens rs) i (record (delivery i) { delivery_was_sent = 1 })
      → Holds start (r ∷ rs) (mark_sent e i)
  unfolding mark_sent
  sent_Holds k i sent =
      let marked : OpenDelivery = record (delivery i) { delivery_was_sent = 1 } in
      let (opens', closings') = after_send k in
      let now : opens (r ∷ rs) ≡ set (opens rs) i marked = opens' ∙ sent in
      record {
        room = length-set e.value.open_deliveries i marked ∙ holds.room;
        states_room = length-set e.deliveries i delivery_sent ∙ holds.states_room;
        count = holds.count;
        used = rw now (
            take-set count_of i e.value.open_deliveries marked
            ∙ ap (λ (t : List OpenDelivery). set t i marked) holds.used);
        states = rw now (
            take-set count_of i e.deliveries delivery_sent
            ∙ ap (λ (t : List DeliveryState). set t i delivery_sent) holds.states
            ∙ sym (states_of-set (opens rs) i marked));
        below = (λ z. absurd (omega (arith, k, z)), holds.below);
        ended = rw closings' holds.ended;
        own_workflow = holds.own_workflow;
        own_image = holds.own_image;
      }

  closed_outcome :
      is_closing r ≡ true
      → (i : ℕ)
      → ((o : ℕ) × (os : List ℕ) × (closings (r ∷ rs) ≡ o ∷ os)
          × ((close_delivery e i r).terminal_outcome ≡ verdict (o ∷ os)))
  unfolding close_delivery
  closed_outcome k i =
      let (_, closings') = after_close k in
      elim holds.ended [
        | inl (no_outcome, no_closing) ↦ (
          r.outcome,
          closings rs,
          closings',
          rw (no_outcome, no_closing) (sym (verdict-one r.outcome)),
        )
        | inr (some_outcome, (o, os, some_closing, verdict')) ↦ (
          r.outcome,
          closings rs,
          closings',
          rw (some_outcome, some_closing, verdict') (verdict-worse r.outcome o os),
        )
      ]

  pub closed_Holds :
      is_closing r ≡ true
      → (i : ℕ) → i < count_of
      → without r (opens rs) ≡ remove i (opens rs)
      → Holds start (r ∷ rs) (close_delivery e i r)
  unfolding close_delivery
  closed_Holds k i low rest =
      let c = holds.count in
      let room = holds.room in
      let states_room = holds.states_room in
      let left = count_of - 1 in
      let whole : suc left ≡ count_of = omega (arith, low) in
      let (opens', _) = after_close k in
      let now : opens (r ∷ rs) ≡ remove i (opens rs) = opens' ∙ rest in
      record {
        room = length-shift empty_delivery (left - i) i e.value.open_deliveries ∙ room;
        states_room = length-shift delivery_none (left - i) i e.deliveries ∙ states_room;
        count = omega (arith, c);
        used = rw now (
            take_shift empty_delivery i left e.value.open_deliveries (omega (arith, low))
              (omega (arith, low, c, room))
            ∙ ap (λ (n : ℕ). remove i (take n e.value.open_deliveries)) whole
            ∙ ap (λ (t : List OpenDelivery). remove i t) holds.used);
        states = rw now (
            take_shift delivery_none i left e.deliveries (omega (arith, low))
              (omega (arith, low, c, states_room))
            ∙ ap (λ (n : ℕ). remove i (take n e.deliveries)) whole
            ∙ ap (λ (t : List DeliveryState). remove i t) holds.states
            ∙ sym (states_of-remove i (opens rs)));
        below = (λ z. absurd (ground (arith, k, z)), holds.below);
        ended = inr (refl, closed_outcome k i);
        own_workflow = holds.own_workflow;
        own_image = holds.own_image;
      }

pub begun_Holds : (start : JournalRecord) → Holds start [] (activate empty_execution start)
unfolding activate
begun_Holds start = record {
  room = refl;
  states_room = refl;
  count = omega arith;
  used = refl;
  states = refl;
  below = tt;
  ended = inl (refl, refl);
  own_workflow = refl;
  own_image = refl;
}
