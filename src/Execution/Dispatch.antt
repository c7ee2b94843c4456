-- ===== src/Execution/Dispatch.antt =====
-- `route_dispatch` of src/runtime.c against a description of a walk through dispatches, whose steps
-- read the image and the value byte by byte and have no bound on their number.
use hermas.Base.{
  ℕ, zero, suc, ◌+◌, ◌*◌, ◌/◌, ◌<◌, ◌≤◌, ◌≡◌, ◌≢◌, ◌⊎◌, refl, ap, arith, inl, inr, Bool, true,
  false, ◌||◌, ltb, ◌==◌, ◌!=◌, Bool-cases,
}
use hermas.Base.Check.{Check, fail, pass}
use hermas.Bytes.{byte_at, read_u16, read_u32}
use hermas.Image.{Verifier, is_ok}
use hermas.Protocol.{pointee}
use hermas.Execution.{
  Execution, ready, complete, RuntimeResult, ok, invalid_value, invalid_image, strip_tag,
  follow_edge, select_case, enter_with, route_rounds, route_dispatch,
}
use hermas.Execution.Cases.{
  nth_edge, IsCase, HasTag, Stripped, strip_tag-Stripped, find_case_edge-first,
}

-- The execution at the target of edge `j`, with the types that the edge gives its value.
abbrev pub at_target : Execution → ℕ → Execution
at_target e j = record e {
  value_source_type = read_u16 e.image (nth_edge e.image j + 8);
  value_destination_type = read_u16 e.image (nth_edge e.image j + 10);
  current_node = read_u16 e.image (nth_edge e.image j + 6);
}

abbrev pub leads_to : Execution → ℕ → ℕ
leads_to e j = byte_at e.image (nth_edge e.image j + 1)

module _ (v : Verifier) where
  abbrev pub fits : Execution → ℕ → Bool
  fits e j = is_ok (
      v.validate_value e.image e.image_size (read_u16 e.image (nth_edge e.image j + 8))
        e.value_buffer e.value_length)

  -- Edge `j` is the first case of the current node for the tag of the value; without it the value is
  -- that of `e'`.
  pub record Chosen (e e' : Execution) (j : ℕ) : Type 0 where
    pub tag : ℕ
    pub tagged : HasTag e tag
    pub inside : j < read_u16 e.image 32
    pub case : IsCase e.image e.current_node tag j
    pub first : (k : ℕ) → k < j → ¬ (IsCase e.image e.current_node tag k)
    pub rest : Stripped e e'

  -- A walk that takes so many tags off the value, and what it returns.
  pub data Routes (outcome : ℕ) : ℕ → Execution → RuntimeResult × Execution → Type 0 where
    short : {e : Execution} → e.value_length < 8 → Routes outcome 0 e (invalid_value, e)
    bad_tag :
        {e : Execution}
        → 8 ≤ e.value_length
        → (read_u32 (pointee e.value_buffer) 4 ≢ 0) ⊎ (255 < read_u32 (pointee e.value_buffer) 0)
        → Routes outcome 0 e (invalid_value, e)
    no_case :
        {e : Execution} (tag : ℕ)
        → HasTag e tag
        → ((k : ℕ) → k < read_u16 e.image 32 → ¬ (IsCase e.image e.current_node tag k))
        → Routes outcome 0 e (invalid_image, e)
    wrong_type :
        {e e' : Execution} {j : ℕ}
        → Chosen e e' j
        → fits e' j ≡ false
        → Routes outcome 1 e (invalid_value, e')
    to_action :
        {e e' : Execution} {j : ℕ}
        → Chosen e e' j
        → fits e' j ≡ true
        → leads_to e' j ≡ 1
        → Routes outcome 1 e (ok, record (at_target e' j) { state = ready })
    to_end :
        {e e' : Execution} {j : ℕ}
        → Chosen e e' j
        → fits e' j ≡ true
        → leads_to e' j ≢ 1
        → leads_to e' j ≢ 3
        → Routes outcome 1 e
            (ok, record (at_target e' j) { terminal_outcome = outcome; state = complete })
    to_dispatch :
        {e e' : Execution} {j n : ℕ} {r : RuntimeResult × Execution}
        → Chosen e e' j
        → fits e' j ≡ true
        → leads_to e' j ≡ 3
        → Routes outcome n (at_target e' j) r
        → Routes outcome (n + 1) e r

  -- What follows the choice of a case.
  abbrev resume :
      (Execution → ℕ → RuntimeResult × Execution)
      → Check (RuntimeResult × Execution) (Execution × ℕ)
      → RuntimeResult × Execution
  resume enter (fail stop) = stop
  resume enter (pass (e, edge)) = enter e edge

  pub route_rounds-suc :
      (m : ℕ) (e : Execution) (outcome : ℕ)
      → route_rounds v (suc m) e outcome
        ≡ resume
            (λ e' edge. enter_with v (λ t. route_rounds v m t outcome) e' edge outcome)
            (select_case v e)
  unfolding route_rounds
  route_rounds-suc m e outcome = refl

  -- What the choice of a case comes to.
  data Selected (e : Execution) : Check (RuntimeResult × Execution) (Execution × ℕ) → Type 0 where
    stopped :
        {r : RuntimeResult × Execution} (n : ℕ)
        → n * 8 ≤ e.value_length
        → ((outcome : ℕ) → Routes outcome n e r)
        → Selected e (fail r)
    taken :
        {e' : Execution} {edge : ℕ} (j : ℕ)
        → edge ≡ nth_edge e'.image j
        → Chosen e e' j
        → fits e' j ≡ true
        → Selected e (pass (e', edge))

  select_tagged :
      (e : Execution)
      → HasTag e (read_u32 (pointee e.value_buffer) 0)
      → Selected e (select_case v e)
  unfolding select_case strip_tag
  select_tagged e (long, zeros, own, small) =
      let tag = read_u32 (pointee e.value_buffer) 0 in
      let enough : ltb e.value_length 8 ≡ false = ground arith in
      let plain : (read_u32 (pointee e.value_buffer) 4 != 0 || ltb 255 tag) ≡ false =
        ground arith in
      elim (find_case_edge-first e.image e.current_node tag) [
        | inl (absent, all) ↦
            rw (enough, plain, absent)
              (stopped 0 (omega arith) (λ outcome. no_case tag (long, zeros, own, small) all))
        | inr (j, inside, found, case, first) ↦
            let chosen : Chosen e (strip_tag e) j = record {
              tag = tag;
              tagged = (long, zeros, own, small);
              inside = inside;
              case = case;
              first = first;
              rest = strip_tag-Stripped e;
            } in
            elim (Bool-cases (fits (strip_tag e) j)) [
              | inl good ↦ rw (enough, plain, found, good) (taken j refl chosen good)
              | inr bad ↦
                  rw (enough, plain, found, bad)
                    (stopped 1 (omega arith) (λ outcome. wrong_type chosen bad))
            ]
      ]

  select_case-Selected : (e : Execution) → Selected e (select_case v e)
  unfolding select_case
  select_case-Selected e = elim (Bool-cases (ltb e.value_length 8)) [
    | inl few ↦ rw few (stopped 0 (omega arith) (λ outcome. short (ground arith)))
    | inr enough ↦
        let tag = read_u32 (pointee e.value_buffer) 0 in
        let reserved = read_u32 (pointee e.value_buffer) 4 in
        elim (Bool-cases (reserved != 0 || ltb 255 tag)) [
          | inl bad ↦
              let why : (reserved ≢ 0) ⊎ (255 < tag) = elim (Bool-cases (reserved != 0)) [
                | inl some_bits ↦ inl (ground arith)
                | inr zeros ↦ inr (ground arith)
              ] in
              rw (enough, bad) (stopped 0 (omega arith) (λ outcome. bad_tag (ground arith) why))
          | inr plain ↦ select_tagged e (ground arith, ground arith, refl, ground arith)
        ]
  ]

  -- A walk from an execution with so many bytes of value, that returns this.
  abbrev pub Walk : Execution → ℕ → RuntimeResult × Execution → Type 0
  Walk e outcome r = (n : ℕ) × (n * 8 ≤ e.value_length) × Routes outcome n e r

  enters-Walk :
      (rounds : ℕ) (e e' : Execution) (j outcome : ℕ)
      → Chosen e e' j
      → fits e' j ≡ true
      → Walk (at_target e' j) outcome (route_rounds v rounds (at_target e' j) outcome)
      → Walk e outcome
          (enter_with v (λ t. route_rounds v rounds t outcome) e' (nth_edge e'.image j) outcome)
  unfolding enter_with follow_edge
  enters-Walk rounds e e' j outcome chosen good (n, few, walk) =
      let long = chosen.tagged.0 in
      let shorter = ap (λ (x : Execution). x.value_length) chosen.rest.0 in
      elim (Bool-cases (leads_to e' j == 1)) [
        | inl action ↦ rw action (1, omega arith, to_action chosen good (ground arith))
        | inr no_action ↦ elim (Bool-cases (leads_to e' j == 3)) [
          | inl dispatch ↦
              rw (no_action, dispatch)
                (
                  n + 1,
                  omega (arith, few, shorter, long),
                  to_dispatch chosen good (ground arith) walk,
                )
          | inr end ↦
              rw (no_action, end) (1, omega arith, to_end chosen good (ground arith) (ground arith))
        ]
      ]

  continues :
      (rounds : ℕ) (e : Execution) (outcome : ℕ)
      (m : Check (RuntimeResult × Execution) (Execution × ℕ))
      → ((d : Execution)
          → d.value_length + 8 ≤ e.value_length
          → Walk d outcome (route_rounds v rounds d outcome))
      → Selected e m
      → Walk e outcome (
          resume (λ e' edge. enter_with v (λ t. route_rounds v rounds t outcome) e' edge outcome) m)
  continues rounds e outcome (fail r) go (stopped n few walk) = (n, few, walk outcome)
  continues rounds e outcome (pass (e', edge)) go (taken j at chosen good) =
      let long = chosen.tagged.0 in
      let shorter = ap (λ (x : Execution). x.value_length) chosen.rest.0 in
      rw at (
        enters-Walk rounds e e' j outcome chosen good
          (go (at_target e' j) (omega (arith, shorter, long))))

  route_rounds-Walk :
      (rounds : ℕ) (e : Execution) (outcome : ℕ)
      → e.value_length < 8 * (rounds + 1)
      → Walk e outcome (route_rounds v rounds e outcome)
  unfolding route_rounds
  route_rounds-Walk zero e outcome low = (0, omega arith, short (omega arith))
  route_rounds-Walk (suc rounds) e outcome low = rw (route_rounds-suc rounds e outcome) (
      continues rounds e outcome (select_case v e)
        (λ d less. route_rounds-Walk rounds d outcome (omega arith)) (select_case-Selected e))

  -- `route_dispatch` ends and returns what a walk through dispatches returns: from each, the value
  -- has at least 8 bytes, of which the first 4 are a tag of at most 255 and the others 0, or
  -- the value is invalid; the first edge of the table that is a case of the node for the tag is
  -- taken, or the image is invalid; the value without those 8 bytes has to be of the edge's type,
  -- or is invalid; and the edge leads to an action, which is then ready, to the next dispatch, or to
  -- the end with the outcome. The walk takes at most one tag per 8 bytes of the value.
  pub route_dispatch-Routes :
      (e : Execution) (outcome : ℕ)
      → (n : ℕ) × (n * 8 ≤ e.value_length) × Routes outcome n e (route_dispatch v e outcome)
  unfolding route_dispatch
  route_dispatch-Routes e outcome = route_rounds-Walk (e.value_length / 8) e outcome (omega arith)
