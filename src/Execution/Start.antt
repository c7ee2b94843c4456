-- ===== src/Execution/Start.antt =====
-- `hermas_execution_start` of src/runtime.c.
use hermas.Base.{
  ℕ, ◌≡◌, ◌≢◌, refl, arith, inl, inr, false, not, ◌&&◌, Option, none, some, Bool-cases,
  Option-cases, List, ◌==◌, ◌||◌, ltb, ◌!=◌,
}
use hermas.Image.{Verifier, is_ok}
use hermas.Protocol.{is_null, max_payload_size}
use hermas.Protocol.Outcome
use hermas.Execution
use hermas.Execution.{
  Execution, ExecutionState, ready, prepared, sent, complete, RuntimeResult, start, start_fresh,
  prepare, get_result, invocation_of, result_of, enter_edge, enter_with, find_edge, follow_edge,
  target_kind, copy_value, fresh_execution, succeeded, has_value, stored, is_complete, mark_sent,
  answers,
}

-- What `start` leaves.
abbrev pub IsStarted : ℕ → Execution → Type 0
IsStarted execution_id e = (e.state ≡ ready) × (e.request_id ≡ 1) × (e.execution_id ≡ execution_id)

module _ (v : Verifier) where
  enter_edge-action :
      (e : Execution) (edge outcome : ℕ)
      → target_kind e.image edge ≡ 1
      → enter_edge v e edge outcome ≡ (Execution.ok, record (follow_edge e edge) { state = ready })
  unfolding enter_edge enter_with
  enter_edge-action e edge outcome h = ground arith

  copy_value-keeps :
      (e : Execution) (value : Option (List ℕ)) (n : ℕ)
      → ((copy_value e value n).1.image ≡ e.image)
        × ((copy_value e value n).1.request_id ≡ e.request_id)
        × ((copy_value e value n).1.execution_id ≡ e.execution_id)
  unfolding copy_value
  copy_value-keeps e value n = ground arith

  entered-IsStarted :
      (e : Execution) (root execution_id : ℕ)
      → target_kind e.image root ≡ 1
      → e.request_id ≡ 1
      → e.execution_id ≡ execution_id
      → IsStarted execution_id (enter_edge v e root Outcome.none).1
  unfolding follow_edge
  entered-IsStarted e root execution_id action first own =
      rw (enter_edge-action e root Outcome.none action) (refl, first, own)

  start_fresh-IsStarted :
      (image : List ℕ) (image_size execution_id : ℕ) (buffer : Option (List ℕ)) (capacity : ℕ)
      (input : Option (List ℕ)) (input_length : ℕ) (code : RuntimeResult) (e : Execution)
      → start_fresh v image image_size execution_id buffer capacity input input_length
        ≡ (code, some e)
      → IsStarted execution_id e
  unfolding start_fresh
  start_fresh-IsStarted image image_size execution_id buffer capacity input input_length code e h =
      let fresh = fresh_execution image image_size execution_id buffer capacity in
      let kept = copy_value-keeps fresh input input_length in
      elim (Bool-cases (succeeded (copy_value fresh input input_length).0)) [
        | inr stuck ↦ absurd (let bad = rw stuck at h in cc)
        | inl copied ↦ elim (Option-cases (find_edge image 0 0)) [
          | inl absent ↦ absurd (let bad = rw (copied, absent) at h in cc)
          | inr (root, found) ↦ elim (Bool-cases (target_kind image root == 1)) [
            | inr other ↦ absurd (let bad = rw (copied, found, other) at h in cc)
            | inl action ↦
                let started = rw (copied, found, action) at h in
                let done =
                  entered-IsStarted (copy_value fresh input input_length).1 root execution_id
                    (ground arith) kept.1 kept.2 in
                let same : (enter_edge v (copy_value fresh input input_length).1 root
                      Outcome.none).1
                    ≡ e =
                  cc in
                rw same at done
          ]
        ]
      ]

  start_fresh-fails :
      (image : List ℕ) (image_size execution_id : ℕ) (buffer : Option (List ℕ)) (capacity : ℕ)
      (input : Option (List ℕ)) (input_length : ℕ)
      → (let r = start_fresh v image image_size execution_id buffer capacity input input_length in
          r.1 ≡ none → succeeded r.0 ≡ false)
  unfolding start_fresh
  start_fresh-fails image image_size execution_id buffer capacity input input_length h =
      let fresh = fresh_execution image image_size execution_id buffer capacity in
      elim (Bool-cases (succeeded (copy_value fresh input input_length).0)) [
        | inr stuck ↦ rw stuck stuck
        | inl copied ↦ elim (Option-cases (find_edge image 0 0)) [
          | inl absent ↦ rw (copied, absent) refl
          | inr (root, found) ↦ elim (Bool-cases (target_kind image root == 1)) [
            | inr other ↦ rw (copied, found, other) refl
            | inl action ↦ absurd (let bad = rw (copied, found, action) at h in cc)
          ]
        ]
      ]

  stored-IsStarted :
      (image : List ℕ) (image_size execution_id : ℕ) (buffer : Option (List ℕ)) (capacity : ℕ)
      (input : Option (List ℕ)) (input_length : ℕ) (old e : Execution)
      → stored v old
          (start_fresh v image image_size execution_id buffer capacity input input_length)
        ≡ (Execution.ok, some e)
      → IsStarted execution_id e
  stored-IsStarted image image_size execution_id buffer capacity input input_length old e h =
      let r = start_fresh v image image_size execution_id buffer capacity input input_length in
      let fails =
        start_fresh-fails image image_size execution_id buffer capacity input input_length in
      let starts =
        start_fresh-IsStarted image image_size execution_id buffer capacity input input_length r.0
          e in
      elim (Option-cases r.1) [
        | inl absent ↦ absurd (ground (arith, fails absent))
        | inr (fresh, found) ↦ starts (ground arith)
      ]

  -- When `start` returns OK, the execution it leaves is ready, has the id it was given, which is not
  -- 0, and its first request is 1.
  pub start-IsStarted :
      (old : Execution) (image : List ℕ) (image_size execution_id : ℕ) (buffer : Option (List ℕ))
      (capacity input_type : ℕ) (input : Option (List ℕ)) (input_length : ℕ) (e : Execution)
      → start v
          (some old)
          (some image)
          image_size
          execution_id
          buffer
          capacity
          input_type
          input
          input_length
        ≡ (Execution.ok, some e)
      → IsStarted execution_id e × (execution_id ≢ 0)
  unfolding start
  start-IsStarted old image image_size execution_id buffer capacity input_type input input_length e
        h =
      let bad =
        execution_id == 0
        || input_type == 0
        || (input_length != 0 && is_null input)
        || (capacity != 0 && is_null buffer)
        || ltb max_payload_size input_length in
      let wrong =
        input_type != (v.validate image image_size).1.input_type
        || not (is_ok (v.validate_value image image_size input_type input input_length)) in
      elim (Bool-cases bad) [
        | inl refuses ↦ absurd (let no_start = rw refuses at h in cc)
        | inr fine ↦ elim (Bool-cases (is_ok (v.validate image image_size).0)) [
          | inr invalid ↦ absurd (let no_start = rw (fine, invalid) at h in cc)
          | inl valid ↦ elim (Bool-cases wrong) [
            | inl typed ↦ absurd (let no_start = rw (fine, valid, typed) at h in cc)
            | inr right ↦ (
              stored-IsStarted image image_size execution_id buffer capacity input input_length old
                  e (rw (fine, valid, right) at h),
              ground arith,
            )
          ]
        ]
      ]
