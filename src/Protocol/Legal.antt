-- ===== src/Protocol/Legal.antt =====
-- The frames that `validate_semantics` admits, kind by kind.
use hermas.Base.{◌≡◌, ◌≢◌, ◌⊎◌, ◌↔◌, inl, inr, arith, ◌==◌, Bool-cases, ◌||◌}
use hermas.Protocol.{Frame, ok, validate_semantics}
use hermas.Protocol.Kind
use hermas.Protocol.Outcome

abbrev NoRoute : Frame → Type 0
NoRoute f =
    (f.execution_id ≡ 0) × (f.request_id ≡ 0) × (f.source_type ≡ 0) × (f.destination_type ≡ 0)

abbrev Names : Frame → Type 0
Names f = (f.app_id ≢ 0) × (f.action_id ≢ 0)

abbrev Routed : Frame → Type 0
Routed f = (f.execution_id ≢ 0) × (f.request_id ≢ 0)

abbrev Typed : Frame → Type 0
Typed f = (f.source_type ≢ 0) × (f.destination_type ≢ 0)

-- A frame between the daemon and a client: one execution and no Action.
abbrev ForClient : Frame → Type 0
ForClient f = (f.execution_id ≢ 0) × (f.request_id ≡ 0) × (f.app_id ≡ 0) × (f.action_id ≡ 0)

pub data Legal (f : Frame) : Type 0 where
  registering :
      f.kind ≡ Kind.register_app
      → NoRoute f
      → Names f
      → f.outcome ≡ Outcome.none
      → f.payload_length ≡ 32
      → Legal f
  registered :
      f.kind ≡ Kind.register_ok
      → NoRoute f
      → Names f
      → f.outcome ≡ Outcome.none
      → f.payload_length ≡ 0
      → Legal f
  invoking :
      f.kind ≡ Kind.invoke → Routed f → Names f → Typed f → f.outcome ≡ Outcome.none → Legal f
  answering :
      f.kind ≡ Kind.result
      → Routed f
      → Names f
      → Typed f
      → (f.outcome ≡ Outcome.success) ⊎ (f.outcome ≡ Outcome.app_error)
      → Legal f
  complaining :
      f.kind ≡ Kind.protocol_error
      → f.outcome ≡ Outcome.protocol_error
      → f.payload_length ≡ 0
      → Legal f
  submitting :
      f.kind ≡ Kind.execute
      → ForClient f
      → f.source_type ≢ 0
      → f.destination_type ≡ 0
      → f.outcome ≡ Outcome.none
      → Legal f
  reporting :
      f.kind ≡ Kind.execution_result
      → ForClient f
      → Typed f
      → (f.outcome ≡ Outcome.success) ⊎ (f.outcome ≡ Outcome.app_error)
      → Legal f
  reporting_loss :
      f.kind ≡ Kind.execution_result
      → ForClient f
      → (f.source_type ≡ 0) × (f.destination_type ≡ 0) × (f.payload_length ≡ 0)
      → (f.outcome ≡ Outcome.not_sent) ⊎ (f.outcome ≡ Outcome.unknown)
      → Legal f

pub validate_semantics-Legal : (f : Frame) → Legal f → validate_semantics f ≡ ok
unfolding validate_semantics
validate_semantics-Legal f (registering k r n o p) = ground arith
validate_semantics-Legal f (registered k r n o p) = ground arith
validate_semantics-Legal f (invoking k r n t o) = ground arith
validate_semantics-Legal f (answering k r n t o) = ground arith
validate_semantics-Legal f (complaining k o p) = ground arith
validate_semantics-Legal f (submitting k c s d o) = ground arith
validate_semantics-Legal f (reporting k c t o) = ground arith
validate_semantics-Legal f (reporting_loss k c t o) = ground arith

-- The last kind has two forms, told apart by the outcome.
reporting-cases : (f : Frame) → validate_semantics f ≡ ok → f.kind ≡ Kind.execution_result → Legal f
unfolding validate_semantics
reporting-cases f e k =
    elim (Bool-cases (f.outcome == Outcome.success || f.outcome == Outcome.app_error)) [
      | inl answered ↦ reporting k (ground arith) (ground arith) (ground arith)
      | inr lost ↦ reporting_loss k (ground arith) (ground arith) (ground arith)
    ]

pub Legal-validate_semantics : (f : Frame) → validate_semantics f ≡ ok → Legal f
unfolding validate_semantics
Legal-validate_semantics f e = elim (Bool-cases (f.kind == Kind.register_app)) [
  | inl k ↦ registering (ground arith) (ground arith) (ground arith) (ground arith) (ground arith)
  | inr k0 ↦ elim (Bool-cases (f.kind == Kind.register_ok)) [
    | inl k ↦ registered (ground arith) (ground arith) (ground arith) (ground arith) (ground arith)
    | inr k1 ↦ elim (Bool-cases (f.kind == Kind.invoke)) [
      | inl k ↦ invoking (ground arith) (ground arith) (ground arith) (ground arith) (ground arith)
      | inr k2 ↦ elim (Bool-cases (f.kind == Kind.result)) [
        | inl k ↦
            answering (ground arith) (ground arith) (ground arith) (ground arith) (ground arith)
        | inr k3 ↦ elim (Bool-cases (f.kind == Kind.protocol_error)) [
          | inl k ↦ complaining (ground arith) (ground arith) (ground arith)
          | inr k4 ↦ elim (Bool-cases (f.kind == Kind.execute)) [
            | inl k ↦
                submitting (ground arith) (ground arith) (ground arith) (ground arith)
                  (ground arith)
            | inr k5 ↦ reporting-cases f e (ground arith)
          ]
        ]
      ]
    ]
  ]
]

-- `validate_semantics` answers ok exactly on the frames that are legal for their kind.
validate_semantics_iff : (f : Frame) → (validate_semantics f ≡ ok) ↔ Legal f
validate_semantics_iff f = (Legal-validate_semantics f, validate_semantics-Legal f)
