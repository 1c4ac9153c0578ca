-- ===== src/Checkpoint/Records.antt =====
-- The parts of a checkpoint that checkpoint/v1.rs and checkpoint/types.rs give the outbox. A counter
-- (format1/counter.rs) is a number without a bound, which the JSON holds as its canonical decimal. `V`
-- is the type of payloads, `R` what a receipt holds besides its sequence, and `M` the members of a
-- checkpoint that no function of this part reads.
use determa_state_rust.Prelude.{
  ◌==◌, ℕ, String, Option, List, Bool, true, false, str_eq, ◌≡◌, ap, refl, eq_iff, arith,
  if◌then◌else◌, ◌⊎◌, inl, inr,
}

pub record OutboxIntent (V : Type 0) : Type 0 where
  pub effect_id : String
  pub sequence : ℕ
  pub event : String
  pub payload : V
  pub correlation_id : Option String

pub data PendingOutboxState : Type 0 where
  not_attempted : PendingOutboxState
  retryable_failure : String → PendingOutboxState
  ambiguous : String → PendingOutboxState

pub data TerminalOutboxOutcome : Type 0 where
  confirmed : TerminalOutboxOutcome
  permanently_rejected : String → TerminalOutboxOutcome
  operator_cancelled : String → TerminalOutboxOutcome
  discarded : String → TerminalOutboxOutcome
  dead_lettered : String → TerminalOutboxOutcome

-- Equality of the JSON that a delivery state is written as.
pub state_eq : PendingOutboxState → PendingOutboxState → Bool
state_eq not_attempted not_attempted = true
state_eq (retryable_failure a) (retryable_failure b) = str_eq a b
state_eq (ambiguous a) (ambiguous b) = str_eq a b
state_eq _ _ = false

-- Equality of the JSON that an outcome is written as.
unfoldable pub outcome_eq : TerminalOutboxOutcome → TerminalOutboxOutcome → Bool
outcome_eq confirmed confirmed = true
outcome_eq (permanently_rejected a) (permanently_rejected b) = str_eq a b
outcome_eq (operator_cancelled a) (operator_cancelled b) = str_eq a b
outcome_eq (discarded a) (discarded b) = str_eq a b
outcome_eq (dead_lettered a) (dead_lettered b) = str_eq a b
outcome_eq _ _ = false

pub record PendingRecord (V : Type 0) : Type 0 where
  pub intent : OutboxIntent V
  pub delivery_state : PendingOutboxState
  pub state_revision : ℕ

pub record TerminalRecord (V : Type 0) : Type 0 where
  pub terminal_sequence : ℕ
  pub intent : OutboxIntent V
  pub committed_revision : ℕ
  pub outcome : TerminalOutboxOutcome

pub record EffectTombstone : Type 0 where
  pub terminal_sequence : ℕ
  pub effect_id : String
  pub intent_digest : String
  pub committed_revision : ℕ
  pub outcome : TerminalOutboxOutcome

-- An entry of a receipt's `emission_references`; a receipt without that member has none.
pub data EmissionReference : Type 0 where
  internal_mailbox : ℕ → String → ℕ → ℕ → EmissionReference
  internal_terminal : ℕ → String → ℕ → ℕ → EmissionReference
  external_outbox : ℕ → String → EmissionReference

pub record Receipt (R : Type 0) : Type 0 where
  pub receipt_sequence : ℕ
  pub emission_references : List EmissionReference
  pub receipt : R

-- A checkpoint without its digest.
pub record Unsigned (V R M : Type 0) : Type 0 where
  pub root_instance_id : String
  pub revision : ℕ
  pub next_outbox_terminal_sequence : ℕ
  pub pending_outbox_intents : List (PendingRecord V)
  pub terminal_outbox_records : List (TerminalRecord V)
  pub outbox_effect_tombstones : List EffectTombstone
  pub operation_receipts : List (Receipt R)
  pub members : M

pub record ExecutionCheckpoint (V R M : Type 0) : Type 0 where
  pub value : Unsigned V R M
  pub execution_checkpoint_digest : String

pub record ArtifactError : Type 0 where
  pub code : String
  pub message : String

-- `Result<A, ArtifactError>`
pub data Artifact (A : Type 0) : Type 0 where
  ok : A → Artifact A
  err : ArtifactError → Artifact A

infixl 20 ◌>>=◌
abbrev pub ◌>>=◌ : {A B : Type 0} → Artifact A → (A → Artifact B) → Artifact B
ok a >>= f = f a
err e >>= f = err e

abbrev pub failure : {A : Type 0} → String → Artifact A
failure code = err (record { code = code; message = "checkpoint operation was rejected" })

-- The JSON array that an intent's digest is taken of; an intent is written as the same object wherever
-- it is written.
pub record IntentArray (V : Type 0) : Type 0 where
  pub tag : String
  pub version : String
  pub root_instance_id : String
  pub intent : OutboxIntent V

-- What a digest is computed with: `serde_json_canonicalizer::to_vec`, none where it fails, and the text
-- `sha256:` with the hexadecimal digits of `Sha256::digest`.
pub record Hashing (V : Type 0) : Type 0 where
  pub to_vec : IntentArray V → Option (List ℕ)
  pub sha256_text : List ℕ → String

-- The text of an expected revision: the decimal that a counter is written as, or any other text.
pub data RevisionText : Type 0 where
  decimal : ℕ → RevisionText
  other_text : RevisionText

-- The stored revision is written as a decimal.
abbrev pub spells : RevisionText → ℕ → Bool
spells (decimal n) revision = n == revision
spells other_text revision = false

-- What a chain went through, if it succeeded.
pub bind-ok :
    {A B : Type 0} (a : Artifact A) (f : A → Artifact B) (b : B)
    → (a >>= f) ≡ ok b
    → (x : A) × (a ≡ ok x) × (f x ≡ ok b)
bind-ok (ok x) f b h = (x, refl, h)
bind-ok (err e) f b h = cc

pub state_eq_refl : (s : PendingOutboxState) → state_eq s s ≡ true
unfolding state_eq
state_eq_refl not_attempted = refl
state_eq_refl (retryable_failure a) = ground (arith, eq_iff a a)
state_eq_refl (ambiguous a) = ground (arith, eq_iff a a)

pub outcome_eq_refl : (o : TerminalOutboxOutcome) → outcome_eq o o ≡ true
unfolding outcome_eq
outcome_eq_refl confirmed = refl
outcome_eq_refl (permanently_rejected a) = ground (arith, eq_iff a a)
outcome_eq_refl (operator_cancelled a) = ground (arith, eq_iff a a)
outcome_eq_refl (discarded a) = ground (arith, eq_iff a a)
outcome_eq_refl (dead_lettered a) = ground (arith, eq_iff a a)

pub if-ok :
    {A : Type 0} (b : Bool) (x y : Artifact A) (z : A)
    → (if b then x else y) ≡ ok z
    → ((b ≡ true) × (x ≡ ok z)) ⊎ ((b ≡ false) × (y ≡ ok z))
if-ok true x y z h = inl (refl, h)
if-ok false x y z h = inr (refl, h)

pub eq-of-outcome_eq : (a b : TerminalOutboxOutcome) → outcome_eq a b ≡ true → a ≡ b
unfolding outcome_eq
eq-of-outcome_eq confirmed confirmed h = refl
eq-of-outcome_eq confirmed (permanently_rejected y) h = cc
eq-of-outcome_eq confirmed (operator_cancelled y) h = cc
eq-of-outcome_eq confirmed (discarded y) h = cc
eq-of-outcome_eq confirmed (dead_lettered y) h = cc
eq-of-outcome_eq (permanently_rejected x) confirmed h = cc
eq-of-outcome_eq (permanently_rejected x) (permanently_rejected y) h =
    ap permanently_rejected ((eq_iff x y).0 h)
eq-of-outcome_eq (permanently_rejected x) (operator_cancelled y) h = cc
eq-of-outcome_eq (permanently_rejected x) (discarded y) h = cc
eq-of-outcome_eq (permanently_rejected x) (dead_lettered y) h = cc
eq-of-outcome_eq (operator_cancelled x) confirmed h = cc
eq-of-outcome_eq (operator_cancelled x) (permanently_rejected y) h = cc
eq-of-outcome_eq (operator_cancelled x) (operator_cancelled y) h =
    ap operator_cancelled ((eq_iff x y).0 h)
eq-of-outcome_eq (operator_cancelled x) (discarded y) h = cc
eq-of-outcome_eq (operator_cancelled x) (dead_lettered y) h = cc
eq-of-outcome_eq (discarded x) confirmed h = cc
eq-of-outcome_eq (discarded x) (permanently_rejected y) h = cc
eq-of-outcome_eq (discarded x) (operator_cancelled y) h = cc
eq-of-outcome_eq (discarded x) (discarded y) h = ap discarded ((eq_iff x y).0 h)
eq-of-outcome_eq (discarded x) (dead_lettered y) h = cc
eq-of-outcome_eq (dead_lettered x) confirmed h = cc
eq-of-outcome_eq (dead_lettered x) (permanently_rejected y) h = cc
eq-of-outcome_eq (dead_lettered x) (operator_cancelled y) h = cc
eq-of-outcome_eq (dead_lettered x) (discarded y) h = cc
eq-of-outcome_eq (dead_lettered x) (dead_lettered y) h = ap dead_lettered ((eq_iff x y).0 h)
