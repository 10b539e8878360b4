-- ===== src/Operations/Dispatch/State.antt =====
-- The state of `dispatch`: the journal's commits, the slots, and the calls under way
-- (src/aurora_bot/operations/registry.py).
use aurora_bot.Prelude.{
  ℕ, String, Bool, true, false, ◌&&◌, Option, none, some, List, [], ◌∷◌, Eq, ◌==◌, string_eq,
  nat_eq, Result, if◌then◌else◌,
}
use aurora_bot.Prelude.Dict
use aurora_bot.Prelude.Dict.{Dict}
use aurora_bot.Resources.Keys.{ResourceKey, ResourceRef, key_eq, ref_eq, option_eq}
use aurora_bot.Operations.Definitions.{
  OperationDefinition, OperationRequest, OperationResult, OperationStatus, RequestData, succeeded,
  failed, unknown,
}
use aurora_bot.Operations.Registry.{Schemas, Refusal}

-- The commit `{identity}:requested`; the kind and the target make its summary.
pub record RequestFact (P : Type 0) : Type 0 where
  pub source : String
  pub kind : String
  pub target : ResourceKey
  pub request : P
  pub resolved : Option ResourceRef

-- The commit `{identity}:result`; the status makes its kind, the target its summary.
pub record ResultFact (P : Type 0) : Type 0 where
  pub status : OperationStatus
  pub target : ResourceKey
  pub content : P

-- _RequestSlot: the lock is held exactly while there is an owner
pub record RequestSlot : Type 0 where
  pub users : ℕ
  pub owner : Option ℕ

-- What the parts that dispatch uses are given as.
pub record Services (J I P : Type 0) : Type 0 where
  pub schemas : Schemas J
  pub identity : String → String → String → String
  pub encode_request : OperationRequest J → P
  pub decode_request : P → Option (RequestData J)
  pub encode_result : OperationRequest J → OperationResult J I → P × Option I
  pub decode_result : P → Option (OperationResult J I)
  -- the messages of the results that the registry makes itself
  pub failure_text : String → String
  pub refusal_text : Refusal → String
  pub no_content : J

-- Where a call stands: what it does when its `await` returns.
pub data Stage (J I P : Type 0) : Type 0 where
  queued checking : Stage J I P
  comparing : RequestFact P → Stage J I P
  looking : RequestFact P → Stage J I P
  decoding : P → Stage J I P
  recording : Result Refusal (OperationDefinition J) → Stage J I P
  starting : OperationDefinition J → Stage J I P
  handling : OperationDefinition J → Stage J I P
  reporting : OperationResult J I → Stage J I P

pub record Call (J I P : Type 0) : Type 0 where
  pub task : ℕ
  pub request : OperationRequest J
  pub stage : Stage J I P

-- The journal, and as a history the handlers begun, each with the identity of the request.
pub record Journal (J P : Type 0) : Type 0 where
  pub requested : Dict String (RequestFact P)
  pub results : Dict String (ResultFact P)
  pub begun : List (String × OperationDefinition J)

-- The answers given are a history too.
pub record System (J I P : Type 0) : Type 0 where
  pub journal : Journal J P
  pub slots : Dict String RequestSlot
  pub calls : List (Call J I P)
  pub answered : List (String × OperationResult J I)

-- How a handler ends: with a result, or by an exception (a time limit that is met, and what is no
-- result, are exceptions too).
pub data Reply (J I : Type 0) : Type 0 where
  replied : OperationResult J I → Reply J I
  raised : String → Reply J I

-- What a call meets when it goes on.
pub record Reading (J I : Type 0) : Type 0 where
  pub now : ℕ
  pub reply : Reply J I

pub data Next (J I P : Type 0) : Type 0 where
  goes : Stage J I P → Journal J P → Next J I P
  returns : OperationResult J I → Journal J P → Next J I P
  raises : Journal J P → Next J I P

-- A task asks for a dispatch; a call's await returns; it raises or is cancelled; the process ends.
pub data Event (J I : Type 0) : Type 0 where
  arrive : ℕ → OperationRequest J → Event J I
  proceed : ℕ → Reading J I → Event J I
  lose : ℕ → Event J I
  restart : Event J I

-- append_commit: a known identity is accepted with the same content only
abbrev pub append_fact :
    {F : Type 0} → (F → F → Bool) → Dict String F → String → F → Option (Dict String F)
append_fact same d id fact = elim (Dict.get d id) [
  | none ↦ some (Dict.put d id fact)
  | some known ↦ if same known fact then some d else none
]

abbrev pub replace_at {ℓ} : {A : Type ℓ} → List A → ℕ → A → List A
replace_at [] i a = []
replace_at (x ∷ xs) ℕ.zero a = a ∷ xs
replace_at (x ∷ xs) (ℕ.suc i) a = x ∷ replace_at xs i a

abbrev pub remove_at {ℓ} : {A : Type ℓ} → List A → ℕ → List A
remove_at [] i = []
remove_at (x ∷ xs) ℕ.zero = xs
remove_at (x ∷ xs) (ℕ.suc i) = x ∷ remove_at xs i

abbrev pub status_test : OperationStatus → OperationStatus → Bool
status_test succeeded succeeded = true
status_test failed failed = true
status_test unknown unknown = true
status_test _ _ = false

-- The comparison of a stored commit with a new one.
module _ {P : Type 0} ⦃p : Eq P⦄ where
  unfoldable pub same_request_fact : RequestFact P → RequestFact P → Bool
  same_request_fact a b =
      a.source == b.source
      && a.kind == b.kind
      && a.target == b.target
      && a.request == b.request
      && a.resolved == b.resolved

  unfoldable pub same_result_fact : ResultFact P → ResultFact P → Bool
  same_result_fact a b =
      status_test a.status b.status && a.target == b.target && a.content == b.content

-- A system with an empty journal, in which no call is under way.
abbrev pub idle : {J I P : Type 0} → System J I P
idle = record {
  journal = record { requested = []; results = []; begun = [] };
  slots = [];
  calls = [];
  answered = [];
}
