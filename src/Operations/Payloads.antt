-- ===== src/Operations/Payloads.antt =====
-- The bodies of requests and results, kept in the journal or, where they are long, in the artifact
-- store (src/aurora_bot/operations/payloads.py, src/aurora_bot/contracts/artifact.py). Bytes are
-- numbers. The JSON library and the store are parameters; the loop that reads a stored body has
-- fuel, one unit for each byte, which is enough since every accepted chunk has a byte.
use aurora_bot.Prelude.{
  ℕ, zero, suc, ◌+◌, String, Bool, true, false, not, ◌&&◌, ◌||◌, Option, none, some, List, [], ◌∷◌,
  ◌++◌, ◌==◌, string_eq, nat_eq, Result, ok, err, length, is_empty, ltb, if◌then◌else◌, ◌≡◌, ◌↔◌,
  eq_iff, nat_beq_iff, arith,
}
use aurora_bot.Resources.Keys.{ResourceKey, ResourceRef, ref_eq, ref_test_iff}

abbrev pub Bytes : Type 0
Bytes = List ℕ

-- MAX_ARTIFACT_CHUNK
abbrev pub max_artifact_chunk : ℕ
max_artifact_chunk = 1048576

-- ArtifactInfo
pub record ArtifactInfo : Type 0 where
  pub ref : ResourceRef
  pub size : ℕ
  pub media_type : String

-- ArtifactChunk
pub record ArtifactChunk : Type 0 where
  pub info : ArtifactInfo
  pub offset : ℕ
  pub content : Bytes

-- The calls of an artifact store; a read that raises gives nothing.
pub record ArtifactStore : Type 0 where
  pub put_stream : ResourceKey → Bytes → String → ArtifactInfo
  pub read : ResourceRef → ℕ → ℕ → Option ArtifactChunk

-- json_bytes and _decode, for objects of a type
pub record Json (D : Type 0) : Type 0 where
  pub json_bytes : D → List Bytes
  pub parse : Bytes → Option D

-- What a body is kept as.
pub data Body (D : Type 0) : Type 0 where
  inline : D → Body D
  stored : ArtifactInfo → Body D

pub data PayloadError : Type 0 where
  not_an_object no_store wrong_media_type broken_chunk unreadable out_of_fuel : PayloadError

pub data Prepared : Type 0 where
  short : Bytes → Prepared
  long : List Bytes → Prepared

abbrev pub concat : List Bytes → Bytes
concat [] = []
concat (c ∷ cs) = c ++ concat cs

-- _prepare: the loop over the chunks
unfoldable pub prepare : ℕ → Bytes → List Bytes → Prepared
prepare limit prefix [] = short prefix
prepare limit prefix (c ∷ cs) =
    let rest = prepare limit (prefix ++ c) cs in
    if ltb limit (length prefix + length c) then long (prefix ∷ c ∷ cs) else rest

pub info_test : ArtifactInfo → ArtifactInfo → Bool
info_test a b = a.ref == b.ref && a.size == b.size && a.media_type == b.media_type

pub info_test_iff : (a b : ArtifactInfo) → (info_test a b ≡ true) ↔ (a ≡ b)
unfolding info_test
info_test_iff a b =
    ground
      (arith, ref_test_iff a.ref b.ref, nat_beq_iff a.size b.size, eq_iff a.media_type b.media_type)

-- the body of the loop of load: what a read adds, and why it is refused
abbrev pub accepted : ArtifactInfo → Bytes → Option ArtifactChunk → Result PayloadError Bytes
accepted info payload none = err unreadable
accepted info payload (some chunk) =
    if not (info_test chunk.info info)
      || not (chunk.offset == length payload)
      || is_empty chunk.content
    then err broken_chunk
    else ok (payload ++ chunk.content)

-- the loop of load
unfoldable pub load_loop : ArtifactStore → ℕ → ArtifactInfo → ℕ → Bytes → Result PayloadError Bytes
load_loop artifacts limit info zero payload =
    if ltb (length payload) info.size then err out_of_fuel else ok payload
load_loop artifacts limit info (suc fuel) payload = elim (ltb (length payload) info.size) [
  | true ↦ elim (accepted info payload (artifacts.read info.ref (length payload) limit)) [
    | err e ↦ err e
    | ok payload' ↦ load_loop artifacts limit info fuel payload'
  ]
  | false ↦ ok payload
]

module _ {D : Type 0} (json : Json D) where
  abbrev pub decode : Option D → Result PayloadError D
  decode none = err not_an_object
  decode (some d) = ok d

  abbrev pub saved : Option D → Result PayloadError (Body D)
  saved none = err not_an_object
  saved (some d) = ok (inline d)

  abbrev pub save_prepared :
      ArtifactStore → ResourceKey → String → Prepared → Result PayloadError (Body D)
  save_prepared artifacts key media_type (short prefix) = saved (json.parse prefix)
  save_prepared artifacts key media_type (long chunks) =
      ok (stored (artifacts.put_stream key (concat chunks) media_type))

  -- OperationPayloads.save
  unfoldable pub save :
      Option ArtifactStore → ℕ → ResourceKey → D → String → Result PayloadError (Body D)
  save none inline_bytes key payload media_type = ok (inline payload)
  save (some artifacts) inline_bytes key payload media_type =
      save_prepared artifacts key media_type (prepare inline_bytes [] (json.json_bytes payload))

  abbrev pub loaded : Result PayloadError Bytes → Result PayloadError D
  loaded (err e) = err e
  loaded (ok payload) = decode (json.parse payload)

  -- OperationPayloads.load
  unfoldable pub load : Option ArtifactStore → ArtifactInfo → String → Result PayloadError D
  unfolding load_loop
  load none info media_type = err no_store
  load (some artifacts) info media_type =
      if not (info.media_type == media_type)
      then err wrong_media_type
      else loaded (load_loop artifacts max_artifact_chunk info info.size [])
