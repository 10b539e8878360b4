-- ===== src/Operations/Stored.antt =====
-- A body that was saved is loaded again, and a load ends
-- (src/aurora_bot/operations/payloads.py).
use aurora_bot.Prelude.{
  ℕ, zero, suc, ◌+◌, ◌≤◌, ◌<◌, ◌≡◌, ◌≢◌, ◌∙◌, refl, ap, sym, String, false, Option, none, some,
  List, [], ◌∷◌, ◌++◌, append_assoc, append-nil, string_eq, nat_eq, Result, ok, err, length,
  length-append, take, drop, is_empty, arith, subst, inl, inr, eq_iff, Result-cases,
}
use aurora_bot.Resources.Keys.{ResourceKey}
use aurora_bot.Operations.Payloads.{
  Bytes, max_artifact_chunk, ArtifactInfo, ArtifactChunk, ArtifactStore, Json, Body, inline, stored,
  PayloadError, out_of_fuel, Prepared, short, long, concat, prepare, info_test_iff, accepted,
  load_loop, save, save_prepared, saved, load,
}
use aurora_bot.Operations.Wire.{IsInfo}

-- What is put has a valid description, is described by its length and its media type, and each read of it gives the bytes
-- from the offset on, at most as many as asked for.
pub record IsKept (artifacts : ArtifactStore) (key : ResourceKey) (content : Bytes)
    (media_type : String) : Type 0 where
  pub size-put : (artifacts.put_stream key content media_type).size ≡ length content
  pub info-put : IsInfo (artifacts.put_stream key content media_type)
  pub media_type-put : (artifacts.put_stream key content media_type).media_type ≡ media_type
  pub read-put :
      (front rest : Bytes) (limit : ℕ)
      → front ++ rest ≡ content
      → artifacts.read (artifacts.put_stream key content media_type).ref (length front) limit
        ≡ some (record {
          info = artifacts.put_stream key content media_type;
          offset = length front;
          content = take limit rest;
        })

prepare-concat :
    (limit : ℕ) (prefix : Bytes) (chunks : List Bytes) (b : Bytes)
    → prepare limit prefix chunks ≡ short b
    → b ≡ prefix ++ concat chunks
unfolding prepare
prepare-concat limit prefix [] b h = ground (arith, append-nil prefix)
prepare-concat limit prefix (c ∷ cs) b h =
    ground (arith, prepare-concat limit (prefix ++ c) cs b, append_assoc prefix c (concat cs))

prepare-long :
    (limit : ℕ) (prefix : Bytes) (chunks cs' : List Bytes)
    → prepare limit prefix chunks ≡ long cs'
    → concat cs' ≡ prefix ++ concat chunks
unfolding prepare
prepare-long limit prefix [] cs' h = absurd (cc)
prepare-long limit prefix (c ∷ cs) cs' h =
    ground (arith, prepare-long limit (prefix ++ c) cs cs', append_assoc prefix c (concat cs))

take-drop : (n : ℕ) (b : Bytes) → take n b ++ drop n b ≡ b
take-drop zero b = refl
take-drop (suc n) [] = refl
take-drop (suc n) (x ∷ b) = ap (◌∷◌ x) (take-drop n b)

length-drop_lt :
    (limit : ℕ) (x : ℕ) (b : Bytes) → 0 < limit → length (drop limit (x ∷ b)) ≤ length b
length-drop_lt zero x b h = absurd (omega arith)
length-drop_lt (suc limit) x b h = length-drop-le limit b
  where
    length-drop-le : (n : ℕ) (c : Bytes) → length (drop n c) ≤ length c
    length-drop-le zero c = omega arith
    length-drop-le (suc n) [] = omega arith
    length-drop-le (suc n) (y ∷ c) = omega (arith, length-drop-le n c)

is_empty-take : (limit : ℕ) (x : ℕ) (b : Bytes) → 0 < limit → is_empty (take limit (x ∷ b)) ≡ false
is_empty-take zero x b h = absurd (omega arith)
is_empty-take (suc limit) x b h = refl

-- An accepted chunk has a byte.
accepted-grows :
    (info : ArtifactInfo) (payload payload' : Bytes) (o : Option ArtifactChunk)
    → accepted info payload o ≡ ok payload'
    → length payload < length payload'
accepted-grows info payload payload' none h = absurd (cc)
accepted-grows info payload payload' (some chunk) h =
    ground (arith, length-append payload chunk.content, h)

accepted-not_out_of_fuel :
    (info : ArtifactInfo) (payload : Bytes) (o : Option ArtifactChunk) (e : PayloadError)
    → accepted info payload o ≡ err e
    → e ≢ out_of_fuel
accepted-not_out_of_fuel info payload none e h = ground arith
accepted-not_out_of_fuel info payload (some chunk) e h = ground arith

module _ (artifacts : ArtifactStore) (limit : ℕ) where
  -- The loop of a load ends for every store, whatever it answers.
  load_loop-ends :
      (info : ArtifactInfo) (fuel : ℕ) (payload : Bytes)
      → info.size ≤ length payload + fuel
      → load_loop artifacts limit info fuel payload ≢ err out_of_fuel
  unfolding load_loop
  load_loop-ends info zero payload h = ground arith
  load_loop-ends info (suc fuel) payload h =
      elim (Result-cases (accepted info payload (artifacts.read info.ref (length payload) limit))) [
        | inl (payload', a) ↦
            let longer = accepted-grows info payload payload' _ a in
            let rest = load_loop-ends info fuel payload' (omega arith) in ground (arith, a, rest)
        | inr (e, a) ↦
            let other = accepted-not_out_of_fuel info payload _ e a in ground (arith, a, other)
      ]

  module _ (key : ResourceKey) (content : Bytes) (media_type : String)
      (kept : IsKept artifacts key content media_type) (positive : 0 < limit) where
    load_loop-put :
        (fuel : ℕ) (front rest : Bytes)
        → front ++ rest ≡ content
        → length rest ≤ fuel
        → load_loop artifacts limit (artifacts.put_stream key content media_type) fuel front
          ≡ ok content
    unfolding load_loop
    load_loop-put zero front [] e h = ground (arith, kept.size-put, append-nil front, ap length e)
    load_loop-put zero front (x ∷ rest) e h = absurd (omega arith)
    load_loop-put (suc fuel) front [] e h =
        ground (arith, kept.size-put, append-nil front, ap length e)
    load_loop-put (suc fuel) front (x ∷ rest) e h =
        let info = artifacts.put_stream key content media_type in
        let whole =
          append_assoc front (take limit (x ∷ rest)) (drop limit (x ∷ rest))
          ∙ ap (◌++◌ front) (take-drop limit (x ∷ rest))
          ∙ e in
        let shorter = length-drop_lt limit x rest positive in
        ground (
          arith,
          load_loop-put fuel (front ++ take limit (x ∷ rest)) (drop limit (x ∷ rest)) whole
              (omega arith),
          kept.size-put,
          ap length e,
          length-append front (x ∷ rest),
          kept.read-put front (x ∷ rest) limit e,
          is_empty-take limit x rest positive,
          info_test_iff info info,
        )

-- The description of a body in the store is valid.
abbrev pub IsDescribed : {D : Type 0} → Body D → Type 0
IsDescribed (inline d) = Unit
IsDescribed (stored info) = IsInfo info

module _ {D : Type 0} (json : Json D) where
  -- For every store, whatever it answers, a load of a stored body ends.
  pub load-ends :
      (artifacts : Option ArtifactStore) (info : ArtifactInfo) (media_type : String)
      → load json artifacts info media_type ≢ err out_of_fuel
  unfolding load
  load-ends none info media_type = ground arith
  load-ends (some artifacts) info media_type =
      let ends = load_loop-ends artifacts max_artifact_chunk info info.size [] (omega arith) in
      elim (Result-cases (load_loop artifacts max_artifact_chunk info info.size [])) [
        | inl (b, e) ↦ ground (arith, e)
        | inr (x, e) ↦ ground (arith, e, ends)
      ]

  -- What is read back of a body.
  abbrev pub body_of : Option ArtifactStore → String → Body D → Result PayloadError D
  body_of artifacts media_type (inline d) = ok d
  body_of artifacts media_type (stored info) = load json artifacts info media_type

  module _ (d : D) (parses : json.parse (concat (json.json_bytes d)) ≡ some d) (key : ResourceKey)
      (media_type : String) where
    load_put :
        (artifacts : ArtifactStore)
        → IsKept artifacts key (concat (json.json_bytes d)) media_type
        → load json
            (some artifacts)
            (artifacts.put_stream key (concat (json.json_bytes d)) media_type)
            media_type
          ≡ ok d
    unfolding load
    load_put artifacts f =
        let bytes = concat (json.json_bytes d) in
        let info = artifacts.put_stream key bytes media_type in
        let enough = f.size-put in
        let looped =
          load_loop-put artifacts max_artifact_chunk key bytes media_type f (omega arith) info.size
            [] bytes refl (omega arith) in
        ground (arith, looped, f.media_type-put, eq_iff info.media_type media_type, parses)

    save_prepared-body :
        (artifacts : ArtifactStore)
        → IsKept artifacts key (concat (json.json_bytes d)) media_type
        → (prepared : Prepared) (limit : ℕ) → prepare limit [] (json.json_bytes d) ≡ prepared
        → (body : Body D) × (save_prepared json artifacts key media_type prepared ≡ ok body)
          × (body_of (some artifacts) media_type body ≡ ok d)
          × IsDescribed body
    save_prepared-body artifacts f (short b) limit h = (
      inline d,
      ap (saved json) (ap json.parse (prepare-concat limit [] (json.json_bytes d) b h) ∙ parses),
      refl,
      tt,
    )
    save_prepared-body artifacts f (long chunks) limit h = (
      stored (artifacts.put_stream key (concat chunks) media_type),
      refl,
      subst
          (λ (b : Bytes).
            load json (some artifacts) (artifacts.put_stream key b media_type) media_type ≡ ok d)
          (sym (prepare-long limit [] (json.json_bytes d) chunks h)) (load_put artifacts f),
      subst (λ (b : Bytes). IsInfo (artifacts.put_stream key b media_type))
          (sym (prepare-long limit [] (json.json_bytes d) chunks h)) f.info-put,
    )

    -- A body that is saved is read back as it was, inline or from the store.
    pub save-body :
        (artifacts : Option ArtifactStore)
        → ((a : ArtifactStore)
            → artifacts ≡ some a
            → IsKept a key (concat (json.json_bytes d)) media_type)
        → (limit : ℕ)
        → (body : Body D) × (save json artifacts limit key d media_type ≡ ok body)
          × (body_of artifacts media_type body ≡ ok d)
          × IsDescribed body
    unfolding save
    save-body none f limit = (inline d, refl, refl, tt)
    save-body (some a) f limit = save_prepared-body a (f a refl) _ limit refl
