-- ===== src/Task/Codec/RoundTrip.antt =====
-- Decoding an encoded task, and the range of what is decoded.
use Prim.Native.String.{String}
use forge_task_queue.Common.{
  ◌≡◌, refl, ◌↔◌, inl, inr, ◌≢◌, Option, none, some, arith, eq_iff, Option-cases,
}
use forge_task_queue.Common.Int.{ℤ, IsInt64}
use forge_task_queue.Task.Defs.{Task, ok}
use forge_task_queue.Task.Json.{Json, null, obj, Members, end, member, JsonText, valid, invalid}
use forge_task_queue.Task.Codec.{
  TimeFormat, IsTimeFormat, members, marshal, unmarshal, store_field, store_member, store_members,
  field_of, zero_task, raw_json, Field,
}

-- A nil payload comes back as the text null.
abbrev pub decoded_payload : Option JsonText → Option JsonText
decoded_payload none = some (valid null)
decoded_payload (some p) = some p

abbrev pub IsInt64? : Option ℤ → Type 0
IsInt64? none = Unit
IsInt64? (some z) = IsInt64 z

-- The numbers of the task are those of a 64-bit program.
pub record IsSized (t : Task) : Type 0 where
  pub max_retries : IsInt64 t.max_retries
  pub current_retries : IsInt64 t.current_retries
  pub timeout : IsInt64? t.timeout

-- What can be encoded: the payload is no invalid text, and the instant has a text.
abbrev pub IsEncodable : TimeFormat → Task → Type 0
IsEncodable times t =
    ((s : String) → t.payload ≢ some (invalid s)) × (times.write t.created_at ≢ none)

raw_json-none :
    (p : Option JsonText) → raw_json p ≡ none → ((s : String) → p ≢ some (invalid s)) → ⊥
raw_json-none none e h = cc
raw_json-none (some (valid j)) e h = cc
raw_json-none (some (invalid s)) e h = h s refl

module _ ⦃times : TimeFormat⦄ where
  store-members :
      (t : Task) (raw : Json) (created : String)
      → times.read created ≡ some t.created_at
      → IsSized t
      → store_members (members t raw created) zero_task
        ≡ some (record t { payload = some (valid raw) })
  unfolding members store_members store_field
  store-members t raw created h s =
      ground (arith, eq_iff t.error "", eq_iff t.idempotency_key "", eq_iff t.priority "")

  -- A task that is encoded to a text is decoded from it unchanged, but that a nil payload comes
  -- back as null, if instants are read back as they were written and the task's numbers have 64
  -- bits.
  pub unmarshal-marshal :
      (t : Task) (text : JsonText)
      → IsTimeFormat times
      → IsSized t
      → marshal t ≡ ok text
      → unmarshal text ≡ some (record t { payload = decoded_payload t.payload })
  unfolding marshal unmarshal
  unmarshal-marshal t text law sized e = elim (Option-cases (raw_json t.payload)) [
    | inl bad ↦ ground arith
    | inr (raw, fine) ↦ elim (Option-cases (times.write t.created_at)) [
      | inl late ↦ ground arith
      | inr (created, written) ↦
          ground (arith, store-members t raw created (law t.created_at created written) sized)
    ]
  ]

  -- Encoding succeeds exactly for the tasks whose payload is no invalid text and whose instant has
  -- a text.
  pub marshal-total : (t : Task) → ((text : JsonText) × (marshal t ≡ ok text)) ↔ IsEncodable times t
  unfolding marshal
  marshal-total t = (
    (λ e. (λ s p. ground arith, λ p. ground arith)),
    (λ h. elim (Option-cases (raw_json t.payload)) [
      | inl bad ↦ absurd (raw_json-none t.payload bad h.0)
      | inr (raw, fine) ↦ elim (Option-cases (times.write t.created_at)) [
        | inl late ↦ absurd (h.1 late)
        | inr (created, written) ↦ (valid (obj (members t raw created)), ground arith)
      ]
    ]),
  )

  store_field-IsSized :
      (f : Field) (j : Json) (t u : Task) → IsSized t → store_field f j t ≡ some u → IsSized u
  unfolding store_field
  store_field-IsSized Field.id j t u s e = ground arith
  store_field-IsSized _ j t u s e = ground arith

  store_field-valid :
      (f : Field) (j : Json) (t u : Task)
      → ((s : String) → t.payload ≢ some (invalid s))
      → store_field f j t ≡ some u
      → (s : String) → u.payload ≢ some (invalid s)
  unfolding store_field
  store_field-valid Field.payload j t u h e s = ground arith
  store_field-valid _ j t u h e s = ground (arith, h s)

  -- What every field keeps, a whole object keeps.
  module _ (P : Task → Type 0)
      (field_keeps : (f : Field) (j : Json) (t u : Task)
        → P t
        → store_field f j t ≡ some u
        → P u) where
    store_member_keeps :
        (key : String) (j : Json) (t u : Task) → P t → store_member key j t ≡ some u → P u
    unfolding store_member
    store_member_keeps key j t u p e = elim (Option-cases (field_of key)) [
      | inl unknown ↦ ground (arith, p)
      | inr (f, known) ↦ field_keeps f j t u p (ground arith)
    ]

    store_members_keep : (ms : Members) (t u : Task) → P t → store_members ms t ≡ some u → P u
    unfolding store_members
    store_members_keep end t u p e = ground (arith, p)
    store_members_keep (member key j rest) t u p e = elim (Option-cases (store_member key j t)) [
      | inl bad ↦ ground arith
      | inr (v, fine) ↦
          store_members_keep rest v u (store_member_keeps key j t v p fine) (ground arith)
    ]

    unmarshal_keeps : P zero_task → (text : JsonText) (t : Task) → unmarshal text ≡ some t → P t
    unfolding unmarshal
    unmarshal_keeps p (invalid s) t e = cc
    unmarshal_keeps p (valid null) t e = ground (arith, p)
    unmarshal_keeps p (valid (obj ms)) t e = store_members_keep ms zero_task t p e
    unmarshal_keeps p (valid j) t e = cc

  pub unmarshal-IsSized : (text : JsonText) (t : Task) → unmarshal text ≡ some t → IsSized t
  unmarshal-IsSized = unmarshal_keeps IsSized store_field-IsSized (omega arith)

  unmarshal-valid :
      (text : JsonText) (t : Task)
      → unmarshal text ≡ some t
      → (s : String) → t.payload ≢ some (invalid s)
  unmarshal-valid =
      unmarshal_keeps (λ t. (s : String) → t.payload ≢ some (invalid s)) store_field-valid
        (λ s e. cc)

  -- A task that is decoded from any text has numbers of 64 bits, is encoded again without an error,
  -- and is decoded from that text unchanged, but that a nil payload comes back as null: if its
  -- instant has a text and instants are read back as written.
  pub decoded_again :
      (text : JsonText) (t : Task)
      → IsTimeFormat times
      → unmarshal text ≡ some t
      → times.write t.created_at ≢ none
      → IsSized t
        × ((again : JsonText) × (marshal t ≡ ok again)
            × (unmarshal again ≡ some (record t { payload = decoded_payload t.payload })))
  decoded_again text t law e timely =
      let sized = unmarshal-IsSized text t e in
      let (again, encoded) = (marshal-total t).1 (unmarshal-valid text t e, timely) in
      (sized, (again, encoded, unmarshal-marshal t again law sized encoded))

pub decoded-valid :
    (p : Option JsonText)
    → ((s : String) → p ≢ some (invalid s))
    → (s : String) → decoded_payload p ≢ some (invalid s)
decoded-valid none h s e = cc
decoded-valid (some p) h s e = h s e
