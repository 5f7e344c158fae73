-- ===== src/Task/Codec.antt =====
-- `Marshal` and `Unmarshal` of task/task.go, with what `encoding/json` does for the fields of a
-- task: `omitempty`, repeated and unknown keys, null, mismatched types, 64-bit range.
pub mod RoundTrip
use Prim.Native.String.{String}
use forge_task_queue.Common.{
  ℕ, ◌≤◌, ◌≡◌, Bool, true, false, Option, none, some, leb, ◌==◌, if◌then◌else◌,
}
use forge_task_queue.Common.Int.{ℤ, pos, negsuc, max_int, IsInt64}
use forge_task_queue.Task.Defs.{Task, Result, ok, err}
use forge_task_queue.Task.Json.{
  Json, null, int, str, obj, Members, end, member, JsonText, valid, invalid, key_matches,
}

-- Package time, for the RFC 3339 text of an instant: `write` has no text for a year after 9999, and
-- `read` none for a text in another form.
pub record TimeFormat : Type 0 where
  pub zero_time : ℕ
  pub write : ℕ → Option String
  pub read : String → Option ℕ

-- What is written can be read back.
abbrev pub IsTimeFormat : TimeFormat → Type 0
IsTimeFormat times = (i : ℕ) (s : String) → times.write i ≡ some s → times.read s ≡ some i

-- A member that is left out where its text is empty.
abbrev str_omitempty : String → String → Members → Members
str_omitempty key s rest = if s == "" then rest else member key (str s) rest

abbrev int_omitempty : String → Option ℤ → Members → Members
int_omitempty key none rest = rest
int_omitempty key (some z) rest = member key (int z) rest

-- A nil `json.RawMessage` is written as null, and one that is no JSON value is an error.
abbrev raw_json : Option JsonText → Option Json
raw_json none = some null
raw_json (some (valid j)) = some j
raw_json (some (invalid _)) = none

-- The members in the order of the struct's fields.
members : Task → Json → String → Members
members t raw created = member "id" (str t.id) (
    member "type" (str t.type) (
      member "payload" raw (
        member "created_at" (str created) (
          member "max_retries" (int t.max_retries) (
            member "current_retries" (int t.current_retries) (
              str_omitempty "error" t.error (
                str_omitempty "idempotency_key" t.idempotency_key (
                  str_omitempty "priority" t.priority
                    (int_omitempty "timeout" t.timeout end)))))))))

-- The fields that a key of the input can name.
pub data Field : Type 0 where
  id type payload created_at max_retries current_retries error idempotency_key : Field
  priority timeout : Field

-- `time.Time` is a struct with its own decoder.
field_of : String → Option Field
unfolding key_matches
field_of key =
    if key_matches key "id"
    then some id
    else if key_matches key "type"
    then some type
    else if key_matches key "payload"
    then some payload
    else if key_matches key "created_at"
    then some created_at
    else if key_matches key "max_retries"
    then some max_retries
    else if key_matches key "current_retries"
    then some current_retries
    else if key_matches key "error"
    then some error
    else if key_matches key "idempotency_key"
    then some idempotency_key
    else if key_matches key "priority"
    then some priority
    else if key_matches key "timeout"
    then some timeout
    else none

-- A JSON number into an `int`: 64 bits, else an error.
abbrev in_range : ℤ → Bool
in_range (pos n) = leb n max_int
in_range (negsuc n) = leb n max_int

-- A value into a field that holds `old`: null changes nothing, another type is an error.
abbrev read_str : Json → String → Option String
read_str null old = some old
read_str (str s) old = some s
read_str _ old = none

abbrev read_int : Json → ℤ → Option ℤ
read_int null old = some old
read_int (int z) old = if in_range z then some z else none
read_int _ old = none

-- Null into a pointer makes it nil.
abbrev read_timeout : Json → Option (Option ℤ)
read_timeout null = some none
read_timeout (int z) = if in_range z then some (some z) else none
read_timeout _ = none

infixl 5 ◌>>=◌
abbrev ◌>>=◌ : {A B : Type 0} → Option A → (A → Option B) → Option B
none >>= k = none
some a >>= k = k a

module _ ⦃times : TimeFormat⦄ where
  -- `Marshal`. The messages are shortened: the program only logs them.
  unfoldable pub marshal : Task → Result JsonText
  unfolding members
  marshal t = elim (raw_json t.payload) [
    | none ↦ err "json: error calling MarshalJSON for type json.RawMessage"
    | some raw ↦ elim (times.write t.created_at) [
      | none ↦ err "json: error calling MarshalJSON for type time.Time"
      | some created ↦ ok (valid (obj (members t raw created)))
    ]
  ]

  abbrev read_time : Json → ℕ → Option ℕ
  read_time null old = some old
  read_time (str s) old = times.read s
  read_time _ old = none

  -- One member of the input, stored into the field that its key names.
  store_field : Field → Json → Task → Option Task
  store_field id j t = do s ← read_str j t.id; some (record t { id = s })
  store_field type j t = do s ← read_str j t.type; some (record t { type = s })
  store_field payload j t = some (record t { payload = some (valid j) })
  store_field created_at j t = do i ← read_time j t.created_at; some (record t { created_at = i })
  store_field max_retries j t = do z ← read_int j t.max_retries; some (record t { max_retries = z })
  store_field current_retries j t = do
    z ← read_int j t.current_retries
    some (record t { current_retries = z })
  store_field error j t = do s ← read_str j t.error; some (record t { error = s })
  store_field idempotency_key j t = do
    s ← read_str j t.idempotency_key
    some (record t { idempotency_key = s })
  store_field priority j t = do s ← read_str j t.priority; some (record t { priority = s })
  store_field timeout j t = do z ← read_timeout j; some (record t { timeout = z })

  -- Unknown keys are skipped.
  store_member : String → Json → Task → Option Task
  unfolding field_of store_field
  store_member key j t = elim (field_of key) [ none ↦ some t | some f ↦ store_field f j t ]

  store_members : Members → Task → Option Task
  unfolding store_member
  store_members end t = some t
  store_members (member key j rest) t = do t' ← store_member key j t; store_members rest t'

  -- `var t Task`
  abbrev pub zero_task : Task
  zero_task = record {
    id = "";
    type = "";
    payload = none;
    created_at = times.zero_time;
    max_retries = pos 0;
    current_retries = pos 0;
    error = "";
    idempotency_key = "";
    priority = "";
    timeout = none;
  }

  -- `Unmarshal`; `none` is an error. The literal null is accepted, and leaves the zero task.
  unfoldable pub unmarshal : JsonText → Option Task
  unfolding store_members
  unmarshal (invalid _) = none
  unmarshal (valid null) = some zero_task
  unmarshal (valid (obj ms)) = store_members ms zero_task
  unmarshal (valid _) = none
