-- ===== src/Store/Runs/Codec.antt =====
-- src/factory/infrastructure/persistence/run_sqlite.py: the column of a run's gates. The functions of
-- Python's `json` and `str` are parameters; a JSON value is what `json.loads` gives.
use ai_factory_lab.Common.{
  ℕ, String, ◌≡◌, refl, Bool, true, false, not, Option, none, some, List, [], ◌∷◌, ◌==◌, nat_eq,
  string_eq, if◌then◌else◌,
}
use ai_factory_lab.Domain.Enums.{QualityGateStatus}
use ai_factory_lab.Domain.Models.{QualityGate}
use ai_factory_lab.Domain.Values.{
  gate_status_value, gate_status_of, gate_status_of-gate_status_value,
}
use ai_factory_lab.Domain.Errors.{Result, ok, err, key_error, value_error}

mutual
  pub data Json : Type 0 where
    null : Json
    boolean : Bool → Json
    number : ℕ → Json
    text : String → Json
    array : JsonItems → Json
    object : JsonFields → Json

  pub data JsonItems : Type 0 where
    end_array : JsonItems
    item : Json → JsonItems → JsonItems

  pub data JsonFields : Type 0 where
    end_object : JsonFields
    field : String → Json → JsonFields → JsonFields

unfoldable pub detail_json : Option String → Json
detail_json none = null
detail_json (some detail) = text detail

unfoldable pub gate_json : QualityGate → Json
unfolding detail_json gate_status_value
gate_json gate = object (
    field "name" (text gate.name) (
      field "status" (text (gate_status_value gate.status)) (
        field "detail" (detail_json gate.detail)
          (field "required" (boolean gate.required) end_object))))

unfoldable pub gate_items : List QualityGate → JsonItems
unfolding gate_json
gate_items [] = end_array
gate_items (gate ∷ gates) = item (gate_json gate) (gate_items gates)

-- `dict.get`
unfoldable pub get_field : String → JsonFields → Option Json
get_field key end_object = none
get_field key (field name value rest) = if name == key then some value else get_field key rest

-- `bool(value)` of a field, where a missing one counts as true
unfoldable pub is_required : Option Json → Bool
is_required none = true
is_required (some null) = false
is_required (some (boolean b)) = b
is_required (some (number n)) = not (n == 0)
is_required (some (text s)) = not (s == "")
is_required (some (array end_array)) = false
is_required (some (object end_object)) = false
is_required (some value) = true

-- A detail that is neither a text nor null is none of the model's, and is left out.
unfoldable pub detail_of : Option Json → Option String
detail_of (some (text s)) = some s
detail_of _ = none

module _ (str : Json → String) where
  unfoldable pub status_text : Option Json → String
  status_text none = "PENDING"
  status_text (some value) = str value

  -- An unknown status raises a `ValueError`.
  unfoldable pub with_status :
      String → Option Json → Option Json → Option QualityGateStatus → Result QualityGate
  unfolding is_required detail_of
  with_status name detail required none = err value_error
  with_status name detail required (some status) = ok (record {
    name = name;
    status = status;
    detail = detail_of detail;
    required = is_required required;
  })

  -- The fields of one gate; a missing name raises a `KeyError`.
  unfoldable pub decode_named : Option Json → JsonFields → Result QualityGate
  unfolding with_status get_field
  decode_named none fields = err (key_error "name")
  decode_named (some name) fields =
      with_status (str name) (get_field "detail" fields) (get_field "required" fields)
        (gate_status_of (status_text (get_field "status" fields)))

  unfoldable pub decode_gate : JsonFields → Result QualityGate
  unfolding decode_named get_field
  decode_gate fields = decode_named (get_field "name" fields) fields

  unfoldable pub add_gate :
      Result QualityGate → Result (List QualityGate) → Result (List QualityGate)
  add_gate (err e) rest = err e
  add_gate (ok gate) (err e) = err e
  add_gate (ok gate) (ok gates) = ok (gate ∷ gates)

  -- The loop; what is no object is skipped.
  unfoldable pub decode_items : JsonItems → Result (List QualityGate)
  unfolding decode_gate add_gate
  decode_items end_array = ok []
  decode_items (item (object fields) rest) = add_gate (decode_gate fields) (decode_items rest)
  decode_items (item value rest) = decode_items rest

  unfoldable pub decode_value : Option Json → Result (List QualityGate)
  unfolding decode_items
  decode_value (some (array items)) = decode_items items
  decode_value _ = ok []

-- `_encode_gates`
unfoldable pub encode_gates : (Json → String) → List QualityGate → String
unfolding gate_items
encode_gates dumps gates = dumps (array (gate_items gates))

-- `_decode_gates`; `loads` gives `none` for a text that is no JSON.
unfoldable pub decode_gates :
    (Json → String) → (String → Option Json) → String → Result (List QualityGate)
unfolding decode_value
decode_gates str loads raw = decode_value str (loads raw)

detail_of-detail_json : (detail : Option String) → detail_of (some (detail_json detail)) ≡ detail
unfolding detail_of detail_json
detail_of-detail_json none = refl
detail_of-detail_json (some detail) = refl

module _ (str : Json → String) (plain : (s : String) → str (text s) ≡ s) where
  decode_gate-gate_json :
      (gate : QualityGate)
      → decode_gate str (
          field "name" (text gate.name) (
            field "status" (text (gate_status_value gate.status)) (
              field "detail"
                (detail_json gate.detail)
                (field "required" (boolean gate.required) end_object))))
        ≡ ok gate
  unfolding decode_gate status_text is_required
  decode_gate-gate_json gate =
      rw
        (
          plain gate.name,
          plain (gate_status_value gate.status),
          gate_status_of-gate_status_value gate.status,
          detail_of-detail_json gate.detail,
        )
        refl

  decode_items-gate_items :
      (gates : List QualityGate) → decode_items str (gate_items gates) ≡ ok gates
  unfolding decode_items gate_items gate_json add_gate
  decode_items-gate_items [] = refl
  decode_items-gate_items (gate ∷ gates) =
      rw (decode_gate-gate_json gate, decode_items-gate_items gates) refl

-- The gates of a run come back from their column as they were written, in order, with their states,
-- details and required flags, where `json` reads back what it wrote and `str` leaves a text alone.
pub decode_gates-encode_gates :
    (str : Json → String) (dumps : Json → String) (loads : String → Option Json)
    (gates : List QualityGate)
    → ((s : String) → str (text s) ≡ s)
    → loads (dumps (array (gate_items gates))) ≡ some (array (gate_items gates))
    → decode_gates str loads (encode_gates dumps gates) ≡ ok gates
unfolding decode_gates encode_gates decode_value
decode_gates-encode_gates str dumps loads gates plain parsed =
    rw parsed (decode_items-gate_items str plain gates)
