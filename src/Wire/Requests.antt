-- ===== src/Wire/Requests.antt =====
-- src/types.cpp and src/types.hpp: the requests of the frontend on rules and labels, and the payload of a return, as JSON and back.
use snapback.Prelude.Text.{text_eq, codes}
use snapback.Wire.Json.{
  named, ◌>>=◌, Text, Codec, IsCodec, JsonLibrary, JsonLaws, put_opt, opt, get_or, enumeration, set,
}
use snapback.Wire.Laws.{enumeration-IsCodec, at_field, field, opt_field, opt_json, put_opt-object}
use snapback.Tracker.AppContext.{AppRuleKind, allow, block}
use snapback.Prelude.{ℕ, ◌≡◌, ap, refl, ◌∙◌, List, [], ◌∷◌, Option, some}

pub data FocusLabel : Type 0 where
  distracted pseudo_productive productive deep_focus : FocusLabel

unfoldable pub focus_label_name : FocusLabel → Text
focus_label_name distracted = codes "DISTRACTED"
focus_label_name pseudo_productive = codes "PSEUDO_PRODUCTIVE"
focus_label_name productive = codes "PRODUCTIVE"
focus_label_name deep_focus = codes "DEEP_FOCUS"

abbrev pub focus_labels : List (FocusLabel × Text)
focus_labels =
    (distracted, codes "DISTRACTED")
    ∷ (pseudo_productive, codes "PSEUDO_PRODUCTIVE")
    ∷ (productive, codes "PRODUCTIVE")
    ∷ (deep_focus, codes "DEEP_FOCUS")
    ∷ []

focus_label_named : (l : FocusLabel) → named focus_labels distracted (focus_label_name l) ≡ l
unfolding named focus_label_name text_eq
focus_label_named distracted = refl
focus_label_named pseudo_productive = refl
focus_label_named productive = refl
focus_label_named deep_focus = refl

abbrev pub label_codec : (L : JsonLibrary) → Codec L.Json FocusLabel
label_codec L = enumeration L focus_labels distracted focus_label_name

label-IsCodec : (L : JsonLibrary) → JsonLaws L → IsCodec L.is_null (label_codec L)
label-IsCodec L laws =
    enumeration-IsCodec L laws focus_labels distracted focus_label_name focus_label_named

unfoldable pub app_rule_kind_to_string : AppRuleKind → Text
app_rule_kind_to_string allow = codes "allow"
app_rule_kind_to_string block = codes "block"

abbrev pub rule_kinds : List (AppRuleKind × Text)
rule_kinds = (allow, codes "allow") ∷ (block, codes "block") ∷ []

rule_kind_named : (k : AppRuleKind) → named rule_kinds allow (app_rule_kind_to_string k) ≡ k
unfolding named app_rule_kind_to_string text_eq
rule_kind_named allow = refl
rule_kind_named block = refl

abbrev pub kind_codec : (L : JsonLibrary) → Codec L.Json AppRuleKind
kind_codec L = enumeration L rule_kinds allow app_rule_kind_to_string

kind-IsCodec : (L : JsonLibrary) → JsonLaws L → IsCodec L.is_null (kind_codec L)
kind-IsCodec L laws =
    enumeration-IsCodec L laws rule_kinds allow app_rule_kind_to_string rule_kind_named

pub record UpsertAppRuleRequest : Type 0 where
  pub pattern : Text
  pub rule_type : AppRuleKind
  pub note : Option Text

module _ (L : JsonLibrary) where
  unfoldable pub rule_request_to_json : UpsertAppRuleRequest → L.Json
  rule_request_to_json v =
      put_opt L L.text
        (L.object (
          ("pattern", L.text.write v.pattern)
          ∷ ("ruleType", (kind_codec L).write v.rule_type)
          ∷ []))
        "note" v.note

  unfoldable pub rule_request_from_json : L.Json → Option UpsertAppRuleRequest
  rule_request_from_json j = do
    pattern ← get_or L L.text j "pattern" (codes "")
    rule_type ← get_or L (kind_codec L) j "ruleType" allow
    note ← opt L L.text j "note"
    some (record { pattern = pattern; rule_type = rule_type; note = note })

  abbrev pub rule_request_codec : Codec L.Json UpsertAppRuleRequest
  rule_request_codec = record { write = rule_request_to_json; read = rule_request_from_json }

  module _ (laws : JsonLaws L) where
    rule_request_reads :
        (v : UpsertAppRuleRequest)
        → rule_request_from_json (
            L.object (
              set
                (("pattern", L.text.write v.pattern)
                  ∷ ("ruleType", (kind_codec L).write v.rule_type)
                  ∷ [])
                "note"
                (opt_json L laws L.text laws.text_law v.note)))
          ≡ some v
    unfolding rule_request_from_json
    rule_request_reads v = field L laws L.text laws.text_law _ "pattern" _ _ refl (
        field L laws (kind_codec L) (kind-IsCodec L laws) _ "ruleType" _ _ refl
          (opt_field L laws L.text laws.text_law _ "note" _ refl refl))

    rule_request_to_json-object :
        (v : UpsertAppRuleRequest)
        → rule_request_to_json v
          ≡ L.object (
              set
                (("pattern", L.text.write v.pattern)
                  ∷ ("ruleType", (kind_codec L).write v.rule_type)
                  ∷ [])
                "note"
                (opt_json L laws L.text laws.text_law v.note))
    unfolding rule_request_to_json
    rule_request_to_json-object v = put_opt-object L laws L.text laws.text_law _ "note" v.note

    pub rule_request-IsCodec : IsCodec L.is_null rule_request_codec
    rule_request-IsCodec = record {
      is_there = λ v. ap L.is_null (rule_request_to_json-object v) ∙ laws.object_law _;
      reads_back =
          λ v. ap rule_request_from_json (rule_request_to_json-object v) ∙ rule_request_reads v;
    }

pub record LabelRequest : Type 0 where
  pub session_id : Text
  pub label : FocusLabel
  pub notes : Option Text
  pub source : Option Text

module _ (L : JsonLibrary) where
  unfoldable pub label_request_to_json : LabelRequest → L.Json
  label_request_to_json v =
      put_opt L L.text
        (put_opt L L.text
          (L.object (
            ("sessionId", L.text.write v.session_id)
            ∷ ("label", (label_codec L).write v.label)
            ∷ []))
          "notes" v.notes)
        "source" v.source

  unfoldable pub label_request_from_json : L.Json → Option LabelRequest
  label_request_from_json j = do
    session_id ← get_or L L.text j "sessionId" (codes "")
    label ← L.find j "label" >>= (label_codec L).read
    notes ← opt L L.text j "notes"
    source ← opt L L.text j "source"
    some (record { session_id = session_id; label = label; notes = notes; source = source })

  abbrev pub label_request_codec : Codec L.Json LabelRequest
  label_request_codec = record { write = label_request_to_json; read = label_request_from_json }

  module _ (laws : JsonLaws L) where
    label_request_reads :
        (v : LabelRequest)
        → label_request_from_json (
            L.object (
              set
                (set
                  (("sessionId", L.text.write v.session_id)
                    ∷ ("label", (label_codec L).write v.label)
                    ∷ [])
                  "notes"
                  (opt_json L laws L.text laws.text_law v.notes))
                "source"
                (opt_json L laws L.text laws.text_law v.source)))
          ≡ some v
    unfolding label_request_from_json
    label_request_reads v = field L laws L.text laws.text_law _ "sessionId" _ _ refl (
        at_field L laws (label_codec L) (label-IsCodec L laws) _ "label" _ refl (
          opt_field L laws L.text laws.text_law _ "notes" _ refl
            (opt_field L laws L.text laws.text_law _ "source" _ refl refl)))

    label_request_to_json-object :
        (v : LabelRequest)
        → label_request_to_json v
          ≡ L.object (
              set
                (set
                  (("sessionId", L.text.write v.session_id)
                    ∷ ("label", (label_codec L).write v.label)
                    ∷ [])
                  "notes"
                  (opt_json L laws L.text laws.text_law v.notes))
                "source"
                (opt_json L laws L.text laws.text_law v.source))
    unfolding label_request_to_json
    label_request_to_json-object v =
        ap (λ j. put_opt L L.text j "source" v.source)
          (put_opt-object L laws L.text laws.text_law _ "notes" v.notes)
        ∙ put_opt-object L laws L.text laws.text_law _ "source" v.source

    pub label_request-IsCodec : IsCodec L.is_null label_request_codec
    label_request-IsCodec = record {
      is_there = λ v. ap L.is_null (label_request_to_json-object v) ∙ laws.object_law _;
      reads_back =
          λ v. ap label_request_from_json (label_request_to_json-object v) ∙ label_request_reads v;
    }

pub record SnapbackPayload : Type 0 where
  pub summary : Text
  pub app_name : Text
  pub window_title : Text
  pub file_hint : Text
  pub distraction_duration_secs : ℕ

module _ (L : JsonLibrary) where
  unfoldable pub payload_to_json : SnapbackPayload → L.Json
  payload_to_json v = L.object (
      ("summary", L.text.write v.summary)
      ∷ ("appName", L.text.write v.app_name)
      ∷ ("windowTitle", L.text.write v.window_title)
      ∷ ("fileHint", L.text.write v.file_hint)
      ∷ ("distractionDurationSecs", L.unsigned.write v.distraction_duration_secs)
      ∷ [])

  unfoldable pub payload_from_json : L.Json → Option SnapbackPayload
  payload_from_json j = do
    summary ← get_or L L.text j "summary" (codes "")
    app_name ← get_or L L.text j "appName" (codes "")
    window_title ← get_or L L.text j "windowTitle" (codes "")
    file_hint ← get_or L L.text j "fileHint" (codes "")
    distraction_duration_secs ← get_or L L.unsigned j "distractionDurationSecs" 0
    some (record {
      summary = summary;
      app_name = app_name;
      window_title = window_title;
      file_hint = file_hint;
      distraction_duration_secs = distraction_duration_secs;
    })

  abbrev pub payload_codec : Codec L.Json SnapbackPayload
  payload_codec = record { write = payload_to_json; read = payload_from_json }

  module _ (laws : JsonLaws L) where
    pub payload-IsCodec : IsCodec L.is_null payload_codec
    unfolding payload_to_json payload_from_json
    payload-IsCodec = record {
      is_there = λ v. laws.object_law _;
      reads_back = λ v. field L laws L.text laws.text_law _ "summary" _ _ refl (
          field L laws L.text laws.text_law _ "appName" _ _ refl (
            field L laws L.text laws.text_law _ "windowTitle" _ _ refl (
              field L laws L.text laws.text_law _ "fileHint" _ _ refl (
                field L laws L.unsigned laws.unsigned_law _ "distractionDurationSecs" _ _ refl
                  refl))));
    }
