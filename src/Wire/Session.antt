-- ===== src/Wire/Session.antt =====
-- src/types.cpp: sessions and predictions, as JSON and back.
use snapback.Prelude.{◌≡◌, ap, refl, ◌∙◌, [], ◌∷◌, Option, some}
use snapback.Prelude.Int.{ℤ, pos}
use snapback.Prelude.Text.{codes}
use snapback.Wire.Json.{
  ◌>>=◌, Text, Codec, IsCodec, JsonLibrary, JsonLaws, put_opt, opt, get_or, set,
}
use snapback.Wire.Laws.{field, opt_field, opt_json, put_opt-object}

pub record PredictionRecord (Double : Type 0) : Type 0 where
  pub session_id : Text
  pub focus_score : Double
  pub distraction_risk : Double
  pub focus_state : Text
  pub thrash_score : Double
  pub drift_score : Double
  pub goal_alignment : Double
  pub timestamp_ms : ℤ
  pub model_id : Text
  pub state_source : Option Text

module _ (L : JsonLibrary) where
  unfoldable pub prediction_to_json : PredictionRecord L.Double → L.Json
  prediction_to_json v =
      put_opt L L.text
        (L.object (
          ("sessionId", L.text.write v.session_id)
          ∷ ("focusScore", L.double.write v.focus_score)
          ∷ ("distractionRisk", L.double.write v.distraction_risk)
          ∷ ("focusState", L.text.write v.focus_state)
          ∷ ("thrashScore", L.double.write v.thrash_score)
          ∷ ("driftScore", L.double.write v.drift_score)
          ∷ ("goalAlignment", L.double.write v.goal_alignment)
          ∷ ("timestampMs", L.integer.write v.timestamp_ms)
          ∷ ("modelId", L.text.write v.model_id)
          ∷ []))
        "stateSource" v.state_source

  unfoldable pub prediction_from_json : L.Json → Option (PredictionRecord L.Double)
  prediction_from_json j = do
    session_id ← get_or L L.text j "sessionId" (codes "")
    focus_score ← get_or L L.double j "focusScore" L.zero_double
    distraction_risk ← get_or L L.double j "distractionRisk" L.zero_double
    focus_state ← get_or L L.text j "focusState" (codes "")
    thrash_score ← get_or L L.double j "thrashScore" L.zero_double
    drift_score ← get_or L L.double j "driftScore" L.zero_double
    goal_alignment ← get_or L L.double j "goalAlignment" L.half_double
    timestamp_ms ← get_or L L.integer j "timestampMs" (pos 0)
    model_id ← get_or L L.text j "modelId" (codes "heuristic:snapback-features-v1-31")
    state_source ← opt L L.text j "stateSource"
    some (record {
      session_id = session_id;
      focus_score = focus_score;
      distraction_risk = distraction_risk;
      focus_state = focus_state;
      thrash_score = thrash_score;
      drift_score = drift_score;
      goal_alignment = goal_alignment;
      timestamp_ms = timestamp_ms;
      model_id = model_id;
      state_source = state_source;
    })

  abbrev pub prediction_codec : Codec L.Json (PredictionRecord L.Double)
  prediction_codec = record { write = prediction_to_json; read = prediction_from_json }

  module _ (laws : JsonLaws L) where
    prediction_reads :
        (v : PredictionRecord L.Double)
        → prediction_from_json (
            L.object (
              set
                (("sessionId", L.text.write v.session_id)
                  ∷ ("focusScore", L.double.write v.focus_score)
                  ∷ ("distractionRisk", L.double.write v.distraction_risk)
                  ∷ ("focusState", L.text.write v.focus_state)
                  ∷ ("thrashScore", L.double.write v.thrash_score)
                  ∷ ("driftScore", L.double.write v.drift_score)
                  ∷ ("goalAlignment", L.double.write v.goal_alignment)
                  ∷ ("timestampMs", L.integer.write v.timestamp_ms)
                  ∷ ("modelId", L.text.write v.model_id)
                  ∷ [])
                "stateSource"
                (opt_json L laws L.text laws.text_law v.state_source)))
          ≡ some v
    unfolding prediction_from_json
    prediction_reads v = field L laws L.text laws.text_law _ "sessionId" _ _ refl (
        field L laws L.double laws.double_law _ "focusScore" _ _ refl (
          field L laws L.double laws.double_law _ "distractionRisk" _ _ refl (
            field L laws L.text laws.text_law _ "focusState" _ _ refl (
              field L laws L.double laws.double_law _ "thrashScore" _ _ refl (
                field L laws L.double laws.double_law _ "driftScore" _ _ refl (
                  field L laws L.double laws.double_law _ "goalAlignment" _ _ refl (
                    field L laws L.integer laws.integer_law _ "timestampMs" _ _ refl (
                      field L laws L.text laws.text_law _ "modelId" _ _ refl
                        (opt_field L laws L.text laws.text_law _ "stateSource" _ refl refl)))))))))

    prediction_to_json-object :
        (v : PredictionRecord L.Double)
        → prediction_to_json v
          ≡ L.object (
              set
                (("sessionId", L.text.write v.session_id)
                  ∷ ("focusScore", L.double.write v.focus_score)
                  ∷ ("distractionRisk", L.double.write v.distraction_risk)
                  ∷ ("focusState", L.text.write v.focus_state)
                  ∷ ("thrashScore", L.double.write v.thrash_score)
                  ∷ ("driftScore", L.double.write v.drift_score)
                  ∷ ("goalAlignment", L.double.write v.goal_alignment)
                  ∷ ("timestampMs", L.integer.write v.timestamp_ms)
                  ∷ ("modelId", L.text.write v.model_id)
                  ∷ [])
                "stateSource"
                (opt_json L laws L.text laws.text_law v.state_source))
    unfolding prediction_to_json
    prediction_to_json-object v =
        put_opt-object L laws L.text laws.text_law _ "stateSource" v.state_source

    pub prediction-IsCodec : IsCodec L.is_null prediction_codec
    prediction-IsCodec = record {
      is_there = λ v. ap L.is_null (prediction_to_json-object v) ∙ laws.object_law _;
      reads_back = λ v. ap prediction_from_json (prediction_to_json-object v) ∙ prediction_reads v;
    }

pub record SessionRecord : Type 0 where
  pub session_id : Text
  pub goal : Text
  pub status : Text
  pub focus_mode : Text
  pub started_at_ms : Option ℤ
  pub ended_at_ms : Option ℤ
  pub reflection_done : Option Text
  pub reflection_next_step : Option Text

module _ (L : JsonLibrary) where
  unfoldable pub session_to_json : SessionRecord → L.Json
  session_to_json v =
      put_opt L L.text
        (put_opt L L.text
          (put_opt L L.integer
            (put_opt L L.integer
              (L.object (
                ("sessionId", L.text.write v.session_id)
                ∷ ("goal", L.text.write v.goal)
                ∷ ("status", L.text.write v.status)
                ∷ ("focusMode", L.text.write v.focus_mode)
                ∷ []))
              "startedAtMs" v.started_at_ms)
            "endedAtMs" v.ended_at_ms)
          "reflectionDone" v.reflection_done)
        "reflectionNextStep" v.reflection_next_step

  unfoldable pub session_from_json : L.Json → Option SessionRecord
  session_from_json j = do
    session_id ← get_or L L.text j "sessionId" (codes "")
    goal ← get_or L L.text j "goal" (codes "")
    status ← get_or L L.text j "status" (codes "")
    focus_mode ← get_or L L.text j "focusMode" (codes "normal")
    started_at_ms ← opt L L.integer j "startedAtMs"
    ended_at_ms ← opt L L.integer j "endedAtMs"
    reflection_done ← opt L L.text j "reflectionDone"
    reflection_next_step ← opt L L.text j "reflectionNextStep"
    some (record {
      session_id = session_id;
      goal = goal;
      status = status;
      focus_mode = focus_mode;
      started_at_ms = started_at_ms;
      ended_at_ms = ended_at_ms;
      reflection_done = reflection_done;
      reflection_next_step = reflection_next_step;
    })

  abbrev pub session_codec : Codec L.Json SessionRecord
  session_codec = record { write = session_to_json; read = session_from_json }

  module _ (laws : JsonLaws L) where
    session_reads :
        (v : SessionRecord)
        → session_from_json (
            L.object (
              set
                (set
                  (set
                    (set
                      (("sessionId", L.text.write v.session_id)
                        ∷ ("goal", L.text.write v.goal)
                        ∷ ("status", L.text.write v.status)
                        ∷ ("focusMode", L.text.write v.focus_mode)
                        ∷ [])
                      "startedAtMs"
                      (opt_json L laws L.integer laws.integer_law v.started_at_ms))
                    "endedAtMs"
                    (opt_json L laws L.integer laws.integer_law v.ended_at_ms))
                  "reflectionDone"
                  (opt_json L laws L.text laws.text_law v.reflection_done))
                "reflectionNextStep"
                (opt_json L laws L.text laws.text_law v.reflection_next_step)))
          ≡ some v
    unfolding session_from_json
    session_reads v = field L laws L.text laws.text_law _ "sessionId" _ _ refl (
        field L laws L.text laws.text_law _ "goal" _ _ refl (
          field L laws L.text laws.text_law _ "status" _ _ refl (
            field L laws L.text laws.text_law _ "focusMode" _ _ refl (
              opt_field L laws L.integer laws.integer_law _ "startedAtMs" _ refl (
                opt_field L laws L.integer laws.integer_law _ "endedAtMs" _ refl (
                  opt_field L laws L.text laws.text_law _ "reflectionDone" _ refl
                    (opt_field L laws L.text laws.text_law _ "reflectionNextStep" _ refl refl)))))))

    session_to_json-object :
        (v : SessionRecord)
        → session_to_json v
          ≡ L.object (
              set
                (set
                  (set
                    (set
                      (("sessionId", L.text.write v.session_id)
                        ∷ ("goal", L.text.write v.goal)
                        ∷ ("status", L.text.write v.status)
                        ∷ ("focusMode", L.text.write v.focus_mode)
                        ∷ [])
                      "startedAtMs"
                      (opt_json L laws L.integer laws.integer_law v.started_at_ms))
                    "endedAtMs"
                    (opt_json L laws L.integer laws.integer_law v.ended_at_ms))
                  "reflectionDone"
                  (opt_json L laws L.text laws.text_law v.reflection_done))
                "reflectionNextStep"
                (opt_json L laws L.text laws.text_law v.reflection_next_step))
    unfolding session_to_json
    session_to_json-object v =
        ap (λ j. put_opt L L.text j "reflectionNextStep" v.reflection_next_step)
          (ap (λ j. put_opt L L.text j "reflectionDone" v.reflection_done)
              (ap (λ j. put_opt L L.integer j "endedAtMs" v.ended_at_ms)
                  (put_opt-object L laws L.integer laws.integer_law _ "startedAtMs" v.started_at_ms)
                ∙ put_opt-object L laws L.integer laws.integer_law _ "endedAtMs" v.ended_at_ms)
            ∙ put_opt-object L laws L.text laws.text_law _ "reflectionDone" v.reflection_done)
        ∙ put_opt-object L laws L.text laws.text_law _ "reflectionNextStep" v.reflection_next_step

    pub session-IsCodec : IsCodec L.is_null session_codec
    session-IsCodec = record {
      is_there = λ v. ap L.is_null (session_to_json-object v) ∙ laws.object_law _;
      reads_back = λ v. ap session_from_json (session_to_json-object v) ∙ session_reads v;
    }
