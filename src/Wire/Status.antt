-- ===== src/Wire/Status.antt =====
-- src/types.cpp: the status of the whole application, as JSON and back.
use snapback.Wire.Health.{
  no_permissions, new_classifier, new_deployment, PermissionStatus, permissions_codec,
  permissions-IsCodec, ClassifierStatus, classifier_codec, classifier-IsCodec,
  ModelDeploymentHealth, deployment_codec, deployment-IsCodec,
}
use snapback.Wire.Runtime.{new_runtime, RuntimeMetrics, runtime_codec, runtime-IsCodec}
use snapback.Prelude.{ℕ, ◌≡◌, ap, refl, ◌∙◌, Bool, false, [], ◌∷◌, Option, some}
use snapback.Prelude.Text.{codes}
use snapback.Wire.Json.{
  ◌>>=◌, Text, Codec, IsCodec, JsonLibrary, JsonLaws, put_opt, opt, get_or, set,
}
use snapback.Wire.Laws.{field, opt_field, opt_json, put_opt-object}

pub record HealthStatus (Double : Type 0) : Type 0 where
  pub status : Text
  pub capture_running : Bool
  pub capture_failed : Bool
  pub capture_events_dropped : ℕ
  pub capture_stalled : Bool
  pub prediction_suppression_reason : Text
  pub permissions : PermissionStatus
  pub classifier : ClassifierStatus
  pub model_deployment : ModelDeploymentHealth
  pub runtime : RuntimeMetrics
  pub developer_tools_enabled : Bool
  pub last_prediction_age_secs : Option Double
  pub capture_failure_reason : Option Text
  pub overlay_failure_reason : Option Text
  pub persistence_failure_reason : Option Text

module _ (L : JsonLibrary) where
  unfoldable pub health_to_json : HealthStatus L.Double → L.Json
  health_to_json v =
      put_opt L L.text
        (put_opt L L.text
          (put_opt L L.text
            (put_opt L L.double
              (L.object (
                ("status", L.text.write v.status)
                ∷ ("captureRunning", L.boolean.write v.capture_running)
                ∷ ("captureFailed", L.boolean.write v.capture_failed)
                ∷ ("captureEventsDropped", L.unsigned.write v.capture_events_dropped)
                ∷ ("captureStalled", L.boolean.write v.capture_stalled)
                ∷ ("predictionSuppressionReason", L.text.write v.prediction_suppression_reason)
                ∷ ("permissions", (permissions_codec L).write v.permissions)
                ∷ ("classifier", (classifier_codec L).write v.classifier)
                ∷ ("modelDeployment", (deployment_codec L).write v.model_deployment)
                ∷ ("runtime", (runtime_codec L).write v.runtime)
                ∷ ("developerToolsEnabled", L.boolean.write v.developer_tools_enabled)
                ∷ []))
              "lastPredictionAgeSecs" v.last_prediction_age_secs)
            "captureFailureReason" v.capture_failure_reason)
          "overlayFailureReason" v.overlay_failure_reason)
        "persistenceFailureReason" v.persistence_failure_reason

  unfoldable pub health_from_json : L.Json → Option (HealthStatus L.Double)
  health_from_json j = do
    status ← get_or L L.text j "status" (codes "offline")
    capture_running ← get_or L L.boolean j "captureRunning" false
    capture_failed ← get_or L L.boolean j "captureFailed" false
    capture_failure_reason ← opt L L.text j "captureFailureReason"
    overlay_failure_reason ← opt L L.text j "overlayFailureReason"
    persistence_failure_reason ← opt L L.text j "persistenceFailureReason"
    capture_events_dropped ← get_or L L.unsigned j "captureEventsDropped" 0
    capture_stalled ← get_or L L.boolean j "captureStalled" false
    last_prediction_age_secs ← opt L L.double j "lastPredictionAgeSecs"
    prediction_suppression_reason ← get_or L L.text j "predictionSuppressionReason" (codes "none")
    permissions ← get_or L (permissions_codec L) j "permissions" no_permissions
    classifier ← get_or L (classifier_codec L) j "classifier" new_classifier
    model_deployment ← get_or L (deployment_codec L) j "modelDeployment" new_deployment
    runtime ← get_or L (runtime_codec L) j "runtime" new_runtime
    developer_tools_enabled ← get_or L L.boolean j "developerToolsEnabled" false
    some (record {
      status = status;
      capture_running = capture_running;
      capture_failed = capture_failed;
      capture_events_dropped = capture_events_dropped;
      capture_stalled = capture_stalled;
      prediction_suppression_reason = prediction_suppression_reason;
      permissions = permissions;
      classifier = classifier;
      model_deployment = model_deployment;
      runtime = runtime;
      developer_tools_enabled = developer_tools_enabled;
      last_prediction_age_secs = last_prediction_age_secs;
      capture_failure_reason = capture_failure_reason;
      overlay_failure_reason = overlay_failure_reason;
      persistence_failure_reason = persistence_failure_reason;
    })

  abbrev pub health_codec : Codec L.Json (HealthStatus L.Double)
  health_codec = record { write = health_to_json; read = health_from_json }

  module _ (laws : JsonLaws L) where
    health_reads :
        (v : HealthStatus L.Double)
        → health_from_json (
            L.object (
              set
                (set
                  (set
                    (set
                      (("status", L.text.write v.status)
                        ∷ ("captureRunning", L.boolean.write v.capture_running)
                        ∷ ("captureFailed", L.boolean.write v.capture_failed)
                        ∷ ("captureEventsDropped", L.unsigned.write v.capture_events_dropped)
                        ∷ ("captureStalled", L.boolean.write v.capture_stalled)
                        ∷ (
                          "predictionSuppressionReason",
                          L.text.write v.prediction_suppression_reason,
                        )
                        ∷ ("permissions", (permissions_codec L).write v.permissions)
                        ∷ ("classifier", (classifier_codec L).write v.classifier)
                        ∷ ("modelDeployment", (deployment_codec L).write v.model_deployment)
                        ∷ ("runtime", (runtime_codec L).write v.runtime)
                        ∷ ("developerToolsEnabled", L.boolean.write v.developer_tools_enabled)
                        ∷ [])
                      "lastPredictionAgeSecs"
                      (opt_json L laws L.double laws.double_law v.last_prediction_age_secs))
                    "captureFailureReason"
                    (opt_json L laws L.text laws.text_law v.capture_failure_reason))
                  "overlayFailureReason"
                  (opt_json L laws L.text laws.text_law v.overlay_failure_reason))
                "persistenceFailureReason"
                (opt_json L laws L.text laws.text_law v.persistence_failure_reason)))
          ≡ some v
    unfolding health_from_json
    health_reads v = field L laws L.text laws.text_law _ "status" _ _ refl (
        field L laws L.boolean laws.boolean_law _ "captureRunning" _ _ refl (
          field L laws L.boolean laws.boolean_law _ "captureFailed" _ _ refl (
            opt_field L laws L.text laws.text_law _ "captureFailureReason" _ refl (
              opt_field L laws L.text laws.text_law _ "overlayFailureReason" _ refl (
                opt_field L laws L.text laws.text_law _ "persistenceFailureReason" _ refl (
                  field L laws L.unsigned laws.unsigned_law _ "captureEventsDropped" _ _ refl (
                    field L laws L.boolean laws.boolean_law _ "captureStalled" _ _ refl (
                      opt_field L laws L.double laws.double_law _ "lastPredictionAgeSecs" _ refl (
                        field L laws L.text laws.text_law _ "predictionSuppressionReason" _ _ refl (
                          field L laws (permissions_codec L) (permissions-IsCodec L laws) _
                            "permissions" _ _ refl
                            (field L laws (classifier_codec L) (classifier-IsCodec L laws) _
                              "classifier" _ _ refl
                              (field L laws (deployment_codec L) (deployment-IsCodec L laws) _
                                "modelDeployment" _ _ refl
                                (field L laws (runtime_codec L) (runtime-IsCodec L laws) _ "runtime"
                                  _ _ refl
                                  (field L laws L.boolean laws.boolean_law _ "developerToolsEnabled"
                                    _ _ refl refl))))))))))))))

    health_to_json-object :
        (v : HealthStatus L.Double)
        → health_to_json v
          ≡ L.object (
              set
                (set
                  (set
                    (set
                      (("status", L.text.write v.status)
                        ∷ ("captureRunning", L.boolean.write v.capture_running)
                        ∷ ("captureFailed", L.boolean.write v.capture_failed)
                        ∷ ("captureEventsDropped", L.unsigned.write v.capture_events_dropped)
                        ∷ ("captureStalled", L.boolean.write v.capture_stalled)
                        ∷ (
                          "predictionSuppressionReason",
                          L.text.write v.prediction_suppression_reason,
                        )
                        ∷ ("permissions", (permissions_codec L).write v.permissions)
                        ∷ ("classifier", (classifier_codec L).write v.classifier)
                        ∷ ("modelDeployment", (deployment_codec L).write v.model_deployment)
                        ∷ ("runtime", (runtime_codec L).write v.runtime)
                        ∷ ("developerToolsEnabled", L.boolean.write v.developer_tools_enabled)
                        ∷ [])
                      "lastPredictionAgeSecs"
                      (opt_json L laws L.double laws.double_law v.last_prediction_age_secs))
                    "captureFailureReason"
                    (opt_json L laws L.text laws.text_law v.capture_failure_reason))
                  "overlayFailureReason"
                  (opt_json L laws L.text laws.text_law v.overlay_failure_reason))
                "persistenceFailureReason"
                (opt_json L laws L.text laws.text_law v.persistence_failure_reason))
    unfolding health_to_json
    health_to_json-object v =
        ap (λ j. put_opt L L.text j "persistenceFailureReason" v.persistence_failure_reason)
          (ap (λ j. put_opt L L.text j "overlayFailureReason" v.overlay_failure_reason)
              (ap (λ j. put_opt L L.text j "captureFailureReason" v.capture_failure_reason)
                  (put_opt-object L laws L.double laws.double_law _ "lastPredictionAgeSecs"
                    v.last_prediction_age_secs)
                ∙ put_opt-object L laws L.text laws.text_law _ "captureFailureReason"
                    v.capture_failure_reason)
            ∙ put_opt-object L laws L.text laws.text_law _ "overlayFailureReason"
                v.overlay_failure_reason)
        ∙ put_opt-object L laws L.text laws.text_law _ "persistenceFailureReason"
            v.persistence_failure_reason

    pub health-IsCodec : IsCodec L.is_null health_codec
    health-IsCodec = record {
      is_there = λ v. ap L.is_null (health_to_json-object v) ∙ laws.object_law _;
      reads_back = λ v. ap health_from_json (health_to_json-object v) ∙ health_reads v;
    }

    -- Whatever the status of the application is, the frontend reads it as it was written.
    pub health_reads_back :
        (v : HealthStatus L.Double) → health_from_json (health_to_json v) ≡ some v
    health_reads_back v = health-IsCodec.reads_back v
