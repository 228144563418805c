-- ===== src/Wire/Health.antt =====
-- src/types.cpp: the health of the parts of the application, as JSON and back.
use snapback.Prelude.{ℕ, ◌≡◌, ap, refl, ◌∙◌, Bool, false, List, [], ◌∷◌, Option, none, some}
use snapback.Prelude.Text.{codes}
use snapback.Wire.Json.{
  ◌>>=◌, Text, Codec, IsCodec, JsonLibrary, JsonLaws, put_opt, opt, get_or, vector, set,
}
use snapback.Wire.Laws.{field, opt_field, opt_json, put_opt-object, vector-IsCodec}

pub record PermissionStatus : Type 0 where
  pub capture_available : Bool
  pub capture_probe_confirmed : Bool
  pub active_window_available : Bool
  pub message : Text
  pub setup_steps : List Text

module _ (L : JsonLibrary) where
  unfoldable pub permissions_to_json : PermissionStatus → L.Json
  permissions_to_json v = L.object (
      ("captureAvailable", L.boolean.write v.capture_available)
      ∷ ("captureProbeConfirmed", L.boolean.write v.capture_probe_confirmed)
      ∷ ("activeWindowAvailable", L.boolean.write v.active_window_available)
      ∷ ("message", L.text.write v.message)
      ∷ ("setupSteps", (vector L L.text).write v.setup_steps)
      ∷ [])

  unfoldable pub permissions_from_json : L.Json → Option PermissionStatus
  permissions_from_json j = do
    capture_available ← get_or L L.boolean j "captureAvailable" false
    capture_probe_confirmed ← get_or L L.boolean j "captureProbeConfirmed" false
    active_window_available ← get_or L L.boolean j "activeWindowAvailable" false
    message ← get_or L L.text j "message" (codes "")
    setup_steps ← get_or L (vector L L.text) j "setupSteps" []
    some (record {
      capture_available = capture_available;
      capture_probe_confirmed = capture_probe_confirmed;
      active_window_available = active_window_available;
      message = message;
      setup_steps = setup_steps;
    })

  abbrev pub permissions_codec : Codec L.Json PermissionStatus
  permissions_codec = record { write = permissions_to_json; read = permissions_from_json }

  module _ (laws : JsonLaws L) where
    pub permissions-IsCodec : IsCodec L.is_null permissions_codec
    unfolding permissions_to_json permissions_from_json
    permissions-IsCodec = record {
      is_there = λ v. laws.object_law _;
      reads_back = λ v. field L laws L.boolean laws.boolean_law _ "captureAvailable" _ _ refl (
          field L laws L.boolean laws.boolean_law _ "captureProbeConfirmed" _ _ refl (
            field L laws L.boolean laws.boolean_law _ "activeWindowAvailable" _ _ refl (
              field L laws L.text laws.text_law _ "message" _ _ refl (
                field L laws (vector L L.text) (vector-IsCodec L laws L.text laws.text_law) _
                  "setupSteps" _ _ refl refl))));
    }

pub record ClassifierStatus : Type 0 where
  pub backend : Text
  pub onnx_runtime_enabled : Bool
  pub model_path : Option Text
  pub model_id : Option Text
  pub inference_degraded : Bool
  pub inference_failures : ℕ

module _ (L : JsonLibrary) where
  unfoldable pub classifier_to_json : ClassifierStatus → L.Json
  classifier_to_json v =
      put_opt L L.text
        (put_opt L L.text
          (L.object (
            ("backend", L.text.write v.backend)
            ∷ ("onnxRuntimeEnabled", L.boolean.write v.onnx_runtime_enabled)
            ∷ ("inferenceDegraded", L.boolean.write v.inference_degraded)
            ∷ ("inferenceFailures", L.unsigned.write v.inference_failures)
            ∷ []))
          "modelPath" v.model_path)
        "modelId" v.model_id

  unfoldable pub classifier_from_json : L.Json → Option ClassifierStatus
  classifier_from_json j = do
    backend ← get_or L L.text j "backend" (codes "heuristic")
    onnx_runtime_enabled ← get_or L L.boolean j "onnxRuntimeEnabled" false
    model_path ← opt L L.text j "modelPath"
    model_id ← opt L L.text j "modelId"
    inference_degraded ← get_or L L.boolean j "inferenceDegraded" false
    inference_failures ← get_or L L.unsigned j "inferenceFailures" 0
    some (record {
      backend = backend;
      onnx_runtime_enabled = onnx_runtime_enabled;
      inference_degraded = inference_degraded;
      inference_failures = inference_failures;
      model_path = model_path;
      model_id = model_id;
    })

  abbrev pub classifier_codec : Codec L.Json ClassifierStatus
  classifier_codec = record { write = classifier_to_json; read = classifier_from_json }

  module _ (laws : JsonLaws L) where
    classifier_reads :
        (v : ClassifierStatus)
        → classifier_from_json (
            L.object (
              set
                (set
                  (("backend", L.text.write v.backend)
                    ∷ ("onnxRuntimeEnabled", L.boolean.write v.onnx_runtime_enabled)
                    ∷ ("inferenceDegraded", L.boolean.write v.inference_degraded)
                    ∷ ("inferenceFailures", L.unsigned.write v.inference_failures)
                    ∷ [])
                  "modelPath"
                  (opt_json L laws L.text laws.text_law v.model_path))
                "modelId"
                (opt_json L laws L.text laws.text_law v.model_id)))
          ≡ some v
    unfolding classifier_from_json
    classifier_reads v = field L laws L.text laws.text_law _ "backend" _ _ refl (
        field L laws L.boolean laws.boolean_law _ "onnxRuntimeEnabled" _ _ refl (
          opt_field L laws L.text laws.text_law _ "modelPath" _ refl (
            opt_field L laws L.text laws.text_law _ "modelId" _ refl (
              field L laws L.boolean laws.boolean_law _ "inferenceDegraded" _ _ refl
                (field L laws L.unsigned laws.unsigned_law _ "inferenceFailures" _ _ refl refl)))))

    classifier_to_json-object :
        (v : ClassifierStatus)
        → classifier_to_json v
          ≡ L.object (
              set
                (set
                  (("backend", L.text.write v.backend)
                    ∷ ("onnxRuntimeEnabled", L.boolean.write v.onnx_runtime_enabled)
                    ∷ ("inferenceDegraded", L.boolean.write v.inference_degraded)
                    ∷ ("inferenceFailures", L.unsigned.write v.inference_failures)
                    ∷ [])
                  "modelPath"
                  (opt_json L laws L.text laws.text_law v.model_path))
                "modelId"
                (opt_json L laws L.text laws.text_law v.model_id))
    unfolding classifier_to_json
    classifier_to_json-object v =
        ap (λ j. put_opt L L.text j "modelId" v.model_id)
          (put_opt-object L laws L.text laws.text_law _ "modelPath" v.model_path)
        ∙ put_opt-object L laws L.text laws.text_law _ "modelId" v.model_id

    pub classifier-IsCodec : IsCodec L.is_null classifier_codec
    classifier-IsCodec = record {
      is_there = λ v. ap L.is_null (classifier_to_json-object v) ∙ laws.object_law _;
      reads_back = λ v. ap classifier_from_json (classifier_to_json-object v) ∙ classifier_reads v;
    }

pub record ModelDeploymentHealth : Type 0 where
  pub state : Text
  pub message : Option Text
  pub preserved_paths : List Text
  pub retry_cleanup_available : Bool
  pub rollback_available : Bool

module _ (L : JsonLibrary) where
  unfoldable pub deployment_to_json : ModelDeploymentHealth → L.Json
  deployment_to_json v =
      put_opt L L.text
        (L.object (
          ("state", L.text.write v.state)
          ∷ ("preservedPaths", (vector L L.text).write v.preserved_paths)
          ∷ ("retryCleanupAvailable", L.boolean.write v.retry_cleanup_available)
          ∷ ("rollbackAvailable", L.boolean.write v.rollback_available)
          ∷ []))
        "message" v.message

  unfoldable pub deployment_from_json : L.Json → Option ModelDeploymentHealth
  deployment_from_json j = do
    state ← get_or L L.text j "state" (codes "ok")
    message ← opt L L.text j "message"
    preserved_paths ← get_or L (vector L L.text) j "preservedPaths" []
    retry_cleanup_available ← get_or L L.boolean j "retryCleanupAvailable" false
    rollback_available ← get_or L L.boolean j "rollbackAvailable" false
    some (record {
      state = state;
      preserved_paths = preserved_paths;
      retry_cleanup_available = retry_cleanup_available;
      rollback_available = rollback_available;
      message = message;
    })

  abbrev pub deployment_codec : Codec L.Json ModelDeploymentHealth
  deployment_codec = record { write = deployment_to_json; read = deployment_from_json }

  module _ (laws : JsonLaws L) where
    deployment_reads :
        (v : ModelDeploymentHealth)
        → deployment_from_json (
            L.object (
              set
                (("state", L.text.write v.state)
                  ∷ ("preservedPaths", (vector L L.text).write v.preserved_paths)
                  ∷ ("retryCleanupAvailable", L.boolean.write v.retry_cleanup_available)
                  ∷ ("rollbackAvailable", L.boolean.write v.rollback_available)
                  ∷ [])
                "message"
                (opt_json L laws L.text laws.text_law v.message)))
          ≡ some v
    unfolding deployment_from_json
    deployment_reads v = field L laws L.text laws.text_law _ "state" _ _ refl (
        opt_field L laws L.text laws.text_law _ "message" _ refl (
          field L laws (vector L L.text) (vector-IsCodec L laws L.text laws.text_law) _
            "preservedPaths" _ _ refl
            (field L laws L.boolean laws.boolean_law _ "retryCleanupAvailable" _ _ refl
              (field L laws L.boolean laws.boolean_law _ "rollbackAvailable" _ _ refl refl))))

    deployment_to_json-object :
        (v : ModelDeploymentHealth)
        → deployment_to_json v
          ≡ L.object (
              set
                (("state", L.text.write v.state)
                  ∷ ("preservedPaths", (vector L L.text).write v.preserved_paths)
                  ∷ ("retryCleanupAvailable", L.boolean.write v.retry_cleanup_available)
                  ∷ ("rollbackAvailable", L.boolean.write v.rollback_available)
                  ∷ [])
                "message"
                (opt_json L laws L.text laws.text_law v.message))
    unfolding deployment_to_json
    deployment_to_json-object v = put_opt-object L laws L.text laws.text_law _ "message" v.message

    pub deployment-IsCodec : IsCodec L.is_null deployment_codec
    deployment-IsCodec = record {
      is_there = λ v. ap L.is_null (deployment_to_json-object v) ∙ laws.object_law _;
      reads_back = λ v. ap deployment_from_json (deployment_to_json-object v) ∙ deployment_reads v;
    }

-- The members as they are declared.
abbrev pub no_permissions : PermissionStatus
no_permissions = record {
  capture_available = false;
  capture_probe_confirmed = false;
  active_window_available = false;
  message = codes "";
  setup_steps = [];
}

abbrev pub new_classifier : ClassifierStatus
new_classifier = record {
  backend = codes "heuristic";
  onnx_runtime_enabled = false;
  model_path = none;
  model_id = none;
  inference_degraded = false;
  inference_failures = 0;
}

abbrev pub new_deployment : ModelDeploymentHealth
new_deployment = record {
  state = codes "ok";
  message = none;
  preserved_paths = [];
  retry_cleanup_available = false;
  rollback_available = false;
}
