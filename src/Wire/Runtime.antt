-- ===== src/Wire/Runtime.antt =====
-- src/types.cpp: what the process costs itself, as JSON and back.
use snapback.Prelude.{ℕ, refl, Bool, false, [], ◌∷◌, Option, some}
use snapback.Prelude.Text.{codes}
use snapback.Wire.Json.{◌>>=◌, Text, Codec, IsCodec, JsonLibrary, JsonLaws, get_or}
use snapback.Wire.Laws.{field}

pub record RuntimeMetrics : Type 0 where
  pub persistence_failures : ℕ
  pub persistence_dropped_predictions : ℕ
  pub engine_wakeups : ℕ
  pub engine_max_drain_ms : ℕ
  pub maintenance_pending : Bool
  pub maintenance_running : Bool
  pub maintenance_rows_deleted : ℕ
  pub maintenance_elapsed_ms : ℕ
  pub maintenance_result : Text
  pub process_cpu_ms : ℕ
  pub capture_ring_high_water : ℕ
  pub capture_ring_capacity : ℕ
  pub storage_lock_acquisitions : ℕ
  pub storage_lock_contended : ℕ
  pub storage_lock_hold_p50_us : ℕ
  pub storage_lock_hold_p95_us : ℕ
  pub storage_lock_max_hold_us : ℕ
  pub storage_lock_wait_p95_us : ℕ
  pub storage_lock_max_wait_us : ℕ
  pub sqlite_busy_waits : ℕ
  pub sqlite_busy_exhausted : ℕ
  pub sqlite_busy_max_wait_ms : ℕ

module _ (L : JsonLibrary) where
  unfoldable pub runtime_to_json : RuntimeMetrics → L.Json
  runtime_to_json v = L.object (
      ("persistenceFailures", L.unsigned.write v.persistence_failures)
      ∷ ("persistenceDroppedPredictions", L.unsigned.write v.persistence_dropped_predictions)
      ∷ ("engineWakeups", L.unsigned.write v.engine_wakeups)
      ∷ ("engineMaxDrainMs", L.unsigned.write v.engine_max_drain_ms)
      ∷ ("maintenancePending", L.boolean.write v.maintenance_pending)
      ∷ ("maintenanceRunning", L.boolean.write v.maintenance_running)
      ∷ ("maintenanceRowsDeleted", L.unsigned.write v.maintenance_rows_deleted)
      ∷ ("maintenanceElapsedMs", L.unsigned.write v.maintenance_elapsed_ms)
      ∷ ("maintenanceResult", L.text.write v.maintenance_result)
      ∷ ("processCpuMs", L.unsigned.write v.process_cpu_ms)
      ∷ ("captureRingHighWater", L.unsigned.write v.capture_ring_high_water)
      ∷ ("captureRingCapacity", L.unsigned.write v.capture_ring_capacity)
      ∷ ("storageLockAcquisitions", L.unsigned.write v.storage_lock_acquisitions)
      ∷ ("storageLockContended", L.unsigned.write v.storage_lock_contended)
      ∷ ("storageLockHoldP50Us", L.unsigned.write v.storage_lock_hold_p50_us)
      ∷ ("storageLockHoldP95Us", L.unsigned.write v.storage_lock_hold_p95_us)
      ∷ ("storageLockMaxHoldUs", L.unsigned.write v.storage_lock_max_hold_us)
      ∷ ("storageLockWaitP95Us", L.unsigned.write v.storage_lock_wait_p95_us)
      ∷ ("storageLockMaxWaitUs", L.unsigned.write v.storage_lock_max_wait_us)
      ∷ ("sqliteBusyWaits", L.unsigned.write v.sqlite_busy_waits)
      ∷ ("sqliteBusyExhausted", L.unsigned.write v.sqlite_busy_exhausted)
      ∷ ("sqliteBusyMaxWaitMs", L.unsigned.write v.sqlite_busy_max_wait_ms)
      ∷ [])

  unfoldable pub runtime_from_json : L.Json → Option RuntimeMetrics
  runtime_from_json j = do
    persistence_failures ← get_or L L.unsigned j "persistenceFailures" 0
    persistence_dropped_predictions ← get_or L L.unsigned j "persistenceDroppedPredictions" 0
    engine_wakeups ← get_or L L.unsigned j "engineWakeups" 0
    engine_max_drain_ms ← get_or L L.unsigned j "engineMaxDrainMs" 0
    maintenance_pending ← get_or L L.boolean j "maintenancePending" false
    maintenance_running ← get_or L L.boolean j "maintenanceRunning" false
    maintenance_rows_deleted ← get_or L L.unsigned j "maintenanceRowsDeleted" 0
    maintenance_elapsed_ms ← get_or L L.unsigned j "maintenanceElapsedMs" 0
    maintenance_result ← get_or L L.text j "maintenanceResult" (codes "waiting_for_ui")
    process_cpu_ms ← get_or L L.unsigned j "processCpuMs" 0
    capture_ring_high_water ← get_or L L.unsigned j "captureRingHighWater" 0
    capture_ring_capacity ← get_or L L.unsigned j "captureRingCapacity" 0
    storage_lock_acquisitions ← get_or L L.unsigned j "storageLockAcquisitions" 0
    storage_lock_contended ← get_or L L.unsigned j "storageLockContended" 0
    storage_lock_hold_p50_us ← get_or L L.unsigned j "storageLockHoldP50Us" 0
    storage_lock_hold_p95_us ← get_or L L.unsigned j "storageLockHoldP95Us" 0
    storage_lock_max_hold_us ← get_or L L.unsigned j "storageLockMaxHoldUs" 0
    storage_lock_wait_p95_us ← get_or L L.unsigned j "storageLockWaitP95Us" 0
    storage_lock_max_wait_us ← get_or L L.unsigned j "storageLockMaxWaitUs" 0
    sqlite_busy_waits ← get_or L L.unsigned j "sqliteBusyWaits" 0
    sqlite_busy_exhausted ← get_or L L.unsigned j "sqliteBusyExhausted" 0
    sqlite_busy_max_wait_ms ← get_or L L.unsigned j "sqliteBusyMaxWaitMs" 0
    some (record {
      persistence_failures = persistence_failures;
      persistence_dropped_predictions = persistence_dropped_predictions;
      engine_wakeups = engine_wakeups;
      engine_max_drain_ms = engine_max_drain_ms;
      maintenance_pending = maintenance_pending;
      maintenance_running = maintenance_running;
      maintenance_rows_deleted = maintenance_rows_deleted;
      maintenance_elapsed_ms = maintenance_elapsed_ms;
      maintenance_result = maintenance_result;
      process_cpu_ms = process_cpu_ms;
      capture_ring_high_water = capture_ring_high_water;
      capture_ring_capacity = capture_ring_capacity;
      storage_lock_acquisitions = storage_lock_acquisitions;
      storage_lock_contended = storage_lock_contended;
      storage_lock_hold_p50_us = storage_lock_hold_p50_us;
      storage_lock_hold_p95_us = storage_lock_hold_p95_us;
      storage_lock_max_hold_us = storage_lock_max_hold_us;
      storage_lock_wait_p95_us = storage_lock_wait_p95_us;
      storage_lock_max_wait_us = storage_lock_max_wait_us;
      sqlite_busy_waits = sqlite_busy_waits;
      sqlite_busy_exhausted = sqlite_busy_exhausted;
      sqlite_busy_max_wait_ms = sqlite_busy_max_wait_ms;
    })

  abbrev pub runtime_codec : Codec L.Json RuntimeMetrics
  runtime_codec = record { write = runtime_to_json; read = runtime_from_json }

  module _ (laws : JsonLaws L) where
    pub runtime-IsCodec : IsCodec L.is_null runtime_codec
    unfolding runtime_to_json runtime_from_json
    runtime-IsCodec = record {
      is_there = λ v. laws.object_law _;
      reads_back = λ v. field L laws L.unsigned laws.unsigned_law _ "persistenceFailures" _ _ refl (
          field L laws L.unsigned laws.unsigned_law _ "persistenceDroppedPredictions" _ _ refl (
            field L laws L.unsigned laws.unsigned_law _ "engineWakeups" _ _ refl (
              field L laws L.unsigned laws.unsigned_law _ "engineMaxDrainMs" _ _ refl (
                field L laws L.boolean laws.boolean_law _ "maintenancePending" _ _ refl (
                  field L laws L.boolean laws.boolean_law _ "maintenanceRunning" _ _ refl (
                    field L laws L.unsigned laws.unsigned_law _ "maintenanceRowsDeleted" _ _ refl (
                      field L laws L.unsigned laws.unsigned_law _ "maintenanceElapsedMs" _ _ refl (
                        field L laws L.text laws.text_law _ "maintenanceResult" _ _ refl (
                          field L laws L.unsigned laws.unsigned_law _ "processCpuMs" _ _ refl (
                            field L laws L.unsigned laws.unsigned_law _ "captureRingHighWater" _ _
                              refl
                              (field L laws L.unsigned laws.unsigned_law _ "captureRingCapacity" _ _
                                refl
                                (field L laws L.unsigned laws.unsigned_law _
                                  "storageLockAcquisitions" _ _ refl
                                  (field L laws L.unsigned laws.unsigned_law _
                                    "storageLockContended" _ _ refl
                                    (field L laws L.unsigned laws.unsigned_law _
                                      "storageLockHoldP50Us" _ _ refl
                                      (field L laws L.unsigned laws.unsigned_law _
                                        "storageLockHoldP95Us" _ _ refl
                                        (field L laws L.unsigned laws.unsigned_law _
                                          "storageLockMaxHoldUs" _ _ refl
                                          (field L laws L.unsigned laws.unsigned_law _
                                            "storageLockWaitP95Us" _ _ refl
                                            (field L laws L.unsigned laws.unsigned_law _
                                              "storageLockMaxWaitUs" _ _ refl
                                              (field L laws L.unsigned laws.unsigned_law _
                                                "sqliteBusyWaits" _ _ refl
                                                (field L laws L.unsigned laws.unsigned_law _
                                                  "sqliteBusyExhausted" _ _ refl
                                                  (field L laws L.unsigned laws.unsigned_law _
                                                    "sqliteBusyMaxWaitMs" _ _ refl
                                                    refl)))))))))))))))))))));
    }

abbrev pub new_runtime : RuntimeMetrics
new_runtime = record {
  persistence_failures = 0;
  persistence_dropped_predictions = 0;
  engine_wakeups = 0;
  engine_max_drain_ms = 0;
  maintenance_pending = false;
  maintenance_running = false;
  maintenance_rows_deleted = 0;
  maintenance_elapsed_ms = 0;
  maintenance_result = (codes "waiting_for_ui");
  process_cpu_ms = 0;
  capture_ring_high_water = 0;
  capture_ring_capacity = 0;
  storage_lock_acquisitions = 0;
  storage_lock_contended = 0;
  storage_lock_hold_p50_us = 0;
  storage_lock_hold_p95_us = 0;
  storage_lock_max_hold_us = 0;
  storage_lock_wait_p95_us = 0;
  storage_lock_max_wait_us = 0;
  sqlite_busy_waits = 0;
  sqlite_busy_exhausted = 0;
  sqlite_busy_max_wait_ms = 0;
}
