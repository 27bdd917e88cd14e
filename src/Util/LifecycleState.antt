-- ===== src/Util/LifecycleState.antt =====
-- The states of apis/apps/pub/lifecycle.go, and the label that holds them.
use kruise.Prelude.{String}

abbrev pub key : String
key = "lifecycle.apps.kruise.io/state"

abbrev pub preparing_normal : String
preparing_normal = "PreparingNormal"

abbrev pub normal : String
normal = "Normal"

abbrev pub preparing_update : String
preparing_update = "PreparingUpdate"

abbrev pub updating : String
updating = "Updating"

abbrev pub updated : String
updated = "Updated"

abbrev pub preparing_delete : String
preparing_delete = "PreparingDelete"
