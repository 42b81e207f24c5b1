-- ===== src/Provider/Snapshot.antt =====
-- The URI that internal/provider/lifecycle.go records the origin of a mirrored entry in.
use Prim.Native.String.{String, ◌++◌}
use mathlib.Core.Option.{Option, none, some}
use vatbrain.Prelude.{string_eq, ◌==◌, if◌then◌else◌}

-- `&origin=`, where the metadata have an origin that is not empty
origin_part : Option String → String
origin_part none = ""
origin_part (some o) = if o == "" then "" else "&origin=" ++ o

unfoldable pub snapshot_uri : String → String → String → Option String → String
unfolding origin_part
snapshot_uri target hash action origin =
    "hermes://memory-write/"
    ++ target
    ++ "#"
    ++ hash
    ++ "?action="
    ++ action
    ++ "&source=user_explicit"
    ++ origin_part origin
