-- ===== src/Reserved.antt =====
-- packages/common/src/reserved.ts: names that the SDK keeps for itself.
use sdk_typescript.Prelude.{
  String, Bool, true, false, ◌&&◌, ◌||◌, not, ◌==◌, Option, none, some, [], ◌∷◌, string_same,
  starts_with,
}
use sdk_typescript.JsMap.{JsMap, get}

pub data EntityType : Type 0 where
  query signal update activity task_queue sink workflow : EntityType

abbrev pub temporal_reserved_prefix : String
temporal_reserved_prefix = "__temporal_"

abbrev pub stack_trace_query_name : String
stack_trace_query_name = "__stack_trace"

abbrev pub enhanced_stack_trace_query_name : String
enhanced_stack_trace_query_name = "__enhanced_stack_trace"

-- INTERNAL_RESERVED_NAME_ALLOWLIST
unfoldable pub internal_reserved_name_allowlist : JsMap String EntityType
internal_reserved_name_allowlist =
    ("__temporal_workflow_stream_publish", signal)
    ∷ ("__temporal_workflow_stream_poll", update)
    ∷ ("__temporal_workflow_stream_offset", query)
    ∷ ("__temporal_openai_agents_tracing", sink)
    ∷ ("__temporal_langsmith", sink)
    ∷ []

same_type : EntityType → EntityType → Bool
same_type query query = true
same_type signal signal = true
same_type update update = true
same_type activity activity = true
same_type task_queue task_queue = true
same_type sink sink = true
same_type workflow workflow = true
same_type _ _ = false

allowed_as : Option EntityType → EntityType → Bool
unfolding same_type
allowed_as none t = false
allowed_as (some s) t = same_type s t

-- throwIfReservedName: true where it throws.
unfoldable pub is_reserved_name : EntityType → String → Bool
unfolding allowed_as
is_reserved_name type name =
    (starts_with name temporal_reserved_prefix
      && not (allowed_as (get name internal_reserved_name_allowlist) type))
    || name == stack_trace_query_name
    || name == enhanced_stack_trace_query_name
