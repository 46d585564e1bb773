-- ===== src/Execution/Results.antt =====
-- What the supervisor of shiroe/execution/supervisor.py reads in the result of an adapter, and the texts
-- that it makes.
use Prim.Native.String.{◌++◌ as str_append}
use shiroe.Prelude.{
  String, Bool, true, false, Option, none, some, List, [], ◌∷◌, ◌==◌, string_eq, if◌then◌else◌,
}
use shiroe.Prelude.Json.{Fields, end, field_truthy, has_field}
use shiroe.Policy.Service.{AuthorizationResult}
use shiroe.Work.Store.{WorkState, find_node}

-- `repr` of a list of texts without quotes
unfoldable pub list_text : List String → String
list_text [] = ""
list_text (name ∷ []) = str_append "'" (str_append name "'")
list_text (name ∷ more) = str_append "'" (str_append name (str_append "', " (list_text more)))

-- `[name for name in node.expected_outputs if name not in out]`
unfoldable pub missing_outputs : Fields → List String → List String
unfolding has_field
missing_outputs out [] = []
missing_outputs out (name ∷ names) =
    let rest = missing_outputs out names in if has_field name out then rest else name ∷ rest

-- `_has_evidence`
unfoldable pub has_evidence : Fields → Bool
unfolding field_truthy
has_evidence out = elim (field_truthy "evidence" out) [
  | true ↦ true
  | false ↦ field_truthy "evidence_refs" out
]

-- `node_output(node.id) or {}`
unfoldable pub output_of : String → WorkState → Fields
unfolding find_node
output_of node_id s = elim (find_node node_id s.tables.nodes) [
  | none ↦ end
  | some row ↦ elim row.output [ none ↦ end | some output ↦ output ]
]

-- `result.error or "adapter failed"`
unfoldable pub or_failed : Option String → String
or_failed none = "adapter failed"
or_failed (some error) = if error == "" then "adapter failed" else error

-- the reason and the approvals of a run that waits for a human
unfoldable pub held_text : AuthorizationResult → String
held_text auth = elim auth.approval_id [
  | none ↦ "approval"
  | some id ↦
      if id == ""
      then "approval"
      else str_append "approval " (str_append id (str_append ": " auth.reason))
]

unfoldable pub asked : Option String → List String
asked none = []
asked (some id) = if id == "" then [] else id ∷ []
