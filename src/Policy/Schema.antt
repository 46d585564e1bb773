-- ===== src/Policy/Schema.antt =====
-- shiroe/policy/schema.py: what a policy decision is about. `Action.context` is left out: no check
-- of a policy layer reads it.
use shiroe.Prelude.{ℕ, String, List, [], ◌∷◌, ◌≡◌, refl, Equatable, enum_eq, nth_or}

pub data ActionKind : Type 0 where
  fs_read fs_write fs_delete network secret_read subprocess : ActionKind
  external_write destructive memory_write event_write push merge : ActionKind
  publish external_message permission_change budget_escalation : ActionKind
  dependency_add capability_invoke : ActionKind

abbrev pub all_kinds : List ActionKind
all_kinds =
    fs_read ∷ fs_write ∷ fs_delete ∷ network ∷ secret_read ∷ subprocess ∷ external_write
    ∷ destructive ∷ memory_write ∷ event_write ∷ push ∷ merge ∷ publish ∷ external_message
    ∷ permission_change ∷ budget_escalation ∷ dependency_add ∷ capability_invoke ∷ []

abbrev pub kinds_code : ActionKind → ℕ
kinds_code fs_read = 0
kinds_code fs_write = 1
kinds_code fs_delete = 2
kinds_code network = 3
kinds_code secret_read = 4
kinds_code subprocess = 5
kinds_code external_write = 6
kinds_code destructive = 7
kinds_code memory_write = 8
kinds_code event_write = 9
kinds_code push = 10
kinds_code merge = 11
kinds_code publish = 12
kinds_code external_message = 13
kinds_code permission_change = 14
kinds_code budget_escalation = 15
kinds_code dependency_add = 16
kinds_code capability_invoke = 17

pub kinds_code-back : (a d : ActionKind) → nth_or all_kinds (kinds_code a) d ≡ a
unfolding nth_or
kinds_code-back fs_read d = refl
kinds_code-back fs_write d = refl
kinds_code-back fs_delete d = refl
kinds_code-back network d = refl
kinds_code-back secret_read d = refl
kinds_code-back subprocess d = refl
kinds_code-back external_write d = refl
kinds_code-back destructive d = refl
kinds_code-back memory_write d = refl
kinds_code-back event_write d = refl
kinds_code-back push d = refl
kinds_code-back merge d = refl
kinds_code-back publish d = refl
kinds_code-back external_message d = refl
kinds_code-back permission_change d = refl
kinds_code-back budget_escalation d = refl
kinds_code-back dependency_add d = refl
kinds_code-back capability_invoke d = refl

instance abbrev pub kind_eq : Equatable ActionKind
kind_eq = enum_eq all_kinds kinds_code kinds_code-back

pub data Verdict : Type 0 where
  allow deny require_approval : Verdict

pub record Action : Type 0 where
  pub kind : ActionKind
  pub target : String

pub record Decision : Type 0 where
  pub verdict : Verdict
  pub reason : String
  pub deciding_layer : String

-- The frozensets are lists that are only tested for membership.
pub record PolicyLayer : Type 0 where
  pub name : String
  pub denies : List ActionKind
  pub allows : List ActionKind
  pub fs_write_scopes : List String
  pub fs_read_scopes : List String
  pub network_hosts : List String
