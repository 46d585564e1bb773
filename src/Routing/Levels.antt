-- ===== src/Routing/Levels.antt =====
-- The words of shiroe/core/reasoning.py: the criticalities and the reasoning classes, with their order.
use shiroe.Prelude.{ℕ, true, false, ltb}

-- `CRITICALITIES`
pub data Level : Type 0 where
  low medium high critical : Level

-- `_LEVEL_ORDER.index`
abbrev pub level_index : Level → ℕ
level_index low = 0
level_index medium = 1
level_index high = 2
level_index critical = 3

-- the classes that buy reasoning: `[FAST, BALANCED, DEEP, FRONTIER]`
pub data ReasoningClass : Type 0 where
  fast balanced deep frontier : ReasoningClass

-- `order.index`
abbrev pub class_index : ReasoningClass → ℕ
class_index fast = 0
class_index balanced = 1
class_index deep = 2
class_index frontier = 3

-- `_CRITICALITY_TO_CLASS`
unfoldable pub resolve_class : Level → ReasoningClass
resolve_class low = fast
resolve_class medium = balanced
resolve_class high = deep
resolve_class critical = frontier

-- `_bump`
unfoldable pub bump : (current candidate : Level) → Level
bump current candidate = elim (ltb (level_index current) (level_index candidate)) [
  | true ↦ candidate
  | false ↦ current
]
