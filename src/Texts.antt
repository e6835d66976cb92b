-- ===== src/Texts.antt =====
-- Texts put together.
use Prim.Native.String.{◌++◌}
use aiops_control_lab.Base.{String, List, [], ◌∷◌}

-- `separator.join(texts)`
unfoldable pub joined_by : String → List String → String
joined_by separator [] = ""
joined_by separator (t ∷ []) = t
joined_by separator (t ∷ u ∷ texts) = t ++ (separator ++ joined_by separator (u ∷ texts))
