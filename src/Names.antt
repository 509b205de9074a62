-- ===== src/Names.antt =====
-- `makeSandboxName` and `makeContainerName` of pkg/server/helpers.go: the names that the registrars
-- reserve. `show` is `fmt.Sprintf("%d", n)`.
pub mod Unique
use Prim.Native.String.{◌++◌ as str_append}
use cri.Base.{String, ℕ, List, [], ◌∷◌}

-- nameDelimiter
abbrev pub name_delimiter : String
name_delimiter = "_"

-- strings.Join
unfoldable pub join : List String → String → String
join [] sep = ""
join (s ∷ []) sep = s
join (s ∷ t ∷ ts) sep = str_append s (str_append sep (join (t ∷ ts) sep))

-- The fields that a name is made of.
pub record PodMetadata : Type 0 where
  pub name : String
  pub namespace : String
  pub uid : String
  pub attempt : ℕ

pub record ContainerMetadata : Type 0 where
  pub name : String
  pub attempt : ℕ

module _ (show : ℕ → String) where
  -- makeSandboxName
  unfoldable pub make_sandbox_name : PodMetadata → String
  make_sandbox_name s = join (s.name ∷ s.namespace ∷ s.uid ∷ show s.attempt ∷ []) name_delimiter

  -- makeContainerName
  unfoldable pub make_container_name : ContainerMetadata → PodMetadata → String
  make_container_name c s =
      join (c.name ∷ s.name ∷ s.namespace ∷ s.uid ∷ show c.attempt ∷ []) name_delimiter
