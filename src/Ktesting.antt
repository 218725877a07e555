-- ===== src/Ktesting.antt =====
-- internal/ktesting: the helpers of the end-to-end tests.
pub mod Hex
use Prim.Native.String.{slice, len}
use kibertas.Api.{Reply, answer, refused}
use kibertas.Go.Hex.{encode_to_string}
use kibertas.Prelude.{
  ℕ, ◌+◌, ◌/◌, ◌%◌, String, ◌<>◌, List, [], ◌∷◌, str_eq, ltb, if◌then◌else◌, Option, none, some,
}

-- `HelmChartDependency` and `HelmChartMeta`
pub record HelmChartDependency : Type 0 where
  pub name : String
  pub version : String

pub record HelmChartMeta : Type 0 where
  pub name : String
  pub version : String
  pub dependencies : List HelmChartDependency

-- `LoadHelmChartMeta`, on `os.ReadFile` and on what `yaml.Unmarshal` makes of a text and a record
unfoldable pub load_helm_chart_meta :
    (String → Reply String)
    → (String → HelmChartMeta → Reply HelmChartMeta)
    → String
    → Reply HelmChartMeta
load_helm_chart_meta read_file unmarshal chart_path = elim (read_file chart_path) [
  | refused e ↦ refused e
  | answer yaml_file ↦ unmarshal yaml_file (record { name = ""; version = ""; dependencies = [] })
]

pub data VersionResult : Type 0 where
  version : String → VersionResult
  -- the text of the error
  not_found : String → VersionResult

-- The loop of `GetVersion`.
unfoldable pub find_version : List HelmChartDependency → String → VersionResult
find_version [] name = VersionResult.not_found ("dependency " <> (name <> " not found"))
find_version (d ∷ ds) name =
    if str_eq d.name name then VersionResult.version d.version else find_version ds name

-- `GetVersion`
unfoldable pub get_version : HelmChartMeta → String → VersionResult
unfolding find_version
get_version h name = find_version h.dependencies name

-- `cluster_id_len` and the random cluster ID: five of the six hex digits of three random bytes, or a
-- fixed ID if the random source fails.
abbrev pub cluster_id_len : ℕ
cluster_id_len = 5

-- `randomHex`, on what `rand.Read` makes of a buffer of that many bytes: the bytes, or an error
unfoldable pub random_hex : (ℕ → Option (List ℕ)) → ℕ → Option String
unfolding encode_to_string
random_hex read n = elim (read n) [ none ↦ none | some b ↦ some (encode_to_string b) ]

-- `WithRandomClusterID`: the ID that the option sets.
unfoldable pub random_cluster_id : (ℕ → Option (List ℕ)) → String
unfolding random_hex
random_cluster_id read = elim (random_hex read 3) [
  | none ↦ "aaaaa"
  | some id ↦ if ltb cluster_id_len (len id) then slice id 0 cluster_id_len else id
]
