-- ===== src/Fleet/Models.antt =====
-- The models that can be installed, and the walk through a catalog: `_walkCatalog`,
-- `registerModelCatalog` (source/services/Ultravisor-FleetManager.cjs). The disk is a
-- tree of names in the order of `readdir`. A path is a list of characters, a key the number of one.
use ultravisor.Base.{
  ℕ, ◌==◌, Bool, true, false, ◌&&◌, ◌||◌, Option, none, some, [], ◌∷◌, ◌++◌, if◌then◌else◌,
}
use ultravisor.Base.Dict.{Dict, insert}
use ultravisor.Work.{Text}
use ultravisor.Engine.Names.{same_name}
use ultravisor.Fleet.Push.{FilePath, slash}

abbrev pub backslash : ℕ
backslash = 92

abbrev pub dot : ℕ
dot = 46

pub record Manifest : Type 0 where
  pub name : Text

-- A file with the manifest that its text parses to, a folder, a folder that cannot be read, and an
-- entry for which `stat` fails.
mutual
  pub data Node : Type 0 where
    file : Option Manifest → Node
    folder : Nodes → Node
    locked broken : Node

  pub data Nodes : Type 0 where
    nil : Nodes
    entry : FilePath → Node → Nodes → Nodes

pub record Catalog : Type 0 where
  pub root : FilePath
  pub manifest_name : FilePath
  -- `ModelKeyResolver`
  pub key_of : FilePath → Text
  pub push_action : Text
  pub finalize_action : Text

pub record AvailableModel : Type 0 where
  pub model_name : Text
  pub source_dir : FilePath
  pub push_action : Text
  pub finalize_action : Text

-- `text.indexOf(prefix) === 0`
unfoldable pub starts_with : FilePath → FilePath → Bool
starts_with [] text = true
starts_with (c ∷ cs) [] = false
starts_with (c ∷ cs) (d ∷ ds) = c == d && starts_with cs ds

-- `node_modules`, `__pycache__` and `venvs` are an argument.
abbrev pub starts_with_dot : FilePath → Bool
starts_with_dot [] = false
starts_with_dot (c ∷ cs) = c == dot

unfoldable pub find_node : FilePath → Nodes → Option Node
unfolding same_name
find_node name nil = none
find_node name (entry n x rest) =
    let later = find_node name rest in if same_name n name then some x else later

-- `pInto.set`, unless the manifest cannot be parsed or the directory has no key.
unfoldable pub add_model : Catalog → FilePath → Node → Dict AvailableModel → Dict AvailableModel
add_model c dir (file (some m)) into =
    let key = c.key_of dir in
    let model : AvailableModel = record {
      model_name = if m.name == 0 then key else m.name;
      source_dir = dir;
      push_action = c.push_action;
      finalize_action = c.finalize_action;
    } in
    if key == 0 then into else insert key model into
add_model c dir _ into = into

unfoldable mutual
  unfolding find_node add_model

  pub walk :
      (FilePath → Bool) → Catalog → FilePath → Node → Dict AvailableModel → Dict AvailableModel
  walk skips c dir (file m) into = into
  walk skips c dir locked into = into
  walk skips c dir broken into = into
  walk skips c dir (folder nodes) into =
      let deeper = walk_entries skips c dir nodes into in
      elim (find_node c.manifest_name nodes) [ some x ↦ add_model c dir x into | none ↦ deeper ]

  pub walk_entries :
      (FilePath → Bool) → Catalog → FilePath → Nodes → Dict AvailableModel → Dict AvailableModel
  walk_entries skips c dir nil into = into
  walk_entries skips c dir (entry n x rest) into =
      let visited = walk skips c (dir ++ slash ∷ n) x into in
      walk_entries skips c dir rest (if starts_with_dot n || skips n then into else visited)
