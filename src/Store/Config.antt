-- ===== src/Store/Config.antt =====
-- internal/store/project_config_store.go: JSONProjectConfigStore, over what its file decodes to.
pub mod Newest
use runner.Prelude.{
  ℕ, Bool, true, false, not, ◌&&◌, ◌||◌, ◌==◌, ltb, List, [], ◌∷◌, Option, none, some,
  if◌then◌else◌,
}
use runner.Prelude.Bytes.{Bytes, bytes_eq, trim_space}
use runner.Store.Table.{Table, get, put, values}
use runner.Store.Claim.{is_empty}
use runner.Store.Session.{keep, first}

-- domain.ProjectConfig: the maps Config and Sensitive are of any type, nil is none. A version that
-- is not positive is 0.
pub record ProjectConfig (C : Type 0) : Type 0 where
  pub id : Bytes
  pub project_id : Bytes
  pub version : ℕ
  pub config : Option C
  pub sensitive : Option C
  pub created_at : ℕ

pub record ConfigStore (C D : Type 0) : Type 0 where
  pub data_ : Table (ProjectConfig C)
  pub disk : D

pub data ConfigReply : Type 0 where
  config_saved config_id_required config_project_required version_required : ConfigReply
  config_not_written : ConfigReply

abbrev or_map : {C : Type 0} → C → Option C → Option C
or_map c none = some c
or_map c (some d) = some d

-- The `less` of Latest: the higher version first, then the newer.
unfoldable pub later_first : {C : Type 0} → ProjectConfig C → ProjectConfig C → Bool
later_first a b =
    if a.version == b.version then ltb b.created_at a.created_at else ltb b.version a.version

module _ {C D : Type 0}
    (sort_slice : (ProjectConfig C → ProjectConfig C → Bool)
      → List (ProjectConfig C)
      → List (ProjectConfig C)) where
  -- Latest; none is ErrProjectConfigNotFound.
  unfoldable pub latest : Bytes → ConfigStore C D → Option (ProjectConfig C)
  latest project_id s =
      let wanted = trim_space project_id in
      if is_empty wanted
      then none
      else first (
          sort_slice later_first
            (keep (λ (c : ProjectConfig C). bytes_eq c.project_id wanted) (values s.data_)))

module _ {C D : Type 0} (empty : C) (persist : Table (ProjectConfig C) → D → Bool × D) where
  -- What Save writes of a configuration, at the clock's time.
  abbrev pub prepared : ℕ → ProjectConfig C → ProjectConfig C
  prepared clock c = record c {
    id = trim_space c.id;
    project_id = trim_space c.project_id;
    config = or_map empty c.config;
    sensitive = or_map empty c.sensitive;
    created_at = if c.created_at == 0 then clock else c.created_at;
  }

  unfoldable pub save_config : ℕ → ProjectConfig C → ConfigStore C D → ConfigReply × ConfigStore C D
  save_config clock c s =
      let data_ = put (trim_space c.id) (prepared clock c) s.data_ in
      let (ok, disk) = persist data_ s.disk in
      if is_empty (trim_space c.id)
      then (config_id_required, s)
      else if is_empty (trim_space c.project_id)
      then (config_project_required, s)
      else if c.version == 0
      then (version_required, s)
      else (
        if ok then config_saved else config_not_written,
        record s { data_ = data_; disk = disk },
      )

-- NewJSONProjectConfigStore, on what the file decodes to; none where it cannot be read or decoded.
unfoldable pub new_config_store :
    {C D : Type 0} → (D → Option (Table (ProjectConfig C))) → D → Option (ConfigStore C D)
new_config_store decode disk = elim (decode disk) [
  | none ↦ none
  | some table ↦ some (record { data_ = table; disk = disk })
]
