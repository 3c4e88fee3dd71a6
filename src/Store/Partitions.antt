-- ===== src/Store/Partitions.antt =====
-- internal/store/ready_partition.go: the ready tasks of a plan, in the order of dispatch, grouped by
-- leaf group and declared binding.
pub mod Complete
use Prim.Native.Char.{Char, code}
use Prim.Native.String.{◌++◌ as ◌<>◌}
use radioactive_ralph.Prelude.{
  ℕ, ◌≡◌, refl, sym, ap, ◌∙◌, subst, String, Bool, true, false, not, ◌&&◌, ◌||◌, &&_true,
  Bool-cases, Option, Option-cases, none, some, List, [], ◌∷◌, ◌++◌, Memᴰ, map, any, find?, filterb,
  mem-filterb, mem-filterb_intro, insert_by, sort_by, if◌then◌else◌, leb, ltb, ◌==◌, text_eq,
  text_eq_sound, text_eq_refl, inl, inr, ◌⊎◌, arith,
}
use radioactive_ralph.Store.Schema.{Task, TaskMetadataRow, Db, is_pre_dispatch}
use radioactive_ralph.Store.Queries.{has_open_dep, claim_le}
use radioactive_ralph.Store.Blocks.{is_row}

-- Text in the byte order of the database, which is the order of code points.
unfoldable pub text_le : String → String → Bool
text_le String.[] t = true
text_le (String.◌∷◌ c s) String.[] = false
text_le (String.◌∷◌ c s) (String.◌∷◌ d t) =
    let later = text_le s t in ltb (code c) (code d) || (code c == code d && later)

pub record ReadyPartition : Type 0 where
  pub group_path : String
  pub binding_key : String
  pub tasks : List Task

-- A row of the query: the task with COALESCE(m.group_path,'') and COALESCE(m.metadata_json,'').
pub record ReadyRow : Type 0 where
  pub task : Task
  pub group_path : String
  pub metadata_json : String

abbrev pub ready_row : Db → Task → ReadyRow
ready_row db t = elim (find? (is_row t.plan_id t.id) db.metadata) [
  | none ↦ record { task = t; group_path = ""; metadata_json = "" }
  | some m ↦ record { task = t; group_path = m.group_path; metadata_json = m.metadata_json }
]

-- The WHERE clause: the four statuses before dispatch, and no open dependency.
abbrev pub is_dispatchable : Db → String → Task → Bool
is_dispatchable db plan t =
    text_eq t.plan_id plan && is_pre_dispatch t.status && not (has_open_dep db t)

-- The ORDER BY clause.
abbrev pub row_le : ReadyRow → ReadyRow → Bool
row_le a b =
    if text_eq a.group_path b.group_path
    then claim_le a.task.sequence_ordinal a.task.created_at b.task.sequence_ordinal
        b.task.created_at
    else text_le a.group_path b.group_path

unfoldable pub ready_rows : String → Db → List ReadyRow
ready_rows plan db =
    sort_by row_le (map (ready_row db) (filterb (is_dispatchable db plan) db.tasks))

-- `binding_of` is `declaredBindingKey`, which decodes JSON.
module _ (binding_of : String → String) where
  abbrev pub row_key : ReadyRow → String
  row_key r = r.group_path <> ("\0" <> binding_of r.metadata_json)

  abbrev pub partition_key : ReadyPartition → String
  partition_key p = p.group_path <> ("\0" <> p.binding_key)

  -- The row joins the partition of its key, or starts one at the end. The index by key that the
  -- source keeps finds the partition that has this key.
  abbrev pub place : ReadyRow → List ReadyPartition → List ReadyPartition
  place r [] =
      record {
        group_path = r.group_path;
        binding_key = binding_of r.metadata_json;
        tasks = r.task ∷ [];
      }
      ∷ []
  place r (p ∷ ps) =
      let later = place r ps in
      if text_eq (partition_key p) (row_key r)
      then record p { tasks = p.tasks ++ r.task ∷ [] } ∷ ps
      else p ∷ later

  abbrev pub place_all : List ReadyRow → List ReadyPartition → List ReadyPartition
  place_all [] ps = ps
  place_all (r ∷ rs) ps = place_all rs (place r ps)

  -- `ReadyPartitions`
  unfoldable pub ready_partitions : String → Db → List ReadyPartition
  unfolding ready_rows
  ready_partitions plan db = place_all (ready_rows plan db) []
