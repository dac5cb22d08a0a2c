-- ===== src/Search/Files.antt =====
-- `SearchInfo::Load` and `Save` of src/systematic/search.cc, over the messages of search.proto; a file
-- is what a parameter of Search/Store makes of a message. A failing lookup of a thread, which the
-- code asserts away, is `none`.
use data_race_detectors.Base.{
  ℕ, Bool, Option, none, some, List, [], ◌∷◌, ◌++◌, if◌then◌else◌, Map, insert,
}
use data_race_detectors.Lockset.{add, is_exist}
use data_race_detectors.Sync.{◌>>=◌}
use data_race_detectors.Program.{Operation, length}
use data_race_detectors.Objects.{thread_uid, object_uid, Program, find_thread, find_object}
use data_race_detectors.Search.{ActionInfo, SearchNode, SearchInfo}

-- The messages of search.proto.
pub record ActionInfoProto : Type 0 where
  pub thd_uid : ℕ
  pub obj_uid : Option ℕ
  pub op : Operation
  pub inst_id : Option ℕ

pub record SearchNodeProto : Type 0 where
  pub sel : ℕ
  pub backtrack : List ℕ
  pub done : List ℕ
  pub enabled : List ActionInfoProto

pub record SearchInfoProto : Type 0 where
  pub done : Bool
  pub num_runs : ℕ
  pub node : List SearchNodeProto

-- `StaticInfo`: the ids that have an instruction.
pub record StaticInfo : Type 0 where
  pub insts : List ℕ

-- `FindInst`
unfoldable pub find_inst : ℕ → StaticInfo → Option ℕ
unfolding is_exist
find_inst id sinfo = if is_exist id sinfo.insts then some id else none

unfoldable pub save_enabled : Map ActionInfo → List ActionInfoProto
save_enabled [] = []
save_enabled ((t, i) ∷ m) =
    record { thd_uid = i.thd; obj_uid = i.obj; op = i.op; inst_id = i.inst } ∷ save_enabled m

unfoldable pub save_nodes : List SearchNode → Option (List SearchNodeProto)
unfolding save_enabled
save_nodes [] = some []
save_nodes (n ∷ ns) =
    let rest = save_nodes ns in
    do
      sel ← n.sel
      ps ← rest
      some (
          record {
            sel = sel;
            backtrack = n.backtrack;
            done = n.done;
            enabled = save_enabled n.enabled;
          }
          ∷ ps)

-- `Save`, up to the file.
unfoldable pub save : SearchInfo → Option SearchInfoProto
unfolding save_nodes
save info = save_nodes info.stack >>= λ ns.
    some (record { done = info.done; num_runs = info.num_runs; node = ns })

-- `FindThread`, as a pointer.
abbrev pub thread_at : ℕ → Program → Option ℕ
thread_at uid p = find_thread uid p >>= λ t. some (thread_uid t)

abbrev pub object_at : Option ℕ → Program → Option ℕ
object_at o p = o >>= λ uid. find_object uid p >>= λ x. some (object_uid x)

abbrev pub inst_at : Option ℕ → StaticInfo → Option ℕ
inst_at o sinfo = o >>= λ id. find_inst id sinfo

-- The loops that fill the sets and the map of a node.
unfoldable pub load_threads : Program → List ℕ → List ℕ → Option (List ℕ)
unfolding find_thread add
load_threads p [] ts = some ts
load_threads p (uid ∷ uids) ts = thread_at uid p >>= λ t. load_threads p uids (add t ts)

unfoldable pub load_enabled :
    StaticInfo → Program → List ActionInfoProto → Map ActionInfo → Option (Map ActionInfo)
unfolding find_thread find_object find_inst insert
load_enabled sinfo p [] m = some m
load_enabled sinfo p (q ∷ qs) m = thread_at q.thd_uid p >>= λ t. load_enabled sinfo p qs (
    insert t
      (record { thd = t; obj = object_at q.obj_uid p; op = q.op; inst = inst_at q.inst_id sinfo })
      m)

unfoldable pub load_nodes :
    StaticInfo → Program → List SearchNodeProto → List SearchNode → Option (List SearchNode)
unfolding find_thread load_threads load_enabled
load_nodes sinfo p [] stack = some stack
load_nodes sinfo p (q ∷ qs) stack = do
  sel ← thread_at q.sel p
  backtrack ← load_threads p q.backtrack []
  done ← load_threads p q.done []
  enabled ← load_enabled sinfo p q.enabled []
  load_nodes sinfo p qs (
      stack
      ++ record {
        idx = length stack;
        sel = some sel;
        backtrack = backtrack;
        done = done;
        enabled = enabled;
      }
        ∷ [])

-- `Load`, from the message on; a file that cannot be opened gives the empty message.
unfoldable pub load : StaticInfo → Program → SearchInfoProto → SearchInfo → Option SearchInfo
unfolding load_nodes
load sinfo p q info = load_nodes sinfo p q.node info.stack >>= λ stack.
    some (record info { done = q.done; num_runs = q.num_runs; stack = stack })
