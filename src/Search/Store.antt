-- ===== src/Search/Store.antt =====
-- `SearchInfo::Save` and `Load` of src/systematic/search.cc: the search that a run saves is the one
-- that the next run loads.
use mathlib.Core.List.{append_assoc, append-nil}
use data_race_detectors.Base.{
  ℕ, suc, ◌≡◌, refl, sym, ap, ◌∙◌, some, List, [], ◌∷◌, ◌++◌, Map, insert, From, arith,
}
use data_race_detectors.Lockset.{Rising}
use data_race_detectors.Program.{length}
use data_race_detectors.Objects.{Program}
use data_race_detectors.Search.{ActionInfo, SearchNode, SearchInfo, new_search_info}
use data_race_detectors.Search.Files.{
  SearchInfoProto, SearchNodeProto, StaticInfo, thread_at, object_at, inst_at, save_enabled,
  save_nodes, save, load_threads, load_enabled, load_nodes, load,
}
use data_race_detectors.Search.InOrder.{
  KeysBelow, KeysBelow-push, KeysBelow-mono, insert_last, AllBelow, AllBelow-push, AllBelow-mono,
  add_last,
}

module _ (sinfo : StaticInfo) (p : Program) where
  abbrev pub IsKnown : ℕ → Type 0
  IsKnown t = thread_at t p ≡ some t

  abbrev pub AllKnown : List ℕ → Type 0
  AllKnown [] = Unit
  AllKnown (t ∷ ts) = IsKnown t × AllKnown ts

  -- The action of an enabled thread stands under it, and what it names is in the program.
  abbrev pub InfosKnown : Map ActionInfo → Type 0
  InfosKnown [] = Unit
  InfosKnown ((t, i) ∷ m) =
      ((i.thd ≡ t) × IsKnown t × (object_at i.obj p ≡ i.obj) × (inst_at i.inst sinfo ≡ i.inst))
      × InfosKnown m

  -- The nodes have the indices from `k` on, a selected thread, and sets and maps in order.
  abbrev pub NodesKnown : ℕ → List SearchNode → Type 0
  NodesKnown k [] = Unit
  NodesKnown k (n ∷ ns) =
      ((n.idx ≡ k)
        × ((t : ℕ) × (n.sel ≡ some t) × IsKnown t)
        × (Rising 0 n.backtrack × AllKnown n.backtrack)
        × (Rising 0 n.done × AllKnown n.done)
        × (From 0 n.enabled × InfosKnown n.enabled))
      × NodesKnown (suc k) ns

  load_threads-append :
      (lo : ℕ) (uids ts : List ℕ)
      → Rising lo uids
      → AllKnown uids
      → AllBelow lo ts
      → load_threads p uids ts ≡ some (ts ++ uids)
  unfolding load_threads
  load_threads-append lo [] ts r k b = ap some (sym (append-nil ts))
  load_threads-append lo (u ∷ uids) ts r k b =
      let b' = AllBelow-mono lo u ts r.0 b in
      rw (k.0, add_last u ts b')
        (load_threads-append (suc u) uids (ts ++ u ∷ []) r.1 k.1
            (AllBelow-push (suc u) u ts (omega arith) b')
          ∙ ap some (append_assoc ts (u ∷ []) uids))

  load_enabled-step :
      (t : ℕ) (i : ActionInfo) (es m : Map ActionInfo)
      → i.thd ≡ t
      → IsKnown t
      → object_at i.obj p ≡ i.obj
      → inst_at i.inst sinfo ≡ i.inst
      → load_enabled sinfo p (save_enabled ((t, i) ∷ es)) m
        ≡ load_enabled sinfo p (save_enabled es) (insert t i m)
  unfolding load_enabled save_enabled
  load_enabled-step t i es m same known o x = simp (same, known, o, x) (ground (arith, same))

  load_enabled-save :
      (lo : ℕ) (es m : Map ActionInfo)
      → From lo es
      → InfosKnown es
      → KeysBelow lo m
      → load_enabled sinfo p (save_enabled es) m ≡ some (m ++ es)
  load_enabled-save lo [] m f k b =
      unfold load_enabled save_enabled in (ap some (sym (append-nil m)))
  load_enabled-save lo ((t, i) ∷ es) m f ((same, known, o, x), k) b =
      let b' = KeysBelow-mono lo t m f.0 b in
      load_enabled-step t i es m same known o x
      ∙ ap (load_enabled sinfo p (save_enabled es)) (insert_last t i m b')
      ∙ load_enabled-save (suc t) es (m ++ (t, i) ∷ []) f.1 k
          (KeysBelow-push (suc t) t i m (omega arith) b')
      ∙ ap some (append_assoc m ((t, i) ∷ []) es)

  length-push : (ns : List SearchNode) (n : SearchNode) → length (ns ++ n ∷ []) ≡ suc (length ns)
  length-push [] n = refl
  length-push (x ∷ ns) n = omega (arith, length-push ns n)

  -- The message of a node, once its selected thread is known.
  abbrev node_proto : SearchNode → ℕ → SearchNodeProto
  node_proto n t = record {
    sel = t;
    backtrack = n.backtrack;
    done = n.done;
    enabled = save_enabled n.enabled;
  }

  load_nodes-step :
      (n : SearchNode) (t : ℕ) (qs : List SearchNodeProto) (stack : List SearchNode)
      → n.idx ≡ length stack
      → n.sel ≡ some t
      → IsKnown t
      → load_threads p n.backtrack [] ≡ some n.backtrack
      → load_threads p n.done [] ≡ some n.done
      → load_enabled sinfo p (save_enabled n.enabled) [] ≡ some n.enabled
      → load_nodes sinfo p (node_proto n t ∷ qs) stack ≡ load_nodes sinfo p qs (stack ++ n ∷ [])
  unfolding load_nodes
  load_nodes-step n t qs stack i s k b d e =
      simp (k, b, d, e)
        (ap (λ (x : SearchNode). load_nodes sinfo p qs (stack ++ x ∷ [])) (ground (arith, i, s)))

  -- The nodes of a stack can be saved, and loading them puts them back.
  Stored : ℕ → List SearchNode → Type 0
  Stored k ns =
      (qs : List SearchNodeProto) × (save_nodes ns ≡ some qs)
      × ((stack : List SearchNode)
          → length stack ≡ k
          → load_nodes sinfo p qs stack ≡ some (stack ++ ns))

  nodes-Stored : (k : ℕ) (ns : List SearchNode) → NodesKnown k ns → Stored k ns
  unfolding Stored save_nodes load_nodes
  nodes-Stored k [] h = ([], refl, λ stack l. ap some (sym (append-nil stack)))
  nodes-Stored k (n ∷ ns) ((i, (t, s, known), b, d, e), h) =
      let (qs, saved, loaded) = nodes-Stored (suc k) ns h in
      (
        node_proto n t ∷ qs,
        rw (s, saved) refl,
        λ stack l.
            step stack l qs
            ∙ loaded (stack ++ n ∷ []) (length-push stack n ∙ ap suc l)
            ∙ ap some (append_assoc stack (n ∷ []) ns),
      )
    where
      step :
          (stack : List SearchNode)
          → length stack ≡ k
          → (qs : List SearchNodeProto)
          → load_nodes sinfo p (node_proto n t ∷ qs) stack ≡ load_nodes sinfo p qs (stack ++ n ∷ [])
      step stack l qs =
          load_nodes-step n t qs stack (i ∙ sym l) s known
            (load_threads-append 0 n.backtrack [] b.0 b.1 tt)
            (load_threads-append 0 n.done [] d.0 d.1 tt)
            (load_enabled-save 0 n.enabled [] e.0 e.1 tt)

-- A search whose nodes are complete and whose threads, objects and instructions are those of the
-- program can be saved, and a new search that loads the file is the saved one with its cursor at
-- the start, whatever writes and reads the message, as long as reading gives what was written.
pub load-save :
    {File : Type 0} (write : SearchInfoProto → File) (read : File → SearchInfoProto)
    → ((q : SearchInfoProto) → read (write q) ≡ q)
    → (sinfo : StaticInfo) (p : Program) (info : SearchInfo) → NodesKnown sinfo p 0 info.stack
    → (q : SearchInfoProto) × (save info ≡ some q)
      × (load sinfo p (read (write q)) new_search_info ≡ some (record info { cursor = 0 }))
unfolding save load Stored
load-save write read same sinfo p info h =
    let (qs, saved, loaded) = nodes-Stored sinfo p 0 info.stack h in
    let q : SearchInfoProto = record { done = info.done; num_runs = info.num_runs; node = qs } in
    (q, rw saved refl, rw (same q, loaded [] refl) refl)
