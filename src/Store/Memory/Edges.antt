-- ===== src/Store/Memory/Edges.antt =====
-- The edges of internal/store/memory/memory_store.go. `created_at` is the clock's reading.
use vatbrain.Prelude.{
  Bool, not, ◌&&◌, String, List, [], ◌∷◌, ◌++◌, keep, nat_eq, string_eq, ◌==◌, ◌!=◌, if◌then◌else◌,
}
use vatbrain.Prelude.Result.{Action, Done, ok}
use vatbrain.Models.Common.{Uuid, Time}
use vatbrain.Store.{Edge, Property}
use vatbrain.Store.Memory.State.{Store}

module _ {W : Type 0} where
  unfoldable pub create_edge :
      Uuid → Uuid → String → List (String × Property W) → Time → Action (Store W) Done
  create_edge from to type props now s =
      let e : Edge W = record {
        from_id = from;
        to_id = to;
        edge_type = type;
        properties = props;
        created_at = now;
      } in
      (ok tt, record s { edges = s.edges ++ e ∷ [] })

  -- the `switch direction`: any other word than "out" and "in" asks for both
  touches : Uuid → String → Edge W → Bool
  touches node direction e =
      if direction == "out"
      then e.from_id == node
      else if direction == "in"
      then e.to_id == node
      else not (e.from_id != node && e.to_id != node)

  unfoldable pub get_edges : Uuid → String → String → Action (Store W) (List (Edge W))
  unfolding touches
  get_edges node type direction s = (
    ok (keep (λ e. not (type != "" && e.edge_type != type) && touches node direction e) s.edges),
    s,
  )
