-- ===== src/Store/Memory/Backend.antt =====
-- The in-process store as an implementation of the two interfaces.
use vatbrain.Float.{Float64}
use vatbrain.Store.{MemoryStore, RuleConflictStore}
use vatbrain.Store.Memory.Conflicts.{list_rule_conflicts, save_rule_conflict, resolve_rule_conflict}
use vatbrain.Store.Memory.Edges.{create_edge, get_edges}
use vatbrain.Store.Memory.Episodics.{
  write_episodic, get_episodic, touch_episodic, update_episodic_weight, mark_obsolete,
  write_semantic, mark_semantic_obsolete,
}
use vatbrain.Store.Memory.Pitfalls.{
  write_pitfall, get_pitfall, search_pitfall, search_pitfall_by_entity, touch_pitfall,
  update_pitfall_status, add_pitfall_counters, apply_pitfall_feedback,
}
use vatbrain.Store.Memory.Search.{search_episodic, search_semantic, scan_recent}
use vatbrain.Store.Memory.State.{Store}

module _ {W : Type 0} ⦃d : Float64 W⦄ where
  instance abbrev pub memory_store : MemoryStore W (Store W)
  memory_store = record {
    write_episodic = write_episodic;
    get_episodic = get_episodic;
    search_episodic = search_episodic;
    touch_episodic = touch_episodic;
    update_episodic_weight = update_episodic_weight;
    mark_obsolete = mark_obsolete;
    write_semantic = write_semantic;
    search_semantic = search_semantic;
    create_edge = create_edge;
    get_edges = get_edges;
    scan_recent = scan_recent;
    write_pitfall = write_pitfall;
    get_pitfall = get_pitfall;
    search_pitfall = search_pitfall;
    search_pitfall_by_entity = search_pitfall_by_entity;
    touch_pitfall = touch_pitfall;
    update_pitfall_status = update_pitfall_status;
    add_pitfall_counters = add_pitfall_counters;
    apply_pitfall_feedback = apply_pitfall_feedback;
  }

module _ {W : Type 0} where
  instance abbrev pub memory_conflicts : RuleConflictStore W (Store W)
  memory_conflicts = record {
    list_rule_conflicts = list_rule_conflicts;
    save_rule_conflict = save_rule_conflict;
    resolve_rule_conflict = resolve_rule_conflict;
    mark_semantic_obsolete = mark_semantic_obsolete;
  }
