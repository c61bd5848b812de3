-- ===== src/Tests/Windows.antt =====
-- Tests of the trace window and of the trace store.
use stocky_cognitive_runtime.Prelude.{
  ◌+◌, ◌≤◌, ◌≡◌, String, none, some, List, [], ◌∷◌, arith, length,
}
use stocky_cognitive_runtime.Prelude.Int.{pos, negsuc}
use stocky_cognitive_runtime.Data.Float.{Float}
use stocky_cognitive_runtime.Data.Trace.{ExecutionTrace}
use stocky_cognitive_runtime.Data.Store.{add_all, new_store, last, recent, recent-last}
use stocky_cognitive_runtime.TraceWindow.{TraceWindow, new_window, append, all_traces}
use stocky_cognitive_runtime.TraceWindow.History.{
  Keeps, new-Keeps, append_all, append-Keeps, append_all_new, append_all-Keeps,
}
use stocky_cognitive_runtime.TraceWindow.Access.{get_item, get_slice, list_item, list_slice}
use stocky_cognitive_runtime.TraceWindow.Reads.{get_item-Keeps, get_item_below}
use stocky_cognitive_runtime.TraceWindow.Slices.{get_slice-Keeps}
use stocky_cognitive_runtime.Tests.Samples.{trace}

abbrev same_text : String → String
same_text s = s

abbrev no_text : Float → String
no_text x = "0.0"

abbrev three : List ExecutionTrace
three = trace "a" ∷ trace "b" ∷ trace "c" ∷ []

append_all_new_example :
    (w : TraceWindow) × (append_all same_text no_text (new_window 2 5) three ≡ some w)
    × (all_traces w ≡ three)
    × (w.total_count ≡ length three)
    × (w.archived_total + length w.active ≡ length three)
    × (length w.active ≤ w.max_active)
    × (length w.archived ≤ 1)
append_all_new_example = append_all_new same_text no_text 2 5 three (omega arith) (omega arith)

-- A window of two traces, of which one is archived.
small :
    (w : TraceWindow) × (append same_text no_text (new_window 2 5) (trace "a") ≡ some w)
    × Keeps (trace "a" ∷ []) w
small =
    append-Keeps same_text no_text (new_window 2 5) [] (trace "a")
      (new-Keeps 2 5 (omega arith) (omega arith))

get_slice-Keeps_example :
    get_slice small.0 (some (negsuc 0)) none 1
    ≡ list_slice (trace "a" ∷ []) (some (negsuc 0)) none 1
get_slice-Keeps_example = get_slice-Keeps small.0 (trace "a" ∷ []) (some (negsuc 0)) none small.2

get_item-Keeps_example : get_item small.0 (negsuc 0) ≡ list_item (trace "a" ∷ []) (negsuc 0)
get_item-Keeps_example = get_item-Keeps small.0 (trace "a" ∷ []) (negsuc 0) small.2 (omega arith)

get_item_below_example :
    (t : ExecutionTrace) × (get_item small.0 (negsuc 1) ≡ some t)
    × (list_item (trace "a" ∷ []) (negsuc 1) ≡ none)
get_item_below_example =
    get_item_below small.0 (trace "a" ∷ []) 1 small.2 (omega arith) (omega arith)

grown :
    (w : TraceWindow) × (append_all same_text no_text small.0 three ≡ some w)
    × Keeps (trace "a" ∷ three) w
grown = append_all-Keeps same_text no_text small.0 (trace "a" ∷ []) three small.2

recent-last_example :
    ((add_all (new_store 2) three).traces ≡ last 2 three)
    × (recent (add_all (new_store 2) three) (pos 1) ≡ last 1 three)
recent-last_example = recent-last 2 0 three (omega arith)
