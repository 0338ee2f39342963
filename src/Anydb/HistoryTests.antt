-- ===== src/Anydb/HistoryTests.antt =====
-- Calls on a database in memory, one after another, and a fetch behind them.
use mostly.Common.{◌≡◌, refl, inl, inr, [], ◌∷◌, true, false, none, arith}
use mostly.Ncode.Json.{to_json, decode_json}
use mostly.Anydb.Interface.{modifier_error}
use mostly.Anydb.{
  returned, walk, fetch_keys, fetch_tx, fetch, store_nested_keys, store_nested_tx, store_nested,
  update_tx_nested, update_nested,
}
use mostly.Anydb.Memory.{Contents, memory, write_key, same_key, commit}
use mostly.Anydb.Laws.{locate}
use mostly.Anydb.Calls.{stores_nested, updates_nested, run_call}
use mostly.Anydb.History.{no_calls, then_call, Keeps, fetch-latest}
use mostly.Anydb.Tests.{numbers, seven, key_a, key_b, add_one, refuse}

abbrev raised : Contents
raised = (run_call memory numbers true seven (updates_nested [] key_b add_one)).0

-- A store elsewhere, and an update of the same key whose modifier fails.
abbrev behind : Contents
behind =
    (run_call memory numbers true (run_call memory numbers true raised (stores_nested [] key_a 9)).0
      (updates_nested [] key_b refuse)).0

later : Keeps memory numbers true ((3 ∷ []), key_b) raised behind
unfolding locate walk fetch fetch_tx fetch_keys store_nested store_nested_tx store_nested_keys
    write_key commit same_key to_json decode_json update_tx_nested update_nested
later =
    then_call (updates_nested [] key_b refuse)
      (then_call (stores_nested [] key_a 9) no_calls (inr (ground arith)))
      (inl (modifier_error 3, refl))

fetch-latest_example : fetch memory numbers false behind (3 ∷ []) key_b ≡ returned 8 none
unfolding locate walk fetch fetch_tx fetch_keys store_nested store_nested_tx store_nested_keys
    write_key commit same_key to_json decode_json update_tx_nested update_nested
fetch-latest_example =
    fetch-latest memory numbers true false ((3 ∷ []), key_b) seven behind 8
      (updates_nested [] key_b add_one) (8 ∷ []) (7, refl, refl) refl refl refl later
