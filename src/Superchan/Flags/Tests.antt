-- ===== src/Superchan/Flags/Tests.antt =====
-- `-defer-first=f -defer-ordered -defer-first` before a signal.
use mostly.Common.{ℕ, ◌≡◌, ◌⊎◌, refl, List, [], ◌∷◌, ◌++◌, map, Bool, true, false, none, some}
use mostly.Cancellable.Context.{custom, Store, cause, cancel}
use mostly.Cancellable.Handle.{call_cancel}
use mostly.Cancellable.Chan.{Channel, receive, got}
use mostly.Flags.{set_flag}
use mostly.Flags.Tests.{letters}
use mostly.Superchan.State.{Superchan, Config, default_config, groups, is_dead, clear}
use mostly.Superchan.Goroutines.{Event, began, returned}
use mostly.Superchan.Goroutines.Barriers.{both, Stretches}
use mostly.Superchan.Rundeferred.{in_sequence, finished, call_groups, call_each}
use mostly.Superchan.Main.{
  World, MainEvent, MainSignalHandler, deferred_then_cancel, closing, deferred, cancelled,
  signal_stopped, chan_closed, set_ch,
}
use mostly.Superchan.Flags.{SetCall, first_flag, ordered_flag, set_one, set_all}
use mostly.Superchan.Flags.Laws.{given, arranged, flags_lem}

abbrev line : List SetCall
line = (first_flag, 102 ∷ []) ∷ (ordered_flag, 116 ∷ []) ∷ (first_flag, 116 ∷ []) ∷ []

abbrev both_off : Config
both_off = record { cancel_before_defer = false; use_goroutine_defer = false }

abbrev quiet : ℕ → Bool
quiet f = false

abbrev signalled : Superchan ℕ ℕ
signalled = record {
  chan = record {
    handle = record { context = 0; cancel_func = some 0 };
    ch = record { buf = 15 ∷ []; cap = 4; closed = false };
  };
  deferfuncs = some (3 ∷ 4 ∷ []);
  deferlast = none;
  deferfirst = none;
}

abbrev emptied : Superchan ℕ ℕ
emptied = record signalled {
  chan = record signalled.chan { ch = record { buf = []; cap = 4; closed = false } };
}

abbrev root : Store
root = record { parent = none; own = none } ∷ []

abbrev start : World ℕ
start = record { chan = signalled; store = root }

abbrev calls : List (Event ℕ)
calls = began 3 ∷ returned 3 ∷ began 4 ∷ returned 4 ∷ []

abbrev seen : List (MainEvent ℕ)
seen = map deferred calls ++ cancelled (custom 15) ∷ signal_stopped ∷ chan_closed ∷ []

abbrev after_signal : Store
after_signal = record { parent = none; own = some (custom 15) } ∷ []

handles :
    MainSignalHandler quiet both_off custom 0 start seen
      (record { chan = set_ch (clear emptied) true; store = after_signal })
      finished
unfolding receive call_cancel cancel cause is_dead call_groups call_each clear
handles =
    deferred_then_cancel 15 calls (clear emptied) after_signal [] refl refl
      (in_sequence refl refl refl) refl

flags_example :
    (false ≡ false)
    × (false ≡ false)
    × ((sig : ℕ) × (left : Channel ℕ) × (receive 0 signalled.chan.ch ≡ got sig left)
        × ((fs : List (Event ℕ)) × Stretches quiet (groups signalled) fs
            × (seen ≡ arranged false (custom sig) fs ++ closing signalled)
            × ((false ≡ true)
                ⊎ (fs ≡ both quiet [] ++ (both quiet (3 ∷ 4 ∷ []) ++ both quiet [])))))
unfolding cause given set_all set_one set_flag
flags_example =
    flags_lem quiet custom 0 letters line default_config both_off {w = start} refl refl handles
